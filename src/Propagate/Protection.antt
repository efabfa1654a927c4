-- ===== src/Propagate/Protection.antt =====
-- Cleanup and the objects that the GitRepository does not own.
use platform_service_gitops.K8s.Client.{Client}
use platform_service_gitops.Propagate.{
  cleanup, delete_owned, flux_key, flux_meta, managed_by_value, secret_key, secret_meta,
}
use platform_service_gitops.Prelude.{Option, String, ap, inl, inr, none, some, sym, ◌∙◌, ◌≡◌}
use platform_service_gitops.K8s.Meta.{NamespacedName, ObjectMeta}
use platform_service_gitops.K8s.Objects.{FluxGitRepository, McpClient, Secret}
use platform_service_gitops.K8s.Laws.{StoreLaws}
use platform_service_gitops.Api.GitRepository.{GitRepository}
use platform_service_gitops.Go.Invariant.{Preserves, Preserves-fail, Preserves-try, Result-cases}
use platform_service_gitops.Propagate.Ownership.{delete_owned-foreign}
use platform_service_gitops.Propagate.Laws.{McpLaws}
use platform_service_gitops.Propagate.Cleanup.{
  NoneOwned, delete_flux, delete_owned-frame, delete_secret,
}

module _ {W O : Type 0} (c : Client W O) (meta : O → ObjectMeta) {sent : O → O}
    (L : StoreLaws c meta sent) where
  delete_owned-keeps :
      (gr : GitRepository) (message : String) (k : NamespacedName) (v : Option O) (w : W)
      → NoneOwned meta gr v
      → L.view w k ≡ v
      → L.view (delete_owned c meta (managed_by_value gr) message k w).1 k ≡ v
  unfolding delete_owned
  delete_owned-keeps gr message k (some o) w foreign held =
      delete_owned-foreign c meta L gr message k o w held foreign
  delete_owned-keeps gr message k none w t held = elim (Result-cases (c.get k w).0) [
    | inr (e, r) ↦ rw r (cc (L.get_keeps k w, held))
    | inl (x, r) ↦ absurd (some≢none (sym (L.get_ok k w x r) ∙ held))
  ]
    where
      some≢none : {x : O} → some x ≡ none → ⊥
      some≢none p = cc

module _ {W : Type 0} (mcp : McpClient W) (L : McpLaws mcp) (gr : GitRepository)
    (flux_namespace : String) where
  abbrev Stored : Option FluxGitRepository → Option Secret → W → Type 0
  Stored v s w =
      (L.flux.view w (flux_key gr flux_namespace) ≡ v)
      × (L.secrets.view w (secret_key gr flux_namespace) ≡ s)

  -- On an API server that obeys McpLaws, whatever the calls of Cleanup return, if what is stored
  -- under the two names is not owned by the GitRepository, or nothing is, then both places are
  -- afterwards as before.
  pub cleanup_leaves_foreign :
      (w : W) (v : Option FluxGitRepository) (s : Option Secret)
      → L.flux.view w (flux_key gr flux_namespace) ≡ v
      → L.secrets.view w (secret_key gr flux_namespace) ≡ s
      → NoneOwned flux_meta gr v
      → NoneOwned secret_meta gr s
      → (L.flux.view (cleanup mcp gr flux_namespace w).1 (flux_key gr flux_namespace) ≡ v)
        × (L.secrets.view (cleanup mcp gr flux_namespace w).1 (secret_key gr flux_namespace) ≡ s)
  unfolding cleanup
  cleanup_leaves_foreign w v s at_flux at_secret foreign_flux foreign_secret =
      (Preserves-try {P = Stored v s} _ _ _ first (λ e. Preserves-fail e) (λ _. second)).at w
        (at_flux, at_secret)
    where
      first : Preserves (Stored v s) (delete_flux mcp gr flux_namespace)
      first = record {
        at = λ x h. (
          delete_owned-keeps mcp.flux_git_repositories flux_meta L.flux gr _ _ v x foreign_flux h.0,
          ap (λ t. t (secret_key gr flux_namespace))
                (delete_owned-frame mcp.flux_git_repositories flux_meta L.secrets.view L.flux_frame
                  _ _ _ x)
              ∙ h.1,
        );
      }

      second : Preserves (Stored v s) (delete_secret mcp gr flux_namespace)
      second = record {
        at = λ x h. (
          ap (λ t. t (flux_key gr flux_namespace))
                (delete_owned-frame mcp.secrets secret_meta L.flux.view L.secrets_frame _ _ _ x)
              ∙ h.0,
          delete_owned-keeps mcp.secrets secret_meta L.secrets gr _ _ s x foreign_secret h.1,
        );
      }
