-- ===== src/Propagate/Elsewhere/Foreign.antt =====
-- internal/propagate beside a Flux GitRepository which no GitRepository owns.
use platform_service_gitops.Propagate.{
  delete_owned, flux_meta, secret_meta, managed_by_value, desired_flux, flux_git_repository_spec,
  flux_key, managed_by_annotation,
}
use text.Mathlib.TextLemmas.{append-ne-nil_of_right_ne-nil, cons-append, cons-ne-nil}
use mathlib.Core.Path.{subst}
use mathlib.Core.Option.{some-injective}
use platform_service_gitops.K8s.Objects.{McpClient, FluxGitRepository}
use platform_service_gitops.Prelude.{
  Option, String, inl, inr, none, some, true, ap, ◌∙◌, ◌≡◌, Bool-cases, sym, ◌<>◌,
}
use platform_service_gitops.K8s.Meta.{NamespacedName, key_of, same_key, ObjectMeta}
use platform_service_gitops.Api.GitRepository.{GitRepository}
use platform_service_gitops.Go.Invariant.{Preserves}
use platform_service_gitops.Propagate.Cleanup.{delete_owned-frame}
use platform_service_gitops.K8s.Memory.{same_key-true}
use platform_service_gitops.Propagate.Laws.{IsOwned, McpLaws}
use platform_service_gitops.Go.Error.{Error, err, ok}
use platform_service_gitops.Propagate.Ownership.{delete_owned-foreign, delete_owned-other}
use platform_service_gitops.Propagate.Elsewhere.{Safe, sync_flux-Preserves}
use platform_service_gitops.Go.Dict.{at_key}
use platform_service_gitops.Propagate.Elsewhere.Apart.{
  Keeps-On, frame_create, frame_get, frame_update,
}

slash≢nil : (b : String) → "/" <> b ≡ "" → ⊥
slash≢nil b p = cons-ne-nil "/" ("" <> b) (sym (cons-append "/" "" b) ∙ p)

-- Without the annotation an object belongs to no GitRepository.
pub unmarked-foreign :
    (m : ObjectMeta)
    → at_key managed_by_annotation m.annotations ≡ ""
    → (gr : GitRepository) → ¬ (IsOwned gr m)
unfolding managed_by_value
unmarked-foreign m unmarked gr p =
    append-ne-nil_of_right_ne-nil gr.meta.namespace (slash≢nil gr.meta.name) (sym p ∙ unmarked)

-- The Flux GitRepository `f` is stored at the key `k`.
abbrev pub IsAt :
    NamespacedName → FluxGitRepository → (NamespacedName → Option FluxGitRepository) → Type 0
IsAt k f view = view k ≡ some f

abbrev pub Held :
    {W : Type 0}
    → (W → NamespacedName → Option FluxGitRepository)
    → NamespacedName
    → FluxGitRepository
    → W
    → Type 0
Held see k f w = see w k ≡ some f

-- The MCP that is looked at.
pub record Observed {W : Type 0} (see : W → NamespacedName → Option FluxGitRepository)
    (mcp : McpClient W) : Type 0 where
  pub laws : McpLaws mcp
  pub same_view : laws.flux.view ≡ see

module _ {W : Type 0} (mcp : McpClient W) (L : McpLaws mcp) (k : NamespacedName)
    (f : FluxGitRepository) (foreign : (gr : GitRepository) → ¬ (IsOwned gr f.meta)) where
  abbrev Here : W → Type 0
  Here = Held L.flux.view k f

  observed_create :
      (gr : GitRepository) (namespace name : String) (w : W) (e : Error)
      → Here w
      → (mcp.flux_git_repositories.get (flux_key gr namespace) w).0 ≡ err e
      → e.not_found ≡ true
      → Preserves Here (mcp.flux_git_repositories.create (desired_flux gr namespace name))
  unfolding desired_flux
  observed_create gr namespace name w e held r gone =
      elim (Bool-cases (same_key k (flux_key gr namespace))) [
        | inr apart ↦ record {
          at = λ w' h. L.flux.create_other (desired_flux gr namespace name) w' k apart ∙ h;
        }
        | inl same ↦ absurd (taken (same_key-true _ _ same))
      ]
    where
      none≢some : {v : Option FluxGitRepository} → v ≡ none → v ≡ some f → ⊥
      none≢some p q = cc

      taken : k ≡ flux_key gr namespace → ⊥
      taken p = none≢some (L.flux.get_absent _ w e r gone) (rw p at held)

  observed_update :
      (gr : GitRepository) (namespace name : String) (w : W) (o : FluxGitRepository)
      → Here w
      → (mcp.flux_git_repositories.get (flux_key gr namespace) w).0 ≡ ok o
      → IsOwned gr o.meta
      → Preserves Here
          (mcp.flux_git_repositories.update (record o { spec = flux_git_repository_spec gr name }))
  observed_update gr namespace name w o held r owned =
      elim (Bool-cases (same_key k (key_of o.meta))) [
        | inr apart ↦ record {
          at = λ w' h.
              L.flux.update_other (record o { spec = flux_git_repository_spec gr name }) w' k apart
              ∙ h;
        }
        | inl same ↦ absurd (foreign gr (same_owner (same_key-true _ _ same)))
      ]
    where
      same_owner : k ≡ key_of o.meta → IsOwned gr f.meta
      same_owner p =
          subst (λ x. IsOwned gr x.meta)
            (some-injective o f (
              sym (L.flux.get_ok _ w o r)
              ∙ (ap (λ j. L.flux.view w j) (sym (p ∙ L.flux.get_key _ w o r)) ∙ held)))
            owned

  observed_delete :
      (gr : GitRepository) (message : String) (j : NamespacedName)
      → Preserves Here
          (delete_owned mcp.flux_git_repositories flux_meta (managed_by_value gr) message j)
  observed_delete gr message j = elim (Bool-cases (same_key k j)) [
    | inr apart ↦ record {
      at = λ w h. delete_owned-other _ _ L.flux (managed_by_value gr) message j k w apart ∙ h;
    }
    | inl same ↦
        rw (sym (same_key-true k j same))
          record { at = λ w h. delete_owned-foreign _ _ L.flux gr message k f w h (foreign gr) }
  ]

  pub Observed-Safe : Safe Here mcp
  Observed-Safe = record {
    get_secret = λ j. frame_get L.flux.view (IsAt k f) _ L.secrets_frame j;
    create_secret = λ s. frame_create L.flux.view (IsAt k f) _ L.secrets_frame s;
    update_secret = λ s. frame_update L.flux.view (IsAt k f) _ L.secrets_frame s;
    delete_secret = λ gr message j. Keeps-On L.flux.view (IsAt k f) (
        delete_owned-frame mcp.secrets secret_meta L.flux.view L.secrets_frame (managed_by_value gr)
          message j);
    sync_flux = λ gr namespace name.
        sync_flux-Preserves mcp gr namespace name
          (Keeps-On L.flux.view (IsAt k f) (L.flux.get_keeps (flux_key gr namespace)))
          (observed_create gr namespace name) (observed_update gr namespace name);
    delete_flux = observed_delete;
  }
