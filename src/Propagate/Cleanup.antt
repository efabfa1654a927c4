-- ===== src/Propagate/Cleanup.antt =====
-- What propagate.Cleanup removes from the MCP, and what it keeps.
use mathlib.Core.Path.{subst}
use mathlib.Core.Bool.{false≢true}
use platform_service_gitops.K8s.Client.{Client}
use platform_service_gitops.Prelude.{
  Bool-cases, Option, String, arith, eq_iff, if◌then◌else◌, inl, inr, none, some, sym, true, ◌==◌,
  ◌∙◌, ◌≡◌, ◌⊎◌, ap,
}
use platform_service_gitops.Propagate.{
  delete_owned, managed_by_annotation, managed_by_value, cleanup, flux_key, flux_meta, secret_key,
  secret_meta,
}
use platform_service_gitops.K8s.Meta.{NamespacedName, ObjectMeta, key_of}
use platform_service_gitops.K8s.Laws.{IsReleased, StoreLaws, FrameLaws, Keeps}
use platform_service_gitops.Api.GitRepository.{GitRepository}
use platform_service_gitops.Go.Dict.{at_key}
use platform_service_gitops.Go.Eff.{Eff, fail, pure, try}
use platform_service_gitops.Go.Invariant.{Result-cases, try-err, try-ok}
use platform_service_gitops.Go.Error.{Error, Result, err, ok, wrap}
use platform_service_gitops.Propagate.Laws.{IsOwned, McpLaws}
use platform_service_gitops.K8s.Objects.{McpClient, FluxGitRepository}
use platform_service_gitops.Propagate.Ownership.{forgive-world}

-- A Get that found out what is stored: it gave the object, or said that there is none.
abbrev pub Answered : {A : Type 0} → Result A → Type 0
Answered (ok a) = Unit {0}
Answered (err e) = e.not_found ≡ true

-- No object at the key is owned by the GitRepository.
abbrev pub NoneOwned : {O : Type 0} → (O → ObjectMeta) → GitRepository → Option O → Type 0
NoneOwned meta gr none = Unit {0}
NoneOwned meta gr (some o) = ¬ (IsOwned gr (meta o))

-- No object at the key is owned by the GitRepository, or it is on its way out.
abbrev pub IsRelinquished : {O : Type 0} → (O → ObjectMeta) → GitRepository → Option O → Type 0
IsRelinquished meta gr v = NoneOwned meta gr v ⊎ IsReleased meta v

forgiven :
    {W : Type 0} (m : Eff W (Result (Unit {0}))) (f : Error → Error) (w : W)
    → (try m (λ e. if e.not_found then pure (ok tt) else fail (f e)) (λ _. pure (ok tt)) w).0
      ≡ ok tt
    → Answered (m w).0
forgiven m f w h = elim (Result-cases (m w).0) [
  | inl (a, r) ↦ rw r tt
  | inr (e, r) ↦ rw r (ground arith)
]

module _ {W O : Type 0} (c : Client W O) (meta : O → ObjectMeta) {sent : O → O}
    (L : StoreLaws c meta sent) where
  delete-IsReleased :
      (k : NamespacedName) (w : W)
      → Answered (c.delete k w).0
      → IsReleased meta (L.view (c.delete k w).1 k)
  delete-IsReleased k w h = elim (Result-cases (c.delete k w).0) [
    | inl (tt, r) ↦ L.delete_ok k w r
    | inr (e, r) ↦ rw (L.delete_absent k w e r (subst Answered r h)) tt
  ]

  -- One half of Cleanup, if its Get was answered and it reports no error, leaves nothing that is
  -- owned and stays.
  pub delete_owned-IsRelinquished :
      (gr : GitRepository) (message : String) (k : NamespacedName) (w : W)
      → Answered (c.get k w).0
      → (delete_owned c meta (managed_by_value gr) message k w).0 ≡ ok tt
      → IsRelinquished meta gr (L.view (delete_owned c meta (managed_by_value gr) message k w).1 k)
  unfolding delete_owned
  delete_owned-IsRelinquished gr message k w a h = elim (Result-cases (c.get k w).0) [
    | inr (e, r) ↦
        let gone : L.view w k ≡ none = L.get_absent k w e r (subst Answered r a) in
        rw (r, L.get_keeps k w, gone) (inl tt)
    | inl (x, r) ↦
        elim (Bool-cases
          (at_key managed_by_annotation (meta x).annotations == managed_by_value gr)) [
            | inr other ↦
                rw (r, other, L.get_keeps k w, L.get_ok k w x r)
                  (inl (λ p. false≢true (sym other ∙ (eq_iff _ _).1 p)))
            | inl owned ↦
                let at_k : key_of (meta x) ≡ k = L.get_key k w x r in
                let w' : W = (c.get k w).1 in
                let f : Error → Error = wrap message in
                let h' : Answered (c.delete (key_of (meta x)) w').0 =
                  forgiven (c.delete (key_of (meta x))) f w' (rw (r, owned) at h) in
                rw (r, owned, forgive-world (c.delete (key_of (meta x))) f, at_k)
                  (inr (delete-IsReleased k w' (subst (λ j. Answered (c.delete j w').0) at_k h')))
          ]
  ]

module _ {W O V : Type 0} (c : Client W O) (meta : O → ObjectMeta) (other : W → V)
    (F : FrameLaws c other) where
  pub delete_owned-frame :
      (managed_by message : String) (k : NamespacedName)
      → Keeps other (delete_owned c meta managed_by message k)
  unfolding delete_owned
  delete_owned-frame managed_by message k w = elim (Result-cases (c.get k w).0) [
    | inr (e, r) ↦ rw r (F.get_frame k w)
    | inl (x, r) ↦
        elim (Bool-cases (at_key managed_by_annotation (meta x).annotations == managed_by)) [
          | inr apart ↦ rw (r, apart) (F.get_frame k w)
          | inl owned ↦
              rw (r, owned, forgive-world (c.delete (key_of (meta x))) (wrap message))
                (F.delete_frame (key_of (meta x)) (c.get k w).1 ∙ F.get_frame k w)
        ]
  ]

module _ {W : Type 0} (mcp : McpClient W) (gr : GitRepository) (flux_namespace : String) where
  -- The first half of Cleanup.
  abbrev pub delete_flux : Eff W (Result (Unit {0}))
  delete_flux =
      delete_owned mcp.flux_git_repositories flux_meta (managed_by_value gr)
        "deleting Flux GitRepository: " (flux_key gr flux_namespace)

  abbrev pub delete_secret : Eff W (Result (Unit {0}))
  delete_secret =
      delete_owned mcp.secrets secret_meta (managed_by_value gr) "deleting token Secret: "
        (secret_key gr flux_namespace)

  cleanup-split :
      (w : W)
      → (cleanup mcp gr flux_namespace w).0 ≡ ok tt
      → (delete_flux w).0 ≡ ok tt
        × (cleanup mcp gr flux_namespace w ≡ delete_secret (delete_flux w).1)
  unfolding cleanup
  cleanup-split w h = elim (Result-cases (delete_flux w).0) [
    | inl (tt, r) ↦ (r, try-ok delete_flux fail (λ _. delete_secret) w r)
    | inr (e, r) ↦
        absurd (refused (ap (λ p. p.0) (try-err delete_flux fail (λ _. delete_secret) w r)) h)
  ]
    where
      refused : {x : Result (Unit {0})} {e : Error} → x ≡ err e → x ≡ ok tt → ⊥
      refused p q = cc

module _ {W : Type 0} (mcp : McpClient W) (L : McpLaws mcp) (gr : GitRepository)
    (flux_namespace : String) where
  abbrev after : W → W
  after w = (cleanup mcp gr flux_namespace w).1

  abbrev after_flux : W → W
  after_flux w = (delete_flux mcp gr flux_namespace w).1

  -- On an API server that obeys McpLaws, if both Gets are answered and Cleanup reports no error,
  -- then for the Flux GitRepository and for the token Secret of that name in the MCP: it is gone,
  -- or the GitRepository does not own it, or it is terminating and has finalizers.
  pub cleanup-IsRelinquished :
      (w : W)
      → Answered (mcp.flux_git_repositories.get (flux_key gr flux_namespace) w).0
      → Answered (mcp.secrets.get (secret_key gr flux_namespace) (after_flux w)).0
      → (cleanup mcp gr flux_namespace w).0 ≡ ok tt
      → IsRelinquished flux_meta gr (L.flux.view (after w) (flux_key gr flux_namespace))
        × IsRelinquished secret_meta gr (L.secrets.view (after w) (secret_key gr flux_namespace))
  cleanup-IsRelinquished w a b h =
      let (first, same) = cleanup-split mcp gr flux_namespace w h in
      let second : (delete_secret mcp gr flux_namespace (after_flux w)).0 ≡ ok tt =
        ap (λ p. p.0) (sym same) ∙ h in
      let fk : NamespacedName = flux_key gr flux_namespace in
      let sk : NamespacedName = secret_key gr flux_namespace in
      subst
        (λ v.
          IsRelinquished flux_meta gr (L.flux.view v fk)
          × IsRelinquished secret_meta gr (L.secrets.view v sk))
        (sym (ap (λ p. p.1) same))
        (
          subst
              (λ (v : NamespacedName → Option FluxGitRepository).
                IsRelinquished flux_meta gr (v fk))
              (sym (
                delete_owned-frame mcp.secrets secret_meta L.flux.view L.secrets_frame
                  (managed_by_value gr) "deleting token Secret: " sk (after_flux w)))
              (delete_owned-IsRelinquished mcp.flux_git_repositories flux_meta L.flux gr
                "deleting Flux GitRepository: " fk w a first),
          delete_owned-IsRelinquished mcp.secrets secret_meta L.secrets gr "deleting token Secret: "
              sk (after_flux w) b second,
        )
