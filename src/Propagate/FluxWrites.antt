-- ===== src/Propagate/FluxWrites.antt =====
-- What syncFluxGitRepository writes.
use mathlib.Core.Path.{subst}
use mathlib.Core.Bool.{true≢false}
use platform_service_gitops.Prelude.{
  Bool-cases, String, inl, inr, refl, some, ◌≡◌, false, ◌∙◌, Bool, eq_iff, sym, ◌==◌, ap,
}
use platform_service_gitops.Propagate.{
  flux_git_repository_spec, sync_flux_git_repository, desired_flux, managed_by_annotation,
  managed_by_value, no_conflict,
}
use platform_service_gitops.K8s.Meta.{NamespacedName, key_of}
use platform_service_gitops.K8s.Objects.{McpClient, FluxGitRepository}
use platform_service_gitops.Api.GitRepository.{GitRepository}
use platform_service_gitops.Go.Dict.{lookup, at_key}
use platform_service_gitops.Go.Invariant.{Result-cases, err≢ok, ok-injective}
use platform_service_gitops.Go.Error.{ok, Result}
use platform_service_gitops.Propagate.Laws.{IsOwned, McpLaws, sent_flux}
use platform_service_gitops.K8s.Laws.{Keeps}
use platform_service_gitops.Go.Eff.{Eff}

no_conflict-world :
    {W : Type 0} (m : Eff W (Result (Unit {0}))) (w : W) → (no_conflict m w).1 ≡ (m w).1
no_conflict-world m w = elim (Result-cases (m w).0) [
  | inl (a, r) ↦ rw r refl
  | inr (e, r) ↦ rw r refl
]

no_conflict-ok :
    {W : Type 0} (m : Eff W (Result (Unit {0}))) (w : W) {b : Bool}
    → (no_conflict m w).0 ≡ ok b
    → ((m w).0 ≡ ok tt) × (b ≡ false)
no_conflict-ok m w h = elim (Result-cases (m w).0) [
  | inl (tt, r) ↦ (r, sym (ok-injective (rw r at h)))
  | inr (e, r) ↦ absurd (err≢ok (rw r at h))
]

module _ {W : Type 0} (mcp : McpClient W) (L : McpLaws mcp) (gr : GitRepository)
    (namespace name : String) where
  abbrev pub place : NamespacedName
  place = record { namespace = namespace; name = gr.meta.name }

  abbrev asked : W → W
  asked w = (mcp.flux_git_repositories.get place w).1

  -- Writing the Flux GitRepository leaves the Secrets alone.
  pub sync_flux-frame : Keeps L.secrets.view (sync_flux_git_repository mcp gr namespace name)
  unfolding sync_flux_git_repository
  sync_flux-frame w = elim (Result-cases (mcp.flux_git_repositories.get place w).0) [
    | inl (x, r) ↦
        elim (Bool-cases (at_key managed_by_annotation x.meta.annotations == managed_by_value gr)) [
          | inl owned ↦
              rw (r, owned, no_conflict-world)
                (L.flux_frame.update_frame _ (asked w) ∙ L.flux_frame.get_frame place w)
          | inr other ↦ rw (r, other) (L.flux_frame.get_frame place w)
        ]
    | inr (e, r) ↦ elim (Bool-cases e.not_found) [
      | inl gone ↦
          rw (r, gone, no_conflict-world)
            (L.flux_frame.create_frame _ (asked w) ∙ L.flux_frame.get_frame place w)
      | inr other ↦ rw (r, other) (L.flux_frame.get_frame place w)
    ]
  ]

  IsOwned-along :
      (s o : FluxGitRepository) → sent_flux s ≡ sent_flux o → IsOwned gr o.meta → IsOwned gr s.meta
  IsOwned-along s o same owned =
      ap (λ (y : FluxGitRepository). at_key managed_by_annotation y.meta.annotations) same ∙ owned

  abbrev pub FluxWritten : W → Type 0
  FluxWritten w =
      (f : FluxGitRepository) × (L.flux.view w place ≡ some f)
      × (f.spec ≡ flux_git_repository_spec gr name)
      × IsOwned gr f.meta

  pub sync_flux-FluxWritten :
      (w : W)
      → (sync_flux_git_repository mcp gr namespace name w).0 ≡ ok false
      → FluxWritten (sync_flux_git_repository mcp gr namespace name w).1
  unfolding sync_flux_git_repository managed_by_value lookup
  sync_flux-FluxWritten w h =
      let d : FluxGitRepository = desired_flux gr namespace name in
      elim (Result-cases (mcp.flux_git_repositories.get place w).0) [
        | inl (x, r) ↦
            let at_k : key_of x.meta ≡ place = L.flux.get_key place w x r in
            let u : FluxGitRepository = record x { spec = flux_git_repository_spec gr name } in
            elim (Bool-cases
              (at_key managed_by_annotation x.meta.annotations == managed_by_value gr)) [
                | inl owned ↦
                    let done : (mcp.flux_git_repositories.update u (asked w)).0 ≡ ok tt =
                      (no_conflict-ok (mcp.flux_git_repositories.update u) (asked w)
                        (rw (r, owned) at h)).0 in
                    let (s, kept, same) =
                      L.flux.update_ok u (asked w) (L.flux.get_kept place w x r) done in
                    (
                      s,
                      rw (r, owned, no_conflict-world)
                          (subst
                            (λ j.
                              L.flux.view (mcp.flux_git_repositories.update u (asked w)).1 j
                              ≡ some s)
                            at_k kept),
                      ap (λ (y : FluxGitRepository). y.spec) same,
                      IsOwned-along s u same ((eq_iff _ _).0 owned),
                    )
                | inr other ↦ absurd (true≢false (ok-injective (rw (r, other) at h)))
              ]
        | inr (e, r) ↦ elim (Bool-cases e.not_found) [
          | inl gone ↦
              let done : (mcp.flux_git_repositories.create d (asked w)).0 ≡ ok tt =
                (no_conflict-ok (mcp.flux_git_repositories.create d) (asked w)
                  (rw (r, gone) at h)).0 in
              let (s, kept, same) = L.flux.create_ok d (asked w) done in
              (
                s,
                rw (r, gone, no_conflict-world) kept,
                ap (λ (y : FluxGitRepository). y.spec) same,
                IsOwned-along s d same refl,
              )
          | inr other ↦ absurd (err≢ok (rw (r, other) at h))
        ]
      ]
