-- ===== src/Controller/GitRepository/Sequence/States.antt =====
-- internal/controller/core/gitrepository_controller.go: a pass changes the states of the targets by
-- setPropagateStatus and filterPropagateStatus only.
use platform_service_gitops.Controller.GitRepository.Sequence.Calls.{SafeCalls}
use platform_service_gitops.Controller.{Runtime, requeue_interval}
use platform_service_gitops.Prelude.{Bool-cases, List, [], arith, inl, inr, refl, ◌==◌, ◌∷◌, ◌≡◌}
use platform_service_gitops.McpAccess.{ResolvedTarget}
use platform_service_gitops.Propagate.{TokenMinter}
use platform_service_gitops.Api.GitRepository.{GitRepository, PropagateStatus}
use platform_service_gitops.Api.AppInstallation.{AppInstallation}
use platform_service_gitops.Go.Invariant.{Result-cases}
use platform_service_gitops.Go.Int.{pos, ℤ}
use platform_service_gitops.Go.Time.{Duration}
use platform_service_gitops.Controller.GitRepository.Target.{reconcile_target}
use platform_service_gitops.Controller.GitRepository.Credential.{
  credential_key, judge, resolve_credential, resolve_github_creds, set_resolved,
}
use platform_service_gitops.Controller.GitRepository.Base.{
  GitRepositoryReconciler, kind_app_installation,
}
use platform_service_gitops.Controller.GitRepository.Propagation.{
  reconcile_propagate, sync_all, sync_targets,
}
use platform_service_gitops.Go.Eff.{pure, Eff}
use platform_service_gitops.Go.Error.{Result, err, ok}

module _ {W : Type 0} (rt : Runtime W) (r : GitRepositoryReconciler W) where
  judge-states :
      (gr : GitRepository) (ai : AppInstallation) (w : W)
      → (judge rt r gr ai w).0.0.status.propagated ≡ gr.status.propagated
  unfolding judge set_resolved
  judge-states gr ai w = ground arith

  pub resolve_credential-states :
      (gr : GitRepository) (w : W)
      → (resolve_credential rt r gr w).0.0.status.propagated ≡ gr.status.propagated
  unfolding resolve_credential set_resolved
  resolve_credential-states gr w =
      elim (Bool-cases (gr.spec.credential_ref.kind == kind_app_installation)) [
        | inr other ↦ rw other refl
        | inl kind ↦
            elim (Result-cases (r.onboarding.app_installations.get (credential_key gr) w).0) [
              | inr (e, p) ↦ rw (kind, p) refl
              | inl (ai, p) ↦ rw (kind, p) (judge-states gr ai _)
            ]
      ]

module _ {W : Type 0} {P : W → Type 0} {G : List PropagateStatus → Type 0} (rt : Runtime W)
    (r : GitRepositoryReconciler W) (s : SafeCalls P G rt r) where
  sync_targets-states :
      (ts : List (ResolvedTarget W)) (gr : GitRepository) (id : ℤ) (minter : TokenMinter W)
      (earliest : Duration) (w : W)
      → G gr.status.propagated
      → G (sync_targets rt r ts gr id minter earliest w).0.0.status.propagated
  unfolding sync_targets
  sync_targets-states [] gr id minter earliest w g = g
  sync_targets-states (t ∷ ts) gr id minter earliest w g =
      sync_targets-states ts _ id minter _ _
        (s.set_states gr.status.propagated (reconcile_target rt r gr t id minter w).0 g)

  pub propagate-states :
      (gr : GitRepository) (ai : AppInstallation) (id : ℤ) (w : W)
      → G gr.status.propagated
      → G (reconcile_propagate rt r gr ai id w).0.0.status.propagated
  unfolding reconcile_propagate sync_all
  propagate-states gr ai id w g =
      let res = r.mcp_resolver.resolve gr r.onboarding.control_planes w in
      elim (Result-cases res.0) [
        | inr (e, p) ↦ rw p g
        | inl (ts, p) ↦ elim (Result-cases (resolve_github_creds rt r ai res.1).0) [
          | inr (e, q) ↦ rw (p, q) g
          | inl (creds, q) ↦ rw (p, q) (built ts (r.new_minter creds) _)
        ]
      ]
    where
      built :
          (ts : List (ResolvedTarget W)) (x : Result (TokenMinter W)) (v : W)
          → G
              ((elim x as (λ _. Eff W (GitRepository × Duration)) [
                | err _ ↦ pure (gr, requeue_interval)
                | ok minter ↦ sync_all rt r ts gr id minter
              ])
                v).0.0.status.propagated
      built ts (err e) v = g
      built ts (ok minter) v = s.filter_states _ _ (sync_targets-states ts gr id minter (pos 0) v g)
