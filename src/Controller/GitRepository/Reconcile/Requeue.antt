-- ===== src/Controller/GitRepository/Reconcile/Requeue.antt =====
-- When Reconcile asks for an immediate second pass.
use mathlib.Core.Bool.{true≢false}
use platform_service_gitops.Controller.GitRepository.Reconcile.{
  report, reconcile_resolution, reconcile_live, requeue_result, with_finalizer,
}
use platform_service_gitops.Controller.{Return, Runtime}
use platform_service_gitops.Prelude.{
  Bool-cases, String, arith, false, inl, inr, refl, sym, true, ◌∙◌, ◌≡◌,
}
use platform_service_gitops.K8s.Meta.{ConditionStatus}
use platform_service_gitops.K8s.Laws.{FinalizerLaws}
use platform_service_gitops.Api.GitRepository.{GitRepository}
use platform_service_gitops.Go.Invariant.{Result-cases}
use platform_service_gitops.Go.Time.{Duration}
use platform_service_gitops.Go.Error.{ok}
use platform_service_gitops.Controller.GitRepository.Credential.{Resolution, resolved, unresolved}
use platform_service_gitops.Controller.GitRepository.Base.{
  GitRepositoryReconciler, finalizer_propagate, set_condition,
}

module _ {W : Type 0} (rt : Runtime W) (r : GitRepositoryReconciler W) where
  report-requeue :
      (old new : GitRepository) (status : ConditionStatus) (reason message : String)
      (result : Return) (w : W)
      → result.requeue ≡ false
      → (report rt r old new status reason message result w).0.requeue ≡ false
  unfolding report set_condition
  report-requeue old new status reason message result w h = ground arith

  requeue_result-requeue : (d : Duration) → (requeue_result rt r d).requeue ≡ false
  unfolding requeue_result
  requeue_result-requeue d = ground arith

  resolution-requeue :
      (old new : GitRepository) (x : Resolution) (w : W)
      → (reconcile_resolution rt r old new x w).0.requeue ≡ false
  unfolding reconcile_resolution
  resolution-requeue old new (unresolved reason) w = report-requeue old new _ _ _ _ w refl
  resolution-requeue old new (resolved ai id) w =
      report-requeue old _ _ _ _ _ _ (requeue_result-requeue _)

  live-requeue :
      (gr : GitRepository) (w : W)
      → rt.finalizers.contains_finalizer gr.meta finalizer_propagate ≡ true
      → (reconcile_live rt r gr w).0.requeue ≡ false
  unfolding reconcile_live
  live-requeue gr w f = rw f (resolution-requeue gr _ _ _)

  -- If the pass over a live GitRepository asks for an immediate second pass, then the object was
  -- stored with the finalizer added, and with the finalizer helpers as documented no pass over the
  -- stored object asks for another.
  pub requeue_once :
      (gr : GitRepository) (w v : W)
      → FinalizerLaws rt.finalizers
      → (reconcile_live rt r gr w).0.requeue ≡ true
      → ((r.onboarding.git_repositories.update (with_finalizer rt r gr) w).0 ≡ ok tt)
        × ((reconcile_live rt r (with_finalizer rt r gr) v).0.requeue ≡ false)
  unfolding reconcile_live
  requeue_once gr w v F h =
      elim (Bool-cases (rt.finalizers.contains_finalizer gr.meta finalizer_propagate)) [
        | inl f ↦ absurd (true≢false (sym h ∙ live-requeue gr w f))
        | inr f ↦
            elim (Result-cases
              (r.onboarding.git_repositories.update (with_finalizer rt r gr) w).0) [
                | inl (u, p) ↦ (
                  p,
                  live-requeue (with_finalizer rt r gr) v
                      (F.contains-add gr.meta finalizer_propagate),
                )
                | inr (e, p) ↦ absurd (true≢false (sym (rw (f, p) at h)))
              ]
      ]
