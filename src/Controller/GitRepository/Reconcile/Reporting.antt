-- ===== src/Controller/GitRepository/Reconcile/Reporting.antt =====
-- The status that a pass over a live GitRepository ends with.
use platform_service_gitops.Controller.GitRepository.Reconcile.{
  report, reconcile_live, reconcile_resolution,
}
use platform_service_gitops.Controller.GitRepository.Propagation.{reconcile_propagate}
use platform_service_gitops.Controller.{Return, Runtime, failed}
use platform_service_gitops.Prelude.{List, String, refl, some, true, ◌≡◌}
use platform_service_gitops.K8s.Meta.{Condition, ConditionStatus, condition_false, condition_true}
use platform_service_gitops.K8s.Laws.{ConditionLaws, Reported, condition_at, reported}
use platform_service_gitops.Api.GitRepository.{GitRepository}
use platform_service_gitops.Go.Eff.{pure, try}
use platform_service_gitops.Go.Time.{Time}
use platform_service_gitops.Go.Error.{wrap}
use platform_service_gitops.Controller.GitRepository.Credential.{
  Resolution, resolve_credential, resolved, unresolved,
}
use platform_service_gitops.Controller.GitRepository.Base.{
  GitRepositoryReconciler, cond_ready, finalizer_propagate, set_condition,
}

abbrev pub ready_status : Resolution → ConditionStatus
ready_status (resolved ai id) = condition_true
ready_status (unresolved reason) = condition_false

module _ {W : Type 0} (rt : Runtime W) (C : ConditionLaws rt.conditions)
    (r : GitRepositoryReconciler W) where
  -- The last call is a patch of the status with this Ready condition, of the object's generation.
  pub record Reports (original : GitRepository) (status : ConditionStatus) (m : Return × W)
      : Type 0 where
    pub changed : GitRepository
    pub condition : Reported
    pub result : Return
    pub before : W
    pub ready : condition_at cond_ready changed.status.conditions ≡ some condition
    pub ready_status : condition.status ≡ status
    pub condition_generation : condition.observed_generation ≡ changed.meta.generation
    pub observed_generation : changed.status.observed_generation ≡ changed.meta.generation
    pub patched :
        m
        ≡ try
            (r.onboarding.git_repositories.patch_status original changed)
            (λ e. pure (failed (wrap "patching status: " e)))
            (λ _. pure result)
            before

  report-Reports :
      (original gr : GitRepository) (status : ConditionStatus) (reason message : String)
      (result : Return) (w : W)
      → Reports original status (report rt r original gr status reason message result w)
  unfolding report set_condition
  report-Reports original gr status reason message result w =
      let now : Time × W = rt.clock.now w in
      let wanted : Condition = record {
        type = cond_ready;
        status = status;
        reason = reason;
        message = message;
        observed_generation = gr.meta.generation;
        last_transition_time = some now.0;
      } in
      let conditions : List Condition × W =
        rt.conditions.set_status_condition gr.status.conditions wanted now.1 in
      record {
        changed = record gr {
          status = record gr.status {
            observed_generation = gr.meta.generation;
            conditions = conditions.0;
          };
        };
        condition = reported wanted;
        result = result;
        before = conditions.1;
        ready = C.condition_at-set gr.status.conditions wanted now.1 cond_ready;
        ready_status = refl;
        condition_generation = refl;
        observed_generation = refl;
        patched = refl;
      }

  resolution-Reports :
      (original gr : GitRepository) (resolution : Resolution) (w : W)
      → Reports original
          (ready_status resolution)
          (reconcile_resolution rt r original gr resolution w)
  unfolding reconcile_resolution
  resolution-Reports original gr (unresolved reason) w = report-Reports original gr _ _ _ _ w
  resolution-Reports original gr (resolved ai id) w =
      report-Reports original (reconcile_propagate rt r gr ai id w).0.0 _ _ _ _ _

  -- With SetStatusCondition as documented, a pass over a live GitRepository that has its finalizer
  -- ends with a patch of the status, whose Ready condition is of the object's generation and is
  -- True exactly if the credential was resolved.
  pub reconcile_live-Reports :
      (gr : GitRepository) (w : W)
      → rt.finalizers.contains_finalizer gr.meta finalizer_propagate ≡ true
      → Reports gr (ready_status (resolve_credential rt r gr w).0.1) (reconcile_live rt r gr w)
  unfolding reconcile_live
  reconcile_live-Reports gr w held = rw held (
      resolution-Reports gr (resolve_credential rt r gr w).0.0 (resolve_credential rt r gr w).0.1
        (resolve_credential rt r gr w).1)
