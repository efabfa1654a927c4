-- ===== src/Controller/GitRepository/Sequence/Pass.antt =====
-- internal/controller/core/gitrepository_controller.go: reconcileDelete and Reconcile keep a property
-- of the world that every call keeps.
use mathlib.Core.Path.{subst}
use platform_service_gitops.Controller.GitRepository.Sequence.States.{
  propagate-states, resolve_credential-states,
}
use platform_service_gitops.Controller.GitRepository.Reconcile.{
  report, reconcile, reconcile_resolution, reconcile_live, is_deleting,
}
use platform_service_gitops.Controller.GitRepository.Sequence.Calls.{
  SafeCalls, resolve_credential-safe,
}
use platform_service_gitops.Controller.{Return, Runtime, failed}
use platform_service_gitops.Prelude.{List, String, [], not, sym, ◌∷◌}
use platform_service_gitops.K8s.Meta.{ConditionStatus, NamespacedName}
use platform_service_gitops.Api.GitRepository.{GitRepository, PropagateStatus}
use platform_service_gitops.Go.Eff.{pure}
use platform_service_gitops.Go.Invariant.{
  Preserves, Preserves-bind, Preserves-if, Preserves-pure, Preserves-try, Preserves-try_at,
}
use platform_service_gitops.Go.Error.{Error, wrap}
use platform_service_gitops.Controller.GitRepository.Credential.{
  Resolution, resolve_credential, resolved, unresolved,
}
use platform_service_gitops.Controller.GitRepository.Base.{
  GitRepositoryReconciler, finalizer_propagate, set_condition,
}
use platform_service_gitops.Controller.GitRepository.Deletion.{finish_delete, reconcile_delete}
use platform_service_gitops.Controller.GitRepository.Propagation.{reconcile_propagate}
use platform_service_gitops.Controller.GitRepository.Sequence.Passes.{
  cleanup_targets-safe, propagate-safe,
}

module _ {W : Type 0} {P : W → Type 0} {G : List PropagateStatus → Type 0} (rt : Runtime W)
    (r : GitRepositoryReconciler W) (s : SafeCalls P G rt r) where
  finish-safe :
      (gr : GitRepository) (errs : List Error)
      → G gr.status.propagated
      → Preserves P (finish_delete rt r gr errs)
  unfolding finish_delete
  finish-safe gr [] g =
      Preserves-try _ _ _ (s.update _ g) (λ e. Preserves-pure _) (λ _. Preserves-pure _)
  finish-safe gr (e ∷ errs) g = Preserves-pure _

  delete-safe :
      (gr : GitRepository) → G gr.status.propagated → Preserves P (reconcile_delete rt r gr)
  unfolding reconcile_delete
  delete-safe gr g =
      Preserves-if (not (rt.finalizers.contains_finalizer gr.meta finalizer_propagate)) _ _
        (λ _. Preserves-pure _)
        (λ _.
          Preserves-try_at _ _ _ (s.resolve gr) (λ _ _ _ _. Preserves-pure _)
            (λ w ts _ got.
              Preserves-bind _ _ (cleanup_targets-safe rt r s gr ts [] (s.resolved gr w ts got))
                (λ errs. finish-safe gr errs g)))

  report-safe :
      (old new : GitRepository) (status : ConditionStatus) (reason message : String)
      (result : Return)
      → G new.status.propagated
      → Preserves P (report rt r old new status reason message result)
  unfolding report set_condition
  report-safe old new status reason message result g = record {
    at = λ w h.
        (Preserves-try {P = P} _ (λ e. pure (failed (wrap "patching status: " e)))
            (λ _. pure result) (s.patch_status old _ g) (λ e. Preserves-pure _)
            (λ _. Preserves-pure _)).at
          _ ((s.set_status_condition _ _).at _ (s.now.at w h));
  }

  resolution-safe :
      (old new : GitRepository) (x : Resolution)
      → G new.status.propagated
      → Preserves P (reconcile_resolution rt r old new x)
  unfolding reconcile_resolution
  resolution-safe old new (unresolved reason) g = report-safe old new _ _ _ _ g
  resolution-safe old new (resolved ai id) g = record {
    at = λ w h.
        (report-safe old _ _ _ _ _ (propagate-states rt r s new ai id w g)).at
          (reconcile_propagate rt r new ai id w).1 ((propagate-safe rt r s new ai id).at w h);
  }

  live-safe : (gr : GitRepository) → G gr.status.propagated → Preserves P (reconcile_live rt r gr)
  unfolding reconcile_live
  live-safe gr g =
      Preserves-if (not (rt.finalizers.contains_finalizer gr.meta finalizer_propagate)) _ _
        (λ _. Preserves-try _ _ _ (s.update _ g) (λ e. Preserves-pure _) (λ _. Preserves-pure _))
        (λ _. record {
          at = λ w h.
              let out = resolve_credential rt r gr w in
              (resolution-safe gr out.0.0 out.0.1
                  (subst G (sym (resolve_credential-states rt r gr w)) g)).at
                out.1 ((resolve_credential-safe rt r s gr).at w h);
        })

  -- A pass of the controller keeps every property of the world that each of its calls keeps.
  pub reconcile-keeps : (req : NamespacedName) → Preserves P (reconcile rt r req)
  unfolding reconcile
  reconcile-keeps req =
      Preserves-try_at _ _ _ (s.get req)
        (λ _ e _ _. Preserves-if e.not_found _ _ (λ _. Preserves-pure _) (λ _. Preserves-pure _))
        (λ w gr h got.
          let g = s.found req w gr h got in
          Preserves-if (is_deleting rt r gr) _ _ (λ _. delete-safe gr g) (λ _. live-safe gr g))
