-- ===== src/Controller/GitRepository/Reconcile.antt =====
-- Reconcile and mapAppInstallationToGitRepositories
pub mod Ambiguity
pub mod Requests
pub mod Reporting
pub mod Requeue
use platform_service_gitops.Prelude.{
  String, Bool, true, false, ◌&&◌, not, none, some, List, [], ◌∷◌, ◌==◌, if◌then◌else◌,
}
use platform_service_gitops.Go.Int.{is_zero, pos, ltb_ℤ}
use platform_service_gitops.Go.Error.{wrap}
use platform_service_gitops.Go.Eff.{Eff, pure, try, ◌>>=◌}
use platform_service_gitops.Go.Time.{Duration}
use platform_service_gitops.K8s.Meta.{
  NamespacedName, ObjectMeta, key_of, ConditionStatus, condition_true, condition_false,
}
use platform_service_gitops.Api.GitRepository.{GitRepository}
use platform_service_gitops.Controller.{
  requeue_interval, Return, done, failed, again_after, Runtime,
}
use platform_service_gitops.Controller.GitRepository.Base.{
  finalizer_propagate, cond_ready, kind_app_installation, GitRepositoryReconciler, set_condition,
}
use platform_service_gitops.Controller.GitRepository.Credential.{
  Resolution, resolved, unresolved, resolve_credential,
}
use platform_service_gitops.Controller.GitRepository.Propagation.{reconcile_propagate}
use platform_service_gitops.Controller.GitRepository.Deletion.{reconcile_delete}

-- The loop of mapAppInstallationToGitRepositories.
unfoldable pub dependents : String → List GitRepository → List NamespacedName
dependents name [] = []
dependents name (gr ∷ items) =
    let rest = dependents name items in
    if gr.spec.credential_ref.kind == kind_app_installation && gr.spec.credential_ref.name == name
    then key_of gr.meta ∷ rest
    else rest

module _ {W : Type 0} (rt : Runtime W) (r : GitRepositoryReconciler W) where
  unfoldable pub map_app_installation : ObjectMeta → Eff W (List NamespacedName)
  unfolding dependents
  map_app_installation obj =
      try (r.onboarding.git_repositories.list obj.namespace none) (λ _. pure [])
        (λ items. pure (dependents obj.name items))

  -- The Ready condition, the observed generation and the patch of the status.
  unfoldable pub report :
      GitRepository → GitRepository → ConditionStatus → String → String → Return → Eff W Return
  unfolding set_condition
  report original gr status reason message result = do
    conditions ← set_condition rt gr.status.conditions (record {
      type = cond_ready;
      status = status;
      reason = reason;
      message = message;
      observed_generation = gr.meta.generation;
      last_transition_time = none;
    })
    try
        (r.onboarding.git_repositories.patch_status original (record gr {
          status = record gr.status {
            observed_generation = gr.meta.generation;
            conditions = conditions;
          };
        }))
        (λ e. pure (failed (wrap "patching status: " e))) (λ _. pure result)

  -- `if requeueAfter > 0 { … }`
  unfoldable pub requeue_result : Duration → Return
  requeue_result requeue_after =
      if ltb_ℤ (pos 0) requeue_after
      then again_after requeue_after
      else again_after requeue_interval

  unfoldable pub reconcile_resolution : GitRepository → GitRepository → Resolution → Eff W Return
  reconcile_resolution original gr (unresolved reason) =
      report original gr condition_false reason
        "Credentials are not resolved; see the CredentialResolved condition."
        (again_after requeue_interval)
  reconcile_resolution original gr (resolved ai installation_id) = do
    (gr', requeue_after) ← reconcile_propagate rt r gr ai installation_id
    report original gr' condition_true "CredentialResolved"
        "Credentials resolved; propagation in progress." (requeue_result requeue_after)

  abbrev pub with_finalizer : GitRepository → GitRepository
  with_finalizer gr = record gr { meta = rt.finalizers.add_finalizer gr.meta finalizer_propagate }

  -- A GitRepository that is not being deleted.
  unfoldable pub reconcile_live : GitRepository → Eff W Return
  reconcile_live gr =
      if not (rt.finalizers.contains_finalizer gr.meta finalizer_propagate)
      then try (r.onboarding.git_repositories.update (with_finalizer gr))
          (λ e. pure (failed (wrap "adding finalizer: " e)))
          (λ _. pure (record { requeue = true; requeue_after = pos 0; error = none }))
      else (do
        (gr', resolution) ← resolve_credential rt r gr
        reconcile_resolution gr gr' resolution)

  -- DeletionTimestamp.IsZero, negated: no timestamp and the zero time are not a deletion.
  abbrev pub is_deleting : GitRepository → Bool
  is_deleting gr = elim gr.meta.deletion_timestamp [ none ↦ false | some t ↦ not (is_zero t) ]

  unfoldable pub reconcile : NamespacedName → Eff W Return
  reconcile req =
      try (r.onboarding.git_repositories.get req)
        (λ e. if e.not_found then pure done else pure (failed (wrap "fetching GitRepository: " e)))
        (λ gr. if is_deleting gr then reconcile_delete rt r gr else reconcile_live gr)
