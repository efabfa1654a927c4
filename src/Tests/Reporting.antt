-- ===== src/Tests/Reporting.antt =====
-- A pass over the sample GitRepository.
use platform_service_gitops.Controller.GitRepository.Reconcile.Reporting.{
  Reports, reconcile_live-Reports,
}
use platform_service_gitops.Prelude.{refl, List, [], true, ◌∷◌, ◌≡◌, ◌≢◌, false}
use platform_service_gitops.K8s.Meta.{condition_true}
use platform_service_gitops.K8s.Laws.{condition_at, is_true_status}
use platform_service_gitops.K8s.Memory.{
  list_conditions-ConditionLaws, member, list_finalizers-FinalizerLaws,
}
use platform_service_gitops.Tests.World.{
  reconciler, repo, rt, start, installation, instance_ab, key_a, key_b, target, meta_of,
}
use platform_service_gitops.Controller.GitRepository.Reconcile.{
  reconcile_live, reconcile_resolution, with_finalizer,
}
use platform_service_gitops.Controller.GitRepository.Credential.{
  judge, resolve_credential, credential_key, resolve_github_creds, resolved,
}
use platform_service_gitops.Propagate.{cleanup}
use platform_service_gitops.Controller.GitRepository.Reconcile.{report}
use platform_service_gitops.Controller.{again_after, requeue_interval, done}
use platform_service_gitops.McpAccess.{ResolvedTarget}
use platform_service_gitops.Tests.Clusters.{World}
use platform_service_gitops.Go.Int.{pos}
use platform_service_gitops.Go.Error.{err, errorf, ok}
use platform_service_gitops.Controller.GitRepository.Base.{
  GitRepositoryReconciler, app_installed_condition, cond_credential_resolved, kind_app_installation,
}
use platform_service_gitops.Controller.GitRepository.Deletion.{
  cleanup_targets, finish_delete, reconcile_delete, without_finalizer,
}
use platform_service_gitops.Controller.GitRepository.Credential.Agreement.{
  Agrees, resolve_credential-Agrees, resolve_credential-resolved,
}
use platform_service_gitops.Controller.GitRepository.Reconcile.Ambiguity.{propagation_refused}
use platform_service_gitops.Controller.GitRepository.Deletion.Finalizer.{
  AllClean, after_all, reconcile_delete_complete,
}
use platform_service_gitops.Api.GitRepository.{GitRepository}
use platform_service_gitops.Controller.GitRepository.Reconcile.Requeue.{requeue_once}
use platform_service_gitops.Controller.GitRepository.Deletion.Finish.{reconcile_delete-finishes}

reconcile_live-Reports_example :
    Reports rt list_conditions-ConditionLaws reconciler repo condition_true
      (reconcile_live rt reconciler repo start)
unfolding member resolve_credential judge condition_at
reconcile_live-Reports_example =
    reconcile_live-Reports rt list_conditions-ConditionLaws reconciler repo start refl

reconcile_delete_complete_example :
    (ts : List (ResolvedTarget World)) × (ok (target ∷ []) ≡ ok ts)
    × AllClean rt reconciler repo ts start
    × ((reconciler.onboarding.git_repositories.update
          (without_finalizer rt reconciler repo)
          (after_all rt reconciler repo ts start)).0
        ≡ ok tt)
unfolding reconcile_delete member finish_delete cleanup_targets cleanup
reconcile_delete_complete_example = reconcile_delete_complete rt reconciler repo start refl refl

-- A resolver that cannot delete an AccessRequest.
abbrev stuck : GitRepositoryReconciler World
stuck = record reconciler {
  mcp_resolver = record reconciler.mcp_resolver {
    cleanup = λ gr namespace name w. (err (errorf "denied"), w);
  };
}

resolve_credential-Agrees_example : Agrees repo (resolved installation (pos 42)) (
    condition_at cond_credential_resolved
      (resolve_credential rt reconciler repo start).0.0.status.conditions)
unfolding resolve_credential judge condition_at
resolve_credential-Agrees_example =
    resolve_credential-Agrees rt list_conditions-ConditionLaws reconciler repo start

resolve_credential-resolved_example :
    (repo.spec.credential_ref.kind ≡ kind_app_installation)
    × ((reconciler.onboarding.app_installations.get (credential_key repo) start).0
        ≡ ok installation)
    × (is_true_status (condition_at app_installed_condition installation.status.conditions) ≡ true)
    × (pos 42 ≡ installation.status.installation_id)
    × (pos 42 ≢ pos 0)
unfolding resolve_credential judge condition_at
resolve_credential-resolved_example =
    resolve_credential-resolved rt list_conditions-ConditionLaws reconciler repo start installation
      (pos 42) refl

propagation_refused_example :
    reconcile_resolution rt reconciler repo repo (resolved installation (pos 42)) start
    ≡ report rt reconciler repo repo condition_true "CredentialResolved"
        "Credentials resolved; propagation in progress."
        (again_after requeue_interval)
        (resolve_github_creds rt reconciler installation start).1
propagation_refused_example =
    propagation_refused rt reconciler repo repo installation (pos 42) (target ∷ []) instance_ab
      key_a key_b [] start refl refl refl

-- The sample object before its first pass.
abbrev bare : GitRepository
bare = record repo { meta = meta_of "team" "app" [] }

requeue_once_example :
    ((reconciler.onboarding.git_repositories.update (with_finalizer rt reconciler bare) start).0
      ≡ ok tt)
    × ((reconcile_live rt reconciler (with_finalizer rt reconciler bare) start).0.requeue ≡ false)
unfolding reconcile_live member
requeue_once_example =
    requeue_once rt reconciler bare start start list_finalizers-FinalizerLaws refl

reconcile_delete-finishes_example : reconcile_delete rt reconciler repo start ≡ (
  done,
  (reconciler.onboarding.git_repositories.update
      (without_finalizer rt reconciler repo)
      (after_all rt reconciler repo (target ∷ []) start)).1,
)
unfolding member cleanup
reconcile_delete-finishes_example =
    reconcile_delete-finishes rt reconciler repo (target ∷ []) start refl refl (refl, refl, tt) refl
