-- ===== src/Controller/GitRepository/Deletion.antt =====
-- reconcileDelete
pub mod Blind
pub mod Finalizer
pub mod Finish
pub mod Requests
use platform_service_gitops.Prelude.{
  ◌<>◌, not, false, Option, none, some, List, [], ◌∷◌, ◌++◌, length, if◌then◌else◌,
}
use platform_service_gitops.Go.Int.{pos}
use platform_service_gitops.Go.Error.{Error, Result, errorf, wrap}
use platform_service_gitops.Go.Eff.{Eff, pure, try, ◌>>=◌}
use platform_service_gitops.K8s.Objects.{McpClient}
use platform_service_gitops.Api.GitRepository.{GitRepository}
use platform_service_gitops.Propagate
use platform_service_gitops.McpAccess.{ResolvedTarget}
use platform_service_gitops.Controller.{requeue_interval, Return, done, failed, Runtime}
use platform_service_gitops.Controller.GitRepository.Base.{
  finalizer_propagate, GitRepositoryReconciler,
}

-- `if err := call; err != nil { cleanupErrs = append(cleanupErrs, err) }`
abbrev pub collect : {W : Type 0} → List Error → Eff W (Result (Unit {0})) → Eff W (List Error)
collect errs call = try call (λ e. pure (errs ++ (e ∷ []))) (λ _. pure errs)

abbrev pub retry : Error → Return
retry e = record { requeue = false; requeue_after = requeue_interval; error = some e }

module _ {W : Type 0} (rt : Runtime W) (r : GitRepositoryReconciler W) where
  abbrev pub cleanup_cluster :
      GitRepository → Option (McpClient W) → List Error → Eff W (List Error)
  cleanup_cluster gr none errs = pure errs
  cleanup_cluster gr (some mcp) errs = collect errs (Propagate.cleanup mcp gr r.flux_namespace)

  -- The loop over the targets.
  unfoldable pub cleanup_targets :
      GitRepository → List (ResolvedTarget W) → List Error → Eff W (List Error)
  cleanup_targets gr [] errs = pure errs
  cleanup_targets gr (target ∷ targets) errs = do
    errs₁ ←
        collect errs
          (r.mcp_resolver.cleanup gr target.control_plane_namespace target.control_plane_name)
    errs₂ ← cleanup_cluster gr target.cluster errs₁
    cleanup_targets gr targets errs₂

  abbrev pub without_finalizer : GitRepository → GitRepository
  without_finalizer gr = record gr {
    meta = rt.finalizers.remove_finalizer gr.meta finalizer_propagate;
  }

  unfoldable pub finish_delete : GitRepository → List Error → Eff W Return
  finish_delete gr [] =
      try (r.onboarding.git_repositories.update (without_finalizer gr))
        (λ e. pure (failed (wrap "removing finalizer: " e))) (λ _. pure done)
  finish_delete gr (e ∷ errs) = pure (
      retry (
        errorf (
          "cleanup incomplete ("
          <> (rt.fmt.decimal (pos (length (e ∷ errs))) <> " errors), will retry"))))

  unfoldable pub reconcile_delete : GitRepository → Eff W Return
  reconcile_delete gr =
      if not (rt.finalizers.contains_finalizer gr.meta finalizer_propagate)
      then pure done
      else try (r.mcp_resolver.resolve gr r.onboarding.control_planes)
          (λ e. pure (retry (wrap "resolving targets for cleanup: " e)))
          (λ targets. do errs ← cleanup_targets gr targets []; finish_delete gr errs)
