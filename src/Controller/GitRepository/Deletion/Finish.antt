-- ===== src/Controller/GitRepository/Deletion/Finish.antt =====
-- A reconcileDelete whose calls succeed ends the deletion.
use platform_service_gitops.Propagate
use platform_service_gitops.Controller.{Runtime, done}
use platform_service_gitops.Prelude.{List, Option, [], none, refl, some, true, ◌∷◌, ◌≡◌}
use platform_service_gitops.McpAccess.{ResolvedTarget}
use platform_service_gitops.K8s.Objects.{McpClient}
use platform_service_gitops.Api.GitRepository.{GitRepository}
use platform_service_gitops.Go.Eff.{Eff}
use platform_service_gitops.Go.Error.{Error, Result, ok}
use platform_service_gitops.Controller.GitRepository.Base.{
  GitRepositoryReconciler, finalizer_propagate,
}
use platform_service_gitops.Controller.GitRepository.Deletion.{
  cleanup_cluster, cleanup_targets, collect, finish_delete, reconcile_delete, without_finalizer,
}
use platform_service_gitops.Controller.GitRepository.Deletion.Finalizer.{
  AllClean, CleanCluster, after_all, after_target, cluster_after, drop_access,
}

module _ {W : Type 0} (errs : List Error) (call : Eff W (Result (Unit {0}))) (w : W) where
  collect-ok : (call w).0 ≡ ok tt → collect errs call w ≡ (errs, (call w).1)
  collect-ok h = rw h refl

module _ {W : Type 0} (rt : Runtime W) (r : GitRepositoryReconciler W) (gr : GitRepository) where
  cluster-clean :
      (c : Option (McpClient W)) (errs : List Error) (w : W)
      → CleanCluster rt r gr c w
      → cleanup_cluster rt r gr c errs w ≡ (errs, cluster_after rt r gr c w)
  cluster-clean none errs w h = refl
  cluster-clean (some mcp) errs w h =
      collect-ok errs (Propagate.cleanup mcp gr r.flux_namespace) w h

  cleanup_targets-clean :
      (ts : List (ResolvedTarget W)) (errs : List Error) (w : W)
      → AllClean rt r gr ts w
      → cleanup_targets rt r gr ts errs w ≡ (errs, after_all rt r gr ts w)
  unfolding cleanup_targets
  cleanup_targets-clean [] errs w h = refl
  cleanup_targets-clean (t ∷ ts) errs w h =
      rw
        (
          collect-ok errs (drop_access rt r gr t) w h.0,
          cluster-clean t.cluster errs (drop_access rt r gr t w).1 h.1,
        )
        (cleanup_targets-clean ts errs (after_target rt r gr t w) h.2)

  -- With the finalizer set, if the targets are resolved, every one of them is cleaned up with no
  -- error and the object is stored without the finalizer, then reconcileDelete is done, in the
  -- world that the last of these calls leaves.
  pub reconcile_delete-finishes :
      (ts : List (ResolvedTarget W)) (w : W)
      → rt.finalizers.contains_finalizer gr.meta finalizer_propagate ≡ true
      → (r.mcp_resolver.resolve gr r.onboarding.control_planes w).0 ≡ ok ts
      → AllClean rt r gr ts (r.mcp_resolver.resolve gr r.onboarding.control_planes w).1
      → let end =
          r.onboarding.git_repositories.update
            (without_finalizer rt r gr)
            (after_all rt r gr ts (r.mcp_resolver.resolve gr r.onboarding.control_planes w).1) in
        end.0 ≡ ok tt → reconcile_delete rt r gr w ≡ (done, end.1)
  unfolding reconcile_delete finish_delete
  reconcile_delete-finishes ts w f p clean stored =
      rw
        (
          f,
          p,
          cleanup_targets-clean ts [] (r.mcp_resolver.resolve gr r.onboarding.control_planes w).1
              clean,
          stored,
        )
        refl
