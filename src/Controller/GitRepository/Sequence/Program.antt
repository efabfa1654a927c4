-- ===== src/Controller/GitRepository/Sequence/Program.antt =====
-- Sequences of passes of the GitRepository controller with the resolver of internal/mcpaccess.
use platform_service_gitops.McpAccess.Access.{PlatformResolver, new_resolver}
use platform_service_gitops.McpAccess.{AccessLibrary, ResolvedTarget}
use platform_service_gitops.McpAccess.Access.Calls.{Calls, resolve-Keeps, cleanup-Keeps}
use platform_service_gitops.McpAccess.Access.Clusters.{Gives, resolve-AllClusters, AllClusters}
use platform_service_gitops.Controller.GitRepository.Sequence.Foreign.{
  Known, Outside, Resolves, reachable_leaves_foreign,
}
use platform_service_gitops.Controller.GitRepository.Sequence.Frames.{Frames, Quiet}
use platform_service_gitops.Controller.GitRepository.Sequence.Reach.{Reach}
use platform_service_gitops.Controller.{Runtime}
use platform_service_gitops.Prelude.{Option, some, ◌≡◌, List}
use platform_service_gitops.K8s.Meta.{NamespacedName}
use platform_service_gitops.K8s.Objects.{FluxGitRepository}
use platform_service_gitops.K8s.Laws.{Keeps}
use platform_service_gitops.Api.GitRepository.{GitRepository}
use platform_service_gitops.Controller.GitRepository.Base.{GitRepositoryReconciler}
use platform_service_gitops.Propagate.Laws.{IsOwned}
use platform_service_gitops.Go.Error.{ok}
use platform_service_gitops.Controller.GitRepository.Sequence.Distinct.{
  AllDistinct, StatusLaws, Stored, reachable-AllDistinct,
}
use platform_service_gitops.Propagate.Elsewhere.Apart.{Apart}

module _ {W Kubeconfig : Type 0} (rt : Runtime W) (lib : AccessLibrary W Kubeconfig)
    (p : PlatformResolver W) (base : GitRepositoryReconciler W) where
  -- The reconciler as runCommand sets it up, with the resolver that NewResolver gives.
  abbrev pub program : GitRepositoryReconciler W
  program = record base { mcp_resolver = new_resolver rt.fmt lib p }

  module _ {V : Type 0} (see : W → V) where
    -- No call on the onboarding cluster, the platform cluster, the clock or GitHub, and no
    -- InitializeClient, changes what is looked at, the writes of GitRepositories aside.
    pub record Around : Type 0 where
      pub quiet : Quiet see rt program
      pub access : Calls see lib p base.onboarding.control_planes

    -- The writes of GitRepositories leave it alone too.
    pub record Unwritten : Type 0 where
      pub update : (gr : GitRepository) → Keeps see (base.onboarding.git_repositories.update gr)
      pub patch_status :
          (old new : GitRepository)
          → Keeps see (base.onboarding.git_repositories.patch_status old new)

    Around-Frames : Around → Frames see rt program
    unfolding new_resolver
    Around-Frames a = record {
      quiet = a.quiet;
      resolve = resolve-Keeps see rt.fmt lib p base.onboarding.control_planes a.access;
      cleanup = cleanup-Keeps see rt.fmt lib p base.onboarding.control_planes a.access;
    }

  module _ (see : W → NamespacedName → Option FluxGitRepository) where
    Around-Outside : Around see → Unwritten see → Outside see rt program
    Around-Outside a u = record {
      frames = Around-Frames see a;
      update = u.update;
      patch_status = u.patch_status;
    }

    Gives-Resolves : Gives rt.fmt lib p (Known see) → Resolves see program
    unfolding new_resolver
    Gives-Resolves gives gr w ts got =
        resolve-AllClusters rt.fmt lib p (Known see) gr base.onboarding.control_planes ts w gives
          got

    -- Take one MCP. Let no call on the onboarding cluster, the platform cluster, the clock or
    -- GitHub, and no InitializeClient, change it, and let every client that InitializeClient gives
    -- be for it and obey McpLaws, or leave it alone. Then a Flux GitRepository at any key of it
    -- that no GitRepository owns is still there, as it was, after any sequence of passes of the
    -- controller, with the resolver of the program, over any objects, and of steps of others that
    -- leave that key alone.
    pub program_leaves_foreign :
        (others : W → W → Type 0) (k : NamespacedName) (f : FluxGitRepository) (start end : W)
        → Around see
        → Unwritten see
        → Gives rt.fmt lib p (Known see)
        → ((w v : W) → others w v → see v k ≡ see w k)
        → ((gr : GitRepository) → ¬ (IsOwned gr f.meta))
        → see start k ≡ some f
        → Reach rt program others start end
        → see end k ≡ some f
    program_leaves_foreign others k f start end around unwritten gives =
        reachable_leaves_foreign see rt program others k f start end
          (Around-Outside around unwritten) (Gives-Resolves gives)

  module _ (view : W → Stored) where
    Gives-Apart :
        Gives rt.fmt lib p (Apart view)
        → (gr : GitRepository) (w : W) (ts : List (ResolvedTarget W))
        → (program.mcp_resolver.resolve gr base.onboarding.control_planes w).0 ≡ ok ts
        → AllClusters (Apart view) ts
    unfolding new_resolver
    Gives-Apart gives gr w ts got =
        resolve-AllClusters rt.fmt lib p (Apart view) gr base.onboarding.control_planes ts w gives
          got

    -- On an onboarding cluster that obeys StatusLaws, if the other calls on the clusters, the clock
    -- and GitHub, and those on every client that InitializeClient gives, leave the GitRepositories
    -- alone, and the steps of others keep the states distinct, then from a world in which every
    -- GitRepository records one state at most for each target, any sequence of passes of the
    -- controller, with the resolver of the program, and of such steps leads to such a world.
    pub program-AllDistinct :
        (others : W → W → Type 0) (start end : W)
        → StatusLaws base.onboarding.git_repositories view
        → Around view
        → Gives rt.fmt lib p (Apart view)
        → ((w v : W) → others w v → AllDistinct (view w) → AllDistinct (view v))
        → AllDistinct (view start)
        → Reach rt program others start end
        → AllDistinct (view end)
    program-AllDistinct others start end laws around gives =
        reachable-AllDistinct view rt program others start end laws (Around-Frames view around)
          (Gives-Apart gives)
