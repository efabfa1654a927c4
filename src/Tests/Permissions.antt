-- ===== src/Tests/Permissions.antt =====
-- The permissions that the program requests, on the concrete world.
use platform_service_gitops.Propagate
use platform_service_gitops.Tests.Deletion.{library, platform}
use platform_service_gitops.Controller.{requeue_interval}
use platform_service_gitops.Prelude.{[], none, refl, ◌∷◌, ◌≡◌}
use platform_service_gitops.Propagate.{needs_rotation}
use platform_service_gitops.K8s.Memory.{member}
use platform_service_gitops.Api.GitRepository.{GitRepository}
use platform_service_gitops.Tests.Clusters.{World, mcp}
use platform_service_gitops.Tests.World.{clock, installation, minter, reconciler, repo, rt, start}
use platform_service_gitops.Go.Int.{pos}
use platform_service_gitops.Go.Error.{wrap}
use platform_service_gitops.Controller.GitRepository.Base.{GitRepositoryReconciler}
use platform_service_gitops.Controller.GitRepository.Deletion.{reconcile_delete, retry}
use platform_service_gitops.Controller.GitRepository.Propagation.{reconcile_propagate}
use platform_service_gitops.Main.Permissions.{
  as_granted, denied, has_label_target, label_targets-denied,
}
use platform_service_gitops.McpAccess.Access.Permissions.{mcp_permissions-suffice, restricted}

mcp_permissions-suffice_example :
    (Propagate.reconcile clock (restricted mcp) repo "flux-system" (pos 42) minter
      ≡ Propagate.reconcile clock mcp repo "flux-system" (pos 42) minter)
    × (Propagate.cleanup (restricted mcp) repo "flux-system"
        ≡ Propagate.cleanup mcp repo "flux-system")
    × (Propagate.needs_rotation clock (restricted mcp) repo "flux-system" (pos 900)
        ≡ Propagate.needs_rotation clock mcp repo "flux-system" (pos 900))
mcp_permissions-suffice_example =
    mcp_permissions-suffice mcp clock repo "flux-system" (pos 42) minter (pos 900)

abbrev labelled : GitRepository
labelled = record repo {
  spec = record repo.spec {
    propagate_to_control_planes =
        record { kind = "ControlPlane"; namespace = "team"; name = ""; match_labels = none } ∷ [];
  };
}

abbrev granted : GitRepositoryReconciler World
granted = as_granted rt library platform reconciler "core.openmcp.cloud"

label_targets-denied_example :
    (reconcile_propagate rt granted labelled installation (pos 42) start
      ≡ ((labelled, requeue_interval), start))
    × (reconcile_delete rt granted labelled start
        ≡ (retry (wrap "resolving targets for cleanup: " denied), start))
unfolding member has_label_target
label_targets-denied_example =
    label_targets-denied rt library platform reconciler "core.openmcp.cloud" labelled installation
      (pos 42) start refl refl
