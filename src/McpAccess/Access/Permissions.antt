-- ===== src/McpAccess/Access/Permissions.antt =====
-- internal/mcpaccess/resolver.go: the permissions of mcpPermissions and the calls of internal/propagate under them.
use platform_service_gitops.K8s.Rbac.{authorized, allows}
use platform_service_gitops.Propagate
use platform_service_gitops.McpAccess.Access.{mcp_permissions}
use platform_service_gitops.Prelude.{String, refl, ◌≡◌}
use platform_service_gitops.Propagate.{TokenMinter, needs_rotation}
use platform_service_gitops.K8s.Objects.{McpClient}
use platform_service_gitops.Api.GitRepository.{GitRepository}
use platform_service_gitops.Go.Int.{ℤ}
use platform_service_gitops.Go.Time.{Clock, Duration}

-- The client of an MCP whose API server grants what mcpPermissions asks for, and no more.
unfoldable pub restricted : {W : Type 0} → McpClient W → McpClient W
unfolding authorized
restricted mcp = record {
  secrets = authorized mcp_permissions "" "secrets" mcp.secrets;
  flux_git_repositories =
      authorized mcp_permissions "source.toolkit.fluxcd.io" "gitrepositories"
        mcp.flux_git_repositories;
}

module _ {W : Type 0} (mcp : McpClient W) (gr : GitRepository) (flux_namespace : String) where
  reconcile-restricted :
      (clock : Clock W) (id : ℤ) (minter : TokenMinter W)
      → Propagate.reconcile clock (restricted mcp) gr flux_namespace id minter
        ≡ Propagate.reconcile clock mcp gr flux_namespace id minter
  unfolding restricted allows mcp_permissions Propagate.reconcile
  reconcile-restricted clock id minter = refl

  cleanup-restricted :
      Propagate.cleanup (restricted mcp) gr flux_namespace ≡ Propagate.cleanup mcp gr flux_namespace
  unfolding restricted allows mcp_permissions Propagate.cleanup
  cleanup-restricted = refl

  needs_rotation-restricted :
      (clock : Clock W) (buffer : Duration)
      → Propagate.needs_rotation clock (restricted mcp) gr flux_namespace buffer
        ≡ Propagate.needs_rotation clock mcp gr flux_namespace buffer
  unfolding restricted allows mcp_permissions Propagate.needs_rotation
  needs_rotation-restricted clock buffer = refl

-- Under the permissions that are requested for an MCP, Reconcile, Cleanup and NeedsRotation do what
-- they do with every permission.
pub mcp_permissions-suffice :
    {W : Type 0} (mcp : McpClient W) (clock : Clock W) (gr : GitRepository)
    (flux_namespace : String) (id : ℤ) (minter : TokenMinter W) (buffer : Duration)
    → (Propagate.reconcile clock (restricted mcp) gr flux_namespace id minter
        ≡ Propagate.reconcile clock mcp gr flux_namespace id minter)
      × (Propagate.cleanup (restricted mcp) gr flux_namespace
          ≡ Propagate.cleanup mcp gr flux_namespace)
      × (Propagate.needs_rotation clock (restricted mcp) gr flux_namespace buffer
          ≡ Propagate.needs_rotation clock mcp gr flux_namespace buffer)
mcp_permissions-suffice mcp clock gr flux_namespace id minter buffer = (
  reconcile-restricted mcp gr flux_namespace clock id minter,
  cleanup-restricted mcp gr flux_namespace,
  needs_rotation-restricted mcp gr flux_namespace clock buffer,
)
