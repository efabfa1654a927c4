-- ===== src/McpAccess.antt =====
-- internal/mcpaccess/resolver.go: the interface and its types. The openmcp libraries and client-go
-- are `AccessLibrary`. `Names` expands the targets, and `Access` obtains the access to each.
pub mod Names
pub mod Access
use platform_service_gitops.Prelude.{
  String, ◌<>◌, Bool, true, false, ◌||◌, not, Option, none, some, List, [], ◌∷◌, ◌++◌, ◌==◌,
  if◌then◌else◌,
}
use platform_service_gitops.Go.Int.{pos}
use platform_service_gitops.Go.Error.{Result, ok, err, errorf, wrap, Fmt}
use platform_service_gitops.Go.Eff.{Eff, pure, fail, try}
use platform_service_gitops.Go.Dict.{lookup}
use platform_service_gitops.K8s.Meta.{NamespacedName}
use platform_service_gitops.K8s.Client.{Client}
use platform_service_gitops.K8s.Objects.{
  Secret, PermissionsRequest, AccessRequest, ControlPlane, McpClient,
}
use platform_service_gitops.Api.GitRepository.{
  propagate_target_kind_control_plane, PropagateTarget, GitRepository,
}

abbrev pub controller_name : String
controller_name = "gitops.open-control-plane.io"

-- A cluster is used only through its client, so the client stands for it.
pub record ResolvedTarget (W : Type 0) : Type 0 where
  pub control_plane_namespace : String
  pub control_plane_name : String
  pub cluster : Option (McpClient W)
  pub pending : Bool

pub record Resolver (W : Type 0) : Type 0 where
  pub resolve : GitRepository → Client W ControlPlane → Eff W (Result (List (ResolvedTarget W)))
  pub cleanup : GitRepository → String → String → Eff W (Result (Unit {0}))

-- What other packages compute: StableMCPNamespace, StableRequestNameFromLocalName,
-- RESTConfigFromKubeConfig, and clusters.New with InitializeClient.
pub record AccessLibrary (W RestConfig : Type 0) : Type 0 where
  -- what Status.IsPending and Status.IsDenied report of an empty status
  pub initially_pending : Bool
  pub initially_denied : Bool
  pub stable_mcp_namespace : String → String → Result String
  pub stable_request_name : String → String → String
  pub rest_config : String → Result RestConfig
  pub initialize_client : String → RestConfig → Eff W (Result (McpClient W))
