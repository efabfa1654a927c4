-- ===== src/Scheme.antt =====
-- internal/scheme/scheme.go, api/install/install.go and the groups of api/: which groups of types
-- the client of each kind of cluster knows. A group's AddToScheme is a library's or generated; the
-- program calls them through utilruntime.Must, which ends the process on an error.
use platform_service_gitops.Prelude.{String, List, [], ◌∷◌}

-- schema.GroupVersion
pub record GroupVersion : Type 0 where
  pub group : String
  pub version : String

abbrev pub core_group_version : GroupVersion
core_group_version = record { group = "gitops.open-control-plane.io"; version = "v1alpha1" }

abbrev pub github_group_version : GroupVersion
github_group_version = record {
  group = "github.gitops.open-control-plane.io";
  version = "v1alpha1";
}

-- The packages whose AddToScheme the program calls.
pub data TypeGroup : Type 0 where
  client_go_types apiextensions_types clusters_types github_types core_types core_v2_types
        flux_source_types flux_kustomize_types :
      TypeGroup

-- A runtime.Scheme, as the groups that were added to it, the last first.
abbrev pub Scheme : Type 0
Scheme = List TypeGroup

abbrev pub add_to_scheme : TypeGroup → Scheme → Scheme
add_to_scheme group scheme = group ∷ scheme

-- initPlatform
unfoldable pub init_platform : Scheme → Scheme
init_platform s = add_to_scheme github_types (
    add_to_scheme clusters_types
      (add_to_scheme apiextensions_types (add_to_scheme client_go_types s)))

-- initOnboarding
unfoldable pub init_onboarding : Scheme → Scheme
init_onboarding s = add_to_scheme flux_source_types (
    add_to_scheme clusters_types (
      add_to_scheme core_v2_types (
        add_to_scheme github_types (
          add_to_scheme core_types
            (add_to_scheme apiextensions_types (add_to_scheme client_go_types s))))))

-- initMCP
unfoldable pub init_mcp : Scheme → Scheme
init_mcp s = add_to_scheme flux_source_types (add_to_scheme client_go_types s)

-- The variables Platform, Onboarding and MCP after init.
abbrev pub platform_scheme : Scheme
platform_scheme = init_platform []

abbrev pub onboarding_scheme : Scheme
onboarding_scheme = init_onboarding []

abbrev pub mcp_scheme : Scheme
mcp_scheme = init_mcp []
