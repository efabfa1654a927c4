-- ===== src/Main/Access.antt =====
-- The permissions that cmd/platform-service-gitops/main.go requests on the onboarding cluster.
use platform_service_gitops.Prelude.{List, String, [], ◌∷◌}
use platform_service_gitops.K8s.Objects.{PermissionsRequest, PolicyRule}

abbrev pub controller_name : String
controller_name = "gitops.open-control-plane.io"

abbrev pub github_group : String
github_group = "github.gitops.open-control-plane.io"

abbrev pub verb_get : String
verb_get = "get"

abbrev pub verb_patch : String
verb_patch = "patch"

abbrev pub verb_update : String
verb_update = "update"

abbrev rule : List String → List String → List String → PolicyRule
rule api_groups resources verbs = record {
  api_groups = api_groups;
  resources = resources;
  verbs = verbs;
}

-- runInit
unfoldable pub init_permissions : List PermissionsRequest
init_permissions = record { rules = rule ("*" ∷ []) ("*" ∷ []) ("*" ∷ []) ∷ [] } ∷ []

-- runCommand
unfoldable pub run_permissions : List PermissionsRequest
run_permissions =
    record {
      rules =
          rule (controller_name ∷ github_group ∷ [])
            ("gitrepositories" ∷ "appinstallations" ∷ "kustomizations" ∷ [])
            (verb_get ∷ "list" ∷ "watch" ∷ [])
          ∷ rule (controller_name ∷ []) ("gitrepositories" ∷ "kustomizations" ∷ [])
              (verb_update ∷ verb_patch ∷ [])
          ∷ rule (controller_name ∷ github_group ∷ [])
              ("gitrepositories/status" ∷ "kustomizations/status" ∷ "appinstallations/status" ∷ [])
              (verb_get ∷ verb_update ∷ verb_patch ∷ [])
          ∷ rule (controller_name ∷ []) ("gitrepositories/finalizers" ∷ []) (verb_update ∷ [])
          ∷ rule ("coordination.k8s.io" ∷ []) ("leases" ∷ [])
              (verb_get ∷ "list" ∷ "watch" ∷ "create" ∷ verb_update ∷ verb_patch ∷ "delete" ∷ [])
          ∷ rule ("" ∷ []) ("events" ∷ []) ("create" ∷ verb_patch ∷ [])
          ∷ [];
    }
    ∷ []
