-- ===== src/Tests/AccessRequests.antt =====
-- AccessRequests in memory, and their names.
use platform_service_gitops.McpAccess.Names.Collision.{access_local_name_collides}
use platform_service_gitops.McpAccess.Access.{PlatformResolver, ensure_access_request}
use platform_service_gitops.Prelude.{String, [], refl, ◌<>◌, ◌≡◌, false, true}
use platform_service_gitops.McpAccess.{AccessLibrary}
use platform_service_gitops.K8s.Meta.{ObjectMeta}
use platform_service_gitops.K8s.Objects.{AccessRequest}
use platform_service_gitops.K8s.Memory.{Part, Table, absent, memory, memory-StoreLaws}
use platform_service_gitops.Api.GitRepository.{GitRepository}
use platform_service_gitops.Tests.World.{meta_of, nothing, plain_fmt, repo}
use platform_service_gitops.Go.Error.{err, ok}
use platform_service_gitops.McpAccess.Names.{access_local_name}
use platform_service_gitops.McpAccess.Access.Requests.{Ensured, ensure_access_request-Ensured}

-- Here the world is the stored AccessRequests.
abbrev Requests : Type 0
Requests = Table AccessRequest

abbrev requests_part : Part Requests AccessRequest
requests_part = record { read = λ w. w; write = λ t w. t; read-write = λ t w. refl }

abbrev request_meta : AccessRequest → ObjectMeta
request_meta ar = ar.meta

abbrev platform : PlatformResolver Requests
platform = record {
  access_requests = memory requests_part request_meta;
  secrets = record {
    get = λ k w. (err absent, w);
    list = λ namespace labels w. (ok [], w);
    create = λ o w. (err absent, w);
    update = λ o w. (err absent, w);
    delete = λ k w. (err absent, w);
    patch_status = λ _ o w. (err absent, w);
  };
  controller_namespace = "system";
}

abbrev library : AccessLibrary Requests String
library = record {
  initially_pending = true;
  initially_denied = false;
  stable_mcp_namespace = λ name namespace. ok ("mcp-" <> name);
  stable_request_name = λ controller name. name;
  rest_config = λ s. ok s;
  initialize_client = λ name config w. (err absent, w);
}

abbrev empty : Requests
empty = nothing

ensure_access_request-Ensured_example :
    Ensured plain_fmt library platform request_meta
      (memory-StoreLaws requests_part request_meta)
      (λ a. refl)
      "request"
      "plane"
      "mcp-plane"
      empty
      (ensure_access_request plain_fmt library platform "request" "plane" "mcp-plane" empty).1
unfolding ensure_access_request
ensure_access_request-Ensured_example =
    ensure_access_request-Ensured plain_fmt library platform request_meta
      (memory-StoreLaws requests_part request_meta) (λ a. refl) "request" "plane" "mcp-plane" empty
      refl

abbrev named : String → String → GitRepository
named namespace name = record repo { meta = meta_of namespace name [] }

access_local_name_collides_example :
    access_local_name (named "a--b" "c") "team" "plane"
    ≡ access_local_name (named "a" "b--c") "team" "plane"
access_local_name_collides_example =
    access_local_name_collides (named "a--b" "c") (named "a" "b--c") "a" "b" "c" "team" "plane" refl
      refl refl refl
