-- ===== src/Tests/Access.antt =====
-- Names, AccessRequests, requests and Cleanup on the concrete world.
use platform_service_gitops.McpAccess.Access.{resolve, PlatformResolver}
use platform_service_gitops.K8s.Client.{Client}
use platform_service_gitops.Propagate.{cleanup, flux_key, secret_key, secret_meta}
use platform_service_gitops.Prelude.{
  List, String, [], false, inl, none, refl, some, true, ◌<>◌, ◌∷◌, ◌≡◌,
}
use platform_service_gitops.McpAccess.{AccessLibrary, ResolvedTarget}
use platform_service_gitops.K8s.Meta.{key_of}
use platform_service_gitops.K8s.Objects.{AccessRequest, ControlPlane}
use platform_service_gitops.K8s.Memory.{memory}
use platform_service_gitops.Api.GitRepository.{GitRepository, PropagateTarget}
use platform_service_gitops.Tests.World.{
  World, contested, control_planes_part, foreign_flux, installation, mcp, mcp_laws, meta_of,
  plain_fmt, platform_secrets_part, reconciler, repo, rt, start,
}
use platform_service_gitops.Tests.Propagate.{foreign_flux-unowned}
use platform_service_gitops.Go.Error.{ok}
use platform_service_gitops.Controller.GitRepository.Reconcile.{map_app_installation}
use platform_service_gitops.Controller.GitRepository.Base.{GitRepositoryReconciler}
use platform_service_gitops.Controller.GitRepository.Reconcile.Requests.{
  Among, map_app_installation-Among,
}
use platform_service_gitops.Propagate.Protection.{cleanup_leaves_foreign}
use platform_service_gitops.McpAccess.Names.{TargetRef, resolve_names}
use platform_service_gitops.McpAccess.Access.Targets.{Matches, resolve-Matches}
use platform_service_gitops.McpAccess.Names.Expansion.{
  UniqueRefs, has_ref, names_target, resolve_names-UniqueRefs, resolve_names_complete,
}

abbrev plane : ControlPlane
plane = record { meta = meta_of "team" "b" [] }

-- A client that lists two planes, of which one is named in a target too.
abbrev planes : Client World ControlPlane
planes = record (memory control_planes_part (λ (o : ControlPlane). o.meta)) {
  list = λ namespace labels w. (ok (plane ∷ record { meta = meta_of "team" "c" [] } ∷ []), w);
}

abbrev by_name : PropagateTarget
by_name = record { kind = "ControlPlane"; namespace = "team"; name = "b"; match_labels = none }

abbrev by_labels : PropagateTarget
by_labels = record { kind = "ControlPlane"; namespace = "team"; name = ""; match_labels = none }

abbrev spread : GitRepository
spread = record repo {
  spec = record repo.spec { propagate_to_control_planes = by_name ∷ by_labels ∷ [] };
}

abbrev ref_of : String → TargetRef
ref_of name = record { namespace = "team"; name = name }

abbrev both : List TargetRef
both = ref_of "b" ∷ ref_of "c" ∷ []

resolve_names-UniqueRefs_example : UniqueRefs both
unfolding resolve_names
resolve_names-UniqueRefs_example = resolve_names-UniqueRefs planes spread both start refl

resolve_names_complete_example : has_ref both "team/b" ≡ true
unfolding resolve_names names_target
resolve_names_complete_example = resolve_names_complete planes spread both "team/b" start refl refl

-- Every AccessRequest is read as pending.
abbrev request : AccessRequest
request = record {
  meta = meta_of "system" "request" [];
  request_ref = none;
  permissions = [];
  is_pending = true;
  is_denied = false;
  secret_ref = none;
}

abbrev platform : PlatformResolver World
platform = record {
  access_requests = record {
    get = λ k w. (ok request, w);
    list = λ namespace labels w. (ok [], w);
    create = λ o w. (ok tt, w);
    update = λ o w. (ok tt, w);
    delete = λ k w. (ok tt, w);
    patch_status = λ _ o w. (ok tt, w);
  };
  secrets = memory platform_secrets_part secret_meta;
  controller_namespace = "system";
}

abbrev library : AccessLibrary World String
library = record {
  initially_pending = true;
  initially_denied = false;
  stable_mcp_namespace = λ name namespace. ok ("mcp-" <> name);
  stable_request_name = λ controller name. name;
  rest_config = λ s. ok s;
  initialize_client = λ name config w. (ok mcp, w);
}

abbrev pending_target : String → ResolvedTarget World
pending_target name = record {
  control_plane_namespace = "team";
  control_plane_name = name;
  cluster = none;
  pending = true;
}

resolve-Matches_example :
    (refs : List TargetRef) × ((resolve_names planes spread start).0 ≡ ok refs)
    × Matches refs (pending_target "b" ∷ pending_target "c" ∷ [])
unfolding resolve
resolve-Matches_example =
    resolve-Matches plain_fmt library platform spread planes
      (pending_target "b" ∷ pending_target "c" ∷ []) start refl

-- The client lists the sample GitRepository.
abbrev listing : GitRepositoryReconciler World
listing = record reconciler {
  onboarding = record reconciler.onboarding {
    git_repositories = record reconciler.onboarding.git_repositories {
      list = λ namespace labels w. (ok (repo ∷ []), w);
    };
  };
}

map_app_installation-Among_example :
    Among (key_of repo.meta) (map_app_installation rt listing installation.meta start).0
map_app_installation-Among_example =
    map_app_installation-Among rt listing repo installation.meta (repo ∷ []) start refl (inl refl)
      refl refl

cleanup_leaves_foreign_example :
    ((cleanup mcp repo "flux-system" contested).1.flux (flux_key repo "flux-system")
      ≡ some foreign_flux)
    × ((cleanup mcp repo "flux-system" contested).1.secrets (secret_key repo "flux-system") ≡ none)
cleanup_leaves_foreign_example =
    cleanup_leaves_foreign mcp mcp_laws repo "flux-system" contested (some foreign_flux) none refl
      refl foreign_flux-unowned tt
