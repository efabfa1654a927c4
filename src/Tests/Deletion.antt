-- ===== src/Tests/Deletion.antt =====
-- The deletion of a GitRepository on the concrete world, with the resolver of the program.
use mathlib.Core.Path.{subst}
use platform_service_gitops.Propagate
use platform_service_gitops.Controller.{done}
use platform_service_gitops.McpAccess.{AccessLibrary}
use platform_service_gitops.McpAccess.Access.{PlatformResolver, new_resolver}
use platform_service_gitops.Controller.GitRepository.Base.{GitRepositoryReconciler}
use platform_service_gitops.Controller.GitRepository.Deletion.Requests.{
  AllReleased, reconcile_delete-AllReleased, with_resolver, ApartCluster,
}
use platform_service_gitops.McpAccess.Access.Requests.{sent_request}
use platform_service_gitops.Controller.GitRepository.Deletion.Blind.{reconcile_delete_blind}
use platform_service_gitops.McpAccess.Names.{TargetRef, access_local_name}
use platform_service_gitops.Prelude.{
  List, String, [], false, none, refl, some, true, ◌<>◌, ◌∷◌, ◌≡◌,
}
use platform_service_gitops.Propagate.{flux_meta, secret_meta}
use platform_service_gitops.K8s.Meta.{ObjectMeta, key_of}
use platform_service_gitops.K8s.Objects.{Secret, AccessRequest, FluxGitRepository, McpClient}
use platform_service_gitops.K8s.Laws.{StoreLaws}
use platform_service_gitops.K8s.Memory.{
  Table, memory, memory-FrameLaws, memory-StoreLaws, put, member,
}
use platform_service_gitops.Api.GitRepository.{GitRepository}
use platform_service_gitops.Tests.Clusters.{
  World, access_requests_part, flux_part, mcp, platform_secrets_part, secrets_part,
}
use platform_service_gitops.Tests.World.{
  contested, meta_of, nothing, target, reconciler, repo, rt, start,
}
use platform_service_gitops.Go.Invariant.{ok-injective}
use platform_service_gitops.Go.Error.{err, errorf, ok}
use platform_service_gitops.Controller.GitRepository.Deletion.{
  reconcile_delete, cleanup_targets, finish_delete, without_finalizer,
}

abbrev request_meta : AccessRequest → ObjectMeta
request_meta ar = ar.meta

abbrev pub platform : PlatformResolver World
platform = record {
  access_requests = memory access_requests_part request_meta;
  secrets = memory platform_secrets_part secret_meta;
  controller_namespace = "system";
}

-- Every kubeconfig leads to the one MCP.
abbrev pub library : AccessLibrary World String
library = record {
  initially_pending = true;
  initially_denied = false;
  stable_mcp_namespace = λ name namespace. ok ("mcp-" <> name);
  stable_request_name = λ controller name. name;
  rest_config = λ s. ok s;
  initialize_client = λ name config w. (ok mcp, w);
}

abbrev plane : TargetRef
plane = record { namespace = "team"; name = "plane" }

abbrev pub targeted : GitRepository
targeted = record repo {
  spec = record repo.spec {
    propagate_to_control_planes =
        record { kind = "ControlPlane"; namespace = "team"; name = "plane"; match_labels = none }
        ∷ [];
  };
}

-- Access to the control plane was granted.
abbrev pub granted : AccessRequest
granted = record {
  meta = meta_of "system" "team--app--team--plane" [];
  request_ref = none;
  permissions = [];
  is_pending = false;
  is_denied = false;
  secret_ref = some "kubeconfig";
}

abbrev pub kubeconfig : Secret
kubeconfig = record {
  meta = meta_of "system" "kubeconfig" [];
  contents = ("kubeconfig", "mcp") ∷ [];
  type = "Opaque";
}

abbrev accessible : World
accessible = record start {
  access_requests = put (key_of granted.meta) (some granted) nothing;
  platform_secrets = put (key_of kubeconfig.meta) (some kubeconfig) nothing;
}

abbrev laws : StoreLaws platform.access_requests request_meta sent_request
laws = memory-StoreLaws access_requests_part request_meta

abbrev deleting : GitRepositoryReconciler World
deleting = with_resolver rt library platform request_meta laws (λ a. refl) reconciler targeted

reconcile_delete-AllReleased_example :
    (refs : List TargetRef) × (ok (plane ∷ []) ≡ ok refs)
    × AllReleased rt library platform request_meta laws
        (λ a. refl)
        reconciler
        targeted
        refs
        (reconcile_delete rt deleting targeted accessible).1
unfolding member reconcile_delete new_resolver access_local_name finish_delete cleanup_targets
    Propagate.cleanup
reconcile_delete-AllReleased_example =
    reconcile_delete-AllReleased rt library platform request_meta laws (λ a. refl) reconciler
      targeted accessible (λ x w. refl)
      (λ name config w cl got.
        subst (ApartCluster rt library platform request_meta laws (λ a. refl) reconciler targeted)
          (ok-injective got)
          (
            memory-FrameLaws secrets_part secret_meta (λ w. w.access_requests) (λ t w. refl),
            memory-FrameLaws flux_part flux_meta (λ w. w.access_requests) (λ t w. refl),
          ))
      refl refl

-- An MCP that answers no Get.
abbrev down : McpClient World
down = record {
  secrets = record mcp.secrets { get = λ k w. (err (errorf "timeout"), w) };
  flux_git_repositories = record mcp.flux_git_repositories {
    get = λ k w. (err (errorf "timeout"), w);
  };
}

abbrev stuck : GitRepositoryReconciler World
stuck = record reconciler {
  mcp_resolver = record {
    resolve = λ gr cps w. (ok (record target { cluster = some down } ∷ []), w);
    cleanup = λ gr namespace name w. (ok tt, w);
  };
}

abbrev see : World → Table Secret × Table FluxGitRepository
see w = (w.secrets, w.flux)

reconcile_delete_blind_example :
    (last : World) × (reconcile_delete rt stuck repo contested
      ≡ (done, (stuck.onboarding.git_repositories.update (without_finalizer rt stuck repo) last).1))
    × (see (reconcile_delete rt stuck repo contested).1 ≡ see contested)
unfolding member
reconcile_delete_blind_example =
    reconcile_delete_blind see rt stuck repo (record target { cluster = some down } ∷ []) contested
      refl refl
      (
        record {
          secrets = λ k w. (errorf "timeout", refl);
          flux = λ k w. (errorf "timeout", refl);
          secrets_quiet = λ k w. refl;
          flux_quiet = λ k w. refl;
        },
        tt,
      )
      (λ t w. (refl, refl)) (λ w. refl) (λ w. refl) (λ w. refl)
