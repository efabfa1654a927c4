-- ===== src/Tests/Program.antt =====
-- Passes of the GitRepository controller on the concrete world, with the resolver of the program: the
-- first asks for access to the MCP, others grant it, and the second reaches the MCP.
use mathlib.Core.Path.{subst}
use platform_service_gitops.Controller.GitRepository.Reconcile.{
  reconcile, report, reconcile_live, reconcile_resolution,
}
use platform_service_gitops.Credentials.{
  resolve, data_key, from_secret, read_secret, select_secret_ref,
}
use platform_service_gitops.Propagate
use platform_service_gitops.McpAccess.Access
use platform_service_gitops.McpAccess.Access.{
  new_resolver, ensure_access_request, resolve_one, resolve_all, access_outcome,
  cluster_from_access_request, cluster_from_secret,
}
use platform_service_gitops.Controller.GitRepository.Sequence.Program.{
  program, Around, Unwritten, program_leaves_foreign, program-AllDistinct,
}
use platform_service_gitops.Tests.Deletion.{platform, library, targeted, granted, kubeconfig}
use platform_service_gitops.Tests.Sequence.{
  working, see, mcp-Apart, memory-StatusLaws, put-StatusFrom, stored,
}
use platform_service_gitops.Controller.GitRepository.Sequence.Reach.{
  Reach, begin, by_controller, by_others,
}
use platform_service_gitops.Prelude.{List, [], ap, inl, map, none, refl, some, sym, ◌∷◌, ◌≡◌, inr}
use platform_service_gitops.Propagate.{managed_by_value, needs_rotation}
use platform_service_gitops.K8s.Meta.{NamespacedName, key_of}
use platform_service_gitops.K8s.Laws.{condition_at}
use platform_service_gitops.K8s.Memory.{member, put, put_condition}
use platform_service_gitops.Api.GitRepository.{PropagatePhase, conflict, pending}
use platform_service_gitops.Tests.Clusters.{World, mcp_laws}
use platform_service_gitops.Tests.World.{foreign_flux, nothing, reconciler, rt}
use platform_service_gitops.Go.Dict.{lookup}
use platform_service_gitops.Go.Invariant.{ok-injective}
use platform_service_gitops.Go.Strings.{parse_int, read_number}
use platform_service_gitops.Controller.GitRepository.Target.{reconcile_target, sync_target}
use platform_service_gitops.Controller.GitRepository.Credential.{
  judge, resolve_credential, resolve_github_creds, set_resolved,
}
use platform_service_gitops.Controller.GitRepository.Base.{GitRepositoryReconciler, set_condition}
use platform_service_gitops.Controller.GitRepository.Status.{
  filter_propagate_status, set_propagate_status,
}
use platform_service_gitops.Controller.GitRepository.Propagation.{
  reconcile_propagate, sync_all, sync_targets,
}
use platform_service_gitops.Controller.GitRepository.Sequence.Foreign.{Known}
use platform_service_gitops.Propagate.Elsewhere.Foreign.{unmarked-foreign}
use platform_service_gitops.McpAccess.Names.{
  access_local_name, add, contains, expand, resolve_names,
}
use platform_service_gitops.Controller.GitRepository.Status.Map.{UniqueKeys-along}
use platform_service_gitops.Controller.GitRepository.Sequence.Distinct.{AllDistinct}
use platform_service_gitops.Propagate.Elsewhere.Apart.{Apart}

abbrev prog : GitRepositoryReconciler World
prog = program rt library platform reconciler

abbrev aimed_key : NamespacedName
aimed_key = key_of targeted.meta

-- The stored GitRepository has one target.
abbrev aimed : World
aimed = record working { repositories = put aimed_key (some targeted) nothing }

abbrev first : World
first = (reconcile rt prog aimed_key aimed).1

-- The AccessRequest is granted, with a kubeconfig.
abbrev grant : World → World
grant w = record w {
  access_requests = put (key_of granted.meta) (some granted) w.access_requests;
  platform_secrets = put (key_of kubeconfig.meta) (some kubeconfig) w.platform_secrets;
}

abbrev second : World
second = (reconcile rt prog aimed_key (grant first)).1

abbrev Elsewhere : World → World → Type 0
Elsewhere w v = see v ≡ see w

passes : Reach rt prog Elsewhere aimed second
passes =
    by_controller (grant first) aimed_key
      (by_others first (grant first) (by_controller aimed aimed_key begin) refl)

around : Around rt library platform reconciler see
around = record {
  quiet = record {
    now = λ w. refl;
    set_status_condition = λ cs c w. refl;
    get = λ k w. refl;
    get_installation = λ k w. refl;
    get_instance = λ k w. refl;
    get_secret = λ k w. refl;
    mint = λ creds m id built w. rw (sym (ok-injective built)) refl;
  };
  access = record {
    list = λ namespace labels w. refl;
    get_request = λ k w. refl;
    create_request = λ o w. refl;
    delete_request = λ k w. refl;
    get_secret = λ k w. refl;
    initialize_client = λ name config w. refl;
  };
}

unwritten : Unwritten rt library platform reconciler see
unwritten = record { update = λ gr w. refl; patch_status = λ old new w. refl }

program_leaves_foreign_example : see second (key_of foreign_flux.meta) ≡ some foreign_flux
program_leaves_foreign_example =
    program_leaves_foreign rt library platform reconciler see Elsewhere (key_of foreign_flux.meta)
      foreign_flux aimed second around unwritten
      (λ name config w cl got.
        subst (Known see) (ok-injective got) (inl (record { laws = mcp_laws; same_view = refl })))
      (λ w v step. ap (λ t. t (key_of foreign_flux.meta)) step)
      (unmarked-foreign foreign_flux.meta refl) refl passes

abbrev phases : World → List PropagatePhase
phases w = elim (w.repositories aimed_key) [
  | none ↦ []
  | some gr ↦ map (λ ps. ps.phase) gr.status.propagated
]

-- The first pass waits for the access, and the second reports the conflict.
pending-then-conflict : (phases first ≡ pending ∷ []) × (phases second ≡ conflict ∷ [])
unfolding reconcile reconcile_live resolve_credential judge set_resolved reconcile_resolution
    reconcile_propagate resolve_github_creds resolve select_secret_ref read_secret from_secret
    data_key lookup parse_int read_number sync_all sync_targets reconcile_target sync_target
    needs_rotation Propagate.reconcile report set_condition put_condition member condition_at
    filter_propagate_status set_propagate_status Propagate.managed_by_value new_resolver
    Access.resolve resolve_names expand add contains access_local_name resolve_all resolve_one
    ensure_access_request access_outcome cluster_from_access_request cluster_from_secret
pending-then-conflict = (refl, refl)

stored_around : Around rt library platform reconciler stored
stored_around = record {
  quiet = record {
    now = λ w. refl;
    set_status_condition = λ cs c w. refl;
    get = λ k w. refl;
    get_installation = λ k w. refl;
    get_instance = λ k w. refl;
    get_secret = λ k w. refl;
    mint = λ creds m id built w. rw (sym (ok-injective built)) refl;
  };
  access = record {
    list = λ namespace labels w. refl;
    get_request = λ k w. refl;
    create_request = λ o w. refl;
    delete_request = λ k w. refl;
    get_secret = λ k w. refl;
    initialize_client = λ name config w. refl;
  };
}

aimed-AllDistinct : AllDistinct (stored aimed)
aimed-AllDistinct k o at = elim (put-StatusFrom nothing targeted k o at) [
  | inl (b, there, same) ↦ cc
  | inr same ↦ UniqueKeys-along [] _ same tt
]

-- Others may do anything that leaves the GitRepositories alone.
abbrev Besides : World → World → Type 0
Besides w v = stored v ≡ stored w

program-AllDistinct_example : AllDistinct (stored second)
program-AllDistinct_example =
    program-AllDistinct rt library platform reconciler stored Besides aimed second memory-StatusLaws
      stored_around (λ name config w cl got. subst (Apart stored) (ok-injective got) mcp-Apart)
      (λ w v same h. subst AllDistinct (sym same) h) aimed-AllDistinct
      (by_controller (grant first) aimed_key
        (by_others first (grant first) (by_controller aimed aimed_key begin) refl))
