-- ===== src/McpAccess/Access/Calls.antt =====
-- internal/mcpaccess/resolver.go: Resolve and Cleanup beside a part of the world that their calls
-- leave alone.
use platform_service_gitops.K8s.Client.{Client}
use platform_service_gitops.Go.Invariant.{
  Preserves, Preserves-try, Preserves-if, Preserves-pure, Preserves-fail, Result-cases,
}
use platform_service_gitops.McpAccess.Access.{
  resolve, cleanup, PlatformResolver, cluster_from_secret, ensure_access_request, access_outcome,
  cluster_from_access_request, resolve_all, resolve_one,
}
use platform_service_gitops.McpAccess.Names.{expand, add_all, add, resolve_names, Names, TargetRef}
use platform_service_gitops.Prelude.{
  List, Option, String, [], not, ◌==◌, ◌∷◌, ◌≡◌, Option-cases, inl, inr,
}
use platform_service_gitops.McpAccess.{AccessLibrary}
use platform_service_gitops.K8s.Meta.{NamespacedName}
use platform_service_gitops.K8s.Objects.{AccessRequest, ControlPlane, Secret}
use platform_service_gitops.K8s.Laws.{Keeps}
use platform_service_gitops.Api.GitRepository.{
  PropagateTarget, propagate_target_kind_control_plane, GitRepository,
}
use platform_service_gitops.Go.Dict.{Dict, lookup}
use platform_service_gitops.Go.Eff.{Eff}
use platform_service_gitops.Go.Error.{Fmt}
use platform_service_gitops.Propagate.Elsewhere.Apart.{Keeps-On, Keeps-each}

-- The calls of the resolver, on the platform cluster, the onboarding cluster and an MCP.
pub record Calls {W Kubeconfig V : Type 0} (see : W → V) (lib : AccessLibrary W Kubeconfig)
    (r : PlatformResolver W) (control_planes : Client W ControlPlane) : Type 0 where
  pub list :
      (namespace : String) (labels : Option (Dict String))
      → Keeps see (control_planes.list namespace labels)
  pub get_request : (k : NamespacedName) → Keeps see (r.access_requests.get k)
  pub create_request : (o : AccessRequest) → Keeps see (r.access_requests.create o)
  pub delete_request : (k : NamespacedName) → Keeps see (r.access_requests.delete k)
  pub get_secret : (k : NamespacedName) → Keeps see (r.secrets.get k)
  pub initialize_client :
      (name : String) (config : Kubeconfig) → Keeps see (lib.initialize_client name config)

module _ {W Kubeconfig V : Type 0} (see : W → V) (fmt : Fmt) (lib : AccessLibrary W Kubeconfig)
    (r : PlatformResolver W) (control_planes : Client W ControlPlane)
    (c : Calls see lib r control_planes) (v : V) where
  abbrev Seen : W → Type 0
  Seen w = see w ≡ v

  seen : {A : Type 0} {m : Eff W A} → Keeps see m → Preserves Seen m
  seen = Keeps-On see (λ x. x ≡ v)

  get_request : (k : NamespacedName) → Preserves Seen (r.access_requests.get k)
  get_request k = seen (c.get_request k)

  create_request : (o : AccessRequest) → Preserves Seen (r.access_requests.create o)
  create_request o = seen (c.create_request o)

  delete_request : (k : NamespacedName) → Preserves Seen (r.access_requests.delete k)
  delete_request k = seen (c.delete_request k)

  get_secret : (k : NamespacedName) → Preserves Seen (r.secrets.get k)
  get_secret k = seen (c.get_secret k)

  initialize_client :
      (name : String) (config : Kubeconfig) → Preserves Seen (lib.initialize_client name config)
  initialize_client name config = seen (c.initialize_client name config)

  list :
      (namespace : String) (labels : Option (Dict String))
      → Preserves Seen (control_planes.list namespace labels)
  list namespace labels = seen (c.list namespace labels)

  expand-Seen :
      (targets : List PropagateTarget) (s : Names)
      → Preserves Seen (expand control_planes targets s)
  unfolding expand
  expand-Seen [] s = Preserves-pure _
  expand-Seen (target ∷ targets) s =
      Preserves-if (not (target.kind == propagate_target_kind_control_plane)) _ _
        (λ _. expand-Seen targets s)
        (λ _.
          Preserves-if (not (target.name == "")) _ _
            (λ _. expand-Seen targets (add target.namespace target.name s))
            (λ _.
              Preserves-try _ _ _ (list target.namespace target.match_labels)
                (λ e. Preserves-fail _)
                (λ items. expand-Seen targets (add_all target.namespace items s))))

  ensure-Seen :
      (ar_name name mcp_namespace : String)
      → Preserves Seen (ensure_access_request fmt lib r ar_name name mcp_namespace)
  unfolding ensure_access_request
  ensure-Seen ar_name name mcp_namespace =
      Preserves-try _ _ _ (get_request _)
        (λ e. Preserves-if e.not_found _ _ (λ _. create_request _) (λ _. Preserves-fail _))
        (λ _. Preserves-pure _)

  from_secret-Seen :
      (ar : AccessRequest) (secret_ref : String) (secret : Secret) (name : String)
      → Preserves Seen (cluster_from_secret fmt lib ar secret_ref secret name)
  unfolding cluster_from_secret
  from_secret-Seen ar secret_ref secret name =
      elim (Option-cases (lookup "kubeconfig" secret.contents)) [
        | inl p ↦ rw (cluster_from_secret, p) (Preserves-fail _)
        | inr (raw, p) ↦ elim (Result-cases (lib.rest_config raw)) [
          | inr (e, q) ↦ rw (cluster_from_secret, p, q) (Preserves-fail _)
          | inl (config, q) ↦
              rw (cluster_from_secret, p, q)
                (Preserves-try _ _ _ (initialize_client name config) (λ e. Preserves-fail _)
                  (λ cl. Preserves-pure _))
        ]
      ]

  from_request-Seen :
      (ar : AccessRequest) (name : String)
      → Preserves Seen (cluster_from_access_request fmt lib r ar name)
  unfolding cluster_from_access_request
  from_request-Seen ar name = elim (Option-cases ar.secret_ref) [
    | inl p ↦ rw (cluster_from_access_request, p) (Preserves-fail _)
    | inr (secret_ref, p) ↦
        rw (cluster_from_access_request, p)
          (Preserves-try _ _ _ (get_secret _) (λ e. Preserves-fail _)
            (λ secret. from_secret-Seen ar secret_ref secret name))
  ]

  access_outcome-Seen :
      (ar : AccessRequest) (namespace name : String)
      → Preserves Seen (access_outcome fmt lib r ar namespace name)
  unfolding access_outcome
  access_outcome-Seen ar namespace name =
      Preserves-if ar.is_pending _ _ (λ _. Preserves-pure _)
        (λ _.
          Preserves-if ar.is_denied _ _ (λ _. Preserves-fail _)
            (λ _.
              Preserves-try _ _ _ (from_request-Seen ar name) (λ e. Preserves-fail _)
                (λ cl. Preserves-pure _)))

  resolve_one-Seen :
      (gr : GitRepository) (namespace name : String)
      → Preserves Seen (resolve_one fmt lib r gr namespace name)
  unfolding resolve_one
  resolve_one-Seen gr namespace name =
      elim (Result-cases (lib.stable_mcp_namespace name namespace)) [
        | inr (e, p) ↦ rw (resolve_one, p) (Preserves-fail _)
        | inl (mcp_namespace, p) ↦
            rw (resolve_one, p)
              (Preserves-try _ _ _ (ensure-Seen _ name mcp_namespace) (λ e. Preserves-fail _)
                (λ _.
                  Preserves-try _ _ _ (get_request _) (λ e. Preserves-fail _)
                    (λ ar. access_outcome-Seen ar namespace name)))
      ]

  resolve_all-Seen :
      (gr : GitRepository) (refs : List TargetRef) → Preserves Seen (resolve_all fmt lib r gr refs)
  unfolding resolve_all
  resolve_all-Seen gr [] = Preserves-pure _
  resolve_all-Seen gr (ref ∷ refs) =
      Preserves-try _ _ _ (resolve_one-Seen gr ref.namespace ref.name) (λ e. Preserves-fail _)
        (λ t.
          Preserves-try _ _ _ (resolve_all-Seen gr refs) (λ e. Preserves-fail _)
            (λ ts. Preserves-pure _))

  resolve-Seen : (gr : GitRepository) → Preserves Seen (resolve fmt lib r gr control_planes)
  unfolding resolve resolve_names
  resolve-Seen gr =
      Preserves-try _ _ _
        (Preserves-try _ _ _ (expand-Seen gr.spec.propagate_to_control_planes _)
          (λ e. Preserves-fail _) (λ s. Preserves-pure _))
        (λ e. Preserves-fail _) (λ refs. resolve_all-Seen gr refs)

  cleanup-Seen :
      (gr : GitRepository) (namespace name : String)
      → Preserves Seen (cleanup fmt lib r gr namespace name)
  unfolding cleanup
  cleanup-Seen gr namespace name =
      Preserves-try _ _ _ (delete_request _)
        (λ e. Preserves-if e.not_found _ _ (λ _. Preserves-pure _) (λ _. Preserves-fail _))
        (λ _. Preserves-pure _)

module _ {W Kubeconfig V : Type 0} (see : W → V) (fmt : Fmt) (lib : AccessLibrary W Kubeconfig)
    (r : PlatformResolver W) (control_planes : Client W ControlPlane)
    (c : Calls see lib r control_planes) where
  -- What all the calls of the resolver leave alone, Resolve leaves alone.
  pub resolve-Keeps : (gr : GitRepository) → Keeps see (resolve fmt lib r gr control_planes)
  resolve-Keeps gr = Keeps-each see _ (λ v. resolve-Seen see fmt lib r control_planes c v gr)

  pub cleanup-Keeps :
      (gr : GitRepository) (namespace name : String)
      → Keeps see (cleanup fmt lib r gr namespace name)
  cleanup-Keeps gr namespace name =
      Keeps-each see _ (λ v. cleanup-Seen see fmt lib r control_planes c v gr namespace name)
