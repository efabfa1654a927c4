-- ===== src/McpAccess/Access.antt =====
-- The struct resolver of internal/mcpaccess/resolver.go and its methods
pub mod Targets
pub mod Requests
pub mod Permissions
pub mod Calls
pub mod Clusters
use platform_service_gitops.Prelude.{
  String, ◌<>◌, Bool, true, false, Option, none, some, List, [], ◌∷◌, if◌then◌else◌,
}
use platform_service_gitops.Go.Int.{pos}
use platform_service_gitops.Go.Error.{Result, ok, err, errorf, wrap, Fmt}
use platform_service_gitops.Go.Eff.{Eff, pure, fail, try}
use platform_service_gitops.Go.Dict.{lookup}
use platform_service_gitops.K8s.Meta.{NamespacedName}
use platform_service_gitops.K8s.Client.{Client}
use platform_service_gitops.K8s.Objects.{
  Secret, PermissionsRequest, AccessRequest, ControlPlane, McpClient,
}
use platform_service_gitops.Api.GitRepository.{GitRepository}
use platform_service_gitops.McpAccess.{controller_name, ResolvedTarget, Resolver, AccessLibrary}
use platform_service_gitops.McpAccess.Names.{TargetRef, resolve_names, access_local_name}

abbrev pub all_verbs : List String
all_verbs = "get" ∷ "list" ∷ "create" ∷ "update" ∷ "patch" ∷ "delete" ∷ []

unfoldable pub mcp_permissions : List PermissionsRequest
mcp_permissions =
    record {
      rules =
          record { api_groups = "" ∷ []; resources = "secrets" ∷ []; verbs = all_verbs }
          ∷ record {
            api_groups = "source.toolkit.fluxcd.io" ∷ [];
            resources = "gitrepositories" ∷ [];
            verbs = all_verbs;
          }
          ∷ [];
    }
    ∷ []

-- The struct `resolver`, with the two kinds that it uses of the platform client.
pub record PlatformResolver (W : Type 0) : Type 0 where
  pub access_requests : Client W AccessRequest
  pub secrets : Client W Secret
  pub controller_namespace : String

module _ {W RestConfig : Type 0} (fmt : Fmt) (lib : AccessLibrary W RestConfig) where
  abbrev pub request_name : GitRepository → String → String → String
  request_name gr namespace name =
      lib.stable_request_name controller_name (access_local_name gr namespace name)

  abbrev pub request_key : PlatformResolver W → String → NamespacedName
  request_key r ar_name = record { namespace = r.controller_namespace; name = ar_name }

  unfoldable pub new_access_request : PlatformResolver W → String → String → String → AccessRequest
  unfolding mcp_permissions
  new_access_request r ar_name control_plane_name mcp_namespace = record {
    meta = record {
      name = ar_name;
      namespace = r.controller_namespace;
      generation = pos 0;
      annotations = none;
      finalizers = [];
      deletion_timestamp = none;
    };
    request_ref = some (record { namespace = mcp_namespace; name = control_plane_name });
    permissions = mcp_permissions;
    is_pending = lib.initially_pending;
    is_denied = lib.initially_denied;
    secret_ref = none;
  }

  unfoldable pub ensure_access_request :
      PlatformResolver W → String → String → String → Eff W (Result (Unit {0}))
  unfolding new_access_request
  ensure_access_request r ar_name control_plane_name mcp_namespace =
      try (r.access_requests.get (request_key r ar_name))
        (λ e.
          if e.not_found
          then r.access_requests.create
              (new_access_request r ar_name control_plane_name mcp_namespace)
          else fail (wrap "getting AccessRequest: " e))
        (λ _. pure (ok tt))

  unfoldable pub cluster_from_secret :
      AccessRequest → String → Secret → String → Eff W (Result (McpClient W))
  unfolding lookup
  cluster_from_secret ar secret_ref secret cluster_name =
      elim (lookup "kubeconfig" secret.contents) [
        | none ↦ fail (
            errorf
              ("kubeconfig key not found in Secret " <> (ar.meta.namespace <> ("/" <> secret_ref))))
        | some kubeconfig ↦ elim (lib.rest_config kubeconfig) [
          | err e ↦ fail (wrap "parsing kubeconfig: " e)
          | ok config ↦
              try (lib.initialize_client cluster_name config)
                (λ e.
                  fail
                    (wrap ("initializing MCP client for " <> (fmt.quoted cluster_name <> ": ")) e))
                (λ cl. pure (ok cl))
        ]
      ]

  unfoldable pub cluster_from_access_request :
      PlatformResolver W → AccessRequest → String → Eff W (Result (McpClient W))
  unfolding cluster_from_secret
  cluster_from_access_request r ar cluster_name = elim ar.secret_ref [
    | none ↦ fail (errorf ("AccessRequest " <> (fmt.quoted ar.meta.name <> " has no SecretRef")))
    | some secret_ref ↦
        try (r.secrets.get (record { namespace = ar.meta.namespace; name = secret_ref }))
          (λ e. fail (wrap "reading kubeconfig Secret: " e))
          (λ secret. cluster_from_secret ar secret_ref secret cluster_name)
  ]

  abbrev target_of : String → String → Option (McpClient W) → Bool → ResolvedTarget W
  target_of namespace name cluster waiting = record {
    control_plane_namespace = namespace;
    control_plane_name = name;
    cluster = cluster;
    pending = waiting;
  }

  -- Steps 2 and 3 of resolveOne, on the AccessRequest that was read.
  unfoldable pub access_outcome :
      PlatformResolver W → AccessRequest → String → String → Eff W (Result (ResolvedTarget W))
  unfolding cluster_from_access_request
  access_outcome r ar namespace name =
      if ar.is_pending
      then pure (ok (target_of namespace name none true))
      else if ar.is_denied
      then fail (errorf ("AccessRequest for " <> (fmt.quoted name <> " was denied")))
      else try (cluster_from_access_request r ar name)
          (λ e. fail (wrap ("building MCP client for " <> (fmt.quoted name <> ": ")) e))
          (λ cl. pure (ok (target_of namespace name (some cl) false)))

  unfoldable pub resolve_one :
      PlatformResolver W → GitRepository → String → String → Eff W (Result (ResolvedTarget W))
  unfolding ensure_access_request access_outcome
  resolve_one r gr namespace name = elim (lib.stable_mcp_namespace name namespace) [
    | err e ↦ fail (wrap ("computing MCP namespace for " <> (fmt.quoted name <> ": ")) e)
    | ok mcp_namespace ↦
        let ar_name = request_name gr namespace name in
        try (ensure_access_request r ar_name name mcp_namespace)
          (λ e. fail (wrap ("ensuring AccessRequest for " <> (fmt.quoted name <> ": ")) e))
          λ _.
            try (r.access_requests.get (request_key r ar_name))
              (λ e. fail (wrap ("reading AccessRequest for " <> (fmt.quoted name <> ": ")) e))
              (λ ar. access_outcome r ar namespace name)
  ]

  unfoldable pub resolve_all :
      PlatformResolver W → GitRepository → List TargetRef → Eff W (Result (List (ResolvedTarget W)))
  unfolding resolve_one
  resolve_all r gr [] = pure (ok [])
  resolve_all r gr (ref ∷ refs) =
      let rest = resolve_all r gr refs in
      try (resolve_one r gr ref.namespace ref.name)
        (λ e. fail (
          wrap
            ("resolving MCP "
              <> (fmt.quoted ref.namespace <> ("/" <> (fmt.quoted ref.name <> ": "))))
            e))
        (λ rt. try rest fail (λ rts. pure (ok (rt ∷ rts))))

  unfoldable pub resolve :
      PlatformResolver W
      → GitRepository
      → Client W ControlPlane
      → Eff W (Result (List (ResolvedTarget W)))
  unfolding resolve_names resolve_all
  resolve r gr control_planes =
      try (resolve_names control_planes gr) fail (λ refs. resolve_all r gr refs)

  unfoldable pub cleanup :
      PlatformResolver W → GitRepository → String → String → Eff W (Result (Unit {0}))
  cleanup r gr namespace name =
      let ar_name = request_name gr namespace name in
      try (r.access_requests.delete (request_key r ar_name))
        (λ e.
          if e.not_found
          then pure (ok tt)
          else fail (
              wrap
                ("deleting AccessRequest "
                  <> (r.controller_namespace <> ("/" <> (ar_name <> ": "))))
                e))
        (λ _. pure (ok tt))

  -- NewResolver: the implementation of the interface.
  unfoldable pub new_resolver : PlatformResolver W → Resolver W
  unfolding resolve cleanup
  new_resolver r = record { resolve = resolve r; cleanup = cleanup r }
