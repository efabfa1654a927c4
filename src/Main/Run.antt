-- ===== src/Main/Run.antt =====
-- runCommand of cmd/platform-service-gitops/main.go
use platform_service_gitops.Main.Access.{run_permissions}
use platform_service_gitops.GithubApp.{Library}
use platform_service_gitops.K8s.Client.{Client}
use platform_service_gitops.Scheme.{onboarding_scheme}
use platform_service_gitops.Controller.{Runtime}
use platform_service_gitops.Prelude.{Bool, List, String, [], if◌then◌else◌, not, ◌==◌, ◌∷◌}
use platform_service_gitops.Credentials.{Source}
use platform_service_gitops.McpAccess.{AccessLibrary}
use platform_service_gitops.K8s.Meta.{ObjectMeta}
use platform_service_gitops.K8s.Objects.{FluxGitRepository, FluxKustomization}
use platform_service_gitops.Go.Eff.{Eff, fail, pure, try, ◌>>=◌}
use platform_service_gitops.Go.Error.{Result, ok, wrap}
use platform_service_gitops.Go.Strings.{Unicode}
use platform_service_gitops.Controller.Setup.{
  Registration, app_installation_setup, git_repository_setup, github_instance_setup,
  kustomization_setup, new_app_installation_reconciler, new_github_instance_reconciler,
}
use platform_service_gitops.Controller.Kustomization.{CreateOrUpdate}
use platform_service_gitops.Controller.GitRepository.Base.{new_git_repository_reconciler}
use platform_service_gitops.Main.Libraries.{
  ClusterClient, ClusterLibrary, ManagerLibrary, ManagerOptions, MetricsOptions, TlsConfig,
  WebhookOptions,
}
use platform_service_gitops.Main.Init.{access_manager, initialize_platform_cluster}
use platform_service_gitops.Main.Flags.{FlagSet, Options, read_options}
use platform_service_gitops.McpAccess.Access.{new_resolver}

unfoldable pub disable_http2 : TlsConfig → TlsConfig
disable_http2 c = record { next_protos = "http/1.1" ∷ [] }

unfoldable pub tls_options : Bool → List (TlsConfig → TlsConfig)
unfolding disable_http2
tls_options enable_http2 = if not enable_http2 then disable_http2 ∷ [] else []

unfoldable pub metrics_options : Options → List (TlsConfig → TlsConfig) → MetricsOptions
metrics_options o tls_opts =
    let given = not (o.metrics_cert_path == "") in
    record {
      bind_address = o.metrics_addr;
      secure_serving = o.secure_metrics;
      tls_opts = tls_opts;
      with_filter = o.secure_metrics;
      cert_dir = if given then o.metrics_cert_path else "";
      cert_name = if given then o.metrics_cert_name else "";
      key_name = if given then o.metrics_cert_key else "";
    }

unfoldable pub webhook_options : Options → List (TlsConfig → TlsConfig) → WebhookOptions
webhook_options o tls_opts = record {
  tls_opts = tls_opts;
  cert_dir = o.webhook_cert_path;
  cert_name = o.webhook_cert_name;
  key_name = o.webhook_cert_key;
}

unfoldable pub manager_options : Options → ManagerOptions
unfolding tls_options metrics_options webhook_options
manager_options o =
    let tls_opts = tls_options o.enable_http2 in
    record {
      scheme = onboarding_scheme;
      metrics = metrics_options o tls_opts;
      webhook_server = webhook_options o tls_opts;
      health_probe_bind_address = o.probe_addr;
      leader_election = o.enable_leader_election;
      leader_election_id = "4f40d865.openmcp.cloud";
      leader_election_namespace = "default";
    }

-- What the reconcilers take from libraries beside the clients.
pub record ReconcilerLibraries (W Kubeconfig Transport Connection : Type 0) : Type 0 where
  pub runtime : Runtime W
  pub unicode : Unicode
  pub access : AccessLibrary W Kubeconfig
  pub github : Library W Transport Connection
  pub create_or_update_flux_source : Client W FluxGitRepository → CreateOrUpdate W FluxGitRepository
  pub create_or_update_flux_kustomization :
      Client W FluxKustomization → CreateOrUpdate W FluxKustomization
  pub set_controller_reference : ObjectMeta → ObjectMeta → Result ObjectMeta

module _ {W Kubeconfig Transport Connection : Type 0}
    (libs : ReconcilerLibraries W Kubeconfig Transport Connection) where
  abbrev platform_source : ClusterClient W → Source W
  platform_source c = record { github_instances = c.github_instances; secrets = c.secrets }

  -- The four reconcilers with what each registers; the clients are those of the onboarding and of
  -- the platform cluster.
  unfoldable pub git_repository_controller :
      ClusterClient W → ClusterClient W → String → Options → Registration W
  unfolding git_repository_setup
  git_repository_controller onboarding platform pod_namespace o =
      git_repository_setup libs.runtime (
        new_git_repository_reconciler libs.unicode libs.github
          (record {
            git_repositories = onboarding.git_repositories;
            app_installations = onboarding.app_installations;
            control_planes = onboarding.control_planes;
          })
          (platform_source platform)
          (new_resolver libs.runtime.fmt libs.access (record {
            access_requests = platform.access_requests;
            secrets = platform.secrets;
            controller_namespace = pod_namespace;
          }))
          o.credential_namespace o.flux_namespace o.token_renew_buffer)

  unfoldable pub github_instance_controller : ClusterClient W → Options → Registration W
  unfolding github_instance_setup
  github_instance_controller platform o = github_instance_setup libs.runtime (
      new_github_instance_reconciler platform.github_instances platform.secrets
        o.credential_namespace)

  unfoldable pub app_installation_controller :
      ClusterClient W → ClusterClient W → Options → Registration W
  unfolding app_installation_setup
  app_installation_controller onboarding platform o = app_installation_setup libs.runtime (
      new_app_installation_reconciler libs.unicode libs.github onboarding.app_installations
        (platform_source platform) o.credential_namespace)

  unfoldable pub kustomization_controller : ClusterClient W → Registration W
  unfolding kustomization_setup
  kustomization_controller onboarding = kustomization_setup libs.runtime (record {
    kustomizations = onboarding.kustomizations;
    git_repositories = onboarding.git_repositories;
    create_or_update_flux_source =
        libs.create_or_update_flux_source onboarding.flux_git_repositories;
    create_or_update_flux_kustomization =
        libs.create_or_update_flux_kustomization onboarding.flux_kustomizations;
    set_controller_reference = libs.set_controller_reference;
  })

-- `if err := call; err != nil { return fmt.Errorf("message: %w", err) }`, then the rest
abbrev pub checked :
    {W : Type 0}
    → Eff W (Result (Unit {0}))
    → String
    → Eff W (Result (Unit {0}))
    → Eff W (Result (Unit {0}))
checked call message rest = try call (λ e. fail (wrap message e)) (λ _. rest)

module _ {W Config Cluster Access Manager Kubeconfig Transport Connection : Type 0}
    (lib : ClusterLibrary W Config Cluster Access) (ctrl : ManagerLibrary W Config Cluster Manager)
    (libs : ReconcilerLibraries W Kubeconfig Transport Connection) where
  -- From the manager on: what is added to it, in order, and its start.
  unfoldable pub run_manager :
      Options → Cluster → String → Cluster → Manager → Eff W (Result (Unit {0}))
  run_manager o platform_cluster pod_namespace onboarding_cluster mgr =
      let onboarding = lib.client onboarding_cluster in
      let platform = lib.client platform_cluster in
      checked (ctrl.add mgr platform_cluster) "unable to add platform cluster to manager: " (
        checked (ctrl.add_kustomize_scheme mgr) "unable to add kustomizev1 scheme: " (
          checked
            (ctrl.complete mgr (git_repository_controller libs onboarding platform pod_namespace o))
            "failed to create controller gitrepository: "
            (checked (ctrl.complete mgr (github_instance_controller libs platform o))
              "failed to create controller githubinstance: "
              (checked (ctrl.complete mgr (app_installation_controller libs onboarding platform o))
                "failed to create controller appinstallation: "
                (checked (ctrl.complete mgr (kustomization_controller libs onboarding))
                  "failed to create controller kustomization: "
                  (checked (ctrl.add_healthz_check mgr "healthz") "unable to set up health check: "
                    (checked (ctrl.add_readyz_check mgr "readyz") "unable to set up ready check: "
                      (checked (ctrl.start mgr) "problem running manager: " (pure (ok tt))))))))))

  unfoldable pub run_command : FlagSet → Eff W (Result (Unit {0}))
  unfolding initialize_platform_cluster access_manager run_manager manager_options run_permissions
  run_command flags =
      let o = read_options flags in
      try (initialize_platform_cluster lib)
        (λ e. fail (wrap "failed to initialize platform cluster: " e))
        λ platform_cluster. do
          pod_namespace ← lib.getenv lib.env_pod_namespace
          try
              (lib.create_and_wait_for_cluster (access_manager lib platform_cluster pod_namespace)
                "onboarding" lib.purpose_onboarding onboarding_scheme run_permissions)
              (λ e. fail (wrap "failed to obtain onboarding cluster access: " e))
              (λ onboarding_cluster.
                try (ctrl.new_manager (lib.rest_config onboarding_cluster) (manager_options o))
                  (λ e. fail (wrap "unable to start manager: " e))
                  (λ mgr. run_manager o platform_cluster pod_namespace onboarding_cluster mgr))
