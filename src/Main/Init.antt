-- ===== src/Main/Init.antt =====
-- initializePlatformCluster, initCommand and runInit of cmd/platform-service-gitops/main.go, and
-- the function CRDs of api/crds/crds.go
use platform_service_gitops.Main.Access.{controller_name, init_permissions}
use platform_service_gitops.Scheme.{onboarding_scheme, platform_scheme}
use platform_service_gitops.Prelude.{List, String, ◌*◌}
use platform_service_gitops.Go.Eff.{Eff, fail, pure, try, ◌>>=◌}
use platform_service_gitops.Go.Int.{pos}
use platform_service_gitops.Go.Time.{minute, second}
use platform_service_gitops.Go.Error.{Result, err, ok, wrap}
use platform_service_gitops.Main.Libraries.{ClusterLibrary, CrdLibrary}
use platform_service_gitops.Main.Flags.{FlagSet}

module _ {W Config Cluster Access : Type 0} (lib : ClusterLibrary W Config Cluster Access) where
  unfoldable pub initialize_platform_cluster : Eff W (Result Cluster)
  initialize_platform_cluster = do
    config ← lib.get_config_or_die
    try (lib.initialize_client "platform" config platform_scheme)
        (λ e. fail (wrap "failed to initialize platform cluster client: " e)) (λ cl. pure (ok cl))

  -- NewClusterAccessManager with its interval and timeout
  unfoldable pub access_manager : Cluster → String → Access
  access_manager platform_cluster pod_namespace =
      lib.new_access_manager (lib.client platform_cluster) controller_name pod_namespace
        (pos (10 * second)) (pos (30 * minute))

  module _ {Crd CrdManager : Type 0} (crd : CrdLibrary W Cluster Crd CrdManager) where
    abbrev pub crds : Result (List Crd)
    crds = crd.crds_from_file_system "manifests"

    abbrev crd_manager : List Crd → Cluster → Cluster → CrdManager
    crd_manager crd_list platform_cluster onboarding_cluster =
        crd.add_label_to_cluster
          (crd.add_label_to_cluster (crd.new_crd_manager crd.cluster_label (ok crd_list))
            lib.purpose_platform platform_cluster)
          lib.purpose_onboarding onboarding_cluster

    abbrev install_crds : Cluster → Cluster → Result (List Crd) → Eff W (Result (Unit {0}))
    install_crds platform_cluster onboarding_cluster (err e) = fail (wrap "failed to load CRDs: " e)
    install_crds platform_cluster onboarding_cluster (ok crd_list) =
        try (crd.create_or_update_crds (crd_manager crd_list platform_cluster onboarding_cluster))
          (λ e. fail (wrap "failed to create or update CRDs: " e)) (λ _. pure (ok tt))

    -- A provider name is only logged.
    unfoldable pub run_init : Cluster → String → Eff W (Result (Unit {0}))
    unfolding access_manager
    run_init platform_cluster provider_name = do
      pod_namespace ← lib.getenv lib.env_pod_namespace
      try
          (lib.create_and_wait_for_cluster (access_manager platform_cluster pod_namespace)
            "onboarding-init" lib.purpose_onboarding onboarding_scheme init_permissions)
          (λ e. fail (wrap "failed to obtain onboarding cluster for init: " e))
          (λ onboarding_cluster. install_crds platform_cluster onboarding_cluster crds)

    unfoldable pub init_command : FlagSet → Eff W (Result (Unit {0}))
    unfolding initialize_platform_cluster run_init
    init_command flags =
        try initialize_platform_cluster
          (λ e. fail (wrap "failed to initialize platform cluster: " e))
          (λ cl. run_init cl (flags.get_string "provider-name"))
