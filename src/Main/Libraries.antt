-- ===== src/Main/Libraries.antt =====
-- What cmd/platform-service-gitops/main.go calls of controller-runtime, the openmcp libraries,
-- the environment and this repository's CRD loading. Logging, the loggers and contexts that are
-- passed on, and the signal handler are left out.
use platform_service_gitops.K8s.Client.{Client}
use platform_service_gitops.Scheme.{Scheme}
use platform_service_gitops.Prelude.{Bool, List, String}
use platform_service_gitops.K8s.Objects.{
  AccessRequest, ControlPlane, FluxGitRepository, FluxKustomization, PermissionsRequest, Secret,
}
use platform_service_gitops.Api.GithubInstance.{GithubInstance}
use platform_service_gitops.Api.GitRepository.{GitRepository}
use platform_service_gitops.Api.AppInstallation.{AppInstallation}
use platform_service_gitops.Api.Kustomization.{Kustomization}
use platform_service_gitops.Go.Eff.{Eff}
use platform_service_gitops.Go.Time.{Duration}
use platform_service_gitops.Go.Error.{Result}
use platform_service_gitops.Controller.Setup.{Registration}

-- A client.Client, for every kind that the program uses through it.
pub record ClusterClient (W : Type 0) : Type 0 where
  pub git_repositories : Client W GitRepository
  pub kustomizations : Client W Kustomization
  pub app_installations : Client W AppInstallation
  pub github_instances : Client W GithubInstance
  pub control_planes : Client W ControlPlane
  pub access_requests : Client W AccessRequest
  pub secrets : Client W Secret
  pub flux_git_repositories : Client W FluxGitRepository
  pub flux_kustomizations : Client W FluxKustomization

-- tls.Config, as far as the program sets it
pub record TlsConfig : Type 0 where
  pub next_protos : List String

-- webhook.Options
pub record WebhookOptions : Type 0 where
  pub tls_opts : List (TlsConfig → TlsConfig)
  pub cert_dir : String
  pub cert_name : String
  pub key_name : String

-- metricsserver.Options; the filter is set to WithAuthenticationAndAuthorization or not at all.
pub record MetricsOptions : Type 0 where
  pub bind_address : String
  pub secure_serving : Bool
  pub tls_opts : List (TlsConfig → TlsConfig)
  pub with_filter : Bool
  pub cert_dir : String
  pub cert_name : String
  pub key_name : String

-- ctrl.Options
pub record ManagerOptions : Type 0 where
  pub scheme : Scheme
  pub metrics : MetricsOptions
  pub webhook_server : WebhookOptions
  pub health_probe_bind_address : String
  pub leader_election : Bool
  pub leader_election_id : String
  pub leader_election_namespace : String

-- The cluster libraries and the environment. A failure of GetConfigOrDie ends the process, so it
-- has no result here.
pub record ClusterLibrary (W Config Cluster Access : Type 0) : Type 0 where
  pub get_config_or_die : Eff W Config
  pub initialize_client : String → Config → Scheme → Eff W (Result Cluster)
  pub rest_config : Cluster → Config
  pub client : Cluster → ClusterClient W
  pub new_access_manager : ClusterClient W → String → String → Duration → Duration → Access
  pub create_and_wait_for_cluster :
      Access → String → String → Scheme → List PermissionsRequest → Eff W (Result Cluster)
  pub purpose_platform : String
  pub purpose_onboarding : String
  pub getenv : String → Eff W String
  pub env_pod_namespace : String

-- crdutil, and the CRDs that api/crds embeds
pub record CrdLibrary (W Cluster Crd CrdManager : Type 0) : Type 0 where
  pub cluster_label : String
  pub crds_from_file_system : String → Result (List Crd)
  pub new_crd_manager : String → Result (List Crd) → CrdManager
  pub add_label_to_cluster : CrdManager → String → Cluster → CrdManager
  pub create_or_update_crds : CrdManager → Eff W (Result (Unit {0}))

-- The manager of controller-runtime. `add_kustomize_scheme` is AddToScheme of kustomizev1 on the
-- manager's scheme.
pub record ManagerLibrary (W Config Cluster Manager : Type 0) : Type 0 where
  pub new_manager : Config → ManagerOptions → Eff W (Result Manager)
  pub add : Manager → Cluster → Eff W (Result (Unit {0}))
  pub add_kustomize_scheme : Manager → Eff W (Result (Unit {0}))
  pub complete : Manager → Registration W → Eff W (Result (Unit {0}))
  pub add_healthz_check : Manager → String → Eff W (Result (Unit {0}))
  pub add_readyz_check : Manager → String → Eff W (Result (Unit {0}))
  pub start : Manager → Eff W (Result (Unit {0}))
