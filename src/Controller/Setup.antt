-- ===== src/Controller/Setup.antt =====
-- The constructors of the controllers and their SetupWithManager: what each is registered with at
-- the manager. The builder of controller-runtime is the argument `complete` of its callers.
pub mod Answered
use platform_service_gitops.Controller.Kustomization
use platform_service_gitops.K8s.Client.{Client}
use platform_service_gitops.GithubApp.{
  Library, Credentials, check_org_installation, check_user_installation, new_client, verify_app,
}
use platform_service_gitops.Controller.GithubInstance
use platform_service_gitops.Controller.AppInstallation
use platform_service_gitops.Controller.GitRepository.Reconcile
use platform_service_gitops.Controller.{Return, Runtime}
use platform_service_gitops.Prelude.{List, String, [], ◌∷◌}
use platform_service_gitops.Credentials.{Source}
use platform_service_gitops.K8s.Meta.{NamespacedName, ObjectMeta}
use platform_service_gitops.K8s.Objects.{Secret}
use platform_service_gitops.Api.GithubInstance.{GithubInstance}
use platform_service_gitops.Api.AppInstallation.{AppInstallation}
use platform_service_gitops.Go.Eff.{Eff}
use platform_service_gitops.Go.Error.{Result, err, ok}
use platform_service_gitops.Go.Strings.{Unicode}
use platform_service_gitops.Controller.GithubInstance.{GithubInstanceReconciler}
use platform_service_gitops.Controller.AppInstallation.{AppInstallationReconciler, GithubClient}
use platform_service_gitops.Controller.Kustomization.{KustomizationReconciler, map_git_repository}
use platform_service_gitops.Controller.GitRepository.Reconcile.{map_app_installation}
use platform_service_gitops.Controller.GitRepository.Base.{GitRepositoryReconciler}
use platform_service_gitops.Api.Kustomization.{Kustomization}

-- The types whose objects the controllers are told about.
pub data Kind : Type 0 where
  git_repository_object app_installation_object github_instance_object kustomization_object
        flux_kustomization_object :
      Kind

-- For, Owns, Watches with EnqueueRequestsFromMapFunc, and WatchesRawSource with the cache of the
-- platform cluster.
pub data Watch (W : Type 0) : Type 0 where
  for_object : Kind → Watch W
  owns : Kind → Watch W
  watches : Kind → (ObjectMeta → Eff W (List NamespacedName)) → Watch W
  watches_platform : Kind → Watch W

-- What is handed to the builder; the empty name is the builder's own choice.
pub record Registration (W : Type 0) : Type 0 where
  pub watch_list : List (Watch W)
  pub named : String
  pub handler : NamespacedName → Eff W Return

module _ {W : Type 0} (rt : Runtime W) where
  unfoldable pub git_repository_setup : GitRepositoryReconciler W → Registration W
  git_repository_setup r = record {
    watch_list =
        for_object git_repository_object
        ∷ watches app_installation_object (map_app_installation rt r)
        ∷ [];
    named = "";
    handler = Reconcile.reconcile rt r;
  }

  unfoldable pub kustomization_setup : KustomizationReconciler W → Registration W
  kustomization_setup r = record {
    watch_list =
        for_object kustomization_object
        ∷ owns flux_kustomization_object
        ∷ watches git_repository_object (map_git_repository rt r)
        ∷ [];
    named = "";
    handler = Kustomization.reconcile rt r;
  }

  unfoldable pub app_installation_setup : AppInstallationReconciler W → Registration W
  app_installation_setup r = record {
    watch_list = for_object app_installation_object ∷ [];
    named = "github-appinstallation";
    handler = AppInstallation.reconcile rt r;
  }

  unfoldable pub github_instance_setup : GithubInstanceReconciler W → Registration W
  github_instance_setup r = record {
    watch_list = watches_platform github_instance_object ∷ [];
    named = "github-githubinstance";
    handler = GithubInstance.reconcile rt r;
  }

unfoldable pub new_github_instance_reconciler :
    {W : Type 0} → Client W GithubInstance → Client W Secret → String → GithubInstanceReconciler W
new_github_instance_reconciler github_instances secrets credential_namespace = record {
  github_instances = github_instances;
  secrets = secrets;
  credential_namespace = credential_namespace;
}

module _ {W Transport Connection : Type 0} (u : Unicode)
    (lib : Library W Transport Connection) where
  -- A client of package githubapp as a GitHubClient.
  unfoldable pub github_client : Credentials → Result (GithubClient W)
  github_client creds = elim (new_client u lib creds) [
    | err e ↦ err e
    | ok gh ↦ ok (record {
      verify_app = verify_app lib gh;
      check_org_installation = check_org_installation lib gh;
      check_user_installation = check_user_installation lib gh;
    })
  ]

  unfoldable pub new_app_installation_reconciler :
      Client W AppInstallation → Source W → String → AppInstallationReconciler W
  unfolding github_client
  new_app_installation_reconciler app_installations platform credential_namespace = record {
    app_installations = app_installations;
    platform = platform;
    credential_namespace = credential_namespace;
    new_client = github_client;
  }
