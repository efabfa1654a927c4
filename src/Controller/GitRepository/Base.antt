-- ===== src/Controller/GitRepository/Base.antt =====
-- The struct GitRepositoryReconciler, its constructor and setCondition.
use platform_service_gitops.Prelude.{String, none, some, List}
use platform_service_gitops.Go.Error.{Result, ok, err}
use platform_service_gitops.Go.Eff.{Eff, ◌>>=◌}
use platform_service_gitops.Go.Strings.{Unicode}
use platform_service_gitops.Go.Time.{Duration}
use platform_service_gitops.K8s.Meta.{Condition}
use platform_service_gitops.K8s.Client.{Client}
use platform_service_gitops.K8s.Objects.{ControlPlane}
use platform_service_gitops.Api.GitRepository.{GitRepository}
use platform_service_gitops.Api.AppInstallation.{AppInstallation}
use platform_service_gitops.GithubApp.{Credentials, Library, new_client, mint_scoped_token}
use platform_service_gitops.Credentials.{Source}
use platform_service_gitops.Propagate.{TokenMinter}
use platform_service_gitops.McpAccess.{Resolver}
use platform_service_gitops.Controller.{Runtime}

abbrev pub finalizer_propagate : String
finalizer_propagate = "gitops.open-control-plane.io/propagate"

abbrev pub cond_credential_resolved : String
cond_credential_resolved = "CredentialResolved"

abbrev pub cond_ready : String
cond_ready = "Ready"

abbrev pub kind_app_installation : String
kind_app_installation = "AppInstallation"

abbrev pub app_installed_condition : String
app_installed_condition = "AppInstalled"

-- The onboarding client, for the kinds that this controller reads.
pub record Onboarding (W : Type 0) : Type 0 where
  pub git_repositories : Client W GitRepository
  pub app_installations : Client W AppInstallation
  pub control_planes : Client W ControlPlane

-- `new_minter` is githubapp.NewClient, whose client is used as a TokenMinter.
pub record GitRepositoryReconciler (W : Type 0) : Type 0 where
  pub onboarding : Onboarding W
  pub platform : Source W
  pub mcp_resolver : Resolver W
  pub credential_namespace : String
  pub flux_namespace : String
  pub token_renew_buffer : Duration
  pub new_minter : Credentials → Result (TokenMinter W)

module _ {W Transport Connection : Type 0} (u : Unicode)
    (lib : Library W Transport Connection) where
  -- A client of package githubapp as a TokenMinter.
  unfoldable pub github_minter : Credentials → Result (TokenMinter W)
  unfolding new_client mint_scoped_token
  github_minter creds = elim (new_client u lib creds) [
    | err e ↦ err e
    | ok gh ↦ ok (record { mint_scoped_token = mint_scoped_token lib gh })
  ]

  unfoldable pub new_git_repository_reconciler :
      Onboarding W → Source W → Resolver W → String → String → Duration → GitRepositoryReconciler W
  unfolding github_minter
  new_git_repository_reconciler onboarding platform resolver credential_namespace flux_namespace
        buffer =
      record {
        onboarding = onboarding;
        platform = platform;
        mcp_resolver = resolver;
        credential_namespace = credential_namespace;
        flux_namespace = flux_namespace;
        token_renew_buffer = buffer;
        new_minter = github_minter;
      }

-- setCondition: a condition without a transition time is given the present one.
unfoldable pub set_condition :
    {W : Type 0} → Runtime W → List Condition → Condition → Eff W (List Condition)
set_condition rt conditions c = elim c.last_transition_time [
  | none ↦ (do
    now ← rt.clock.now
    rt.conditions.set_status_condition conditions (record c { last_transition_time = some now }))
  | some t ↦ rt.conditions.set_status_condition conditions c
]
