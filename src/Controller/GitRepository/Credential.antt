-- ===== src/Controller/GitRepository/Credential.antt =====
-- resolveCredential, setResolved and resolveGitHubCreds
pub mod Agreement
pub mod Handover
use platform_service_gitops.Prelude.{String, ◌<>◌, not, ◌||◌, none, ◌==◌, if◌then◌else◌}
use platform_service_gitops.Go.Int.{ℤ, is_zero}
use platform_service_gitops.Go.Error.{Result}
use platform_service_gitops.Go.Eff.{Eff, pure, try, ◌>>=◌}
use platform_service_gitops.K8s.Meta.{
  NamespacedName, ConditionStatus, condition_true, condition_false,
}
use platform_service_gitops.Api.GitRepository.{GitRepository}
use platform_service_gitops.Api.AppInstallation.{AppInstallation}
use platform_service_gitops.GithubApp.{Credentials}
use platform_service_gitops.Credentials.{resolve}
use platform_service_gitops.Controller.{Runtime}
use platform_service_gitops.Controller.GitRepository.Base.{
  GitRepositoryReconciler, set_condition, kind_app_installation, app_installed_condition,
  cond_credential_resolved,
}

-- The four results of resolveCredential: the two ways in which they go together.
pub data Resolution : Type 0 where
  resolved : AppInstallation → ℤ → Resolution
  unresolved : String → Resolution

abbrev pub credential_key : GitRepository → NamespacedName
credential_key gr = record { namespace = gr.meta.namespace; name = gr.spec.credential_ref.name }

module _ {W : Type 0} (rt : Runtime W) (r : GitRepositoryReconciler W) where
  unfoldable pub set_resolved :
      GitRepository → ConditionStatus → String → String → Eff W GitRepository
  unfolding set_condition
  set_resolved gr status reason message = do
    conditions ← set_condition rt gr.status.conditions (record {
      type = cond_credential_resolved;
      status = status;
      reason = reason;
      message = message;
      observed_generation = gr.meta.generation;
      last_transition_time = none;
    })
    pure (record gr { status = record gr.status { conditions = conditions } })

  abbrev pub reject : GitRepository → String → String → Eff W (GitRepository × Resolution)
  reject gr reason message = do
    gr' ← set_resolved gr condition_false reason message
    pure (gr', unresolved reason)

  -- The AppInstallation that was found.
  unfoldable pub judge : GitRepository → AppInstallation → Eff W (GitRepository × Resolution)
  judge gr ai =
      let name = gr.spec.credential_ref.name in
      if not (rt.conditions.is_status_condition_true ai.status.conditions app_installed_condition)
        || is_zero ai.status.installation_id
      then reject gr "AppNotInstalled"
          ("AppInstallation " <> (name <> " is not ready (App not installed yet)."))
      else (do
        gr' ← set_resolved gr condition_true "CredentialResolved" (
            "Resolved via AppInstallation "
            <> (name <> (" (installation " <> (rt.fmt.decimal ai.status.installation_id <> ")."))))
        pure (gr', resolved ai ai.status.installation_id))

  unfoldable pub resolve_credential : GitRepository → Eff W (GitRepository × Resolution)
  resolve_credential gr =
      let ref = gr.spec.credential_ref in
      if not (ref.kind == kind_app_installation)
      then reject gr "UnsupportedCredentialKind" (
          "credentialRef.kind "
          <> (rt.fmt.quoted ref.kind
              <> (" is not supported; only " <> (rt.fmt.quoted kind_app_installation <> " is."))))
      else try (r.onboarding.app_installations.get (credential_key gr))
          (λ e. reject gr "CredentialNotFound" (
            if e.not_found
            then "AppInstallation "
              <> (ref.name <> (" not found in namespace " <> (gr.meta.namespace <> ".")))
            else "Fetching AppInstallation " <> (ref.name <> (" failed: " <> (e.message <> ".")))))
          (judge gr)

  -- The credential name is the empty text here.
  unfoldable pub resolve_github_creds : AppInstallation → Eff W (Result Credentials)
  resolve_github_creds ai =
      resolve rt.fmt r.platform ai.spec.instance_ref.name "" r.credential_namespace
