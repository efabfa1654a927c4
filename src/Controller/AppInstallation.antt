-- ===== src/Controller/AppInstallation.antt =====
-- internal/controller/github/appinstallation_controller.go
pub mod Outcome
use platform_service_gitops.Prelude.{
  String, ◌<>◌, Bool, true, false, not, none, some, ◌==◌, if◌then◌else◌,
}
use platform_service_gitops.Go.Int.{ℤ, pos}
use platform_service_gitops.Go.Error.{Result, ok, err, wrap}
use platform_service_gitops.Go.Eff.{Eff, pure, try, ◌>>=◌}
use platform_service_gitops.K8s.Meta.{
  NamespacedName, ConditionStatus, condition_true, condition_false, condition_unknown,
}
use platform_service_gitops.K8s.Client.{Client}
use platform_service_gitops.Api.AppInstallation.{AppInstallation}
use platform_service_gitops.GithubApp.{Credentials, InstallationResult}
use platform_service_gitops.Credentials.{Source, resolve}
use platform_service_gitops.Controller.{
  requeue_interval, Return, done, failed, again_after, Runtime,
}
use platform_service_gitops.K8s.Memory.{found}

abbrev pub cond_app_installed : String
cond_app_installed = "AppInstalled"

abbrev pub cond_access_verified : String
cond_access_verified = "AccessVerified"

-- The interface GitHubClient.
pub record GithubClient (W : Type 0) : Type 0 where
  pub verify_app : Eff W (Result String)
  pub check_org_installation : String → Eff W (Result InstallationResult)
  pub check_user_installation : String → Eff W (Result InstallationResult)

pub record AppInstallationReconciler (W : Type 0) : Type 0 where
  pub app_installations : Client W AppInstallation
  pub platform : Source W
  pub credential_namespace : String
  pub new_client : Credentials → Result (GithubClient W)

module _ {W : Type 0} (rt : Runtime W) (r : AppInstallationReconciler W) where
  unfoldable pub set :
      AppInstallation → String → ConditionStatus → String → String → Eff W AppInstallation
  set ai cond_type status reason message = do
    conditions ← rt.conditions.set_status_condition ai.status.conditions (record {
      type = cond_type;
      status = status;
      reason = reason;
      message = message;
      observed_generation = ai.meta.generation;
      last_transition_time = none;
    })
    pure (record ai { status = record ai.status { conditions = conditions } })

  unfoldable pub set_both : AppInstallation → String → String → Eff W AppInstallation
  set_both ai reason message = do
    ai' ← set ai cond_app_installed condition_false reason message
    set ai' cond_access_verified condition_false reason message

  unfoldable pub resolve_credentials : AppInstallation → Eff W (Result Credentials)
  resolve_credentials ai =
      resolve rt.fmt r.platform ai.spec.instance_ref.name ai.spec.credential_name
        r.credential_namespace

  -- A result of the private reconcile, with the object that it has changed.
  abbrev Pass : Type 0
  Pass = AppInstallation × Return

  abbrev pub blocked : AppInstallation → String → String → Return → Eff W Pass
  blocked ai reason message result = do ai' ← set_both ai reason message; pure (ai', result)

  abbrev pub with_id : AppInstallation → ℤ → AppInstallation
  with_id ai id = record ai { status = record ai.status { installation_id = id } }

  -- The end of reconcile: what the check of `target` came to.
  unfoldable pub record_check : AppInstallation → String → Result InstallationResult → Eff W Pass
  record_check ai target res = do
    ai₁ ←
        set ai cond_access_verified condition_true "AccessVerified"
          "GitHub App authenticated successfully."
    elim res [
      | err e ↦ (do
        ai₂ ←
            set ai₁ cond_app_installed condition_unknown "AppNotInstalled"
              ("Checking installation for " <> (target <> (" failed: " <> (e.message <> "."))))
        pure (ai₂, again_after requeue_interval))
      | ok found ↦
          if not found.installed
          then (do
            ai₂ ← set (with_id ai₁ (pos 0)) cond_app_installed condition_false "AppNotInstalled" (
                "GitHub App is not installed on "
                <> (target <> ". Install the App to grant access."))
            pure (ai₂, again_after requeue_interval))
          else (do
            ai₂ ←
                set (with_id ai₁ found.installation_id) cond_app_installed condition_true "AppFound"
                  ("GitHub App installation found for "
                    <> (target
                        <> (" (installation " <> (rt.fmt.decimal found.installation_id <> ")."))))
            pure (ai₂, again_after requeue_interval))
    ]

  unfoldable pub check_target : AppInstallation → GithubClient W → Eff W Pass
  check_target ai gh =
      if not (ai.spec.org == "")
      then (do
        res ← gh.check_org_installation ai.spec.org
        record_check ai ("org " <> ai.spec.org) res)
      else (do
        res ← gh.check_user_installation ai.spec.user
        record_check ai ("user " <> ai.spec.user) res)

  unfoldable pub check_with : AppInstallation → GithubClient W → Eff W Pass
  check_with ai gh =
      try gh.verify_app
        (λ e.
          blocked ai "AccessDenied" ("Authenticating as GitHub App failed: " <> (e.message <> "."))
            (again_after requeue_interval))
        (λ _. check_target ai gh)

  -- What is done with the result of newClient.
  abbrev pub with_client : AppInstallation → Result (GithubClient W) → Eff W Pass
  with_client ai (err e) =
      blocked ai "AccessDenied" ("Building GitHub client failed: " <> (e.message <> "."))
        (again_after requeue_interval)
  with_client ai (ok gh) = check_with ai gh

  abbrev pub same_bool : Bool → Bool → Bool
  same_bool true b = b
  same_bool false b = not b

  -- The private method reconcile.
  unfoldable pub reconcile_spec : AppInstallation → Eff W Pass
  reconcile_spec ai =
      if same_bool (ai.spec.org == "") (ai.spec.user == "")
      then blocked ai "InvalidSpec" "Exactly one of spec.org or spec.user must be set." done
      else try (resolve_credentials ai)
          (λ e. blocked ai "InstanceResolutionFailed" e.message (again_after requeue_interval))
          λ creds. with_client ai (r.new_client creds)

  unfoldable pub reconcile : NamespacedName → Eff W Return
  reconcile req =
      try (r.app_installations.get req)
        (λ e.
          if e.not_found then pure done else pure (failed (wrap "fetching AppInstallation: " e)))
        λ ai. do
          (ai', result) ← reconcile_spec ai
          now ← rt.clock.now
          let changed = record ai' {
            status = record ai'.status {
              observed_generation = ai'.meta.generation;
              last_checked = some now;
            };
          }
          try (r.app_installations.patch_status ai changed)
              (λ e. pure (failed (wrap "patching status: " e))) (λ _. pure result)
