-- ===== src/Tests/Github.antt =====
-- The other controllers on the concrete world.
use platform_service_gitops.GithubApp.{Credentials, Library, installation_result, is_public}
use platform_service_gitops.Prelude.{[], none, refl, some, true, ◌↔◌, ◌∷◌, ◌≡◌, ◌⊎◌, String, false}
use platform_service_gitops.Credentials.{
  data_key, from_secret, resolve, read_secret, select_secret_ref, Source,
}
use platform_service_gitops.Propagate.{secret_meta}
use platform_service_gitops.K8s.Meta.{Condition, condition_false, condition_true, key_of}
use platform_service_gitops.K8s.Objects.{Secret}
use platform_service_gitops.K8s.Laws.{condition_at}
use platform_service_gitops.K8s.Memory.{
  list_conditions-ConditionLaws, memory, put, put_condition, absent,
}
use platform_service_gitops.Api.GithubInstance.{GithubInstance}
use platform_service_gitops.Api.AppInstallation.{AppInstallation}
use platform_service_gitops.Tests.World.{
  World, installation, installations_part, instances_part, reconciler, repo, key_a, key_b, meta_of,
  nothing, platform_secrets_part, rt, start,
}
use platform_service_gitops.Go.Dict.{lookup}
use platform_service_gitops.Go.Int.{pos}
use platform_service_gitops.Go.Error.{err, errorf, ok}
use platform_service_gitops.Go.Strings.{parse_int, read_number, Unicode, trim_suffix}
use platform_service_gitops.Controller.GithubInstance.{
  GithubInstanceReconciler, Verdict, check_secrets,
}
use platform_service_gitops.Controller.AppInstallation.{
  AppInstallationReconciler, GithubClient, reconcile_spec, check_target, record_check, set,
  check_with, resolve_credentials,
}
use platform_service_gitops.Controller.AppInstallation.Outcome.{
  Shows, Verified, reconcile_spec-Verified,
}
use platform_service_gitops.Controller.GithubInstance.Validity.{AllValid, check_secrets-eq-true_iff}
use platform_service_gitops.Controller.GitRepository.Credential.{judge, resolve_credential}
use platform_service_gitops.Controller.GitRepository.Credential.Handover.{as_patched}
use platform_service_gitops.Controller.Setup.Answered
use platform_service_gitops.Controller.Setup.Answered.{FromGithub, resolved-FromGithub}
use platform_service_gitops.GithubApp.{new_client, verify_app, check_org_installation}
use platform_service_gitops.Controller.Setup.{github_client, new_app_installation_reconciler}

abbrev app_secret : Secret
app_secret = record {
  meta = meta_of "credentials" "b" [];
  contents = ("appID", "12") ∷ ("privateKey", "pem") ∷ ("url", "https://github.com") ∷ [];
  type = "Opaque";
}

abbrev app_credentials : Credentials
app_credentials = record { app_id = pos 12; private_key = "pem"; url = "https://github.com" }

abbrev stocked : World
stocked = record start { platform_secrets = put (key_of app_secret.meta) (some app_secret) nothing }

abbrev instance_reconciler : GithubInstanceReconciler World
instance_reconciler = record {
  github_instances = memory instances_part (λ (o : GithubInstance). o.meta);
  secrets = memory platform_secrets_part secret_meta;
  credential_namespace = "credentials";
}

abbrev good : Verdict
good = record { status = condition_true; reason = "SecretsValid"; message = "" }

check_secrets-eq-true_iff_example :
    ((check_secrets rt instance_reconciler (key_b ∷ []) good stocked).0.status ≡ condition_true)
    ↔ AllValid rt instance_reconciler (key_b ∷ []) stocked
check_secrets-eq-true_iff_example =
    check_secrets-eq-true_iff rt instance_reconciler (key_b ∷ []) good stocked refl

-- The left-hand side holds here, and fails with the Secret that is missing.
stocked_valid :
    (check_secrets rt instance_reconciler (key_b ∷ []) good stocked).0.status ≡ condition_true
unfolding check_secrets from_secret data_key lookup parse_int read_number
stocked_valid = refl

missing_invalid :
    (check_secrets rt instance_reconciler (key_b ∷ key_a ∷ []) good stocked).0.status
    ≡ condition_false
unfolding check_secrets from_secret data_key lookup parse_int read_number
missing_invalid = refl

abbrev ready_condition : Condition
ready_condition = record {
  type = "Ready";
  status = condition_true;
  reason = "ReconciliationSucceeded";
  message = "Applied";
  observed_generation = pos 1;
  last_transition_time = none;
}

abbrev platform_source : Source World
platform_source = record {
  github_instances = memory instances_part (λ (o : GithubInstance). o.meta);
  secrets = memory platform_secrets_part secret_meta;
}

abbrev github : GithubClient World
github = record {
  verify_app = λ w. (ok "app", w);
  check_org_installation =
      λ org w. (ok (record { installed = true; installation_id = pos 42; account = org }), w);
  check_user_installation = λ user w. (err (errorf "no user"), w);
}

abbrev installer : AppInstallationReconciler World
installer = record {
  app_installations = memory installations_part (λ (o : AppInstallation). o.meta);
  platform = platform_source;
  credential_namespace = "credentials";
  new_client = λ creds. ok github;
}

reconcile_spec-Verified_example :
    Shows
      (reconcile_spec rt installer installation stocked).0.0
      condition_false
      condition_false
      (pos 42)
    ⊎ Verified rt installer installation
        (reconcile_spec rt installer installation stocked).0.0
        stocked
reconcile_spec-Verified_example =
    reconcile_spec-Verified rt list_conditions-ConditionLaws installer installation stocked

-- A GitHub on which the App is installed, and the reconciler with a client for it.
abbrev hub : Library World String String
hub = record {
  new_apps_transport = λ id key. ok key;
  with_base_url = λ url t. t;
  new_client = λ t timeout urls. ok t;
  apps = λ c t. record {
    get_app = λ w. (ok "app", w);
    get_organization_installation = λ org w.
        (record { value = ok (record { id = pos 42; login = org }); status_code = some 200 }, w);
    get_user_installation = λ user w. (record { value = err absent; status_code = some 404 }, w);
    create_installation_token = λ id options w. (err absent, w);
  };
}

abbrev ascii : Unicode
ascii = record { to_lower = λ c. c; is_space = λ c. false }

abbrev hub_installer : AppInstallationReconciler World
hub_installer =
    Answered.installer rt ascii hub (memory installations_part (λ (o : AppInstallation). o.meta))
      platform_source "credentials"

-- The world in which the AppInstallation is stored as the pass has patched it.
abbrev handed_over : World
handed_over = record stocked {
  installations =
      put (key_of installation.meta)
        (some (as_patched stocked.time (reconcile_spec rt hub_installer installation stocked).0.0))
        nothing;
}

-- What the GitRepository controller then finds.
abbrev found : AppInstallation
found = as_patched stocked.time (reconcile_spec rt hub_installer installation stocked).0.0

resolved-FromGithub_example :
    FromGithub rt ascii hub
      (memory installations_part (λ (o : AppInstallation). o.meta))
      platform_source
      "credentials"
      installation
      (pos 42)
      stocked
unfolding reconcile_spec check_target record_check set resolve_credential judge resolve
    select_secret_ref read_secret from_secret data_key lookup parse_int read_number
    resolve_credentials check_with condition_at put_condition new_app_installation_reconciler
    github_client new_client verify_app check_org_installation installation_result is_public
    trim_suffix
resolved-FromGithub_example =
    resolved-FromGithub rt ascii hub (memory installations_part (λ (o : AppInstallation). o.meta))
      platform_source "credentials" list_conditions-ConditionLaws reconciler repo installation found
      (pos 42) stocked.time stocked handed_over refl refl
