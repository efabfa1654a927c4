-- ===== src/Tests/Startup.antt =====
-- The start of the program on a manager that logs what is done to it; the world is the log.
use mathlib.Core.List.{append-nil}
use platform_service_gitops.K8s.Client.{Client}
use platform_service_gitops.GithubApp.{Library}
use platform_service_gitops.Main.Startup.{
  Event, ManagerLaws, cluster_added, completed, healthz_added, scheme_added, started,
}
use platform_service_gitops.Main.Command.{BeforeLaws, NoManager, WithManager, run_command-ordered}
use platform_service_gitops.Prelude.{List, String, [], false, refl, sym, true, ◌++◌, ◌∷◌, ◌⊎◌, none}
use platform_service_gitops.K8s.Memory.{absent, list_conditions, list_finalizers}
use platform_service_gitops.Tests.World.{plain_fmt}
use platform_service_gitops.Go.Eff.{Eff, fail, pure}
use platform_service_gitops.Go.Int.{pos}
use platform_service_gitops.Go.Error.{Result, err, ok}
use platform_service_gitops.Controller.Setup.{Registration}
use platform_service_gitops.Main.Libraries.{ClusterClient, ClusterLibrary, ManagerLibrary}
use platform_service_gitops.Main.Run.{ReconcilerLibraries}
use platform_service_gitops.Main.Flags.{FlagSet}

abbrev pub Log : Type 0
Log = List (Event String String)

abbrev append : Event String String → Eff Log (Result (Unit {0}))
append e w = (ok tt, w ++ (e ∷ []))

abbrev no_client : {O : Type 0} → Client Log O
no_client = record {
  get = λ k. fail absent;
  list = λ namespace labels. fail absent;
  create = λ o. fail absent;
  update = λ o. fail absent;
  delete = λ k. fail absent;
  patch_status = λ old new. fail absent;
}

abbrev no_clients : ClusterClient Log
no_clients = record {
  git_repositories = no_client;
  kustomizations = no_client;
  app_installations = no_client;
  github_instances = no_client;
  control_planes = no_client;
  access_requests = no_client;
  secrets = no_client;
  flux_git_repositories = no_client;
  flux_kustomizations = no_client;
}

-- A cluster is its name here.
abbrev pub cluster_library : ClusterLibrary Log String String String
cluster_library = record {
  get_config_or_die = pure "config";
  initialize_client = λ id config scheme. pure (ok id);
  rest_config = λ cluster. "config";
  client = λ cluster. no_clients;
  new_access_manager = λ platform name namespace interval timeout. name;
  create_and_wait_for_cluster = λ access name purpose scheme permissions. pure (ok name);
  purpose_platform = "platform";
  purpose_onboarding = "onboarding";
  getenv = λ name. pure "system";
  env_pod_namespace = "POD_NAMESPACE";
}

-- A registration is logged by its name. The second check is refused.
abbrev pub manager_library : ManagerLibrary Log String String String
manager_library = record {
  new_manager = λ config options. pure (ok "manager");
  add = λ m cluster. append (cluster_added cluster);
  add_kustomize_scheme = λ m. append scheme_added;
  complete = λ m r. append (completed r.named);
  add_healthz_check = λ m name. append (healthz_added name);
  add_readyz_check = λ m name. fail absent;
  start = λ m. append started;
}

abbrev tag : Registration Log → String
tag r = r.named

abbrev no_github : Library Log String String
no_github = record {
  new_apps_transport = λ id key. err absent;
  with_base_url = λ url t. t;
  new_client = λ t timeout urls. err absent;
  apps = λ c t. record {
    get_app = fail absent;
    get_organization_installation = λ org. pure (record { value = err absent; status_code = none });
    get_user_installation = λ user. pure (record { value = err absent; status_code = none });
    create_installation_token = λ id options. fail absent;
  };
}

abbrev pub libraries : ReconcilerLibraries Log String String String
libraries = record {
  runtime = record {
    clock = record {
      now = pure (pos 0);
      format_rfc3339 = λ t. "";
      parse_rfc3339 = λ s. err absent;
    };
    fmt = plain_fmt;
    conditions = list_conditions;
    finalizers = list_finalizers;
  };
  unicode = record { to_lower = λ c. c; is_space = λ c. false };
  access = record {
    initially_pending = true;
    initially_denied = false;
    stable_mcp_namespace = λ name namespace. ok name;
    stable_request_name = λ controller name. name;
    rest_config = λ s. ok s;
    initialize_client = λ name config. fail absent;
  };
  github = no_github;
  create_or_update_flux_source = λ c o f. fail absent;
  create_or_update_flux_kustomization = λ c o f. fail absent;
  set_controller_reference = λ owner object. ok object;
}

abbrev flags : FlagSet
flags = record { get_string = λ name. ""; get_bool = λ name. false; get_duration = λ name. pos 0 }

before_laws : BeforeLaws cluster_library manager_library libraries tag (λ w. w)
before_laws = record {
  get_config = λ w. refl;
  initialize_client = λ id c s w. refl;
  getenv = λ name w. refl;
  create_and_wait = λ a name purpose s p w. refl;
}

manager_laws : ManagerLaws manager_library tag (λ w. w)
manager_laws = record {
  add = λ m c w. refl;
  add_scheme = λ m w. refl;
  complete = λ m r w. refl;
  healthz = λ m name w. refl;
  readyz = λ m name w. sym (append-nil w);
  start = λ m w. refl;
  new_manager = λ c o w. refl;
}

run_command-ordered_example :
    NoManager cluster_library manager_library libraries tag (λ w. w) flags []
    ⊎ WithManager cluster_library manager_library libraries tag (λ w. w) flags []
run_command-ordered_example =
    run_command-ordered cluster_library manager_library libraries tag (λ w. w) flags [] before_laws
      manager_laws
