-- ===== src/Tests/World.antt =====
-- A concrete world: the clusters in memory, a clock that stands still, and a GitHub that mints.
use platform_service_gitops.Controller.{Runtime}
use platform_service_gitops.Prelude.{
  List, String, [], false, if◌then◌else◌, none, some, ℕ, ◌*◌, ◌+◌, ◌==◌, ◌∷◌,
}
use platform_service_gitops.GithubApp.{TokenResult}
use platform_service_gitops.McpAccess.{ResolvedTarget}
use platform_service_gitops.Propagate.{TokenMinter, secret_meta}
use platform_service_gitops.K8s.Meta.{ObjectMeta, condition_true, key_of}
use platform_service_gitops.K8s.Objects.{FluxGitRepository}
use platform_service_gitops.K8s.Memory.{Table, list_conditions, list_finalizers, memory, put}
use platform_service_gitops.Api.GithubInstance.{GithubInstance, SecretReference}
use platform_service_gitops.Api.GitRepository.{GitRepository}
use platform_service_gitops.Api.AppInstallation.{AppInstallation}
use platform_service_gitops.Go.Int.{pos}
use platform_service_gitops.Go.Time.{Clock, Time, minute, second}
use platform_service_gitops.Go.Error.{Fmt, err, errorf, ok}
use platform_service_gitops.Controller.GitRepository.Base.{
  GitRepositoryReconciler, finalizer_propagate,
}
pub use platform_service_gitops.Tests.Clusters.{
  World, secrets_part, flux_part, platform_secrets_part, instances_part, installations_part,
  repositories_part, control_planes_part, access_requests_part, mcp, mcp_laws,
}
use platform_service_gitops.Tests.Clusters.{
  World, control_planes_part, installations_part, instances_part, mcp, platform_secrets_part,
  repositories_part,
}

-- Every expiry is written and read as this time, an hour after the clock's.
abbrev pub noon : ℕ
noon = 63_000_000_000 * second

abbrev pub expiry_time : Time
expiry_time = pos (noon + 60 * minute)

abbrev pub clock : Clock World
clock = record {
  now = λ w. (w.time, w);
  format_rfc3339 = λ t. "13:00";
  parse_rfc3339 = λ s. if s == "13:00" then ok expiry_time else err (errorf "not a time");
}

abbrev pub plain_fmt : Fmt
plain_fmt = record { quoted = λ s. s; decimal = λ n. "7" }

abbrev pub rt : Runtime World
rt = record {
  clock = clock;
  fmt = plain_fmt;
  conditions = list_conditions;
  finalizers = list_finalizers;
}

abbrev pub fresh_token : TokenResult
fresh_token = record { token = "ghs_1"; expires_at = expiry_time }

abbrev pub minter : TokenMinter World
minter = record { mint_scoped_token = λ id name w. (ok fresh_token, w) }

abbrev pub meta_of : String → String → List String → ObjectMeta
meta_of namespace name finalizers = record {
  name = name;
  namespace = namespace;
  generation = pos 1;
  annotations = none;
  finalizers = finalizers;
  deletion_timestamp = none;
}

abbrev pub repo : GitRepository
repo = record {
  meta = meta_of "team" "app" (finalizer_propagate ∷ []);
  spec = record {
    url = "https://github.com/team/app";
    ref = record { branch = "main"; tag = ""; commit = "" };
    path = "";
    credential_ref = record { name = "install"; kind = "AppInstallation"; group = "" };
    propagate_to_control_planes = [];
  };
  status = record { observed_generation = pos 0; conditions = []; propagated = [] };
}

abbrev pub target : ResolvedTarget World
target = record {
  control_plane_namespace = "team";
  control_plane_name = "plane";
  cluster = some mcp;
  pending = false;
}

abbrev pub installation : AppInstallation
installation = record {
  meta = meta_of "team" "install" [];
  spec = record {
    instance_ref = record { name = "github" };
    credential_name = "b";
    org = "team";
    user = "";
  };
  status = record {
    observed_generation = pos 1;
    installation_id = pos 42;
    last_checked = none;
    conditions =
        record {
          type = "AppInstalled";
          status = condition_true;
          reason = "AppInstalled";
          message = "";
          observed_generation = pos 1;
          last_transition_time = none;
        }
        ∷ [];
  };
}

abbrev pub key_a : SecretReference
key_a = record { name = "a"; namespace = "" }

abbrev pub key_b : SecretReference
key_b = record { name = "b"; namespace = "" }

abbrev pub instance_ab : GithubInstance
instance_ab = record {
  meta = meta_of "" "github" [];
  spec = record { secret_refs = key_a ∷ key_b ∷ [] };
  status = record { observed_generation = pos 0; conditions = [] };
}

abbrev pub nothing : {O : Type 0} → Table O
nothing k = none

-- The MCP is empty; the AppInstallation and its instance are there.
abbrev pub start : World
start = record {
  secrets = nothing;
  flux = nothing;
  platform_secrets = nothing;
  instances = put (key_of instance_ab.meta) (some instance_ab) nothing;
  installations = put (key_of installation.meta) (some installation) nothing;
  repositories = put (key_of repo.meta) (some repo) nothing;
  control_planes = nothing;
  access_requests = nothing;
  time = pos noon;
}

abbrev pub reconciler : GitRepositoryReconciler World
reconciler = record {
  onboarding = record {
    git_repositories = memory repositories_part (λ o. o.meta);
    app_installations = memory installations_part (λ o. o.meta);
    control_planes = memory control_planes_part (λ o. o.meta);
  };
  platform = record {
    github_instances = memory instances_part (λ o. o.meta);
    secrets = memory platform_secrets_part secret_meta;
  };
  mcp_resolver = record {
    resolve = λ gr cps w. (ok (target ∷ []), w);
    cleanup = λ gr namespace name w. (ok tt, w);
  };
  credential_namespace = "credentials";
  flux_namespace = "flux-system";
  token_renew_buffer = pos (15 * minute);
  new_minter = λ creds. ok minter;
}

-- A Flux GitRepository of the same name that another owner made.
abbrev pub foreign_flux : FluxGitRepository
foreign_flux = record {
  meta = meta_of "flux-system" "app" [];
  spec = record {
    url = "https://example.com";
    interval = pos minute;
    secret_ref = none;
    reference = none;
  };
}

abbrev pub contested : World
contested = record start { flux = put (key_of foreign_flux.meta) (some foreign_flux) nothing }
