-- ===== src/Tests/Clusters.antt =====
-- The clusters of the concrete world, in memory.
use platform_service_gitops.Prelude.{refl}
use platform_service_gitops.Propagate.{flux_meta, secret_meta}
use platform_service_gitops.K8s.Objects.{
  AccessRequest, ControlPlane, FluxGitRepository, McpClient, Secret,
}
use platform_service_gitops.K8s.Memory.{Part, Table, memory, memory-FrameLaws, memory-StoreLaws}
use platform_service_gitops.Api.GithubInstance.{GithubInstance}
use platform_service_gitops.Api.GitRepository.{GitRepository}
use platform_service_gitops.Api.AppInstallation.{AppInstallation}
use platform_service_gitops.Go.Time.{Time}
use platform_service_gitops.Propagate.Laws.{McpLaws}

pub record World : Type 0 where
  pub secrets : Table Secret
  pub flux : Table FluxGitRepository
  pub platform_secrets : Table Secret
  pub instances : Table GithubInstance
  pub installations : Table AppInstallation
  pub repositories : Table GitRepository
  pub control_planes : Table ControlPlane
  pub access_requests : Table AccessRequest
  pub time : Time

abbrev pub secrets_part : Part World Secret
secrets_part = record {
  read = λ w. w.secrets;
  write = λ t w. record w { secrets = t };
  read-write = λ t w. refl;
}

abbrev pub flux_part : Part World FluxGitRepository
flux_part = record {
  read = λ w. w.flux;
  write = λ t w. record w { flux = t };
  read-write = λ t w. refl;
}

abbrev pub platform_secrets_part : Part World Secret
platform_secrets_part = record {
  read = λ w. w.platform_secrets;
  write = λ t w. record w { platform_secrets = t };
  read-write = λ t w. refl;
}

abbrev pub instances_part : Part World GithubInstance
instances_part = record {
  read = λ w. w.instances;
  write = λ t w. record w { instances = t };
  read-write = λ t w. refl;
}

abbrev pub installations_part : Part World AppInstallation
installations_part = record {
  read = λ w. w.installations;
  write = λ t w. record w { installations = t };
  read-write = λ t w. refl;
}

abbrev pub repositories_part : Part World GitRepository
repositories_part = record {
  read = λ w. w.repositories;
  write = λ t w. record w { repositories = t };
  read-write = λ t w. refl;
}

abbrev pub control_planes_part : Part World ControlPlane
control_planes_part = record {
  read = λ w. w.control_planes;
  write = λ t w. record w { control_planes = t };
  read-write = λ t w. refl;
}

abbrev pub access_requests_part : Part World AccessRequest
access_requests_part = record {
  read = λ w. w.access_requests;
  write = λ t w. record w { access_requests = t };
  read-write = λ t w. refl;
}

abbrev pub mcp : McpClient World
mcp = record {
  secrets = memory secrets_part secret_meta;
  flux_git_repositories = memory flux_part flux_meta;
}

abbrev pub mcp_laws : McpLaws mcp
mcp_laws = record {
  secrets = memory-StoreLaws secrets_part secret_meta;
  flux = memory-StoreLaws flux_part flux_meta;
  secrets_frame = memory-FrameLaws secrets_part secret_meta (λ w. w.flux) (λ t w. refl);
  flux_frame = memory-FrameLaws flux_part flux_meta (λ w. w.secrets) (λ t w. refl);
}
