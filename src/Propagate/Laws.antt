-- ===== src/Propagate/Laws.antt =====
-- What is relied on of an MCP's API server.
use platform_service_gitops.Propagate.{
  flux_meta, secret_meta, managed_by_annotation, managed_by_value,
}
use platform_service_gitops.Prelude.{◌≡◌}
use platform_service_gitops.K8s.Meta.{ObjectMeta}
use platform_service_gitops.K8s.Objects.{FluxGitRepository, McpClient, Secret}
use platform_service_gitops.K8s.Laws.{FrameLaws, StoreLaws, sent_meta}
use platform_service_gitops.Api.GitRepository.{GitRepository}
use platform_service_gitops.Go.Dict.{at_key}

-- The objects without what the server sets.
abbrev pub sent_secret : Secret → Secret
sent_secret s = record s { meta = sent_meta s.meta }

abbrev pub sent_flux : FluxGitRepository → FluxGitRepository
sent_flux f = record f { meta = sent_meta f.meta }

pub record McpLaws {W : Type 0} (mcp : McpClient W) : Type 0 where
  pub secrets : StoreLaws mcp.secrets secret_meta sent_secret
  pub flux : StoreLaws mcp.flux_git_repositories flux_meta sent_flux
  pub secrets_frame : FrameLaws mcp.secrets flux.view
  pub flux_frame : FrameLaws mcp.flux_git_repositories secrets.view

-- The annotation that marks an object as this GitRepository's own.
abbrev pub IsOwned : GitRepository → ObjectMeta → Type 0
IsOwned gr m = at_key managed_by_annotation m.annotations ≡ managed_by_value gr
