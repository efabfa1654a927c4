-- ===== src/Controller/GitRepository/Target.antt =====
-- reconcileTarget and currentTokenExpiry
pub mod Phases
pub mod RoundTrip
pub mod Repeat
pub mod Conflict
use platform_service_gitops.Prelude.{String, ◌<>◌, not, Option, none, some, if◌then◌else◌}
use platform_service_gitops.Go.Int.{ℤ}
use platform_service_gitops.Go.Error.{Result, ok, err}
use platform_service_gitops.Go.Eff.{Eff, pure, try, ◌>>=◌}
use platform_service_gitops.Go.Dict.{find}
use platform_service_gitops.Go.Time.{Time}
use platform_service_gitops.K8s.Objects.{McpClient}
use platform_service_gitops.Api.GitRepository.{
  PropagatePhase, pending, ready, token_failed, conflict, PropagateStatus, GitRepository,
}
use platform_service_gitops.Propagate.{
  token_expires_at_annotation, TokenMinter, Outcome, secret_key, needs_rotation, reconcile,
}
use platform_service_gitops.McpAccess.{ResolvedTarget}
use platform_service_gitops.Controller.{Runtime}
use platform_service_gitops.Controller.GitRepository.Base.{GitRepositoryReconciler}

abbrev pub up_to_date : String
up_to_date = "Token and Flux GitRepository are up to date."

module _ {W : Type 0} (rt : Runtime W) (r : GitRepositoryReconciler W) where
  abbrev pub parsed_expiry : Option String → Option Time
  parsed_expiry none = none
  parsed_expiry (some raw) = elim (rt.clock.parse_rfc3339 raw) [ err e ↦ none | ok t ↦ some t ]

  unfoldable pub current_token_expiry : McpClient W → GitRepository → Eff W (Option Time)
  current_token_expiry mcp gr =
      try (mcp.secrets.get (secret_key gr r.flux_namespace)) (λ _. pure none)
        (λ secret. pure (parsed_expiry (find token_expires_at_annotation secret.meta.annotations)))

  abbrev pub status_of :
      ResolvedTarget W → PropagatePhase → String → String → Option Time → PropagateStatus
  status_of target phase reason message expires = record {
    control_plane_namespace = target.control_plane_namespace;
    control_plane_name = target.control_plane_name;
    phase = phase;
    reason = reason;
    message = message;
    token_expires_at = expires;
  }

  -- What the result of propagate.Reconcile comes to.
  unfoldable pub outcome_status :
      GitRepository → ResolvedTarget W → Result Outcome → PropagateStatus
  outcome_status gr target (err e) = status_of target token_failed "ReconcileFailed" e.message none
  outcome_status gr target (ok result) =
      if result.conflict
      then status_of target conflict "FluxGitRepositoryConflict"
          ("A Flux GitRepository named "
            <> (rt.fmt.quoted gr.meta.name
                <> (" already exists in "
                    <> (r.flux_namespace
                        <> ("/"
                            <> (gr.meta.name
                                <> " without the managed-by annotation; will not overwrite."))))))
          none
      else status_of target ready "Synced" up_to_date (some result.token_expires_at)

  unfoldable pub sync_target :
      GitRepository → ResolvedTarget W → McpClient W → ℤ → TokenMinter W → Eff W PropagateStatus
  unfolding outcome_status
  sync_target gr target mcp installation_id minter = do
    due ← needs_rotation rt.clock mcp gr r.flux_namespace r.token_renew_buffer
    if not due
        then (do
          expires ← current_token_expiry mcp gr
          pure (status_of target ready "Synced" up_to_date expires))
        else (do
          result ← reconcile rt.clock mcp gr r.flux_namespace installation_id minter
          pure (outcome_status gr target result))

  unfoldable pub reconcile_target :
      GitRepository → ResolvedTarget W → ℤ → TokenMinter W → Eff W PropagateStatus
  reconcile_target gr target installation_id minter =
      if target.pending
      then pure (
          status_of target pending "AccessRequestPending"
            "Waiting for MCP cluster access to be granted." none)
      else elim target.cluster [
        | none ↦ pure (
            status_of target token_failed "ClusterAccessFailed"
              "MCP cluster access could not be obtained." none)
        | some mcp ↦ sync_target gr target mcp installation_id minter
      ]
