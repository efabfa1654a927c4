-- ===== src/Controller/GitRepository/Propagation.antt =====
-- reconcilePropagate
pub mod Deadline
pub mod Tracking
use platform_service_gitops.Prelude.{
  String, ◌||◌, Option, none, some, List, [], ◌∷◌, map, if◌then◌else◌,
}
use platform_service_gitops.Go.Int.{ℤ, pos, is_zero, ltb_ℤ}
use platform_service_gitops.Go.Error.{ok, err}
use platform_service_gitops.Go.Eff.{Eff, pure, try, ◌>>=◌}
use platform_service_gitops.Go.Time.{Time, Duration, until, sub_duration, max_duration}
use platform_service_gitops.Api.GitRepository.{PropagateStatus, GitRepository}
use platform_service_gitops.Api.AppInstallation.{AppInstallation}
use platform_service_gitops.Propagate.{TokenMinter}
use platform_service_gitops.McpAccess.{ResolvedTarget}
use platform_service_gitops.Controller.{requeue_interval, Runtime}
use platform_service_gitops.Controller.GitRepository.Base.{GitRepositoryReconciler}
use platform_service_gitops.Controller.GitRepository.Status.{
  propagate_key, set_propagate_status, filter_propagate_status,
}
use platform_service_gitops.Controller.GitRepository.Credential.{resolve_github_creds}
use platform_service_gitops.Controller.GitRepository.Target.{reconcile_target}

-- max(time.Until(t) - buffer, 0) at the time `now`
unfoldable pub time_left : Time → Time → Duration → Duration
unfolding until sub_duration max_duration
time_left expires now buffer = max_duration (sub_duration (until expires now) buffer) (pos 0)

-- The update of the variable `earliest`, where 0 stands for "none yet".
unfoldable pub earlier : Duration → Duration → Duration
earlier earliest left = if is_zero earliest || ltb_ℤ left earliest then left else earliest

abbrev pub with_propagated : GitRepository → List PropagateStatus → GitRepository
with_propagated gr list = record gr { status = record gr.status { propagated = list } }

-- desiredNames
abbrev pub desired_names : {W : Type 0} → List (ResolvedTarget W) → List String
desired_names = map (λ t. propagate_key t.control_plane_namespace t.control_plane_name)

module _ {W : Type 0} (rt : Runtime W) (r : GitRepositoryReconciler W) where
  abbrev pub next_deadline : Option Time → Duration → Eff W Duration
  next_deadline none earliest = pure earliest
  next_deadline (some t) earliest = do
    now ← rt.clock.now
    pure (earlier earliest (time_left t now r.token_renew_buffer))

  -- The loop over the targets.
  unfoldable pub sync_targets :
      List (ResolvedTarget W)
      → GitRepository
      → ℤ
      → TokenMinter W
      → Duration
      → Eff W (GitRepository × Duration)
  sync_targets [] gr installation_id minter earliest = pure (gr, earliest)
  sync_targets (target ∷ targets) gr installation_id minter earliest = do
    ps ← reconcile_target rt r gr target installation_id minter
    earliest' ← next_deadline ps.token_expires_at earliest
    sync_targets targets (with_propagated gr (set_propagate_status gr.status.propagated ps))
        installation_id minter earliest'

  -- The targets are resolved and the GitHub client is built.
  unfoldable pub sync_all :
      List (ResolvedTarget W) → GitRepository → ℤ → TokenMinter W → Eff W (GitRepository × Duration)
  unfolding propagate_key
  sync_all targets gr installation_id minter = do
    (gr', earliest) ← sync_targets targets gr installation_id minter (pos 0)
    pure (
      with_propagated gr' (filter_propagate_status gr'.status.propagated (desired_names targets)),
      earliest,
    )

  unfoldable pub reconcile_propagate :
      GitRepository → AppInstallation → ℤ → Eff W (GitRepository × Duration)
  reconcile_propagate gr ai installation_id =
      let give_up = pure (gr, requeue_interval) in
      try (r.mcp_resolver.resolve gr r.onboarding.control_planes) (λ _. give_up)
        λ targets.
          try (resolve_github_creds rt r ai) (λ _. give_up)
            λ creds. elim (r.new_minter creds) [
              | err _ ↦ give_up
              | ok minter ↦ sync_all targets gr installation_id minter
            ]
