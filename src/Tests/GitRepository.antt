-- ===== src/Tests/GitRepository.antt =====
-- The GitRepository controller on the concrete world.
use platform_service_gitops.Propagate.{
  secret_name, reconcile, Outcome, desired_secret, managed_by_value, needs_rotation,
}
use platform_service_gitops.McpAccess.{ResolvedTarget}
use platform_service_gitops.Propagate.{TokenMinter, secret_key}
use platform_service_gitops.GithubApp.{TokenResult}
use platform_service_gitops.K8s.Objects.{Secret}
use platform_service_gitops.Go.Dict.{lookup}
use platform_service_gitops.Go.Eff.{Eff}
use platform_service_gitops.Go.Error.{Result, ok}
use platform_service_gitops.Controller.GitRepository.Base.{GitRepositoryReconciler}
use platform_service_gitops.Controller.GitRepository.Target.Conflict.{conflict_hidden}
use platform_service_gitops.Prelude.{
  List, String, [], arith, none, refl, some, true, ◌*◌, ◌+◌, ◌∷◌, ◌≡◌, ◌≢◌,
}
use platform_service_gitops.Api.GitRepository.{
  GitRepository, PropagatePhase, PropagateStatus, pending, ready, conflict,
}
use platform_service_gitops.Tests.World.{
  minter, noon, reconciler, repo, rt, start, target, World, clock, contested, expiry_time,
  fresh_token, mcp, mcp_laws,
}
use platform_service_gitops.Go.Int.{pos, ◌<ℤ◌}
use platform_service_gitops.Go.Time.{Duration, minute, until}
use platform_service_gitops.Controller.GitRepository.Target.{reconcile_target, sync_target}
use platform_service_gitops.Controller.GitRepository.Propagation.{sync_all, time_left}
use platform_service_gitops.Controller.GitRepository.Status.Map.{UniqueKeys, status_at}
use platform_service_gitops.Controller.GitRepository.Propagation.Deadline.{
  BelowAll, OneOf, deadlines, sync_all-least, time_left_in_range, sync_all-forgets_due,
}
use platform_service_gitops.Controller.GitRepository.Propagation.Tracking.{
  IsSome, has_target, sync_all-tracks,
}
use platform_service_gitops.Controller.GitRepository.Target.Phases.{
  ReadyReason, reconcile_target-ready,
}

abbrev state_of : String → PropagatePhase → PropagateStatus
state_of name phase = record {
  control_plane_namespace = "team";
  control_plane_name = name;
  phase = phase;
  reason = "";
  message = "";
  token_expires_at = none;
}

abbrev states : List PropagateStatus
states = state_of "plane" pending ∷ state_of "gone" ready ∷ []

abbrev tracked : GitRepository
tracked = record repo { status = record repo.status { propagated = states } }

sync_all-tracks_example :
    let after =
      (sync_all rt reconciler (target ∷ []) tracked (pos 42) minter start).0.0.status.propagated in
    UniqueKeys after × IsSome (status_at "team" "plane" after)
unfolding status_at has_target
sync_all-tracks_example =
    sync_all-tracks rt reconciler (pos 42) minter (target ∷ []) tracked "team" "plane" start
      (refl, (refl, tt)) refl

abbrev left : Duration
left = pos (45 * minute)

left≢nil : left ∷ [] ≢ []
left≢nil p = cc

one_deadline : (deadlines rt reconciler (pos 42) minter (target ∷ []) repo start).0 ≡ left ∷ []
unfolding deadlines reconcile_target sync_target needs_rotation reconcile time_left
one_deadline = refl

sync_all-least_example :
    let m = (sync_all rt reconciler (target ∷ []) repo (pos 42) minter start).0.1 in
    OneOf m (deadlines rt reconciler (pos 42) minter (target ∷ []) repo start).0
    × BelowAll m (deadlines rt reconciler (pos 42) minter (target ∷ []) repo start).0
unfolding deadlines reconcile_target sync_target needs_rotation reconcile time_left
sync_all-least_example =
    sync_all-least rt reconciler (pos 42) minter (target ∷ []) repo start (omega arith, tt) left≢nil

time_left_in_range_example : time_left (pos (noon + 3600)) (pos noon) (pos 900) ≡ pos 2700
time_left_in_range_example = time_left_in_range 3600 noon 900 (omega arith) (omega arith)

reconcile_target-ready_example : ReadyReason rt reconciler repo (pos 42) minter target start
unfolding reconcile_target sync_target needs_rotation reconcile
reconcile_target-ready_example =
    reconcile_target-ready rt reconciler repo (pos 42) minter target start refl

-- A buffer of one hour: the token of the first target is due at once, that of the second is not.
abbrev cautious : GitRepositoryReconciler World
cautious = record reconciler { token_renew_buffer = pos (60 * minute) }

abbrev late_token : TokenResult
late_token = record { token = "ghs_2"; expires_at = pos (noon + 120 * minute) }

-- Once a token is stored, the next one is valid for two hours.
abbrev growing : TokenMinter World
growing = record {
  mint_scoped_token = λ id name w. (
    ok (elim (w.secrets (secret_key repo "flux-system")) [
      | none ↦ fresh_token
      | some s ↦ late_token
    ]),
    w,
  );
}

abbrev two : List (ResolvedTarget World)
two = target ∷ record target { control_plane_name = "other" } ∷ []

abbrev hour : Duration
hour = pos (60 * minute)

hour≢nil : hour ∷ [] ≢ []
hour≢nil p = cc

sync_all-forgets_due_example :
    let m = (sync_all rt cautious two repo (pos 42) growing start).0.1 in
    (pos 0 <ℤ m) × OneOf m (hour ∷ []) × BelowAll m (hour ∷ [])
unfolding deadlines reconcile_target sync_target needs_rotation reconcile time_left secret_name
    lookup managed_by_value
sync_all-forgets_due_example =
    sync_all-forgets_due rt cautious (pos 42) growing two repo start [] (hour ∷ []) refl
      (omega arith, tt) hour≢nil

abbrev contest : Eff World (Result Outcome)
contest = reconcile clock mcp repo "flux-system" (pos 42) minter

abbrev contested_after : World
contested_after = (contest contested).1

abbrev conflicting : Outcome
conflicting = record { token_expires_at = expiry_time; conflict = true }

abbrev written_secret : Secret
unfolding desired_secret
written_secret = desired_secret clock repo "flux-system" "app-token" fresh_token

conflict_hidden_example :
    ((sync_target rt reconciler repo target mcp (pos 42) minter contested).0.phase ≡ conflict)
    × ((sync_target rt reconciler repo target mcp (pos 42) minter contested_after).0.phase ≡ ready)
unfolding needs_rotation reconcile secret_name managed_by_value lookup until
conflict_hidden_example =
    conflict_hidden rt reconciler mcp mcp_laws repo (pos 42) minter target contested contested_after
      conflicting written_secret expiry_time refl refl refl refl refl refl (omega arith)
