-- ===== src/Tests/Propagate.antt =====
-- Propagation into one MCP.
use platform_service_gitops.Propagate.{
  reconcile, cleanup, Outcome, desired_secret, flux_key, flux_meta, managed_by_value,
  needs_rotation, secret_key, secret_meta, secret_name,
}
use platform_service_gitops.Prelude.{false, refl, some, ◌*◌, ◌↔◌, ◌≡◌, String, ap, arith, ◌+◌}
use platform_service_gitops.GithubApp.{TokenResult}
use platform_service_gitops.K8s.Objects.{Secret}
use platform_service_gitops.Tests.World.{
  World, clock, expiry_time, foreign_flux, fresh_token, mcp, mcp_laws, minter, noon, repo, start,
  reconciler, rt, target,
}
use platform_service_gitops.Go.Dict.{lookup}
use platform_service_gitops.Go.Eff.{Eff}
use platform_service_gitops.Go.Int.{pos, ◌<ℤ◌}
use platform_service_gitops.Go.Time.{minute, until}
use platform_service_gitops.Go.Error.{Result, ok}
use platform_service_gitops.Propagate.Rotation.{IsFresh, needs_rotation-eq-false_iff}
use platform_service_gitops.Propagate.Writes.{Synced, reconcile-Synced}
use platform_service_gitops.Propagate.Laws.{IsOwned}
use platform_service_gitops.Propagate.Cleanup.{IsRelinquished, cleanup-IsRelinquished}
use platform_service_gitops.Controller.GitRepository.Target.{
  current_token_expiry, sync_target, outcome_status,
}
use platform_service_gitops.Controller.GitRepository.Target.Repeat.{sync_target-repeats}
use platform_service_gitops.Controller.GitRepository.Target.RoundTrip.{expiry-roundtrip}
use platform_service_gitops.K8s.Memory.{keyed}
use platform_service_gitops.Api.GitRepository.{GitRepository}

abbrev first_pass : Eff World (Result Outcome)
first_pass = reconcile clock mcp repo "flux-system" (pos 42) minter

-- The world after a first pass.
abbrev pub synced : World
synced = (first_pass start).1

abbrev clean : Outcome
clean = record { token_expires_at = expiry_time; conflict = false }

reconcile-Synced_example :
    (tok : TokenResult) × (minter.mint_scoped_token (pos 42) "" start).0 ≡ ok tok
    × (expiry_time ≡ tok.expires_at)
    × Synced clock mcp_laws repo "flux-system" tok synced
unfolding reconcile
reconcile-Synced_example =
    reconcile-Synced clock mcp mcp_laws repo "flux-system" (pos 42) minter start clean refl refl

pub foreign_flux-unowned : ¬ (IsOwned repo foreign_flux.meta)
unfolding lookup managed_by_value
foreign_flux-unowned p = string_apart p
  where
    string_apart : ◌≡◌ {A = String} "" "team/app" → ⊥
    string_apart q = cc

cleanup-IsRelinquished_example :
    IsRelinquished flux_meta repo
      ((cleanup mcp repo "flux-system" synced).1.flux (flux_key repo "flux-system"))
    × IsRelinquished secret_meta repo
        ((cleanup mcp repo "flux-system" synced).1.secrets (secret_key repo "flux-system"))
unfolding reconcile cleanup lookup managed_by_value secret_name
cleanup-IsRelinquished_example =
    cleanup-IsRelinquished mcp mcp_laws repo "flux-system" synced tt tt refl

abbrev pub token_secret : Secret
unfolding desired_secret
token_secret = desired_secret clock repo "flux-system" "app-token" fresh_token

needs_rotation-eq-false_iff_example :
    ((needs_rotation clock mcp repo "flux-system" (pos (15 * minute)) synced).0 ≡ false)
    ↔ IsFresh clock (pos (15 * minute)) (pos noon) token_secret
unfolding needs_rotation reconcile secret_name
needs_rotation-eq-false_iff_example =
    needs_rotation-eq-false_iff clock mcp repo "flux-system" (pos (15 * minute)) synced token_secret
      refl

expiry-roundtrip_example :
    ((current_token_expiry rt reconciler mcp repo synced).0 ≡ some expiry_time)
    × (((needs_rotation clock mcp repo "flux-system" (pos (15 * minute)) synced).0 ≡ false)
        ↔ (pos (15 * minute) <ℤ until expiry_time (pos noon)))
unfolding reconcile secret_name
expiry-roundtrip_example =
    expiry-roundtrip rt reconciler mcp mcp_laws repo (pos 42) minter start synced clean token_secret
      refl refl refl refl refl

-- Half an hour after the first pass.
abbrev later : World
later = record synced { time = pos (noon + 30 * minute) }

-- Its URL has changed since.
abbrev moved : GitRepository
moved = record repo { spec = record repo.spec { url = "https://github.com/team/moved" } }

sync_target-repeats_example :
    ((sync_target rt reconciler moved target mcp (pos 42) minter later).0
      ≡ outcome_status rt reconciler repo target (ok clean))
    × ((sync_target rt reconciler moved target mcp (pos 42) minter later).1.secrets ≡ later.secrets)
    × ((sync_target rt reconciler moved target mcp (pos 42) minter later).1.flux ≡ later.flux)
unfolding reconcile secret_name until
sync_target-repeats_example =
    sync_target-repeats rt reconciler mcp mcp_laws repo (pos 42) minter moved target start later
      clean refl (λ w. refl) (λ w. refl) refl refl refl
      (λ v same. (
        token_secret,
        ap
            (λ t.
              keyed secret_meta (secret_key repo "flux-system") (t (secret_key repo "flux-system")))
            same,
      ))
      refl (omega arith)
