-- ===== src/Controller/GitRepository/Target/Phases.antt =====
-- The phase that reconcileTarget reports for a target.
use platform_service_gitops.Controller.GitRepository.Base.{GitRepositoryReconciler}
use platform_service_gitops.Propagate
use platform_service_gitops.Controller.{Runtime}
use platform_service_gitops.Prelude.{
  Bool, Bool-cases, false, inl, inr, some, true, ◌≡◌, ◌⊎◌, Option-cases, arith, ◌≢◌,
}
use platform_service_gitops.McpAccess.{ResolvedTarget}
use platform_service_gitops.Propagate.{Outcome, TokenMinter, needs_rotation}
use platform_service_gitops.K8s.Objects.{McpClient}
use platform_service_gitops.Api.GitRepository.{
  GitRepository, ready, flux_failed, pending, token_failed,
}
use platform_service_gitops.Go.Invariant.{Result-cases}
use platform_service_gitops.Go.Int.{ℤ}
use platform_service_gitops.Go.Error.{Result, ok, Error, err}
use platform_service_gitops.Controller.GitRepository.Target.{
  sync_target, outcome_status, reconcile_target,
}

module _ {W : Type 0} (rt : Runtime W) (r : GitRepositoryReconciler W) (gr : GitRepository) (id : ℤ)
    (minter : TokenMinter W) where
  abbrev rotating : McpClient W → W → Bool
  rotating mcp w = (needs_rotation rt.clock mcp gr r.flux_namespace r.token_renew_buffer w).0

  abbrev checked : McpClient W → W → W
  checked mcp w = (needs_rotation rt.clock mcp gr r.flux_namespace r.token_renew_buffer w).1

  abbrev written : McpClient W → W → Result Outcome
  written mcp w = (Propagate.reconcile rt.clock mcp gr r.flux_namespace id minter (checked mcp w)).0

  -- What makes a target Ready: its cluster is there, and either no rotation was due, or the token and
  -- the Flux GitRepository were written with no conflict.
  abbrev pub ReadyReason : ResolvedTarget W → W → Type 0
  ReadyReason t w =
      (mcp : McpClient W) × (t.pending ≡ false)
      × (t.cluster ≡ some mcp)
      × ((rotating mcp w ≡ false)
          ⊎ ((o : Outcome) × (rotating mcp w ≡ true)
              × (written mcp w ≡ ok o)
              × (o.conflict ≡ false)))

  sync_target-ready :
      (t : ResolvedTarget W) (mcp : McpClient W) (w : W)
      → (sync_target rt r gr t mcp id minter w).0.phase ≡ ready
      → (rotating mcp w ≡ false)
        ⊎ ((o : Outcome) × (rotating mcp w ≡ true) × (written mcp w ≡ ok o) × (o.conflict ≡ false))
  unfolding sync_target
  sync_target-ready t mcp w h = elim (Bool-cases (rotating mcp w)) [
    | inr fresh ↦ inl fresh
    | inl due ↦ elim (Result-cases (written mcp w)) [
      | inl (o, p) ↦ inr (o, due, p, no_conflict_of o (rw (due, p, outcome_status) at h))
      | inr (e, p) ↦ absurd (failed_not_ready e (rw (due, p) at h))
    ]
  ]
    where
      no_conflict_of :
          (o : Outcome) → (outcome_status rt r gr t (ok o)).phase ≡ ready → o.conflict ≡ false
      no_conflict_of o q = ground arith

      failed_not_ready : (e : Error) → (outcome_status rt r gr t (err e)).phase ≡ ready → ⊥
      failed_not_ready e q = cc

  -- A target is reported Ready only if it is not pending, its cluster is there, and either no
  -- rotation was due, or propagate.Reconcile succeeded with no conflict.
  pub reconcile_target-ready :
      (t : ResolvedTarget W) (w : W)
      → (reconcile_target rt r gr t id minter w).0.phase ≡ ready
      → ReadyReason t w
  unfolding reconcile_target
  reconcile_target-ready t w h = elim (Bool-cases t.pending) [
    | inl waiting ↦ absurd (pending≢ready (rw waiting at h))
    | inr granted ↦ elim (Option-cases t.cluster) [
      | inl missing ↦ absurd (token_failed≢ready (rw (granted, missing) at h))
      | inr (mcp, there) ↦
          (mcp, granted, there, sync_target-ready t mcp w (rw (granted, there) at h))
    ]
  ]
    where
      pending≢ready : pending ≡ ready → ⊥
      pending≢ready q = cc

      token_failed≢ready : token_failed ≡ ready → ⊥
      token_failed≢ready q = cc

  -- No target is ever reported FluxFailed.
  pub reconcile_target-ne-flux_failed :
      (t : ResolvedTarget W) (w : W)
      → (reconcile_target rt r gr t id minter w).0.phase ≢ flux_failed
  unfolding reconcile_target sync_target
  reconcile_target-ne-flux_failed t w = ground arith
