-- ===== src/Controller/GitRepository/Propagation/Tracking.antt =====
-- The per-target states that reconcilePropagate keeps.
use platform_service_gitops.Controller.GitRepository.Base.{GitRepositoryReconciler}
use platform_service_gitops.Controller.{Runtime}
use platform_service_gitops.Prelude.{
  Bool, List, Option, String, [], false, none, some, true, ◌&&◌, ◌==◌, ◌||◌, ◌∷◌, ◌≡◌, Bool-cases,
  arith, eq_iff, eq_refl, inl, inr, refl,
}
use platform_service_gitops.McpAccess.{ResolvedTarget}
use platform_service_gitops.Propagate.{TokenMinter}
use platform_service_gitops.Api.GitRepository.{GitRepository, PropagateStatus}
use platform_service_gitops.Go.Int.{ℤ, pos}
use platform_service_gitops.Go.Time.{Duration}
use platform_service_gitops.Controller.GitRepository.Target.{reconcile_target, sync_target}
use platform_service_gitops.Controller.GitRepository.Propagation.{
  sync_targets, desired_names, sync_all,
}
use platform_service_gitops.Controller.GitRepository.Status.Map.{
  UniqueKeys, UniqueKeys-set, status_at, UniqueKeys-filter, is_for, status_at-filter, status_at-set,
}
use platform_service_gitops.Controller.GitRepository.Status.{propagate_key, set_propagate_status}
use platform_service_gitops.McpAccess.Names.{contains}

-- The resolved targets include this (namespace, name).
unfoldable pub has_target : {W : Type 0} → String → String → List (ResolvedTarget W) → Bool
has_target namespace name [] = false
has_target namespace name (t ∷ ts) =
    t.control_plane_namespace == namespace && t.control_plane_name == name
    || has_target namespace name ts

abbrev pub IsSome : {A : Type 0} → Option A → Type 0
IsSome none = ⊥
IsSome (some a) = Unit {0}

set-IsSome :
    (namespace name : String) (list : List PropagateStatus) (ps : PropagateStatus)
    → IsSome (status_at namespace name list)
    → IsSome (status_at namespace name (set_propagate_status list ps))
set-IsSome namespace name list ps h = elim (Bool-cases (is_for namespace name ps)) [
  | inl own ↦ rw (status_at-set namespace name list ps, own) tt
  | inr other ↦ rw (status_at-set namespace name list ps, other) h
]

set-IsSome_self :
    (namespace name : String) (list : List PropagateStatus) (ps : PropagateStatus)
    → is_for namespace name ps ≡ true
    → IsSome (status_at namespace name (set_propagate_status list ps))
set-IsSome_self namespace name list ps own = rw (status_at-set namespace name list ps, own) tt

module _ {W : Type 0} (rt : Runtime W) (r : GitRepositoryReconciler W) (id : ℤ)
    (minter : TokenMinter W) where
  -- The state that reconcileTarget returns is that of its target.
  pub reconcile_target-names :
      (gr : GitRepository) (t : ResolvedTarget W) (w : W)
      → let ps = (reconcile_target rt r gr t id minter w).0 in
        (ps.control_plane_namespace ≡ t.control_plane_namespace)
        × (ps.control_plane_name ≡ t.control_plane_name)
  unfolding reconcile_target sync_target
  reconcile_target-names gr t w = ground arith

  sync_targets-UniqueKeys :
      (ts : List (ResolvedTarget W)) (gr : GitRepository) (earliest : Duration) (w : W)
      → UniqueKeys gr.status.propagated
      → UniqueKeys (sync_targets rt r ts gr id minter earliest w).0.0.status.propagated
  unfolding sync_targets
  sync_targets-UniqueKeys [] gr earliest w u = u
  sync_targets-UniqueKeys (t ∷ ts) gr earliest w u =
      sync_targets-UniqueKeys ts _ _ _
        (UniqueKeys-set gr.status.propagated (reconcile_target rt r gr t id minter w).0 u)

  -- An entry that is there stays, though it may be replaced.
  sync_targets-keeps :
      (namespace name : String) (ts : List (ResolvedTarget W)) (gr : GitRepository)
      (earliest : Duration) (w : W)
      → IsSome (status_at namespace name gr.status.propagated)
      → IsSome (
          status_at namespace name
            (sync_targets rt r ts gr id minter earliest w).0.0.status.propagated)
  unfolding sync_targets
  sync_targets-keeps namespace name [] gr earliest w h = h
  sync_targets-keeps namespace name (t ∷ ts) gr earliest w h =
      sync_targets-keeps namespace name ts _ _ _ (
        set-IsSome namespace name gr.status.propagated (reconcile_target rt r gr t id minter w).0 h)

  sync_targets-adds :
      (namespace name : String) (ts : List (ResolvedTarget W)) (gr : GitRepository)
      (earliest : Duration) (w : W)
      → has_target namespace name ts ≡ true
      → IsSome (
          status_at namespace name
            (sync_targets rt r ts gr id minter earliest w).0.0.status.propagated)
  unfolding sync_targets has_target
  sync_targets-adds namespace name [] gr earliest w h = cc
  sync_targets-adds namespace name (t ∷ ts) gr earliest w h =
      let ps : PropagateStatus = (reconcile_target rt r gr t id minter w).0 in
      let names = reconcile_target-names gr t w in
      elim (Bool-cases (is_for namespace name ps)) [
        | inl own ↦
            sync_targets-keeps namespace name ts _ _ _
              (set-IsSome_self namespace name gr.status.propagated ps own)
        | inr other ↦ sync_targets-adds namespace name ts _ _ _ (ground (arith, names.0, names.1))
      ]

  -- The key of a target is among the desired ones.
  desired-has_target :
      (namespace name : String) (ts : List (ResolvedTarget W))
      → has_target namespace name ts ≡ true
      → contains (desired_names ts) (propagate_key namespace name) ≡ true
  unfolding has_target contains propagate_key
  desired-has_target namespace name [] h = cc
  desired-has_target namespace name (t ∷ ts) h = ground (
    arith,
    desired-has_target namespace name ts,
    eq_iff t.control_plane_namespace namespace,
    eq_iff t.control_plane_name name,
    eq_refl (propagate_key namespace name),
  )

  -- If the recorded states have distinct keys, then so have the states after the loop over the
  -- targets and the filter, and there is one for every target.
  pub sync_all-tracks :
      (ts : List (ResolvedTarget W)) (gr : GitRepository) (namespace name : String) (w : W)
      → UniqueKeys gr.status.propagated
      → has_target namespace name ts ≡ true
      → let after = (sync_all rt r ts gr id minter w).0.0.status.propagated in
        UniqueKeys after × IsSome (status_at namespace name after)
  unfolding sync_all
  sync_all-tracks ts gr namespace name w u h =
      let before = (sync_targets rt r ts gr id minter (pos 0) w).0.0.status.propagated in
      (
        UniqueKeys-filter before (desired_names ts) (sync_targets-UniqueKeys ts gr (pos 0) w u),
        rw
            (
              status_at-filter namespace name before (desired_names ts),
              desired-has_target namespace name ts h,
            )
            (sync_targets-adds namespace name ts gr (pos 0) w h),
      )

  -- After the loop over the targets and the filter there is no state whose key is not that of a
  -- target.
  pub sync_all-forgets :
      (ts : List (ResolvedTarget W)) (gr : GitRepository) (namespace name : String) (w : W)
      → contains (desired_names ts) (propagate_key namespace name) ≡ false
      → status_at namespace name (sync_all rt r ts gr id minter w).0.0.status.propagated ≡ none
  unfolding sync_all
  sync_all-forgets ts gr namespace name w h =
      let before = (sync_targets rt r ts gr id minter (pos 0) w).0.0.status.propagated in
      rw (status_at-filter namespace name before (desired_names ts), h) refl
