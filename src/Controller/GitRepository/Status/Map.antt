-- ===== src/Controller/GitRepository/Status/Map.antt =====
-- The list of per-target states as a map from (namespace, name).
use platform_service_gitops.Prelude.{
  Bool, Bool-cases, List, Option, String, [], arith, eq_iff, if◌then◌else◌, inl, inr, none, refl,
  some, ◌&&◌, ◌==◌, ◌∙◌, ◌∷◌, ◌≡◌,
}
use platform_service_gitops.Api.GitRepository.{PropagateStatus}
use platform_service_gitops.Controller.GitRepository.Status.{
  filter_propagate_status, propagate_key, same_target, set_propagate_status, status_key,
}
use platform_service_gitops.McpAccess.Names.{contains}

-- The entry of a (namespace, name).
unfoldable pub status_at : String → String → List PropagateStatus → Option PropagateStatus
status_at namespace name [] = none
status_at namespace name (p ∷ list) =
    if p.control_plane_namespace == namespace && p.control_plane_name == name
    then some p
    else status_at namespace name list

-- No two entries have the same (namespace, name).
abbrev pub UniqueKeys : List PropagateStatus → Type 0
UniqueKeys [] = Unit {0}
UniqueKeys (p ∷ list) =
    (status_at p.control_plane_namespace p.control_plane_name list ≡ none) × UniqueKeys list

module _ (namespace name : String) where
  abbrev pub is_for : PropagateStatus → Bool
  is_for p = p.control_plane_namespace == namespace && p.control_plane_name == name

  -- The upsert of a per-target state replaces or adds the entry of its own (namespace, name) and
  -- leaves the others.
  pub status_at-set :
      (list : List PropagateStatus) (ps : PropagateStatus)
      → status_at namespace name (set_propagate_status list ps)
        ≡ (if is_for ps then some ps else status_at namespace name list)
  unfolding status_at set_propagate_status
  status_at-set [] ps = refl
  status_at-set (p ∷ list) ps = ground (
    arith,
    status_at-set list ps,
    eq_iff p.control_plane_namespace ps.control_plane_namespace,
    eq_iff p.control_plane_name ps.control_plane_name,
    eq_iff p.control_plane_namespace namespace,
    eq_iff p.control_plane_name name,
    eq_iff ps.control_plane_namespace namespace,
    eq_iff ps.control_plane_name name,
  )

  -- The filter of the per-target states keeps exactly the entries whose key is desired.
  pub status_at-filter :
      (list : List PropagateStatus) (desired : List String)
      → status_at namespace name (filter_propagate_status list desired) ≡ (
          if contains desired (propagate_key namespace name)
          then status_at namespace name list
          else none)
  unfolding status_at filter_propagate_status propagate_key
  status_at-filter [] desired = ground arith
  status_at-filter (p ∷ list) desired = ground (
    arith,
    status_at-filter list desired,
    eq_iff p.control_plane_namespace namespace,
    eq_iff p.control_plane_name name,
  )

-- The same (namespace, name) pairs in the same order.
abbrev pub SameTargets : List PropagateStatus → List PropagateStatus → Type 0
SameTargets [] [] = Unit {0}
SameTargets (p ∷ a) (q ∷ b) =
    (p.control_plane_namespace ≡ q.control_plane_namespace)
    × (p.control_plane_name ≡ q.control_plane_name)
    × SameTargets a b
SameTargets [] (q ∷ b) = ⊥
SameTargets (p ∷ a) [] = ⊥

pub SameTargets-refl : (list : List PropagateStatus) → SameTargets list list
SameTargets-refl [] = tt
SameTargets-refl (p ∷ list) = (refl, refl, SameTargets-refl list)

status_at-along :
    (namespace name : String) (a b : List PropagateStatus)
    → SameTargets a b
    → status_at namespace name a ≡ none
    → status_at namespace name b ≡ none
unfolding status_at
status_at-along namespace name [] [] s h = refl
status_at-along namespace name [] (q ∷ b) s h = absurd s
status_at-along namespace name (p ∷ a) [] s h = absurd s
status_at-along namespace name (p ∷ a) (q ∷ b) (x, y, s) h =
    let rest = status_at-along namespace name a b s in
    ground (
      arith,
      rest,
      eq_iff p.control_plane_namespace q.control_plane_namespace,
      eq_iff p.control_plane_name q.control_plane_name,
    )

pub UniqueKeys-along : (a b : List PropagateStatus) → SameTargets a b → UniqueKeys a → UniqueKeys b
UniqueKeys-along [] [] s u = tt
UniqueKeys-along [] (q ∷ b) s u = absurd s
UniqueKeys-along (p ∷ a) [] s u = absurd s
UniqueKeys-along (p ∷ a) (q ∷ b) (x, y, s) (fresh, u) = (
  status_at-along q.control_plane_namespace q.control_plane_name a b s (rw (x, y) at fresh),
  UniqueKeys-along a b s u,
)

pub UniqueKeys-set :
    (list : List PropagateStatus) (ps : PropagateStatus)
    → UniqueKeys list
    → UniqueKeys (set_propagate_status list ps)
unfolding set_propagate_status status_at
UniqueKeys-set [] ps u = (refl, tt)
UniqueKeys-set (p ∷ list) ps (fresh, u) = elim (Bool-cases (same_target p ps)) [
  | inl same ↦ rw same (
    ground (
      arith,
      eq_iff p.control_plane_namespace ps.control_plane_namespace,
      eq_iff p.control_plane_name ps.control_plane_name,
    ),
    u,
  )
  | inr other ↦ rw other (
    status_at-set p.control_plane_namespace p.control_plane_name list ps
        ∙ ground (
          arith,
          eq_iff p.control_plane_namespace ps.control_plane_namespace,
          eq_iff p.control_plane_name ps.control_plane_name,
          eq_iff ps.control_plane_namespace p.control_plane_namespace,
          eq_iff ps.control_plane_name p.control_plane_name,
        ),
    UniqueKeys-set list ps u,
  )
]

pub UniqueKeys-filter :
    (list : List PropagateStatus) (desired : List String)
    → UniqueKeys list
    → UniqueKeys (filter_propagate_status list desired)
unfolding filter_propagate_status
UniqueKeys-filter [] desired u = tt
UniqueKeys-filter (p ∷ list) desired (fresh, u) =
    elim (Bool-cases (contains desired (status_key p))) [
      | inl kept ↦ rw kept (
        rw (status_at-filter p.control_plane_namespace p.control_plane_name list desired, kept)
            fresh,
        UniqueKeys-filter list desired u,
      )
      | inr gone ↦ rw gone (UniqueKeys-filter list desired u)
    ]
