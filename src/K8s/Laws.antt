-- ===== src/K8s/Laws.antt =====
-- What the development relies on of the API server and of apimachinery: the documented behaviour of
-- client calls on the stored objects, and of the condition and finalizer helpers.
use platform_service_gitops.Prelude.{
  String, ◌≡◌, ◌⊎◌, Bool, true, false, Option, none, some, List, [], ◌∷◌, ◌==◌, if◌then◌else◌, ◌≢◌,
}
use platform_service_gitops.Go.Int.{ℤ, pos}
use platform_service_gitops.Go.Error.{Error, ok, err}
use platform_service_gitops.Go.Eff.{Eff}
use platform_service_gitops.K8s.Meta.{
  NamespacedName, same_key, ObjectMeta, key_of, ConditionStatus, condition_true, condition_false,
  condition_unknown, Condition, Conditions, Finalizers,
}
use platform_service_gitops.K8s.Client.{Client}

-- An action that leaves a part of the world alone, whatever its result.
abbrev pub Keeps : {W A V : Type 0} → (W → V) → Eff W A → Type 0
Keeps view m = (w : _) → view (m w).1 ≡ view w

-- The metadata without what the server sets.
abbrev pub sent_meta : ObjectMeta → ObjectMeta
sent_meta m = record m { generation = pos 0; deletion_timestamp = none }

-- What is stored where an object was deleted: nothing, or an object that is terminating, which the
-- server keeps because it has finalizers.
abbrev pub IsReleased : {O : Type 0} → (O → ObjectMeta) → Option O → Type 0
IsReleased meta none = Unit {0}
IsReleased meta (some o) = ((meta o).deletion_timestamp ≢ none) × ((meta o).finalizers ≢ [])

-- An object that the server keeps: it is not being deleted, or it has finalizers.
abbrev pub IsKept : ObjectMeta → Type 0
IsKept m = (m.deletion_timestamp ≡ none) ⊎ (m.finalizers ≢ [])

-- The stored objects, and what the calls do to them. Only calls that succeed are taken to have
-- written; a failed one may have written or not, but at its own key only. What is stored after a
-- write is what was sent, up to the parts that `sent` leaves out because the server sets them.
pub record StoreLaws {W O : Type 0} (c : Client W O) (meta : O → ObjectMeta) (sent : O → O)
    : Type 0 where
  pub view : W → NamespacedName → Option O
  pub get_ok : (k : NamespacedName) (w : W) (o : O) → (c.get k w).0 ≡ ok o → view w k ≡ some o
  pub get_key : (k : NamespacedName) (w : W) (o : O) → (c.get k w).0 ≡ ok o → key_of (meta o) ≡ k
  pub get_absent :
      (k : NamespacedName) (w : W) (e : Error)
      → (c.get k w).0 ≡ err e
      → e.not_found ≡ true
      → view w k ≡ none
  pub get_keeps : (k : NamespacedName) → Keeps view (c.get k)
  pub create_ok :
      (o : O) (w : W)
      → (c.create o w).0 ≡ ok tt
      → (s : O) × (view (c.create o w).1 (key_of (meta o)) ≡ some s) × (sent s ≡ sent o)
  pub create_other :
      (o : O) (w : W) (j : NamespacedName)
      → same_key j (key_of (meta o)) ≡ false
      → view (c.create o w).1 j ≡ view w j
  pub get_kept : (k : NamespacedName) (w : W) (o : O) → (c.get k w).0 ≡ ok o → IsKept (meta o)
  pub update_ok :
      (o : O) (w : W)
      → IsKept (meta o)
      → (c.update o w).0 ≡ ok tt
      → (s : O) × (view (c.update o w).1 (key_of (meta o)) ≡ some s) × (sent s ≡ sent o)
  pub update_other :
      (o : O) (w : W) (j : NamespacedName)
      → same_key j (key_of (meta o)) ≡ false
      → view (c.update o w).1 j ≡ view w j
  pub delete_ok :
      (k : NamespacedName) (w : W)
      → (c.delete k w).0 ≡ ok tt
      → IsReleased meta (view (c.delete k w).1 k)
  pub delete_absent :
      (k : NamespacedName) (w : W) (e : Error)
      → (c.delete k w).0 ≡ err e
      → e.not_found ≡ true
      → view (c.delete k w).1 k ≡ none
  pub delete_other :
      (k : NamespacedName) (w : W) (j : NamespacedName)
      → same_key j k ≡ false
      → view (c.delete k w).1 j ≡ view w j

-- The calls on one kind leave another part of the world alone.
pub record FrameLaws {W O V : Type 0} (c : Client W O) (other : W → V) : Type 0 where
  pub get_frame : (k : NamespacedName) → Keeps other (c.get k)
  pub create_frame : (o : O) → Keeps other (c.create o)
  pub update_frame : (o : O) → Keeps other (c.update o)
  pub delete_frame : (k : NamespacedName) → Keeps other (c.delete k)

-- A condition without its transition time.
pub record Reported : Type 0 where
  pub status : ConditionStatus
  pub reason : String
  pub message : String
  pub observed_generation : ℤ

abbrev pub reported : Condition → Reported
reported c = record {
  status = c.status;
  reason = c.reason;
  message = c.message;
  observed_generation = c.observed_generation;
}

-- The condition of a type, if there is one.
unfoldable pub condition_at : String → List Condition → Option Reported
condition_at type [] = none
condition_at type (c ∷ cs) = if c.type == type then some (reported c) else condition_at type cs

abbrev pub is_true_status : Option Reported → Bool
is_true_status none = false
is_true_status (some c) = elim c.status [
  | condition_true ↦ true
  | condition_false ↦ false
  | condition_unknown ↦ false
]

-- SetStatusCondition replaces or adds the condition of its type and leaves the others.
pub record ConditionLaws {W : Type 0} (c : Conditions W) : Type 0 where
  pub condition_at-set :
      (cs : List Condition) (new : Condition) (w : W) (type : String)
      → condition_at type (c.set_status_condition cs new w).0
        ≡ (if new.type == type then some (reported new) else condition_at type cs)
  pub is_true_iff :
      (cs : List Condition) (type : String)
      → c.is_status_condition_true cs type ≡ is_true_status (condition_at type cs)

pub record FinalizerLaws (f : Finalizers) : Type 0 where
  pub contains-add :
      (m : ObjectMeta) (x : String) → f.contains_finalizer (f.add_finalizer m x) x ≡ true
  pub contains-remove :
      (m : ObjectMeta) (x : String) → f.contains_finalizer (f.remove_finalizer m x) x ≡ false
