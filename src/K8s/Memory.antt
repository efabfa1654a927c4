-- ===== src/K8s/Memory.antt =====
-- An API server in memory, which shows that the laws can be met. Witnesses run on it.
use mathlib.Core.Path.{subst}
use mathlib.Core.Bool.{false≢true}
use platform_service_gitops.Prelude.{
  ◌≡◌, true, false, Option, none, some, [], arith, eq_iff, if◌then◌else◌, Bool, Bool-cases, List,
  String, eq_refl, inl, inr, refl, ◌==◌, ◌||◌, ◌∷◌, sym, Option-cases, ◌&&◌,
}
use platform_service_gitops.Go.Error.{Error, Result, ok, err}
use platform_service_gitops.K8s.Meta.{
  NamespacedName, same_key, ObjectMeta, key_of, Condition, Conditions, Finalizers,
}
use platform_service_gitops.K8s.Client.{Client}
use platform_service_gitops.K8s.Laws.{
  ConditionLaws, FinalizerLaws, FrameLaws, IsKept, StoreLaws, condition_at, is_true_status,
  reported,
}
use platform_service_gitops.Go.Invariant.{err≢ok, ok-injective}

abbrev pub Table : Type 0 → Type 0
Table O = NamespacedName → Option O

abbrev pub absent : Error
absent = record { not_found = true; message = "not found" }

-- The part of the world that holds the objects of one kind.
pub record Part (W O : Type 0) : Type 0 where
  pub read : W → Table O
  pub write : Table O → W → W
  pub read-write : (t : Table O) (w : W) → read (write t w) ≡ t

abbrev pub put : {O : Type 0} → NamespacedName → Option O → Table O → Table O
put k v t j = if same_key j k then v else t j

abbrev pub found : {O : Type 0} → Option O → Result O
found none = err absent
found (some o) = ok o

abbrev pub is_kept : ObjectMeta → Bool
is_kept m = elim m.deletion_timestamp [
  | none ↦ true
  | some t ↦ elim m.finalizers [ [] ↦ false | x ∷ xs ↦ true ]
]

abbrev pub keyed : {O : Type 0} → (O → ObjectMeta) → NamespacedName → Option O → Result O
keyed meta k none = err absent
keyed meta k (some o) =
    if same_key (key_of (meta o)) k && is_kept (meta o)
    then ok o
    else err (record { not_found = false; message = "misplaced" })

module _ {W O : Type 0} (p : Part W O) (meta : O → ObjectMeta) where
  abbrev pub memory : Client W O
  memory = record {
    get = λ k w. (keyed meta k (p.read w k), w);
    list = λ ns labels w. (ok [], w);
    create = λ o w. (ok tt, p.write (put (key_of (meta o)) (some o) (p.read w)) w);
    update = λ o w. (ok tt, p.write (put (key_of (meta o)) (some o) (p.read w)) w);
    delete = λ k w. (ok tt, p.write (put k none (p.read w)) w);
    patch_status = λ _ o w. (ok tt, p.write (put (key_of (meta o)) (some o) (p.read w)) w);
  }

pub same_key-true : (a b : NamespacedName) → same_key a b ≡ true → a ≡ b
same_key-true a b h = ground (arith, eq_iff a.namespace b.namespace, eq_iff a.name b.name)

pub same_key_self : (a : NamespacedName) → same_key a a ≡ true
same_key_self a = ground (arith, eq_iff a.namespace a.namespace, eq_iff a.name a.name)

is_kept-true : (m : ObjectMeta) → is_kept m ≡ true → IsKept m
is_kept-true m h = elim (Option-cases m.deletion_timestamp) [
  | inl p ↦ inl p
  | inr (t, p) ↦ inr (λ q. false≢true (rw (p, q) at h))
]

pub keyed-ok :
    {O : Type 0} (meta : O → ObjectMeta) (k : NamespacedName) (v : Option O) (o : O)
    → keyed meta k v ≡ ok o
    → (v ≡ some o) × (key_of (meta o) ≡ k) × IsKept (meta o)
keyed-ok meta k none o h = ground arith
keyed-ok meta k (some o') o h = elim (Bool-cases (same_key (key_of (meta o')) k)) [
  | inl same ↦ elim (Bool-cases (is_kept (meta o'))) [
    | inl kept ↦
        let e : o' ≡ o = ok-injective (rw (same, kept) at h) in
        subst (λ y. (some o' ≡ some y) × (key_of (meta y) ≡ k) × IsKept (meta y)) e
          (refl, same_key-true (key_of (meta o')) k same, is_kept-true (meta o') kept)
    | inr gone ↦ absurd (err≢ok (rw (same, gone) at h))
  ]
  | inr other ↦ absurd (err≢ok (rw other at h))
]

pub keyed-absent :
    {O : Type 0} (meta : O → ObjectMeta) (k : NamespacedName) (v : Option O) (e : Error)
    → keyed meta k v ≡ err e
    → e.not_found ≡ true
    → v ≡ none
keyed-absent meta k none e h n = refl
keyed-absent meta k (some o) e h n = ground arith

module _ {W O : Type 0} (p : Part W O) (meta : O → ObjectMeta) {sent : O → O} where
  abbrev pub memory-StoreLaws : StoreLaws (memory p meta) meta sent
  memory-StoreLaws = record {
    view = p.read;
    get_ok = λ k w o h. (keyed-ok meta k (p.read w k) o h).0;
    get_key = λ k w o h. (keyed-ok meta k (p.read w k) o h).1;
    get_kept = λ k w o h. (keyed-ok meta k (p.read w k) o h).2;
    get_absent = λ k w e h. keyed-absent meta k (p.read w k) e h;
    get_keeps = λ k w. refl;
    create_ok = λ o w h. (o, rw (p.read-write _ w) (rw same_key_self refl), refl);
    create_other = λ o w j h. rw (p.read-write _ w) (rw h refl);
    update_ok = λ o w kept h. (o, rw (p.read-write _ w) (rw same_key_self refl), refl);
    update_other = λ o w j h. rw (p.read-write _ w) (rw h refl);
    delete_ok = λ k w h. rw (p.read-write _ w) (rw same_key_self tt);
    delete_absent = λ k w e h. absurd (err≢ok (sym h));
    delete_other = λ k w j h. rw (p.read-write _ w) (rw h refl);
  }

module _ {W O V : Type 0} (p : Part W O) (meta : O → ObjectMeta) (other : W → V)
    (apart : (t : Table O) (w : W) → other (p.write t w) ≡ other w) where
  pub memory-FrameLaws : FrameLaws (memory p meta) other
  memory-FrameLaws = record {
    get_frame = λ k w. refl;
    create_frame = λ o w. apart _ w;
    update_frame = λ o w. apart _ w;
    delete_frame = λ k w. apart _ w;
  }

-- Conditions in a list; the clock is not read.
unfoldable pub put_condition : List Condition → Condition → List Condition
put_condition [] new = new ∷ []
put_condition (c ∷ cs) new = if c.type == new.type then new ∷ cs else c ∷ put_condition cs new

abbrev pub list_conditions : {W : Type 0} → Conditions W
list_conditions = record {
  set_status_condition = λ cs new w. (put_condition cs new, w);
  is_status_condition_true = λ cs type. is_true_status (condition_at type cs);
}

condition_at-put :
    (cs : List Condition) (new : Condition) (type : String)
    → condition_at type (put_condition cs new)
      ≡ (if new.type == type then some (reported new) else condition_at type cs)
unfolding condition_at put_condition
condition_at-put [] new type = refl
condition_at-put (c ∷ cs) new type = ground (
  arith,
  eq_iff c.type new.type,
  eq_iff c.type type,
  eq_iff new.type type,
  condition_at-put cs new type,
)

pub list_conditions-ConditionLaws : {W : Type 0} → ConditionLaws (list_conditions {W = W})
list_conditions-ConditionLaws = record {
  condition_at-set = λ cs new w type. condition_at-put cs new type;
  is_true_iff = λ cs type. refl;
}

unfoldable pub member : String → List String → Bool
member x [] = false
member x (y ∷ ys) = x == y || member x ys

unfoldable pub remove : String → List String → List String
remove x [] = []
remove x (y ∷ ys) = let rest = remove x ys in if x == y then rest else y ∷ rest

member-remove : (x : String) (ys : List String) → member x (remove x ys) ≡ false
unfolding member remove
member-remove x [] = refl
member-remove x (y ∷ ys) = ground (arith, member-remove x ys)

abbrev pub list_finalizers : Finalizers
list_finalizers = record {
  contains_finalizer = λ m x. member x m.finalizers;
  add_finalizer = λ m x. record m { finalizers = x ∷ m.finalizers };
  remove_finalizer = λ m x. record m { finalizers = remove x m.finalizers };
}

contains-add_list : (m : ObjectMeta) (x : String) → member x (x ∷ m.finalizers) ≡ true
unfolding member
contains-add_list m x = rw (eq_refl x) refl

pub list_finalizers-FinalizerLaws : FinalizerLaws list_finalizers
list_finalizers-FinalizerLaws = record {
  contains-add = contains-add_list;
  contains-remove = λ m x. member-remove x m.finalizers;
}
