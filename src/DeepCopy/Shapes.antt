-- ===== src/DeepCopy/Shapes.antt =====
-- The shapes of the generated code: a plain assignment, a pointer, slice or map that may be nil, the
-- loop over the elements of a slice, the loop over the entries of a map, and a struct with parts.
use platform_service_gitops.Prelude.{List, Option, [], none, some, ℕ, ◌<◌, ◌∷◌, ◌≤◌, ◌≡◌}
use platform_service_gitops.DeepCopy.Copier.{Copier}
use platform_service_gitops.DeepCopy.Memory.{Heap, Place, at, new, store, deref}
use platform_service_gitops.Go.Dict.{Dict, insert, DistinctKeys}
use platform_service_gitops.Go.Eff.{◌>>◌, Eff, pure, ◌>>=◌}

-- `for key, val := range *in { (*out)[key] = val }`
unfoldable pub copy_entries : {A : Type 0} → Dict A → Dict A → Dict A
unfolding insert
copy_entries out [] = out
copy_entries out (entry ∷ rest) = copy_entries (insert entry.0 entry.1 out) rest

-- The part of a struct that leads to other cells, the struct with another such part, and what the
-- struct stands for if the part stands for `v`.
pub record Parts (R A VA V : Type 0) : Type 0 where
  pub part : R → A
  pub build : R → A → R
  pub view : R → VA → V
  pub part-build : (r : R) (x : A) → part (build r x) ≡ x
  pub view-build : (r : R) (x : A) → view (build r x) ≡ view r

module _ {C : Type 0} where
  -- `*out = *in`, of a type without pointers, slices and maps
  abbrev pub plain : {A : Type 0} → Copier C A A
  plain = record { copy = pure; read = λ h a. a; Within = λ low high h a. Unit {0} }

  -- `out := new(T); in.DeepCopyInto(out)`, and `*out = make(...)` with what fills it: a new cell for
  -- the copy of what the old one holds.
  unfoldable pub copy_pointed : {R : Type 0} → Place C R → (R → Eff (Heap C) R) → ℕ → Eff (Heap C) ℕ
  unfolding new store
  copy_pointed place into p = do
    out ← new
    r ← deref place p
    r' ← into r
    store place out r'
    pure out

  -- `if in.X != nil { *out = ... }`, and `if in == nil { return nil }`
  unfoldable pub copy_optional :
      {R : Type 0} → (R → Eff (Heap C) R) → Option R → Eff (Heap C) (Option R)
  copy_optional into none = pure none
  copy_optional into (some r) = do r' ← into r; pure (some r')

  -- `for i := range *in { (*in)[i].DeepCopyInto(&(*out)[i]) }`
  unfoldable pub copy_elements :
      {R : Type 0} → (R → Eff (Heap C) R) → List R → Eff (Heap C) (List R)
  copy_elements into [] = pure []
  copy_elements into (r ∷ rs) = do r' ← into r; rs' ← copy_elements into rs; pure (r' ∷ rs')

  -- `if in.X != nil { *out = make([]T, len(*in)) ... }`
  abbrev pub copy_slice :
      {R : Type 0} → Place C (List R) → (R → Eff (Heap C) R) → Option ℕ → Eff (Heap C) (Option ℕ)
  copy_slice place into = copy_optional (copy_pointed place (copy_elements into))

  -- `if in.X != nil { *out = make(map[string]T, len(*in)) ... }`
  abbrev pub copy_map : {A : Type 0} → Place C (Dict A) → Option ℕ → Eff (Heap C) (Option ℕ)
  copy_map place = copy_optional (copy_pointed place (λ dict. pure (copy_entries [] dict)))

  -- DeepCopy, from DeepCopyInto
  abbrev pub deep_copy :
      {R : Type 0} → Place C R → (R → Eff (Heap C) R) → Option ℕ → Eff (Heap C) (Option ℕ)
  deep_copy place into = copy_optional (copy_pointed place into)

  module _ {R V : Type 0} (place : Place C R) (c : Copier C R V) where
    abbrev pub WithinPointed : ℕ → ℕ → Heap C → ℕ → Type 0
    WithinPointed low high h p = (low ≤ p) × (p < high) × c.Within low high h (at place p h)

    abbrev pub pointed : Copier C ℕ V
    pointed = record {
      copy = copy_pointed place c.copy;
      read = λ h p. c.read h (at place p h);
      Within = WithinPointed;
    }

  module _ {R V : Type 0} (c : Copier C R V) where
    abbrev pub read_optional : Heap C → Option R → Option V
    read_optional h none = none
    read_optional h (some r) = some (c.read h r)

    abbrev pub WithinOptional : ℕ → ℕ → Heap C → Option R → Type 0
    WithinOptional low high h none = Unit {0}
    WithinOptional low high h (some r) = c.Within low high h r

    abbrev pub optional : Copier C (Option R) (Option V)
    optional = record { copy = copy_optional c.copy; read = read_optional; Within = WithinOptional }

  module _ {R V : Type 0} (c : Copier C R V) where
    abbrev pub read_elements : Heap C → List R → List V
    read_elements h [] = []
    read_elements h (r ∷ rs) = c.read h r ∷ read_elements h rs

    abbrev pub WithinElements : ℕ → ℕ → Heap C → List R → Type 0
    WithinElements low high h [] = Unit {0}
    WithinElements low high h (r ∷ rs) = c.Within low high h r × WithinElements low high h rs

    abbrev pub elements : Copier C (List R) (List V)
    elements = record { copy = copy_elements c.copy; read = read_elements; Within = WithinElements }

  abbrev pub entries : {A : Type 0} → Copier C (Dict A) (Dict A)
  entries = record {
    copy = λ dict. pure (copy_entries [] dict);
    read = λ h dict. dict;
    Within = λ low high h dict. DistinctKeys dict;
  }

  -- Two parts, one after the other.
  abbrev pub pair :
      {A B VA VB : Type 0} → Copier C A VA → Copier C B VB → Copier C (A × B) (VA × VB)
  pair a b = record {
    copy = λ r. (do x ← a.copy r.0; y ← b.copy r.1; pure (x, y));
    read = λ h r. (a.read h r.0, b.read h r.1);
    Within = λ low high h r. a.Within low high h r.0 × b.Within low high h r.1;
  }

  -- A struct: `*out = *in`, and then the deep copy of the part that leads to other cells.
  abbrev pub struct : {R A VA V : Type 0} → Parts R A VA V → Copier C A VA → Copier C R V
  struct parts a = record {
    copy = λ r. (do x ← a.copy (parts.part r); pure (parts.build r x));
    read = λ h r. parts.view r (a.read h (parts.part r));
    Within = λ low high h r. a.Within low high h (parts.part r);
  }

  -- A slice: an array of elements that may be nil.
  abbrev pub slice :
      {R V : Type 0} → Place C (List R) → Copier C R V → Copier C (Option ℕ) (Option (List V))
  slice place c = optional (pointed place (elements c))
