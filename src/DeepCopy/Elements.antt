-- ===== src/DeepCopy/Elements.antt =====
-- The loop over the elements of a slice copies deeply, and the loop over the entries of a map gives
-- the map again.
use platform_service_gitops.Prelude.{
  List, String, [], arith, eq_iff, none, refl, ℕ, ◌++◌, ◌∷◌, ◌≡◌, ◌≤◌, sym, ap, false, ◌==◌, ◌∙◌,
}
use platform_service_gitops.DeepCopy.Copier.{Copied, Copier, Deep}
use platform_service_gitops.DeepCopy.Laws.{Agree-through, Agree-trans}
use platform_service_gitops.DeepCopy.Memory.{Agree, Heap}
use platform_service_gitops.DeepCopy.Shapes.{
  WithinElements, copy_elements, elements, read_elements, copy_entries, entries,
}
use platform_service_gitops.Go.Dict.{Dict, insert, lookup, DistinctKeys}
use mathlib.Core.Path.{subst}
use mathlib.Core.List.{append-nil, append_assoc}

module _ {C R V : Type 0} (c : Copier C R V) (d : Deep c) where
  elements-confined :
      (low high : ℕ) (h g : Heap C) (rs : List R)
      → WithinElements c low high h rs
      → Agree low high h g
      → WithinElements c low high g rs × (read_elements c g rs ≡ read_elements c h rs)
  elements-confined low high h g [] w same = (tt, refl)
  elements-confined low high h g (r ∷ rs) w same =
      let x = d.confined low high h g r w.0 same in
      let y = elements-confined low high h g rs w.1 same in ((x.0, y.0), rw (x.1, y.1) refl)

  elements-widen :
      (low high low' high' : ℕ) (h : Heap C) (rs : List R)
      → low' ≤ low
      → high ≤ high'
      → WithinElements c low high h rs
      → WithinElements c low' high' h rs
  elements-widen low high low' high' h [] p q w = tt
  elements-widen low high low' high' h (r ∷ rs) p q w =
      (d.widen low high low' high' h r p q w.0, elements-widen low high low' high' h rs p q w.1)

  elements-Copied :
      (h : Heap C) (rs : List R) → WithinElements c 0 h.next h rs → Copied (elements c) h rs
  unfolding copy_elements
  elements-Copied h [] w = record {
    grows = omega arith;
    frame = λ x l u. refl;
    fresh = tt;
    same = refl;
  }
  elements-Copied h (r ∷ rs) w =
      let first = c.copy r h in
      let second = copy_elements c.copy rs first.1 in
      let x = d.copied h r w.0 in
      let kept = elements-confined 0 h.next h first.1 rs w.1 x.frame in
      let y =
        elements-Copied first.1 rs
          (elements-widen 0 h.next 0 first.1.next first.1 rs (omega arith) x.grows kept.0) in
      let moved = d.confined h.next first.1.next first.1 second.1 first.0 x.fresh (
        Agree-through h.next first.1.next 0 first.1.next first.1 second.1 (omega arith)
          (omega arith) y.frame) in
      record {
        grows = omega (arith, x.grows, y.grows);
        frame =
            Agree-trans 0 h.next h first.1 second.1 x.frame (
              Agree-through 0 h.next 0 first.1.next first.1 second.1 (omega arith) x.grows y.frame);
        fresh = (
          d.widen h.next first.1.next h.next second.1.next second.1 first.0 (omega arith) y.grows
              moved.0,
          elements-widen first.1.next second.1.next h.next second.1.next second.1 second.0 x.grows
              (omega arith) y.fresh,
        );
        same = rw (moved.1, x.same, y.same, kept.1) refl;
      }

  pub elements-Deep : Deep (elements c)
  elements-Deep = record {
    confined = elements-confined;
    widen = elements-widen;
    copied = elements-Copied;
  }

module _ {A : Type 0} where
  -- No key of the one map is in the other.
  abbrev Apart : Dict A → Dict A → Type 0
  Apart out [] = Unit {0}
  Apart out (entry ∷ rest) = (lookup entry.0 out ≡ none) × Apart out rest

  insert-new :
      (k : String) (v : A) (out : Dict A)
      → lookup k out ≡ none
      → insert k v out ≡ out ++ ((k, v) ∷ [])
  unfolding lookup insert
  insert-new k v [] h = refl
  insert-new k v (entry ∷ out) h = ground (arith, eq_iff entry.0 k, insert-new k v out)

  lookup-snoc :
      (k : String) (out : Dict A) (entry : String × A)
      → lookup k out ≡ none
      → (entry.0 == k) ≡ false
      → lookup k (out ++ (entry ∷ [])) ≡ none
  unfolding lookup
  lookup-snoc k [] entry h q = rw q refl
  lookup-snoc k (e ∷ out) entry h q = ground (arith, lookup-snoc k out entry)

  Apart-snoc :
      (out rest : Dict A) (entry : String × A)
      → lookup entry.0 rest ≡ none
      → Apart out rest
      → Apart (out ++ (entry ∷ [])) rest
  unfolding lookup
  Apart-snoc out [] entry h a = tt
  Apart-snoc out (e ∷ rest) entry h a = (
    lookup-snoc e.0 out entry a.0 (ground (arith, eq_iff e.0 entry.0, eq_iff entry.0 e.0)),
    Apart-snoc out rest entry (ground arith) a.1,
  )

  copy_entries-append :
      (out rest : Dict A) → DistinctKeys rest → Apart out rest → copy_entries out rest ≡ out ++ rest
  unfolding copy_entries
  copy_entries-append out [] u a = sym (append-nil out)
  copy_entries-append out (entry ∷ rest) u a =
      ap (λ d. copy_entries d rest) (insert-new entry.0 entry.1 out a.0)
      ∙ (copy_entries-append (out ++ (entry ∷ [])) rest u.1 (Apart-snoc out rest entry u.0 a.1)
          ∙ append_assoc out (entry ∷ []) rest)

  Apart-empty : (dict : Dict A) → Apart [] dict
  unfolding lookup
  Apart-empty [] = tt
  Apart-empty (entry ∷ dict) = (refl, Apart-empty dict)

  -- Storing the entries of a map in an empty one gives the map.
  copy_entries-eq : (dict : Dict A) → DistinctKeys dict → copy_entries [] dict ≡ dict
  copy_entries-eq dict u = copy_entries-append [] dict u (Apart-empty dict)

pub entries-Deep : {C A : Type 0} → Deep (entries {C = C} {A = A})
entries-Deep = record {
  confined = λ low high h g dict w same. (w, refl);
  widen = λ low high low' high' h dict p q w. w;
  copied = λ h dict w. record {
    grows = omega arith;
    frame = λ x l u. refl;
    fresh = subst DistinctKeys (sym (copy_entries-eq dict w)) w;
    same = copy_entries-eq dict w;
  };
}
