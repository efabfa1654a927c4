-- ===== src/DeepCopy/Pointers.antt =====
-- A pointer, slice or map that may be nil is copied deeply, if what it leads to is.
use platform_service_gitops.Prelude.{
  Option, ap, arith, inl, none, refl, some, ℕ, ◌≡◌, ◌≤◌, inr, sym, ◌∙◌, eqb, true, Bool,
  if◌then◌else◌, List,
}
use platform_service_gitops.DeepCopy.Copier.{Copied, Copier, Deep}
use platform_service_gitops.DeepCopy.Laws.{copied-keeps, store-Agree, Agree-trans}
use platform_service_gitops.DeepCopy.Memory.{Agree, Heap, Place, at, new, store}
use platform_service_gitops.DeepCopy.Shapes.{
  WithinOptional, WithinPointed, copy_optional, copy_pointed, optional, pointed, read_optional,
  elements, slice,
}
use platform_service_gitops.DeepCopy.Elements.{elements-Deep}
use mathlib.Core.Path.{subst}

eqb_self : (p : ℕ) → eqb p p ≡ true
eqb_self p = ground arith

if_true : {A : Type 0} (b : Bool) (x y : A) → b ≡ true → (if b then x else y) ≡ x
if_true b x y p = rw p refl

module _ {C R V : Type 0} (place : Place C R) (c : Copier C R V) (d : Deep c) where
  pointed-confined :
      (low high : ℕ) (h g : Heap C) (p : ℕ)
      → WithinPointed place c low high h p
      → Agree low high h g
      → WithinPointed place c low high g p × (c.read g (at place p g) ≡ c.read h (at place p h))
  pointed-confined low high h g p (l, u, w) same =
      let x = d.confined low high h g (at place p h) w same in
      let there : at place p g ≡ at place p h = ap place.load (same p l u) in
      rw there ((l, u, x.0), x.1)

  at-store : (p : ℕ) (r : R) (h : Heap C) → at place p (store place p r h).1 ≡ r
  unfolding store
  at-store p r h =
      ap place.load (if_true (eqb p p) _ _ (eqb_self p)) ∙ place.load-save r (h.cells p)

  pointed-Copied :
      (h : Heap C) (p : ℕ) → WithinPointed place c 0 h.next h p → Copied (pointed place c) h p
  unfolding copy_pointed new store
  pointed-Copied h p (l, u, w) =
      let r = at place p h in
      let h₁ : Heap C = (new h).1 in
      let kept = copied-keeps c d h h₁ r w (omega arith) (λ x l u. refl) in
      let x = d.copied h₁ r kept.0 in
      let r' = (c.copy r h₁).0 in
      let h₂ = (c.copy r h₁).1 in
      let h₃ = (store place h.next r' h₂).1 in
      let stored : at place h.next h₃ ≡ r' = at-store h.next r' h₂ in
      let moved =
        d.confined h₁.next h₂.next h₂ h₃ r' x.fresh
          (store-Agree place h.next r' h₁.next h₂.next h₂ (inl (omega arith))) in
      record {
        grows = omega (arith, x.grows);
        frame =
            Agree-trans 0 h.next h h₂ h₃ (λ y l' u'. x.frame y l' (omega arith))
              (store-Agree place h.next r' 0 h.next h₂ (inr (omega arith)));
        fresh = (
          omega arith,
          omega (arith, x.grows),
          subst (c.Within h.next h₂.next h₃) (sym stored)
              (d.widen h₁.next h₂.next h.next h₂.next h₃ r' (omega arith) (omega arith) moved.0),
        );
        same = ap (c.read h₃) stored ∙ (moved.1 ∙ (x.same ∙ kept.1));
      }

  pub pointed-Deep : Deep (pointed place c)
  pointed-Deep = record {
    confined = pointed-confined;
    widen = λ low high low' high' h p q q' (l, u, w).
        (omega arith, omega arith, d.widen low high low' high' h (at place p h) q q' w);
    copied = pointed-Copied;
  }

module _ {C R V : Type 0} (c : Copier C R V) (d : Deep c) where
  optional-confined :
      (low high : ℕ) (h g : Heap C) (p : Option R)
      → WithinOptional c low high h p
      → Agree low high h g
      → WithinOptional c low high g p × (read_optional c g p ≡ read_optional c h p)
  optional-confined low high h g none w same = (tt, refl)
  optional-confined low high h g (some r) w same =
      let x = d.confined low high h g r w same in (x.0, ap some x.1)

  optional-widen :
      (low high low' high' : ℕ) (h : Heap C) (p : Option R)
      → low' ≤ low
      → high ≤ high'
      → WithinOptional c low high h p
      → WithinOptional c low' high' h p
  optional-widen low high low' high' h none q q' w = tt
  optional-widen low high low' high' h (some r) q q' w = d.widen low high low' high' h r q q' w

  optional-Copied :
      (h : Heap C) (p : Option R) → WithinOptional c 0 h.next h p → Copied (optional c) h p
  unfolding copy_optional
  optional-Copied h none w = record {
    grows = omega arith;
    frame = λ x l u. refl;
    fresh = tt;
    same = refl;
  }
  optional-Copied h (some r) w =
      let x = d.copied h r w in
      record { grows = x.grows; frame = x.frame; fresh = x.fresh; same = ap some x.same }

  pub optional-Deep : Deep (optional c)
  optional-Deep = record {
    confined = optional-confined;
    widen = optional-widen;
    copied = optional-Copied;
  }

pub slice-Deep :
    {C R V : Type 0} (place : Place C (List R)) (c : Copier C R V) → Deep c → Deep (slice place c)
slice-Deep place c d =
    optional-Deep (pointed place (elements c)) (pointed-Deep place (elements c) (elements-Deep c d))
