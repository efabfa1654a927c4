-- ===== src/Credentials/Selection.antt =====
-- SelectSecretRef: which of an instance's credential Secrets is used.
use mathlib.Core.Bool.{false≢true}
use platform_service_gitops.Prelude.{
  Bool-cases, List, String, [], ap, eq_iff, false, inl, inr, refl, sym, ◌++◌, ◌==◌, ◌∙◌, ◌∷◌, ◌≡◌,
  ◌≢◌, ◌⊎◌, ◌↔◌,
}
use platform_service_gitops.Credentials.{find_ref, select_secret_ref, sole_ref}
use platform_service_gitops.Api.GithubInstance.{SecretReference}
use platform_service_gitops.Go.Invariant.{err≢ok, ok-injective}
use platform_service_gitops.Go.Error.{Fmt, ok}

abbrev pub NoneNamed : String → List SecretReference → Type 0
NoneNamed name [] = Unit {0}
NoneNamed name (x ∷ xs) = (x.name ≢ name) × NoneNamed name xs

-- The reference has the name, and none of those before it has.
pub record IsFirst (refs : List SecretReference) (name : String) (ref : SecretReference)
    : Type 0 where
  pub before : List SecretReference
  pub after : List SecretReference
  pub split : refs ≡ before ++ (ref ∷ after)
  pub named : ref.name ≡ name
  pub others : NoneNamed name before

-- No name was given and there is this one only, or one was given and this is the first to have it.
abbrev pub IsSelected : List SecretReference → String → SecretReference → Type 0
IsSelected refs name ref = ((name ≡ "") × (refs ≡ ref ∷ [])) ⊎ ((name ≢ "") × IsFirst refs name ref)

eq-false : (a b : String) → (a == b) ≡ false → a ≢ b
eq-false a b h p = false≢true (sym h ∙ (eq_iff a b).1 p)

module _ (fmt : Fmt) where
  find_ref-IsFirst :
      (refs : List SecretReference) (name : String) (ref : SecretReference)
      → find_ref fmt refs name ≡ ok ref
      → IsFirst refs name ref
  unfolding find_ref
  find_ref-IsFirst [] name ref h = absurd (err≢ok h)
  find_ref-IsFirst (x ∷ xs) name ref h = elim (Bool-cases (x.name == name)) [
    | inl same ↦
        let e : x ≡ ref = ok-injective (rw same at h) in
        record {
          before = [];
          after = xs;
          split = ap (λ (y : SecretReference). y ∷ xs) e;
          named = ap (λ (y : SecretReference). y.name) (sym e) ∙ (eq_iff _ _).0 same;
          others = tt;
        }
    | inr other ↦
        let f = find_ref-IsFirst xs name ref (rw other at h) in
        record {
          before = x ∷ f.before;
          after = f.after;
          split = ap (λ (ys : List SecretReference). x ∷ ys) f.split;
          named = f.named;
          others = (eq-false x.name name other, f.others);
        }
  ]

  find_ref-after :
      (before after : List SecretReference) (name : String) (ref : SecretReference)
      → ref.name ≡ name
      → NoneNamed name before
      → find_ref fmt (before ++ (ref ∷ after)) name ≡ ok ref
  unfolding find_ref
  find_ref-after [] after name ref named others = rw ((eq_iff ref.name name).1 named) refl
  find_ref-after (x ∷ before) after name ref named others = elim (Bool-cases (x.name == name)) [
    | inl same ↦ absurd (others.0 ((eq_iff _ _).0 same))
    | inr other ↦ rw other (find_ref-after before after name ref named others.1)
  ]

  sole_ref-ok :
      (refs : List SecretReference) (ref : SecretReference)
      → sole_ref fmt refs ≡ ok ref
      → refs ≡ ref ∷ []
  unfolding sole_ref
  sole_ref-ok [] ref q = absurd (err≢ok q)
  sole_ref-ok (x ∷ []) ref q = ap (λ (y : SecretReference). y ∷ []) (ok-injective q)
  sole_ref-ok (x ∷ y ∷ xs) ref q = absurd (err≢ok q)

  select_secret_ref-IsSelected :
      (refs : List SecretReference) (name : String) (ref : SecretReference)
      → select_secret_ref fmt refs name ≡ ok ref
      → IsSelected refs name ref
  unfolding select_secret_ref
  select_secret_ref-IsSelected refs name ref h = elim (Bool-cases (name == "")) [
    | inr given ↦ inr (eq-false name "" given, find_ref-IsFirst refs name ref (rw given at h))
    | inl blank ↦ inl ((eq_iff _ _).0 blank, sole_ref-ok refs ref (rw blank at h))
  ]

  IsSelected-select_secret_ref :
      (refs : List SecretReference) (name : String) (ref : SecretReference)
      → IsSelected refs name ref
      → select_secret_ref fmt refs name ≡ ok ref
  unfolding select_secret_ref
  IsSelected-select_secret_ref refs name ref (inl (blank, sole)) = rw (blank, sole) refl
  IsSelected-select_secret_ref refs name ref (inr (given, f)) = elim (Bool-cases (name == "")) [
    | inl blank ↦ absurd (given ((eq_iff _ _).0 blank))
    | inr other ↦ rw (other, f.split) (find_ref-after f.before f.after name ref f.named f.others)
  ]

  -- SelectSecretRef gives a reference exactly if no name was given and the instance lists this one
  -- only, or a name was given and this is the first in the list that has it.
  pub select_secret_ref-eq-ok_iff :
      (refs : List SecretReference) (name : String) (ref : SecretReference)
      → (select_secret_ref fmt refs name ≡ ok ref) ↔ IsSelected refs name ref
  select_secret_ref-eq-ok_iff refs name ref =
      (select_secret_ref-IsSelected refs name ref, IsSelected-select_secret_ref refs name ref)
