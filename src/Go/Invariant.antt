-- ===== src/Go/Invariant.antt =====
-- Reasoning about actions: predicates that every call keeps, and inversion of a checked call.
use platform_service_gitops.Prelude.{Bool, false, if◌then◌else◌, inl, inr, refl, true, ◌≡◌, ◌⊎◌}
use platform_service_gitops.Go.Eff.{Eff, branch, fail, pure, try, ◌>>=◌}
use platform_service_gitops.Go.Error.{Error, Result, err, ok}

-- `m` keeps `P`, whatever its result.
pub record Preserves {W A : Type 0} (P : W → Type 0) (m : Eff W A) : Type 0 where
  pub at : (w : W) → P w → P (m w).1

module _ {W A : Type 0} {P : W → Type 0} where
  pub Preserves-pure : (a : A) → Preserves P (pure a)
  Preserves-pure a = record { at = λ w h. h }

  pub Preserves-fail : (e : Error) → Preserves P (fail {A = A} e)
  Preserves-fail e = record { at = λ w h. h }

  pub Preserves-if :
      (b : Bool) (m n : Eff W A)
      → (b ≡ true → Preserves P m)
      → (b ≡ false → Preserves P n)
      → Preserves P (if b then m else n)
  Preserves-if true m n km kn = km refl
  Preserves-if false m n km kn = kn refl

module _ {W A B : Type 0} {P : W → Type 0} where
  pub Preserves-branch :
      (r : Result A) (h : Error → Eff W B) (k : A → Eff W B)
      → ((e : Error) → r ≡ err e → Preserves P (h e))
      → ((a : A) → r ≡ ok a → Preserves P (k a))
      → Preserves P (branch r h k)
  Preserves-branch (ok a) h k ph pk = pk a refl
  Preserves-branch (err e) h k ph pk = ph e refl

  pub Preserves-try :
      (m : Eff W (Result A)) (h : Error → Eff W B) (k : A → Eff W B)
      → Preserves P m
      → ((e : Error) → Preserves P (h e))
      → ((a : A) → Preserves P (k a))
      → Preserves P (try m h k)
  Preserves-try m h k pm ph pk = record {
    at = λ w q. (Preserves-branch (m w).0 h k (λ e _. ph e) (λ a _. pk a)).at (m w).1 (pm.at w q);
  }

  pub Preserves-bind :
      (m : Eff W A) (k : A → Eff W B)
      → Preserves P m
      → ((a : A) → Preserves P (k a))
      → Preserves P (m >>= k)
  Preserves-bind m k pm pk = record { at = λ w q. (pk (m w).0).at (m w).1 (pm.at w q) }

  -- The continuations may use the call's result at the world where it was made.
  pub Preserves-try_at :
      (m : Eff W (Result A)) (h : Error → Eff W B) (k : A → Eff W B)
      → Preserves P m
      → ((w : W) (e : Error) → P w → (m w).0 ≡ err e → Preserves P (h e))
      → ((w : W) (a : A) → P w → (m w).0 ≡ ok a → Preserves P (k a))
      → Preserves P (try m h k)
  Preserves-try_at m h k pm ph pk = record {
    at = λ w q.
        (Preserves-branch (m w).0 h k (λ e. ph w e q) (λ a. pk w a q)).at (m w).1 (pm.at w q);
  }

pub ruleset preserves_rules =
    (Preserves-pure, Preserves-fail, Preserves-if, Preserves-try, Preserves-bind)

pub Result-cases {ℓ} :
    {A : Type ℓ} (r : Result A) → ((a : A) × (r ≡ ok a)) ⊎ ((e : Error) × (r ≡ err e))
Result-cases (ok a) = inl (a, refl)
Result-cases (err e) = inr (e, refl)

module _ {W A B : Type 0} where
  pub try-ok :
      (m : Eff W (Result A)) (h : Error → Eff W B) (k : A → Eff W B) (w : W) {a : A}
      → (m w).0 ≡ ok a
      → try m h k w ≡ k a (m w).1
  try-ok m h k w e = rw e refl

  pub try-err :
      (m : Eff W (Result A)) (h : Error → Eff W B) (k : A → Eff W B) (w : W) {x : Error}
      → (m w).0 ≡ err x
      → try m h k w ≡ h x (m w).1
  try-err m h k w e = rw e refl

  -- A call whose error is passed on succeeded if the whole did.
  pub try-eq-ok :
      (m : Eff W (Result A)) (f : Error → Error) (k : A → Eff W (Result B)) (w : W) {b : B}
      → (try m (λ e. fail (f e)) k w).0 ≡ ok b
      → (a : A) × ((m w).0 ≡ ok a) × ((k a (m w).1).0 ≡ ok b)
  try-eq-ok m f k w h = elim (Result-cases (m w).0) [
    | inl (a, e) ↦ (a, e, rw e at h)
    | inr (x, e) ↦ absurd (bad (rw e at h))
  ]
    where
      bad : {y : Error} {c : B} → err y ≡ ok c → ⊥
      bad p = cc

pub err≢ok {ℓ} : {A : Type ℓ} {e : Error} {a : A} → err e ≡ ok a → ⊥
err≢ok p = cc

pub ok-injective {ℓ} : {A : Type ℓ} {a b : A} → ok a ≡ ok b → a ≡ b
ok-injective p = cc
