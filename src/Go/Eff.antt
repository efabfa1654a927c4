-- ===== src/Go/Eff.antt =====
-- Calls that read and change the world outside the process: the clusters, GitHub, the clock.
use platform_service_gitops.Go.Error.{Error, Result, ok, err}

-- An action that takes the world before it and gives a value with the world after it.
abbrev pub Eff : Type 0 → Type 0 → Type 0
Eff W A = W → A × W

module _ {W A : Type 0} where
  abbrev pub pure : A → Eff W A
  pure a w = (a, w)

  abbrev pub fail : Error → Eff W (Result A)
  fail e w = (err e, w)

module _ {W A B : Type 0} where
  infixl 5 ◌>>=◌ ◌>>◌
  abbrev pub ◌>>=◌ : Eff W A → (A → Eff W B) → Eff W B
  ◌>>=◌ m f w = let (a, w') = m w in f a w'

  abbrev pub ◌>>◌ : Eff W A → Eff W B → Eff W B
  ◌>>◌ m n w = n (m w).1

  -- `x, err := m(); if err != nil { return handle(err) }; return next(x)`
  abbrev pub branch : Result A → (Error → Eff W B) → (A → Eff W B) → Eff W B
  branch (ok a) handle next = next a
  branch (err e) handle next = handle e

  abbrev pub try : Eff W (Result A) → (Error → Eff W B) → (A → Eff W B) → Eff W B
  try m handle next w = branch (m w).0 handle next (m w).1
