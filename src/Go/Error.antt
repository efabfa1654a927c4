-- ===== src/Go/Error.antt =====
-- Go errors. `not_found` is what `apierrors.IsNotFound` reports, which looks through `%w`.
use platform_service_gitops.Prelude.{String, ◌<>◌, Bool, false}
use platform_service_gitops.Go.Int.{ℤ}

pub record Error : Type 0 where
  pub not_found : Bool
  pub message : String

-- A pair `(value, error)` of which the caller reads one half.
pub data Result {ℓ} (A : Type ℓ) : Type ℓ where
  ok : A → Result A
  err : Error → Result A

-- fmt.Errorf without `%w`, errors.New
abbrev pub errorf : String → Error
errorf m = record { not_found = false; message = m }

-- fmt.Errorf("prefix%w", err)
abbrev pub wrap : String → Error → Error
wrap prefix e = record { not_found = e.not_found; message = prefix <> e.message }

-- The verbs `%q` and `%d` of package fmt.
pub record Fmt : Type 0 where
  pub quoted : String → String
  pub decimal : ℤ → String
