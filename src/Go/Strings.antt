-- ===== src/Go/Strings.antt =====
-- Package strings, as far as the program uses it, and strconv.ParseInt in base 10.
use Prim.Native.Char.{Char, code}
use Prim.Native.String.{[], ◌∷◌}
use platform_service_gitops.Prelude.{
  ℕ, zero, ◌+◌, ◌-◌, ◌*◌, ◌^◌, String, ◌<>◌, Bool, ◌&&◌, Option, none, some, leb, ◌==◌,
  if◌then◌else◌,
}
use platform_service_gitops.Go.Error.{Error, Result, ok, err, errorf}
use platform_service_gitops.Go.Int.{ℤ, pos, negsuc}

-- The tables of package unicode.
pub record Unicode : Type 0 where
  pub to_lower : Char → Char
  pub is_space : Char → Bool

abbrev same : Char → Char → Bool
same c d = leb (code c) (code d) && leb (code d) (code c)

unfoldable pub strip_prefix : String → String → Option String
strip_prefix s [] = some s
strip_prefix [] (d ∷ p) = none
strip_prefix (c ∷ s) (d ∷ p) = if same c d then strip_prefix s p else none

-- strings.TrimPrefix
unfoldable pub trim_prefix : String → String → String
unfolding strip_prefix
trim_prefix s p = elim (strip_prefix s p) [ none ↦ s | some rest ↦ rest ]

-- strings.TrimSuffix
unfoldable pub trim_suffix : String → String → String
trim_suffix [] p = []
trim_suffix (c ∷ s) p = let rest = trim_suffix s p in if (c ∷ s) == p then [] else c ∷ rest

module _ (u : Unicode) where
  -- strings.ToLower
  unfoldable pub lower : String → String
  lower [] = []
  lower (c ∷ s) = u.to_lower c ∷ lower s

  unfoldable pub trim_left : String → String
  trim_left [] = []
  trim_left (c ∷ s) = let rest = trim_left s in if u.is_space c then rest else c ∷ s

  unfoldable pub trim_right : String → String
  trim_right [] = []
  trim_right (c ∷ s) =
      let rest = trim_right s in if rest == "" && u.is_space c then [] else c ∷ rest

  -- strings.TrimSpace
  unfoldable pub trim_space : String → String
  unfolding trim_left trim_right
  trim_space s = trim_right (trim_left s)

-- The number that a text of digits stands for. The scan stops at the first prefix that is 2^64 or
-- more, whatever follows it.
unfoldable pub read_digits : ℕ → String → Option ℕ
read_digits n [] = some n
read_digits n (c ∷ s) =
    if leb b'0' (code c) && leb (code c) b'9'
    then (let m = n * 10 + (code c - b'0') in
        let rest = read_digits m s in if leb (2 ^ 64) m then some m else rest)
    else none

unfoldable pub read_number : String → Option ℕ
unfolding read_digits
read_number s = if s == "" then none else read_digits 0 s

abbrev pub max_int64 : ℕ
max_int64 = 2 ^ 63 - 1

-- Package strconv's error texts, with the input quoted by the first argument.
abbrev pub syntax_error : (String → String) → String → Error
syntax_error quoted s = errorf ("strconv.ParseInt: parsing " <> (quoted s <> ": invalid syntax"))

abbrev pub range_error : (String → String) → String → Error
range_error quoted s = errorf ("strconv.ParseInt: parsing " <> (quoted s <> ": value out of range"))

abbrev pub nonnegative : (String → String) → String → Option ℕ → Result ℤ
nonnegative quoted s none = err (syntax_error quoted s)
nonnegative quoted s (some n) = if leb n max_int64 then ok (pos n) else err (range_error quoted s)

abbrev pub negated : (String → String) → String → Option ℕ → Result ℤ
negated quoted s none = err (syntax_error quoted s)
negated quoted s (some zero) = ok (pos 0)
negated quoted s (some n) =
    if leb n (2 ^ 63) then ok (negsuc (n - 1)) else err (range_error quoted s)

-- strconv.ParseInt(s, 10, 64)
unfoldable pub parse_int : (String → String) → String → Result ℤ
parse_int quoted [] = err (syntax_error quoted "")
parse_int quoted (c ∷ s) =
    if leb (code c) b'+' && leb b'+' (code c)
    then nonnegative quoted (c ∷ s) (read_number s)
    else if leb (code c) b'-' && leb b'-' (code c)
    then negated quoted (c ∷ s) (read_number s)
    else nonnegative quoted (c ∷ s) (read_number (c ∷ s))
