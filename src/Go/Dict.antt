-- ===== src/Go/Dict.antt =====
-- Go maps from strings, as association lists; a nil map is `none`.
use platform_service_gitops.Prelude.{
  String, ◌≡◌, refl, Option, none, some, List, [], ◌∷◌, arith, ◌==◌, eq_iff, if◌then◌else◌,
}

abbrev pub Dict : Type 0 → Type 0
Dict V = List (String × V)

module _ {V : Type 0} where
  -- value, found := dict[key]
  unfoldable pub lookup : (key : String) (dict : Dict V) → Option V
  lookup key [] = none
  lookup key (entry ∷ rest) = if entry.0 == key then some entry.1 else lookup key rest

  -- dict[key] = value
  unfoldable pub insert : (key : String) (value : V) (dict : Dict V) → Dict V
  insert key value [] = (key, value) ∷ []
  insert key value (entry ∷ rest) =
      if entry.0 == key then (key, value) ∷ rest else entry ∷ insert key value rest

  pub lookup-insert :
      (key asked : String) (value : V) (dict : Dict V)
      → lookup asked (insert key value dict)
        ≡ (if key == asked then some value else lookup asked dict)
  unfolding lookup insert
  lookup-insert key asked value [] = refl
  lookup-insert key asked value (entry ∷ rest) = ground (
    arith,
    lookup-insert key asked value rest,
    eq_iff entry.0 key,
    eq_iff entry.0 asked,
    eq_iff key asked,
  )

-- No key occurs twice, as in a map of Go.
abbrev pub DistinctKeys : {V : Type 0} → Dict V → Type 0
DistinctKeys [] = Unit {0}
DistinctKeys (entry ∷ rest) = (lookup entry.0 rest ≡ none) × DistinctKeys rest

-- A map that may be nil.
abbrev pub NilMap : Type 0
NilMap = Option (Dict String)

-- v, ok := m[k]; a read of a nil map finds nothing.
abbrev pub find : String → NilMap → Option String
find k none = none
find k (some m) = lookup k m

abbrev pub or_blank : Option String → String
or_blank none = ""
or_blank (some v) = v

-- m[k], the zero value "" where the key is missing.
abbrev pub at_key : String → NilMap → String
at_key k m = or_blank (find k m)

-- `if m == nil { m = map[string]string{} }`
abbrev pub made : NilMap → Dict String
made none = []
made (some m) = m
