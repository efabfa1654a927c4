-- ===== src/Credentials/Contents.antt =====
-- FromSecret: what a credential Secret must hold.
use Prim.Native.Char.{code}
use mathlib.Core.Path.{subst}
use platform_service_gitops.Prelude.{
  Option-cases, String, ap, inl, inr, some, ◌↔◌, ◌∙◌, ◌≡◌, refl, Bool-cases, Option, arith, leb,
  none, suc, zero, ℕ, ◌&&◌, ◌<◌, ◌^◌,
}
use platform_service_gitops.GithubApp.{Credentials}
use platform_service_gitops.Credentials.{
  from_secret, secret_key_app_id, secret_key_private_key, secret_key_url, data_key,
}
use platform_service_gitops.K8s.Objects.{Secret}
use platform_service_gitops.Go.Dict.{lookup}
use platform_service_gitops.Go.Invariant.{err≢ok, ok-injective, Result-cases}
use platform_service_gitops.Go.Error.{Fmt, ok}
use platform_service_gitops.Go.Strings.{parse_int, max_int64, negated, nonnegative, read_number}
use platform_service_gitops.Go.Int.{negsuc, pos, ℤ}

-- The three keys are there and the App ID is an int64 in decimal.
pub record IsCredential (fmt : Fmt) (s : Secret) (c : Credentials) : Type 0 where
  pub raw : String
  pub app_id_key : lookup secret_key_app_id s.contents ≡ some raw
  pub app_id : parse_int fmt.quoted raw ≡ ok c.app_id
  pub private_key : lookup secret_key_private_key s.contents ≡ some c.private_key
  pub url : lookup secret_key_url s.contents ≡ some c.url

module _ (fmt : Fmt) (s : Secret) where
  data_key-some : (key v : String) → lookup key s.contents ≡ some v → data_key fmt s key ≡ ok v
  unfolding data_key
  data_key-some key v h = rw (h, data_key) refl

  data_key-ok : (key v : String) → data_key fmt s key ≡ ok v → lookup key s.contents ≡ some v
  unfolding data_key
  data_key-ok key v h = elim (Option-cases (lookup key s.contents)) [
    | inl p ↦ absurd (err≢ok (rw (p, data_key) at h))
    | inr (x, p) ↦ p ∙ ap (λ (y : String). some y) (ok-injective (rw (p, data_key) at h))
  ]

  from_secret-IsCredential : (c : Credentials) → from_secret fmt s ≡ ok c → IsCredential fmt s c
  unfolding from_secret
  from_secret-IsCredential c h = elim (Result-cases (data_key fmt s secret_key_app_id)) [
    | inr (e, p) ↦ absurd (err≢ok (rw p at h))
    | inl (raw, p) ↦ elim (Result-cases (parse_int fmt.quoted raw)) [
      | inr (e, q) ↦ absurd (err≢ok (rw (p, q) at h))
      | inl (n, q) ↦ elim (Result-cases (data_key fmt s secret_key_private_key)) [
        | inr (e, a) ↦ absurd (err≢ok (rw (p, q, a) at h))
        | inl (pk, a) ↦ elim (Result-cases (data_key fmt s secret_key_url)) [
          | inr (e, b) ↦ absurd (err≢ok (rw (p, q, a, b) at h))
          | inl (url, b) ↦
              let same : record { app_id = n; private_key = pk; url = url } ≡ c =
                ok-injective (rw (p, q, a, b) at h) in
              record {
                raw = raw;
                app_id_key = data_key-ok secret_key_app_id raw p;
                app_id = q ∙ ap (λ (x : Credentials). ok x.app_id) same;
                private_key =
                    data_key-ok secret_key_private_key pk a
                    ∙ ap (λ (x : Credentials). some x.private_key) same;
                url = data_key-ok secret_key_url url b ∙ ap (λ (x : Credentials). some x.url) same;
              }
        ]
      ]
    ]
  ]

  IsCredential-from_secret : (c : Credentials) → IsCredential fmt s c → from_secret fmt s ≡ ok c
  unfolding from_secret
  IsCredential-from_secret c k =
      let a = data_key-some secret_key_app_id k.raw k.app_id_key in
      let p = data_key-some secret_key_private_key c.private_key k.private_key in
      let u = data_key-some secret_key_url c.url k.url in rw (a, k.app_id, p, u) refl

  -- FromSecret succeeds with exactly the credentials that the Secret holds: its three keys are
  -- there and the App ID is an int64 in decimal.
  pub from_secret-eq-ok_iff : (c : Credentials) → (from_secret fmt s ≡ ok c) ↔ IsCredential fmt s c
  from_secret-eq-ok_iff c = (from_secret-IsCredential c, IsCredential-from_secret c)

abbrev pub IsInt64 : ℤ → Type 0
IsInt64 (pos n) = n < 2 ^ 63
IsInt64 (negsuc n) = n < 2 ^ 63

nonnegative-IsInt64 :
    (quoted : String → String) (s : String) (v : Option ℕ) (n : ℤ)
    → nonnegative quoted s v ≡ ok n
    → IsInt64 n
nonnegative-IsInt64 quoted s none n h = absurd (err≢ok h)
nonnegative-IsInt64 quoted s (some m) n h = elim (Bool-cases (leb m max_int64)) [
  | inl small ↦ subst IsInt64 (ok-injective (rw small at h)) (ground arith)
  | inr large ↦ absurd (err≢ok (rw large at h))
]

negated-IsInt64 :
    (quoted : String → String) (s : String) (v : Option ℕ) (n : ℤ)
    → negated quoted s v ≡ ok n
    → IsInt64 n
negated-IsInt64 quoted s none n h = absurd (err≢ok h)
negated-IsInt64 quoted s (some zero) n h = subst IsInt64 (ok-injective h) (omega arith)
negated-IsInt64 quoted s (some (suc m)) n h = elim (Bool-cases (leb (suc m) (2 ^ 63))) [
  | inl small ↦ subst IsInt64 (ok-injective (rw small at h)) (ground arith)
  | inr large ↦ absurd (err≢ok (rw large at h))
]

parse_int-IsInt64 :
    (quoted : String → String) (s : String) (n : ℤ) → parse_int quoted s ≡ ok n → IsInt64 n
unfolding parse_int
parse_int-IsInt64 quoted String.[] n h = absurd (err≢ok h)
parse_int-IsInt64 quoted (String.◌∷◌ c s) n h =
    elim (Bool-cases (leb (code c) b'+' && leb b'+' (code c))) [
      | inl plus ↦ nonnegative-IsInt64 quoted _ (read_number s) n (rw plus at h)
      | inr not_plus ↦ elim (Bool-cases (leb (code c) b'-' && leb b'-' (code c))) [
        | inl minus ↦ negated-IsInt64 quoted _ (read_number s) n (rw (not_plus, minus) at h)
        | inr digit ↦
            nonnegative-IsInt64 quoted (String.◌∷◌ c s) (read_number (String.◌∷◌ c s)) n
              (rw (not_plus, digit) at h)
      ]
    ]

-- The App ID of credentials that FromSecret reads is an int64: the number is at least -2^63 and
-- below 2^63.
pub from_secret-IsInt64 :
    (fmt : Fmt) (s : Secret) (c : Credentials) → from_secret fmt s ≡ ok c → IsInt64 c.app_id
from_secret-IsInt64 fmt s c h =
    parse_int-IsInt64 fmt.quoted _ c.app_id (from_secret-IsCredential fmt s c h).app_id
