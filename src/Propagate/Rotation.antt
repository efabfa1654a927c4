-- ===== src/Propagate/Rotation.antt =====
-- When a token is replaced: propagate.NeedsRotation.
use mathlib.Core.Bool.{true≢false}
use platform_service_gitops.Prelude.{
  Option-cases, String, arith, false, inl, inr, refl, some, ◌↔◌, ◌≡◌,
}
use platform_service_gitops.Propagate.{
  needs_rotation, secret_key, token_expires_at_annotation, rotation_due,
}
use platform_service_gitops.K8s.Objects.{McpClient, Secret}
use platform_service_gitops.Api.GitRepository.{GitRepository}
use platform_service_gitops.Go.Dict.{find}
use platform_service_gitops.Go.Invariant.{Result-cases}
use platform_service_gitops.Go.Int.{leb_ℤ, ℤ, ◌<ℤ◌}
use platform_service_gitops.Go.Time.{Clock, Duration, Time, until}
use platform_service_gitops.Go.Error.{Error, err, ok}

-- A stored expiry that is not due at `now`.
pub record IsFresh {W : Type 0} (clock : Clock W) (renew_buffer : Duration) (now : Time)
    (s : Secret) : Type 0 where
  pub raw : String
  pub expires_at : Time
  pub present : find token_expires_at_annotation s.meta.annotations ≡ some raw
  pub valid : clock.parse_rfc3339 raw ≡ ok expires_at
  pub in_time : renew_buffer <ℤ until expires_at now

leb_ℤ-false : (a b : ℤ) → leb_ℤ a b ≡ false → b <ℤ a
leb_ℤ-false a b h = ground arith

lt-leb_ℤ : (a b : ℤ) → b <ℤ a → leb_ℤ a b ≡ false
lt-leb_ℤ a b h = ground arith

module _ {W : Type 0} (clock : Clock W) (mcp : McpClient W) (gr : GitRepository)
    (flux_namespace : String) (renew_buffer : Duration) where
  abbrev asked : W → W
  asked w = (mcp.secrets.get (secret_key gr flux_namespace) w).1

  -- The clock that decides is read after the Secret.
  abbrev pub decision_time : W → Time
  decision_time w = (clock.now (asked w)).0

  -- If the Secret is read, no rotation is needed exactly if its expiry is present, valid and more
  -- than the renew buffer away.
  pub needs_rotation-eq-false_iff :
      (w : W) (s : Secret)
      → (mcp.secrets.get (secret_key gr flux_namespace) w).0 ≡ ok s
      → ((needs_rotation clock mcp gr flux_namespace renew_buffer w).0 ≡ false)
        ↔ IsFresh clock renew_buffer (decision_time w) s
  unfolding needs_rotation
  needs_rotation-eq-false_iff w s r = (there, back)
    where
      there :
          (needs_rotation clock mcp gr flux_namespace renew_buffer w).0 ≡ false
          → IsFresh clock renew_buffer (decision_time w) s
      there h = elim (Option-cases (find token_expires_at_annotation s.meta.annotations)) [
        | inl p ↦ absurd (true≢false (rw (r, p) at h))
        | inr (raw, p) ↦ elim (Result-cases (clock.parse_rfc3339 raw)) [
          | inl (t, q) ↦ record {
            raw = raw;
            expires_at = t;
            present = p;
            valid = q;
            in_time =
                leb_ℤ-false (until t (decision_time w)) renew_buffer
                  (rw (r, p, q, rotation_due) at h);
          }
          | inr (e, q) ↦ absurd (true≢false (rw (r, p, q, rotation_due) at h))
        ]
      ]

      back :
          IsFresh clock renew_buffer (decision_time w) s
          → (needs_rotation clock mcp gr flux_namespace renew_buffer w).0 ≡ false
      back f =
          rw (r, f.present, f.valid, rotation_due)
            (lt-leb_ℤ (until f.expires_at (decision_time w)) renew_buffer f.in_time)

  -- The Secret was not read: a rotation is needed exactly if the error says that there is none.
  pub needs_rotation_error :
      (w : W) (e : Error)
      → (mcp.secrets.get (secret_key gr flux_namespace) w).0 ≡ err e
      → (needs_rotation clock mcp gr flux_namespace renew_buffer w).0 ≡ e.not_found
  unfolding needs_rotation
  needs_rotation_error w e r = rw r refl
