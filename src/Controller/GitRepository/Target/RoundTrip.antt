-- ===== src/Controller/GitRepository/Target/RoundTrip.antt =====
-- The expiry of a token: written to the Secret by internal/propagate, and read back by
-- currentTokenExpiry and NeedsRotation.
use mathlib.Core.Option.{some-injective}
use platform_service_gitops.Propagate
use platform_service_gitops.Propagate.Writes.{reconcile-Synced}
use platform_service_gitops.Controller.{Runtime}
use platform_service_gitops.Prelude.{Option, ap, false, refl, some, sym, ◌↔◌, ◌∙◌, ◌≡◌}
use platform_service_gitops.Propagate.{
  Outcome, TokenMinter, needs_rotation, secret_key, token_expires_at_annotation,
}
use platform_service_gitops.K8s.Objects.{McpClient, Secret}
use platform_service_gitops.Api.GitRepository.{GitRepository}
use platform_service_gitops.Go.Dict.{find}
use platform_service_gitops.Go.Eff.{Eff}
use platform_service_gitops.Go.Invariant.{ok-injective}
use platform_service_gitops.Go.Int.{ℤ, ◌<ℤ◌}
use platform_service_gitops.Go.Time.{Time, until}
use platform_service_gitops.Go.Error.{Result, ok}
use platform_service_gitops.Controller.GitRepository.Target.{current_token_expiry, parsed_expiry}
use platform_service_gitops.Controller.GitRepository.Base.{GitRepositoryReconciler}
use platform_service_gitops.Propagate.Rotation.{decision_time, needs_rotation-eq-false_iff}
use platform_service_gitops.Propagate.Laws.{McpLaws}

module _ {W : Type 0} (rt : Runtime W) (r : GitRepositoryReconciler W) (mcp : McpClient W)
    (L : McpLaws mcp) (gr : GitRepository) (id : ℤ) (minter : TokenMinter W) where
  abbrev pub Write : Eff W (Result Outcome)
  Write = Propagate.reconcile rt.clock mcp gr r.flux_namespace id minter

  abbrev pub Read : Eff W (Option Time)
  Read = current_token_expiry rt r mcp gr

  written-IsSome :
      (w v : W) (o : Outcome) (s : Secret)
      → (Write w).0 ≡ ok o
      → o.conflict ≡ false
      → L.secrets.view v ≡ L.secrets.view (Write w).1
      → (mcp.secrets.get (secret_key gr r.flux_namespace) v).0 ≡ ok s
      → find token_expires_at_annotation s.meta.annotations
        ≡ some (rt.clock.format_rfc3339 o.token_expires_at)
  written-IsSome w v o s written clean same got =
      let (tok, minted, expires, synced) =
        reconcile-Synced rt.clock mcp L gr r.flux_namespace id minter w o written clean in
      let stored : some s ≡ some synced.secret =
        sym (L.secrets.get_ok _ v s got)
        ∙ (ap (λ x. x (secret_key gr r.flux_namespace)) same ∙ synced.secret_stored) in
      ap (λ (x : Secret). find token_expires_at_annotation x.meta.annotations)
        (some-injective s synced.secret stored)
      ∙ (synced.holds_token.expiry ∙ ap (λ t. some (rt.clock.format_rfc3339 t)) (sym expires))

  -- On an API server that obeys McpLaws, after a Reconcile that succeeded with no conflict, as long
  -- as the Secrets are as it left them and the Secret is read, and if its expiry survives printing
  -- and parsing: the expiry that is read back is the one that Reconcile returned, and no rotation
  -- is needed exactly if that is more than the renew buffer away.
  pub expiry-roundtrip :
      (w v : W) (o : Outcome) (s : Secret)
      → (Write w).0 ≡ ok o
      → o.conflict ≡ false
      → L.secrets.view v ≡ L.secrets.view (Write w).1
      → (mcp.secrets.get (secret_key gr r.flux_namespace) v).0 ≡ ok s
      → rt.clock.parse_rfc3339 (rt.clock.format_rfc3339 o.token_expires_at) ≡ ok o.token_expires_at
      → ((Read v).0 ≡ some o.token_expires_at)
        × (((needs_rotation rt.clock mcp gr r.flux_namespace r.token_renew_buffer v).0 ≡ false) ↔ (
            r.token_renew_buffer
            <ℤ until o.token_expires_at
                (decision_time rt.clock mcp gr r.flux_namespace r.token_renew_buffer v)))
  unfolding current_token_expiry
  expiry-roundtrip w v o s written clean same got printed =
      let present = written-IsSome w v o s written clean same got in
      let decided =
        needs_rotation-eq-false_iff rt.clock mcp gr r.flux_namespace r.token_renew_buffer v s got in
      (
        rw (got, present, printed, parsed_expiry) refl,
        (
          λ h.
              let fresh = decided.0 h in
              let same_raw = some-injective _ _ (sym fresh.present ∙ present) in
              let read_back : fresh.expires_at ≡ o.token_expires_at =
                ok-injective (sym fresh.valid ∙ (ap rt.clock.parse_rfc3339 same_raw ∙ printed)) in
              rw (sym read_back) fresh.in_time,
          λ h. decided.1 (record {
            raw = rt.clock.format_rfc3339 o.token_expires_at;
            expires_at = o.token_expires_at;
            present = present;
            valid = printed;
            in_time = h;
          }),
        ),
      )
