-- ===== src/Propagate/Writes.antt =====
-- What a successful propagate.Reconcile leaves in the MCP.
use mathlib.Core.Path.{subst}
use platform_service_gitops.Prelude.{
  Bool-cases, String, [], inl, inr, refl, some, ◌∷◌, ◌≡◌, false, ◌∙◌, Bool, sym, ap,
}
use platform_service_gitops.K8s.Laws.{IsKept}
use platform_service_gitops.GithubApp.{TokenResult}
use platform_service_gitops.Propagate.{
  desired_secret, secret_token_key, sync_secret, token_expires_at_annotation, updated_secret,
  flux_git_repository_spec, sync_flux_git_repository, Outcome, TokenMinter, flux_key, reconcile,
  secret_key, secret_name, managed_by_annotation,
}
use platform_service_gitops.K8s.Meta.{NamespacedName, key_of}
use platform_service_gitops.K8s.Objects.{McpClient, Secret, FluxGitRepository}
use platform_service_gitops.Api.GitRepository.{GitRepository}
use platform_service_gitops.Go.Dict.{find, lookup, lookup-insert, at_key}
use platform_service_gitops.Go.Invariant.{Result-cases, err≢ok, ok-injective, try-eq-ok}
use platform_service_gitops.Go.Time.{Clock}
use platform_service_gitops.Go.Error.{ok, Result, wrap}
use platform_service_gitops.Propagate.Laws.{IsOwned, McpLaws, sent_secret}
use platform_service_gitops.Go.Eff.{Eff}
use platform_service_gitops.Go.Int.{ℤ}
use platform_service_gitops.Propagate.FluxWrites.{sync_flux-FluxWritten, sync_flux-frame}

-- A token Secret as the program writes it.
pub record HoldsToken {W : Type 0} (clock : Clock W) (gr : GitRepository) (tok : TokenResult)
    (s : Secret) : Type 0 where
  pub token : s.contents ≡ (secret_token_key, tok.token) ∷ []
  pub expiry :
      find token_expires_at_annotation s.meta.annotations
      ≡ some (clock.format_rfc3339 tok.expires_at)
  pub owned : IsOwned gr s.meta

module _ {W : Type 0} (clock : Clock W) (gr : GitRepository) (tok : TokenResult) where
  -- What the server sets does not matter to it.
  HoldsToken-along :
      (s o : Secret)
      → sent_secret s ≡ sent_secret o
      → HoldsToken clock gr tok o
      → HoldsToken clock gr tok s
  HoldsToken-along s o same h = record {
    token = ap (λ (y : Secret). y.contents) same ∙ h.token;
    expiry =
        ap (λ (y : Secret). find token_expires_at_annotation y.meta.annotations) same ∙ h.expiry;
    owned = ap (λ (y : Secret). at_key managed_by_annotation y.meta.annotations) same ∙ h.owned;
  }

  desired-HoldsToken :
      (namespace name : String)
      → HoldsToken clock gr tok (desired_secret clock gr namespace name tok)
  unfolding desired_secret lookup
  desired-HoldsToken namespace name = record { token = refl; expiry = refl; owned = refl }

  updated-HoldsToken :
      (namespace name : String) (x : Secret)
      → HoldsToken clock gr tok
          (updated_secret clock x (desired_secret clock gr namespace name tok))
  unfolding desired_secret updated_secret lookup
  updated-HoldsToken namespace name x = record {
    token = refl;
    expiry = simp lookup-insert;
    owned = simp lookup-insert;
  }

  updated-IsKept :
      (namespace name : String) (x : Secret)
      → IsKept x.meta
      → IsKept (updated_secret clock x (desired_secret clock gr namespace name tok)).meta
  unfolding updated_secret
  updated-IsKept namespace name x h = h

module _ {W : Type 0} (clock : Clock W) (mcp : McpClient W) (L : McpLaws mcp) where
  pub sync_secret-HoldsToken :
      (gr : GitRepository) (namespace name : String) (tok : TokenResult) (w : W)
      → (sync_secret clock mcp gr namespace name tok w).0 ≡ ok tt
      → (s : Secret) × (L.secrets.view
            (sync_secret clock mcp gr namespace name tok w).1
            (record { namespace = namespace; name = name })
          ≡ some s)
        × HoldsToken clock gr tok s
  unfolding sync_secret
  sync_secret-HoldsToken gr namespace name tok w h =
      let k : NamespacedName = record { namespace = namespace; name = name } in
      let d : Secret = desired_secret clock gr namespace name tok in
      let w₁ : W = (mcp.secrets.get k w).1 in
      elim (Result-cases (mcp.secrets.get k w).0) [
        | inl (x, r) ↦
            let at_k : key_of x.meta ≡ k = L.secrets.get_key k w x r in
            let h' : (mcp.secrets.update (updated_secret clock x d) w₁).0 ≡ ok tt = rw r at h in
            let (s, kept, same) =
              L.secrets.update_ok (updated_secret clock x d) w₁
                (updated-IsKept clock gr tok namespace name x (L.secrets.get_kept k w x r)) h' in
            (
              s,
              rw r (
                  subst
                    (λ j.
                      L.secrets.view (mcp.secrets.update (updated_secret clock x d) w₁).1 j
                      ≡ some s)
                    at_k kept),
              HoldsToken-along clock gr tok s (updated_secret clock x d) same
                  (updated-HoldsToken clock gr tok namespace name x),
            )
        | inr (e, r) ↦ elim (Bool-cases e.not_found) [
          | inl gone ↦
              let (s, kept, same) = L.secrets.create_ok d w₁ (rw (r, gone) at h) in
              (
                s,
                rw (r, gone) kept,
                HoldsToken-along clock gr tok s d same
                    (desired-HoldsToken clock gr tok namespace name),
              )
          | inr other ↦ absurd (err≢ok (rw (r, other) at h))
        ]
      ]

-- The state of the MCP after a Reconcile that wrote the token `tok`.
pub record Synced {W : Type 0} (clock : Clock W) {mcp : McpClient W} (L : McpLaws mcp)
    (gr : GitRepository) (flux_namespace : String) (tok : TokenResult) (w : W) : Type 0 where
  pub secret : Secret
  pub flux : FluxGitRepository
  pub secret_stored : L.secrets.view w (secret_key gr flux_namespace) ≡ some secret
  pub holds_token : HoldsToken clock gr tok secret
  pub flux_stored : L.flux.view w (flux_key gr flux_namespace) ≡ some flux
  pub flux_spec : flux.spec ≡ flux_git_repository_spec gr (secret_name gr)
  pub flux_owned : IsOwned gr flux.meta

module _ {W : Type 0} (clock : Clock W) (mcp : McpClient W) (L : McpLaws mcp) (gr : GitRepository)
    (flux_namespace : String) (id : ℤ) (minter : TokenMinter W) where
  abbrev mint : Eff W (Result TokenResult)
  mint = minter.mint_scoped_token id ""

  abbrev write_secret : TokenResult → Eff W (Result (Unit {0}))
  write_secret tok = sync_secret clock mcp gr flux_namespace (secret_name gr) tok

  abbrev write_flux : Eff W (Result Bool)
  write_flux = sync_flux_git_repository mcp gr flux_namespace (secret_name gr)

  -- A Reconcile that succeeds has minted the token, written the Secret and decided on the conflict.
  pub reconcile-steps :
      (w : W) (o : Outcome)
      → (reconcile clock mcp gr flux_namespace id minter w).0 ≡ ok o
      → (tok : TokenResult) × ((mint w).0 ≡ ok tok)
        × ((write_secret tok (mint w).1).0 ≡ ok tt)
        × ((write_flux (write_secret tok (mint w).1).1).0 ≡ ok o.conflict)
        × (o.token_expires_at ≡ tok.expires_at)
        × ((reconcile clock mcp gr flux_namespace id minter w).1
            ≡ (write_flux (write_secret tok (mint w).1).1).1)
  unfolding reconcile
  reconcile-steps w o h =
      let (tok, minted, h₁) = try-eq-ok mint (wrap "minting token: ") _ w h in
      let (x, written, h₂) =
        try-eq-ok (write_secret tok) (wrap "syncing Secret: ") _ (mint w).1 h₁ in
      let (c, decided, h₃) =
        try-eq-ok write_flux (wrap "syncing Flux GitRepository: ") _ (write_secret tok (mint w).1).1
          h₂ in
      let same : record { token_expires_at = tok.expires_at; conflict = c } ≡ o = ok-injective h₃ in
      (
        tok,
        minted,
        written,
        decided ∙ ap ok (ap (λ x. x.conflict) same),
        sym (ap (λ x. x.token_expires_at) same),
        rw (minted, written, decided) refl,
      )

  -- On an API server that obeys McpLaws, if Reconcile succeeds with no conflict, the MCP holds the
  -- minted token with its expiry in a Secret, and a Flux GitRepository with the wanted spec, both
  -- marked as owned; the expiry that is returned is the token's.
  pub reconcile-Synced :
      (w : W) (o : Outcome)
      → (reconcile clock mcp gr flux_namespace id minter w).0 ≡ ok o
      → o.conflict ≡ false
      → (tok : TokenResult) × ((mint w).0 ≡ ok tok)
        × (o.token_expires_at ≡ tok.expires_at)
        × Synced clock L gr flux_namespace tok (reconcile clock mcp gr flux_namespace id minter w).1
  reconcile-Synced w o h clean =
      let (tok, minted, written, decided, same, end) = reconcile-steps w o h in
      let w₂ : W = (write_secret tok (mint w).1).1 in
      let (s, stored, holds) =
        sync_secret-HoldsToken clock mcp L gr flux_namespace (secret_name gr) tok (mint w).1
          written in
      let (f, kept, spec, owned) =
        sync_flux-FluxWritten mcp L gr flux_namespace (secret_name gr) w₂ (decided ∙ ap ok clean) in
      (
        tok,
        minted,
        same,
        record {
          secret = s;
          flux = f;
          secret_stored = rw (end, sync_flux-frame mcp L) stored;
          holds_token = holds;
          flux_stored = rw end kept;
          flux_spec = spec;
          flux_owned = owned;
        },
      )
