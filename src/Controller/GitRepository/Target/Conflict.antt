-- ===== src/Controller/GitRepository/Target/Conflict.antt =====
-- Conflicts over the Flux GitRepository in one pass of reconcileTarget and in a later one.
use platform_service_gitops.Propagate.FluxWrites.{sync_flux-frame}
use platform_service_gitops.Controller.GitRepository.Base.{GitRepositoryReconciler}
use platform_service_gitops.Propagate
use mathlib.Core.Path.{subst}
use mathlib.Core.Option.{some-injective}
use platform_service_gitops.Controller.{Runtime}
use platform_service_gitops.Prelude.{some, ◌≡◌, true, Bool, ap, false, refl, sym, ◌∙◌, arith}
use platform_service_gitops.GithubApp.{TokenResult}
use platform_service_gitops.Propagate.{
  Outcome, TokenMinter, secret_key, secret_name, needs_rotation, token_expires_at_annotation,
}
use platform_service_gitops.K8s.Objects.{McpClient, Secret}
use platform_service_gitops.Api.GitRepository.{GitRepository, conflict, ready}
use platform_service_gitops.Go.Eff.{Eff}
use platform_service_gitops.Go.Int.{ℤ, ◌<ℤ◌}
use platform_service_gitops.Go.Error.{Result, ok}
use platform_service_gitops.Propagate.Writes.{HoldsToken, reconcile-steps, sync_secret-HoldsToken}
use platform_service_gitops.Propagate.Laws.{McpLaws}
use platform_service_gitops.McpAccess.{ResolvedTarget}
use platform_service_gitops.Go.Time.{Time, until}
use platform_service_gitops.Controller.GitRepository.Target.{sync_target, outcome_status}
use platform_service_gitops.Propagate.Rotation.{decision_time, IsFresh, needs_rotation-eq-false_iff}
use platform_service_gitops.Go.Dict.{find}

module _ {W : Type 0} (rt : Runtime W) (r : GitRepositoryReconciler W) (mcp : McpClient W)
    (L : McpLaws mcp) (gr : GitRepository) (id : ℤ) (minter : TokenMinter W) where
  abbrev pub pass : Eff W (Result Outcome)
  pass = Propagate.reconcile rt.clock mcp gr r.flux_namespace id minter

  -- After any Reconcile that succeeds, conflict or not, the Secret holds the new token.
  pub pass-HoldsToken :
      (w : W) (o : Outcome)
      → (pass w).0 ≡ ok o
      → (tok : TokenResult) × (o.token_expires_at ≡ tok.expires_at)
        × ((s : Secret) × (L.secrets.view (pass w).1 (secret_key gr r.flux_namespace) ≡ some s)
            × HoldsToken rt.clock gr tok s)
  pass-HoldsToken w o h =
      let (tok, minted, written, decided, same, end) =
        reconcile-steps rt.clock mcp L gr r.flux_namespace id minter w o h in
      (
        tok,
        same,
        rw (end, sync_flux-frame mcp L)
            (sync_secret-HoldsToken rt.clock mcp L gr r.flux_namespace (secret_name gr) tok _
              written),
      )

  -- NeedsRotation as reconcileTarget calls it.
  abbrev pub check : Eff W Bool
  check = needs_rotation rt.clock mcp gr r.flux_namespace r.token_renew_buffer

  -- On an API server that obeys McpLaws, a rotation is due and the pass ends in a conflict, which
  -- is reported. If later the Secrets are as that pass left them, the token Secret is read, and its
  -- expiry is read back as a time more than the buffer away, then the target is reported Ready.
  pub conflict_hidden :
      (t : ResolvedTarget W) (w later : W) (o : Outcome) (s : Secret) (expires : Time)
      → (check w).0 ≡ true
      → (pass (check w).1).0 ≡ ok o
      → o.conflict ≡ true
      → L.secrets.view later ≡ L.secrets.view (pass (check w).1).1
      → (mcp.secrets.get (secret_key gr r.flux_namespace) later).0 ≡ ok s
      → rt.clock.parse_rfc3339 (rt.clock.format_rfc3339 o.token_expires_at) ≡ ok expires
      → r.token_renew_buffer
        <ℤ until expires (decision_time rt.clock mcp gr r.flux_namespace r.token_renew_buffer later)
      → ((sync_target rt r gr t mcp id minter w).0.phase ≡ conflict)
        × ((sync_target rt r gr t mcp id minter later).0.phase ≡ ready)
  unfolding sync_target
  conflict_hidden t w later o s expires due h c same read parsed fresh =
      let (tok, expiry, (s', stored, holds)) = pass-HoldsToken (check w).1 o h in
      let same_secret : s ≡ s' = some-injective s s' (
        sym (L.secrets.get_ok (secret_key gr r.flux_namespace) later s read)
        ∙ ap (λ v. v (secret_key gr r.flux_namespace)) same
        ∙ stored) in
      let is_fresh : IsFresh rt.clock r.token_renew_buffer
          (decision_time rt.clock mcp gr r.flux_namespace r.token_renew_buffer later) s =
        record {
          raw = rt.clock.format_rfc3339 o.token_expires_at;
          expires_at = expires;
          present =
              subst
                (λ x.
                  find token_expires_at_annotation x.meta.annotations
                  ≡ some (rt.clock.format_rfc3339 o.token_expires_at))
                (sym same_secret)
                (holds.expiry ∙ ap (λ x. some (rt.clock.format_rfc3339 x)) (sym expiry));
          valid = parsed;
          in_time = fresh;
        } in
      let quiet : (check later).0 ≡ false =
        (needs_rotation-eq-false_iff rt.clock mcp gr r.flux_namespace r.token_renew_buffer later s
            read).1
          is_fresh in
      (rw (due, h) (conflict_status c), rw quiet refl)
    where
      conflict_status : o.conflict ≡ true → (outcome_status rt r gr t (ok o)).phase ≡ conflict
      conflict_status q = ground arith
