-- ===== src/Controller/GitRepository/Target/Repeat.antt =====
-- A pass over a target after one that has written the token: nothing is written again.
use platform_service_gitops.Controller.GitRepository.Target.{
  sync_target, current_token_expiry, outcome_status, status_of, up_to_date,
}
use platform_service_gitops.Controller.GitRepository.Target.RoundTrip.{Write, expiry-roundtrip}
use platform_service_gitops.Propagate.Elsewhere.{needs_rotation-Preserves}
use platform_service_gitops.Propagate.Elsewhere.Apart.{Keeps-On, Keeps-each}
use platform_service_gitops.Controller.{Runtime}
use platform_service_gitops.Prelude.{Bool, false, inl, inr, refl, ◌∙◌, ◌≡◌, String, ap}
use platform_service_gitops.McpAccess.{ResolvedTarget}
use platform_service_gitops.Propagate.{
  Outcome, TokenMinter, needs_rotation, secret_key, secret_name,
}
use platform_service_gitops.K8s.Meta.{NamespacedName}
use platform_service_gitops.K8s.Objects.{McpClient, Secret}
use platform_service_gitops.K8s.Laws.{Keeps}
use platform_service_gitops.Api.GitRepository.{GitRepository, PropagateStatus, ready}
use platform_service_gitops.Go.Eff.{Eff}
use platform_service_gitops.Go.Invariant.{Result-cases}
use platform_service_gitops.Go.Int.{ℤ, ◌<ℤ◌}
use platform_service_gitops.Go.Time.{until}
use platform_service_gitops.Go.Error.{ok}
use platform_service_gitops.Controller.GitRepository.Base.{GitRepositoryReconciler}
use platform_service_gitops.Propagate.Rotation.{decision_time}
use platform_service_gitops.Propagate.Laws.{McpLaws}

module _ {W : Type 0} (rt : Runtime W) (r : GitRepositoryReconciler W) (mcp : McpClient W)
    (gr : GitRepository) where
  abbrev pub Check : Eff W Bool
  Check = needs_rotation rt.clock mcp gr r.flux_namespace r.token_renew_buffer

  module _ {V : Type 0} (see : W → V)
      (get : (k : NamespacedName) → Keeps see (mcp.secrets.get k)) where
    Check-Keeps : Keeps see rt.clock.now → Keeps see Check
    Check-Keeps now = Keeps-each see Check (λ v.
        needs_rotation-Preserves mcp rt.clock gr r.flux_namespace r.token_renew_buffer
          (λ k. Keeps-On see (λ x. x ≡ v) (get k)) (Keeps-On see (λ x. x ≡ v) now))

    Read-Keeps : Keeps see (current_token_expiry rt r mcp gr)
    unfolding current_token_expiry
    Read-Keeps w = elim (Result-cases (mcp.secrets.get (secret_key gr r.flux_namespace) w).0) [
      | inl (s, p) ↦ rw p (get (secret_key gr r.flux_namespace) w)
      | inr (e, p) ↦ rw p (get (secret_key gr r.flux_namespace) w)
    ]

module _ {W : Type 0} (rt : Runtime W) (r : GitRepositoryReconciler W) (mcp : McpClient W)
    (L : McpLaws mcp) (gr : GitRepository) (id : ℤ) (minter : TokenMinter W) where
  -- The Secret can be read wherever the Secrets are those that `w` holds.
  abbrev pub Readable : W → Type 0
  Readable w =
      (v : W)
      → L.secrets.view v ≡ L.secrets.view w
      → (s : Secret) × ((mcp.secrets.get (secret_key gr r.flux_namespace) v).0 ≡ ok s)

  abbrev pub Pass : GitRepository → ResolvedTarget W → Eff W PropagateStatus
  Pass later target = sync_target rt r later target mcp id minter

  abbrev named : String → GitRepository
  named name = record gr { meta = record gr.meta { name = name } }

  module _ (later : GitRepository) (same_name : later.meta.name ≡ gr.meta.name) where
    -- The check of the expiry, and its reading, depend on the name only.
    Check-named : Check rt r mcp later ≡ Check rt r mcp gr
    unfolding needs_rotation secret_name
    Check-named = ap (λ n. Check rt r mcp (named n)) same_name

    Read-named : current_token_expiry rt r mcp later ≡ current_token_expiry rt r mcp gr
    unfolding current_token_expiry secret_name
    Read-named = ap (λ n. current_token_expiry rt r mcp (named n)) same_name

    fresh-Pass :
        (target : ResolvedTarget W) (v : W)
        → (Check rt r mcp gr v).0 ≡ false
        → Pass later target v ≡ (
            let read = current_token_expiry rt r mcp gr (Check rt r mcp gr v).1 in
            (status_of rt r target ready "Synced" up_to_date read.0, read.1))
    unfolding sync_target
    fresh-Pass target v fresh = rw (Check-named, Read-named, fresh) refl

  -- On an API server that obeys McpLaws, with a clock that leaves it alone: take a Reconcile that
  -- succeeded with no conflict, whose expiry survives printing and parsing. A pass over the target
  -- in a later world, for an object of the same name with whatever spec it has by then, where the
  -- Secrets are as it left them and can be read, and the expiry is more than the renew buffer away,
  -- reports the state that this Reconcile comes to, and leaves the Secrets and the Flux
  -- GitRepositories as they are.
  pub sync_target-repeats :
      (later : GitRepository) (target : ResolvedTarget W) (w v : W) (o : Outcome)
      → later.meta.name ≡ gr.meta.name
      → Keeps L.secrets.view rt.clock.now
      → Keeps L.flux.view rt.clock.now
      → (Write rt r mcp L gr id minter w).0 ≡ ok o
      → o.conflict ≡ false
      → L.secrets.view v ≡ L.secrets.view (Write rt r mcp L gr id minter w).1
      → Readable (Write rt r mcp L gr id minter w).1
      → rt.clock.parse_rfc3339 (rt.clock.format_rfc3339 o.token_expires_at) ≡ ok o.token_expires_at
      → r.token_renew_buffer
        <ℤ until o.token_expires_at
            (decision_time rt.clock mcp gr r.flux_namespace r.token_renew_buffer v)
      → ((Pass later target v).0 ≡ outcome_status rt r gr target (ok o))
        × (L.secrets.view (Pass later target v).1 ≡ L.secrets.view v)
        × (L.flux.view (Pass later target v).1 ≡ L.flux.view v)
  unfolding outcome_status
  sync_target-repeats later target w v o same_name now_secrets now_flux written clean same readable
        printed early =
      let (s, got) = readable v same in
      let checked = (Check rt r mcp gr v).1 in
      let kept : L.secrets.view checked ≡ L.secrets.view v =
        Check-Keeps rt r mcp gr L.secrets.view L.secrets.get_keeps now_secrets v in
      let (s', got') = readable checked (kept ∙ same) in
      let fresh =
        (expiry-roundtrip rt r mcp L gr id minter w v o s written clean same got printed).1.1
          early in
      let shown =
        (expiry-roundtrip rt r mcp L gr id minter w checked o s' written clean (kept ∙ same) got'
          printed).0 in
      let passed = fresh-Pass later same_name target v fresh in
      (
        ap (λ x. x.0) passed ∙ rw (shown, clean) refl,
        ap (λ x. L.secrets.view x.1) passed
            ∙ (Read-Keeps rt r mcp gr L.secrets.view L.secrets.get_keeps checked ∙ kept),
        ap (λ x. L.flux.view x.1) passed
            ∙ (Read-Keeps rt r mcp gr L.flux.view L.secrets_frame.get_frame checked
                ∙ Check-Keeps rt r mcp gr L.flux.view L.secrets_frame.get_frame now_flux v),
      )
