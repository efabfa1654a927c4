-- ===== src/Controller/GitRepository/Sequence/Passes.antt =====
-- internal/controller/core/gitrepository_controller.go: reconcilePropagate and the cleanup of the
-- targets keep a property of the world that every call keeps.
use platform_service_gitops.Propagate.Elsewhere.{
  Safe, reconcile-safe, needs_rotation-safe, cleanup-safe,
}
use platform_service_gitops.Controller.GitRepository.Sequence.Calls.{
  SafeCalls, SafeTargets, SafeCluster, creds-safe,
}
use platform_service_gitops.Controller.{Runtime, requeue_interval}
use platform_service_gitops.Prelude.{
  List, Option, [], none, refl, some, ◌∷◌, ◌≡◌, Bool-cases, inl, inr,
}
use platform_service_gitops.McpAccess.{ResolvedTarget}
use platform_service_gitops.Propagate.{TokenMinter, needs_rotation}
use platform_service_gitops.K8s.Objects.{McpClient}
use platform_service_gitops.Api.GitRepository.{GitRepository, token_failed, PropagateStatus}
use platform_service_gitops.Api.AppInstallation.{AppInstallation}
use platform_service_gitops.Go.Eff.{pure, Eff}
use platform_service_gitops.Go.Invariant.{
  Preserves, Preserves-bind, Preserves-if, Preserves-pure, Preserves-try, Preserves-try_at,
}
use platform_service_gitops.Go.Int.{pos, ℤ}
use platform_service_gitops.Go.Time.{Duration, Time}
use platform_service_gitops.Go.Error.{Result, err, ok, Error}
use platform_service_gitops.Controller.GitRepository.Target.{
  current_token_expiry, reconcile_target, status_of, sync_target,
}
use platform_service_gitops.Controller.GitRepository.Base.{GitRepositoryReconciler}
use platform_service_gitops.Controller.GitRepository.Propagation.{
  next_deadline, reconcile_propagate, sync_all, sync_targets, with_propagated,
}
use platform_service_gitops.Controller.GitRepository.Status.{set_propagate_status}
use platform_service_gitops.Controller.GitRepository.Deletion.{
  cleanup_cluster, cleanup_targets, collect,
}

module _ {W : Type 0} {P : W → Type 0} {G : List PropagateStatus → Type 0} (rt : Runtime W)
    (r : GitRepositoryReconciler W) (s : SafeCalls P G rt r) where
  expiry-safe :
      (mcp : McpClient W)
      → Safe P mcp
      → (gr : GitRepository) → Preserves P (current_token_expiry rt r mcp gr)
  unfolding current_token_expiry
  expiry-safe mcp c gr =
      Preserves-try _ _ _ (c.get_secret _) (λ _. Preserves-pure none) (λ x. Preserves-pure _)

  module _ (gr : GitRepository) (id : ℤ) (minter : TokenMinter W)
      (minted : Preserves P (minter.mint_scoped_token id "")) where
    sync_target-safe :
        (t : ResolvedTarget W) (mcp : McpClient W)
        → Safe P mcp
        → Preserves P (sync_target rt r gr t mcp id minter)
    unfolding sync_target
    sync_target-safe t mcp c = record {
      at = λ w h.
          let due = needs_rotation rt.clock mcp gr r.flux_namespace r.token_renew_buffer in
          let after : P (due w).1 =
            (needs_rotation-safe mcp c rt.clock gr r.flux_namespace r.token_renew_buffer s.now).at w
              h in
          elim (Bool-cases (due w).0) [
            | inl p ↦ rw p (
                (reconcile-safe mcp c rt.clock gr r.flux_namespace id minter minted).at (due w).1
                  after)
            | inr p ↦ rw p ((expiry-safe mcp c gr).at (due w).1 after)
          ];
    }

    target-safe :
        (t : ResolvedTarget W)
        → SafeCluster P t.cluster
        → Preserves P (reconcile_target rt r gr t id minter)
    unfolding reconcile_target
    target-safe t c = Preserves-if t.pending _ _ (λ _. Preserves-pure _) (λ _. granted t.cluster c)
      where
        granted :
            (cluster : Option (McpClient W))
            → SafeCluster P cluster
            → Preserves P (elim cluster [
              | none ↦ pure (
                  status_of rt r t token_failed "ClusterAccessFailed"
                    "MCP cluster access could not be obtained." none)
              | some mcp ↦ sync_target rt r gr t mcp id minter
            ])
        granted none c = Preserves-pure _
        granted (some mcp) c = sync_target-safe t mcp c

  deadline-safe :
      (t : Option Time) (earliest : Duration) → Preserves P (next_deadline rt r t earliest)
  deadline-safe none earliest = Preserves-pure earliest
  deadline-safe (some t) earliest = record { at = λ w h. s.now.at w h }

  sync_targets-safe :
      (ts : List (ResolvedTarget W)) (gr : GitRepository) (id : ℤ) (minter : TokenMinter W)
      (earliest : Duration)
      → Preserves P (minter.mint_scoped_token id "")
      → SafeTargets P ts
      → Preserves P (sync_targets rt r ts gr id minter earliest)
  unfolding sync_targets
  sync_targets-safe [] gr id minter earliest minted c = Preserves-pure _
  sync_targets-safe (t ∷ ts) gr id minter earliest minted c =
      Preserves-bind _ _ (target-safe gr id minter minted t c.0) (λ ps.
        Preserves-bind _ _ (deadline-safe ps.token_expires_at earliest) (λ e.
          sync_targets-safe ts (with_propagated gr (set_propagate_status gr.status.propagated ps))
            id minter e minted c.1))

  sync_all-safe :
      (ts : List (ResolvedTarget W)) (gr : GitRepository) (id : ℤ) (minter : TokenMinter W)
      → Preserves P (minter.mint_scoped_token id "")
      → SafeTargets P ts
      → Preserves P (sync_all rt r ts gr id minter)
  unfolding sync_all
  sync_all-safe ts gr id minter minted c = record {
    at = λ w h. (sync_targets-safe ts gr id minter (pos 0) minted c).at w h;
  }

  pub propagate-safe :
      (gr : GitRepository) (ai : AppInstallation) (id : ℤ)
      → Preserves P (reconcile_propagate rt r gr ai id)
  unfolding reconcile_propagate
  propagate-safe gr ai id =
      Preserves-try_at _ _ _ (s.resolve gr) (λ _ _ _ _. Preserves-pure _)
        (λ w ts _ got.
          Preserves-try _ _ _ (creds-safe rt r s ai) (λ _. Preserves-pure _)
            (λ creds.
              built ts (s.resolved gr w ts got) (r.new_minter creds)
                (λ minter. s.mint creds minter id)))
    where
      built :
          (ts : List (ResolvedTarget W))
          → SafeTargets P ts
          → (x : Result (TokenMinter W))
          → ((minter : TokenMinter W)
              → x ≡ ok minter
              → Preserves P (minter.mint_scoped_token id ""))
          → Preserves P (elim x [
            | err _ ↦ pure (gr, requeue_interval)
            | ok minter ↦ sync_all rt r ts gr id minter
          ])
      built ts c (err e) minted = Preserves-pure _
      built ts c (ok minter) minted = sync_all-safe ts gr id minter (minted minter refl) c

  collect-safe :
      (errs : List Error) (call : Eff W (Result (Unit {0})))
      → Preserves P call
      → Preserves P (collect errs call)
  collect-safe errs call h =
      Preserves-try call _ _ h (λ e. Preserves-pure _) (λ _. Preserves-pure _)

  cluster-safe :
      (gr : GitRepository) (cluster : Option (McpClient W)) (errs : List Error)
      → SafeCluster P cluster
      → Preserves P (cleanup_cluster rt r gr cluster errs)
  cluster-safe gr none errs c = Preserves-pure errs
  cluster-safe gr (some mcp) errs c = collect-safe errs _ (cleanup-safe mcp c gr r.flux_namespace)

  pub cleanup_targets-safe :
      (gr : GitRepository) (ts : List (ResolvedTarget W)) (errs : List Error)
      → SafeTargets P ts
      → Preserves P (cleanup_targets rt r gr ts errs)
  unfolding cleanup_targets
  cleanup_targets-safe gr [] errs c = Preserves-pure errs
  cleanup_targets-safe gr (t ∷ ts) errs c =
      Preserves-bind _ _
        (collect-safe errs _ (s.cleanup gr t.control_plane_namespace t.control_plane_name))
        (λ errs₁.
          Preserves-bind _ _ (cluster-safe gr t.cluster errs₁ c.0)
            (λ errs₂. cleanup_targets-safe gr ts errs₂ c.1))
