-- ===== src/Propagate/Elsewhere.antt =====
-- Every operation of internal/propagate on one MCP beside a property of the world: the operations
-- keep what their calls keep. The property of interest is that a Flux GitRepository which no
-- GitRepository owns is stored at some key of some MCP.
pub mod Apart
pub mod Foreign
use platform_service_gitops.Propagate.{
  sync_secret, sync_flux_git_repository, reconcile, cleanup, delete_owned, flux_meta, secret_meta,
  needs_rotation, rotation_due, TokenMinter, secret_name, managed_by_value, desired_flux,
  flux_git_repository_spec, flux_key, managed_by_annotation, no_conflict,
}
use mathlib.Core.Path.{subst}
use mathlib.Core.Option.{some-injective}
use platform_service_gitops.K8s.Client.{Client}
use platform_service_gitops.K8s.Objects.{Secret, McpClient, FluxGitRepository}
use platform_service_gitops.Prelude.{
  Option, String, inl, inr, none, some, true, ap, ◌∙◌, ◌≡◌, Bool-cases, false, sym, eq_iff, ◌==◌,
}
use platform_service_gitops.GithubApp.{TokenResult, mint_scoped_token}
use platform_service_gitops.K8s.Meta.{NamespacedName, key_of, same_key}
use platform_service_gitops.Api.GitRepository.{GitRepository}
use platform_service_gitops.Go.Invariant.{
  Preserves, Preserves-fail, Preserves-if, Preserves-pure, Preserves-try, Result-cases,
  Preserves-try_at,
}
use platform_service_gitops.Go.Int.{ℤ}
use platform_service_gitops.Go.Time.{Clock, Duration}
use platform_service_gitops.K8s.Laws.{FrameLaws, Keeps}
use platform_service_gitops.Go.Eff.{Eff}
use platform_service_gitops.Propagate.Cleanup.{delete_owned-frame}
use platform_service_gitops.K8s.Memory.{same_key-true}
use platform_service_gitops.Propagate.Laws.{IsOwned, McpLaws}
use platform_service_gitops.Go.Dict.{at_key}
use platform_service_gitops.Go.Error.{Error, Result, err, ok}
use platform_service_gitops.Propagate.Ownership.{delete_owned-foreign, delete_owned-other}

-- The calls on one MCP keep `P`: those on Secrets one by one, and the two operations that write
-- Flux GitRepositories.
pub record Safe {W : Type 0} (P : W → Type 0) (mcp : McpClient W) : Type 0 where
  pub get_secret : (k : NamespacedName) → Preserves P (mcp.secrets.get k)
  pub create_secret : (s : Secret) → Preserves P (mcp.secrets.create s)
  pub update_secret : (s : Secret) → Preserves P (mcp.secrets.update s)
  pub delete_secret :
      (gr : GitRepository) (message : String) (k : NamespacedName)
      → Preserves P (delete_owned mcp.secrets secret_meta (managed_by_value gr) message k)
  pub sync_flux :
      (gr : GitRepository) (namespace name : String)
      → Preserves P (sync_flux_git_repository mcp gr namespace name)
  pub delete_flux :
      (gr : GitRepository) (message : String) (k : NamespacedName)
      → Preserves P
          (delete_owned mcp.flux_git_repositories flux_meta (managed_by_value gr) message k)

module _ {W : Type 0} {P : W → Type 0} (mcp : McpClient W) where
  rotation_due-Preserves :
      (clock : Clock W) (buffer : Duration) (raw : Option String)
      → Preserves P clock.now
      → Preserves P (rotation_due clock mcp buffer raw)
  rotation_due-Preserves clock buffer none now = Preserves-pure true
  rotation_due-Preserves clock buffer (some raw) now = record {
    at = λ w h. elim (Result-cases (clock.parse_rfc3339 raw)) [
      | inr (e, r) ↦ rw (r, rotation_due) h
      | inl (t, r) ↦ rw (r, rotation_due) (now.at w h)
    ];
  }

  pub needs_rotation-Preserves :
      (clock : Clock W) (gr : GitRepository) (flux_namespace : String) (buffer : Duration)
      → ((k : NamespacedName) → Preserves P (mcp.secrets.get k))
      → Preserves P clock.now
      → Preserves P (needs_rotation clock mcp gr flux_namespace buffer)
  unfolding needs_rotation
  needs_rotation-Preserves clock gr flux_namespace buffer get now =
      Preserves-try _ _ _ (get _) (λ e. Preserves-pure e.not_found)
        (λ x. rotation_due-Preserves clock buffer _ now)

module _ {W : Type 0} {P : W → Type 0} (mcp : McpClient W) (s : Safe P mcp) where
  sync_secret-safe :
      (clock : Clock W) (gr : GitRepository) (namespace name : String) (tok : TokenResult)
      → Preserves P (sync_secret clock mcp gr namespace name tok)
  unfolding sync_secret
  sync_secret-safe clock gr namespace name tok =
      Preserves-try _ _ _ (s.get_secret _)
        (λ e. Preserves-if e.not_found _ _ (λ _. s.create_secret _) (λ _. Preserves-fail _))
        (λ x. s.update_secret _)

  pub reconcile-safe :
      (clock : Clock W) (gr : GitRepository) (flux_namespace : String) (id : ℤ)
      (minter : TokenMinter W)
      → Preserves P (minter.mint_scoped_token id "")
      → Preserves P (reconcile clock mcp gr flux_namespace id minter)
  unfolding reconcile
  reconcile-safe clock gr flux_namespace id minter minted =
      Preserves-try _ _ _ minted (λ e. Preserves-fail _)
        (λ tok.
          Preserves-try _ _ _ (sync_secret-safe clock gr flux_namespace (secret_name gr) tok)
            (λ e. Preserves-fail _)
            (λ _.
              Preserves-try _ _ _ (s.sync_flux gr flux_namespace (secret_name gr))
                (λ e. Preserves-fail _) (λ c. Preserves-pure _)))

  pub cleanup-safe :
      (gr : GitRepository) (flux_namespace : String) → Preserves P (cleanup mcp gr flux_namespace)
  unfolding cleanup
  cleanup-safe gr flux_namespace =
      Preserves-try _ _ _ (s.delete_flux gr _ _) (λ e. Preserves-fail e)
        (λ _. s.delete_secret gr _ _)

  pub needs_rotation-safe :
      (clock : Clock W) (gr : GitRepository) (flux_namespace : String) (buffer : Duration)
      → Preserves P clock.now
      → Preserves P (needs_rotation clock mcp gr flux_namespace buffer)
  needs_rotation-safe clock gr flux_namespace buffer =
      needs_rotation-Preserves mcp clock gr flux_namespace buffer s.get_secret

module _ {W : Type 0} {P : W → Type 0} (mcp : McpClient W) where
  no_conflict-Preserves :
      (m : Eff W (Result (Unit {0}))) → Preserves P m → Preserves P (no_conflict m)
  no_conflict-Preserves m h = Preserves-try m _ _ h (λ e. Preserves-fail e) (λ _. Preserves-pure _)

  -- The Flux GitRepository is written only where the Get found none or one of the GitRepository's.
  pub sync_flux-Preserves :
      (gr : GitRepository) (namespace name : String)
      → Preserves P (mcp.flux_git_repositories.get (flux_key gr namespace))
      → ((w : W) (e : Error)
          → P w
          → (mcp.flux_git_repositories.get (flux_key gr namespace) w).0 ≡ err e
          → e.not_found ≡ true
          → Preserves P (mcp.flux_git_repositories.create (desired_flux gr namespace name)))
      → ((w : W) (o : FluxGitRepository)
          → P w
          → (mcp.flux_git_repositories.get (flux_key gr namespace) w).0 ≡ ok o
          → IsOwned gr o.meta
          → Preserves P (
              mcp.flux_git_repositories.update
                (record o { spec = flux_git_repository_spec gr name })))
      → Preserves P (sync_flux_git_repository mcp gr namespace name)
  unfolding sync_flux_git_repository
  sync_flux-Preserves gr namespace name get create update =
      Preserves-try_at _ _ _ get
        (λ w e h r.
          Preserves-if e.not_found _ _ (λ gone. no_conflict-Preserves _ (create w e h r gone))
            (λ _. Preserves-fail _))
        (λ w o h r.
          Preserves-if (at_key managed_by_annotation o.meta.annotations == managed_by_value gr) _ _
            (λ owned. no_conflict-Preserves _ (update w o h r ((eq_iff _ _).0 owned)))
            (λ _. Preserves-pure _))
