-- ===== src/Controller/GitRepository/Reconcile/Ambiguity.antt =====
-- An instance with several credential Secrets, one of which the AppInstallation names.
use platform_service_gitops.Controller.GitRepository.Base.{GitRepositoryReconciler}
use platform_service_gitops.Controller.{Runtime, again_after, requeue_interval}
use platform_service_gitops.Prelude.{List, refl, ◌∷◌, ◌≡◌, length, ◌<>◌}
use platform_service_gitops.McpAccess.{ResolvedTarget}
use platform_service_gitops.K8s.Meta.{condition_true}
use platform_service_gitops.K8s.Memory.{found}
use platform_service_gitops.Api.GithubInstance.{GithubInstance, SecretReference}
use platform_service_gitops.Api.GitRepository.{GitRepository}
use platform_service_gitops.Api.AppInstallation.{AppInstallation}
use platform_service_gitops.Go.Int.{ℤ, pos}
use platform_service_gitops.Go.Error.{Error, err, ok, errorf}
use platform_service_gitops.Controller.GitRepository.Reconcile.{
  reconcile_resolution, report, requeue_result,
}
use platform_service_gitops.Controller.GitRepository.Credential.{resolve_github_creds, resolved}
use platform_service_gitops.Controller.GitRepository.Propagation.{reconcile_propagate}
use platform_service_gitops.Credentials.{resolve, select_secret_ref, sole_ref}

module _ {W : Type 0} (rt : Runtime W) (r : GitRepositoryReconciler W) where
  -- The credentials for propagation are resolved with no name, so they are refused.
  resolve_github_creds-refused :
      (ai : AppInstallation) (inst : GithubInstance) (a b : SecretReference)
      (refs : List SecretReference) (w : W)
      → inst.spec.secret_refs ≡ a ∷ b ∷ refs
      → (r.platform.github_instances.get
          (record { namespace = ""; name = ai.spec.instance_ref.name })
          w).0
        ≡ ok inst
      → (e : Error) × ((resolve_github_creds rt r ai w).0 ≡ err e)
  unfolding resolve_github_creds resolve select_secret_ref sole_ref
  resolve_github_creds-refused ai inst a b refs w listed read = (
    errorf (
        "credentialName must be set: instance lists "
        <> (rt.fmt.decimal (pos (length (a ∷ b ∷ refs))) <> " secrets")),
    rw (read, listed) refl,
  )

  -- If the targets are resolved and the instance is read and lists two credential Secrets or more,
  -- the pass goes on from reading the credentials to the report of Ready True with the states of
  -- the targets as they were, whatever name the AppInstallation gives.
  pub propagation_refused :
      (original gr : GitRepository) (ai : AppInstallation) (id : ℤ) (ts : List (ResolvedTarget W))
      (inst : GithubInstance) (a b : SecretReference) (refs : List SecretReference) (w : W)
      → let w₁ = (r.mcp_resolver.resolve gr r.onboarding.control_planes w).1 in
        (r.mcp_resolver.resolve gr r.onboarding.control_planes w).0 ≡ ok ts
        → inst.spec.secret_refs ≡ a ∷ b ∷ refs
        → (r.platform.github_instances.get
            (record { namespace = ""; name = ai.spec.instance_ref.name })
            w₁).0
          ≡ ok inst
        → reconcile_resolution rt r original gr (resolved ai id) w
          ≡ report rt r original gr condition_true "CredentialResolved"
              "Credentials resolved; propagation in progress."
              (again_after requeue_interval)
              (resolve_github_creds rt r ai w₁).1
  unfolding reconcile_resolution reconcile_propagate requeue_result
  propagation_refused original gr ai id ts inst a b refs w found listed read =
      let (e, refused) =
        resolve_github_creds-refused ai inst a b refs
          (r.mcp_resolver.resolve gr r.onboarding.control_planes w).1 listed read in
      rw (found, refused) refl
