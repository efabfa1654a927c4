-- ===== src/Controller/GitRepository/Sequence/Calls.antt =====
-- internal/controller/core/gitrepository_controller.go: a pass keeps a property of the world that
-- every call which it makes keeps.
use platform_service_gitops.K8s.Objects.{McpClient}
use platform_service_gitops.McpAccess.{ResolvedTarget}
use platform_service_gitops.Controller.GitRepository.Base.{
  GitRepositoryReconciler, set_condition, app_installed_condition, kind_app_installation,
}
use platform_service_gitops.Credentials
use platform_service_gitops.GithubApp.{Credentials}
use platform_service_gitops.Propagate.Elsewhere.{Safe}
use platform_service_gitops.Controller.{Runtime}
use platform_service_gitops.Prelude.{List, Option, String, ◌≡◌, not, ◌==◌, ◌||◌}
use platform_service_gitops.Propagate.{TokenMinter}
use platform_service_gitops.K8s.Meta.{Condition, NamespacedName, ConditionStatus, condition_false}
use platform_service_gitops.Api.GitRepository.{GitRepository, PropagateStatus}
use platform_service_gitops.Go.Invariant.{
  Preserves, Preserves-fail, Preserves-if, Preserves-pure, Preserves-try,
}
use platform_service_gitops.Go.Int.{ℤ, is_zero}
use platform_service_gitops.Go.Error.{ok, Result, err}
use platform_service_gitops.Credentials.{read_secret, select_secret_ref}
use platform_service_gitops.Api.GithubInstance.{SecretReference}
use platform_service_gitops.Api.AppInstallation.{AppInstallation}
use platform_service_gitops.Go.Eff.{fail}
use platform_service_gitops.Controller.GitRepository.Credential.{
  credential_key, judge, reject, resolve_credential, resolve_github_creds, set_resolved,
}
use platform_service_gitops.McpAccess.Access.Clusters.{AllClusters, HasCluster}
use platform_service_gitops.Controller.GitRepository.Status.{
  filter_propagate_status, set_propagate_status,
}

module _ {W : Type 0} (P : W → Type 0) where
  -- Every cluster among the targets is one whose calls keep `P`.
  abbrev pub SafeCluster : Option (McpClient W) → Type 0
  SafeCluster = HasCluster (Safe P)

  abbrev pub SafeTargets : List (ResolvedTarget W) → Type 0
  SafeTargets = AllClusters (Safe P)

  -- The calls of a pass outside the MCPs keep `P`, and the resolver gives access to clusters whose
  -- calls keep it. Where `P` holds, the states of the targets of an object that is read are as `G`
  -- says; the two functions on such states keep `G`; and only objects that are so are written.
  pub record SafeCalls (G : List PropagateStatus → Type 0) (rt : Runtime W)
      (r : GitRepositoryReconciler W) : Type 0 where
    pub now : Preserves P rt.clock.now
    pub set_status_condition :
        (cs : List Condition) (c : Condition)
        → Preserves P (rt.conditions.set_status_condition cs c)
    pub get : (k : NamespacedName) → Preserves P (r.onboarding.git_repositories.get k)
    pub found :
        (k : NamespacedName) (w : W) (gr : GitRepository)
        → P w
        → (r.onboarding.git_repositories.get k w).0 ≡ ok gr
        → G gr.status.propagated
    pub set_states :
        (list : List PropagateStatus) (ps : PropagateStatus)
        → G list
        → G (set_propagate_status list ps)
    pub filter_states :
        (list : List PropagateStatus) (names : List String)
        → G list
        → G (filter_propagate_status list names)
    pub update :
        (gr : GitRepository)
        → G gr.status.propagated
        → Preserves P (r.onboarding.git_repositories.update gr)
    pub patch_status :
        (old new : GitRepository)
        → G new.status.propagated
        → Preserves P (r.onboarding.git_repositories.patch_status old new)
    pub get_installation : (k : NamespacedName) → Preserves P (r.onboarding.app_installations.get k)
    pub get_instance : (k : NamespacedName) → Preserves P (r.platform.github_instances.get k)
    pub get_secret : (k : NamespacedName) → Preserves P (r.platform.secrets.get k)
    pub resolve :
        (gr : GitRepository) → Preserves P (r.mcp_resolver.resolve gr r.onboarding.control_planes)
    pub resolved :
        (gr : GitRepository) (w : W) (ts : List (ResolvedTarget W))
        → (r.mcp_resolver.resolve gr r.onboarding.control_planes w).0 ≡ ok ts
        → SafeTargets ts
    pub cleanup :
        (gr : GitRepository) (namespace name : String)
        → Preserves P (r.mcp_resolver.cleanup gr namespace name)
    pub mint :
        (creds : Credentials) (minter : TokenMinter W) (id : ℤ)
        → r.new_minter creds ≡ ok minter
        → Preserves P (minter.mint_scoped_token id "")

module _ {W : Type 0} {P : W → Type 0} {G : List PropagateStatus → Type 0} (rt : Runtime W)
    (r : GitRepositoryReconciler W) (s : SafeCalls P G rt r) where
  set_resolved-safe :
      (gr : GitRepository) (status : ConditionStatus) (reason message : String)
      → Preserves P (set_resolved rt r gr status reason message)
  unfolding set_resolved set_condition
  set_resolved-safe gr status reason message = record {
    at = λ w h. (s.set_status_condition _ _).at _ (s.now.at w h);
  }

  reject-safe :
      (gr : GitRepository) (reason message : String) → Preserves P (reject rt r gr reason message)
  reject-safe gr reason message = record {
    at = λ w h. (set_resolved-safe gr condition_false reason message).at w h;
  }

  judge-safe : (gr : GitRepository) (ai : AppInstallation) → Preserves P (judge rt r gr ai)
  unfolding judge
  judge-safe gr ai =
      Preserves-if
        (not (rt.conditions.is_status_condition_true ai.status.conditions app_installed_condition)
          || is_zero ai.status.installation_id)
        _ _ (λ _. reject-safe gr _ _)
        (λ _. record { at = λ w h. (set_resolved-safe gr _ _ _).at w h })

  pub resolve_credential-safe : (gr : GitRepository) → Preserves P (resolve_credential rt r gr)
  unfolding resolve_credential
  resolve_credential-safe gr =
      Preserves-if (not (gr.spec.credential_ref.kind == kind_app_installation)) _ _
        (λ _. reject-safe gr _ _)
        (λ _.
          Preserves-try _ _ _ (s.get_installation (credential_key gr)) (λ e. reject-safe gr _ _)
            (λ ai. judge-safe gr ai))

  read_secret-safe :
      (ref : SecretReference) (namespace : String)
      → Preserves P (read_secret rt.fmt r.platform ref namespace)
  unfolding read_secret
  read_secret-safe ref namespace =
      Preserves-try _ _ _ (s.get_secret _)
        (λ e. Preserves-if e.not_found _ _ (λ _. Preserves-fail _) (λ _. Preserves-fail _))
        (λ x. Preserves-pure _)

  pub creds-safe : (ai : AppInstallation) → Preserves P (resolve_github_creds rt r ai)
  unfolding resolve_github_creds Credentials.resolve
  creds-safe ai =
      Preserves-try _ _ _ (s.get_instance _)
        (λ e. Preserves-if e.not_found _ _ (λ _. Preserves-fail _) (λ _. Preserves-fail _))
        (λ inst. selected (select_secret_ref rt.fmt inst.spec.secret_refs ""))
    where
      selected :
          (x : Result SecretReference)
          → Preserves P (elim x [
            | err e ↦ fail e
            | ok ref ↦ read_secret rt.fmt r.platform ref r.credential_namespace
          ])
      selected (err e) = Preserves-fail e
      selected (ok ref) = read_secret-safe ref r.credential_namespace
