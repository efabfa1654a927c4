-- ===== src/Controller/GitRepository/Sequence/Frames.antt =====
-- internal/controller/core/gitrepository_controller.go: calls of a pass that leave a part of the world
-- alone, and those that write GitRepositories.
use platform_service_gitops.GithubApp.{Credentials}
use platform_service_gitops.Controller.GitRepository.Sequence.Calls.{SafeCalls, SafeTargets}
use platform_service_gitops.Propagate.Elsewhere.Apart.{On, Keeps-On}
use platform_service_gitops.Controller.{Runtime}
use platform_service_gitops.Prelude.{List, String, ◌≡◌}
use platform_service_gitops.McpAccess.{ResolvedTarget}
use platform_service_gitops.Propagate.{TokenMinter}
use platform_service_gitops.K8s.Meta.{Condition, NamespacedName}
use platform_service_gitops.K8s.Laws.{Keeps}
use platform_service_gitops.Api.GitRepository.{GitRepository, PropagateStatus}
use platform_service_gitops.Go.Invariant.{Preserves}
use platform_service_gitops.Go.Int.{ℤ}
use platform_service_gitops.Go.Error.{ok}
use platform_service_gitops.Controller.GitRepository.Base.{GitRepositoryReconciler}
use platform_service_gitops.Controller.GitRepository.Status.{
  filter_propagate_status, set_propagate_status,
}

-- The calls outside the MCPs that do not write GitRepositories, the resolver's aside, leave what is
-- looked at alone.
pub record Quiet {W V : Type 0} (see : W → V) (rt : Runtime W) (r : GitRepositoryReconciler W)
    : Type 0 where
  pub now : Keeps see rt.clock.now
  pub set_status_condition :
      (cs : List Condition) (c : Condition) → Keeps see (rt.conditions.set_status_condition cs c)
  pub get : (k : NamespacedName) → Keeps see (r.onboarding.git_repositories.get k)
  pub get_installation : (k : NamespacedName) → Keeps see (r.onboarding.app_installations.get k)
  pub get_instance : (k : NamespacedName) → Keeps see (r.platform.github_instances.get k)
  pub get_secret : (k : NamespacedName) → Keeps see (r.platform.secrets.get k)
  pub mint :
      (creds : Credentials) (minter : TokenMinter W) (id : ℤ)
      → r.new_minter creds ≡ ok minter
      → Keeps see (minter.mint_scoped_token id "")

-- So do the calls of the resolver.
pub record Frames {W V : Type 0} (see : W → V) (rt : Runtime W) (r : GitRepositoryReconciler W)
    : Type 0 where
  pub quiet : Quiet see rt r
  pub resolve :
      (gr : GitRepository) → Keeps see (r.mcp_resolver.resolve gr r.onboarding.control_planes)
  pub cleanup :
      (gr : GitRepository) (namespace name : String)
      → Keeps see (r.mcp_resolver.cleanup gr namespace name)

-- The calls that write GitRepositories, and the states that are written.
pub record Writes {W : Type 0} (P : W → Type 0) (G : List PropagateStatus → Type 0)
    (r : GitRepositoryReconciler W) : Type 0 where
  pub found :
      (k : NamespacedName) (w : W) (gr : GitRepository)
      → P w
      → (r.onboarding.git_repositories.get k w).0 ≡ ok gr
      → G gr.status.propagated
  pub set_states :
      (list : List PropagateStatus) (ps : PropagateStatus)
      → G list
      → G (set_propagate_status list ps)
  pub filter_states :
      (list : List PropagateStatus) (names : List String)
      → G list
      → G (filter_propagate_status list names)
  pub update :
      (gr : GitRepository)
      → G gr.status.propagated
      → Preserves P (r.onboarding.git_repositories.update gr)
  pub patch_status :
      (old new : GitRepository)
      → G new.status.propagated
      → Preserves P (r.onboarding.git_repositories.patch_status old new)

pub Frames-SafeCalls :
    {W V : Type 0} (see : W → V) (Q : V → Type 0) (G : List PropagateStatus → Type 0)
    (rt : Runtime W) (r : GitRepositoryReconciler W)
    → Frames see rt r
    → ((gr : GitRepository) (w : W) (ts : List (ResolvedTarget W))
        → (r.mcp_resolver.resolve gr r.onboarding.control_planes w).0 ≡ ok ts
        → SafeTargets (On see Q) ts)
    → Writes (On see Q) G r
    → SafeCalls (On see Q) G rt r
Frames-SafeCalls see Q G rt r o clusters writes = record {
  now = Keeps-On see Q o.quiet.now;
  set_status_condition = λ cs c. Keeps-On see Q (o.quiet.set_status_condition cs c);
  get = λ j. Keeps-On see Q (o.quiet.get j);
  found = writes.found;
  set_states = writes.set_states;
  filter_states = writes.filter_states;
  update = writes.update;
  patch_status = writes.patch_status;
  get_installation = λ j. Keeps-On see Q (o.quiet.get_installation j);
  get_instance = λ j. Keeps-On see Q (o.quiet.get_instance j);
  get_secret = λ j. Keeps-On see Q (o.quiet.get_secret j);
  resolve = λ gr. Keeps-On see Q (o.resolve gr);
  resolved = clusters;
  cleanup = λ gr namespace name. Keeps-On see Q (o.cleanup gr namespace name);
  mint = λ creds minter id built. Keeps-On see Q (o.quiet.mint creds minter id built);
}
