-- ===== src/Controller/GitRepository/Sequence/Foreign.antt =====
-- Sequences of passes of the GitRepository controller and the Flux GitRepositories of one MCP that
-- no GitRepository owns.
use platform_service_gitops.Controller.GitRepository.Base.{GitRepositoryReconciler}
use mathlib.Core.Path.{subst}
use platform_service_gitops.Propagate.Elsewhere.{Safe}
use platform_service_gitops.Propagate.Elsewhere.Foreign.{Held, IsAt, Observed, Observed-Safe}
use platform_service_gitops.Controller.GitRepository.Sequence.Calls.{
  SafeCalls, SafeTargets, SafeCluster,
}
use platform_service_gitops.Controller.GitRepository.Sequence.Reach.{Reach, Reach-keeps}
use platform_service_gitops.Controller.{Runtime}
use platform_service_gitops.Prelude.{List, Option, [], inl, inr, none, some, ◌∙◌, ◌∷◌, ◌≡◌, ◌⊎◌}
use platform_service_gitops.McpAccess.{ResolvedTarget}
use platform_service_gitops.K8s.Meta.{NamespacedName}
use platform_service_gitops.K8s.Objects.{FluxGitRepository, McpClient}
use platform_service_gitops.K8s.Laws.{Keeps}
use platform_service_gitops.Api.GitRepository.{GitRepository}
use platform_service_gitops.Go.Error.{ok}
use platform_service_gitops.Propagate.Laws.{IsOwned}
use platform_service_gitops.Propagate.Elsewhere.Foreign.{Held, IsAt, Observed, Observed-Safe}
use platform_service_gitops.Controller.GitRepository.Sequence.Frames.{Frames, Frames-SafeCalls}
use platform_service_gitops.Propagate.Elsewhere.Apart.{Apart, Apart-Safe, Keeps-On}
use platform_service_gitops.McpAccess.Access.Clusters.{AllClusters, HasCluster}

module _ {W : Type 0} (see : W → NamespacedName → Option FluxGitRepository) where
  -- The MCP that is looked at, or one whose calls leave that MCP alone.
  abbrev pub Known : McpClient W → Type 0
  Known mcp = Observed see mcp ⊎ Apart see mcp

  -- The calls on the onboarding and the platform cluster, the clock and GitHub leave the MCP alone.
  pub record Outside (rt : Runtime W) (r : GitRepositoryReconciler W) : Type 0 where
    pub frames : Frames see rt r
    pub update : (gr : GitRepository) → Keeps see (r.onboarding.git_repositories.update gr)
    pub patch_status :
        (old new : GitRepository) → Keeps see (r.onboarding.git_repositories.patch_status old new)

  abbrev pub Resolves : GitRepositoryReconciler W → Type 0
  Resolves r =
      (gr : GitRepository) (w : W) (ts : List (ResolvedTarget W))
      → (r.mcp_resolver.resolve gr r.onboarding.control_planes w).0 ≡ ok ts
      → AllClusters Known ts

  module _ (k : NamespacedName) (f : FluxGitRepository)
      (foreign : (gr : GitRepository) → ¬ (IsOwned gr f.meta)) where
    Known-Safe : (c : Option (McpClient W)) → HasCluster Known c → SafeCluster (Held see k f) c
    Known-Safe none x = tt
    Known-Safe (some mcp) (inr apart) = Apart-Safe see (IsAt k f) mcp apart
    Known-Safe (some mcp) (inl o) =
        subst (λ v. Safe (Held v k f) mcp) o.same_view (Observed-Safe mcp o.laws k f foreign)

    Known-SafeTargets :
        (ts : List (ResolvedTarget W)) → AllClusters Known ts → SafeTargets (Held see k f) ts
    Known-SafeTargets [] x = tt
    Known-SafeTargets (t ∷ ts) x = (Known-Safe t.cluster x.0, Known-SafeTargets ts x.1)

    Outside-SafeCalls :
        (rt : Runtime W) (r : GitRepositoryReconciler W)
        → Outside rt r
        → Resolves r
        → SafeCalls (Held see k f) (λ _. Unit {0}) rt r
    Outside-SafeCalls rt r o known =
        Frames-SafeCalls see (IsAt k f) (λ _. Unit {0}) rt r o.frames
          (λ gr w ts got. Known-SafeTargets ts (known gr w ts got))
          (record {
            found = λ j w gr h got. tt;
            set_states = λ list ps g. tt;
            filter_states = λ list names g. tt;
            update = λ gr g. Keeps-On see (IsAt k f) (o.update gr);
            patch_status = λ old new g. Keeps-On see (IsAt k f) (o.patch_status old new);
          })

-- Take one MCP. Let the calls of the GitRepository controller outside the MCPs leave it alone, and
-- let every client that the resolver gives be for it and obey McpLaws, or leave it alone. Then a
-- Flux GitRepository at any key of it that no GitRepository owns is still there, as it was, after
-- any sequence of passes of the controller over any objects and of steps of others that leave that
-- key alone.
pub reachable_leaves_foreign :
    {W : Type 0} (see : W → NamespacedName → Option FluxGitRepository) (rt : Runtime W)
    (r : GitRepositoryReconciler W) (others : W → W → Type 0) (k : NamespacedName)
    (f : FluxGitRepository) (start end : W)
    → Outside see rt r
    → Resolves see r
    → ((w v : W) → others w v → see v k ≡ see w k)
    → ((gr : GitRepository) → ¬ (IsOwned gr f.meta))
    → see start k ≡ some f
    → Reach rt r others start end
    → see end k ≡ some f
reachable_leaves_foreign see rt r others k f start end outside known kind foreign held =
    Reach-keeps rt r others (Held see k f) (λ _. Unit {0}) start end
      (Outside-SafeCalls see k f foreign rt r outside known) (λ w v step h. kind w v step ∙ h) held
