-- ===== src/Controller/GitRepository/Sequence/Distinct.antt =====
-- Sequences of passes of the GitRepository controller and the states of the targets that the stored
-- GitRepositories record.
use platform_service_gitops.K8s.Client.{Client}
use platform_service_gitops.Controller.GitRepository.Sequence.Frames.{
  Frames, Writes, Frames-SafeCalls,
}
use platform_service_gitops.Controller.GitRepository.Sequence.Calls.{SafeTargets, SafeCluster}
use platform_service_gitops.Propagate.Elsewhere.Apart.{Apart, Apart-Safe, On}
use platform_service_gitops.Controller.GitRepository.Sequence.Reach.{Reach, Reach-keeps}
use platform_service_gitops.Controller.{Runtime}
use platform_service_gitops.Prelude.{List, Option, [], inl, inr, none, some, ◌∷◌, ◌≡◌, ◌⊎◌}
use platform_service_gitops.McpAccess.{ResolvedTarget}
use platform_service_gitops.K8s.Meta.{NamespacedName}
use platform_service_gitops.K8s.Objects.{McpClient}
use platform_service_gitops.Api.GitRepository.{GitRepository}
use platform_service_gitops.Go.Error.{ok}
use platform_service_gitops.Controller.GitRepository.Base.{GitRepositoryReconciler}
use platform_service_gitops.Controller.GitRepository.Status.Map.{
  SameTargets, UniqueKeys, UniqueKeys-along, UniqueKeys-filter, UniqueKeys-set,
}
use platform_service_gitops.McpAccess.Access.Clusters.{AllClusters, HasCluster}

-- The stored GitRepositories.
abbrev pub Stored : Type 0
Stored = NamespacedName → Option GitRepository

-- Every object records states for the same targets as the one before at its key, or as the one that
-- was written. A merge patch sends the fields that differ, and a list as a whole if it does.
abbrev pub StatusFrom : Stored → GitRepository → Stored → Type 0
StatusFrom before new after =
    (k : NamespacedName) (o : GitRepository)
    → after k ≡ some o
    → ((b : GitRepository) × (before k ≡ some b)
        × SameTargets b.status.propagated o.status.propagated)
      ⊎ SameTargets new.status.propagated o.status.propagated

-- The client of the onboarding cluster: a write may fail, and the server may drop parts of it, put
-- it together with what is stored, and change the rest of the object.
pub record StatusLaws {W : Type 0} (c : Client W GitRepository) (view : W → Stored) : Type 0 where
  pub get_ok :
      (k : NamespacedName) (w : W) (o : GitRepository) → (c.get k w).0 ≡ ok o → view w k ≡ some o
  pub update : (x : GitRepository) (w : W) → StatusFrom (view w) x (view (c.update x w).1)
  pub patch_status :
      (old new : GitRepository) (w : W)
      → StatusFrom (view w) new (view (c.patch_status old new w).1)

-- Every stored GitRepository has one state at most for each target.
abbrev pub AllDistinct : Stored → Type 0
AllDistinct view =
    (k : NamespacedName) (o : GitRepository) → view k ≡ some o → UniqueKeys o.status.propagated

write-AllDistinct :
    (before after : Stored) (new : GitRepository)
    → UniqueKeys new.status.propagated
    → StatusFrom before new after
    → AllDistinct before
    → AllDistinct after
write-AllDistinct before after new u from h k o at = elim (from k o at) [
  | inl (b, there, same) ↦ UniqueKeys-along _ _ same (h k b there)
  | inr same ↦ UniqueKeys-along _ _ same u
]

module _ {W : Type 0} (view : W → Stored) (rt : Runtime W) (r : GitRepositoryReconciler W) where
  AllDistinct-Writes :
      StatusLaws r.onboarding.git_repositories view → Writes (On view AllDistinct) UniqueKeys r
  AllDistinct-Writes L = record {
    found = λ k w gr h got. h k gr (L.get_ok k w gr got);
    set_states = λ list ps u. UniqueKeys-set list ps u;
    filter_states = λ list names u. UniqueKeys-filter list names u;
    update = λ x u. record { at = λ w h. write-AllDistinct _ _ x u (L.update x w) h };
    patch_status = λ old new u. record {
      at = λ w h. write-AllDistinct _ _ new u (L.patch_status old new w) h;
    };
  }

  Apart-SafeTargets :
      (ts : List (ResolvedTarget W))
      → AllClusters (Apart view) ts
      → SafeTargets (On view AllDistinct) ts
  Apart-SafeTargets [] a = tt
  Apart-SafeTargets (t ∷ ts) a = (cluster t.cluster a.0, Apart-SafeTargets ts a.1)
    where
      cluster :
          (c : Option (McpClient W))
          → HasCluster (Apart view) c
          → SafeCluster (On view AllDistinct) c
      cluster none a = tt
      cluster (some mcp) a = Apart-Safe view AllDistinct mcp a

  -- On an onboarding cluster that obeys StatusLaws, if the other calls of the GitRepository
  -- controller, and those of every client that the resolver gives, leave the GitRepositories alone,
  -- and the steps of others keep the states distinct, then from a world in which every
  -- GitRepository records one state at most for each target, any sequence of passes and of such
  -- steps leads to such a world.
  pub reachable-AllDistinct :
      (others : W → W → Type 0) (start end : W)
      → StatusLaws r.onboarding.git_repositories view
      → Frames view rt r
      → ((gr : GitRepository) (w : W) (ts : List (ResolvedTarget W))
          → (r.mcp_resolver.resolve gr r.onboarding.control_planes w).0 ≡ ok ts
          → AllClusters (Apart view) ts)
      → ((w v : W) → others w v → AllDistinct (view w) → AllDistinct (view v))
      → AllDistinct (view start)
      → Reach rt r others start end
      → AllDistinct (view end)
  reachable-AllDistinct others start end L frames apart kind h =
      Reach-keeps rt r others (On view AllDistinct) UniqueKeys start end
        (Frames-SafeCalls view AllDistinct UniqueKeys rt r frames
          (λ gr w ts got. Apart-SafeTargets ts (apart gr w ts got)) (AllDistinct-Writes L))
        kind h
