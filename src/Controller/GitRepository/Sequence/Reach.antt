-- ===== src/Controller/GitRepository/Sequence/Reach.antt =====
-- Sequences of passes of the GitRepository controller, with steps of others between them.
use platform_service_gitops.Controller.GitRepository.Sequence.Calls.{SafeCalls}
use platform_service_gitops.Controller.GitRepository.Reconcile.{reconcile}
use platform_service_gitops.Controller.{Runtime}
use platform_service_gitops.K8s.Meta.{NamespacedName}
use platform_service_gitops.Controller.GitRepository.Base.{GitRepositoryReconciler}
use platform_service_gitops.Controller.GitRepository.Sequence.Pass.{reconcile-keeps}
use platform_service_gitops.Prelude.{List}
use platform_service_gitops.Api.GitRepository.{PropagateStatus}

-- The worlds that are reached from a world by passes on any objects and by steps of others.
pub data Reach {W : Type 0} (rt : Runtime W) (r : GitRepositoryReconciler W)
    (others : W → W → Type 0) (start : W) : W → Type 0 where
  begin : Reach rt r others start start
  by_controller :
      (w : W) (req : NamespacedName)
      → Reach rt r others start w
      → Reach rt r others start (reconcile rt r req w).1
  by_others : (w v : W) → Reach rt r others start w → others w v → Reach rt r others start v

module _ {W : Type 0} (rt : Runtime W) (r : GitRepositoryReconciler W) (others : W → W → Type 0)
    (P : W → Type 0) (G : List PropagateStatus → Type 0) where
  -- A property which the calls of a pass keep, and which the others keep, holds in every world that
  -- is reached.
  pub Reach-keeps :
      (start end : W)
      → SafeCalls P G rt r
      → ((w v : W) → others w v → P w → P v)
      → P start
      → Reach rt r others start end
      → P end
  Reach-keeps start end s kind h begin = h
  Reach-keeps start end s kind h (by_controller w req before) =
      (reconcile-keeps rt r s req).at w (Reach-keeps start w s kind h before)
  Reach-keeps start end s kind h (by_others w v before step) =
      kind w v step (Reach-keeps start w s kind h before)
