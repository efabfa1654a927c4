-- ===== src/Controller/GitRepository/Deletion/Finalizer.antt =====
-- The finalizer and the cleanup in reconcileDelete.
use platform_service_gitops.Controller.GitRepository.Base.{
  GitRepositoryReconciler, finalizer_propagate,
}
use platform_service_gitops.Propagate
use mathlib.Core.Path.{subst}
use platform_service_gitops.Controller.{Runtime, requeue_interval}
use platform_service_gitops.Prelude.{
  List, Option, [], ap, inl, inr, none, refl, some, true, ◌++◌, ◌∙◌, ◌∷◌, ◌≡◌, ◌≢◌,
}
use platform_service_gitops.McpAccess.{ResolvedTarget}
use platform_service_gitops.K8s.Objects.{McpClient}
use platform_service_gitops.Api.GitRepository.{GitRepository}
use platform_service_gitops.Go.Eff.{Eff}
use platform_service_gitops.Go.Invariant.{Result-cases}
use platform_service_gitops.Go.Error.{Error, Result, ok}
use platform_service_gitops.Controller.GitRepository.Deletion.{
  cleanup_cluster, cleanup_targets, collect, reconcile_delete, without_finalizer, finish_delete,
}

cons≢nil : {A : Type 0} (x : A) (xs : List A) → x ∷ xs ≡ [] → ⊥
cons≢nil x xs p = cc

snoc≢nil : {A : Type 0} (xs : List A) (x : A) → xs ++ (x ∷ []) ≡ [] → ⊥
snoc≢nil [] x p = cc
snoc≢nil (y ∷ xs) x p = cc

module _ {W : Type 0} (errs : List Error) (call : Eff W (Result (Unit {0}))) (w : W) where
  collect-world : (collect errs call w).1 ≡ (call w).1
  collect-world = elim (Result-cases (call w).0) [ inl (a, p) ↦ rw p refl | inr (e, p) ↦ rw p refl ]

  collect-eq-nil : (collect errs call w).0 ≡ [] → (errs ≡ []) × ((call w).0 ≡ ok tt)
  collect-eq-nil h = elim (Result-cases (call w).0) [
    | inl (tt, p) ↦ (rw p at h, p)
    | inr (e, p) ↦ absurd (snoc≢nil errs e (rw p at h))
  ]

module _ {W : Type 0} (rt : Runtime W) (r : GitRepositoryReconciler W) (gr : GitRepository) where
  abbrev pub drop_access : ResolvedTarget W → Eff W (Result (Unit {0}))
  drop_access t = r.mcp_resolver.cleanup gr t.control_plane_namespace t.control_plane_name

  abbrev pub CleanCluster : Option (McpClient W) → W → Type 0
  CleanCluster none w = Unit {0}
  CleanCluster (some mcp) w = (Propagate.cleanup mcp gr r.flux_namespace w).0 ≡ ok tt

  abbrev pub cluster_after : Option (McpClient W) → W → W
  cluster_after none w = w
  cluster_after (some mcp) w = (Propagate.cleanup mcp gr r.flux_namespace w).1

  abbrev pub after_target : ResolvedTarget W → W → W
  after_target t w = cluster_after t.cluster (drop_access t w).1

  -- For every target in turn the AccessRequest was deleted, and the MCP cleaned up if there is access
  -- to it, with no error.
  abbrev pub AllClean : List (ResolvedTarget W) → W → Type 0
  AllClean [] w = Unit {0}
  AllClean (t ∷ ts) w =
      ((drop_access t w).0 ≡ ok tt)
      × CleanCluster t.cluster (drop_access t w).1
      × AllClean ts (after_target t w)

  abbrev pub after_all : List (ResolvedTarget W) → W → W
  after_all [] w = w
  after_all (t ∷ ts) w = after_all ts (after_target t w)

  cluster-eq-nil :
      (c : Option (McpClient W)) (errs : List Error) (w : W)
      → (cleanup_cluster rt r gr c errs w).0 ≡ []
      → (errs ≡ []) × CleanCluster c w
  cluster-eq-nil none errs w h = (h, tt)
  cluster-eq-nil (some mcp) errs w h =
      collect-eq-nil errs (Propagate.cleanup mcp gr r.flux_namespace) w h

  cluster-world :
      (c : Option (McpClient W)) (errs : List Error) (w : W)
      → (cleanup_cluster rt r gr c errs w).1 ≡ cluster_after c w
  cluster-world none errs w = refl
  cluster-world (some mcp) errs w = collect-world errs (Propagate.cleanup mcp gr r.flux_namespace) w

  cleanup_targets-eq-nil :
      (ts : List (ResolvedTarget W)) (errs : List Error) (w : W)
      → (cleanup_targets rt r gr ts errs w).0 ≡ []
      → (errs ≡ []) × AllClean ts w × ((cleanup_targets rt r gr ts errs w).1 ≡ after_all ts w)
  unfolding cleanup_targets
  cleanup_targets-eq-nil [] errs w h = (h, tt, refl)
  cleanup_targets-eq-nil (t ∷ ts) errs w h =
      let a = collect errs (drop_access t) w in
      let b = cleanup_cluster rt r gr t.cluster a.0 a.1 in
      let world_a : a.1 ≡ (drop_access t w).1 = collect-world errs (drop_access t) w in
      let world_b : b.1 ≡ after_target t w =
        cluster-world t.cluster a.0 a.1 ∙ ap (cluster_after t.cluster) world_a in
      let (none_b, clean, end) = cleanup_targets-eq-nil ts b.0 b.1 h in
      let (none_a, cluster_ok) = cluster-eq-nil t.cluster a.0 a.1 none_b in
      let (empty, access_ok) = collect-eq-nil errs (drop_access t) w none_a in
      (
        empty,
        (
          access_ok,
          subst (CleanCluster t.cluster) world_a cluster_ok,
          subst (AllClean ts) world_b clean,
        ),
        end ∙ ap (after_all ts) world_b,
      )

  finish-no_error :
      (errs : List Error) (w : W)
      → (finish_delete rt r gr errs w).0.error ≡ none
      → (errs ≡ [])
        × ((r.onboarding.git_repositories.update (without_finalizer rt r gr) w).0 ≡ ok tt)
  unfolding finish_delete
  finish-no_error [] w h =
      elim (Result-cases (r.onboarding.git_repositories.update (without_finalizer rt r gr) w).0) [
        | inl (tt, p) ↦ (refl, p)
        | inr (e, p) ↦ absurd (some≢none (rw p at h))
      ]
    where
      some≢none : {e : Error} → some e ≡ none → ⊥
      some≢none q = cc
  finish-no_error (e ∷ errs) w h = cc

  -- With the finalizer set, a reconcileDelete that reports no error has resolved the targets,
  -- cleaned every one of them up with no error, and then stored the object without the finalizer.
  pub reconcile_delete_complete :
      (w : W)
      → rt.finalizers.contains_finalizer gr.meta finalizer_propagate ≡ true
      → (reconcile_delete rt r gr w).0.error ≡ none
      → (ts : List (ResolvedTarget W)) × ((r.mcp_resolver.resolve gr r.onboarding.control_planes
            w).0
          ≡ ok ts)
        × AllClean ts (r.mcp_resolver.resolve gr r.onboarding.control_planes w).1
        × ((r.onboarding.git_repositories.update
              (without_finalizer rt r gr)
              (after_all ts (r.mcp_resolver.resolve gr r.onboarding.control_planes w).1)).0
            ≡ ok tt)
  unfolding reconcile_delete
  reconcile_delete_complete w f h =
      let res = r.mcp_resolver.resolve gr r.onboarding.control_planes w in
      elim (Result-cases res.0) [
        | inr (e, p) ↦ absurd (some≢none (rw (f, p) at h))
        | inl (ts, p) ↦
            let out = cleanup_targets rt r gr ts [] res.1 in
            let (clean, stored) = finish-no_error out.0 out.1 (rw (f, p) at h) in
            let (_, all, end) = cleanup_targets-eq-nil ts [] res.1 clean in
            (
              ts,
              p,
              all,
              subst
                  (λ v.
                    (r.onboarding.git_repositories.update (without_finalizer rt r gr) v).0 ≡ ok tt)
                  end stored,
            )
      ]
    where
      some≢none : {e : Error} → some e ≡ none → ⊥
      some≢none q = cc

  -- With the finalizer set and the targets resolved, if the cleanup collects an error,
  -- reconcileDelete ends in the world that the cleanup leaves, with an error and with the requeue
  -- interval.
  pub reconcile_delete-retries :
      (w : W) (ts : List (ResolvedTarget W)) (e : Error) (errs : List Error)
      → rt.finalizers.contains_finalizer gr.meta finalizer_propagate ≡ true
      → (r.mcp_resolver.resolve gr r.onboarding.control_planes w).0 ≡ ok ts
      → let out =
          cleanup_targets rt r gr ts []
            (r.mcp_resolver.resolve gr r.onboarding.control_planes w).1 in
        out.0 ≡ e ∷ errs
        → ((reconcile_delete rt r gr w).1 ≡ out.1)
          × ((reconcile_delete rt r gr w).0.requeue_after ≡ requeue_interval)
          × ((reconcile_delete rt r gr w).0.error ≢ none)
  unfolding reconcile_delete finish_delete
  reconcile_delete-retries w ts e errs f p q =
      (rw (f, p, q) refl, rw (f, p, q) refl, rw (f, p, q) (λ x. some≢none x))
    where
      some≢none : {e : Error} → some e ≡ none → ⊥
      some≢none q = cc
