-- ===== src/Controller/GitRepository/Deletion/Blind.antt =====
-- reconcileDelete over MCPs that cannot be read.
use platform_service_gitops.Propagate
use platform_service_gitops.Controller.{Runtime, done}
use platform_service_gitops.Prelude.{List, Option, [], none, refl, some, true, ◌∙◌, ◌∷◌, ◌≡◌}
use platform_service_gitops.McpAccess.{ResolvedTarget}
use platform_service_gitops.K8s.Meta.{NamespacedName}
use platform_service_gitops.K8s.Objects.{McpClient}
use platform_service_gitops.K8s.Laws.{Keeps}
use platform_service_gitops.Api.GitRepository.{GitRepository}
use platform_service_gitops.Go.Eff.{Eff}
use platform_service_gitops.Go.Error.{Error, Result, err, ok}
use platform_service_gitops.Propagate.{delete_owned}
use platform_service_gitops.McpAccess.Access.Clusters.{AllClusters, HasCluster}
use platform_service_gitops.Controller.GitRepository.Base.{
  GitRepositoryReconciler, finalizer_propagate,
}
use platform_service_gitops.Controller.GitRepository.Deletion.{reconcile_delete, without_finalizer}
use platform_service_gitops.Controller.GitRepository.Deletion.Finalizer.{
  AllClean, CleanCluster, after_all, after_target, cluster_after, drop_access,
}
use platform_service_gitops.Controller.GitRepository.Deletion.Finish.{reconcile_delete-finishes}

-- Every Get fails, and changes nothing that is looked at.
pub record Unreadable {W V : Type 0} (see : W → V) (mcp : McpClient W) : Type 0 where
  pub secrets : (k : NamespacedName) (w : W) → (e : Error) × ((mcp.secrets.get k w).0 ≡ err e)
  pub flux :
      (k : NamespacedName) (w : W) → (e : Error) × ((mcp.flux_git_repositories.get k w).0 ≡ err e)
  pub secrets_quiet : (k : NamespacedName) → Keeps see (mcp.secrets.get k)
  pub flux_quiet : (k : NamespacedName) → Keeps see (mcp.flux_git_repositories.get k)

module _ {W V : Type 0} (see : W → V) (rt : Runtime W) (r : GitRepositoryReconciler W)
    (gr : GitRepository) where
  -- Cleanup drops both errors.
  cleanup-blind :
      (mcp : McpClient W) (w : W)
      → Unreadable see mcp
      → ((Propagate.cleanup mcp gr r.flux_namespace w).0 ≡ ok tt)
        × (see (Propagate.cleanup mcp gr r.flux_namespace w).1 ≡ see w)
  unfolding Propagate.cleanup delete_owned
  cleanup-blind mcp w u =
      let (e, p) = u.flux (Propagate.flux_key gr r.flux_namespace) w in
      let v : W = (mcp.flux_git_repositories.get (Propagate.flux_key gr r.flux_namespace) w).1 in
      let (e', q) = u.secrets (Propagate.secret_key gr r.flux_namespace) v in
      (rw (p, q) refl, rw (p, q) (u.secrets_quiet _ v ∙ u.flux_quiet _ w))

  cluster-blind :
      (c : Option (McpClient W)) (w : W)
      → HasCluster (Unreadable see) c
      → CleanCluster rt r gr c w × (see (cluster_after rt r gr c w) ≡ see w)
  cluster-blind none w u = (tt, refl)
  cluster-blind (some mcp) w u = cleanup-blind mcp w u

  -- The AccessRequests can be deleted, and that changes nothing that is looked at.
  abbrev pub Droppable : Type 0
  Droppable =
      (t : ResolvedTarget W) (w : W)
      → ((drop_access rt r gr t w).0 ≡ ok tt) × (see (drop_access rt r gr t w).1 ≡ see w)

  AllClean-blind :
      (ts : List (ResolvedTarget W)) (w : W)
      → Droppable
      → AllClusters (Unreadable see) ts
      → AllClean rt r gr ts w × (see (after_all rt r gr ts w) ≡ see w)
  AllClean-blind [] w d u = (tt, refl)
  AllClean-blind (t ∷ ts) w d u =
      let (dropped, quiet) = d t w in
      let (clean, same) = cluster-blind t.cluster (drop_access rt r gr t w).1 u.0 in
      let (rest, end) = AllClean-blind ts (after_target rt r gr t w) d u.1 in
      ((dropped, clean, rest), end ∙ (same ∙ quiet))

  abbrev remove : Eff W (Result (Unit {0}))
  remove = r.onboarding.git_repositories.update (without_finalizer rt r gr)

  -- With the finalizer set, if the targets are resolved, the AccessRequests can be deleted, the
  -- object can be stored, and none of these calls changes what is looked at: if no Get on any
  -- client of the targets succeeds, for any reason, then reconcileDelete is done and has stored the
  -- object without the finalizer, and what is looked at, the Secrets and Flux objects of the MCPs
  -- say, is as before.
  pub reconcile_delete_blind :
      (ts : List (ResolvedTarget W)) (w : W)
      → rt.finalizers.contains_finalizer gr.meta finalizer_propagate ≡ true
      → (r.mcp_resolver.resolve gr r.onboarding.control_planes w).0 ≡ ok ts
      → AllClusters (Unreadable see) ts
      → Droppable
      → Keeps see (r.mcp_resolver.resolve gr r.onboarding.control_planes)
      → Keeps see remove
      → ((v : W) → (remove v).0 ≡ ok tt)
      → (last : W) × (reconcile_delete rt r gr w ≡ (done, (remove last).1))
        × (see (reconcile_delete rt r gr w).1 ≡ see w)
  reconcile_delete_blind ts w f p u d resolves removes stored =
      let w₁ : W = (r.mcp_resolver.resolve gr r.onboarding.control_planes w).1 in
      let (clean, same) = AllClean-blind ts w₁ d u in
      let last : W = after_all rt r gr ts w₁ in
      let end = reconcile_delete-finishes rt r gr ts w f p clean (stored last) in
      (last, end, rw end (removes last ∙ (same ∙ resolves w)))
