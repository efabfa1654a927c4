-- ===== src/Controller/GitRepository/Deletion/Requests.antt =====
-- reconcileDelete with the resolver of internal/mcpaccess: what is left of the access to the MCPs.
use mathlib.Core.Bool.{true≢false}
use platform_service_gitops.Propagate
use platform_service_gitops.McpAccess.Access.{
  resolve, PlatformResolver, new_resolver, request_key, request_name,
}
use platform_service_gitops.Controller.{Runtime, Return}
use platform_service_gitops.Prelude.{
  List, Option, String, [], ap, false, inl, inr, none, refl, some, sym, true, ◌∙◌, ◌∷◌, ◌≡◌,
}
use platform_service_gitops.McpAccess.{AccessLibrary, ResolvedTarget}
use platform_service_gitops.Propagate.{flux_meta, secret_meta}
use platform_service_gitops.K8s.Meta.{NamespacedName, ObjectMeta, same_key}
use platform_service_gitops.K8s.Objects.{AccessRequest, McpClient}
use platform_service_gitops.K8s.Laws.{FrameLaws, IsReleased, Keeps, StoreLaws}
use platform_service_gitops.K8s.Memory.{same_key_self}
use platform_service_gitops.Api.GitRepository.{GitRepository}
use platform_service_gitops.Go.Invariant.{Result-cases}
use platform_service_gitops.Go.Error.{ok}
use platform_service_gitops.Controller.GitRepository.Base.{
  GitRepositoryReconciler, finalizer_propagate,
}
use platform_service_gitops.Controller.GitRepository.Deletion.Finalizer.{
  AllClean, after_all, after_target, cluster_after, drop_access, reconcile_delete_complete,
}
use platform_service_gitops.Propagate.Cleanup.{delete_flux, delete_owned-frame}
use platform_service_gitops.McpAccess.Names.{TargetRef, resolve_names}
use platform_service_gitops.McpAccess.Access.Requests.{cleanup-IsReleased, sent_request}
use platform_service_gitops.McpAccess.Access.Targets.{Matches, resolve-Matches}
use platform_service_gitops.Go.Eff.{Eff}
use platform_service_gitops.Controller.GitRepository.Deletion.{reconcile_delete, without_finalizer}
use platform_service_gitops.Controller.GitRepository.Deletion.Finish.{reconcile_delete-finishes}
use platform_service_gitops.McpAccess.Access.Clusters.{
  AllClusters, Gives, HasCluster, resolve-AllClusters,
}

module _ {W Kubeconfig : Type 0} (rt : Runtime W) (lib : AccessLibrary W Kubeconfig)
    (p : PlatformResolver W) (meta : AccessRequest → ObjectMeta)
    (L : StoreLaws p.access_requests meta sent_request)
    (same_meta : (a : AccessRequest) → meta a ≡ a.meta) (base : GitRepositoryReconciler W)
    (gr : GitRepository) where
  -- The reconciler with the resolver of the program.
  abbrev pub with_resolver : GitRepositoryReconciler W
  with_resolver = record base { mcp_resolver = new_resolver rt.fmt lib p }

  -- The place of the AccessRequest for a control plane.
  abbrev pub place : String → String → NamespacedName
  place namespace name = request_key rt.fmt lib p (request_name rt.fmt lib gr namespace name)

  -- The calls on a cluster leave the AccessRequests alone.
  abbrev pub ApartCluster : McpClient W → Type 0
  ApartCluster mcp = FrameLaws mcp.secrets L.view × FrameLaws mcp.flux_git_repositories L.view

  -- The AccessRequest of every name is deleted.
  abbrev pub AllReleased : List TargetRef → W → Type 0
  AllReleased [] w = Unit {0}
  AllReleased (ref ∷ refs) w =
      IsReleased meta (L.view w (place ref.namespace ref.name)) × AllReleased refs w

  cleanup-Keeps :
      (mcp : McpClient W)
      → FrameLaws mcp.secrets L.view
      → FrameLaws mcp.flux_git_repositories L.view
      → Keeps L.view (Propagate.cleanup mcp gr base.flux_namespace)
  unfolding Propagate.cleanup
  cleanup-Keeps mcp s f w =
      let first = delete_flux mcp gr base.flux_namespace w in
      let kept : L.view first.1 ≡ L.view w =
        delete_owned-frame mcp.flux_git_repositories flux_meta L.view f _ _ _ w in
      elim (Result-cases first.0) [
        | inl (u, q) ↦
            rw q (delete_owned-frame mcp.secrets secret_meta L.view s _ _ _ first.1 ∙ kept)
        | inr (e, q) ↦ rw q kept
      ]

  cluster_after-view :
      (c : Option (McpClient W)) (w : W)
      → HasCluster ApartCluster c
      → L.view (cluster_after rt with_resolver gr c w) ≡ L.view w
  cluster_after-view none w a = refl
  cluster_after-view (some mcp) w a = cleanup-Keeps mcp a.0 a.1 w

  after_target-IsReleased :
      (t : ResolvedTarget W) (k : NamespacedName) (w : W)
      → HasCluster ApartCluster t.cluster
      → (drop_access rt with_resolver gr t w).0 ≡ ok tt
      → (same_key k (place t.control_plane_namespace t.control_plane_name) ≡ false
          → IsReleased meta (L.view w k))
      → IsReleased meta (L.view (after_target rt with_resolver gr t w) k)
  unfolding new_resolver
  after_target-IsReleased t k w a dropped before =
      rw (cluster_after-view t.cluster (drop_access rt with_resolver gr t w).1 a) (
        cleanup-IsReleased rt.fmt lib p meta L same_meta gr t.control_plane_namespace
          t.control_plane_name k w dropped before)

  after_all-IsReleased :
      (ts : List (ResolvedTarget W)) (k : NamespacedName) (w : W)
      → AllClusters ApartCluster ts
      → AllClean rt with_resolver gr ts w
      → IsReleased meta (L.view w k)
      → IsReleased meta (L.view (after_all rt with_resolver gr ts w) k)
  after_all-IsReleased [] k w a clean h = h
  after_all-IsReleased (t ∷ ts) k w a clean h =
      after_all-IsReleased ts k (after_target rt with_resolver gr t w) a.1 clean.2
        (after_target-IsReleased t k w a.0 clean.0 (λ _. h))

  after_all-AllReleased :
      (refs : List TargetRef) (ts : List (ResolvedTarget W)) (w : W)
      → Matches refs ts
      → AllClusters ApartCluster ts
      → AllClean rt with_resolver gr ts w
      → AllReleased refs (after_all rt with_resolver gr ts w)
  after_all-AllReleased [] [] w m a clean = tt
  after_all-AllReleased [] (t ∷ ts) w m a clean = absurd m
  after_all-AllReleased (ref ∷ refs) [] w m a clean = absurd m
  after_all-AllReleased (ref ∷ refs) (t ∷ ts) w m a clean = (
    after_all-IsReleased ts (place ref.namespace ref.name) (after_target rt with_resolver gr t w)
        a.1 clean.2
        (after_target-IsReleased t (place ref.namespace ref.name) w a.0 clean.0 (λ apart. absurd (
          true≢false
            (sym (same_key_self (place ref.namespace ref.name)) ∙ rw (m.0, m.1) at apart)))),
    after_all-AllReleased refs ts (after_target rt with_resolver gr t w) m.3 a.1 clean.2,
  )

  AllReleased-along :
      (refs : List TargetRef) (v w : W)
      → L.view v ≡ L.view w
      → AllReleased refs w
      → AllReleased refs v
  AllReleased-along [] v w same h = tt
  AllReleased-along (ref ∷ refs) v w same h = (rw same h.0, AllReleased-along refs v w same h.1)

  abbrev pub Delete : Eff W Return
  Delete = reconcile_delete rt with_resolver gr

  -- With the resolver of the program, on a platform cluster that obeys StoreLaws, and if the update
  -- of the GitRepository and the calls on every client that InitializeClient gives leave the
  -- AccessRequests alone: a reconcileDelete over an object with the finalizer that reports no error
  -- has expanded the targets to names and for each of them its AccessRequest is gone, or it is
  -- terminating and has finalizers.
  pub reconcile_delete-AllReleased :
      (w : W)
      → ((x : GitRepository) → Keeps L.view (base.onboarding.git_repositories.update x))
      → Gives rt.fmt lib p ApartCluster
      → rt.finalizers.contains_finalizer gr.meta finalizer_propagate ≡ true
      → (Delete w).0.error ≡ none
      → (refs : List TargetRef) × ((resolve_names base.onboarding.control_planes gr w).0 ≡ ok refs)
        × AllReleased refs (Delete w).1
  unfolding new_resolver
  reconcile_delete-AllReleased w quiet gives f h =
      let (ts, got, clean, stored) = reconcile_delete_complete rt with_resolver gr w f h in
      let (refs, named, m) =
        resolve-Matches rt.fmt lib p gr base.onboarding.control_planes ts w got in
      let last : W =
        after_all rt with_resolver gr ts
          (resolve rt.fmt lib p gr base.onboarding.control_planes w).1 in
      (
        refs,
        named,
        AllReleased-along refs _ last
            (ap (λ x. L.view x.1)
                (reconcile_delete-finishes rt with_resolver gr ts w f got clean stored)
              ∙ quiet (without_finalizer rt with_resolver gr) last)
            (after_all-AllReleased refs ts _ m
              (resolve-AllClusters rt.fmt lib p ApartCluster gr base.onboarding.control_planes ts w
                gives got)
              clean),
      )
