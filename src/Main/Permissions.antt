-- ===== src/Main/Permissions.antt =====
-- The permissions that cmd/platform-service-gitops/main.go requests on the onboarding cluster, and
-- the ControlPlanes that internal/mcpaccess lists there for targets with labels.
use platform_service_gitops.K8s.Client.{Client}
use platform_service_gitops.K8s.Rbac.{allows, authorized, forbidden}
use platform_service_gitops.Main.Access.{run_permissions}
use platform_service_gitops.Prelude.{
  Bool, Bool-cases, List, String, [], arith, false, inl, inr, refl, true, ◌&&◌, ◌==◌, ◌||◌, ◌∷◌,
  ◌≡◌,
}
use platform_service_gitops.K8s.Objects.{ControlPlane}
use platform_service_gitops.Api.GitRepository.{
  PropagateTarget, propagate_target_kind_control_plane, GitRepository,
}
use platform_service_gitops.Go.Dict.{NilMap}
use platform_service_gitops.Go.Error.{Error, err, wrap}
use platform_service_gitops.McpAccess.Names.{Names, expand, resolve_names}
use platform_service_gitops.Controller.{Runtime, requeue_interval}
use platform_service_gitops.McpAccess.{AccessLibrary}
use platform_service_gitops.Api.AppInstallation.{AppInstallation}
use platform_service_gitops.Go.Int.{ℤ}
use platform_service_gitops.Controller.GitRepository.Base.{
  GitRepositoryReconciler, finalizer_propagate,
}
use platform_service_gitops.Controller.GitRepository.Deletion.{reconcile_delete, retry}
use platform_service_gitops.Controller.GitRepository.Propagation.{reconcile_propagate}
use platform_service_gitops.McpAccess.Access.{PlatformResolver, new_resolver, resolve}

-- A target that lists ControlPlanes by their labels.
abbrev pub is_label_target : PropagateTarget → Bool
is_label_target t = t.kind == propagate_target_kind_control_plane && t.name == ""

unfoldable pub has_label_target : List PropagateTarget → Bool
has_label_target [] = false
has_label_target (t ∷ ts) = is_label_target t || has_label_target ts

list-denied :
    {W : Type 0} (c : Client W ControlPlane) (group namespace : String) (labels : NilMap) (w : W)
    → (authorized run_permissions group "controlplanes" c).list namespace labels w
      ≡ (err forbidden, w)
unfolding authorized allows run_permissions
list-denied c group namespace labels w = ground arith

abbrev pub denied : Error
denied = wrap "listing ControlPlanes for matchLabels: " forbidden

module _ {W : Type 0} (c : Client W ControlPlane) (group : String) where
  -- The client of the onboarding cluster for ControlPlanes, whatever their group is.
  abbrev pub visible : Client W ControlPlane
  visible = authorized run_permissions group "controlplanes" c

  expand-denied :
      (ts : List PropagateTarget) (s : Names) (w : W)
      → has_label_target ts ≡ true
      → expand visible ts s w ≡ (err denied, w)
  unfolding expand has_label_target
  expand-denied [] s w h = ground arith
  expand-denied (t ∷ ts) s w h = elim (Bool-cases (t.kind == propagate_target_kind_control_plane)) [
    | inr p ↦ rw p (expand-denied ts s w (rw p at h))
    | inl p ↦ elim (Bool-cases (t.name == "")) [
      | inr q ↦ rw (p, q) (expand-denied ts _ w (rw (p, q) at h))
      | inl q ↦ rw (p, q, list-denied c group t.namespace t.match_labels w) refl
    ]
  ]

module _ {W Kubeconfig : Type 0} (rt : Runtime W) (lib : AccessLibrary W Kubeconfig)
    (p : PlatformResolver W) (r : GitRepositoryReconciler W) (group : String) where
  -- The reconciler with the resolver of the program, on an onboarding cluster that grants what is
  -- requested there, and no more.
  abbrev pub as_granted : GitRepositoryReconciler W
  as_granted = record r {
    mcp_resolver = new_resolver rt.fmt lib p;
    onboarding = record r.onboarding { control_planes = visible r.onboarding.control_planes group };
  }

  resolve-denied :
      (gr : GitRepository) (w : W)
      → has_label_target gr.spec.propagate_to_control_planes ≡ true
      → as_granted.mcp_resolver.resolve gr as_granted.onboarding.control_planes w ≡ (err denied, w)
  unfolding new_resolver resolve resolve_names
  resolve-denied gr w h =
      rw (expand-denied r.onboarding.control_planes group gr.spec.propagate_to_control_planes _ w h)
        refl

  -- If the onboarding cluster grants no more than runCommand requests, then a GitRepository that
  -- has its finalizer and a target given by labels is not propagated to any target, and
  -- reconcileDelete ends with an error; neither makes a call that changes the world.
  pub label_targets-denied :
      (gr : GitRepository) (ai : AppInstallation) (id : ℤ) (w : W)
      → has_label_target gr.spec.propagate_to_control_planes ≡ true
      → rt.finalizers.contains_finalizer gr.meta finalizer_propagate ≡ true
      → (reconcile_propagate rt as_granted gr ai id w ≡ ((gr, requeue_interval), w))
        × (reconcile_delete rt as_granted gr w
            ≡ (retry (wrap "resolving targets for cleanup: " denied), w))
  unfolding reconcile_propagate reconcile_delete
  label_targets-denied gr ai id w h f =
      (rw (resolve-denied gr w h) refl, rw (f, resolve-denied gr w h) refl)
