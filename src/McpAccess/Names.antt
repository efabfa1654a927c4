-- ===== src/McpAccess/Names.antt =====
-- resolveNames and AccessLocalName of internal/mcpaccess/resolver.go
pub mod Expansion
pub mod Collision
use platform_service_gitops.Prelude.{
  String, ◌<>◌, Bool, false, ◌||◌, not, List, [], ◌∷◌, ◌++◌, ◌==◌, if◌then◌else◌,
}
use platform_service_gitops.Go.Error.{Result, ok, wrap}
use platform_service_gitops.Go.Eff.{Eff, pure, fail, try}
use platform_service_gitops.K8s.Client.{Client}
use platform_service_gitops.K8s.Objects.{ControlPlane}
use platform_service_gitops.Api.GitRepository.{
  propagate_target_kind_control_plane, PropagateTarget, GitRepository,
}

pub record TargetRef : Type 0 where
  pub namespace : String
  pub name : String

-- The map `seen` and the slice `refs` of resolveNames.
pub record Names : Type 0 where
  pub seen : List String
  pub refs : List TargetRef

unfoldable pub contains : List String → String → Bool
contains [] k = false
contains (j ∷ ks) k = j == k || contains ks k

abbrev pub target_key : String → String → String
target_key namespace name = namespace <> ("/" <> name)

unfoldable pub add : String → String → Names → Names
unfolding contains
add namespace name s = if contains s.seen (target_key namespace name) then s else record {
  seen = target_key namespace name ∷ s.seen;
  refs = s.refs ++ (record { namespace = namespace; name = name } ∷ []);
}

unfoldable pub add_all : String → List ControlPlane → Names → Names
unfolding add
add_all namespace [] s = s
add_all namespace (cp ∷ cps) s = add_all namespace cps (add namespace cp.meta.name s)

module _ {W : Type 0} (control_planes : Client W ControlPlane) where
  -- The loop over PropagateToControlPlanes.
  unfoldable pub expand : List PropagateTarget → Names → Eff W (Result Names)
  unfolding add add_all
  expand [] s = pure (ok s)
  expand (target ∷ targets) s =
      let next = expand targets in
      if not (target.kind == propagate_target_kind_control_plane)
      then next s
      else if not (target.name == "")
      then next (add target.namespace target.name s)
      else try (control_planes.list target.namespace target.match_labels)
          (λ e. fail (wrap "listing ControlPlanes for matchLabels: " e))
          (λ items. next (add_all target.namespace items s))

  unfoldable pub resolve_names : GitRepository → Eff W (Result (List TargetRef))
  unfolding expand
  resolve_names gr =
      try (expand gr.spec.propagate_to_control_planes (record { seen = []; refs = [] })) fail
        (λ s. pure (ok s.refs))

unfoldable pub access_local_name : GitRepository → String → String → String
access_local_name gr namespace name =
    gr.meta.namespace <> ("--" <> (gr.meta.name <> ("--" <> (namespace <> ("--" <> name)))))
