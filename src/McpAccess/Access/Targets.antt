-- ===== src/McpAccess/Access/Targets.antt =====
-- What Resolve returns for the names that it expands.
use mathlib.Core.Path.{subst}
use platform_service_gitops.K8s.Client.{Client}
use platform_service_gitops.McpAccess.Access.{
  resolve, PlatformResolver, access_outcome, cluster_from_access_request, ensure_access_request,
  request_key, request_name, resolve_all, resolve_one,
}
use platform_service_gitops.Prelude.{
  Bool-cases, List, String, [], false, inl, inr, none, refl, some, true, ◌∷◌, ◌≡◌, ◌≢◌, ◌⊎◌,
}
use platform_service_gitops.McpAccess.{AccessLibrary, ResolvedTarget}
use platform_service_gitops.K8s.Objects.{AccessRequest, ControlPlane, McpClient}
use platform_service_gitops.Api.GitRepository.{GitRepository}
use platform_service_gitops.Go.Invariant.{Result-cases, err≢ok, ok-injective, try-eq-ok}
use platform_service_gitops.Go.Error.{Fmt, ok}
use platform_service_gitops.McpAccess.Names.{TargetRef, resolve_names}

-- A target waits for its access, or its client is there.
abbrev pub Consistent : {W : Type 0} → ResolvedTarget W → Type 0
Consistent t =
    ((t.pending ≡ true) × (t.cluster ≡ none)) ⊎ ((t.pending ≡ false) × (t.cluster ≢ none))

-- The targets are those of the references, in their order.
abbrev pub Matches : {W : Type 0} → List TargetRef → List (ResolvedTarget W) → Type 0
Matches [] [] = Unit {0}
Matches [] (t ∷ ts) = ⊥
Matches (ref ∷ refs) [] = ⊥
Matches (ref ∷ refs) (t ∷ ts) =
    (t.control_plane_namespace ≡ ref.namespace)
    × (t.control_plane_name ≡ ref.name)
    × Consistent t
    × Matches refs ts

module _ {W RestConfig : Type 0} (fmt : Fmt) (lib : AccessLibrary W RestConfig)
    (r : PlatformResolver W) where
  access_outcome-target :
      (ar : AccessRequest) (namespace name : String) (t : ResolvedTarget W) (w : W)
      → (access_outcome fmt lib r ar namespace name w).0 ≡ ok t
      → (t.control_plane_namespace ≡ namespace) × (t.control_plane_name ≡ name) × Consistent t
  unfolding access_outcome
  access_outcome-target ar namespace name t w h = elim (Bool-cases ar.is_pending) [
    | inl waiting ↦
        let e = ok-injective (rw waiting at h) in
        subst
          (λ x.
            (x.control_plane_namespace ≡ namespace) × (x.control_plane_name ≡ name) × Consistent x)
          e (refl, refl, inl (refl, refl))
    | inr decided ↦ elim (Bool-cases ar.is_denied) [
      | inl denied ↦ absurd (err≢ok (rw (decided, denied) at h))
      | inr granted ↦ elim (Result-cases (cluster_from_access_request fmt lib r ar name w).0) [
        | inr (e, p) ↦ absurd (err≢ok (rw (decided, granted, p) at h))
        | inl (cl, p) ↦
            let e = ok-injective (rw (decided, granted, p) at h) in
            subst
              (λ x.
                (x.control_plane_namespace ≡ namespace)
                × (x.control_plane_name ≡ name)
                × Consistent x)
              e (refl, refl, inr (refl, some≢none))
      ]
    ]
  ]
    where
      some≢none : {cl : McpClient W} → some cl ≢ none
      some≢none q = cc

  resolve_one-target :
      (gr : GitRepository) (namespace name : String) (t : ResolvedTarget W) (w : W)
      → (resolve_one fmt lib r gr namespace name w).0 ≡ ok t
      → (t.control_plane_namespace ≡ namespace) × (t.control_plane_name ≡ name) × Consistent t
  unfolding resolve_one
  resolve_one-target gr namespace name t w h =
      elim (Result-cases (lib.stable_mcp_namespace name namespace)) [
        | inr (e, p) ↦ absurd (err≢ok (rw (p, resolve_one) at h))
        | inl (mcp_namespace, p) ↦
            let (_, ensured, h₁) =
              try-eq-ok
                (ensure_access_request fmt lib r (request_name fmt lib gr namespace name) name
                  mcp_namespace)
                _ _ w (rw (p, resolve_one) at h) in
            let (ar, read, h₂) =
              try-eq-ok
                (r.access_requests.get
                  (request_key fmt lib r (request_name fmt lib gr namespace name)))
                _ _ _ h₁ in
            access_outcome-target ar namespace name t _ h₂
      ]

  resolve_all-Matches :
      (gr : GitRepository) (refs : List TargetRef) (ts : List (ResolvedTarget W)) (w : W)
      → (resolve_all fmt lib r gr refs w).0 ≡ ok ts
      → Matches refs ts
  unfolding resolve_all
  resolve_all-Matches gr [] ts w h = subst (Matches []) (ok-injective h) tt
  resolve_all-Matches gr (ref ∷ refs) ts w h =
      let (t, one, h₁) = try-eq-ok (resolve_one fmt lib r gr ref.namespace ref.name) _ _ w h in
      let (rest, others, h₂) = try-eq-ok (resolve_all fmt lib r gr refs) (λ e. e) _ _ h₁ in
      let (ns, n, c) = resolve_one-target gr ref.namespace ref.name t w one in
      subst (Matches (ref ∷ refs)) (ok-injective h₂)
        (ns, n, c, resolve_all-Matches gr refs rest _ others)

  -- A Resolve that succeeds returns one target for each name that was expanded, in the same order;
  -- each either waits for its access and has no client, or has its client.
  pub resolve-Matches :
      (gr : GitRepository) (control_planes : Client W ControlPlane) (ts : List (ResolvedTarget W))
      (w : W)
      → (resolve fmt lib r gr control_planes w).0 ≡ ok ts
      → (refs : List TargetRef) × ((resolve_names control_planes gr w).0 ≡ ok refs)
        × Matches refs ts
  unfolding resolve
  resolve-Matches gr control_planes ts w h =
      let (refs, named, h₁) = try-eq-ok (resolve_names control_planes gr) (λ e. e) _ w h in
      (refs, named, resolve_all-Matches gr refs ts _ h₁)
