-- ===== src/McpAccess/Access/Clusters.antt =====
-- The clients in the targets of internal/mcpaccess/resolver.go: where they come from.
use mathlib.Core.Path.{subst}
use platform_service_gitops.K8s.Client.{Client}
use platform_service_gitops.McpAccess.{ResolvedTarget, AccessLibrary}
use platform_service_gitops.McpAccess.Access.{
  resolve, resolve_one, PlatformResolver, access_outcome, cluster_from_access_request,
  cluster_from_secret, ensure_access_request, request_key, request_name, resolve_all,
}
use platform_service_gitops.Prelude.{
  Bool-cases, List, Option, Option-cases, String, [], inl, inr, none, some, ◌∷◌, ◌≡◌,
}
use platform_service_gitops.K8s.Meta.{NamespacedName}
use platform_service_gitops.K8s.Objects.{AccessRequest, McpClient, Secret, ControlPlane}
use platform_service_gitops.Go.Dict.{lookup, made}
use platform_service_gitops.Go.Eff.{pure}
use platform_service_gitops.Go.Invariant.{Result-cases, err≢ok, ok-injective, try-eq-ok}
use platform_service_gitops.Go.Error.{Fmt, ok}
use platform_service_gitops.Main.Permissions.{denied}
use platform_service_gitops.Api.GitRepository.{GitRepository}
use platform_service_gitops.McpAccess.Names.{TargetRef, resolve_names}

-- The client of a target, if there is one, has a property.
abbrev pub HasCluster : {W : Type 0} → (McpClient W → Type 0) → Option (McpClient W) → Type 0
HasCluster Q none = Unit {0}
HasCluster Q (some mcp) = Q mcp

abbrev pub AllClusters : {W : Type 0} → (McpClient W → Type 0) → List (ResolvedTarget W) → Type 0
AllClusters Q [] = Unit {0}
AllClusters Q (t ∷ ts) = HasCluster Q t.cluster × AllClusters Q ts

module _ {W Kubeconfig : Type 0} (fmt : Fmt) (lib : AccessLibrary W Kubeconfig)
    (r : PlatformResolver W) (Q : McpClient W → Type 0) where
  -- The library gives only clients with the property.
  abbrev pub Gives : Type 0
  Gives =
      (name : String) (config : Kubeconfig) (w : W) (cl : McpClient W)
      → (lib.initialize_client name config w).0 ≡ ok cl
      → Q cl

  from_secret-Q :
      (ar : AccessRequest) (secret_ref : String) (secret : Secret) (name : String) (w : W)
      (cl : McpClient W)
      → Gives
      → (cluster_from_secret fmt lib ar secret_ref secret name w).0 ≡ ok cl
      → Q cl
  unfolding cluster_from_secret
  from_secret-Q ar secret_ref secret name w cl gives h =
      elim (Option-cases (lookup "kubeconfig" secret.contents)) [
        | inl p ↦ absurd (err≢ok (rw (p, cluster_from_secret) at h))
        | inr (raw, p) ↦ elim (Result-cases (lib.rest_config raw)) [
          | inr (e, q) ↦ absurd (err≢ok (rw (p, q, cluster_from_secret) at h))
          | inl (config, q) ↦
              let (x, made, same) =
                try-eq-ok (lib.initialize_client name config) _ (λ c. pure (ok c)) w
                  (rw (p, q, cluster_from_secret) at h) in
              subst Q (ok-injective same) (gives name config w x made)
        ]
      ]

  access_outcome-HasCluster :
      (ar : AccessRequest) (namespace name : String) (t : ResolvedTarget W) (w : W)
      → Gives
      → (access_outcome fmt lib r ar namespace name w).0 ≡ ok t
      → HasCluster Q t.cluster
  unfolding access_outcome cluster_from_access_request
  access_outcome-HasCluster ar namespace name t w gives h = elim (Bool-cases ar.is_pending) [
    | inl waiting ↦ subst (λ x. HasCluster Q x.cluster) (ok-injective (rw waiting at h)) tt
    | inr decided ↦ elim (Bool-cases ar.is_denied) [
      | inl denied ↦ absurd (err≢ok (rw (decided, denied) at h))
      | inr granted ↦ elim (Option-cases ar.secret_ref) [
        | inl p ↦ absurd (err≢ok (rw (decided, granted, p, cluster_from_access_request) at h))
        | inr (secret_ref, p) ↦
            let key : NamespacedName = record {
              namespace = ar.meta.namespace;
              name = secret_ref;
            } in
            elim (Result-cases (r.secrets.get key w).0) [
              | inr (e, q) ↦
                  absurd (err≢ok (rw (decided, granted, p, q, cluster_from_access_request) at h))
              | inl (secret, q) ↦
                  let built = cluster_from_secret fmt lib ar secret_ref secret name in
                  let (cl, made, same) =
                    try-eq-ok built _ (λ c. pure (ok _)) (r.secrets.get key w).1
                      (rw (decided, granted, p, q, cluster_from_access_request) at h) in
                  subst (λ x. HasCluster Q x.cluster) (ok-injective same)
                    (from_secret-Q ar secret_ref secret name _ cl gives made)
            ]
      ]
    ]
  ]

  resolve_one-HasCluster :
      (gr : GitRepository) (namespace name : String) (t : ResolvedTarget W) (w : W)
      → Gives
      → (resolve_one fmt lib r gr namespace name w).0 ≡ ok t
      → HasCluster Q t.cluster
  unfolding resolve_one
  resolve_one-HasCluster gr namespace name t w gives h =
      elim (Result-cases (lib.stable_mcp_namespace name namespace)) [
        | inr (e, p) ↦ absurd (err≢ok (rw (p, resolve_one) at h))
        | inl (mcp_namespace, p) ↦
            let (_, ensured, h₁) =
              try-eq-ok
                (ensure_access_request fmt lib r (request_name fmt lib gr namespace name) name
                  mcp_namespace)
                _ _ w (rw (p, resolve_one) at h) in
            let (ar, read, h₂) =
              try-eq-ok
                (r.access_requests.get
                  (request_key fmt lib r (request_name fmt lib gr namespace name)))
                _ _ _ h₁ in
            access_outcome-HasCluster ar namespace name t _ gives h₂
      ]

  resolve_all-AllClusters :
      (gr : GitRepository) (refs : List TargetRef) (ts : List (ResolvedTarget W)) (w : W)
      → Gives
      → (resolve_all fmt lib r gr refs w).0 ≡ ok ts
      → AllClusters Q ts
  unfolding resolve_all
  resolve_all-AllClusters gr [] ts w gives h = subst (AllClusters Q) (ok-injective h) tt
  resolve_all-AllClusters gr (ref ∷ refs) ts w gives h =
      let (t, one, h₁) = try-eq-ok (resolve_one fmt lib r gr ref.namespace ref.name) _ _ w h in
      let (rest, others, h₂) = try-eq-ok (resolve_all fmt lib r gr refs) (λ e. e) _ _ h₁ in
      subst (AllClusters Q) (ok-injective h₂) (
        resolve_one-HasCluster gr ref.namespace ref.name t w gives one,
        resolve_all-AllClusters gr refs rest _ gives others,
      )

  -- A Resolve gives only clients that InitializeClient gave.
  pub resolve-AllClusters :
      (gr : GitRepository) (control_planes : Client W ControlPlane) (ts : List (ResolvedTarget W))
      (w : W)
      → Gives
      → (resolve fmt lib r gr control_planes w).0 ≡ ok ts
      → AllClusters Q ts
  unfolding resolve
  resolve-AllClusters gr control_planes ts w gives h =
      let (refs, named, h₁) = try-eq-ok (resolve_names control_planes gr) (λ e. e) _ w h in
      resolve_all-AllClusters gr refs ts _ gives h₁
