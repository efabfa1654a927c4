-- ===== src/McpAccess/Access/Requests.antt =====
-- The AccessRequests on the platform cluster.
use mathlib.Core.Path.{subst}
use platform_service_gitops.McpAccess.Access.{
  cleanup, PlatformResolver, ensure_access_request, new_access_request, request_key, request_name,
}
use platform_service_gitops.Prelude.{
  Bool-cases, String, ap, false, inl, inr, none, some, ◌∙◌, ◌≡◌, ◌⊎◌,
}
use platform_service_gitops.McpAccess.{AccessLibrary}
use platform_service_gitops.K8s.Meta.{NamespacedName, ObjectMeta, key_of, same_key}
use platform_service_gitops.K8s.Objects.{AccessRequest}
use platform_service_gitops.K8s.Laws.{IsReleased, StoreLaws, sent_meta}
use platform_service_gitops.K8s.Memory.{same_key-true}
use platform_service_gitops.Api.GitRepository.{GitRepository}
use platform_service_gitops.Go.Invariant.{Result-cases, err≢ok}
use platform_service_gitops.Go.Error.{Fmt, ok}

-- An AccessRequest without what the server sets: parts of the metadata, and the status, which a
-- create does not write.
abbrev pub sent_request : AccessRequest → AccessRequest
sent_request a = record a {
  meta = sent_meta a.meta;
  is_pending = false;
  is_denied = false;
  secret_ref = none;
}

module _ {W RestConfig : Type 0} (fmt : Fmt) (lib : AccessLibrary W RestConfig)
    (r : PlatformResolver W) (meta : AccessRequest → ObjectMeta)
    (L : StoreLaws r.access_requests meta sent_request)
    (same_meta : (a : AccessRequest) → meta a ≡ a.meta) where
  -- Present at the key before and after, and the same; or absent before, and new after, up to what
  -- the server sets.
  abbrev pub Ensured : String → String → String → W → W → Type 0
  Ensured ar_name name mcp_namespace w w' =
      let k = request_key fmt lib r ar_name in
      ((ar : AccessRequest) × (L.view w k ≡ some ar) × (L.view w' k ≡ some ar))
      ⊎ ((L.view w k ≡ none)
          × ((s : AccessRequest) × (L.view w' k ≡ some s)
              × (sent_request s
                  ≡ sent_request (new_access_request fmt lib r ar_name name mcp_namespace))))

  -- On a platform cluster that obeys StoreLaws, an ensureAccessRequest that succeeds leaves the
  -- AccessRequest as it is if there is one, and otherwise leaves a new one for the ClusterRequest
  -- of the control plane, up to what the server sets: the status, the generation and the deletion
  -- timestamp.
  pub ensure_access_request-Ensured :
      (ar_name name mcp_namespace : String) (w : W)
      → (ensure_access_request fmt lib r ar_name name mcp_namespace w).0 ≡ ok tt
      → Ensured ar_name name mcp_namespace w
          (ensure_access_request fmt lib r ar_name name mcp_namespace w).1
  unfolding ensure_access_request new_access_request
  ensure_access_request-Ensured ar_name name mcp_namespace w h =
      let k = request_key fmt lib r ar_name in
      let new : AccessRequest = new_access_request fmt lib r ar_name name mcp_namespace in
      elim (Result-cases (r.access_requests.get k w).0) [
        | inl (ar, p) ↦
            let there : L.view w k ≡ some ar = L.get_ok k w ar p in
            rw p (inl (ar, there, ap (λ v. v k) (L.get_keeps k w) ∙ there))
        | inr (e, p) ↦ elim (Bool-cases e.not_found) [
          | inr other ↦ absurd (err≢ok (rw (p, other) at h))
          | inl gone ↦
              let made : (r.access_requests.create new (r.access_requests.get k w).1).0 ≡ ok tt =
                rw (p, gone) at h in
              let at_k : key_of (meta new) ≡ k = new-key ar_name name mcp_namespace in
              let (s, stored, same) = L.create_ok new (r.access_requests.get k w).1 made in
              rw (p, gone)
                (inr (
                  L.get_absent k w e p gone,
                  (
                    s,
                    subst
                        (λ j.
                          L.view (r.access_requests.create new (r.access_requests.get k w).1).1 j
                          ≡ some s)
                        at_k stored,
                    same,
                  ),
                ))
        ]
      ]
    where
      new-key :
          (ar_name name mcp_namespace : String)
          → key_of (meta (new_access_request fmt lib r ar_name name mcp_namespace))
            ≡ request_key fmt lib r ar_name
      new-key ar_name name mcp_namespace =
          ap key_of (same_meta (new_access_request fmt lib r ar_name name mcp_namespace))

  -- A deletion of an AccessRequest that finds it, or finds none, leaves it deleted.
  deleted-IsReleased :
      (k j : NamespacedName) (w : W)
      → IsReleased meta (L.view (r.access_requests.delete k w).1 k)
      → (same_key j k ≡ false → IsReleased meta (L.view w j))
      → IsReleased meta (L.view (r.access_requests.delete k w).1 j)
  deleted-IsReleased k j w gone before = elim (Bool-cases (same_key j k)) [
    | inl same ↦ rw (same_key-true j k same) gone
    | inr other ↦ rw (L.delete_other k w j other) (before other)
  ]

  -- A resolver's Cleanup that succeeds deletes the AccessRequest of the pair, and what was deleted
  -- before stays so.
  pub cleanup-IsReleased :
      (gr : GitRepository) (namespace name : String) (j : NamespacedName) (w : W)
      → (cleanup fmt lib r gr namespace name w).0 ≡ ok tt
      → (same_key j (request_key fmt lib r (request_name fmt lib gr namespace name)) ≡ false
          → IsReleased meta (L.view w j))
      → IsReleased meta (L.view (cleanup fmt lib r gr namespace name w).1 j)
  unfolding cleanup
  cleanup-IsReleased gr namespace name j w h before =
      let k = request_key fmt lib r (request_name fmt lib gr namespace name) in
      elim (Result-cases (r.access_requests.delete k w).0) [
        | inl (tt, p) ↦ rw p (deleted-IsReleased k j w (L.delete_ok k w p) before)
        | inr (e, p) ↦ elim (Bool-cases e.not_found) [
          | inl gone ↦
              rw (p, gone) (deleted-IsReleased k j w (rw (L.delete_absent k w e p gone) tt) before)
          | inr other ↦ absurd (err≢ok (rw (p, other) at h))
        ]
      ]
