-- ===== src/Propagate.antt =====
-- internal/propagate/propagate.go
pub mod Laws
pub mod Ownership
pub mod Rotation
pub mod FluxWrites
pub mod Writes
pub mod Cleanup
pub mod Protection
pub mod Elsewhere
use platform_service_gitops.Prelude.{
  ◌*◌, String, ◌<>◌, Bool, true, false, ◌||◌, not, Option, none, some, [], ◌∷◌, ◌==◌, if◌then◌else◌,
}
use platform_service_gitops.Go.Int.{ℤ, pos, leb_ℤ}
use platform_service_gitops.Go.Error.{Result, ok, err, wrap}
use platform_service_gitops.Go.Eff.{Eff, pure, fail, try, ◌>>=◌}
use platform_service_gitops.Go.Dict.{Dict, insert, find, at_key, made}
use platform_service_gitops.Go.Time.{Time, Duration, minute, until, Clock}
use platform_service_gitops.K8s.Meta.{NamespacedName, ObjectMeta, key_of}
use platform_service_gitops.K8s.Client.{Client}
use platform_service_gitops.K8s.Objects.{
  Secret, FluxGitRepositorySpec, FluxGitRepository, McpClient,
}
use platform_service_gitops.Api.GitRepository.{GitRepository}
use platform_service_gitops.GithubApp.{TokenResult}

abbrev pub managed_by_annotation : String
managed_by_annotation = "openmcp.cloud/managed-by"

abbrev pub token_expires_at_annotation : String
token_expires_at_annotation = "openmcp.cloud/token-expires-at"

abbrev pub flux_interval : Duration
flux_interval = pos (1 * minute)

abbrev pub secret_token_key : String
secret_token_key = "bearerToken"

pub record TokenMinter (W : Type 0) : Type 0 where
  pub mint_scoped_token : ℤ → String → Eff W (Result TokenResult)

-- The type Result of the source.
pub record Outcome : Type 0 where
  pub token_expires_at : Time
  pub conflict : Bool

unfoldable pub secret_name : GitRepository → String
secret_name gr = gr.meta.name <> "-token"

unfoldable pub managed_by_value : GitRepository → String
managed_by_value gr = gr.meta.namespace <> ("/" <> gr.meta.name)

abbrev pub secret_key : GitRepository → String → NamespacedName
secret_key gr flux_namespace = record { namespace = flux_namespace; name = secret_name gr }

abbrev pub flux_key : GitRepository → String → NamespacedName
flux_key gr flux_namespace = record { namespace = flux_namespace; name = gr.meta.name }

unfoldable pub flux_git_repository_spec : GitRepository → String → FluxGitRepositorySpec
flux_git_repository_spec gr secret_ref_name =
    let ref = gr.spec.ref in
    record {
      url = gr.spec.url;
      interval = flux_interval;
      secret_ref = some secret_ref_name;
      reference =
          if not (ref.branch == "") || (not (ref.tag == "") || not (ref.commit == ""))
          then some (record { branch = ref.branch; tag = ref.tag; commit = ref.commit })
          else none;
    }

-- The metadata that the program gives to an object that it creates.
abbrev pub new_meta : String → String → Option (Dict String) → ObjectMeta
new_meta namespace name annotations = record {
  name = name;
  namespace = namespace;
  generation = pos 0;
  annotations = annotations;
  finalizers = [];
  deletion_timestamp = none;
}

module _ {W : Type 0} (clock : Clock W) where
  unfoldable pub desired_secret : GitRepository → String → String → TokenResult → Secret
  desired_secret gr namespace name tok = record {
    meta = new_meta namespace name (
        some (
          (managed_by_annotation, managed_by_value gr)
          ∷ (token_expires_at_annotation, clock.format_rfc3339 tok.expires_at)
          ∷ []));
    contents = (secret_token_key, tok.token) ∷ [];
    type = "Opaque";
  }

  -- The existing Secret with the data and the two annotations of the desired one.
  unfoldable pub updated_secret : Secret → Secret → Secret
  unfolding insert
  updated_secret existing desired = record existing {
    meta = record existing.meta {
      annotations = some (
          insert token_expires_at_annotation
            (at_key token_expires_at_annotation desired.meta.annotations)
            (insert managed_by_annotation (at_key managed_by_annotation desired.meta.annotations)
              (made existing.meta.annotations)));
    };
    contents = desired.contents;
  }

  unfoldable pub sync_secret :
      McpClient W → GitRepository → String → String → TokenResult → Eff W (Result (Unit {0}))
  unfolding desired_secret updated_secret
  sync_secret mcp gr namespace name tok =
      let desired = desired_secret gr namespace name tok in
      try (mcp.secrets.get (record { namespace = namespace; name = name }))
        (λ e. if e.not_found then mcp.secrets.create desired else fail (wrap "getting Secret: " e))
        (λ existing. mcp.secrets.update (updated_secret existing desired))

unfoldable pub desired_flux : GitRepository → String → String → FluxGitRepository
unfolding flux_git_repository_spec
desired_flux gr namespace secret_ref_name = record {
  meta = new_meta namespace gr.meta.name (some ((managed_by_annotation, managed_by_value gr) ∷ []));
  spec = flux_git_repository_spec gr secret_ref_name;
}

module _ {W : Type 0} where
  abbrev pub no_conflict : Eff W (Result (Unit {0})) → Eff W (Result Bool)
  no_conflict m = try m fail (λ _. pure (ok false))

  unfoldable pub sync_flux_git_repository :
      McpClient W → GitRepository → String → String → Eff W (Result Bool)
  unfolding desired_flux
  sync_flux_git_repository mcp gr namespace secret_ref_name =
      try (mcp.flux_git_repositories.get (record { namespace = namespace; name = gr.meta.name }))
        (λ e.
          if e.not_found
          then no_conflict
              (mcp.flux_git_repositories.create (desired_flux gr namespace secret_ref_name))
          else fail (wrap "getting Flux GitRepository: " e))
        (λ existing.
          if at_key managed_by_annotation existing.meta.annotations == managed_by_value gr
          then no_conflict (
              mcp.flux_git_repositories.update
                (record existing { spec = flux_git_repository_spec gr secret_ref_name }))
          else pure (ok true))

module _ {W : Type 0} (clock : Clock W) (mcp : McpClient W) where
  unfoldable pub reconcile : GitRepository → String → ℤ → TokenMinter W → Eff W (Result Outcome)
  unfolding sync_secret sync_flux_git_repository
  reconcile gr flux_namespace installation_id minter =
      try (minter.mint_scoped_token installation_id "") (λ e. fail (wrap "minting token: " e))
        λ tok.
          try (sync_secret clock mcp gr flux_namespace (secret_name gr) tok)
            (λ e. fail (wrap "syncing Secret: " e))
            λ _.
              try (sync_flux_git_repository mcp gr flux_namespace (secret_name gr))
                (λ e. fail (wrap "syncing Flux GitRepository: " e))
                λ conflict.
                  pure (ok (record { token_expires_at = tok.expires_at; conflict = conflict }))

  abbrev pub rotation_due : Duration → Option String → Eff W Bool
  rotation_due renew_buffer none = pure true
  rotation_due renew_buffer (some raw) = elim (clock.parse_rfc3339 raw) [
    | err e ↦ pure true
    | ok expires_at ↦ (do now ← clock.now; pure (leb_ℤ (until expires_at now) renew_buffer))
  ]

  unfoldable pub needs_rotation : GitRepository → String → Duration → Eff W Bool
  needs_rotation gr flux_namespace renew_buffer =
      try (mcp.secrets.get (secret_key gr flux_namespace)) (λ e. pure e.not_found)
        (λ secret.
          rotation_due renew_buffer (find token_expires_at_annotation secret.meta.annotations))

-- One of the two halves of Cleanup: the object at the key is deleted if its annotation says so.
-- An error of the Get is dropped.
unfoldable pub delete_owned :
    {W O : Type 0}
    → Client W O
    → (O → ObjectMeta)
    → String
    → String
    → NamespacedName
    → Eff W (Result (Unit {0}))
delete_owned c meta managed_by message key =
    try (c.get key) (λ _. pure (ok tt))
      (λ o.
        if at_key managed_by_annotation (meta o).annotations == managed_by
        then try (c.delete (key_of (meta o)))
            (λ e. if e.not_found then pure (ok tt) else fail (wrap message e)) (λ _. pure (ok tt))
        else pure (ok tt))

abbrev pub flux_meta : FluxGitRepository → ObjectMeta
flux_meta o = o.meta

abbrev pub secret_meta : Secret → ObjectMeta
secret_meta o = o.meta

unfoldable pub cleanup :
    {W : Type 0} → McpClient W → GitRepository → String → Eff W (Result (Unit {0}))
unfolding delete_owned
cleanup mcp gr flux_namespace =
    let managed_by = managed_by_value gr in
    try
      (delete_owned mcp.flux_git_repositories flux_meta managed_by "deleting Flux GitRepository: "
        (flux_key gr flux_namespace))
      fail
      (λ _.
        delete_owned mcp.secrets secret_meta managed_by "deleting token Secret: "
          (secret_key gr flux_namespace))
