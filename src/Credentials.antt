-- ===== src/Credentials.antt =====
-- internal/credentials/resolve.go
pub mod Selection
pub mod Contents
use platform_service_gitops.Prelude.{
  String, ◌<>◌, none, some, List, [], ◌∷◌, length, ◌==◌, if◌then◌else◌,
}
use platform_service_gitops.Go.Int.{ℤ, pos}
use platform_service_gitops.Go.Error.{Result, ok, err, errorf, wrap, Fmt}
use platform_service_gitops.Go.Eff.{Eff, pure, fail, try}
use platform_service_gitops.Go.Dict.{lookup}
use platform_service_gitops.Go.Strings.{parse_int}
use platform_service_gitops.K8s.Meta.{NamespacedName}
use platform_service_gitops.K8s.Client.{Client}
use platform_service_gitops.K8s.Objects.{Secret}
use platform_service_gitops.Api.GithubInstance.{SecretReference, GithubInstance}
use platform_service_gitops.GithubApp.{Credentials}

abbrev pub secret_key_app_id : String
secret_key_app_id = "appID"

abbrev pub secret_key_private_key : String
secret_key_private_key = "privateKey"

abbrev pub secret_key_url : String
secret_key_url = "url"

module _ (fmt : Fmt) where
  -- the loop over refs
  unfoldable pub find_ref : List SecretReference → String → Result SecretReference
  find_ref [] credential_name = err (
      errorf (
        "credentialName "
        <> (fmt.quoted credential_name <> " not found in GitHubInstance secretRefs")))
  find_ref (ref ∷ refs) credential_name =
      if ref.name == credential_name then ok ref else find_ref refs credential_name

  unfoldable pub sole_ref : List SecretReference → Result SecretReference
  sole_ref (ref ∷ []) = ok ref
  sole_ref refs = err (
      errorf (
        "credentialName must be set: instance lists "
        <> (fmt.decimal (pos (length refs)) <> " secrets")))

  unfoldable pub select_secret_ref : List SecretReference → String → Result SecretReference
  unfolding find_ref sole_ref
  select_secret_ref refs credential_name =
      if credential_name == "" then sole_ref refs else find_ref refs credential_name

  abbrev pub secret_path : Secret → String
  secret_path s = "secret " <> (s.meta.namespace <> ("/" <> s.meta.name))

  -- v, ok := secret.Data[key]; if !ok …
  unfoldable pub data_key : Secret → String → Result String
  data_key s key = elim (lookup key s.contents) [
    | none ↦ err (errorf (secret_path s <> (" missing key " <> fmt.quoted key)))
    | some v ↦ ok v
  ]

  abbrev then_ : {A B : Type 0} → Result A → (A → Result B) → Result B
  then_ (ok a) f = f a
  then_ (err e) f = err e

  abbrev bad_app_id : Secret → Result ℤ → Result ℤ
  bad_app_id s (ok n) = ok n
  bad_app_id s (err e) = err (
      wrap
        (secret_path s
          <> (" key " <> (fmt.quoted secret_key_app_id <> " is not a valid integer: ")))
        e)

  unfoldable pub from_secret : Secret → Result Credentials
  from_secret s = then_ (data_key s secret_key_app_id) λ raw.
      then_ (bad_app_id s (parse_int fmt.quoted raw)) λ app_id.
        then_ (data_key s secret_key_private_key) λ pk.
          then_ (data_key s secret_key_url)
            λ url. ok (record { app_id = app_id; private_key = pk; url = url })

-- if ns == "" { ns = defaultNamespace }
abbrev pub namespace_or : String → String → String
namespace_or default_namespace ns = if ns == "" then default_namespace else ns

abbrev pub secret_key_of : SecretReference → String → NamespacedName
secret_key_of ref default_namespace = record {
  namespace = namespace_or default_namespace ref.namespace;
  name = ref.name;
}

-- The part of the platform cluster's client that `Resolve` reads.
pub record Source (W : Type 0) : Type 0 where
  pub github_instances : Client W GithubInstance
  pub secrets : Client W Secret

module _ {W : Type 0} (fmt : Fmt) (c : Source W) where
  unfoldable pub read_secret : SecretReference → String → Eff W (Result Credentials)
  unfolding from_secret
  read_secret ref default_namespace =
      let key = secret_key_of ref default_namespace in
      let path = key.namespace <> ("/" <> key.name) in
      try (c.secrets.get key)
        (λ e.
          if e.not_found
          then fail (errorf ("credential Secret " <> (path <> " not found")))
          else fail (wrap ("fetching credential Secret " <> (path <> ": ")) e))
        (λ secret. pure (from_secret fmt secret))

  unfoldable pub resolve : String → String → String → Eff W (Result Credentials)
  unfolding select_secret_ref read_secret
  resolve instance_name credential_name default_namespace =
      try (c.github_instances.get (record { namespace = ""; name = instance_name }))
        (λ e.
          if e.not_found
          then fail (errorf ("GitHubInstance " <> (fmt.quoted instance_name <> " not found")))
          else fail (wrap ("fetching GitHubInstance " <> (fmt.quoted instance_name <> ": ")) e))
        λ inst. elim (select_secret_ref fmt inst.spec.secret_refs credential_name) [
          | err e ↦ fail e
          | ok ref ↦ read_secret ref default_namespace
        ]
