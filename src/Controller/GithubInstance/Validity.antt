-- ===== src/Controller/GithubInstance/Validity.antt =====
-- When a GitHubInstance is reported Ready.
use platform_service_gitops.Controller.{Runtime}
use platform_service_gitops.Prelude.{Bool-cases, List, [], ap, inl, inr, refl, ◌↔◌, ◌∙◌, ◌∷◌, ◌≡◌}
use platform_service_gitops.GithubApp.{Credentials}
use platform_service_gitops.Credentials.{from_secret, secret_key_of}
use platform_service_gitops.K8s.Meta.{condition_false, condition_true, condition_unknown}
use platform_service_gitops.K8s.Objects.{Secret}
use platform_service_gitops.Api.GithubInstance.{SecretReference}
use platform_service_gitops.Go.Invariant.{Result-cases}
use platform_service_gitops.Go.Error.{ok}
use platform_service_gitops.Controller.GithubInstance.{
  GithubInstanceReconciler, Verdict, check_secrets,
}

module _ {W : Type 0} (rt : Runtime W) (r : GithubInstanceReconciler W) where
  -- In turn, each credential Secret is read and holds credentials.
  abbrev pub AllValid : List SecretReference → W → Type 0
  AllValid [] w = Unit {0}
  AllValid (ref ∷ refs) w =
      (secret : Secret) × (creds : Credentials) × ((r.secrets.get
          (secret_key_of ref r.credential_namespace) w).0
        ≡ ok secret)
      × (from_secret rt.fmt secret ≡ ok creds)
      × AllValid refs (r.secrets.get (secret_key_of ref r.credential_namespace) w).1

  check_secrets-valid :
      (refs : List SecretReference) (v : Verdict) (w : W)
      → (check_secrets rt r refs v w).0.status ≡ condition_true
      → AllValid refs w
  unfolding check_secrets
  check_secrets-valid [] v w h = tt
  check_secrets-valid (ref ∷ refs) v w h =
      elim (Result-cases (r.secrets.get (secret_key_of ref r.credential_namespace) w).0) [
        | inr (e, p) ↦ elim (Bool-cases e.not_found) [
          | inl gone ↦ absurd (false_status (rw (p, gone) at h))
          | inr other ↦ absurd (unknown_status (rw (p, other) at h))
        ]
        | inl (secret, p) ↦ elim (Result-cases (from_secret rt.fmt secret)) [
          | inr (e, q) ↦ absurd (false_status (rw (p, q) at h))
          | inl (creds, q) ↦ (secret, creds, p, q, check_secrets-valid refs v _ (rw (p, q) at h))
        ]
      ]
    where
      false_status : condition_false ≡ condition_true → ⊥
      false_status q = cc

      unknown_status : condition_unknown ≡ condition_true → ⊥
      unknown_status q = cc

  valid-check_secrets :
      (refs : List SecretReference) (v : Verdict) (w : W)
      → AllValid refs w
      → (check_secrets rt r refs v w).0 ≡ v
  unfolding check_secrets
  valid-check_secrets [] v w a = refl
  valid-check_secrets (ref ∷ refs) v w (secret, creds, p, q, rest) =
      rw (p, q) (valid-check_secrets refs v _ rest)

  -- From a verdict whose status is True, the loop over the credential Secrets ends with status True
  -- exactly if each of them in turn can be read and holds credentials.
  pub check_secrets-eq-true_iff :
      (refs : List SecretReference) (v : Verdict) (w : W)
      → v.status ≡ condition_true
      → ((check_secrets rt r refs v w).0.status ≡ condition_true) ↔ AllValid refs w
  check_secrets-eq-true_iff refs v w start = (
    check_secrets-valid refs v w,
    (λ a. ap (λ x. x.status) (valid-check_secrets refs v w a) ∙ start),
  )
