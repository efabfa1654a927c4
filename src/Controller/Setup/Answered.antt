-- ===== src/Controller/Setup/Answered.antt =====
-- The AppInstallation controller with the client of internal/githubapp: what GitHub has answered when
-- a GitRepository resolves its credential.
use mathlib.Core.Bool.{false≢true}
use platform_service_gitops.GithubApp
use platform_service_gitops.K8s.Client.{Client}
use mathlib.Core.Path.{subst}
use platform_service_gitops.GithubApp.{
  Library, new_client, verify_app, Credentials, check_org_installation, check_user_installation,
  Answer, Installation, InstallationResult, installation_result, is_404,
}
use platform_service_gitops.Controller.AppInstallation.Outcome.{checked}
use platform_service_gitops.Controller.GitRepository.Credential.Handover.{
  Confirmed, as_patched, resolved-Confirmed,
}
use platform_service_gitops.Controller.{Runtime}
use platform_service_gitops.Prelude.{
  Bool-cases, String, ap, if◌then◌else◌, inl, inr, not, refl, sym, true, ◌==◌, ◌∙◌, ◌≡◌,
}
use platform_service_gitops.Credentials.{Source}
use platform_service_gitops.K8s.Laws.{ConditionLaws}
use platform_service_gitops.Api.GitRepository.{GitRepository}
use platform_service_gitops.Api.AppInstallation.{AppInstallation}
use platform_service_gitops.Go.Eff.{Eff}
use platform_service_gitops.Go.Invariant.{Result-cases, err≢ok, ok-injective}
use platform_service_gitops.Go.Int.{ℤ}
use platform_service_gitops.Go.Time.{Time}
use platform_service_gitops.Go.Error.{ok}
use platform_service_gitops.Go.Strings.{Unicode}
use platform_service_gitops.Controller.AppInstallation.{
  AppInstallationReconciler, GithubClient, reconcile_spec, resolve_credentials,
}
use platform_service_gitops.Controller.Setup.{github_client, new_app_installation_reconciler}
use platform_service_gitops.Controller.GitRepository.Credential.{
  credential_key, resolve_credential, resolved,
}
use platform_service_gitops.Controller.GitRepository.Base.{GitRepositoryReconciler}

-- An answer that says "installed" carries the installation.
installation_result-found :
    (a : Answer Installation) (res : InstallationResult)
    → installation_result a ≡ ok res
    → res.installed ≡ true
    → (inst : Installation) × (a.value ≡ ok inst) × (res.installation_id ≡ inst.id)
unfolding installation_result
installation_result-found a res h there = elim (Result-cases a.value) [
  | inl (inst, p) ↦
      (inst, p, ap (λ x. x.installation_id) (sym (ok-injective (rw (p, installation_result) at h))))
  | inr (e, p) ↦ elim (Bool-cases (is_404 a.status_code)) [
    | inl missing ↦ absurd (
        false≢true (
          ap (λ x. x.installed) (ok-injective (rw (p, missing, installation_result) at h)) ∙ there))
    | inr other ↦ absurd (err≢ok (rw (p, other, installation_result) at h))
  ]
]

module _ {W Transport Connection : Type 0} (rt : Runtime W) (u : Unicode)
    (lib : Library W Transport Connection) where
  -- The question about the target of the spec.
  abbrev pub asked :
      AppInstallation → GithubApp.Client Transport Connection → Eff W (Answer Installation)
  asked ai gh =
      let api = lib.apps gh.connection gh.transport in
      if not (ai.spec.org == "")
      then api.get_organization_installation ai.spec.org
      else api.get_user_installation ai.spec.user

  module _ (app_installations : Client W AppInstallation) (platform : Source W)
      (credential_namespace : String) where
    -- The reconciler as NewAppInstallationReconciler builds it.
    abbrev pub installer : AppInstallationReconciler W
    installer =
        new_app_installation_reconciler u lib app_installations platform credential_namespace

    -- In the pass over the AppInstallation, GitHub has answered with the installation of this ID,
    -- to a client that was built from the credentials and authenticated.
    pub record FromGithub (ai : AppInstallation) (id : ℤ) (w : W) : Type 0 where
      pub creds : Credentials
      pub gh : GithubApp.Client Transport Connection
      pub slug : String
      pub inst : Installation
      pub resolves : (resolve_credentials rt installer ai w).0 ≡ ok creds
      pub client : new_client u lib creds ≡ ok gh
      pub authenticated : (verify_app lib gh (resolve_credentials rt installer ai w).1).0 ≡ ok slug
      pub answer :
          (asked ai gh (verify_app lib gh (resolve_credentials rt installer ai w).1).1).0.value
          ≡ ok inst
      pub same_id : id ≡ inst.id

    abbrev as_client : GithubApp.Client Transport Connection → GithubClient W
    as_client gh = record {
      verify_app = verify_app lib gh;
      check_org_installation = check_org_installation lib gh;
      check_user_installation = check_user_installation lib gh;
    }

    checked-asked :
        (ai : AppInstallation) (gh : GithubApp.Client Transport Connection) (v : W)
        → (checked rt installer ai (as_client gh) v).0 ≡ installation_result (asked ai gh v).0
    unfolding check_org_installation check_user_installation
    checked-asked ai gh v = elim (Bool-cases (ai.spec.org == "")) [
      | inl blank ↦ rw blank refl
      | inr given ↦ rw given refl
    ]

    Confirmed-FromGithub :
        (ai : AppInstallation) (id : ℤ) (w : W)
        → Confirmed rt installer ai id w
        → FromGithub ai id w
    unfolding new_app_installation_reconciler github_client
    Confirmed-FromGithub ai id w c = elim (Result-cases (new_client u lib c.creds)) [
      | inr (e, p) ↦ absurd (err≢ok (rw (p, github_client) at c.client))
      | inl (gh, p) ↦
          let same : as_client gh ≡ c.gh = ok-injective (rw (p, github_client) at c.client) in
          let v₀ = (resolve_credentials rt installer ai w).1 in
          let answered : (checked rt installer ai (as_client gh) (verify_app lib gh v₀).1).0
              ≡ ok c.found =
            subst (λ x. (checked rt installer ai x (x.verify_app v₀).1).0 ≡ ok c.found) (sym same)
              c.answer in
          let (inst, q, id_is) =
            installation_result-found (asked ai gh (verify_app lib gh v₀).1).0 c.found
              (sym (checked-asked ai gh (verify_app lib gh v₀).1) ∙ answered) c.installed in
          record {
            creds = c.creds;
            gh = gh;
            slug = c.slug;
            inst = inst;
            resolves = c.resolves;
            client = p;
            authenticated = subst (λ x. (x.verify_app v₀).0 ≡ ok c.slug) (sym same) c.authenticated;
            answer = q;
            same_id = c.same_id ∙ id_is;
          }
    ]

    -- With the condition helpers as documented and the reconciler of NewAppInstallationReconciler:
    -- if resolveCredential reads the AppInstallation as a pass over it has patched it, then it
    -- resolves to an ID only if in that pass a client was built from the resolved credentials and
    -- authenticated, and GitHub answered its question about the one target of the spec with the
    -- installation of this ID.
    pub resolved-FromGithub :
        ConditionLaws rt.conditions
        → (r : GitRepositoryReconciler W) (gr : GitRepository) (ai x : AppInstallation) (id : ℤ)
          (now : Time) (w v : W)
        → (r.onboarding.app_installations.get (credential_key gr) v).0
          ≡ ok (as_patched now (reconcile_spec rt installer ai w).0.0)
        → (resolve_credential rt r gr v).0.1 ≡ resolved x id
        → FromGithub ai id w
    resolved-FromGithub C r gr ai x id now w v read h =
        Confirmed-FromGithub ai id w (resolved-Confirmed rt C installer r gr ai x id now w v read h)
