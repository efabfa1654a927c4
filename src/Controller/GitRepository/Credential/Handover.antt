-- ===== src/Controller/GitRepository/Credential/Handover.antt =====
-- From the AppInstallation controller to the GitRepository controller: the credential that is
-- resolved after a pass over the AppInstallation, and what GitHub said in that pass.
use mathlib.Core.Path.{subst}
use mathlib.Core.Option.{some-injective}
use mathlib.Core.Bool.{false≢true}
use platform_service_gitops.Controller.AppInstallation.{
  AppInstallationReconciler, GithubClient, reconcile_spec, same_bool, resolve_credentials,
  cond_app_installed,
}
use platform_service_gitops.Controller.{Runtime}
use platform_service_gitops.Prelude.{
  Option, String, ap, arith, false, inl, inr, none, some, sym, true, ◌==◌, ◌∙◌, ◌≡◌, ◌≢◌,
}
use platform_service_gitops.GithubApp.{Credentials, InstallationResult}
use platform_service_gitops.K8s.Meta.{
  ConditionStatus, condition_false, condition_true, condition_unknown,
}
use platform_service_gitops.K8s.Laws.{ConditionLaws, Reported, condition_at, is_true_status}
use platform_service_gitops.Api.GitRepository.{GitRepository}
use platform_service_gitops.Api.AppInstallation.{AppInstallation}
use platform_service_gitops.Go.Invariant.{Result-cases, ok-injective}
use platform_service_gitops.Go.Int.{ℤ}
use platform_service_gitops.Go.Time.{Time}
use platform_service_gitops.Go.Error.{ok}
use platform_service_gitops.Controller.AppInstallation.Outcome.{
  checked, Recorded, Verified, map_status, reconcile_spec-Verified,
}
use platform_service_gitops.Controller.GitRepository.Credential.{
  credential_key, resolve_credential, resolved,
}
use platform_service_gitops.Controller.GitRepository.Base.{GitRepositoryReconciler}
use platform_service_gitops.Controller.GitRepository.Credential.Agreement.{
  resolve_credential-resolved,
}

-- The object whose status a pass patches.
abbrev pub as_patched : Time → AppInstallation → AppInstallation
as_patched now ai = record ai {
  status = record ai.status { observed_generation = ai.meta.generation; last_checked = some now };
}

other_status :
    (c : Option Reported) (s : ConditionStatus)
    → map_status c ≡ some s
    → s ≢ condition_true
    → is_true_status c ≡ true
    → ⊥
other_status none s h other t = ground arith
other_status (some c) s h other t = go c.status s h other t
  where
    go :
        (a s : ConditionStatus)
        → some a ≡ some s
        → s ≢ condition_true
        → (elim a [ condition_true ↦ true | condition_false ↦ false | condition_unknown ↦ false ])
          ≡ true
        → ⊥
    go condition_true s h other t = other (some-injective s condition_true (sym h))
    go condition_false s h other t = false≢true t
    go condition_unknown s h other t = false≢true t

false≢true_status : condition_false ≢ condition_true
false≢true_status p = cc

unknown≢true_status : condition_unknown ≢ condition_true
unknown≢true_status p = cc

module _ {W : Type 0} (rt : Runtime W) (a : AppInstallationReconciler W) where
  -- In the pass over the AppInstallation the App was authenticated, and GitHub said that it is
  -- installed on the one target of the spec, under this ID.
  pub record Confirmed (ai : AppInstallation) (id : ℤ) (w : W) : Type 0 where
    pub creds : Credentials
    pub gh : GithubClient W
    pub slug : String
    pub found : InstallationResult
    pub one_target : same_bool rt a (ai.spec.org == "") (ai.spec.user == "") ≡ false
    pub resolves : (resolve_credentials rt a ai w).0 ≡ ok creds
    pub client : a.new_client creds ≡ ok gh
    pub authenticated : (gh.verify_app (resolve_credentials rt a ai w).1).0 ≡ ok slug
    pub answer :
        (checked rt a ai gh (gh.verify_app (resolve_credentials rt a ai w).1).1).0 ≡ ok found
    pub installed : found.installed ≡ true
    pub same_id : id ≡ found.installation_id

  Verified-Confirmed :
      (ai ai' : AppInstallation) (id : ℤ) (w : W)
      → Verified rt a ai ai' w
      → is_true_status (condition_at cond_app_installed ai'.status.conditions) ≡ true
      → id ≡ ai'.status.installation_id
      → Confirmed ai id w
  Verified-Confirmed ai ai' id w (creds, gh, slug, one, p, q, v, recorded) t same =
      let answer = (checked rt a ai gh (gh.verify_app (resolve_credentials rt a ai w).1).1).0 in
      elim (Result-cases answer) [
        | inr (e, x) ↦
            let shows = subst (λ y. Recorded ai y ai') x recorded in
            absurd (other_status _ condition_unknown shows.0 unknown≢true_status t)
        | inl (found, x) ↦ elim (subst (λ y. Recorded ai y ai') x recorded) [
          | inr (missing, shows) ↦
              absurd (other_status _ condition_false shows.0 false≢true_status t)
          | inl (there, shows) ↦ record {
            creds = creds;
            gh = gh;
            slug = slug;
            found = found;
            one_target = one;
            resolves = p;
            client = q;
            authenticated = v;
            answer = x;
            installed = there;
            same_id = same ∙ shows.2;
          }
        ]
      ]

-- With the condition helpers as documented, if resolveCredential reads the AppInstallation as a
-- pass over it has patched it, then it resolves to an ID only if in that pass the App was
-- authenticated and GitHub said that it is installed on the one target of the spec, under this ID.
pub resolved-Confirmed :
    {W : Type 0} (rt : Runtime W) (C : ConditionLaws rt.conditions)
    (a : AppInstallationReconciler W) (r : GitRepositoryReconciler W) (gr : GitRepository)
    (ai x : AppInstallation) (id : ℤ) (now : Time) (w v : W)
    → (r.onboarding.app_installations.get (credential_key gr) v).0
      ≡ ok (as_patched now (reconcile_spec rt a ai w).0.0)
    → (resolve_credential rt r gr v).0.1 ≡ resolved x id
    → Confirmed rt a ai id w
resolved-Confirmed rt C a r gr ai x id now w v read h =
    let (kind, got, installed, same, nonzero) = resolve_credential-resolved rt C r gr v x id h in
    let is_x : as_patched now (reconcile_spec rt a ai w).0.0 ≡ x = ok-injective (sym read ∙ got) in
    let ai' : AppInstallation = (reconcile_spec rt a ai w).0.0 in
    let t : is_true_status (condition_at cond_app_installed ai'.status.conditions) ≡ true =
      ap
        (λ (y : AppInstallation).
          is_true_status (condition_at cond_app_installed y.status.conditions))
        is_x
      ∙ installed in
    elim (reconcile_spec-Verified rt C a ai w) [
      | inl shows ↦ absurd (other_status _ condition_false shows.0 false≢true_status t)
      | inr verified ↦
          Verified-Confirmed rt a ai ai' id w verified t
            (same ∙ ap (λ (y : AppInstallation). y.status.installation_id) (sym is_x))
    ]
