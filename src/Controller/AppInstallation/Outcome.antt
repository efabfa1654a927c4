-- ===== src/Controller/AppInstallation/Outcome.antt =====
-- What a pass over an AppInstallation records in its status.
use platform_service_gitops.Controller.{Runtime}
use platform_service_gitops.Prelude.{
  Bool-cases, Option, String, false, if◌then◌else◌, inl, inr, none, not, refl, some, true, ◌==◌,
  ◌∙◌, ◌≡◌, ◌⊎◌,
}
use platform_service_gitops.GithubApp.{Credentials, InstallationResult}
use platform_service_gitops.K8s.Meta.{
  ConditionStatus, condition_false, condition_true, condition_unknown,
}
use platform_service_gitops.K8s.Laws.{ConditionLaws, Reported, condition_at}
use platform_service_gitops.K8s.Memory.{found}
use platform_service_gitops.Api.AppInstallation.{AppInstallation}
use platform_service_gitops.Go.Eff.{Eff}
use platform_service_gitops.Go.Int.{pos, ℤ}
use platform_service_gitops.Go.Error.{Result, err, ok}
use platform_service_gitops.Controller.AppInstallation.{
  AppInstallationReconciler, GithubClient, cond_access_verified, cond_app_installed,
  resolve_credentials, same_bool, set, set_both, check_target, check_with, reconcile_spec,
  record_check,
}
use platform_service_gitops.Go.Invariant.{Result-cases}

abbrev pub map_status : Option Reported → Option ConditionStatus
map_status none = none
map_status (some c) = some c.status

-- The status of the condition of a type.
abbrev pub status_in : String → AppInstallation → Option ConditionStatus
status_in type ai = map_status (condition_at type ai.status.conditions)

abbrev pub Shows : AppInstallation → ConditionStatus → ConditionStatus → ℤ → Type 0
Shows ai installed verified id =
    (status_in cond_app_installed ai ≡ some installed)
    × (status_in cond_access_verified ai ≡ some verified)
    × (ai.status.installation_id ≡ id)

-- What the status must show after the check of the installation.
abbrev pub Recorded : AppInstallation → Result InstallationResult → AppInstallation → Type 0
Recorded before (err e) ai = Shows ai condition_unknown condition_true before.status.installation_id
Recorded before (ok found) ai =
    ((found.installed ≡ true) × Shows ai condition_true condition_true found.installation_id)
    ⊎ ((found.installed ≡ false) × Shows ai condition_false condition_true (pos 0))

module _ {W : Type 0} (rt : Runtime W) (r : AppInstallationReconciler W) where
  -- The check that the spec asks for.
  abbrev pub checked : AppInstallation → GithubClient W → Eff W (Result InstallationResult)
  checked ai gh =
      if not (ai.spec.org == "")
      then gh.check_org_installation ai.spec.org
      else gh.check_user_installation ai.spec.user

  -- The checks before that one succeeded.
  abbrev pub Verified : AppInstallation → AppInstallation → W → Type 0
  Verified before ai w =
      (creds : Credentials) × (gh : GithubClient W) × (slug : String) × (same_bool rt r
          (before.spec.org == "") (before.spec.user == "")
        ≡ false)
      × ((resolve_credentials rt r before w).0 ≡ ok creds)
      × (r.new_client creds ≡ ok gh)
      × ((gh.verify_app (resolve_credentials rt r before w).1).0 ≡ ok slug)
      × Recorded before
          (checked before gh (gh.verify_app (resolve_credentials rt r before w).1).1).0 ai

module _ {W : Type 0} (rt : Runtime W) (C : ConditionLaws rt.conditions)
    (r : AppInstallationReconciler W) where
  status_in-set :
      (ai : AppInstallation) (type : String) (status : ConditionStatus)
      (reason message asked : String) (w : W)
      → status_in asked (set rt r ai type status reason message w).0
        ≡ (if type == asked then some status else status_in asked ai)
  unfolding set
  status_in-set ai type status reason message asked w = elim (Bool-cases (type == asked)) [
    | inl same ↦ rw (C.condition_at-set, same) refl
    | inr other ↦ rw (C.condition_at-set, other) refl
  ]

  installation_id-set :
      (ai : AppInstallation) (type : String) (status : ConditionStatus) (reason message : String)
      (w : W)
      → (set rt r ai type status reason message w).0.status.installation_id
        ≡ ai.status.installation_id
  unfolding set
  installation_id-set ai type status reason message w = refl

  -- AccessVerified is set, then AppInstalled.
  pair-Shows :
      (ai : AppInstallation) (a b : ConditionStatus) (x y : String) (x' y' : String) (w w' : W)
      → Shows
          (set rt r (set rt r ai cond_access_verified a x x' w).0 cond_app_installed b y y' w').0
          b
          a
          ai.status.installation_id
  pair-Shows ai a b x y x' y' w w' = (
    status_in-set _ _ _ _ _ _ w',
    status_in-set _ _ _ _ _ _ w' ∙ status_in-set ai _ _ _ _ _ w,
    installation_id-set _ _ _ _ _ w' ∙ installation_id-set ai _ _ _ _ w,
  )

  set_both-Shows :
      (ai : AppInstallation) (reason message : String) (w : W)
      → Shows
          (set_both rt r ai reason message w).0
          condition_false
          condition_false
          ai.status.installation_id
  unfolding set_both
  set_both-Shows ai reason message w = (
    status_in-set _ _ _ _ _ _ _ ∙ status_in-set ai _ _ _ _ _ w,
    status_in-set _ _ _ _ _ _ _,
    installation_id-set _ _ _ _ _ _ ∙ installation_id-set ai _ _ _ _ w,
  )

  record_check-Recorded :
      (ai : AppInstallation) (target : String) (res : Result InstallationResult) (w : W)
      → Recorded ai res (record_check rt r ai target res w).0.0
  unfolding record_check
  record_check-Recorded ai target (err e) w = pair-Shows ai _ _ _ _ _ _ w _
  record_check-Recorded ai target (ok found) w = elim (Bool-cases found.installed) [
    | inl there ↦ rw there (
        inl (
          refl,
          (
            status_in-set _ _ _ _ _ _ _,
            status_in-set _ _ _ _ _ _ _ ∙ status_in-set ai _ _ _ _ _ w,
            installation_id-set _ _ _ _ _ _,
          ),
        ))
    | inr missing ↦ rw missing (
        inr (
          refl,
          (
            status_in-set _ _ _ _ _ _ _,
            status_in-set _ _ _ _ _ _ _ ∙ status_in-set ai _ _ _ _ _ w,
            installation_id-set _ _ _ _ _ _,
          ),
        ))
  ]

  check_target-Recorded :
      (ai : AppInstallation) (gh : GithubClient W) (w : W)
      → Recorded ai (checked rt r ai gh w).0 (check_target rt r ai gh w).0.0
  unfolding check_target
  check_target-Recorded ai gh w = elim (Bool-cases (ai.spec.org == "")) [
    | inl user ↦ rw user (record_check-Recorded ai _ _ _)
    | inr org ↦ rw org (record_check-Recorded ai _ _ _)
  ]

  -- With the condition helpers as documented, a pass over an AppInstallation either reports both
  -- conditions False and keeps the installation ID, or the spec names one target, the credentials
  -- are resolved, the App is authenticated, and the status is what the check of the installation
  -- says: the found ID, the ID 0, or after an error the ID as it was.
  pub reconcile_spec-Verified :
      (ai : AppInstallation) (w : W)
      → let ai' = (reconcile_spec rt r ai w).0.0 in
        Shows ai' condition_false condition_false ai.status.installation_id ⊎ Verified rt r ai ai' w
  unfolding reconcile_spec check_with
  reconcile_spec-Verified ai w =
      elim (Bool-cases (same_bool rt r (ai.spec.org == "") (ai.spec.user == ""))) [
        | inl invalid ↦ rw invalid (inl (set_both-Shows ai _ _ _))
        | inr valid ↦ elim (Result-cases (resolve_credentials rt r ai w).0) [
          | inr (e, p) ↦ rw (valid, p) (inl (set_both-Shows ai _ _ _))
          | inl (creds, p) ↦ elim (Result-cases (r.new_client creds)) [
            | inr (e, q) ↦ rw (valid, p, q) (inl (set_both-Shows ai _ _ _))
            | inl (gh, q) ↦
                elim (Result-cases (gh.verify_app (resolve_credentials rt r ai w).1).0) [
                  | inr (e, v) ↦ rw (valid, p, q, v) (inl (set_both-Shows ai _ _ _))
                  | inl (slug, v) ↦
                      rw (valid, p, q, v)
                        (inr (creds, gh, slug, refl, refl, q, v, check_target-Recorded ai gh _))
                ]
          ]
        ]
      ]
