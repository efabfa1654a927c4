-- ===== src/Controller/GitRepository/Credential/Agreement.antt =====
-- The result of resolveCredential beside the CredentialResolved condition.
use mathlib.Core.Path.{subst}
use platform_service_gitops.Controller.GitRepository.Base.{
  GitRepositoryReconciler, app_installed_condition, cond_credential_resolved, kind_app_installation,
  set_condition,
}
use platform_service_gitops.Controller.{Runtime}
use platform_service_gitops.Prelude.{
  Option, String, none, refl, some, true, ◌≡◌, ◌≢◌, Bool, Bool-cases, ap, arith, eq_iff, false, inl,
  inr, not, sym, ◌==◌, ◌||◌, ◌∙◌,
}
use platform_service_gitops.K8s.Meta.{ConditionStatus, condition_false, condition_true}
use platform_service_gitops.K8s.Laws.{ConditionLaws, Reported, condition_at, is_true_status}
use platform_service_gitops.Api.GitRepository.{GitRepository}
use platform_service_gitops.Api.AppInstallation.{AppInstallation}
use platform_service_gitops.Go.Int.{pos, ℤ, is_zero}
use platform_service_gitops.Go.Error.{ok}
use platform_service_gitops.Controller.GitRepository.Credential.{
  Resolution, credential_key, resolve_credential, resolved, set_resolved, unresolved, judge,
}
use platform_service_gitops.K8s.Memory.{found}
use platform_service_gitops.Go.Invariant.{Result-cases}

-- What a resolution must say of the credential, with the condition that goes with it.
abbrev pub Agrees : GitRepository → Resolution → Option Reported → Type 0
Agrees gr (resolved ai id) none = ⊥
Agrees gr (resolved ai id) (some c) =
    (c.status ≡ condition_true)
    × (c.reason ≡ "CredentialResolved")
    × (c.observed_generation ≡ gr.meta.generation)
Agrees gr (unresolved reason) none = ⊥
Agrees gr (unresolved reason) (some c) =
    (c.status ≡ condition_false)
    × (c.reason ≡ reason)
    × (c.observed_generation ≡ gr.meta.generation)

unresolved≢resolved :
    {reason : String} {ai : AppInstallation} {id : ℤ} → unresolved reason ≡ resolved ai id → ⊥
unresolved≢resolved p = cc

resolved-injective :
    {a b : AppInstallation} {i j : ℤ} → resolved a i ≡ resolved b j → (a ≡ b) × (i ≡ j)
resolved-injective p = (cc, cc)

module _ {W : Type 0} (rt : Runtime W) (C : ConditionLaws rt.conditions)
    (r : GitRepositoryReconciler W) where
  condition_at-set_resolved :
      (gr : GitRepository) (status : ConditionStatus) (reason message : String) (w : W)
      → condition_at cond_credential_resolved
          (set_resolved rt r gr status reason message w).0.status.conditions
        ≡ some (record {
          status = status;
          reason = reason;
          message = message;
          observed_generation = gr.meta.generation;
        })
  unfolding set_resolved set_condition
  condition_at-set_resolved gr status reason message w = rw C.condition_at-set refl

  not_ready : AppInstallation → Bool
  not_ready ai =
      not (rt.conditions.is_status_condition_true ai.status.conditions app_installed_condition)
      || is_zero ai.status.installation_id

  reject-Agrees :
      (gr : GitRepository) (reason message : String) (w : W)
      → Agrees gr (unresolved reason) (
          condition_at cond_credential_resolved
            (set_resolved rt r gr condition_false reason message w).0.status.conditions)
  reject-Agrees gr reason message w =
      subst (Agrees gr (unresolved reason))
        (sym (condition_at-set_resolved gr condition_false reason message w)) (refl, refl, refl)

  judge-Agrees :
      (gr : GitRepository) (ai : AppInstallation) (w : W)
      → Agrees gr
          (judge rt r gr ai w).0.1
          (condition_at cond_credential_resolved (judge rt r gr ai w).0.0.status.conditions)
  unfolding judge not_ready
  judge-Agrees gr ai w = elim (Bool-cases (not_ready ai)) [
    | inl bad ↦ rw bad (reject-Agrees gr _ _ w)
    | inr good ↦ rw good (
        subst (Agrees gr (resolved ai ai.status.installation_id))
          (sym (condition_at-set_resolved gr condition_true "CredentialResolved" _ w))
          (refl, refl, refl))
  ]

  -- With the condition helpers as documented, on every branch of resolveCredential the condition
  -- that is set is of this generation and has the status and reason of the result.
  pub resolve_credential-Agrees :
      (gr : GitRepository) (w : W)
      → let (gr', resolution) = (resolve_credential rt r gr w).0 in
        Agrees gr resolution (condition_at cond_credential_resolved gr'.status.conditions)
  unfolding resolve_credential
  resolve_credential-Agrees gr w =
      elim (Bool-cases (gr.spec.credential_ref.kind == kind_app_installation)) [
        | inr other ↦ rw other (reject-Agrees gr _ _ w)
        | inl kind ↦
            elim (Result-cases (r.onboarding.app_installations.get (credential_key gr) w).0) [
              | inr (e, p) ↦ rw (kind, p) (reject-Agrees gr _ _ _)
              | inl (ai, p) ↦ rw (kind, p) (judge-Agrees gr ai _)
            ]
      ]

  ready_parts :
      (ai : AppInstallation)
      → not_ready ai ≡ false
      → (rt.conditions.is_status_condition_true ai.status.conditions app_installed_condition ≡ true)
        × (ai.status.installation_id ≢ pos 0)
  unfolding not_ready
  ready_parts ai h = (ground arith, (λ z. ground arith))

  judge-resolved :
      (gr : GitRepository) (found ai : AppInstallation) (id : ℤ) (w : W)
      → (judge rt r gr found w).0.1 ≡ resolved ai id
      → (found ≡ ai)
        × (is_true_status (condition_at app_installed_condition ai.status.conditions) ≡ true)
        × (id ≡ ai.status.installation_id)
        × (id ≢ pos 0)
  unfolding judge not_ready
  judge-resolved gr found ai id w h = elim (Bool-cases (not_ready found)) [
    | inl bad ↦ absurd (unresolved≢resolved (rw bad at h))
    | inr good ↦
        let (same, id_eq) = resolved-injective (rw good at h) in
        let parts = ready_parts found good in
        (
          same,
          subst
              (λ (x : AppInstallation).
                is_true_status (condition_at app_installed_condition x.status.conditions) ≡ true)
              same (sym (C.is_true_iff found.status.conditions app_installed_condition) ∙ parts.0),
          sym id_eq ∙ ap (λ (x : AppInstallation). x.status.installation_id) same,
          (λ z. parts.1 (id_eq ∙ z)),
        )
  ]

  -- With the condition helpers as documented, a credential is resolved only to an AppInstallation
  -- that was read under the name of the reference in the namespace of the GitRepository, is
  -- reported installed, and has the installation ID that is returned, which is not 0; the reference
  -- is of kind AppInstallation.
  pub resolve_credential-resolved :
      (gr : GitRepository) (w : W) (ai : AppInstallation) (id : ℤ)
      → (resolve_credential rt r gr w).0.1 ≡ resolved ai id
      → (gr.spec.credential_ref.kind ≡ kind_app_installation)
        × ((r.onboarding.app_installations.get (credential_key gr) w).0 ≡ ok ai)
        × (is_true_status (condition_at app_installed_condition ai.status.conditions) ≡ true)
        × (id ≡ ai.status.installation_id)
        × (id ≢ pos 0)
  unfolding resolve_credential
  resolve_credential-resolved gr w ai id h =
      elim (Bool-cases (gr.spec.credential_ref.kind == kind_app_installation)) [
        | inr other ↦ absurd (unresolved≢resolved (rw other at h))
        | inl kind ↦
            elim (Result-cases (r.onboarding.app_installations.get (credential_key gr) w).0) [
              | inr (e, p) ↦ absurd (unresolved≢resolved (rw (kind, p) at h))
              | inl (found, p) ↦
                  let (same, installed, id_eq, nonzero) =
                    judge-resolved gr found ai id _ (rw (kind, p) at h) in
                  ((eq_iff _ _).0 kind, p ∙ ap ok same, installed, id_eq, nonzero)
            ]
      ]
