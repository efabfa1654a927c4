-- ===== src/Controller/GitRepository/Reconcile/Requests.antt =====
-- The requests that a change of an AppInstallation leads to.
use platform_service_gitops.Controller.{Runtime}
use platform_service_gitops.Prelude.{
  Bool-cases, List, String, [], ap, eq_iff, inl, inr, none, true, ◌&&◌, ◌==◌, ◌∙◌, ◌∷◌, ◌≡◌, ◌⊎◌,
}
use platform_service_gitops.K8s.Meta.{ObjectMeta, key_of}
use platform_service_gitops.Api.GitRepository.{GitRepository}
use platform_service_gitops.Go.Error.{ok}
use platform_service_gitops.Controller.GitRepository.Reconcile.{dependents, map_app_installation}
use platform_service_gitops.Controller.GitRepository.Credential.{credential_key}
use platform_service_gitops.Controller.GitRepository.Base.{
  GitRepositoryReconciler, kind_app_installation,
}

abbrev pub Among : {A : Type 0} → A → List A → Type 0
Among x [] = ⊥
Among x (y ∷ ys) = (y ≡ x) ⊎ Among x ys

module _ {W : Type 0} (rt : Runtime W) (r : GitRepositoryReconciler W) where
  dependents-Among :
      (gr : GitRepository) (name : String) (items : List GitRepository)
      → Among gr items
      → gr.spec.credential_ref.kind ≡ kind_app_installation
      → gr.spec.credential_ref.name ≡ name
      → Among (key_of gr.meta) (dependents name items)
  unfolding dependents
  dependents-Among gr name [] there kind named = absurd there
  dependents-Among gr name (x ∷ items) (inl same) kind named =
      let is_kind : (x.spec.credential_ref.kind == kind_app_installation) ≡ true =
        (eq_iff _ _).1 (ap (λ (y : GitRepository). y.spec.credential_ref.kind) same ∙ kind) in
      let is_name : (x.spec.credential_ref.name == name) ≡ true =
        (eq_iff _ _).1 (ap (λ (y : GitRepository). y.spec.credential_ref.name) same ∙ named) in
      rw (is_kind, is_name) (inl (ap (λ (y : GitRepository). key_of y.meta) same))
  dependents-Among gr name (x ∷ items) (inr there) kind named =
      elim (Bool-cases (
        x.spec.credential_ref.kind == kind_app_installation
        && x.spec.credential_ref.name == name)) [
          | inl hit ↦ rw hit (inr (dependents-Among gr name items there kind named))
          | inr miss ↦ rw miss (dependents-Among gr name items there kind named)
        ]

  -- A GitRepository that is listed in the namespace of the AppInstallation, and whose credential is
  -- read under the AppInstallation's own key, is requested to be reconciled when the
  -- AppInstallation changes.
  pub map_app_installation-Among :
      (gr : GitRepository) (obj : ObjectMeta) (items : List GitRepository) (w : W)
      → (r.onboarding.git_repositories.list obj.namespace none w).0 ≡ ok items
      → Among gr items
      → gr.spec.credential_ref.kind ≡ kind_app_installation
      → credential_key gr ≡ key_of obj
      → Among (key_of gr.meta) (map_app_installation rt r obj w).0
  unfolding map_app_installation
  map_app_installation-Among gr obj items w listed there kind key =
      rw listed (dependents-Among gr obj.name items there kind (ap (λ k. k.name) key))
