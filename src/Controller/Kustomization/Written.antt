-- ===== src/Controller/Kustomization/Written.antt =====
-- internal/controller/core/kustomization_controller.go: what the two CreateOrUpdate calls write.
use platform_service_gitops.Controller.Kustomization.{
  CreateOrUpdate, KustomizationReconciler, mutate_source, mutate_kustomization, source_spec,
  kustomization_spec,
}
use platform_service_gitops.Controller.{Runtime}
use platform_service_gitops.Prelude.{ap, inl, inr, sym, ◌∙◌, ◌≡◌}
use platform_service_gitops.K8s.Objects.{FluxGitRepository, FluxKustomization}
use platform_service_gitops.Api.GitRepository.{GitRepository}
use platform_service_gitops.Api.Kustomization.{Kustomization}
use platform_service_gitops.Go.Invariant.{Result-cases, err≢ok, ok-injective}
use platform_service_gitops.Go.Error.{Result, ok}

-- controllerutil.CreateOrUpdate: if it succeeds, the mutate function has succeeded on some object,
-- and the object as it is afterwards has the specification that the function gave it.
pub record WriteLaws {W O S : Type 0} (call : CreateOrUpdate W O) (spec : O → S) : Type 0 where
  pub written :
      (o : O) (mutate : O → Result O) (w : W) (after : O)
      → (call o mutate w).0 ≡ ok after
      → (base : O) × (mutated : O) × (mutate base ≡ ok mutated) × (spec after ≡ spec mutated)

module _ {W : Type 0} (rt : Runtime W) (r : KustomizationReconciler W) (gr : GitRepository)
    (ks : Kustomization) where
  mutate_source-spec :
      (base mutated : FluxGitRepository)
      → mutate_source rt r gr ks base ≡ ok mutated
      → mutated.spec ≡ source_spec gr ks
  unfolding mutate_source
  mutate_source-spec base mutated h =
      elim (Result-cases (r.set_controller_reference gr.meta base.meta)) [
        | inl (meta, p) ↦ sym (ap (λ x. x.spec) (ok-injective (rw (mutate_source, p) at h)))
        | inr (e, p) ↦ absurd (err≢ok (rw (mutate_source, p) at h))
      ]

  mutate_kustomization-spec :
      (base mutated : FluxKustomization)
      → mutate_kustomization rt r gr ks base ≡ ok mutated
      → mutated.spec ≡ kustomization_spec gr ks
  unfolding mutate_kustomization
  mutate_kustomization-spec base mutated h =
      elim (Result-cases (r.set_controller_reference ks.meta base.meta)) [
        | inl (meta, p) ↦ sym (ap (λ x. x.spec) (ok-injective (rw (mutate_kustomization, p) at h)))
        | inr (e, p) ↦ absurd (err≢ok (rw (mutate_kustomization, p) at h))
      ]

  -- The Flux GitRepository that the first call leaves is the one that the specs describe.
  pub source-written :
      WriteLaws r.create_or_update_flux_source (λ (x : FluxGitRepository). x.spec)
      → (o : FluxGitRepository) (w : W) (after : FluxGitRepository)
      → (r.create_or_update_flux_source o (mutate_source rt r gr ks) w).0 ≡ ok after
      → after.spec ≡ source_spec gr ks
  source-written L o w after h =
      let (base, mutated, p, same) = L.written o (mutate_source rt r gr ks) w after h in
      same ∙ mutate_source-spec base mutated p

  pub kustomization-written :
      WriteLaws r.create_or_update_flux_kustomization (λ (x : FluxKustomization). x.spec)
      → (o : FluxKustomization) (w : W) (after : FluxKustomization)
      → (r.create_or_update_flux_kustomization o (mutate_kustomization rt r gr ks) w).0 ≡ ok after
      → after.spec ≡ kustomization_spec gr ks
  kustomization-written L o w after h =
      let (base, mutated, p, same) = L.written o (mutate_kustomization rt r gr ks) w after h in
      same ∙ mutate_kustomization-spec base mutated p
