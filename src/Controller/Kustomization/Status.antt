-- ===== src/Controller/Kustomization/Status.antt =====
-- The status of a Kustomization: how the Flux Kustomization's Ready condition is mirrored, and the
-- patch with which a pass ends.
use platform_service_gitops.Prelude.{
  Bool-cases, List, Option, [], inl, inr, none, refl, some, ◌==◌, ◌∷◌, ◌≡◌, String, ap,
}
use platform_service_gitops.K8s.Meta.{Condition, condition_unknown}
use platform_service_gitops.K8s.Laws.{Reported, condition_at, ConditionLaws}
use platform_service_gitops.Controller.Kustomization.{
  Readiness, mirrored, report, KustomizationReconciler, cond_source_invalid,
}
use platform_service_gitops.Controller.GitRepository.Base.{cond_ready, set_condition}
use platform_service_gitops.Controller.{Return, Runtime, done, failed}
use platform_service_gitops.Api.Kustomization.{Kustomization}
use platform_service_gitops.Go.Eff.{Eff, pure, try}
use platform_service_gitops.Go.Error.{wrap}

abbrev waiting : Readiness
waiting = record {
  status = condition_unknown;
  reason = "FluxKustomizationCreated";
  message = "Flux Kustomization created; waiting for Flux to reconcile.";
}

abbrev pub readiness_of : Option Reported → Readiness
readiness_of none = waiting
readiness_of (some c) = record { status = c.status; reason = c.reason; message = c.message }

-- The loop over the Flux conditions finds the Ready condition, as a search by type does, and
-- reports that Flux is awaited if there is none.
pub mirrored-condition_at :
    (cs : List Condition) → mirrored cs ≡ readiness_of (condition_at cond_ready cs)
unfolding mirrored condition_at
mirrored-condition_at [] = refl
mirrored-condition_at (c ∷ cs) = elim (Bool-cases (c.type == cond_ready)) [
  | inl same ↦ rw same refl
  | inr other ↦ rw other (mirrored-condition_at cs)
]

abbrev pub at_generation : Kustomization → Readiness → Reported
at_generation ks x = record {
  status = x.status;
  reason = x.reason;
  message = x.message;
  observed_generation = ks.meta.generation;
}

-- The status with the two conditions, of the object's generation.
pub record Shown (ks new : Kustomization) (invalid readiness : Readiness) : Type 0 where
  pub source_invalid :
      condition_at cond_source_invalid new.status.conditions ≡ some (at_generation ks invalid)
  pub ready : condition_at cond_ready new.status.conditions ≡ some (at_generation ks readiness)
  pub generation : new.status.observed_generation ≡ ks.meta.generation

module _ {W : Type 0} (rt : Runtime W) (C : ConditionLaws rt.conditions)
    (r : KustomizationReconciler W) where
  -- The patch of the status with which a pass ends.
  abbrev pub patch : Kustomization → Kustomization → Eff W Return
  patch ks new =
      try (r.kustomizations.patch_status ks new) (λ e. pure (failed (wrap "patching status: " e)))
        (λ _. pure done)

  -- The pass ends with that patch.
  pub record Ends (ks : Kustomization) (m : Eff W Return) (w : W) (invalid readiness : Readiness)
      (revision : String) : Type 0 where
    pub new : Kustomization
    pub at : W
    pub patched : m w ≡ patch ks new at
    pub shown : Shown ks new invalid readiness
    pub revision_shown : new.status.last_applied_revision ≡ revision

  pub report-Ends :
      (ks ks' : Kustomization) (invalid readiness : Readiness) (w : W)
      → ks'.meta ≡ ks.meta
      → Ends ks
          (report rt r ks ks' invalid readiness)
          w
          invalid
          readiness
          ks'.status.last_applied_revision
  unfolding report set_condition
  report-Ends ks ks' invalid readiness w same = record {
    new = _;
    at = _;
    patched = refl;
    shown = record {
      source_invalid = rw (C.condition_at-set, C.condition_at-set, same) refl;
      ready = rw (C.condition_at-set, same) refl;
      generation = ap (λ m. m.generation) same;
    };
    revision_shown = refl;
  }
