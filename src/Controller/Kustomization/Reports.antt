-- ===== src/Controller/Kustomization/Reports.antt =====
-- What a pass over a Kustomization writes and reports:
-- internal/controller/core/kustomization_controller.go
use mathlib.Core.Bool.{false≢true}
use platform_service_gitops.Controller.Kustomization.{
  KustomizationReconciler, blank_kustomization, blank_source, git_repository_kind,
  mutate_kustomization, mutate_source, reconcile_source, source_key, sync, verdict, with_revision,
  kustomization_spec, source_spec,
}
use platform_service_gitops.Controller.{Runtime, failed}
use platform_service_gitops.Prelude.{
  String, refl, ◌≡◌, inl, inr, true, ◌<>◌, ◌∙◌, ◌⊎◌, Bool-cases, eq_iff, false, sym, ◌==◌,
}
use platform_service_gitops.K8s.Laws.{ConditionLaws, condition_at}
use platform_service_gitops.Api.Kustomization.{Kustomization}
use platform_service_gitops.Go.Eff.{Eff}
use platform_service_gitops.Go.Error.{wrap, Error, Result, err, ok}
use platform_service_gitops.Controller.GitRepository.Base.{cond_ready}
use platform_service_gitops.K8s.Meta.{condition_false, condition_true}
use platform_service_gitops.K8s.Objects.{FluxGitRepository, FluxKustomization}
use platform_service_gitops.Api.GitRepository.{GitRepository}
use platform_service_gitops.Go.Invariant.{Result-cases}
use platform_service_gitops.Controller.Kustomization.Status.{
  Ends, report-Ends, mirrored-condition_at, readiness_of,
}
use platform_service_gitops.Controller.Kustomization.Written.{
  WriteLaws, kustomization-written, source-written,
}

module _ {W : Type 0} (rt : Runtime W) (C : ConditionLaws rt.conditions)
    (r : KustomizationReconciler W) where
  abbrev pub look_up : Kustomization → Eff W (Result GitRepository)
  look_up ks = r.git_repositories.get (source_key rt r ks)

  -- The source is invalid: it is of another kind, or there is none.
  pub record Rejects (ks : Kustomization) (w : W) : Type 0 where
    pub reason : String
    pub invalid_message : String
    pub ready_message : String
    pub why :
        ¬ (ks.spec.source_ref.kind ≡ git_repository_kind)
        ⊎ ((e : Error) × ((look_up ks w).0 ≡ err e) × (e.not_found ≡ true))
    pub ends :
        Ends rt C r ks
          (reconcile_source rt r ks)
          w
          (verdict rt r condition_true reason invalid_message)
          (verdict rt r condition_false reason ready_message)
          ks.status.last_applied_revision

  abbrev pub write_source : Kustomization → GitRepository → Eff W (Result FluxGitRepository)
  write_source ks gr =
      r.create_or_update_flux_source (blank_source gr.meta) (mutate_source rt r gr ks)

  abbrev pub write_kustomization : Kustomization → GitRepository → Eff W (Result FluxKustomization)
  write_kustomization ks gr =
      r.create_or_update_flux_kustomization (blank_kustomization ks.meta)
        (mutate_kustomization rt r gr ks)

  -- The source was found, the Flux GitRepository and then the Flux Kustomization were written with
  -- the specifications that the two objects describe, and the Ready condition is that of the Flux Kustomization as it is then.
  pub record Mirrors (ks : Kustomization) (w : W) : Type 0 where
    pub gr : GitRepository
    pub source : FluxGitRepository
    pub flux : FluxKustomization
    pub message : String
    pub kind : ks.spec.source_ref.kind ≡ git_repository_kind
    pub found : (look_up ks w).0 ≡ ok gr
    pub source_written : (write_source ks gr (look_up ks w).1).0 ≡ ok source
    pub flux_written :
        (write_kustomization ks gr (write_source ks gr (look_up ks w).1).1).0 ≡ ok flux
    pub source_described : source.spec ≡ source_spec gr ks
    pub flux_described : flux.spec ≡ kustomization_spec gr ks
    pub ends :
        Ends rt C r ks
          (reconcile_source rt r ks)
          w
          (verdict rt r condition_false "GitRepositoryFound" message)
          (readiness_of (condition_at cond_ready flux.conditions))
          flux.last_applied_revision

  -- A call failed: the Get of the source, with an error other than "not found", or the write of one
  -- of the Flux objects. The pass returns its error and ends in the world that this call leaves, so
  -- no status was patched.
  pub data Fails (ks : Kustomization) (w : W) : Type 0 where
    unread :
        (e : Error)
        → ks.spec.source_ref.kind ≡ git_repository_kind
        → (look_up ks w).0 ≡ err e
        → e.not_found ≡ false
        → reconcile_source rt r ks w
          ≡ (failed (wrap "fetching GitRepository: " e), (look_up ks w).1)
        → Fails ks w
    unwritten_source :
        (gr : GitRepository) (e : Error)
        → ks.spec.source_ref.kind ≡ git_repository_kind
        → (look_up ks w).0 ≡ ok gr
        → (write_source ks gr (look_up ks w).1).0 ≡ err e
        → reconcile_source rt r ks w ≡ (
          failed (wrap "reconciling Flux GitRepository: " e),
          (write_source ks gr (look_up ks w).1).1,
        )
        → Fails ks w
    unwritten_kustomization :
        (gr : GitRepository) (source : FluxGitRepository) (e : Error)
        → ks.spec.source_ref.kind ≡ git_repository_kind
        → (look_up ks w).0 ≡ ok gr
        → (write_source ks gr (look_up ks w).1).0 ≡ ok source
        → (write_kustomization ks gr (write_source ks gr (look_up ks w).1).1).0 ≡ err e
        → reconcile_source rt r ks w ≡ (
          failed (wrap "reconciling Flux Kustomization: " e),
          (write_kustomization ks gr (write_source ks gr (look_up ks w).1).1).1,
        )
        → Fails ks w

  module _ (S : WriteLaws r.create_or_update_flux_source (λ (x : FluxGitRepository). x.spec))
      (K : WriteLaws r.create_or_update_flux_kustomization
        (λ (x : FluxKustomization). x.spec)) where
    sync-Mirrors :
        (ks : Kustomization) (gr : GitRepository) (w : W)
        → ks.spec.source_ref.kind ≡ git_repository_kind
        → (look_up ks w).0 ≡ ok gr
        → reconcile_source rt r ks w ≡ sync rt r ks gr (look_up ks w).1
        → Fails ks w ⊎ Mirrors ks w
    unfolding sync
    sync-Mirrors ks gr w kind found same =
        let first = write_source ks gr (look_up ks w).1 in
        elim (Result-cases first.0) [
          | inr (e, p) ↦ inl (unwritten_source gr e kind found p (same ∙ rw p refl))
          | inl (source, p) ↦ elim (Result-cases (write_kustomization ks gr first.1).0) [
            | inr (e, q) ↦
                inl (unwritten_kustomization gr source e kind found p q (same ∙ rw (p, q) refl))
            | inl (flux, q) ↦
                let message =
                  "GitRepository " <> (rt.fmt.quoted ks.spec.source_ref.name <> " found.") in
                let end =
                  report-Ends rt C r ks (with_revision rt r ks flux)
                    (verdict rt r condition_false "GitRepositoryFound" message)
                    (readiness_of (condition_at cond_ready flux.conditions))
                    (write_kustomization ks gr first.1).1 refl in
                inr (record {
                  gr = gr;
                  source = source;
                  flux = flux;
                  message = message;
                  kind = kind;
                  found = found;
                  source_written = p;
                  flux_written = q;
                  source_described =
                      source-written rt r gr ks S (blank_source gr.meta) (look_up ks w).1 source p;
                  flux_described =
                      kustomization-written rt r gr ks K (blank_kustomization ks.meta) first.1 flux
                        q;
                  ends = record {
                    new = end.new;
                    at = end.at;
                    patched = same ∙ rw (p, q, mirrored-condition_at flux.conditions) end.patched;
                    shown = end.shown;
                    revision_shown = end.revision_shown;
                  };
                })
          ]
        ]

    kind_differs :
        (ks : Kustomization)
        → (ks.spec.source_ref.kind == git_repository_kind) ≡ false
        → ¬ (ks.spec.source_ref.kind ≡ git_repository_kind)
    kind_differs ks h p = false≢true (sym h ∙ (eq_iff _ _).1 p)

    -- With SetStatusCondition and CreateOrUpdate as documented, a pass over a Kustomization does
    -- one of three things. The Get of the source fails, with an error other than "not found", or
    -- the write of a Flux object does; its error is returned, and the pass ends in the world that
    -- this call leaves. Or the source is of another kind or not found, and it ends with a patch
    -- that shows SourceInvalid as True and Ready as False, both of this generation. Or the source
    -- is found and both Flux objects have the specifications that the source and the Kustomization
    -- describe, and it ends with a patch that shows SourceInvalid as False, and the Ready condition
    -- and the revision of the Flux Kustomization.
    pub reconcile_source-Reports :
        (ks : Kustomization) (w : W) → Fails ks w ⊎ (Rejects ks w ⊎ Mirrors ks w)
    unfolding reconcile_source
    reconcile_source-Reports ks w =
        elim (Bool-cases (ks.spec.source_ref.kind == git_repository_kind)) [
          | inr other ↦
              let message =
                "sourceRef.kind "
                <> (rt.fmt.quoted ks.spec.source_ref.kind
                    <> " is not supported; only GitRepository is allowed.") in
              let end =
                report-Ends rt C r ks ks (verdict rt r condition_true "InvalidSourceKind" message)
                  (verdict rt r condition_false "InvalidSourceKind" "Invalid sourceRef kind.") w
                  refl in
              inr (
                inl (record {
                  reason = "InvalidSourceKind";
                  invalid_message = message;
                  ready_message = "Invalid sourceRef kind.";
                  why = inl (kind_differs ks other);
                  ends = record {
                    new = end.new;
                    at = end.at;
                    patched = rw other end.patched;
                    shown = end.shown;
                    revision_shown = end.revision_shown;
                  };
                }))
          | inl kind ↦ elim (Result-cases (look_up ks w).0) [
            | inl (gr, p) ↦
                elim (sync-Mirrors ks gr w ((eq_iff _ _).0 kind) p (rw (kind, p) refl)) [
                  | inl failure ↦ inl failure
                  | inr mirrors ↦ inr (inr mirrors)
                ]
            | inr (e, p) ↦ elim (Bool-cases e.not_found) [
              | inr other ↦ inl (unread e ((eq_iff _ _).0 kind) p other (rw (kind, p, other) refl))
              | inl gone ↦
                  let message =
                    "GitRepository "
                    <> (rt.fmt.quoted ks.spec.source_ref.name
                        <> (" not found in namespace "
                            <> (rt.fmt.quoted ks.meta.namespace <> "."))) in
                  let end =
                    report-Ends rt C r ks ks
                      (verdict rt r condition_true "GitRepositoryNotFound" message)
                      (verdict rt r condition_false "GitRepositoryNotFound"
                        "Waiting for referenced GitRepository to exist.")
                      (look_up ks w).1 refl in
                  inr (
                    inl (record {
                      reason = "GitRepositoryNotFound";
                      invalid_message = message;
                      ready_message = "Waiting for referenced GitRepository to exist.";
                      why = inr (e, p, gone);
                      ends = record {
                        new = end.new;
                        at = end.at;
                        patched = rw (kind, p, gone) end.patched;
                        shown = end.shown;
                        revision_shown = end.revision_shown;
                      };
                    }))
            ]
          ]
        ]
