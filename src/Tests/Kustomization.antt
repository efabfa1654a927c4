-- ===== src/Tests/Kustomization.antt =====
-- A pass over a Kustomization on the concrete world.
use platform_service_gitops.Controller.Kustomization.Reports.{
  Fails, Rejects, Mirrors, reconcile_source-Reports,
}
use platform_service_gitops.Controller.Kustomization.{KustomizationReconciler}
use platform_service_gitops.Prelude.{[], none, true, ◌∷◌, ◌⊎◌, ap, refl, sym, ◌≡◌}
use platform_service_gitops.K8s.Meta.{Condition, condition_true}
use platform_service_gitops.K8s.Objects.{FluxKustomization, FluxGitRepository}
use platform_service_gitops.K8s.Memory.{absent, list_conditions-ConditionLaws, memory}
use platform_service_gitops.Api.GitRepository.{GitRepository}
use platform_service_gitops.Api.Kustomization.{Kustomization}
use platform_service_gitops.Tests.Clusters.{World, repositories_part}
use platform_service_gitops.Tests.World.{meta_of, rt, start}
use platform_service_gitops.Go.Int.{pos}
use platform_service_gitops.Go.Time.{minute}
use platform_service_gitops.Go.Error.{Result, err, ok}
use platform_service_gitops.Go.Invariant.{err≢ok, ok-injective}
use platform_service_gitops.Controller.Kustomization.Written.{WriteLaws}

abbrev applied : Condition
applied = record {
  type = "Ready";
  status = condition_true;
  reason = "ReconciliationSucceeded";
  message = "Applied";
  observed_generation = pos 1;
  last_transition_time = none;
}

-- Flux has applied the revision.
abbrev by_flux : Result FluxKustomization → Result FluxKustomization
by_flux (err e) = err e
by_flux (ok k) = ok (record k { last_applied_revision = "main@1"; conditions = applied ∷ [] })

abbrev mirror : KustomizationReconciler World
mirror = record {
  kustomizations = record {
    get = λ k w. (err absent, w);
    list = λ namespace labels w. (ok [], w);
    create = λ o w. (ok tt, w);
    update = λ o w. (ok tt, w);
    delete = λ k w. (ok tt, w);
    patch_status = λ old new w. (ok tt, w);
  };
  git_repositories = memory repositories_part (λ (o : GitRepository). o.meta);
  create_or_update_flux_source = λ o mutate w. (mutate o, w);
  create_or_update_flux_kustomization = λ o mutate w. (by_flux (mutate o), w);
  set_controller_reference = λ owner m. ok m;
}

abbrev sample : Kustomization
sample = record {
  meta = meta_of "team" "deploy" [];
  spec = record {
    interval = pos minute;
    path = "./deploy";
    prune = true;
    source_ref = record { name = "app"; kind = "GitRepository" };
  };
  status = record { observed_generation = pos 0; last_applied_revision = ""; conditions = [] };
}

source_laws : WriteLaws mirror.create_or_update_flux_source (λ (x : FluxGitRepository). x.spec)
source_laws = record { written = λ o mutate w after h. (o, after, h, refl) }

by_flux-spec :
    (r : Result FluxKustomization) (after : FluxKustomization)
    → by_flux r ≡ ok after
    → (mutated : FluxKustomization) × (r ≡ ok mutated) × (after.spec ≡ mutated.spec)
by_flux-spec (err e) after h = absurd (err≢ok h)
by_flux-spec (ok k) after h =
    (k, refl, sym (ap (λ (x : FluxKustomization). x.spec) (ok-injective h)))

flux_laws : WriteLaws mirror.create_or_update_flux_kustomization (λ (x : FluxKustomization). x.spec)
flux_laws = record {
  written = λ o mutate w after h.
      let (mutated, p, same) = by_flux-spec (mutate o) after h in (o, mutated, p, same);
}

reconcile_source-Reports_example :
    Fails rt list_conditions-ConditionLaws mirror sample start
    ⊎ (Rejects rt list_conditions-ConditionLaws mirror sample start
        ⊎ Mirrors rt list_conditions-ConditionLaws mirror sample start)
reconcile_source-Reports_example =
    reconcile_source-Reports rt list_conditions-ConditionLaws mirror source_laws flux_laws sample
      start
