-- ===== src/Controller/Kustomization.antt =====
-- internal/controller/core/kustomization_controller.go. `CreateOrUpdate` is
-- controllerutil.CreateOrUpdate, and `set_controller_reference` is the function of that package.
pub mod Status
pub mod Written
pub mod Reports
use platform_service_gitops.Prelude.{
  String, ◌<>◌, false, not, ◌&&◌, none, some, List, [], ◌∷◌, ◌==◌, if◌then◌else◌,
}
use platform_service_gitops.Go.Int.{pos}
use platform_service_gitops.Go.Error.{Result, ok, err, wrap}
use platform_service_gitops.Go.Eff.{Eff, pure, try, ◌>>=◌}
use platform_service_gitops.K8s.Meta.{
  NamespacedName, ObjectMeta, key_of, ConditionStatus, condition_true, condition_false,
  condition_unknown, Condition,
}
use platform_service_gitops.K8s.Client.{Client}
use platform_service_gitops.K8s.Objects.{
  FluxGitRepositorySpec, FluxGitRepository, FluxKustomizationSpec, FluxKustomization,
}
use platform_service_gitops.Api.GitRepository.{GitRepository}
use platform_service_gitops.Api.Kustomization.{Kustomization}
use platform_service_gitops.Propagate.{new_meta}
use platform_service_gitops.Controller.{Return, done, failed, Runtime}
use platform_service_gitops.Controller.GitRepository.Base.{cond_ready, set_condition}

abbrev pub cond_source_invalid : String
cond_source_invalid = "SourceInvalid"

abbrev pub git_repository_kind : String
git_repository_kind = "GitRepository"

-- CreateOrUpdate(ctx, client, obj, mutate): the object as it is afterwards
abbrev pub CreateOrUpdate : Type 0 → Type 0 → Type 0
CreateOrUpdate W O = O → (O → Result O) → Eff W (Result O)

-- The client of the struct, for each kind that it reads or writes.
pub record KustomizationReconciler (W : Type 0) : Type 0 where
  pub kustomizations : Client W Kustomization
  pub git_repositories : Client W GitRepository
  pub create_or_update_flux_source : CreateOrUpdate W FluxGitRepository
  pub create_or_update_flux_kustomization : CreateOrUpdate W FluxKustomization
  pub set_controller_reference : ObjectMeta → ObjectMeta → Result ObjectMeta

-- The loop of the map function in SetupWithManager.
unfoldable pub dependents : String → List Kustomization → List NamespacedName
dependents name [] = []
dependents name (ks ∷ items) =
    let rest = dependents name items in
    if ks.spec.source_ref.kind == git_repository_kind && ks.spec.source_ref.name == name
    then key_of ks.meta ∷ rest
    else rest

abbrev pub blank_source : ObjectMeta → FluxGitRepository
blank_source m = record {
  meta = new_meta m.namespace m.name none;
  spec = record { url = ""; interval = pos 0; secret_ref = none; reference = none };
}

abbrev pub blank_kustomization : ObjectMeta → FluxKustomization
blank_kustomization m = record {
  meta = new_meta m.namespace m.name none;
  spec = record {
    interval = pos 0;
    path = "";
    prune = false;
    source_ref = record { api_version = ""; kind = ""; name = ""; namespace = "" };
  };
  last_applied_revision = "";
  conditions = [];
}

unfoldable pub source_spec : GitRepository → Kustomization → FluxGitRepositorySpec
source_spec gr ks =
    let ref = gr.spec.ref in
    record {
      url = gr.spec.url;
      interval = ks.spec.interval;
      secret_ref = none;
      reference = some (record { branch = ref.branch; tag = ref.tag; commit = ref.commit });
    }

unfoldable pub kustomization_spec : GitRepository → Kustomization → FluxKustomizationSpec
kustomization_spec gr ks = record {
  interval = ks.spec.interval;
  path = ks.spec.path;
  prune = ks.spec.prune;
  source_ref = record {
    api_version = "source.toolkit.fluxcd.io/v1";
    kind = "GitRepository";
    name = gr.meta.name;
    namespace = gr.meta.namespace;
  };
}

-- readyStatus, readyReason and readyMsg
pub record Readiness : Type 0 where
  pub status : ConditionStatus
  pub reason : String
  pub message : String

-- The loop over the conditions of the Flux Kustomization.
unfoldable pub mirrored : List Condition → Readiness
mirrored [] = record {
  status = condition_unknown;
  reason = "FluxKustomizationCreated";
  message = "Flux Kustomization created; waiting for Flux to reconcile.";
}
mirrored (c ∷ cs) =
    if c.type == cond_ready
    then record { status = c.status; reason = c.reason; message = c.message }
    else mirrored cs

module _ {W : Type 0} (rt : Runtime W) (r : KustomizationReconciler W) where
  unfoldable pub map_git_repository : ObjectMeta → Eff W (List NamespacedName)
  unfolding dependents
  map_git_repository obj =
      try (r.kustomizations.list obj.namespace none) (λ _. pure [])
        (λ items. pure (dependents obj.name items))

  unfoldable pub mutate_source :
      GitRepository → Kustomization → FluxGitRepository → Result FluxGitRepository
  unfolding source_spec
  mutate_source gr ks flux = elim (r.set_controller_reference gr.meta flux.meta) [
    | err e ↦ err (wrap "setting owner reference on Flux GitRepository: " e)
    | ok meta ↦ ok (record flux { meta = meta; spec = source_spec gr ks })
  ]

  unfoldable pub mutate_kustomization :
      GitRepository → Kustomization → FluxKustomization → Result FluxKustomization
  unfolding kustomization_spec
  mutate_kustomization gr ks flux = elim (r.set_controller_reference ks.meta flux.meta) [
    | err e ↦ err (wrap "setting owner reference: " e)
    | ok meta ↦ ok (record flux { meta = meta; spec = kustomization_spec gr ks })
  ]

  -- The two conditions, the observed generation and the patch of the status.
  unfoldable pub report : Kustomization → Kustomization → Readiness → Readiness → Eff W Return
  unfolding set_condition
  report original ks invalid readiness = do
    conditions₁ ← set_condition rt ks.status.conditions (record {
      type = cond_source_invalid;
      status = invalid.status;
      reason = invalid.reason;
      message = invalid.message;
      observed_generation = ks.meta.generation;
      last_transition_time = none;
    })
    conditions₂ ← set_condition rt conditions₁ (record {
      type = cond_ready;
      status = readiness.status;
      reason = readiness.reason;
      message = readiness.message;
      observed_generation = ks.meta.generation;
      last_transition_time = none;
    })
    try
        (r.kustomizations.patch_status original (record ks {
          status = record ks.status {
            observed_generation = ks.meta.generation;
            conditions = conditions₂;
          };
        }))
        (λ e. pure (failed (wrap "patching status: " e))) (λ _. pure done)

  abbrev pub verdict : ConditionStatus → String → String → Readiness
  verdict status reason message = record { status = status; reason = reason; message = message }

  abbrev pub with_revision : Kustomization → FluxKustomization → Kustomization
  with_revision ks flux = record ks {
    status = record ks.status { last_applied_revision = flux.last_applied_revision };
  }

  -- The source exists: the two Flux objects and the mirrored status.
  unfoldable pub sync : Kustomization → GitRepository → Eff W Return
  unfolding mutate_source mutate_kustomization mirrored report
  sync ks gr =
      try (r.create_or_update_flux_source (blank_source gr.meta) (mutate_source gr ks))
        (λ e. pure (failed (wrap "reconciling Flux GitRepository: " e)))
        λ _.
          try
            (r.create_or_update_flux_kustomization (blank_kustomization ks.meta)
              (mutate_kustomization gr ks))
            (λ e. pure (failed (wrap "reconciling Flux Kustomization: " e)))
            λ flux.
              report ks (with_revision ks flux)
                (verdict condition_false "GitRepositoryFound"
                  ("GitRepository " <> (rt.fmt.quoted ks.spec.source_ref.name <> " found.")))
                (mirrored flux.conditions)

  abbrev pub source_key : Kustomization → NamespacedName
  source_key ks = record { namespace = ks.meta.namespace; name = ks.spec.source_ref.name }

  unfoldable pub reconcile_source : Kustomization → Eff W Return
  unfolding report sync
  reconcile_source ks =
      if not (ks.spec.source_ref.kind == git_repository_kind)
      then report ks ks
          (verdict condition_true "InvalidSourceKind" (
            "sourceRef.kind "
            <> (rt.fmt.quoted ks.spec.source_ref.kind
                <> " is not supported; only GitRepository is allowed.")))
          (verdict condition_false "InvalidSourceKind" "Invalid sourceRef kind.")
      else try (r.git_repositories.get (source_key ks))
          (λ e.
            if not e.not_found
            then pure (failed (wrap "fetching GitRepository: " e))
            else report ks ks
                (verdict condition_true "GitRepositoryNotFound" (
                  "GitRepository "
                  <> (rt.fmt.quoted ks.spec.source_ref.name
                      <> (" not found in namespace " <> (rt.fmt.quoted ks.meta.namespace <> ".")))))
                (verdict condition_false "GitRepositoryNotFound"
                  "Waiting for referenced GitRepository to exist."))
          (sync ks)

  unfoldable pub reconcile : NamespacedName → Eff W Return
  unfolding reconcile_source
  reconcile req =
      try (r.kustomizations.get req)
        (λ e. if e.not_found then pure done else pure (failed (wrap "fetching Kustomization: " e)))
        reconcile_source
