-- ===== src/DeepCopy/Core/Views.antt =====
-- What the structs of DeepCopy.Core stand for, which are the API types of the rest of the model, and
-- their deep copies.
use platform_service_gitops.Prelude.{List, Option, String, refl, ℕ}
use platform_service_gitops.K8s.Meta.{Condition, ObjectMeta}
use platform_service_gitops.Api.GitRepository.{
  GitRepository, GitRepositorySpec, GitRepositoryStatus, PropagateStatus, PropagateTarget,
}
use platform_service_gitops.Api.Kustomization.{Kustomization, KustomizationStatus}
use platform_service_gitops.DeepCopy.Copier.{Copier, Deep}
use platform_service_gitops.DeepCopy.Pointers.{optional-Deep, pointed-Deep, slice-Deep}
use platform_service_gitops.DeepCopy.Meta.{MetaLaws, MetaLibrary, TypeMeta, or_empty}
use platform_service_gitops.DeepCopy.Elements.{entries-Deep}
use platform_service_gitops.DeepCopy.Core.{
  CoreArrays, GitRepositoryInMemory, GitRepositorySpecInMemory, GitRepositoryStatusInMemory,
  KustomizationInMemory, KustomizationStatusInMemory, ListInMemory, PropagateStatusInMemory,
  PropagateTargetInMemory, git_repository_into, git_repository_list_into, git_repository_spec_into,
  git_repository_status_into, kustomization_into, kustomization_list_into,
  kustomization_status_into, propagate_status_into, propagate_target_into,
}
use platform_service_gitops.DeepCopy.Laws.{pair-Deep, struct-Deep}
use platform_service_gitops.DeepCopy.Shapes.{Parts, entries, optional, pair, pointed, slice, struct}
use platform_service_gitops.Go.Dict.{Dict}
use platform_service_gitops.Go.Time.{Time}

module _ {C : Type 0} (lib : MetaLibrary C) (arrays : CoreArrays lib) where
  abbrev propagate_target_parts :
      Parts (PropagateTargetInMemory) (Option ℕ) (Option (Dict String)) (PropagateTarget)
  propagate_target_parts = record {
    part = λ t. t.match_labels;
    build = λ t x. record t { match_labels = x };
    view =
        λ t x. record { kind = t.kind; namespace = t.namespace; name = t.name; match_labels = x };
    part-build = λ r x. refl;
    view-build = λ r x. refl;
  }

  abbrev pub propagate_target : Copier C (PropagateTargetInMemory) (PropagateTarget)
  propagate_target =
      record (struct propagate_target_parts (optional (pointed arrays.labels entries))) {
        copy = propagate_target_into lib arrays;
      }

  pub propagate_target-Deep : Deep propagate_target
  unfolding propagate_target_into
  propagate_target-Deep =
      struct-Deep propagate_target_parts (optional (pointed arrays.labels entries))
        (optional-Deep _ (pointed-Deep arrays.labels entries entries-Deep))

  abbrev propagate_status_parts :
      Parts (PropagateStatusInMemory) (Option ℕ) (Option Time) (PropagateStatus)
  propagate_status_parts = record {
    part = λ s. s.token_expires_at;
    build = λ s x. record s { token_expires_at = x };
    view = λ s x. record {
      control_plane_namespace = s.control_plane_namespace;
      control_plane_name = s.control_plane_name;
      phase = s.phase;
      reason = s.reason;
      message = s.message;
      token_expires_at = x;
    };
    part-build = λ r x. refl;
    view-build = λ r x. refl;
  }

  abbrev pub propagate_status : Copier C (PropagateStatusInMemory) (PropagateStatus)
  propagate_status = record (struct propagate_status_parts (optional lib.time)) {
    copy = propagate_status_into lib arrays;
  }

  pub propagate_status-Deep : MetaLaws lib → Deep propagate_status
  unfolding propagate_status_into
  propagate_status-Deep L =
      struct-Deep propagate_status_parts (optional lib.time) (optional-Deep lib.time L.time)

  abbrev git_repository_spec_parts :
      Parts
        (GitRepositorySpecInMemory)
        (Option ℕ)
        (Option (List PropagateTarget))
        (GitRepositorySpec)
  git_repository_spec_parts = record {
    part = λ s. s.propagate_to_control_planes;
    build = λ s x. record s { propagate_to_control_planes = x };
    view = λ s x. record {
      url = s.url;
      ref = s.ref;
      path = s.path;
      credential_ref = s.credential_ref;
      propagate_to_control_planes = or_empty x;
    };
    part-build = λ r x. refl;
    view-build = λ r x. refl;
  }

  abbrev pub git_repository_spec : Copier C (GitRepositorySpecInMemory) (GitRepositorySpec)
  git_repository_spec =
      record (struct git_repository_spec_parts (slice arrays.targets propagate_target)) {
        copy = git_repository_spec_into lib arrays;
      }

  pub git_repository_spec-Deep : Deep git_repository_spec
  unfolding git_repository_spec_into
  git_repository_spec-Deep =
      struct-Deep git_repository_spec_parts (slice arrays.targets propagate_target)
        (slice-Deep arrays.targets propagate_target (propagate_target-Deep))

  abbrev git_repository_status_parts :
      Parts
        (GitRepositoryStatusInMemory)
        (Option ℕ × Option ℕ)
        (Option (List Condition) × Option (List PropagateStatus))
        (GitRepositoryStatus)
  git_repository_status_parts = record {
    part = λ s. (s.conditions, s.propagated);
    build = λ s x. record s { conditions = x.0; propagated = x.1 };
    view = λ s x. record {
      observed_generation = s.observed_generation;
      conditions = or_empty x.0;
      propagated = or_empty x.1;
    };
    part-build = λ r x. refl;
    view-build = λ r x. refl;
  }

  abbrev pub git_repository_status : Copier C (GitRepositoryStatusInMemory) (GitRepositoryStatus)
  git_repository_status =
      record (struct git_repository_status_parts
        (pair (slice arrays.conditions lib.condition) (slice arrays.propagated propagate_status))) {
          copy = git_repository_status_into lib arrays;
        }

  pub git_repository_status-Deep : MetaLaws lib → Deep git_repository_status
  unfolding git_repository_status_into
  git_repository_status-Deep L =
      struct-Deep git_repository_status_parts
        (pair (slice arrays.conditions lib.condition) (slice arrays.propagated propagate_status))
        (pair-Deep _ _ (slice-Deep arrays.conditions lib.condition L.condition)
          (slice-Deep arrays.propagated propagate_status (propagate_status-Deep L)))

  abbrev git_repository_parts :
      Parts
        (GitRepositoryInMemory lib.ObjectMetaInMemory)
        (lib.ObjectMetaInMemory × (GitRepositorySpecInMemory × GitRepositoryStatusInMemory))
        (ObjectMeta × (GitRepositorySpec × GitRepositoryStatus))
        (TypeMeta × GitRepository)
  git_repository_parts = record {
    part = λ gr. (gr.meta, (gr.spec, gr.status));
    build = λ gr x. record gr { meta = x.0; spec = x.1.0; status = x.1.1 };
    view = λ gr x. (gr.type_meta, record { meta = x.0; spec = x.1.0; status = x.1.1 });
    part-build = λ r x. refl;
    view-build = λ r x. refl;
  }

  abbrev pub git_repository :
      Copier C (GitRepositoryInMemory lib.ObjectMetaInMemory) (TypeMeta × GitRepository)
  git_repository =
      record (struct git_repository_parts
        (pair lib.object_meta (pair git_repository_spec git_repository_status))) {
          copy = git_repository_into lib arrays;
        }

  pub git_repository-Deep : MetaLaws lib → Deep git_repository
  unfolding git_repository_into
  git_repository-Deep L =
      struct-Deep git_repository_parts
        (pair lib.object_meta (pair git_repository_spec git_repository_status))
        (pair-Deep _ _ L.object_meta
          (pair-Deep _ _ git_repository_spec-Deep (git_repository_status-Deep L)))

  abbrev git_repository_list_parts :
      Parts
        (ListInMemory lib.ListMetaInMemory)
        (lib.ListMetaInMemory × Option ℕ)
        (lib.ListMeta × Option (List (TypeMeta × GitRepository)))
        (TypeMeta × lib.ListMeta × List (TypeMeta × GitRepository))
  git_repository_list_parts = record {
    part = λ list. (list.meta, list.items);
    build = λ list x. record list { meta = x.0; items = x.1 };
    view = λ list x. (list.type_meta, x.0, or_empty x.1);
    part-build = λ r x. refl;
    view-build = λ r x. refl;
  }

  abbrev pub git_repository_list :
      Copier C
        (ListInMemory lib.ListMetaInMemory)
        (TypeMeta × lib.ListMeta × List (TypeMeta × GitRepository))
  git_repository_list =
      record (struct git_repository_list_parts
        (pair lib.list_meta (slice arrays.repositories git_repository))) {
          copy = git_repository_list_into lib arrays;
        }

  pub git_repository_list-Deep : MetaLaws lib → Deep git_repository_list
  unfolding git_repository_list_into
  git_repository_list-Deep L =
      struct-Deep git_repository_list_parts
        (pair lib.list_meta (slice arrays.repositories git_repository))
        (pair-Deep _ _ L.list_meta
          (slice-Deep arrays.repositories git_repository (git_repository-Deep L)))

  abbrev kustomization_status_parts :
      Parts (KustomizationStatusInMemory) (Option ℕ) (Option (List Condition)) (KustomizationStatus)
  kustomization_status_parts = record {
    part = λ s. s.conditions;
    build = λ s x. record s { conditions = x };
    view = λ s x. record {
      observed_generation = s.observed_generation;
      conditions = or_empty x;
      last_applied_revision = s.last_applied_revision;
    };
    part-build = λ r x. refl;
    view-build = λ r x. refl;
  }

  abbrev pub kustomization_status : Copier C (KustomizationStatusInMemory) (KustomizationStatus)
  kustomization_status =
      record (struct kustomization_status_parts (slice arrays.conditions lib.condition)) {
        copy = kustomization_status_into lib arrays;
      }

  pub kustomization_status-Deep : MetaLaws lib → Deep kustomization_status
  unfolding kustomization_status_into
  kustomization_status-Deep L =
      struct-Deep kustomization_status_parts (slice arrays.conditions lib.condition)
        (slice-Deep arrays.conditions lib.condition L.condition)

  abbrev kustomization_parts :
      Parts
        (KustomizationInMemory lib.ObjectMetaInMemory)
        (lib.ObjectMetaInMemory × KustomizationStatusInMemory)
        (ObjectMeta × KustomizationStatus)
        (TypeMeta × Kustomization)
  kustomization_parts = record {
    part = λ ks. (ks.meta, ks.status);
    build = λ ks x. record ks { meta = x.0; status = x.1 };
    view = λ ks x. (ks.type_meta, record { meta = x.0; spec = ks.spec; status = x.1 });
    part-build = λ r x. refl;
    view-build = λ r x. refl;
  }

  abbrev pub kustomization :
      Copier C (KustomizationInMemory lib.ObjectMetaInMemory) (TypeMeta × Kustomization)
  kustomization = record (struct kustomization_parts (pair lib.object_meta kustomization_status)) {
    copy = kustomization_into lib arrays;
  }

  pub kustomization-Deep : MetaLaws lib → Deep kustomization
  unfolding kustomization_into
  kustomization-Deep L =
      struct-Deep kustomization_parts (pair lib.object_meta kustomization_status)
        (pair-Deep _ _ L.object_meta (kustomization_status-Deep L))

  abbrev kustomization_list_parts :
      Parts
        (ListInMemory lib.ListMetaInMemory)
        (lib.ListMetaInMemory × Option ℕ)
        (lib.ListMeta × Option (List (TypeMeta × Kustomization)))
        (TypeMeta × lib.ListMeta × List (TypeMeta × Kustomization))
  kustomization_list_parts = record {
    part = λ list. (list.meta, list.items);
    build = λ list x. record list { meta = x.0; items = x.1 };
    view = λ list x. (list.type_meta, x.0, or_empty x.1);
    part-build = λ r x. refl;
    view-build = λ r x. refl;
  }

  abbrev pub kustomization_list :
      Copier C
        (ListInMemory lib.ListMetaInMemory)
        (TypeMeta × lib.ListMeta × List (TypeMeta × Kustomization))
  kustomization_list =
      record (struct kustomization_list_parts
        (pair lib.list_meta (slice arrays.kustomizations kustomization))) {
          copy = kustomization_list_into lib arrays;
        }

  pub kustomization_list-Deep : MetaLaws lib → Deep kustomization_list
  unfolding kustomization_list_into
  kustomization_list-Deep L =
      struct-Deep kustomization_list_parts
        (pair lib.list_meta (slice arrays.kustomizations kustomization))
        (pair-Deep _ _ L.list_meta
          (slice-Deep arrays.kustomizations kustomization (kustomization-Deep L)))
