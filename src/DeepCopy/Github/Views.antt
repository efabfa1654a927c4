-- ===== src/DeepCopy/Github/Views.antt =====
-- What the structs of DeepCopy.Github stand for, and their deep copies.
use platform_service_gitops.Prelude.{List, Option, refl, ℕ}
use platform_service_gitops.K8s.Meta.{Condition, ObjectMeta}
use platform_service_gitops.Api.GithubInstance.{
  GithubInstance, GithubInstanceSpec, GithubInstanceStatus, SecretReference,
}
use platform_service_gitops.Api.AppInstallation.{AppInstallation, AppInstallationStatus}
use platform_service_gitops.DeepCopy.Copier.{Copier, Deep}
use platform_service_gitops.DeepCopy.Pointers.{optional-Deep, slice-Deep}
use platform_service_gitops.DeepCopy.Meta.{ListInMemory, MetaLaws, MetaLibrary, TypeMeta, or_empty}
use platform_service_gitops.DeepCopy.Laws.{pair-Deep, plain-Deep, struct-Deep}
use platform_service_gitops.DeepCopy.Github.{
  AppInstallationInMemory, AppInstallationStatusInMemory, GithubArrays, GithubInstanceInMemory,
  GithubInstanceSpecInMemory, GithubInstanceStatusInMemory, app_installation_into,
  app_installation_list_into, app_installation_status_into, github_instance_into,
  github_instance_list_into, github_instance_spec_into, github_instance_status_into,
}
use platform_service_gitops.DeepCopy.Shapes.{Parts, optional, pair, plain, slice, struct}
use platform_service_gitops.Go.Time.{Time}

module _ {C : Type 0} (lib : MetaLibrary C) (arrays : GithubArrays lib) where
  abbrev app_installation_status_parts :
      Parts
        (AppInstallationStatusInMemory)
        (Option ℕ × Option ℕ)
        (Option Time × Option (List Condition))
        (AppInstallationStatus)
  app_installation_status_parts = record {
    part = λ s. (s.last_checked, s.conditions);
    build = λ s x. record s { last_checked = x.0; conditions = x.1 };
    view = λ s x. record {
      observed_generation = s.observed_generation;
      installation_id = s.installation_id;
      last_checked = x.0;
      conditions = or_empty x.1;
    };
    part-build = λ r x. refl;
    view-build = λ r x. refl;
  }

  abbrev pub app_installation_status :
      Copier C (AppInstallationStatusInMemory) (AppInstallationStatus)
  app_installation_status =
      record (struct app_installation_status_parts
        (pair (optional lib.time) (slice arrays.conditions lib.condition))) {
          copy = app_installation_status_into lib arrays;
        }

  pub app_installation_status-Deep : MetaLaws lib → Deep app_installation_status
  unfolding app_installation_status_into
  app_installation_status-Deep L =
      struct-Deep app_installation_status_parts
        (pair (optional lib.time) (slice arrays.conditions lib.condition))
        (pair-Deep _ _ (optional-Deep lib.time L.time)
          (slice-Deep arrays.conditions lib.condition L.condition))

  abbrev app_installation_parts :
      Parts
        (AppInstallationInMemory lib.ObjectMetaInMemory)
        (lib.ObjectMetaInMemory × AppInstallationStatusInMemory)
        (ObjectMeta × AppInstallationStatus)
        (TypeMeta × AppInstallation)
  app_installation_parts = record {
    part = λ ai. (ai.meta, ai.status);
    build = λ ai x. record ai { meta = x.0; status = x.1 };
    view = λ ai x. (ai.type_meta, record { meta = x.0; spec = ai.spec; status = x.1 });
    part-build = λ r x. refl;
    view-build = λ r x. refl;
  }

  abbrev pub app_installation :
      Copier C (AppInstallationInMemory lib.ObjectMetaInMemory) (TypeMeta × AppInstallation)
  app_installation =
      record (struct app_installation_parts (pair lib.object_meta app_installation_status)) {
        copy = app_installation_into lib arrays;
      }

  pub app_installation-Deep : MetaLaws lib → Deep app_installation
  unfolding app_installation_into
  app_installation-Deep L =
      struct-Deep app_installation_parts (pair lib.object_meta app_installation_status)
        (pair-Deep _ _ L.object_meta (app_installation_status-Deep L))

  abbrev app_installation_list_parts :
      Parts
        (ListInMemory lib.ListMetaInMemory)
        (lib.ListMetaInMemory × Option ℕ)
        (lib.ListMeta × Option (List (TypeMeta × AppInstallation)))
        (TypeMeta × lib.ListMeta × List (TypeMeta × AppInstallation))
  app_installation_list_parts = record {
    part = λ list. (list.meta, list.items);
    build = λ list x. record list { meta = x.0; items = x.1 };
    view = λ list x. (list.type_meta, x.0, or_empty x.1);
    part-build = λ r x. refl;
    view-build = λ r x. refl;
  }

  abbrev pub app_installation_list :
      Copier C
        (ListInMemory lib.ListMetaInMemory)
        (TypeMeta × lib.ListMeta × List (TypeMeta × AppInstallation))
  app_installation_list =
      record (struct app_installation_list_parts
        (pair lib.list_meta (slice arrays.installations app_installation))) {
          copy = app_installation_list_into lib arrays;
        }

  pub app_installation_list-Deep : MetaLaws lib → Deep app_installation_list
  unfolding app_installation_list_into
  app_installation_list-Deep L =
      struct-Deep app_installation_list_parts
        (pair lib.list_meta (slice arrays.installations app_installation))
        (pair-Deep _ _ L.list_meta
          (slice-Deep arrays.installations app_installation (app_installation-Deep L)))

  abbrev github_instance_spec_parts :
      Parts
        (GithubInstanceSpecInMemory)
        (Option ℕ)
        (Option (List SecretReference))
        (GithubInstanceSpec)
  github_instance_spec_parts = record {
    part = λ s. s.secret_refs;
    build = λ s x. record s { secret_refs = x };
    view = λ s x. record { secret_refs = or_empty x };
    part-build = λ r x. refl;
    view-build = λ r x. refl;
  }

  abbrev pub github_instance_spec : Copier C (GithubInstanceSpecInMemory) (GithubInstanceSpec)
  github_instance_spec =
      record (struct github_instance_spec_parts (slice arrays.secret_refs plain)) {
        copy = github_instance_spec_into lib arrays;
      }

  pub github_instance_spec-Deep : Deep github_instance_spec
  unfolding github_instance_spec_into
  github_instance_spec-Deep =
      struct-Deep github_instance_spec_parts (slice arrays.secret_refs plain)
        (slice-Deep arrays.secret_refs plain plain-Deep)

  abbrev github_instance_status_parts :
      Parts
        (GithubInstanceStatusInMemory)
        (Option ℕ)
        (Option (List Condition))
        (GithubInstanceStatus)
  github_instance_status_parts = record {
    part = λ s. s.conditions;
    build = λ s x. record s { conditions = x };
    view = λ s x. record { observed_generation = s.observed_generation; conditions = or_empty x };
    part-build = λ r x. refl;
    view-build = λ r x. refl;
  }

  abbrev pub github_instance_status : Copier C (GithubInstanceStatusInMemory) (GithubInstanceStatus)
  github_instance_status =
      record (struct github_instance_status_parts (slice arrays.conditions lib.condition)) {
        copy = github_instance_status_into lib arrays;
      }

  pub github_instance_status-Deep : MetaLaws lib → Deep github_instance_status
  unfolding github_instance_status_into
  github_instance_status-Deep L =
      struct-Deep github_instance_status_parts (slice arrays.conditions lib.condition)
        (slice-Deep arrays.conditions lib.condition L.condition)

  abbrev github_instance_parts :
      Parts
        (GithubInstanceInMemory lib.ObjectMetaInMemory)
        (lib.ObjectMetaInMemory × (GithubInstanceSpecInMemory × GithubInstanceStatusInMemory))
        (ObjectMeta × (GithubInstanceSpec × GithubInstanceStatus))
        (TypeMeta × GithubInstance)
  github_instance_parts = record {
    part = λ gi. (gi.meta, (gi.spec, gi.status));
    build = λ gi x. record gi { meta = x.0; spec = x.1.0; status = x.1.1 };
    view = λ gi x. (gi.type_meta, record { meta = x.0; spec = x.1.0; status = x.1.1 });
    part-build = λ r x. refl;
    view-build = λ r x. refl;
  }

  abbrev pub github_instance :
      Copier C (GithubInstanceInMemory lib.ObjectMetaInMemory) (TypeMeta × GithubInstance)
  github_instance =
      record (struct github_instance_parts
        (pair lib.object_meta (pair github_instance_spec github_instance_status))) {
          copy = github_instance_into lib arrays;
        }

  pub github_instance-Deep : MetaLaws lib → Deep github_instance
  unfolding github_instance_into
  github_instance-Deep L =
      struct-Deep github_instance_parts
        (pair lib.object_meta (pair github_instance_spec github_instance_status))
        (pair-Deep _ _ L.object_meta
          (pair-Deep _ _ github_instance_spec-Deep (github_instance_status-Deep L)))

  abbrev github_instance_list_parts :
      Parts
        (ListInMemory lib.ListMetaInMemory)
        (lib.ListMetaInMemory × Option ℕ)
        (lib.ListMeta × Option (List (TypeMeta × GithubInstance)))
        (TypeMeta × lib.ListMeta × List (TypeMeta × GithubInstance))
  github_instance_list_parts = record {
    part = λ list. (list.meta, list.items);
    build = λ list x. record list { meta = x.0; items = x.1 };
    view = λ list x. (list.type_meta, x.0, or_empty x.1);
    part-build = λ r x. refl;
    view-build = λ r x. refl;
  }

  abbrev pub github_instance_list :
      Copier C
        (ListInMemory lib.ListMetaInMemory)
        (TypeMeta × lib.ListMeta × List (TypeMeta × GithubInstance))
  github_instance_list =
      record (struct github_instance_list_parts
        (pair lib.list_meta (slice arrays.instances github_instance))) {
          copy = github_instance_list_into lib arrays;
        }

  pub github_instance_list-Deep : MetaLaws lib → Deep github_instance_list
  unfolding github_instance_list_into
  github_instance_list-Deep L =
      struct-Deep github_instance_list_parts
        (pair lib.list_meta (slice arrays.instances github_instance))
        (pair-Deep _ _ L.list_meta
          (slice-Deep arrays.instances github_instance (github_instance-Deep L)))
