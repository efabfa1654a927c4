-- ===== src/DeepCopy/Github.antt =====
-- api/github/v1alpha1/zz_generated.deepcopy.go: the API types as they are in memory, and their deep
-- copies.
pub mod Views
pub mod Pointers
use platform_service_gitops.Prelude.{List, Option, ℕ}
use platform_service_gitops.Api.GithubInstance.{SecretReference}
use platform_service_gitops.Api.AppInstallation.{AppInstallationSpec, InstanceReference}
use platform_service_gitops.DeepCopy.Meta.{ListInMemory, MetaLibrary, TypeMeta}
use platform_service_gitops.DeepCopy.Memory.{Heap, Place}
use platform_service_gitops.DeepCopy.Shapes.{copy_optional, copy_slice}
use platform_service_gitops.Go.Eff.{Eff, pure, ◌>>=◌}
use platform_service_gitops.Go.Int.{ℤ}

pub record AppInstallationStatusInMemory : Type 0 where
  pub observed_generation : ℤ
  pub installation_id : ℤ
  pub last_checked : Option ℕ
  pub conditions : Option ℕ

pub record GithubInstanceSpecInMemory : Type 0 where
  pub secret_refs : Option ℕ

pub record GithubInstanceStatusInMemory : Type 0 where
  pub observed_generation : ℤ
  pub conditions : Option ℕ

-- The structs with metadata, whose type is a library's.
pub record AppInstallationInMemory (Meta : Type 0) : Type 0 where
  pub type_meta : TypeMeta
  pub meta : Meta
  pub spec : AppInstallationSpec
  pub status : AppInstallationStatusInMemory

pub record GithubInstanceInMemory (Meta : Type 0) : Type 0 where
  pub type_meta : TypeMeta
  pub meta : Meta
  pub spec : GithubInstanceSpecInMemory
  pub status : GithubInstanceStatusInMemory

-- The places of the arrays that the types lead to.
pub record GithubArrays {C : Type 0} (lib : MetaLibrary C) : Type 0 where
  pub conditions : Place C (List lib.ConditionInMemory)
  pub secret_refs : Place C (List SecretReference)
  pub installations : Place C (List (AppInstallationInMemory lib.ObjectMetaInMemory))
  pub instances : Place C (List (GithubInstanceInMemory lib.ObjectMetaInMemory))

module _ {C : Type 0} where
  unfoldable pub app_installation_spec_into : AppInstallationSpec → Eff (Heap C) AppInstallationSpec
  app_installation_spec_into = pure

  unfoldable pub instance_reference_into : InstanceReference → Eff (Heap C) InstanceReference
  instance_reference_into = pure

  unfoldable pub secret_reference_into : SecretReference → Eff (Heap C) SecretReference
  secret_reference_into = pure

module _ {C : Type 0} (lib : MetaLibrary C) (arrays : GithubArrays lib) where
  unfoldable pub app_installation_status_into :
      AppInstallationStatusInMemory → Eff (Heap C) AppInstallationStatusInMemory
  app_installation_status_into s = do
    last_checked ← copy_optional lib.time.copy s.last_checked
    conditions ← copy_slice arrays.conditions lib.condition.copy s.conditions
    pure (record s { last_checked = last_checked; conditions = conditions })

  unfoldable pub app_installation_into :
      AppInstallationInMemory lib.ObjectMetaInMemory
      → Eff (Heap C) (AppInstallationInMemory lib.ObjectMetaInMemory)
  unfolding app_installation_status_into
  app_installation_into ai = do
    meta ← lib.object_meta.copy ai.meta
    status ← app_installation_status_into ai.status
    pure (record ai { meta = meta; status = status })

  unfoldable pub app_installation_list_into :
      ListInMemory lib.ListMetaInMemory → Eff (Heap C) (ListInMemory lib.ListMetaInMemory)
  unfolding app_installation_into
  app_installation_list_into list = do
    meta ← lib.list_meta.copy list.meta
    items ← copy_slice arrays.installations app_installation_into list.items
    pure (record list { meta = meta; items = items })

  unfoldable pub github_instance_spec_into :
      GithubInstanceSpecInMemory → Eff (Heap C) GithubInstanceSpecInMemory
  github_instance_spec_into s = do
    secret_refs ← copy_slice arrays.secret_refs pure s.secret_refs
    pure (record s { secret_refs = secret_refs })

  unfoldable pub github_instance_status_into :
      GithubInstanceStatusInMemory → Eff (Heap C) GithubInstanceStatusInMemory
  github_instance_status_into s = do
    conditions ← copy_slice arrays.conditions lib.condition.copy s.conditions
    pure (record s { conditions = conditions })

  unfoldable pub github_instance_into :
      GithubInstanceInMemory lib.ObjectMetaInMemory
      → Eff (Heap C) (GithubInstanceInMemory lib.ObjectMetaInMemory)
  unfolding github_instance_spec_into github_instance_status_into
  github_instance_into gi = do
    meta ← lib.object_meta.copy gi.meta
    spec ← github_instance_spec_into gi.spec
    status ← github_instance_status_into gi.status
    pure (record gi { meta = meta; spec = spec; status = status })

  unfoldable pub github_instance_list_into :
      ListInMemory lib.ListMetaInMemory → Eff (Heap C) (ListInMemory lib.ListMetaInMemory)
  unfolding github_instance_into
  github_instance_list_into list = do
    meta ← lib.list_meta.copy list.meta
    items ← copy_slice arrays.instances github_instance_into list.items
    pure (record list { meta = meta; items = items })
