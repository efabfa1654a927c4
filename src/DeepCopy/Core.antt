-- ===== src/DeepCopy/Core.antt =====
-- api/core/v1alpha1/zz_generated.deepcopy.go: the API types as they are in memory, and their deep
-- copies. DeepCopyInto gives what it leaves in `*out`; pointers to a struct have a place of their own.
pub mod Views
pub mod Pointers
use platform_service_gitops.Go.Eff.{◌>>=◌, Eff, pure}
use platform_service_gitops.Prelude.{List, Option, String, ℕ}
use platform_service_gitops.Api.GitRepository.{CredentialRef, GitRef, PropagatePhase}
use platform_service_gitops.Api.Kustomization.{KustomizationSpec, SourceRef}
use platform_service_gitops.DeepCopy.Meta.{MetaLibrary, TypeMeta, ListInMemory}
use platform_service_gitops.DeepCopy.Memory.{Heap, Place}
use platform_service_gitops.DeepCopy.Shapes.{copy_map, copy_optional, copy_slice}
use platform_service_gitops.Go.Dict.{Dict}
use platform_service_gitops.Go.Int.{ℤ}

pub record PropagateTargetInMemory : Type 0 where
  pub kind : String
  pub namespace : String
  pub name : String
  pub match_labels : Option ℕ

pub record PropagateStatusInMemory : Type 0 where
  pub control_plane_namespace : String
  pub control_plane_name : String
  pub phase : PropagatePhase
  pub reason : String
  pub message : String
  pub token_expires_at : Option ℕ

pub record GitRepositorySpecInMemory : Type 0 where
  pub url : String
  pub ref : GitRef
  pub path : String
  pub credential_ref : CredentialRef
  pub propagate_to_control_planes : Option ℕ

pub record GitRepositoryStatusInMemory : Type 0 where
  pub observed_generation : ℤ
  pub conditions : Option ℕ
  pub propagated : Option ℕ

pub record KustomizationStatusInMemory : Type 0 where
  pub observed_generation : ℤ
  pub conditions : Option ℕ
  pub last_applied_revision : String

-- The structs with metadata, whose type is a library's.
pub record GitRepositoryInMemory (Meta : Type 0) : Type 0 where
  pub type_meta : TypeMeta
  pub meta : Meta
  pub spec : GitRepositorySpecInMemory
  pub status : GitRepositoryStatusInMemory

pub record KustomizationInMemory (Meta : Type 0) : Type 0 where
  pub type_meta : TypeMeta
  pub meta : Meta
  pub spec : KustomizationSpec
  pub status : KustomizationStatusInMemory

-- The places of the arrays and maps that the types lead to.
pub record CoreArrays {C : Type 0} (lib : MetaLibrary C) : Type 0 where
  pub labels : Place C (Dict String)
  pub conditions : Place C (List lib.ConditionInMemory)
  pub targets : Place C (List PropagateTargetInMemory)
  pub propagated : Place C (List PropagateStatusInMemory)
  pub repositories : Place C (List (GitRepositoryInMemory lib.ObjectMetaInMemory))
  pub kustomizations : Place C (List (KustomizationInMemory lib.ObjectMetaInMemory))

module _ {C : Type 0} where
  unfoldable pub credential_ref_into : CredentialRef → Eff (Heap C) CredentialRef
  credential_ref_into = pure

  unfoldable pub git_ref_into : GitRef → Eff (Heap C) GitRef
  git_ref_into = pure

  unfoldable pub source_ref_into : SourceRef → Eff (Heap C) SourceRef
  source_ref_into = pure

  unfoldable pub kustomization_spec_into : KustomizationSpec → Eff (Heap C) KustomizationSpec
  kustomization_spec_into = pure

module _ {C : Type 0} (lib : MetaLibrary C) (arrays : CoreArrays lib) where
  unfoldable pub propagate_target_into :
      PropagateTargetInMemory → Eff (Heap C) PropagateTargetInMemory
  propagate_target_into t = do
    match_labels ← copy_map arrays.labels t.match_labels
    pure (record t { match_labels = match_labels })

  unfoldable pub propagate_status_into :
      PropagateStatusInMemory → Eff (Heap C) PropagateStatusInMemory
  propagate_status_into s = do
    token_expires_at ← copy_optional lib.time.copy s.token_expires_at
    pure (record s { token_expires_at = token_expires_at })

  unfoldable pub git_repository_spec_into :
      GitRepositorySpecInMemory → Eff (Heap C) GitRepositorySpecInMemory
  unfolding propagate_target_into
  git_repository_spec_into s = do
    targets ← copy_slice arrays.targets propagate_target_into s.propagate_to_control_planes
    pure (record s { propagate_to_control_planes = targets })

  unfoldable pub git_repository_status_into :
      GitRepositoryStatusInMemory → Eff (Heap C) GitRepositoryStatusInMemory
  unfolding propagate_status_into
  git_repository_status_into s = do
    conditions ← copy_slice arrays.conditions lib.condition.copy s.conditions
    propagated ← copy_slice arrays.propagated propagate_status_into s.propagated
    pure (record s { conditions = conditions; propagated = propagated })

  unfoldable pub git_repository_into :
      GitRepositoryInMemory lib.ObjectMetaInMemory
      → Eff (Heap C) (GitRepositoryInMemory lib.ObjectMetaInMemory)
  unfolding git_repository_spec_into git_repository_status_into
  git_repository_into gr = do
    meta ← lib.object_meta.copy gr.meta
    spec ← git_repository_spec_into gr.spec
    status ← git_repository_status_into gr.status
    pure (record gr { meta = meta; spec = spec; status = status })

  unfoldable pub git_repository_list_into :
      ListInMemory lib.ListMetaInMemory → Eff (Heap C) (ListInMemory lib.ListMetaInMemory)
  unfolding git_repository_into
  git_repository_list_into list = do
    meta ← lib.list_meta.copy list.meta
    items ← copy_slice arrays.repositories git_repository_into list.items
    pure (record list { meta = meta; items = items })

  unfoldable pub kustomization_status_into :
      KustomizationStatusInMemory → Eff (Heap C) KustomizationStatusInMemory
  kustomization_status_into s = do
    conditions ← copy_slice arrays.conditions lib.condition.copy s.conditions
    pure (record s { conditions = conditions })

  unfoldable pub kustomization_into :
      KustomizationInMemory lib.ObjectMetaInMemory
      → Eff (Heap C) (KustomizationInMemory lib.ObjectMetaInMemory)
  unfolding kustomization_status_into
  kustomization_into ks = do
    meta ← lib.object_meta.copy ks.meta
    status ← kustomization_status_into ks.status
    pure (record ks { meta = meta; status = status })

  unfoldable pub kustomization_list_into :
      ListInMemory lib.ListMetaInMemory → Eff (Heap C) (ListInMemory lib.ListMetaInMemory)
  unfolding kustomization_into
  kustomization_list_into list = do
    meta ← lib.list_meta.copy list.meta
    items ← copy_slice arrays.kustomizations kustomization_into list.items
    pure (record list { meta = meta; items = items })
