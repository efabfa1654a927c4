-- ===== src/DeepCopy/Core/Pointers.antt =====
-- api/core/v1alpha1/zz_generated.deepcopy.go: DeepCopy and DeepCopyObject. A pointer that is nil is
-- `none`, and a place is where the structs stand that the pointers lead to.
use platform_service_gitops.Prelude.{Option, ℕ}
use platform_service_gitops.Api.GitRepository.{CredentialRef, GitRef}
use platform_service_gitops.Api.Kustomization.{KustomizationSpec, SourceRef}
use platform_service_gitops.DeepCopy.Core.{
  CoreArrays, GitRepositoryInMemory, GitRepositorySpecInMemory, GitRepositoryStatusInMemory,
  KustomizationInMemory, KustomizationStatusInMemory, PropagateStatusInMemory,
  PropagateTargetInMemory, credential_ref_into, git_ref_into, git_repository_into,
  git_repository_list_into, git_repository_spec_into, git_repository_status_into,
  kustomization_into, kustomization_list_into, kustomization_spec_into, kustomization_status_into,
  propagate_status_into, propagate_target_into, source_ref_into,
}
use platform_service_gitops.DeepCopy.Memory.{Heap, Place}
use platform_service_gitops.DeepCopy.Shapes.{deep_copy}
use platform_service_gitops.Go.Eff.{Eff, pure, ◌>>=◌}
use platform_service_gitops.DeepCopy.Meta.{
  ListInMemory, MetaLibrary, Object, as_object, git_repository_list_type, git_repository_type,
  kustomization_list_type, kustomization_type,
}

module _ {C : Type 0} where
  unfoldable pub credential_ref_deep_copy :
      Place C CredentialRef → Option ℕ → Eff (Heap C) (Option ℕ)
  unfolding credential_ref_into
  credential_ref_deep_copy place = deep_copy place credential_ref_into

  unfoldable pub git_ref_deep_copy : Place C GitRef → Option ℕ → Eff (Heap C) (Option ℕ)
  unfolding git_ref_into
  git_ref_deep_copy place = deep_copy place git_ref_into

  unfoldable pub source_ref_deep_copy : Place C SourceRef → Option ℕ → Eff (Heap C) (Option ℕ)
  unfolding source_ref_into
  source_ref_deep_copy place = deep_copy place source_ref_into

  unfoldable pub kustomization_spec_deep_copy :
      Place C KustomizationSpec → Option ℕ → Eff (Heap C) (Option ℕ)
  unfolding kustomization_spec_into
  kustomization_spec_deep_copy place = deep_copy place kustomization_spec_into

module _ {C : Type 0} (lib : MetaLibrary C) (arrays : CoreArrays lib) where
  unfoldable pub propagate_target_deep_copy :
      Place C PropagateTargetInMemory → Option ℕ → Eff (Heap C) (Option ℕ)
  unfolding propagate_target_into
  propagate_target_deep_copy place = deep_copy place (propagate_target_into lib arrays)

  unfoldable pub propagate_status_deep_copy :
      Place C PropagateStatusInMemory → Option ℕ → Eff (Heap C) (Option ℕ)
  unfolding propagate_status_into
  propagate_status_deep_copy place = deep_copy place (propagate_status_into lib arrays)

  unfoldable pub git_repository_spec_deep_copy :
      Place C GitRepositorySpecInMemory → Option ℕ → Eff (Heap C) (Option ℕ)
  unfolding git_repository_spec_into
  git_repository_spec_deep_copy place = deep_copy place (git_repository_spec_into lib arrays)

  unfoldable pub git_repository_status_deep_copy :
      Place C GitRepositoryStatusInMemory → Option ℕ → Eff (Heap C) (Option ℕ)
  unfolding git_repository_status_into
  git_repository_status_deep_copy place = deep_copy place (git_repository_status_into lib arrays)

  unfoldable pub kustomization_status_deep_copy :
      Place C KustomizationStatusInMemory → Option ℕ → Eff (Heap C) (Option ℕ)
  unfolding kustomization_status_into
  kustomization_status_deep_copy place = deep_copy place (kustomization_status_into lib arrays)

  unfoldable pub git_repository_deep_copy :
      Place C (GitRepositoryInMemory lib.ObjectMetaInMemory) → Option ℕ → Eff (Heap C) (Option ℕ)
  unfolding git_repository_into
  git_repository_deep_copy place = deep_copy place (git_repository_into lib arrays)

  unfoldable pub git_repository_deep_copy_object :
      Place C (GitRepositoryInMemory lib.ObjectMetaInMemory)
      → Option ℕ
      → Eff (Heap C) (Option Object)
  unfolding git_repository_deep_copy
  git_repository_deep_copy_object place p = do
    c ← git_repository_deep_copy place p
    pure (as_object git_repository_type c)

  unfoldable pub git_repository_list_deep_copy :
      Place C (ListInMemory lib.ListMetaInMemory) → Option ℕ → Eff (Heap C) (Option ℕ)
  unfolding git_repository_list_into
  git_repository_list_deep_copy place = deep_copy place (git_repository_list_into lib arrays)

  unfoldable pub git_repository_list_deep_copy_object :
      Place C (ListInMemory lib.ListMetaInMemory) → Option ℕ → Eff (Heap C) (Option Object)
  unfolding git_repository_list_deep_copy
  git_repository_list_deep_copy_object place p = do
    c ← git_repository_list_deep_copy place p
    pure (as_object git_repository_list_type c)

  unfoldable pub kustomization_deep_copy :
      Place C (KustomizationInMemory lib.ObjectMetaInMemory) → Option ℕ → Eff (Heap C) (Option ℕ)
  unfolding kustomization_into
  kustomization_deep_copy place = deep_copy place (kustomization_into lib arrays)

  unfoldable pub kustomization_deep_copy_object :
      Place C (KustomizationInMemory lib.ObjectMetaInMemory)
      → Option ℕ
      → Eff (Heap C) (Option Object)
  unfolding kustomization_deep_copy
  kustomization_deep_copy_object place p = do
    c ← kustomization_deep_copy place p
    pure (as_object kustomization_type c)

  unfoldable pub kustomization_list_deep_copy :
      Place C (ListInMemory lib.ListMetaInMemory) → Option ℕ → Eff (Heap C) (Option ℕ)
  unfolding kustomization_list_into
  kustomization_list_deep_copy place = deep_copy place (kustomization_list_into lib arrays)

  unfoldable pub kustomization_list_deep_copy_object :
      Place C (ListInMemory lib.ListMetaInMemory) → Option ℕ → Eff (Heap C) (Option Object)
  unfolding kustomization_list_deep_copy
  kustomization_list_deep_copy_object place p = do
    c ← kustomization_list_deep_copy place p
    pure (as_object kustomization_list_type c)
