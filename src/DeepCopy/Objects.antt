-- ===== src/DeepCopy/Objects.antt =====
-- DeepCopyObject through the interface runtime.Object, for every type of the two groups.
pub mod Apart
use platform_service_gitops.DeepCopy.Core.Views.{
  git_repository, git_repository_list, kustomization, kustomization_list, git_repository-Deep,
  git_repository_list-Deep, kustomization-Deep, kustomization_list-Deep,
}
use platform_service_gitops.DeepCopy.Github.Views.{
  app_installation, app_installation_list, github_instance, github_instance_list,
  app_installation-Deep, app_installation_list-Deep, github_instance-Deep,
  github_instance_list-Deep,
}
use platform_service_gitops.Prelude.{List, Option, none, refl, some, ℕ, ◌≡◌}
use platform_service_gitops.Api.GithubInstance.{GithubInstance}
use platform_service_gitops.Api.GitRepository.{GitRepository}
use platform_service_gitops.Api.AppInstallation.{AppInstallation}
use platform_service_gitops.Api.Kustomization.{Kustomization}
use platform_service_gitops.DeepCopy.Copier.{Copier, Deep}
use platform_service_gitops.DeepCopy.Pointers.{optional-Deep, pointed-Deep}
use platform_service_gitops.DeepCopy.Meta.{
  ListInMemory, MetaLaws, MetaLibrary, Object, ObjectType, TypeMeta, app_installation_list_type,
  app_installation_type, as_object, git_repository_list_type, git_repository_type,
  github_instance_list_type, github_instance_type, kustomization_list_type, kustomization_type,
}
use platform_service_gitops.DeepCopy.Core.{CoreArrays, GitRepositoryInMemory, KustomizationInMemory}
use platform_service_gitops.DeepCopy.Memory.{Heap, Place}
use platform_service_gitops.DeepCopy.Github.{
  AppInstallationInMemory, GithubArrays, GithubInstanceInMemory,
}
use platform_service_gitops.DeepCopy.Shapes.{optional, pointed}
use platform_service_gitops.DeepCopy.Github.Pointers.{
  app_installation_deep_copy, app_installation_deep_copy_object, app_installation_list_deep_copy,
  app_installation_list_deep_copy_object, github_instance_deep_copy,
  github_instance_deep_copy_object, github_instance_list_deep_copy,
  github_instance_list_deep_copy_object,
}
use platform_service_gitops.DeepCopy.Core.Pointers.{
  git_repository_deep_copy, git_repository_deep_copy_object, git_repository_list_deep_copy,
  git_repository_list_deep_copy_object, kustomization_deep_copy, kustomization_deep_copy_object,
  kustomization_list_deep_copy, kustomization_list_deep_copy_object,
}
use platform_service_gitops.Go.Eff.{Eff, pure}

-- The places of all structs, arrays and maps.
pub record Layout {C : Type 0} (lib : MetaLibrary C) : Type 0 where
  pub core : CoreArrays lib
  pub github : GithubArrays lib
  pub git_repository : Place C (GitRepositoryInMemory lib.ObjectMetaInMemory)
  pub git_repository_list : Place C (ListInMemory lib.ListMetaInMemory)
  pub kustomization : Place C (KustomizationInMemory lib.ObjectMetaInMemory)
  pub kustomization_list : Place C (ListInMemory lib.ListMetaInMemory)
  pub app_installation : Place C (AppInstallationInMemory lib.ObjectMetaInMemory)
  pub app_installation_list : Place C (ListInMemory lib.ListMetaInMemory)
  pub github_instance : Place C (GithubInstanceInMemory lib.ObjectMetaInMemory)
  pub github_instance_list : Place C (ListInMemory lib.ListMetaInMemory)

module _ {C : Type 0} (lib : MetaLibrary C) (l : Layout lib) where
  -- The call of the method, which the type of the object selects.
  unfoldable pub deep_copy_object : ObjectType → Option ℕ → Eff (Heap C) (Option Object)
  deep_copy_object git_repository_type = git_repository_deep_copy_object lib l.core l.git_repository
  deep_copy_object git_repository_list_type =
      git_repository_list_deep_copy_object lib l.core l.git_repository_list
  deep_copy_object kustomization_type = kustomization_deep_copy_object lib l.core l.kustomization
  deep_copy_object kustomization_list_type =
      kustomization_list_deep_copy_object lib l.core l.kustomization_list
  deep_copy_object app_installation_type =
      app_installation_deep_copy_object lib l.github l.app_installation
  deep_copy_object app_installation_list_type =
      app_installation_list_deep_copy_object lib l.github l.app_installation_list
  deep_copy_object github_instance_type =
      github_instance_deep_copy_object lib l.github l.github_instance
  deep_copy_object github_instance_list_type =
      github_instance_list_deep_copy_object lib l.github l.github_instance_list

  -- What an object of the type stands for.
  abbrev pub ValueOf : ObjectType → Type 0
  ValueOf git_repository_type = TypeMeta × GitRepository
  ValueOf git_repository_list_type = TypeMeta × lib.ListMeta × List (TypeMeta × GitRepository)
  ValueOf kustomization_type = TypeMeta × Kustomization
  ValueOf kustomization_list_type = TypeMeta × lib.ListMeta × List (TypeMeta × Kustomization)
  ValueOf app_installation_type = TypeMeta × AppInstallation
  ValueOf app_installation_list_type = TypeMeta × lib.ListMeta × List (TypeMeta × AppInstallation)
  ValueOf github_instance_type = TypeMeta × GithubInstance
  ValueOf github_instance_list_type = TypeMeta × lib.ListMeta × List (TypeMeta × GithubInstance)

  abbrev pub pointer_to : (t : ObjectType) → Copier C (Option ℕ) (Option (ValueOf t))
  pointer_to git_repository_type = optional (pointed l.git_repository (git_repository lib l.core))
  pointer_to git_repository_list_type =
      optional (pointed l.git_repository_list (git_repository_list lib l.core))
  pointer_to kustomization_type = optional (pointed l.kustomization (kustomization lib l.core))
  pointer_to kustomization_list_type =
      optional (pointed l.kustomization_list (kustomization_list lib l.core))
  pointer_to app_installation_type =
      optional (pointed l.app_installation (app_installation lib l.github))
  pointer_to app_installation_list_type =
      optional (pointed l.app_installation_list (app_installation_list lib l.github))
  pointer_to github_instance_type =
      optional (pointed l.github_instance (github_instance lib l.github))
  pointer_to github_instance_list_type =
      optional (pointed l.github_instance_list (github_instance_list lib l.github))

  pub pointer_to-Deep : MetaLaws lib → (t : ObjectType) → Deep (pointer_to t)
  pointer_to-Deep L git_repository_type =
      optional-Deep _ (pointed-Deep _ _ (git_repository-Deep lib l.core L))
  pointer_to-Deep L git_repository_list_type =
      optional-Deep _ (pointed-Deep _ _ (git_repository_list-Deep lib l.core L))
  pointer_to-Deep L kustomization_type =
      optional-Deep _ (pointed-Deep _ _ (kustomization-Deep lib l.core L))
  pointer_to-Deep L kustomization_list_type =
      optional-Deep _ (pointed-Deep _ _ (kustomization_list-Deep lib l.core L))
  pointer_to-Deep L app_installation_type =
      optional-Deep _ (pointed-Deep _ _ (app_installation-Deep lib l.github L))
  pointer_to-Deep L app_installation_list_type =
      optional-Deep _ (pointed-Deep _ _ (app_installation_list-Deep lib l.github L))
  pointer_to-Deep L github_instance_type =
      optional-Deep _ (pointed-Deep _ _ (github_instance-Deep lib l.github L))
  pointer_to-Deep L github_instance_list_type =
      optional-Deep _ (pointed-Deep _ _ (github_instance_list-Deep lib l.github L))

  pub deep_copy_object-eq :
      (t : ObjectType) (p : Option ℕ) (h : Heap C)
      → deep_copy_object t p h
        ≡ (as_object t ((pointer_to t).copy p h).0, ((pointer_to t).copy p h).1)
  unfolding deep_copy_object git_repository_deep_copy git_repository_deep_copy_object
      git_repository_list_deep_copy git_repository_list_deep_copy_object kustomization_deep_copy
      kustomization_deep_copy_object kustomization_list_deep_copy
      kustomization_list_deep_copy_object app_installation_deep_copy
      app_installation_deep_copy_object app_installation_list_deep_copy
      app_installation_list_deep_copy_object github_instance_deep_copy
      github_instance_deep_copy_object github_instance_list_deep_copy
      github_instance_list_deep_copy_object
  deep_copy_object-eq git_repository_type p h = refl
  deep_copy_object-eq git_repository_list_type p h = refl
  deep_copy_object-eq kustomization_type p h = refl
  deep_copy_object-eq kustomization_list_type p h = refl
  deep_copy_object-eq app_installation_type p h = refl
  deep_copy_object-eq app_installation_list_type p h = refl
  deep_copy_object-eq github_instance_type p h = refl
  deep_copy_object-eq github_instance_list_type p h = refl
