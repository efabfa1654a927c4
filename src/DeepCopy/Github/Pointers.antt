-- ===== src/DeepCopy/Github/Pointers.antt =====
-- api/github/v1alpha1/zz_generated.deepcopy.go: DeepCopy and DeepCopyObject.
use platform_service_gitops.Prelude.{Option, ℕ}
use platform_service_gitops.Api.GithubInstance.{SecretReference}
use platform_service_gitops.Api.AppInstallation.{AppInstallationSpec, InstanceReference}
use platform_service_gitops.DeepCopy.Memory.{Heap, Place}
use platform_service_gitops.DeepCopy.Github.{
  AppInstallationInMemory, AppInstallationStatusInMemory, GithubArrays, GithubInstanceInMemory,
  GithubInstanceSpecInMemory, GithubInstanceStatusInMemory, app_installation_into,
  app_installation_list_into, app_installation_spec_into, app_installation_status_into,
  github_instance_into, github_instance_list_into, github_instance_spec_into,
  github_instance_status_into, instance_reference_into, secret_reference_into,
}
use platform_service_gitops.DeepCopy.Shapes.{deep_copy}
use platform_service_gitops.Go.Eff.{Eff, pure, ◌>>=◌}
use platform_service_gitops.DeepCopy.Meta.{
  ListInMemory, MetaLibrary, Object, app_installation_list_type, app_installation_type, as_object,
  github_instance_list_type, github_instance_type,
}

module _ {C : Type 0} where
  unfoldable pub app_installation_spec_deep_copy :
      Place C AppInstallationSpec → Option ℕ → Eff (Heap C) (Option ℕ)
  unfolding app_installation_spec_into
  app_installation_spec_deep_copy place = deep_copy place app_installation_spec_into

  unfoldable pub instance_reference_deep_copy :
      Place C InstanceReference → Option ℕ → Eff (Heap C) (Option ℕ)
  unfolding instance_reference_into
  instance_reference_deep_copy place = deep_copy place instance_reference_into

  unfoldable pub secret_reference_deep_copy :
      Place C SecretReference → Option ℕ → Eff (Heap C) (Option ℕ)
  unfolding secret_reference_into
  secret_reference_deep_copy place = deep_copy place secret_reference_into

module _ {C : Type 0} (lib : MetaLibrary C) (arrays : GithubArrays lib) where
  unfoldable pub app_installation_status_deep_copy :
      Place C AppInstallationStatusInMemory → Option ℕ → Eff (Heap C) (Option ℕ)
  unfolding app_installation_status_into
  app_installation_status_deep_copy place =
      deep_copy place (app_installation_status_into lib arrays)

  unfoldable pub github_instance_spec_deep_copy :
      Place C GithubInstanceSpecInMemory → Option ℕ → Eff (Heap C) (Option ℕ)
  unfolding github_instance_spec_into
  github_instance_spec_deep_copy place = deep_copy place (github_instance_spec_into lib arrays)

  unfoldable pub github_instance_status_deep_copy :
      Place C GithubInstanceStatusInMemory → Option ℕ → Eff (Heap C) (Option ℕ)
  unfolding github_instance_status_into
  github_instance_status_deep_copy place = deep_copy place (github_instance_status_into lib arrays)

  unfoldable pub app_installation_deep_copy :
      Place C (AppInstallationInMemory lib.ObjectMetaInMemory) → Option ℕ → Eff (Heap C) (Option ℕ)
  unfolding app_installation_into
  app_installation_deep_copy place = deep_copy place (app_installation_into lib arrays)

  unfoldable pub app_installation_deep_copy_object :
      Place C (AppInstallationInMemory lib.ObjectMetaInMemory)
      → Option ℕ
      → Eff (Heap C) (Option Object)
  unfolding app_installation_deep_copy
  app_installation_deep_copy_object place p = do
    c ← app_installation_deep_copy place p
    pure (as_object app_installation_type c)

  unfoldable pub app_installation_list_deep_copy :
      Place C (ListInMemory lib.ListMetaInMemory) → Option ℕ → Eff (Heap C) (Option ℕ)
  unfolding app_installation_list_into
  app_installation_list_deep_copy place = deep_copy place (app_installation_list_into lib arrays)

  unfoldable pub app_installation_list_deep_copy_object :
      Place C (ListInMemory lib.ListMetaInMemory) → Option ℕ → Eff (Heap C) (Option Object)
  unfolding app_installation_list_deep_copy
  app_installation_list_deep_copy_object place p = do
    c ← app_installation_list_deep_copy place p
    pure (as_object app_installation_list_type c)

  unfoldable pub github_instance_deep_copy :
      Place C (GithubInstanceInMemory lib.ObjectMetaInMemory) → Option ℕ → Eff (Heap C) (Option ℕ)
  unfolding github_instance_into
  github_instance_deep_copy place = deep_copy place (github_instance_into lib arrays)

  unfoldable pub github_instance_deep_copy_object :
      Place C (GithubInstanceInMemory lib.ObjectMetaInMemory)
      → Option ℕ
      → Eff (Heap C) (Option Object)
  unfolding github_instance_deep_copy
  github_instance_deep_copy_object place p = do
    c ← github_instance_deep_copy place p
    pure (as_object github_instance_type c)

  unfoldable pub github_instance_list_deep_copy :
      Place C (ListInMemory lib.ListMetaInMemory) → Option ℕ → Eff (Heap C) (Option ℕ)
  unfolding github_instance_list_into
  github_instance_list_deep_copy place = deep_copy place (github_instance_list_into lib arrays)

  unfoldable pub github_instance_list_deep_copy_object :
      Place C (ListInMemory lib.ListMetaInMemory) → Option ℕ → Eff (Heap C) (Option Object)
  unfolding github_instance_list_deep_copy
  github_instance_list_deep_copy_object place p = do
    c ← github_instance_list_deep_copy place p
    pure (as_object github_instance_list_type c)
