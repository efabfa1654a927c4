-- ===== src/Api.antt =====
-- The custom resources of api/.
pub mod GitRepository
pub mod Kustomization
pub mod GithubInstance
pub mod AppInstallation
