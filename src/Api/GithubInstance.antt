-- ===== src/Api/GithubInstance.antt =====
-- api/github/v1alpha1/githubinstance_types.go
use platform_service_gitops.Prelude.{String, List}
use platform_service_gitops.Go.Int.{ℤ}
use platform_service_gitops.K8s.Meta.{ObjectMeta, Condition}

pub record SecretReference : Type 0 where
  pub name : String
  pub namespace : String

pub record GithubInstanceSpec : Type 0 where
  pub secret_refs : List SecretReference

pub record GithubInstanceStatus : Type 0 where
  pub observed_generation : ℤ
  pub conditions : List Condition

pub record GithubInstance : Type 0 where
  pub meta : ObjectMeta
  pub spec : GithubInstanceSpec
  pub status : GithubInstanceStatus
