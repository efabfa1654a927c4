-- ===== src/Api/AppInstallation.antt =====
-- api/github/v1alpha1/appinstallation_types.go
use platform_service_gitops.Prelude.{String, Option, List}
use platform_service_gitops.Go.Int.{ℤ}
use platform_service_gitops.Go.Time.{Time}
use platform_service_gitops.K8s.Meta.{ObjectMeta, Condition}

pub record InstanceReference : Type 0 where
  pub name : String

pub record AppInstallationSpec : Type 0 where
  pub instance_ref : InstanceReference
  pub credential_name : String
  pub org : String
  pub user : String

pub record AppInstallationStatus : Type 0 where
  pub observed_generation : ℤ
  pub installation_id : ℤ
  pub last_checked : Option Time
  pub conditions : List Condition

pub record AppInstallation : Type 0 where
  pub meta : ObjectMeta
  pub spec : AppInstallationSpec
  pub status : AppInstallationStatus
