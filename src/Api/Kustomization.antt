-- ===== src/Api/Kustomization.antt =====
-- api/core/v1alpha1/kustomization_types.go
use platform_service_gitops.Prelude.{String, Bool, List}
use platform_service_gitops.Go.Int.{ℤ}
use platform_service_gitops.Go.Time.{Duration}
use platform_service_gitops.K8s.Meta.{ObjectMeta, Condition}

pub record SourceRef : Type 0 where
  pub kind : String
  pub name : String

pub record KustomizationSpec : Type 0 where
  pub source_ref : SourceRef
  pub path : String
  pub interval : Duration
  pub prune : Bool

pub record KustomizationStatus : Type 0 where
  pub observed_generation : ℤ
  pub conditions : List Condition
  pub last_applied_revision : String

pub record Kustomization : Type 0 where
  pub meta : ObjectMeta
  pub spec : KustomizationSpec
  pub status : KustomizationStatus
