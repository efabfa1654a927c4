-- ===== src/Api/GitRepository.antt =====
-- api/core/v1alpha1/gitrepository_types.go
use platform_service_gitops.Prelude.{String, Option, List}
use platform_service_gitops.Go.Int.{ℤ}
use platform_service_gitops.Go.Dict.{NilMap}
use platform_service_gitops.Go.Time.{Time}
use platform_service_gitops.K8s.Meta.{ObjectMeta, Condition}

pub record GitRef : Type 0 where
  pub branch : String
  pub tag : String
  pub commit : String

pub record CredentialRef : Type 0 where
  pub name : String
  pub kind : String
  pub group : String

abbrev pub propagate_target_kind_control_plane : String
propagate_target_kind_control_plane = "ControlPlane"

pub record PropagateTarget : Type 0 where
  pub kind : String
  pub namespace : String
  pub name : String
  pub match_labels : NilMap

pub data PropagatePhase : Type 0 where
  pending ready token_failed flux_failed conflict : PropagatePhase

pub record PropagateStatus : Type 0 where
  pub control_plane_namespace : String
  pub control_plane_name : String
  pub phase : PropagatePhase
  pub reason : String
  pub message : String
  pub token_expires_at : Option Time

pub record GitRepositorySpec : Type 0 where
  pub url : String
  pub ref : GitRef
  pub path : String
  pub credential_ref : CredentialRef
  pub propagate_to_control_planes : List PropagateTarget

pub record GitRepositoryStatus : Type 0 where
  pub observed_generation : ℤ
  pub conditions : List Condition
  pub propagated : List PropagateStatus

pub record GitRepository : Type 0 where
  pub meta : ObjectMeta
  pub spec : GitRepositorySpec
  pub status : GitRepositoryStatus
