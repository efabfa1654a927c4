-- ===== src/K8s/Objects.antt =====
-- Objects of other projects, with the fields that the program reads or writes.
use platform_service_gitops.Prelude.{String, Bool, Option, List}
use platform_service_gitops.Go.Dict.{Dict}
use platform_service_gitops.Go.Time.{Duration}
use platform_service_gitops.K8s.Meta.{NamespacedName, ObjectMeta, Condition}
use platform_service_gitops.K8s.Client.{Client}

-- corev1.Secret
pub record Secret : Type 0 where
  pub meta : ObjectMeta
  pub contents : Dict String
  pub type : String

-- sourcev1.GitRepositoryRef
pub record FluxRef : Type 0 where
  pub branch : String
  pub tag : String
  pub commit : String

-- sourcev1.GitRepositorySpec
pub record FluxGitRepositorySpec : Type 0 where
  pub url : String
  pub interval : Duration
  pub secret_ref : Option String
  pub reference : Option FluxRef

-- sourcev1.GitRepository
pub record FluxGitRepository : Type 0 where
  pub meta : ObjectMeta
  pub spec : FluxGitRepositorySpec

-- kustomizev1.CrossNamespaceSourceReference
pub record FluxSourceRef : Type 0 where
  pub api_version : String
  pub kind : String
  pub name : String
  pub namespace : String

-- kustomizev1.KustomizationSpec
pub record FluxKustomizationSpec : Type 0 where
  pub interval : Duration
  pub path : String
  pub prune : Bool
  pub source_ref : FluxSourceRef

-- kustomizev1.Kustomization
pub record FluxKustomization : Type 0 where
  pub meta : ObjectMeta
  pub spec : FluxKustomizationSpec
  pub last_applied_revision : String
  pub conditions : List Condition

-- rbacv1.PolicyRule
pub record PolicyRule : Type 0 where
  pub api_groups : List String
  pub resources : List String
  pub verbs : List String

-- clustersv1alpha1.PermissionsRequest
pub record PermissionsRequest : Type 0 where
  pub rules : List PolicyRule

-- clustersv1alpha1.AccessRequest; the two Booleans are what Status.IsPending and
-- Status.IsDenied report.
pub record AccessRequest : Type 0 where
  pub meta : ObjectMeta
  pub request_ref : Option NamespacedName
  pub permissions : List PermissionsRequest
  pub is_pending : Bool
  pub is_denied : Bool
  pub secret_ref : Option String

-- corev2alpha1.ControlPlane
pub record ControlPlane : Type 0 where
  pub meta : ObjectMeta

-- The client of one MCP cluster, for the two kinds that the program keeps there.
pub record McpClient (W : Type 0) : Type 0 where
  pub secrets : Client W Secret
  pub flux_git_repositories : Client W FluxGitRepository
