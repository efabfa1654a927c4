-- ===== src/DeepCopy/Meta.antt =====
-- metav1, as the generated code sees it.
-- What the generated code calls of apimachinery: the deep copies of its types.
use platform_service_gitops.Prelude.{List, Option, String, [], none, some, ℕ}
use platform_service_gitops.K8s.Meta.{Condition, ObjectMeta}
use platform_service_gitops.DeepCopy.Copier.{Copier, Deep}
use platform_service_gitops.Go.Time.{Time}

pub record MetaLibrary (C : Type 0) : Type 1 where
  pub ObjectMetaInMemory : Type 0
  pub ListMetaInMemory : Type 0
  pub ListMeta : Type 0
  pub ConditionInMemory : Type 0
  pub object_meta : Copier C ObjectMetaInMemory ObjectMeta
  pub list_meta : Copier C ListMetaInMemory ListMeta
  pub condition : Copier C ConditionInMemory Condition
  -- (*metav1.Time).DeepCopy, of a pointer that is not nil
  pub time : Copier C ℕ Time

pub record MetaLaws {C : Type 0} (lib : MetaLibrary C) : Type 0 where
  pub object_meta : Deep lib.object_meta
  pub list_meta : Deep lib.list_meta
  pub condition : Deep lib.condition
  pub time : Deep lib.time

-- metav1.TypeMeta
pub record TypeMeta : Type 0 where
  pub kind : String
  pub api_version : String

-- A slice that is nil has no elements.
abbrev pub or_empty : {V : Type 0} → Option (List V) → List V
or_empty none = []
or_empty (some list) = list

-- A list of objects, such as GitRepositoryList.
pub record ListInMemory (Meta : Type 0) : Type 0 where
  pub type_meta : TypeMeta
  pub meta : Meta
  pub items : Option ℕ

-- The types of objects that implement runtime.Object.
pub data ObjectType : Type 0 where
  git_repository_type : ObjectType
  git_repository_list_type : ObjectType
  kustomization_type : ObjectType
  kustomization_list_type : ObjectType
  app_installation_type : ObjectType
  app_installation_list_type : ObjectType
  github_instance_type : ObjectType
  github_instance_list_type : ObjectType

-- A runtime.Object that is not nil: a type with a pointer, which may be nil.
pub record Object : Type 0 where
  pub type : ObjectType
  pub pointer : Option ℕ

-- `if c := in.DeepCopy(); c != nil { return c }; return nil`
abbrev pub as_object : ObjectType → Option ℕ → Option Object
as_object type none = none
as_object type (some p) = some (record { type = type; pointer = some p })
