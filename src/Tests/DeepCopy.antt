-- ===== src/Tests/DeepCopy.antt =====
-- The deep copy of a GitRepository in a memory of six cells.
use platform_service_gitops.Prelude.{
  List, Option, String, [], arith, eqb, false, if◌then◌else◌, none, refl, some, ℕ, ◌∷◌,
}
use platform_service_gitops.K8s.Meta.{Condition, ObjectMeta}
use platform_service_gitops.Api.GithubInstance.{SecretReference}
use platform_service_gitops.Api.GitRepository.{ready}
use platform_service_gitops.DeepCopy.Copier.{Independent}
use platform_service_gitops.DeepCopy.Pointers.{pointed-Deep}
use platform_service_gitops.DeepCopy.Meta.{
  ListInMemory, MetaLaws, MetaLibrary, Object, TypeMeta, git_repository_type,
}
use platform_service_gitops.DeepCopy.Objects.{Layout}
use platform_service_gitops.DeepCopy.Core.{
  GitRepositoryInMemory, KustomizationInMemory, PropagateStatusInMemory, PropagateTargetInMemory,
}
use platform_service_gitops.DeepCopy.Laws.{plain-Deep}
use platform_service_gitops.DeepCopy.Memory.{Heap, Place}
use platform_service_gitops.DeepCopy.Github.{AppInstallationInMemory, GithubInstanceInMemory}
use platform_service_gitops.DeepCopy.Shapes.{plain, pointed}
use platform_service_gitops.DeepCopy.Objects.Apart.{deep_copy_object-Independent, runtime_object}
use platform_service_gitops.Tests.World.{meta_of}
use platform_service_gitops.Go.Dict.{Dict, lookup}
use platform_service_gitops.Go.Int.{pos}
use platform_service_gitops.Go.Time.{Time}

-- One place for each type.
pub record Cell : Type 0 where
  pub labels : Dict String
  pub conditions : List Condition
  pub targets : List PropagateTargetInMemory
  pub propagated : List PropagateStatusInMemory
  pub repositories : List (GitRepositoryInMemory ObjectMeta)
  pub kustomizations : List (KustomizationInMemory ObjectMeta)
  pub secret_refs : List SecretReference
  pub installations : List (AppInstallationInMemory ObjectMeta)
  pub instances : List (GithubInstanceInMemory ObjectMeta)
  pub time : Time
  pub git_repository : GitRepositoryInMemory ObjectMeta
  pub kustomization : KustomizationInMemory ObjectMeta
  pub app_installation : AppInstallationInMemory ObjectMeta
  pub github_instance : GithubInstanceInMemory ObjectMeta
  pub list : ListInMemory String

abbrev no_type : TypeMeta
no_type = record { kind = ""; api_version = "" }

abbrev blank_meta : ObjectMeta
blank_meta = meta_of "" "" []

abbrev blank_repository : GitRepositoryInMemory ObjectMeta
blank_repository = record {
  type_meta = no_type;
  meta = blank_meta;
  spec = record {
    url = "";
    ref = record { branch = ""; tag = ""; commit = "" };
    path = "";
    credential_ref = record { name = ""; kind = ""; group = "" };
    propagate_to_control_planes = none;
  };
  status = record { observed_generation = pos 0; conditions = none; propagated = none };
}

abbrev blank_ks : KustomizationInMemory ObjectMeta
blank_ks = record {
  type_meta = no_type;
  meta = blank_meta;
  spec = record {
    source_ref = record { kind = ""; name = "" };
    path = "";
    interval = pos 0;
    prune = false;
  };
  status = record { observed_generation = pos 0; conditions = none; last_applied_revision = "" };
}

abbrev blank_ai : AppInstallationInMemory ObjectMeta
blank_ai = record {
  type_meta = no_type;
  meta = blank_meta;
  spec = record { instance_ref = record { name = "" }; credential_name = ""; org = ""; user = "" };
  status = record {
    observed_generation = pos 0;
    installation_id = pos 0;
    last_checked = none;
    conditions = none;
  };
}

abbrev blank_gi : GithubInstanceInMemory ObjectMeta
blank_gi = record {
  type_meta = no_type;
  meta = blank_meta;
  spec = record { secret_refs = none };
  status = record { observed_generation = pos 0; conditions = none };
}

abbrev blank_list : ListInMemory String
blank_list = record { type_meta = no_type; meta = ""; items = none }

abbrev blank : Cell
blank = record {
  labels = [];
  conditions = [];
  targets = [];
  propagated = [];
  repositories = [];
  kustomizations = [];
  secret_refs = [];
  installations = [];
  instances = [];
  time = pos 0;
  git_repository = blank_repository;
  kustomization = blank_ks;
  app_installation = blank_ai;
  github_instance = blank_gi;
  list = blank_list;
}

abbrev labels_place : Place Cell (Dict String)
labels_place = record {
  load = λ c. c.labels;
  save = λ a c. record c { labels = a };
  load-save = λ a c. refl;
}

abbrev conditions_place : Place Cell (List Condition)
conditions_place = record {
  load = λ c. c.conditions;
  save = λ a c. record c { conditions = a };
  load-save = λ a c. refl;
}

abbrev targets_place : Place Cell (List PropagateTargetInMemory)
targets_place = record {
  load = λ c. c.targets;
  save = λ a c. record c { targets = a };
  load-save = λ a c. refl;
}

abbrev propagated_place : Place Cell (List PropagateStatusInMemory)
propagated_place = record {
  load = λ c. c.propagated;
  save = λ a c. record c { propagated = a };
  load-save = λ a c. refl;
}

abbrev repositories_place : Place Cell (List (GitRepositoryInMemory ObjectMeta))
repositories_place = record {
  load = λ c. c.repositories;
  save = λ a c. record c { repositories = a };
  load-save = λ a c. refl;
}

abbrev kustomizations_place : Place Cell (List (KustomizationInMemory ObjectMeta))
kustomizations_place = record {
  load = λ c. c.kustomizations;
  save = λ a c. record c { kustomizations = a };
  load-save = λ a c. refl;
}

abbrev secret_refs_place : Place Cell (List SecretReference)
secret_refs_place = record {
  load = λ c. c.secret_refs;
  save = λ a c. record c { secret_refs = a };
  load-save = λ a c. refl;
}

abbrev installations_place : Place Cell (List (AppInstallationInMemory ObjectMeta))
installations_place = record {
  load = λ c. c.installations;
  save = λ a c. record c { installations = a };
  load-save = λ a c. refl;
}

abbrev instances_place : Place Cell (List (GithubInstanceInMemory ObjectMeta))
instances_place = record {
  load = λ c. c.instances;
  save = λ a c. record c { instances = a };
  load-save = λ a c. refl;
}

abbrev time_place : Place Cell Time
time_place = record {
  load = λ c. c.time;
  save = λ a c. record c { time = a };
  load-save = λ a c. refl;
}

abbrev git_repository_place : Place Cell (GitRepositoryInMemory ObjectMeta)
git_repository_place = record {
  load = λ c. c.git_repository;
  save = λ a c. record c { git_repository = a };
  load-save = λ a c. refl;
}

abbrev kustomization_place : Place Cell (KustomizationInMemory ObjectMeta)
kustomization_place = record {
  load = λ c. c.kustomization;
  save = λ a c. record c { kustomization = a };
  load-save = λ a c. refl;
}

abbrev app_installation_place : Place Cell (AppInstallationInMemory ObjectMeta)
app_installation_place = record {
  load = λ c. c.app_installation;
  save = λ a c. record c { app_installation = a };
  load-save = λ a c. refl;
}

abbrev github_instance_place : Place Cell (GithubInstanceInMemory ObjectMeta)
github_instance_place = record {
  load = λ c. c.github_instance;
  save = λ a c. record c { github_instance = a };
  load-save = λ a c. refl;
}

abbrev list_place : Place Cell (ListInMemory String)
list_place = record {
  load = λ c. c.list;
  save = λ a c. record c { list = a };
  load-save = λ a c. refl;
}

-- apimachinery's types: the metadata is plain, a time stands in a cell.
abbrev lib : MetaLibrary Cell
lib = record {
  ObjectMetaInMemory = ObjectMeta;
  ListMetaInMemory = String;
  ListMeta = String;
  ConditionInMemory = Condition;
  object_meta = plain;
  list_meta = plain;
  condition = plain;
  time = pointed time_place plain;
}

laws : MetaLaws lib
laws = record {
  object_meta = plain-Deep;
  list_meta = plain-Deep;
  condition = plain-Deep;
  time = pointed-Deep time_place plain plain-Deep;
}

abbrev layout : Layout lib
layout = record {
  core = record {
    labels = labels_place;
    conditions = conditions_place;
    targets = targets_place;
    propagated = propagated_place;
    repositories = repositories_place;
    kustomizations = kustomizations_place;
  };
  github = record {
    conditions = conditions_place;
    secret_refs = secret_refs_place;
    installations = installations_place;
    instances = instances_place;
  };
  git_repository = git_repository_place;
  git_repository_list = list_place;
  kustomization = kustomization_place;
  kustomization_list = list_place;
  app_installation = app_installation_place;
  app_installation_list = list_place;
  github_instance = github_instance_place;
  github_instance_list = list_place;
}

abbrev stored_repository : GitRepositoryInMemory ObjectMeta
stored_repository = record blank_repository {
  spec = record blank_repository.spec { propagate_to_control_planes = some 1 };
  status = record { observed_generation = pos 1; conditions = some 3; propagated = some 4 };
}

abbrev target : PropagateTargetInMemory
target = record { kind = "ControlPlane"; namespace = "team"; name = ""; match_labels = some 2 }

abbrev state : PropagateStatusInMemory
state = record {
  control_plane_namespace = "team";
  control_plane_name = "plane";
  phase = ready;
  reason = "Synced";
  message = "";
  token_expires_at = some 5;
}

abbrev cell : ℕ → Cell
cell n =
    if eqb n 0
    then record blank { git_repository = stored_repository }
    else if eqb n 1
    then record blank { targets = target ∷ [] }
    else if eqb n 2
    then record blank { labels = ("stage", "dev") ∷ [] }
    else if eqb n 4
    then record blank { propagated = state ∷ [] }
    else record blank { time = pos 7 }

abbrev memory : Heap Cell
memory = record { next = 6; cells = cell }

abbrev object : Option Object
object = some (record { type = git_repository_type; pointer = some 0 })

deep_copy_object-Independent_example : Independent (runtime_object lib layout) memory object
unfolding lookup
deep_copy_object-Independent_example = deep_copy_object-Independent lib layout laws memory object (
  omega arith,
  omega arith,
  (
    tt,
    (
      (omega arith, omega arith, ((omega arith, omega arith, (refl, tt)), tt)),
      (
        (omega arith, omega arith, tt),
        (omega arith, omega arith, ((omega arith, omega arith, tt), tt)),
      ),
    ),
  ),
)
