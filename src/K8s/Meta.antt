-- ===== src/K8s/Meta.antt =====
-- metav1: object metadata and conditions; the helpers of apimachinery and controller-runtime
-- that work on them are arguments of the model.
use platform_service_gitops.Prelude.{String, Bool, ◌&&◌, Option, List, ◌==◌}
use platform_service_gitops.Go.Int.{ℤ}
use platform_service_gitops.Go.Eff.{Eff}
use platform_service_gitops.Go.Dict.{NilMap}
use platform_service_gitops.Go.Time.{Time}

-- types.NamespacedName
pub record NamespacedName : Type 0 where
  pub namespace : String
  pub name : String

abbrev pub same_key : NamespacedName → NamespacedName → Bool
same_key a b = a.namespace == b.namespace && a.name == b.name

pub record ObjectMeta : Type 0 where
  pub name : String
  pub namespace : String
  pub generation : ℤ
  pub annotations : NilMap
  pub finalizers : List String
  pub deletion_timestamp : Option Time

abbrev pub key_of : ObjectMeta → NamespacedName
key_of m = record { namespace = m.namespace; name = m.name }

pub data ConditionStatus : Type 0 where
  condition_true condition_false condition_unknown : ConditionStatus

-- metav1.Condition; the zero time of the source is `none`.
pub record Condition : Type 0 where
  pub type : String
  pub status : ConditionStatus
  pub reason : String
  pub message : String
  pub observed_generation : ℤ
  pub last_transition_time : Option Time

-- meta.SetStatusCondition and meta.IsStatusConditionTrue. The first reads the clock.
pub record Conditions (W : Type 0) : Type 0 where
  pub set_status_condition : List Condition → Condition → Eff W (List Condition)
  pub is_status_condition_true : List Condition → String → Bool

-- controllerutil.ContainsFinalizer, AddFinalizer and RemoveFinalizer
pub record Finalizers : Type 0 where
  pub contains_finalizer : ObjectMeta → String → Bool
  pub add_finalizer : ObjectMeta → String → ObjectMeta
  pub remove_finalizer : ObjectMeta → String → ObjectMeta
