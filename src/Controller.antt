-- ===== src/Controller.antt =====
-- What the controllers share: the reconcile result, the constant of internal/controllerconst,
-- and the libraries that they call.
pub mod GitRepository
pub mod Kustomization
pub mod GithubInstance
pub mod AppInstallation
pub mod Setup
use platform_service_gitops.Prelude.{◌*◌, Bool, true, false, Option, none, some}
use platform_service_gitops.Go.Int.{pos}
use platform_service_gitops.Go.Error.{Error, Fmt}
use platform_service_gitops.Go.Time.{Duration, minute, Clock}
use platform_service_gitops.K8s.Meta.{Conditions, Finalizers}

abbrev pub requeue_interval : Duration
requeue_interval = pos (10 * minute)

-- ctrl.Result with the error beside it
pub record Return : Type 0 where
  pub requeue : Bool
  pub requeue_after : Duration
  pub error : Option Error

-- ctrl.Result{}, nil
abbrev pub done : Return
done = record { requeue = false; requeue_after = pos 0; error = none }

-- ctrl.Result{}, err
abbrev pub failed : Error → Return
failed e = record { requeue = false; requeue_after = pos 0; error = some e }

-- ctrl.Result{RequeueAfter: d}, nil
abbrev pub again_after : Duration → Return
again_after d = record { requeue = false; requeue_after = d; error = none }

-- The libraries that the controllers call.
pub record Runtime (W : Type 0) : Type 0 where
  pub clock : Clock W
  pub fmt : Fmt
  pub conditions : Conditions W
  pub finalizers : Finalizers
