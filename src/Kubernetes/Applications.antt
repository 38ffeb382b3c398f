-- ===== src/Kubernetes/Applications.antt =====
-- krake/krake/data/kubernetes.py: the fields of an application that its controller reads and
-- writes, and the test whether the controller accepts an application.
use krake.Prelude.{ℕ, String, Bool, true, false, Option, none, some, List, [], ◌∷◌}
use krake.Prelude.Tests.{if◌then◌else◌, leb}
use krake.Prelude.Keys.{string_key, ◌==◌}
use krake.Prelude.Dict.{Dict}
use krake.Data.Core.{ResourceRef}
use krake.Manifest.Values.{Value}
use krake.Scheduler.Applications.{ApplicationState, has_failed}

pub record Application : Type 0 where
  pub uid : String
  pub deleted : Bool
  pub modified : ℕ
  pub finalizers : List String
  pub owners : List ResourceRef
  pub hooks : List String
  pub manifest : List Value
  pub observer_schema : List Value
  -- a TOSCA template or a CSAR archive
  pub has_template : Bool
  pub shutdown_grace_time : Option ℕ
  pub shutdown_retry_count : Option ℕ
  pub shutdown_failure_strategy : Option String
  pub state : ApplicationState
  pub reason : Option String
  pub kube_controller_triggered : Option ℕ
  pub scheduled_to : Option ResourceRef
  pub running_on : Option ResourceRef
  pub services : Dict String String
  pub mangled_observer_schema : List Value
  pub last_applied_manifest : List Value
  pub last_observed_manifest : List Value
  pub shutdown_grace_period : Option ℕ

abbrev pub deletion_finalizer : String
deletion_finalizer = "kubernetes_resources_deletion"

-- finalizers and finalizers[-1] == "kubernetes_resources_deletion"
pub ends_in_finalizer : List String → Bool
ends_in_finalizer [] = false
ends_in_finalizer (f ∷ []) = f == deletion_finalizer
ends_in_finalizer (f ∷ g ∷ fs) = ends_in_finalizer (g ∷ fs)

is_failed : ApplicationState → Bool
is_failed has_failed = true
is_failed _ = false

is_scheduled : Application → Bool
is_scheduled app = elim app.kube_controller_triggered [ none ↦ false | some t ↦ leb app.modified t ]

pub scheduled_or_deleting : Application → Bool
unfolding ends_in_finalizer is_failed is_scheduled
scheduled_or_deleting app =
    if app.deleted
    then ends_in_finalizer app.finalizers
    else if is_failed app.state
    then false
    else is_scheduled app
