-- ===== src/Kubernetes/Reconciliation/Worker.antt =====
-- `resource_received` and `handle_resource`: what the controller does with an application that it
-- takes from its queue.
pub mod Graceful
pub mod Kept
use krake.Prelude.{String, Bool, true, false, not, ◌&&◌, ◌||◌, Option, none, some, List, [], ◌∷◌, ℕ}
use krake.Prelude.Tests.{if◌then◌else◌}
use krake.Prelude.Keys.{string_key, contains}
use krake.Data.Core.{ResourceRef, ref_key, ref_same}
use krake.Scheduler.Applications.{
  ApplicationState, running, reconciling, waiting_for_cleaning, ready_for_action, has_failed,
}
use krake.Manifest.Results.{Result, type_error}
use krake.Manifest.Values.{Value, truthy}
use krake.Kubernetes.Applications.{Application}
use krake.Kubernetes.Tasks.{
  Exception, client_response, kubernetes_error, controller_error, tosca_error, python_error,
  assertion_error, update_application_status, read_cluster, History, Environment, Reply, threw,
  returned, Task, pure, throw, required, send, unless_gone, is_gone, ◌>>=◌, ◌>>◌,
}
use krake.Kubernetes.Deletion.{
  ShutdownConfiguration, delete_application, trigger_application_shutdown,
}
use krake.Kubernetes.Reconciliation.{reconcile_application, migrate_application}

is_waiting : ApplicationState → Bool
is_waiting waiting_for_cleaning = true
is_waiting _ = false

unfoldable pub is_ready : ApplicationState → Bool
is_ready ready_for_action = true
is_ready _ = false

-- RUNNING or RECONCILING
is_active : ApplicationState → Bool
is_active running = true
is_active reconciling = true
is_active _ = false

has_shutdown : Application → Bool
has_shutdown app = contains "shutdown" app.hooks

optional_ref_same : ResourceRef → Option ResourceRef → Bool
optional_ref_same a none = false
optional_ref_same a (some b) = ref_same a b

-- copy.status.running_on and copy.status.running_on != copy.status.scheduled_to
pub has_moved : Application → Bool
unfolding optional_ref_same
has_moved app = elim app.running_on [
  | none ↦ false
  | some ref ↦ not (optional_ref_same ref app.scheduled_to)
]

-- An exception of the deletion that is a 404 is dropped.
suppress_gone : Application → Reply Application × History → Reply Application × History
suppress_gone app (returned a, log) = (returned a, log)
suppress_gone app (threw e, log) = if is_gone e then (returned app, log) else (threw e, log)

module _ (env : Environment) (hook : ShutdownConfiguration) (now : ℕ)
    (mangle : Application → Result Application) (translate : Application → Result (List Value))
    (migrate_with_volumes : Application → Task Application) (has_volumes : Application → Bool) where
  -- HookType.ApplicationPostReconcile and HookType.ApplicationPostMigrate
  register_observer : Application → Task Application
  register_observer app = do
    cluster ← required type_error app.running_on
    send env (read_cluster cluster)
    pure app

  received_deleted : Application → Task Application
  unfolding has_shutdown is_waiting is_ready
  received_deleted app =
      if has_shutdown app && is_waiting app.state
      then trigger_application_shutdown env hook now app
      else if is_ready app.state || not (has_shutdown app)
      then delete_application env hook app
      else pure app

  -- The shutdown of an application that is scheduled to another cluster.
  shutdown_moved : Application → Task Application
  unfolding is_active is_waiting
  shutdown_moved app =
      if is_active app.state
      then (do
        let app = record app { state = waiting_for_cleaning }
        send env (update_application_status app)
        trigger_application_shutdown env hook now app)
      else if is_waiting app.state
      then trigger_application_shutdown env hook now app
      else pure app

  migrate : Application → Task Application
  unfolding register_observer
  migrate app = do
    app ←
        (if has_volumes app
          then migrate_with_volumes app
          else migrate_application env mangle translate app)
    register_observer app

  received_moved : Application → Task Application
  unfolding has_shutdown is_ready shutdown_moved migrate
  received_moved app =
      if has_shutdown app && not (is_ready app.state) then shutdown_moved app else migrate app

  pub resource_received : Application → Task Application
  unfolding received_deleted received_moved has_moved register_observer suppress_gone
  resource_received app log =
      if app.deleted
      then suppress_gone app (received_deleted app log)
      else if has_moved app
      then received_moved app log
      else (do app ← reconcile_application env mangle translate app; register_observer app) log

  -- The reason that an exception leaves, if a clause of `handle_resource` catches it.
  reason_of : Exception → Option String
  reason_of kubernetes_error = some "KUBERNETES_ERROR"
  reason_of (controller_error code) = some code
  reason_of tosca_error = some "INVALID_TOSCA_MANIFEST"
  reason_of (client_response status) = none
  reason_of (python_error e) = none
  reason_of assertion_error = none

  except : Application → Reply Application × History → Reply (Unit {0}) × History
  unfolding reason_of
  except app (returned a, log) = (returned tt, log)
  except app (threw e, log) = elim (reason_of e) [
    | none ↦ (threw e, log)
    | some code ↦
        send env (update_application_status (record app { reason = some code; state = has_failed }))
          log
  ]

  -- One turn of the worker. The application is the one of the queue: what the handler changed in
  -- its copy is lost when it raises.
  pub handle_resource : Application → Task (Unit {0})
  unfolding resource_received except
  handle_resource app log = except app (resource_received app log)
