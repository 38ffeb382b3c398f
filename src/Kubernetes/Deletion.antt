-- ===== src/Kubernetes/Deletion.antt =====
-- The deletion of an application, and the graceful shutdown before it. Each attempt of a shutdown
-- waits for the answer of the application; the wait itself is no request and takes no step here.
pub mod Attempts
use krake.Prelude.{
  ℕ, zero, suc, String, ◌+◌, Bool, true, false, not, ◌||◌, Option, none, some, List, [], ◌∷◌,
}
use krake.Prelude.Tests.{if◌then◌else◌}
use krake.Prelude.Keys.{string_key, ◌==◌}
use krake.Manifest.Results.{index_error, type_error}
use krake.Scheduler.Applications.{ApplicationState, deleting, degraded, has_failed}
use krake.Kubernetes.Applications.{Application, deletion_finalizer}
use krake.Kubernetes.Tasks.{
  Exception, assertion_error, python_error, Request, update_application, update_application_status,
  read_application, read_cluster, shutdown_application, create_shutdown_task, History, Environment,
  Reply, threw, returned, Task, pure, throw, required, send, unless_gone, ◌>>=◌, ◌>>◌,
}
use krake.Kubernetes.Manifests.{delete_manifest}

-- finalizers.pop(-1), and the assertion on what it yields.
unfoldable pub pop_finalizer : List String → Task (List String)
pop_finalizer [] = throw (python_error index_error)
pop_finalizer (f ∷ []) = if f == deletion_finalizer then pure [] else throw assertion_error
pop_finalizer (f ∷ g ∷ fs) = do rest ← pop_finalizer (g ∷ fs); pure (f ∷ rest)

-- The options of the shutdown hook.
pub record ShutdownConfiguration : Type 0 where
  pub timeout : ℕ
  pub failure_retry_count : ℕ
  pub failure_strategy : String

unfoldable pub or_else {ℓ} : {A : Type ℓ} → Option A → A → A
or_else none a = a
or_else (some b) a = b

pub stops_shutdown : ApplicationState → Bool
stops_shutdown degraded = true
stops_shutdown has_failed = true
stops_shutdown _ = false

-- What one pass of the shutdown loop ends in.
pub data Attempt : Type 0 where
  given_up succeeded failed : Attempt

-- An exception of the body is logged, and the loop goes on.
unfoldable pub caught : Reply Attempt × History → Attempt × History
caught (threw e, log) = (failed, log)
caught (returned a, log) = (a, log)

-- The loop returns, or goes on with `others`.
unfoldable pub after_attempt : Attempt × History → (History → Bool × History) → Bool × History
after_attempt (given_up, log) others = (false, log)
after_attempt (succeeded, log) others = (true, log)
after_attempt (failed, log) others = others log

module _ (env : Environment) (hook : ShutdownConfiguration) where
  unfoldable pub delete_application : Application → Task Application
  unfolding pop_finalizer
  delete_application app log =
      let app = record app { state = deleting } in
      unless_gone (send env (update_application_status app) log) app (do
        app ← delete_manifest env app
        finalizers ← pop_finalizer app.finalizers
        let app = record app { finalizers = finalizers }
        send env (update_application_status app)
        send env (update_application app)
        pure app)

  -- The task that is created runs beside the handler: `shutdown_task` below is what it does.
  unfoldable pub trigger_application_shutdown : ℕ → Application → Task Application
  unfolding or_else
  trigger_application_shutdown now app = elim app.shutdown_grace_period [
    | some t ↦ pure app
    | none ↦ do
      let app = record app {
        shutdown_grace_period = some (now + or_else app.shutdown_grace_time hook.timeout);
      }
      send env (update_application_status app)
      λ log. (returned app, create_shutdown_task app ∷ log)
  ]

  -- A read of the application that ends in a 404.
  unfoldable pub check_shutdown_success : Application → Task Attempt
  unfolding unless_gone
  check_shutdown_success app log =
      unless_gone (send env (read_application app) log) succeeded (pure failed)

  unfoldable pub attempt_shutdown : Application → Task Attempt
  unfolding stops_shutdown check_shutdown_success
  attempt_shutdown app = if stops_shutdown app.state then pure given_up else do
    cluster ← required type_error app.running_on
    send env (read_cluster cluster)
    send env (shutdown_application app)
    check_shutdown_success app

  -- The `while` loop, with the attempts that are left.
  unfoldable pub shutdown_loop : ℕ → Application → History → Bool × History
  unfolding attempt_shutdown caught after_attempt
  shutdown_loop zero app log = (false, log)
  shutdown_loop (suc left) app log =
      after_attempt (caught (attempt_shutdown app log)) (shutdown_loop left app)

  unfoldable pub run_app_shutdown : Application → History → Bool × History
  unfolding shutdown_loop or_else
  run_app_shutdown app log =
      shutdown_loop (suc (or_else app.shutdown_retry_count hook.failure_retry_count)) app log

  unfoldable pub has_shutdown_strategy : String → Application → Bool
  unfolding or_else
  has_shutdown_strategy strategy app =
      or_else app.shutdown_failure_strategy hook.failure_strategy == strategy

  unfoldable pub handle_shutdown_failure : Application → Task Application
  unfolding has_shutdown_strategy
  handle_shutdown_failure app =
      if has_shutdown_strategy "delete" app then delete_application app else do
        let app = record app { state = degraded }
        send env (update_application_status app)
        pure app

  unfoldable pub after_run : Application → Bool × History → History
  unfolding handle_shutdown_failure
  after_run app (true, log) = log
  after_run app (false, log) = (handle_shutdown_failure app log).1

  -- `_shutdown_task_async`: no exception leaves it, and nobody reads the application afterwards.
  unfoldable pub shutdown_task : Application → History → History
  unfolding run_app_shutdown after_run
  shutdown_task app log = after_run app (run_app_shutdown app log)
