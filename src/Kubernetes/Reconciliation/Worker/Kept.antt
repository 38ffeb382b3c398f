-- ===== src/Kubernetes/Reconciliation/Worker/Kept.antt =====
-- What the handler and the shutdown tasks that it starts leave of the resources on a cluster.
use krake.Prelude.{
  ℕ, zero, suc, ◌≡◌, refl, sym, subst, Bool, true, false, ◌||◌, List, [], ◌∷◌, ◌++◌, inl, inr,
}
use krake.Prelude.Tests.{Bool-cases}
use krake.Prelude.Lists.{All}
use krake.Prelude.Keys.{string_key, contains, ◌==◌}
use krake.Manifest.Results.{Result, type_error}
use krake.Manifest.Values.{Value}
use krake.Kubernetes.Applications.{Application}
use krake.Kubernetes.Tasks.{
  Request, update_application_status, read_application, read_cluster, shutdown_application,
  create_shutdown_task, History, Environment, Reply, threw, returned, Task, pure, send, unless_gone,
  is_gone,
}
use krake.Kubernetes.Tasks.Ends.{Ends, required-Ends, continue-Ends, history-Ends}
use krake.Kubernetes.Deletion.{
  ShutdownConfiguration, Attempt, given_up, succeeded, failed, caught, after_attempt, or_else,
  stops_shutdown, check_shutdown_success, attempt_shutdown, shutdown_loop, run_app_shutdown,
  has_shutdown_strategy, handle_shutdown_failure, after_run, shutdown_task,
}
use krake.Kubernetes.Reconciliation.Finalizer.{touches}
use krake.Kubernetes.Reconciliation.Worker.{is_ready, has_moved, resource_received}
use krake.Kubernetes.Reconciliation.Worker.Graceful.{
  touched, Grown, unchanged, sent, Harmless, send-Grown, handler-Grown,
}

-- A request that creates, changes or deletes no resource of a cluster.
abbrev Calm : Request → Type 0
Calm r = touches r ≡ false

touched-Calm : (before log : History) → Grown Calm before log → touched log ≡ touched before
unfolding touched
touched-Calm before log unchanged = refl
touched-Calm before log (sent calm h) = rw calm (touched-Calm before _ h)

module _ (R : History → Type 0) where
  caught-Ends : (ended : Reply Attempt × History) → Ends R (λ _. R) ended → R (caught ended).1
  unfolding caught
  caught-Ends (threw e, log) h = h
  caught-Ends (returned a, log) h = h

  unless_gone-Ends :
      (ended : Reply (Unit {0}) × History)
      → Ends R (λ _. R) ended
      → Ends R (λ _. R) (unless_gone ended succeeded (pure failed))
  unfolding unless_gone pure
  unless_gone-Ends (returned u, log) h = h
  unless_gone-Ends (threw e, log) h = elim (Bool-cases (is_gone e)) [
    | inl g ↦ rw g h
    | inr g ↦ rw g h
  ]

  after_attempt-kept :
      (ended : Attempt × History) (others : History → Bool × History)
      → R ended.1
      → ((log : History) → R log → R (others log).1)
      → R (after_attempt ended others).1
  unfolding after_attempt
  after_attempt-kept (given_up, log) others h f = h
  after_attempt-kept (succeeded, log) others h f = h
  after_attempt-kept (failed, log) others h f = f log h

module _ (env : Environment) (hook : ShutdownConfiguration) (before : History) where
  -- The requests before, and then calm ones.
  abbrev Quiet : History → Type 0
  Quiet log = Grown Calm before log

  send-Quiet :
      (r : Request) (log : History) → Calm r → Quiet log → Ends Quiet (λ _. Quiet) (send env r log)
  send-Quiet r log calm h = send-Grown Calm env r before log calm h

  attempt-Quiet :
      (app : Application) (log : History)
      → Quiet log
      → Quiet (caught (attempt_shutdown env hook app log)).1
  unfolding attempt_shutdown check_shutdown_success pure touches
  attempt-Quiet app log h = elim (Bool-cases (stops_shutdown app.state)) [
    | inl e ↦ rw e (caught-Ends Quiet (returned given_up, log) h)
    | inr e ↦ rw e (
        caught-Ends Quiet _ (
          continue-Ends Quiet (λ _. Quiet) (λ _. Quiet) _ _
            (required-Ends Quiet (λ _. Quiet) type_error app.running_on log h (λ c. h))
            (λ c l i.
              continue-Ends Quiet (λ _. Quiet) (λ _. Quiet) _ _
                (send-Quiet (read_cluster c) l refl i)
                (λ u l i.
                  continue-Ends Quiet (λ _. Quiet) (λ _. Quiet) _ _
                    (send-Quiet (shutdown_application app) l refl i)
                    (λ u l i.
                      unless_gone-Ends Quiet _ (send-Quiet (read_application app) l refl i))))))
  ]

  loop-Quiet :
      (left : ℕ) (app : Application) (log : History)
      → Quiet log
      → Quiet (shutdown_loop env hook left app log).1
  unfolding shutdown_loop
  loop-Quiet zero app log h = h
  loop-Quiet (suc left) app log h =
      after_attempt-kept Quiet (caught (attempt_shutdown env hook app log))
        (shutdown_loop env hook left app) (attempt-Quiet app log h) (λ l i. loop-Quiet left app l i)

  after_run-Quiet :
      (app : Application) (run : Bool × History)
      → has_shutdown_strategy env hook "delete" app ≡ false
      → Quiet run.1
      → Quiet (after_run env hook app run)
  unfolding after_run handle_shutdown_failure touches pure
  after_run-Quiet app (true, log) keeps h = h
  after_run-Quiet app (false, log) keeps h =
      rw (after_run, handle_shutdown_failure, keeps)
        (history-Ends Quiet _ (
          continue-Ends Quiet (λ _. Quiet) (λ _. Quiet) _ _ (send-Quiet _ log refl h) (λ u l i. i)))

  task-Quiet :
      (app : Application) (log : History)
      → has_shutdown_strategy env hook "delete" app ≡ false
      → Quiet log
      → Quiet (shutdown_task env hook app log)
  unfolding shutdown_task run_app_shutdown
  task-Quiet app log keeps h =
      after_run-Quiet app (run_app_shutdown env hook app log) keeps
        (loop-Quiet (suc (or_else app.shutdown_retry_count hook.failure_retry_count)) app log h)

-- The applications whose shutdown tasks were started, the first one first.
unfoldable pub started : History → List Application
started [] = []
started (create_shutdown_task a ∷ log) = started log ++ a ∷ []
started (r ∷ log) = started log

-- The tasks run to their ends, one after the other.
unfoldable pub run_tasks :
    Environment → ShutdownConfiguration → List Application → History → History
run_tasks env hook [] log = log
run_tasks env hook (a ∷ apps) log = run_tasks env hook apps (shutdown_task env hook a log)

-- The requests of a handler that starts without earlier ones, and then those of the tasks that it
-- starts.
unfoldable pub with_tasks : Environment → ShutdownConfiguration → History → History
unfolding started run_tasks
with_tasks env hook log = run_tasks env hook (started log) log

-- The strategy for failures is not to delete.
abbrev Keeps : Environment → ShutdownConfiguration → Application → Type 0
Keeps env hook app = has_shutdown_strategy env hook "delete" app ≡ false

Keeps-same :
    (env : Environment) (hook : ShutdownConfiguration) (app a : Application)
    → a.shutdown_failure_strategy ≡ app.shutdown_failure_strategy
    → Keeps env hook app
    → Keeps env hook a
unfolding has_shutdown_strategy
Keeps-same env hook app a same keeps =
    subst (λ o. (or_else o hook.failure_strategy == "delete") ≡ false) (sym same) keeps

All-snoc :
    (P : Application → Type 0) (xs : List Application) (a : Application)
    → All P xs
    → P a
    → All P (xs ++ a ∷ [])
All-snoc P [] a h k = (k, tt)
All-snoc P (x ∷ xs) a h k = (h.0, All-snoc P xs a h.1 k)

started-Keeps :
    (env : Environment) (hook : ShutdownConfiguration) (app : Application) (log : History)
    → Keeps env hook app
    → Grown (Harmless app) [] log
    → All (Keeps env hook) (started log)
unfolding started
started-Keeps env hook app [] keeps h = tt
started-Keeps env hook app (create_shutdown_task a ∷ log) keeps (sent same h) =
    All-snoc (Keeps env hook) (started log) a (started-Keeps env hook app log keeps h)
      (Keeps-same env hook app a same keeps)
started-Keeps env hook app (update_application_status a ∷ log) keeps (sent _ h) =
    started-Keeps env hook app log keeps h
started-Keeps env hook app (r ∷ log) keeps (sent none_ h) = absurd none_

Harmless-Calm :
    (app : Application) (before log : History)
    → Grown (Harmless app) before log
    → Grown Calm before log
unfolding touches
Harmless-Calm app before log unchanged = unchanged
Harmless-Calm app before (update_application_status a ∷ log) (sent h g) =
    sent refl (Harmless-Calm app before log g)
Harmless-Calm app before (create_shutdown_task a ∷ log) (sent h g) =
    sent refl (Harmless-Calm app before log g)
Harmless-Calm app before (r ∷ log) (sent h g) = absurd h

tasks-Quiet :
    (env : Environment) (hook : ShutdownConfiguration) (before : History) (apps : List Application)
    (log : History)
    → All (Keeps env hook) apps
    → Grown Calm before log
    → Grown Calm before (run_tasks env hook apps log)
unfolding run_tasks
tasks-Quiet env hook before [] log keeps h = h
tasks-Quiet env hook before (a ∷ apps) log keeps h =
    tasks-Quiet env hook before apps (shutdown_task env hook a log) keeps.1
      (task-Quiet env hook before a log keeps.0 h)

-- An application with the shutdown hook that is in deletion, or that is scheduled to another
-- cluster than the one it runs on, that is not READY_FOR_ACTION, and whose strategy for a failed
-- shutdown is not to delete it: whatever the Krake API and the cluster answer, neither the handler
-- nor the shutdown task that it starts sends a request that creates, changes or deletes a resource.
pub shutdown-keeps :
    (env : Environment) (hook : ShutdownConfiguration) (now : ℕ)
    (mangle : Application → Result Application) (translate : Application → Result (List Value))
    (migrate_with_volumes : Application → Task Application) (has_volumes : Application → Bool)
    (app : Application)
    → contains "shutdown" app.hooks ≡ true
    → is_ready app.state ≡ false
    → (app.deleted || has_moved app) ≡ true
    → has_shutdown_strategy env hook "delete" app ≡ false
    → touched (
        with_tasks env hook
          (resource_received env hook now mangle translate migrate_with_volumes has_volumes app
            []).1)
      ≡ []
unfolding with_tasks touched
shutdown-keeps env hook now mangle translate volumes has app hooked unready leaves keeps =
    let log = (resource_received env hook now mangle translate volumes has app []).1 in
    let grown =
      handler-Grown env hook now mangle translate volumes has app [] hooked unready leaves in
    touched-Calm [] (with_tasks env hook log) (
      tasks-Quiet env hook [] (started log) log (started-Keeps env hook app log keeps grown)
        (Harmless-Calm app [] log grown))
