-- ===== src/Scheduler/Applications.antt =====
-- krake/krake/controller/scheduler/scheduler.py: `KubernetesApplicationHandler`, from the reflector
-- to the worker, with its retries. The choice of a cluster, `schedule_kubernetes_application`, is
-- an argument here. Times are seconds.
pub mod Retries
pub mod Flow
mod Examples
use krake.Prelude.{
  ℕ, zero, suc, ◌+◌, ◌*◌, String, ◌≡◌, Bool, true, false, not, ◌&&◌, ◌||◌, Option, none, some, List,
  [], ◌∷◌,
}
use krake.Prelude.Tests.{if◌then◌else◌, leb}
use krake.Prelude.Keys.{string_key}
use krake.Prelude.Dict.{has}
use krake.WorkQueue.{WorkQueue, put, done, cancel}

-- Python's int, as far as the retries need it.
pub data Integer : Type 0 where
  pos : ℕ → Integer
  negsuc : ℕ → Integer

is_positive : Integer → Bool
is_positive (pos zero) = false
is_positive (pos (suc n)) = true
is_positive (negsuc n) = false

is_minus_one : Integer → Bool
is_minus_one (pos n) = false
is_minus_one (negsuc zero) = true
is_minus_one (negsuc (suc n)) = false

predecessor : Integer → Integer
predecessor (pos zero) = negsuc 0
predecessor (pos (suc n)) = pos n
predecessor (negsuc n) = negsuc (suc n)

pub data ApplicationState : Type 0 where
  pending creating running reconciling translating retrying restarting : ApplicationState
  waiting_for_cleaning ready_for_action migrating waiting_for_cluster_creation : ApplicationState
  deleting was_deleted degraded has_failed completed : ApplicationState

is_degraded : ApplicationState → Bool
is_degraded degraded = true
is_degraded _ = false

is_failed : ApplicationState → Bool
is_failed has_failed = true
is_failed _ = false

-- The fields of an application that its handler reads and writes.
pub record Application : Type 0 where
  pub uid : String
  pub deleted : Option ℕ
  pub modified : ℕ
  pub migration : Bool
  pub backoff : ℕ
  pub backoff_delay : ℕ
  pub backoff_limit : Integer
  pub state : ApplicationState
  pub reason : Option String
  pub kube_controller_triggered : Option ℕ
  pub retries : Option Integer
  pub scheduled_retry : Option ℕ

abbrev pub Queue : Type 0
Queue = WorkQueue String Application

-- reschedule_kubernetes_application
pub reschedule : ℕ → Application → Queue → Queue
reschedule reschedule_after app q =
    if app.migration
    then (if has app.uid q.dirty then q else put app.uid app (some reschedule_after) q)
    else q

is_current : Application → Bool
is_current app = elim app.kube_controller_triggered [ none ↦ false | some t ↦ leb app.modified t ]

pub received_kubernetes_app : ℕ → Application → Queue → Queue
unfolding reschedule is_current is_failed
received_kubernetes_app reschedule_after app q = elim app.deleted [
  | some t ↦ cancel app.uid q
  | none ↦
      if is_current app
      then reschedule reschedule_after app q
      else (if is_failed app.state then q else put app.uid app none q)
]

update_retry_fields : ℕ → Application → Application
unfolding is_positive predecessor
update_retry_fields now app = record app {
  retries = elim app.retries [
    | none ↦ none
    | some r ↦ some (if is_positive app.backoff_limit then predecessor r else r)
  ];
  scheduled_retry = some (now + app.backoff_delay * app.backoff);
}

retries_positive : Application → Bool
unfolding is_positive
retries_positive app = elim app.retries [ none ↦ false | some r ↦ is_positive r ]

-- The handler of ControllerError.
pub failed : ℕ → String → Application → Application
unfolding retries_positive is_minus_one update_retry_fields
failed now reason app =
    if retries_positive app || is_minus_one app.backoff_limit
    then update_retry_fields now (record app { reason = some reason; state = degraded })
    else record app { reason = some reason; state = has_failed }

-- How the scheduling of an application ends: normally, with WaitingOnCluster, with another
-- ControllerError, or with an exception that the worker does not handle.
pub data Outcome : Type 0 where
  scheduled : Application → Outcome
  waiting_on_cluster : Application → Outcome
  controller_error : String → Application → Outcome
  raised : String → Application → Outcome

-- Whether the worker goes on, and the status updates that it sent.
pub record Handled : Type 0 where
  pub goes_on : Bool
  pub queue : Queue
  pub updates : List Application

is_due : ℕ → Application → Bool
unfolding is_degraded
is_due now app =
    not (is_degraded app.state) || elim app.scheduled_retry [ none ↦ false | some t ↦ leb t now ]

with_retries : Application → Application
with_retries app = elim app.retries [
  | none ↦ record app { retries = some app.backoff_limit }
  | some r ↦ app
]

-- The end of one turn of the worker: the handlers of the exceptions, and `queue.done(key)`. The
-- retries are reset after the application was put back, on the same object.
finish : ℕ → ℕ → String → Queue → Outcome → Handled
unfolding failed reschedule
finish now reschedule_after key q (scheduled app) =
    let reset : Application = record app { retries = some app.backoff_limit } in
    record { goes_on = true; queue = done key (reschedule reschedule_after reset q); updates = [] }
finish now reschedule_after key q (waiting_on_cluster app) = record {
  goes_on = true;
  queue = done key (put app.uid app (some 30) q);
  updates = [];
}
finish now reschedule_after key q (controller_error reason app) = record {
  goes_on = true;
  queue = done key q;
  updates = failed now reason app ∷ [];
}
finish now reschedule_after key q (raised e app) = record {
  goes_on = false;
  queue = done key q;
  updates = [];
}

-- One turn of `handle_kubernetes_applications` with the application that the queue gave.
pub handle : (Application → Outcome) → ℕ → ℕ → String → Application → Queue → Handled
unfolding is_due with_retries finish
handle schedule now reschedule_after key app q =
    if is_due now app
    then finish now reschedule_after key q (schedule (with_retries app))
    else record { goes_on = true; queue = done key q; updates = [] }
