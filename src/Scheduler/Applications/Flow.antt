-- ===== src/Scheduler/Applications/Flow.antt =====
-- A failure and the turn of the worker that follows it.
use krake.Prelude.{ℕ, ◌+◌, ◌*◌, ◌<◌, String, ◌≡◌, refl, true, false, some, [], arith}
use krake.WorkQueue.{done}
use krake.Prelude.Keys.{string_key}
use krake.Scheduler.Applications.{
  degraded, Application, Queue, Outcome, failed, update_retry_fields, is_due, is_degraded, handle,
}

failed-scheduled_retry :
    (now : ℕ) (reason : String) (app : Application)
    → (failed now reason app).state ≡ degraded
    → (failed now reason app).scheduled_retry ≡ some (now + app.backoff_delay * app.backoff)
unfolding failed update_retry_fields
failed-scheduled_retry now reason app h = ground (arith, h)

is_due-early :
    (t due : ℕ) (app : Application)
    → app.state ≡ degraded
    → app.scheduled_retry ≡ some due
    → t < due
    → is_due t app ≡ false
unfolding is_due is_degraded
is_due-early t due app still retry early = ground (arith, still, retry, early)

-- After a failure that leaves the application degraded, a turn that gets it before its backoff
-- delay is over does not schedule it, sends no update, and puts it back nowhere: the queue is as
-- after the release of its key alone.
pub early-retry_dropped :
    (schedule : Application → Outcome) (now t reschedule_after : ℕ) (reason key : String)
    (app : Application) (q : Queue)
    → (failed now reason app).state ≡ degraded
    → t < now + app.backoff_delay * app.backoff
    → handle schedule t reschedule_after key (failed now reason app) q
      ≡ (record { goes_on = true; queue = done key q; updates = [] })
unfolding handle
early-retry_dropped schedule now t reschedule_after reason key app q still early =
    rw
      (
        handle,
        is_due-early t _ (failed now reason app) still (failed-scheduled_retry now reason app still)
            early,
      )
      refl
