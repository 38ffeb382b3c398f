-- ===== src/Scheduler/Applications/Examples.antt =====
-- An application that fails with two retries.
use krake.Prelude.{ℕ, ◌<◌, ◌≡◌, refl, true, none, some, [], ◌∷◌, arith}
use krake.Prelude.Keys.{string_key}
use krake.WorkQueue.{done, fresh}
use krake.Scheduler.Applications.{
  Integer, pos, pending, degraded, has_failed, Application, scheduled, failed, handle,
  retries_positive, is_positive,
}
use krake.Scheduler.Applications.Retries.{failures, failures-budget}
use krake.Scheduler.Applications.Flow.{early-retry_dropped}

abbrev app : Integer → Application
app limit = record {
  uid = "1234";
  deleted = none;
  modified = 5;
  migration = true;
  backoff = 2;
  backoff_delay = 10;
  backoff_limit = limit;
  state = pending;
  reason = none;
  kube_controller_triggered = none;
  retries = some limit;
  scheduled_retry = none;
}

failures-budget_example :
    (1 < 2 → (failed 50 "none" (failures ((10, "none") ∷ []) (app (pos 2)))).state ≡ degraded)
    × (◌≡◌ {A = ℕ} 1 2
        → (failed 50 "none" (failures ((10, "none") ∷ []) (app (pos 2)))).state ≡ has_failed)
failures-budget_example =
    failures-budget 2 1 50 "none" ((10, "none") ∷ []) (app (pos 2)) refl refl (omega arith)

now_degraded : (failed 50 "none" (app (pos 2))).state ≡ degraded
unfolding failed retries_positive is_positive
now_degraded = refl

early-retry_dropped_example :
    handle scheduled 60 100 "1234" (failed 50 "none" (app (pos 2))) (fresh 0)
    ≡ (record { goes_on = true; queue = done "1234" (fresh 0); updates = [] })
early-retry_dropped_example =
    early-retry_dropped scheduled 50 60 100 "none" "1234" (app (pos 2)) (fresh 0) now_degraded
      (omega arith)
