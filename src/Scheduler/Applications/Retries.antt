-- ===== src/Scheduler/Applications/Retries.antt =====
-- How many failures an application survives.
use krake.Prelude.{ℕ, zero, suc, ◌≤◌, ◌<◌, String, ◌≡◌, ◌∙◌, some, List, [], ◌∷◌, arith}
use krake.Prelude.Lists.{length}
use krake.Scheduler.Applications.{
  pos, negsuc, is_positive, is_minus_one, predecessor, degraded, has_failed, Application,
  update_retry_fields, retries_positive, failed,
}

-- Failures one after the other, each at a time and for a reason.
pub failures : List (ℕ × String) → Application → Application
failures [] app = app
failures (f ∷ fs) app = failures fs (failed f.0 f.1 app)

failed-limit :
    (now : ℕ) (reason : String) (app : Application)
    → (failed now reason app).backoff_limit ≡ app.backoff_limit
unfolding failed update_retry_fields
failed-limit now reason app = ground arith

failed-positive :
    (now m l : ℕ) (reason : String) (app : Application)
    → app.backoff_limit ≡ pos (suc l)
    → app.retries ≡ some (pos (suc m))
    → ((failed now reason app).retries ≡ some (pos m)) × ((failed now reason app).state ≡ degraded)
unfolding failed update_retry_fields retries_positive is_positive predecessor is_minus_one
failed-positive now m l reason app limit left = ground (arith, limit, left)

failed-zero :
    (now l : ℕ) (reason : String) (app : Application)
    → app.backoff_limit ≡ pos l
    → app.retries ≡ some (pos zero)
    → (failed now reason app).state ≡ has_failed
unfolding failed retries_positive is_positive is_minus_one
failed-zero now l reason app limit left = ground (arith, limit, left)

-- With a positive backoff limit and `m` retries left, the application is degraded after each of the next
-- `m` failures, and has failed after one more.
pub failures-budget :
    (m l now : ℕ) (reason : String) (fs : List (ℕ × String)) (app : Application)
    → app.backoff_limit ≡ pos (suc l)
    → app.retries ≡ some (pos m)
    → length fs ≤ m
    → ((length fs < m) → (failed now reason (failures fs app)).state ≡ degraded)
      × ((length fs ≡ m) → (failed now reason (failures fs app)).state ≡ has_failed)
unfolding failures
failures-budget zero l now reason [] app limit left within =
    (λ more. absurd (omega arith), λ spent. failed-zero now (suc l) reason app limit left)
failures-budget (suc m) l now reason [] app limit left within =
    (λ more. (failed-positive now m l reason app limit left).1, λ spent. absurd (omega arith))
failures-budget zero l now reason (f ∷ fs) app limit left within = absurd (omega arith)
failures-budget (suc m) l now reason (f ∷ fs) app limit left within =
    let after = failed-positive f.0 m l f.1 app limit left in
    let rest =
      failures-budget m l now reason fs (failed f.0 f.1 app) (failed-limit f.0 f.1 app ∙ limit)
        after.0 (omega arith) in
    (λ more. rest.0 (omega arith), λ spent. rest.1 (omega arith))

-- With the backoff limit -1 an application is degraded after any number of failures.
pub failures-unlimited :
    (now : ℕ) (reason : String) (fs : List (ℕ × String)) (app : Application)
    → app.backoff_limit ≡ negsuc 0
    → (failed now reason (failures fs app)).state ≡ degraded
unfolding failures failed is_minus_one update_retry_fields
failures-unlimited now reason [] app limit = ground (arith, limit)
failures-unlimited now reason (f ∷ fs) app limit =
    failures-unlimited now reason fs (failed f.0 f.1 app)
      (ground (arith, limit, failed-limit f.0 f.1 app))
