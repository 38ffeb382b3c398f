-- ===== src/Kubernetes/Deletion/Attempts.antt =====
-- How often the shutdown hook calls an application.
use krake.Prelude.{ℕ, zero, suc, ◌+◌, ◌≤◌, Bool, [], ◌∷◌, inl, inr, arith}
use krake.Prelude.Tests.{Bool-cases}
use krake.Manifest.Results.{type_error}
use krake.Kubernetes.Applications.{Application}
use krake.Kubernetes.Tasks.{
  Request, read_application, read_cluster, shutdown_application, History, Environment, Reply, threw,
  returned, pure, send, unless_gone, is_gone,
}
use krake.Kubernetes.Tasks.Ends.{Ends, answer-Ends, required-Ends, continue-Ends}
use krake.Kubernetes.Deletion.{
  ShutdownConfiguration, Attempt, given_up, succeeded, failed, caught, after_attempt, or_else,
  stops_shutdown, check_shutdown_success, attempt_shutdown, shutdown_loop, run_app_shutdown,
}

calls : Request → ℕ
calls (shutdown_application app) = 1
calls _ = 0

-- How many requests call the application's shutdown.
pub shutdown_calls : History → ℕ
unfolding calls
shutdown_calls [] = 0
shutdown_calls (r ∷ log) = calls r + shutdown_calls log

-- At most `n` calls so far.
abbrev AtMost : ℕ → History → Type 0
AtMost n log = shutdown_calls log ≤ n

AtMost-send :
    (env : Environment) (r : Request) (n m k : ℕ) (log : History)
    → calls r + n ≤ m
    → m ≤ k
    → AtMost n log
    → Ends (AtMost k) (λ _. AtMost m) (send env r log)
unfolding send shutdown_calls
AtMost-send env r n m k log le most h =
    answer-Ends (AtMost k) (λ _. AtMost m) (env.failure (r ∷ log)) tt (r ∷ log) (omega arith)
      (omega arith)

after-AtMost :
    (n k : ℕ) (ended : Attempt × History) (others : History → Bool × History)
    → AtMost n ended.1
    → n ≤ k
    → ((log : History) → AtMost n log → AtMost k (others log).1)
    → AtMost k (after_attempt ended others).1
unfolding after_attempt
after-AtMost n k (given_up, log) others h le f = omega arith
after-AtMost n k (succeeded, log) others h le f = omega arith
after-AtMost n k (failed, log) others h le f = f log h

caught-AtMost :
    (n : ℕ) (ended : Reply Attempt × History)
    → Ends (AtMost n) (λ _. AtMost n) ended
    → AtMost n (caught ended).1
unfolding caught
caught-AtMost n (threw e, log) h = h
caught-AtMost n (returned a, log) h = h

unless_gone-AtMost :
    (n : ℕ) (ended : Reply (Unit {0}) × History)
    → Ends (AtMost n) (λ _. AtMost n) ended
    → Ends (AtMost n) (λ _. AtMost n) (unless_gone ended succeeded (pure failed))
unfolding unless_gone pure
unless_gone-AtMost n (returned u, log) h = h
unless_gone-AtMost n (threw e, log) h = elim (Bool-cases (is_gone e)) [
  | inl g ↦ rw g h
  | inr g ↦ rw g h
]

module _ (env : Environment) (hook : ShutdownConfiguration) where
  attempt-AtMost :
      (n : ℕ) (app : Application) (log : History)
      → AtMost n log
      → AtMost (suc n) (caught (attempt_shutdown env hook app log)).1
  unfolding attempt_shutdown check_shutdown_success pure calls
  attempt-AtMost n app log h = elim (Bool-cases (stops_shutdown app.state)) [
    | inl e ↦ rw e (caught-AtMost (suc n) (returned given_up, log) (omega arith))
    | inr e ↦ rw e (
        caught-AtMost (suc n) _ (
          continue-Ends (AtMost (suc n)) (λ _. AtMost n) (λ _. AtMost (suc n)) _ _
            (required-Ends (AtMost (suc n)) (λ _. AtMost n) type_error app.running_on log
              (omega arith) (λ c. h))
            (λ c l i.
              continue-Ends (AtMost (suc n)) (λ _. AtMost n) (λ _. AtMost (suc n)) _ _
                (AtMost-send env (read_cluster c) n n (suc n) l (omega arith) (omega arith) i)
                (λ u l i.
                  continue-Ends (AtMost (suc n)) (λ _. AtMost (suc n)) (λ _. AtMost (suc n)) _ _
                    (AtMost-send env (shutdown_application app) n (suc n) (suc n) l (omega arith)
                      (omega arith) i)
                    (λ u l i. unless_gone-AtMost (suc n) _ (
                      AtMost-send env (read_application app) (suc n) (suc n) (suc n) l (omega arith)
                        (omega arith) i))))))
  ]

  loop-AtMost :
      (left n : ℕ) (app : Application) (log : History)
      → AtMost n log
      → AtMost (n + left) (shutdown_loop env hook left app log).1
  unfolding shutdown_loop
  loop-AtMost zero n app log h = omega arith
  loop-AtMost (suc left) n app log h =
      after-AtMost (suc n) (n + suc left) (caught (attempt_shutdown env hook app log))
        (shutdown_loop env hook left app) (attempt-AtMost n app log h) (omega arith)
        (λ l i. omega (arith, loop-AtMost left (suc n) app l i))

-- The shutdown hook calls the application at most once more often than the count of retries, the
-- application's own or else that of the configuration, says: whatever the calls are answered, the
-- loop ends.
pub shutdown_attempts-le :
    (env : Environment) (hook : ShutdownConfiguration) (app : Application) (log : History)
    → shutdown_calls (run_app_shutdown env hook app log).1
      ≤ shutdown_calls log + suc (or_else app.shutdown_retry_count hook.failure_retry_count)
unfolding run_app_shutdown
shutdown_attempts-le env hook app log =
    loop-AtMost env hook _ (shutdown_calls log) app log (omega arith)
