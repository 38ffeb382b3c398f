-- ===== src/Kubernetes/Reconciliation/Worker/Graceful.antt =====
-- What the handler sends for an application with the shutdown hook that is to leave a cluster.
use krake.Prelude.{
  ℕ, ◌≡◌, refl, sym, subst, Bool, true, false, ◌||◌, List, [], ◌∷◌, inl, inr, arith,
}
use krake.Prelude.Tests.{if◌then◌else◌, Bool-cases, Option-cases}
use krake.Prelude.Keys.{string_key, contains}
use krake.Manifest.Results.{Result}
use krake.Manifest.Values.{Value}
use krake.Kubernetes.Applications.{Application}
use krake.Kubernetes.Tasks.{
  Request, update_application_status, create_shutdown_task, History, Environment, Reply, threw,
  returned, Task, pure, send,
}
use krake.Kubernetes.Tasks.Ends.{Ends, answer-Ends, continue-Ends, history-Ends}
use krake.Kubernetes.Deletion.{ShutdownConfiguration, trigger_application_shutdown}
use krake.Kubernetes.Reconciliation.Finalizer.{touches}
use krake.Kubernetes.Reconciliation.Worker.{
  is_waiting, is_ready, is_active, has_shutdown, has_moved, suppress_gone, received_deleted,
  shutdown_moved, received_moved, resource_received,
}

-- The requests that create, change or delete a resource on a cluster.
unfoldable pub touched : History → History
unfolding touches
touched [] = []
touched (r ∷ log) = let rest = touched log in if touches r then r ∷ rest else rest

-- Requests of a kind were sent after those before.
pub data Grown (P : Request → Type 0) (before : History) : History → Type 0 where
  unchanged : Grown P before before
  sent : {r : Request} {log : History} → P r → Grown P before log → Grown P before (r ∷ log)

-- Updates of the application's status, and the start of a shutdown task with its strategy.
abbrev pub Harmless : Application → Request → Type 0
Harmless app (update_application_status a) = Unit
Harmless app (create_shutdown_task a) = a.shutdown_failure_strategy ≡ app.shutdown_failure_strategy
Harmless app _ = ⊥

pub send-Grown :
    (P : Request → Type 0) (env : Environment) (r : Request) (n log : History)
    → P r
    → Grown P n log
    → Ends (Grown P n) (λ _. Grown P n) (send env r log)
unfolding send
send-Grown P env r n log plain h =
    answer-Ends (Grown P n) (λ _. Grown P n) (env.failure (r ∷ log)) tt (r ∷ log) (sent plain h)
      (sent plain h)

Grown-if_true :
    (P : Request → Type 0) (n : History) (b : Bool) (taken other : Reply Application × History)
    → b ≡ true
    → Grown P n taken.1
    → Grown P n (if b then taken else other).1
Grown-if_true P n true taken other h g = g
Grown-if_true P n false taken other h g = absurd (cc h)

Grown-if_false :
    (P : Request → Type 0) (n : History) (b : Bool) (taken other : Reply Application × History)
    → b ≡ false
    → Grown P n other.1
    → Grown P n (if b then taken else other).1
Grown-if_false P n true taken other h g = absurd (cc h)
Grown-if_false P n false taken other h g = g

suppress_gone-history :
    (app : Application) (ended : Reply Application × History)
    → (suppress_gone app ended).1 ≡ ended.1
unfolding suppress_gone
suppress_gone-history app (returned a, log) = refl
suppress_gone-history app (threw e, log) = ground arith

module _ (env : Environment) (hook : ShutdownConfiguration) (now : ℕ)
    (mangle : Application → Result Application) (translate : Application → Result (List Value))
    (migrate_with_volumes : Application → Task Application) (has_volumes : Application → Bool) where
  trigger-Grown :
      (origin : Application) (n : History) (app : Application) (log : History)
      → app.shutdown_failure_strategy ≡ origin.shutdown_failure_strategy
      → Grown (Harmless origin) n log
      → Ends
          (Grown (Harmless origin) n)
          (λ _. Grown (Harmless origin) n)
          (trigger_application_shutdown env hook now app log)
  unfolding trigger_application_shutdown pure
  trigger-Grown origin n app log same h = elim (Option-cases app.shutdown_grace_period) [
    | inr (t, e) ↦ rw e h
    | inl e ↦ rw e (
        continue-Ends (Grown (Harmless origin) n) (λ _. Grown (Harmless origin) n)
          (λ _. Grown (Harmless origin) n) _ _ (send-Grown (Harmless origin) env _ n log tt h)
          (λ u l s. sent same s))
  ]

  deleted-Grown :
      (app : Application) (log : History)
      → contains "shutdown" app.hooks ≡ true
      → is_ready app.state ≡ false
      → Grown
          (Harmless app)
          log
          (received_deleted env hook now mangle translate migrate_with_volumes has_volumes app
            log).1
  unfolding received_deleted has_shutdown pure
  deleted-Grown app log hooked unready = elim (Bool-cases (is_waiting app.state)) [
    | inl w ↦
        rw (hooked, w)
          (history-Ends (Grown (Harmless app) log) _ (trigger-Grown app log app log refl unchanged))
    | inr w ↦ rw (hooked, w, unready) unchanged
  ]

  moved-Grown :
      (app : Application) (log : History)
      → contains "shutdown" app.hooks ≡ true
      → is_ready app.state ≡ false
      → Grown
          (Harmless app)
          log
          (received_moved env hook now mangle translate migrate_with_volumes has_volumes app log).1
  unfolding received_moved has_shutdown shutdown_moved pure
  moved-Grown app log hooked unready = elim (Bool-cases (is_active app.state)) [
    | inl a ↦
        rw (hooked, unready, a)
          (history-Ends (Grown (Harmless app) log) _ (
            continue-Ends (Grown (Harmless app) log) (λ _. Grown (Harmless app) log)
              (λ _. Grown (Harmless app) log) _ _
              (send-Grown (Harmless app) env _ log log tt unchanged)
              (λ u l s. trigger-Grown app log _ l refl s)))
    | inr a ↦ elim (Bool-cases (is_waiting app.state)) [
      | inl w ↦
          rw (hooked, unready, a, w)
            (history-Ends (Grown (Harmless app) log) _
              (trigger-Grown app log app log refl unchanged))
      | inr w ↦ rw (hooked, unready, a, w) unchanged
    ]
  ]

-- An application with the shutdown hook that is in deletion, or that is scheduled to another
-- cluster than the one it runs on, and is not READY_FOR_ACTION: whatever is answered, the handler
-- itself sends nothing but updates of its status, and starts no task but shutdown tasks with its
-- strategy for failures.
pub handler-Grown :
    (env : Environment) (hook : ShutdownConfiguration) (now : ℕ)
    (mangle : Application → Result Application) (translate : Application → Result (List Value))
    (migrate_with_volumes : Application → Task Application) (has_volumes : Application → Bool)
    (app : Application) (log : History)
    → contains "shutdown" app.hooks ≡ true
    → is_ready app.state ≡ false
    → (app.deleted || has_moved app) ≡ true
    → Grown
        (Harmless app)
        log
        (resource_received env hook now mangle translate migrate_with_volumes has_volumes app log).1
unfolding resource_received
handler-Grown env hook now mangle translate volumes has app log hooked unready h =
    elim (Bool-cases app.deleted) [
      | inl d ↦ Grown-if_true (Harmless app) log app.deleted _ _ d (
          subst (Grown (Harmless app) log)
            (sym (
              suppress_gone-history app
                (received_deleted env hook now mangle translate volumes has app log)))
            (deleted-Grown env hook now mangle translate volumes has app log hooked unready))
      | inr d ↦ Grown-if_false (Harmless app) log app.deleted _ _ d (
          Grown-if_true (Harmless app) log (has_moved app) _ _
            (subst (λ b. (b || has_moved app) ≡ true) d h)
            (moved-Grown env hook now mangle translate volumes has app log hooked unready))
    ]
