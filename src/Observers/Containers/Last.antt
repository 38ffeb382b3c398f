-- ===== src/Observers/Containers/Last.antt =====
-- The state of an application that has several resources.
use krake.Prelude.{ℕ, ◌≡◌, refl, subst, true, false, Option, none, some, List, [], ◌∷◌, ◌++◌}
use krake.Prelude.Tests.{nat_beq, nat_beq_iff}
use krake.Scheduler.Applications.{running}
use krake.Manifest.Results.{Result, ok, ◌>>=◌, bind_ok}
use krake.Manifest.Values.{Value}
use krake.Manifest.Resources.{get_kubernetes_resource_idx, entry}
use krake.Manifest.Observed.{observe_resource}
use krake.Observers.Containers.{
  Resource, workload, Status, set_container_health, replica_health, same_count, or_zero, Reading,
  found, poll_one, poll_desired, poll_resources, append_manifest,
}

abbrev pub ready : ℕ → Resource
ready n = workload (some n) (some n)

same-ready : (n : ℕ) → nat_beq n n ≡ true
same-ready n = (nat_beq_iff n n).1 refl

replica-running : (n : ℕ) (status : Status) → (replica_health (some n) n status).state ≡ running
unfolding replica_health same_count
replica-running n status = rw (same-ready n) refl

ready-running :
    (n : ℕ) (status s : Status) → set_container_health (ready n) status ≡ ok s → s.state ≡ running
unfolding set_container_health or_zero
ready-running n status s h = cc (h, replica-running n status)

module _ (read : Value → Reading) (schema : List Value) where
  poll_one-running :
      (n : ℕ) (observed response : Value) (status : Status) (polled : Option Status)
      → poll_one read schema observed (found (ready n) response) status ≡ ok polled
      → (s : Status) × (polled ≡ some s) × (s.state ≡ running)
  unfolding poll_one append_manifest
  poll_one-running n observed response status polled h =
      let (s, e, h1) =
        bind_ok (set_container_health (ready n) status)
          (λ s. observe_resource observed response >>= λ m. ok (some (append_manifest m s))) h in
      let (m, f, h2) =
        bind_ok (observe_resource observed response) (λ m. ok (some (append_manifest m s))) h1 in
      (append_manifest m s, cc h2, ready-running n status s e)

  poll_desired-running :
      (n : ℕ) (v response : Value) (status : Status) (polled : Option Status)
      → read v ≡ found (ready n) response
      → poll_desired read schema v status ≡ ok polled
      → (s : Status) × (polled ≡ some s) × (s.state ≡ running)
  unfolding poll_desired
  poll_desired-running n v response status polled reads h =
      let (idx, e, h1) =
        bind_ok (get_kubernetes_resource_idx schema v false)
          (λ idx. entry idx schema >>= λ observed. poll_one read schema observed (read v) status)
          h in
      let (observed, f, h2) =
        bind_ok (entry idx schema) (λ observed. poll_one read schema observed (read v) status) h1 in
      poll_one-running n observed response status polled
        (subst (λ r. poll_one read schema observed r status ≡ ok polled) reads h2)

  -- The resources after one.
  unfoldable poll_after : List Value → Option Status → Result (Option Status)
  poll_after applied none = ok none
  poll_after applied (some status) = poll_resources read schema applied status

  continued :
      (v : Value) (applied : List Value) (status s : Status) (polled : Option Status)
      → poll_desired read schema v status ≡ ok polled
      → poll_after applied polled ≡ ok (some s)
      → (next : Status) × (poll_desired read schema v status ≡ ok (some next))
        × (poll_resources read schema applied next ≡ ok (some s))
  unfolding poll_after
  continued v applied status s none e f = absurd (cc f)
  continued v applied status s (some next) e f = (next, e, f)

  poll-first :
      (v : Value) (applied : List Value) (status s : Status)
      → poll_resources read schema (v ∷ applied) status ≡ ok (some s)
      → (next : Status) × (poll_desired read schema v status ≡ ok (some next))
        × (poll_resources read schema applied next ≡ ok (some s))
  unfolding poll_resources poll_after
  poll-first v applied status s h =
      let (polled, e, f) = bind_ok (poll_desired read schema v status) (poll_after applied) h in
      continued v applied status s polled e f

  -- If the last resource of an application has all its replicas ready, then a poll that no error
  -- ends reports the application as running, whatever the state of the resources before it is.
  pub last-running :
      (front : List Value) (v response : Value) (n : ℕ) (status s : Status)
      → read v ≡ found (ready n) response
      → poll_resources read schema (front ++ v ∷ []) status ≡ ok (some s)
      → s.state ≡ running
  unfolding poll_resources
  last-running [] v response n status s reads h =
      let (next, e, f) = poll-first v [] status s h in
      let (t, p, q) = poll_desired-running n v response status (some next) reads e in cc (f, p, q)
  last-running (w ∷ front) v response n status s reads h =
      let (next, e, f) = poll-first w (front ++ v ∷ []) status s h in
      last-running front v response n next s reads f
