-- ===== src/Observers/Containers.antt =====
-- KubernetesApplicationObserver: `_set_container_health` and `poll_resource`.
pub mod Last
use krake.Prelude.{ℕ, String, Bool, true, false, Option, none, some, List, [], ◌∷◌, ◌++◌}
use krake.Prelude.Tests.{if◌then◌else◌, nat_beq}
use krake.Prelude.Keys.{string_key, ◌==◌}
use krake.Scheduler.Applications.{ApplicationState, running, restarting, degraded, completed}
use krake.Manifest.Results.{index_error, type_error, Result, ok, raised, ◌>>=◌}
use krake.Manifest.Values.{Value}
use krake.Manifest.Resources.{get_kubernetes_resource_idx, entry}
use krake.Manifest.Observed.{observe_resource}

pub data ContainerState : Type 0 where
  terminated started : ContainerState
  waiting : Option String → ContainerState

-- What the observer reads of a resource; a count that is not an int is `none`. `workload` is a
-- Deployment, a StatefulSet or a ReplicaSet, with its replicas and those that are ready, and
-- `daemon_set` has its current and its desired number. `unreported` has no status.
pub data Resource : Type 0 where
  unreported other_kind : Resource
  pod : List ContainerState → String → Resource
  workload : Option ℕ → Option ℕ → Resource
  daemon_set : Option ℕ → Option ℕ → Resource
  job : Option ℕ → Option ℕ → Option ℕ → Option ℕ → Resource

pub record ContainerHealth : Type 0 where
  pub desired_pods : Option ℕ
  pub running_pods : ℕ
  pub completed_pods : ℕ
  pub failed_pods : ℕ

pub record Status : Type 0 where
  pub state : ApplicationState
  pub container_health : Option ContainerHealth
  pub last_observed_manifest : List Value

health_of : Status → ContainerHealth
health_of status = elim status.container_health [
  | some h ↦ h
  | none ↦ record { desired_pods = some 0; running_pods = 0; completed_pods = 0; failed_pods = 0 }
]

or_zero : Option ℕ → ℕ
or_zero none = 0
or_zero (some n) = n

or_one : Option ℕ → ℕ
or_one none = 1
or_one (some n) = n

same_count : Option ℕ → Option ℕ → Bool
same_count (some a) (some b) = nat_beq a b
same_count none none = true
same_count _ _ = false

set_running : ApplicationState → ℕ → ContainerHealth → Status → Status
set_running state n health status = record status {
  state = state;
  container_health = some (record health { running_pods = n });
}

pod_health : ContainerState → String → ContainerHealth → Status → Status
unfolding set_running
pod_health terminated policy health status =
    set_running (if policy == "Never" then completed else restarting) 0 health status
pod_health (waiting reason) policy health status =
    if elim reason [ none ↦ false | some r ↦ r == "CrashLoopBackOff" ]
    then set_running degraded 0 health status
    else record status { container_health = some health }
pod_health started policy health status = set_running running 1 health status

-- The counts of a workload, and the state that they give.
replica_health : Option ℕ → ℕ → Status → Status
unfolding health_of same_count
replica_health desired ready status = record status {
  state = if same_count (some ready) desired then running else degraded;
  container_health =
      some (record (health_of status) { desired_pods = desired; running_pods = ready });
}

job_state : Option ℕ → Option ℕ → ApplicationState → ApplicationState
unfolding same_count
job_state none completions state = state
job_state (some n) completions state = if same_count (some n) completions then completed else state

pub set_container_health : Resource → Status → Result Status
unfolding health_of or_zero or_one pod_health replica_health job_state
set_container_health unreported status =
    ok (record status { container_health = some (health_of status) })
set_container_health other_kind status =
    ok (record status { container_health = some (health_of status) })
set_container_health (pod [] policy) status = raised index_error
set_container_health (pod (c ∷ cs) policy) status =
    ok (pod_health c policy (record (health_of status) { desired_pods = some 1 }) status)
set_container_health (workload replicas ready) status =
    ok (replica_health replicas (or_zero ready) status)
set_container_health (daemon_set current desired) status =
    ok (replica_health current (or_zero desired) status)
set_container_health (job completions active succeeded failures) status = ok (record status {
  state = job_state succeeded completions status.state;
  container_health = some (record (health_of status) {
    desired_pods = some (or_one completions);
    running_pods = or_zero active;
    completed_pods = or_zero succeeded;
    failed_pods = or_zero failures;
  });
})

-- The answer to the read of a resource: a 404, another error, or the resource and its `to_dict`.
pub data Reading : Type 0 where
  missing unreachable : Reading
  found : Resource → Value → Reading

append_manifest : Value → Status → Status
append_manifest manifest status = record status {
  last_observed_manifest = status.last_observed_manifest ++ manifest ∷ [];
}

module _ (read : Value → Reading) (schema : List Value) where
  -- What one resource adds to the status; `none` ends the poll with the last known status.
  unfoldable pub poll_one : Value → Reading → Status → Result (Option Status)
  unfolding set_container_health append_manifest
  poll_one observed missing status = ok (some status)
  poll_one observed unreachable status = ok none
  poll_one observed (found resource response) status = do
    status ← set_container_health resource status
    manifest ← observe_resource observed response
    ok (some (append_manifest manifest status))

  unfoldable pub poll_desired : Value → Status → Result (Option Status)
  unfolding poll_one
  poll_desired desired status = do
    idx ← get_kubernetes_resource_idx schema desired false
    observed ← entry idx schema
    poll_one observed (read desired) status

  -- The loop: an error ends it.
  unfoldable pub poll_resources : List Value → Status → Result (Option Status)
  unfolding poll_desired
  poll_resources [] status = ok (some status)
  poll_resources (desired ∷ applied) status = do
    next ← poll_desired desired status
    elim next [ none ↦ ok none | some status ↦ poll_resources applied status ]

  pub poll_application : List Value → Status → Result Status
  unfolding poll_resources
  poll_application applied status = do
    polled ← poll_resources applied (record status { last_observed_manifest = [] })
    ok (elim polled [ none ↦ status | some s ↦ s ])
