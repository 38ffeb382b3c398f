-- ===== src/GarbageCollector/Examples.antt =====
-- The collector's theorems at concrete resources.
use krake.Prelude.{
  String, ◌≡◌, ◌≢◌, ◌⊎◌, refl, false, Option, none, some, List, [], ◌∷◌, ◌++◌, arith, map,
}
use krake.Prelude.Keys.{string_key, contains}
use krake.Prelude.Lists.{All}
use krake.Prelude.Dict
use krake.Data.Core.{ResourceRef, ref_key}
use krake.WorkQueue
use krake.WorkQueue.{WorkQueue, fresh, got}
use krake.DependencyGraph.{dependents}
use krake.DependencyGraph.Cycles.{DependsOn, direct, over}
use krake.GarbageCollector.{
  Resource, GarbageCollector, delete_resource, update_resource, is_in_deletion, clean_cycle,
  on_received_new, on_received_update, on_received_deleted, resource_received, Turn,
  assertion_failed, returned, mark_dependents,
}
use krake.GarbageCollector.Handling.{
  IsSound, contains-clean_cycle, on_received_new-IsSound, on_received_deleted-IsSound,
}
use krake.GarbageCollector.Worker.{QueuesInDeletion, handlers-QueuesInDeletion}
use krake.GarbageCollector.Requests.{Marks, worker_requests}
use krake.GarbageCollector.Marked.{every_dependent_deleted}

abbrev cluster : ResourceRef
cluster = record { api = "kubernetes"; namespace = some "ns"; kind = "Cluster"; name = "c" }

abbrev app : ResourceRef
app = record { api = "kubernetes"; namespace = some "ns"; kind = "Application"; name = "a" }

abbrev other : ResourceRef
other = record { api = "kubernetes"; namespace = some "ns"; kind = "Application"; name = "b" }

-- The application in deletion, owned by the cluster.
abbrev deleted_app : Resource
deleted_app = record {
  ref = app;
  uid = "1";
  deleted = some 5;
  finalizers = "kubernetes_resources_deletion" ∷ "cascade_deletion" ∷ [];
  owners = cluster ∷ [];
}

-- The cluster, owned by the application: the two close a cycle.
abbrev owned_cluster : Resource
owned_cluster = record {
  ref = cluster;
  uid = "2";
  deleted = none;
  finalizers = [];
  owners = app ∷ [];
}

abbrev idle : GarbageCollector
idle = record { graph = []; queue = fresh 0 }

idle-DependsOn : {b a : ResourceRef} → DependsOn (λ j. dependents j idle.graph) b a → ⊥
unfolding dependents Dict.get
idle-DependsOn (direct h) = cc
idle-DependsOn (over h k) = cc

idle-IsSound : IsSound idle.graph
unfolding dependents Dict.get
idle-IsSound = record {
  simple = record { once = λ j k. omega arith };
  acyclic = λ node loop. idle-DependsOn loop;
}

idle-QueuesInDeletion : QueuesInDeletion idle
unfolding fresh Dict.get
idle-QueuesInDeletion = record { waiting = λ k v h. cc; timed = λ k v h. cc }

abbrev reads_none : ResourceRef → Option Resource
reads_none r = none

abbrev watched : GarbageCollector
watched = on_received_new deleted_app idle

watched-IsSound : IsSound watched.graph
watched-IsSound = on_received_new-IsSound deleted_app idle idle-IsSound

on_received_new-IsSound_example : IsSound (on_received_new owned_cluster watched).graph
on_received_new-IsSound_example = on_received_new-IsSound owned_cluster watched watched-IsSound

on_received_deleted-IsSound_example :
    IsSound (on_received_deleted reads_none deleted_app watched).0.graph
on_received_deleted-IsSound_example =
    on_received_deleted-IsSound reads_none deleted_app watched watched-IsSound

contains-clean_cycle_example :
    contains app (dependents cluster (clean_cycle (app ∷ []) watched.graph)) ≡ false
contains-clean_cycle_example =
    contains-clean_cycle cluster app (app ∷ []) watched.graph watched-IsSound.simple

handlers-QueuesInDeletion_example :
    QueuesInDeletion (on_received_new deleted_app idle)
    × QueuesInDeletion (on_received_update deleted_app idle)
    × QueuesInDeletion (on_received_deleted reads_none deleted_app idle).0
handlers-QueuesInDeletion_example =
    handlers-QueuesInDeletion reads_none deleted_app idle idle-QueuesInDeletion

-- The same state, as the queue shows it to a worker.
abbrev queued : GarbageCollector
queued = record {
  graph = (cluster, app ∷ []) ∷ (app, []) ∷ [];
  queue = record {
    dirty = ("1", deleted_app) ∷ [];
    timers = [];
    active = "1" ∷ [];
    queue = "1" ∷ [];
    debounce = 0;
  };
}

queued-QueuesInDeletion : QueuesInDeletion queued
unfolding Dict.get is_in_deletion
queued-QueuesInDeletion = record { waiting = λ k v h. ground arith; timed = λ k v h. cc }

taken : WorkQueue String Resource
taken = record queued.queue { dirty = []; queue = [] }

-- The request succeeds, and another resource came to depend on the cluster meanwhile.
abbrev busy : List Turn
busy = record { fails = false; listed = app ∷ other ∷ [] } ∷ []

worker_requests_example :
    ((dependents app queued.graph ≢ [])
      × All
          (Marks (dependents app queued.graph) busy)
          (resource_received deleted_app busy queued).0.requests
      × ((resource_received deleted_app busy queued).0.end ≢ assertion_failed))
    ⊎ ((dependents app queued.graph ≡ [])
        × (rest : List String) × (deleted_app.finalizers ≡ rest ++ "cascade_deletion" ∷ [])
        × ((resource_received deleted_app busy queued).0.requests
            ≡ update_resource (record deleted_app { finalizers = rest }) ∷ [])
        × ((resource_received deleted_app busy queued).0.end ≢ assertion_failed))
unfolding WorkQueue.get taken Dict.get Dict.remove
worker_requests_example =
    worker_requests queued "1" deleted_app taken busy queued-QueuesInDeletion refl

abbrev quiet : List Turn
quiet = record { fails = false; listed = app ∷ [] } ∷ []

every_dependent_deleted_example :
    ((resource_received owned_cluster quiet queued).0.requests
      ≡ map delete_resource (dependents cluster queued.graph))
    × ((resource_received owned_cluster quiet queued).0.end ≡ returned)
unfolding Dict.get dependents
every_dependent_deleted_example =
    every_dependent_deleted queued owned_cluster quiet (λ e. cc e) ((refl, refl), tt) (omega arith)

-- While the deletion of the first dependent is awaited, it leaves the list: the second one is
-- skipped.
test_skipped :
    mark_dependents 0 (app ∷ other ∷ []) (record { fails = false; listed = other ∷ [] } ∷ [])
    ≡ record { requests = delete_resource app ∷ []; end = returned }
unfolding mark_dependents
test_skipped = refl
