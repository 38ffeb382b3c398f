-- ===== src/Lib.antt =====
-- Krake orchestrates applications over many clusters. An API server (krake/krake/api) keeps the
-- resources in an etcd database. Controllers (krake/krake/controller) watch the API, keep what
-- they received in a work queue, and change resources through the API until the world is as the
-- resources ask: the scheduler chooses a cluster for an application, the garbage collector takes
-- out what is in deletion.
--
-- Prelude holds what the other modules share: tests on numbers, equality of keys as an instance
-- (Keys), Python's lists and sets over such keys, its dictionaries (Dict), and predicates on
-- lists (Lists).
--
-- WorkQueue models the class `WorkQueue` of krake/krake/controller/__init__.py: the fields dirty,
-- timers, active and the asyncio queue, and put, get, done, cancel, close, with the inner
-- coroutines put_key and debounce. An asyncio queue is a list. A timer fires as a step of its
-- own, so a history of the queue is a sequence of steps of any reflectors, timers and workers
-- (WorkQueue/System), and invariants are proved by induction on it (Order, Debounce, Contents).
--
-- Data models krake/krake/data: Data/Core the references to resources of core.py, Data/Key the
-- class `Key` of __init__.py, the templates of database keys with format_object, format_kwargs,
-- matches and prefix, and Data/Constraints the label and metric constraints of constraints.py.
-- The numbers of metrics, which are floats, are a record `Numbers` of the operations that the
-- code uses.
--
-- DependencyGraph and GarbageCollector model krake/krake/controller/gc.py. The graph is generic
-- in its nodes. `_check_for_cycles` recurses without a bound: here it takes fuel, two more than
-- the number of nodes, and DependencyGraph/Fuel shows that this is enough. The garbage collector
-- keeps a graph and the resources that its handlers queued; API requests are recorded, and the
-- answers of reads are an argument. The loop that marks dependents iterates the graph's own list while
-- it awaits its requests: for each of them a `Turn` says whether it failed and what the list holds
-- after it (GarbageCollector/Requests and GarbageCollector/Marked).
--
-- Api models krake/krake/api: Api/Auth the authorizers of auth.py, Api/Middlewares the
-- authentication and the retries of middlewares.py, and Api/Database the `Session` of
-- database.py. The etcd server and its client are the record `EtcdClient`, and `EtcdLaws`
-- (Api/Database/Etcd) says what the session relies on: a transaction succeeds exactly when its
-- comparison holds, a put is at a new revision, other keys stay as they are. A store in memory
-- (Api/Database/Memory) has these laws. Other clients are histories of any transactions between a
-- read and a write. Api/Kubernetes models the handlers of krake/krake/api/kubernetes.py on the
-- resource that was loaded, with the rules of `update` of krake/krake/data/serializable.py for
-- the metadata; Api/Kubernetes/Lifecycle serves any sequence of requests on one application.
--
-- Scheduler models krake/krake/controller/scheduler: Scheduler/Constraints the evaluation of
-- constraints.py, and of scheduler.py Scheduler/Ranking the scores and `select_maximum`,
-- Scheduler/Selection the choice of a cluster (fetch_kubernetes_cluster_scores,
-- rank_kubernetes_clusters, select_scheduling_location) and Scheduler/Applications the reflector
-- handler, the worker and the retries of applications, over the operations of WorkQueue.
-- Scheduler/Clusters has the selection of a cloud for a cluster, and Scheduler/Clusters/Scheduling the
-- requests of schedule_kubernetes_cluster; Scheduler/Magnum has the project of a Magnum cluster and what
-- the cluster inherits from it.
-- `random.choice` is an argument that returns a member of the list; what fetch_metrics yields and
-- what a cluster inherits from its cloud are arguments. `>` on scores is the one that `total_ordering` makes of RankMixin's
-- `__lt__`: not less, and different as tuples.
--
-- Manifest models how the Kubernetes application controller keeps manifests. Their values are what
-- YAML yields in Python, less the floats (Manifest/Values): a value is a data type, a dictionary
-- keeps its insertion order, and `in`, `==`, `bool` and the subscript of Python are written out for
-- values of every type, with the exception that they raise (Manifest/Results). From
-- krake/krake/utils.py come camel_to_snake_case (Manifest/Names) and get_kubernetes_resource_idx
-- (Manifest/Resources); from krake/krake/controller/kubernetes/hooks.py the default observer schema
-- (Manifest/Schema), the last observed manifest (Manifest/Observed) and the last applied manifest
-- (Manifest/Applied); from krake/krake/data/kubernetes.py the validation of a schema
-- (Manifest/Schema/Validation); from krake/krake/controller/kubernetes/application/application.py
-- the class `ResourceDelta` (Manifest/Delta). Where Python changes a manifest in place, the function
-- returns it. The recursion is structural, on the observer schema. Manifest/Reconciled brings the
-- three together: what a response has to hold for the next comparison to find nothing to do.
--
-- Kubernetes models the controller of applications in the same file, with the services that hooks.py
-- registers. A coroutine (Kubernetes/Tasks) is a function of the requests that were sent so far; each
-- request to the Krake API or to a cluster is answered by an `Environment`, which has seen all
-- requests before it and may let any of them fail, so that a theorem holds for every course of
-- events. Kubernetes/Services has register_service and unregister_service, Kubernetes/Manifests
-- _apply_manifest, _delete_manifest_async and _ensure_finalizer, Kubernetes/Deletion the deletion and
-- the graceful shutdown, whose `while` loop counts the attempts that are left,
-- Kubernetes/Reconciliation _reconcile_application, _migrate_application and translate_tosca, and
-- Kubernetes/Reconciliation/Worker resource_received and handle_resource. The start of a shutdown task
-- is a request of its own, and Kubernetes/Reconciliation/Worker/Kept runs the tasks that a handler has
-- started. The mangling hooks, the
-- translation of templates and the migration with volumes are arguments.
--
-- Observers models what the observers in krake/krake/controller/kubernetes/hooks.py make of the answers
-- of a cluster: Observers/Clusters the state of a cluster from the conditions of its nodes,
-- Observers/Containers the state and the counts of pods of an application from its resources. A poll
-- is a function of the status it starts with and of the answers.
--
-- Retry models how a controller restarts its background tasks (`BurstWindow` and `Controller.retry` in
-- krake/krake/controller/__init__.py); Retry/Batches is what that promises, without the list of times.
--
-- Not modelled: the HTTP server and clients, the creation, the lists and the watches of resources in
-- the API and its other resources, their serialization, the Magnum and infrastructure controllers,
-- the mangling of manifests by hooks, the fetching of metrics, and the command line tool: they are
-- requests to other systems, generated code, or stand on parts that are. asyncio is modelled by
-- explicit steps where their order matters, and where a handler runs between two awaits without
-- others touching its state it is one function.
pub mod Prelude
pub mod WorkQueue
pub mod Data
pub mod DependencyGraph
pub mod GarbageCollector
pub mod Api
pub mod Scheduler
pub mod Manifest
pub mod Kubernetes
pub mod Observers
pub mod Retry
