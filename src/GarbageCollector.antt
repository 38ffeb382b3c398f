-- ===== src/GarbageCollector.antt =====
-- krake/krake/controller/gc.py: `GarbageCollector`, which marks the dependents of a resource in
-- deletion as deleted, and removes the finalizer "cascade_deletion" of a resource that has none.
-- The requests to the API are a list, in the order in which they are sent. The answer of a read is
-- an argument, `none` for an HTTP error (ClientError), which ends the handler; so is what happens
-- during each other request: whether it fails, and what the reflectors do to the graph's list.
pub mod Acyclic
pub mod Handling
pub mod Worker
pub mod Requests
pub mod Marked
mod Examples
use krake.Prelude.{
  ℕ, zero, suc, String, Bool, true, false, ◌&&◌, Option, none, some, List, [], ◌∷◌, ◌++◌,
}
use krake.Prelude.Tests.{if◌then◌else◌}
use krake.Prelude.Keys.{◌==◌, string_key}
use krake.Data.Core.{ResourceRef, ref_key}
use krake.WorkQueue
use krake.WorkQueue.{WorkQueue}
use krake.DependencyGraph
use krake.DependencyGraph.{
  DependencyGraph, Checked, no_cycle, cycle, out_of_fuel, Removed, removed, has_dependents,
}

-- What the collector reads of a resource: its reference and its metadata.
pub record Resource : Type 0 where
  pub ref : ResourceRef
  pub uid : String
  pub deleted : Option ℕ
  pub finalizers : List String
  pub owners : List ResourceRef

pub data Request : Type 0 where
  delete_resource : ResourceRef → Request
  update_resource : Resource → Request

pub record GarbageCollector : Type 0 where
  pub graph : DependencyGraph ResourceRef
  pub queue : WorkQueue String Resource

abbrev is_some : Option ℕ → Bool
is_some none = false
is_some (some t) = true

-- `finalizers and finalizers[-1] == "cascade_deletion"`
abbrev pub last_is_cascade : List String → Bool
last_is_cascade [] = false
last_is_cascade (f ∷ []) = f == "cascade_deletion"
last_is_cascade (f ∷ g ∷ fs) = last_is_cascade (g ∷ fs)

pub is_in_deletion : Resource → Bool
is_in_deletion r = is_some r.deleted && last_is_cascade r.finalizers

-- `Controller.simple_on_receive` with the condition `is_in_deletion`.
simple_on_receive : Resource → GarbageCollector → GarbageCollector
unfolding is_in_deletion
simple_on_receive r c =
    if is_in_deletion r then record c { queue = WorkQueue.put r.uid r none c.queue } else c

-- The graph of an exception or of a removal.
after_removal : Removed ResourceRef → DependencyGraph ResourceRef
after_removal (removed g) = g
after_removal (has_dependents g ds) = g

pub clean_cycle : List ResourceRef → DependencyGraph ResourceRef → DependencyGraph ResourceRef
unfolding after_removal
clean_cycle [] g = g
clean_cycle (r ∷ rs) g = clean_cycle rs (after_removal (DependencyGraph.remove_resource r false g))

-- The `try` of `on_received_new` and `on_received_update`, after the graph's operation. (The
-- search never runs out of fuel.)
received : Checked ResourceRef → Resource → GarbageCollector → GarbageCollector
unfolding simple_on_receive
received (no_cycle g visited) r c = simple_on_receive r (record c { graph = g })
received (cycle g visited) r c = record c { graph = clean_cycle visited g }
received out_of_fuel r c = c

pub on_received_new : Resource → GarbageCollector → GarbageCollector
unfolding received
on_received_new r c = received (DependencyGraph.add_resource r.ref r.owners true c.graph) r c

pub on_received_update : Resource → GarbageCollector → GarbageCollector
unfolding received
on_received_update r c = received (DependencyGraph.update_resource r.ref r.owners c.graph) r c

module _ (read : ResourceRef → Option Resource) where
  -- The loop of `on_received_deleted` over the owners: `false` if a read fails.
  requeue_owners : List ResourceRef → GarbageCollector → GarbageCollector × Bool
  unfolding simple_on_receive
  requeue_owners [] c = (c, true)
  requeue_owners (owner ∷ owners) c = elim (read owner) [
    | none ↦ (c, false)
    | some dependency ↦ requeue_owners owners (simple_on_receive dependency c)
  ]

  -- `on_received_deleted`: the state, and whether the handler ran to its end.
  pub on_received_deleted : Resource → GarbageCollector → GarbageCollector × Bool
  unfolding requeue_owners after_removal
  on_received_deleted r c =
      let (c', ran) = requeue_owners r.owners c in
      if ran
      then (
        record c' { graph = after_removal (DependencyGraph.remove_resource r.ref true c'.graph) },
        true,
      )
      else (c', false)

-- `finalizers.pop(-1)` with the assertion on what it returns; `none` is an exception.
unfoldable pub pop_cascade : List String → Option (List String)
pop_cascade [] = none
pop_cascade (f ∷ []) = if f == "cascade_deletion" then some [] else none
pop_cascade (f ∷ g ∷ fs) = elim (pop_cascade (g ∷ fs)) [ none ↦ none | some rest ↦ some (f ∷ rest) ]

-- What happened during the await of a request: it may have failed, and the list of dependents,
-- which is the graph's own, may hold others now.
pub record Turn : Type 0 where
  pub fails : Bool
  pub listed : List ResourceRef

-- How a handler stands after its turns: it awaits its last request, or it has ended.
pub data End : Type 0 where
  waiting returned request_failed assertion_failed : End

pub record Work : Type 0 where
  pub requests : List Request
  pub end : End

unfoldable pub entry_at : ℕ → List ResourceRef → Option ResourceRef
entry_at i [] = none
entry_at zero (d ∷ ds) = some d
entry_at (suc i) (d ∷ ds) = entry_at i ds

-- A request was sent, and `rest` follows when it does not fail.
unfoldable pub after_request : Request → Bool → Work → Work
after_request request true rest = record { requests = request ∷ []; end = request_failed }
after_request request false rest = record rest { requests = request ∷ rest.requests }

-- `_mark_dependents`: the loop over a list takes the entry at an index that it counts up.
unfoldable pub mark_dependents : ℕ → List ResourceRef → List Turn → Work
unfolding entry_at after_request
mark_dependents i dependents [] = elim (entry_at i dependents) [
  | none ↦ record { requests = []; end = returned }
  | some d ↦ record { requests = delete_resource d ∷ []; end = waiting }
]
mark_dependents i dependents (turn ∷ turns) =
    let rest = mark_dependents (suc i) turn.listed turns in
    elim (entry_at i dependents) [
      | none ↦ record { requests = []; end = returned }
      | some d ↦ after_request (delete_resource d) turn.fails rest
    ]

unfoldable pub update_end : List Turn → End
update_end [] = waiting
update_end (turn ∷ turns) = if turn.fails then request_failed else returned

-- `_remove_cascade_deletion_finalizer`
unfoldable pub remove_cascade_finalizer : Resource → List Turn → Work
unfolding pop_cascade update_end
remove_cascade_finalizer r turns = elim (pop_cascade r.finalizers) [
  | none ↦ record { requests = []; end = assertion_failed }
  | some rest ↦ record {
    requests = update_resource (record r { finalizers = rest }) ∷ [];
    end = update_end turns;
  }
]

unfoldable pub dispatch : List ResourceRef → Resource → List Turn → Work
unfolding mark_dependents remove_cascade_finalizer
dispatch [] r turns = remove_cascade_finalizer r turns
dispatch (d ∷ ds) r turns = mark_dependents 0 (d ∷ ds) turns

-- `resource_received`: what it sends, and the graph before its first request.
unfoldable pub resource_received : Resource → List Turn → GarbageCollector → Work × GarbageCollector
unfolding dispatch
resource_received r turns c =
    let (ds, g) = DependencyGraph.get_direct_dependents r.ref c.graph in
    (dispatch ds r turns, record c { graph = g })
