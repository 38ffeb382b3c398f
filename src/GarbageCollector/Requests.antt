-- ===== src/GarbageCollector/Requests.antt =====
-- What a worker of the collector sends for a resource from the queue.
use krake.Prelude.{
  ℕ, zero, suc, String, ◌≡◌, ◌≢◌, ◌⊎◌, inl, inr, refl, ap, Bool, true, false, some, List, [], ◌∷◌,
  ◌++◌, arith,
}
use krake.Prelude.Tests.{Option-cases}
use krake.Prelude.Keys.{==_iff, string_key}
use krake.Prelude.Lists.{All, Any, All-map}
use krake.Data.Core.{ResourceRef, ref_key}
use krake.WorkQueue
use krake.WorkQueue.{WorkQueue, got}
use krake.WorkQueue.Contents.{got-Holds}
use krake.DependencyGraph.{dependents, get_direct_dependents}
use krake.GarbageCollector.{
  Resource, GarbageCollector, Request, delete_resource, update_resource, is_in_deletion,
  last_is_cascade, pop_cascade, Turn, assertion_failed, Work, entry_at, after_request,
  mark_dependents, update_end, remove_cascade_finalizer, dispatch, resource_received,
}
use krake.GarbageCollector.Worker.{InDeletion, QueuesInDeletion}

-- The list of dependents held it at the start, or after some turn.
abbrev pub Listed : List ResourceRef → List Turn → ResourceRef → Type 0
Listed ds turns d = Any (λ e. e ≡ d) ds ⊎ Any (λ t. Any (λ e. e ≡ d) t.listed) turns

-- A request to delete what the list held.
abbrev pub Marks : List ResourceRef → List Turn → Request → Type 0
Marks ds turns q = (d : ResourceRef) × (q ≡ delete_resource d) × Listed ds turns d

entry_at-in :
    (i : ℕ) (ds : List ResourceRef) (d : ResourceRef) → entry_at i ds ≡ some d → Any (λ e. e ≡ d) ds
unfolding entry_at
entry_at-in i [] d h = absurd (cc h)
entry_at-in zero (e ∷ ds) d h = inl (ground (arith, h))
entry_at-in (suc i) (e ∷ ds) d h = inr (entry_at-in i ds d h)

later-Marks :
    (ds : List ResourceRef) (turn : Turn) (turns : List Turn) (q : Request)
    → Marks turn.listed turns q
    → Marks ds (turn ∷ turns) q
later-Marks ds turn turns q (d, same, inl now) = (d, same, inr (inl now))
later-Marks ds turn turns q (d, same, inr later) = (d, same, inr (inr later))

-- All requests are of a kind, and the handler did not fail an assertion.
abbrev Works : (Request → Type 0) → Work → Type 0
Works P work = All P work.requests × (work.end ≢ assertion_failed)

after_request-Works :
    (P : Request → Type 0) (q : Request) (failed : Bool) (rest : Work)
    → P q
    → Works P rest
    → Works P (after_request q failed rest)
unfolding after_request
after_request-Works P q true rest h k = ((h, tt), λ e. cc e)
after_request-Works P q false rest h k = ((h, k.0), k.1)

mark-Works :
    (i : ℕ) (ds : List ResourceRef) (turns : List Turn)
    → Works (Marks ds turns) (mark_dependents i ds turns)
unfolding mark_dependents
mark-Works i ds [] = elim (Option-cases (entry_at i ds)) [
  | inl over ↦ rw (mark_dependents, over) (tt, λ e. cc e)
  | inr (d, at) ↦ rw (mark_dependents, at) (((d, refl, inl (entry_at-in i ds d at)), tt), λ e. cc e)
]
mark-Works i ds (turn ∷ turns) = elim (Option-cases (entry_at i ds)) [
  | inl over ↦ rw (mark_dependents, over) (tt, λ e. cc e)
  | inr (d, at) ↦
      let (marks, fine) = mark-Works (suc i) turn.listed turns in
      rw (mark_dependents, at)
        (after_request-Works (Marks ds (turn ∷ turns)) (delete_resource d) turn.fails _
          (d, refl, inl (entry_at-in i ds d at))
          (
            All-map (mark_dependents (suc i) turn.listed turns).requests (later-Marks ds turn turns)
                marks,
            fine,
          ))
]

-- The last finalizer is taken off, if it is the collector's.
pop_cascade-append :
    (finalizers : List String)
    → last_is_cascade finalizers ≡ true
    → (rest : List String) × (pop_cascade finalizers ≡ some rest)
      × (finalizers ≡ rest ++ "cascade_deletion" ∷ [])
unfolding pop_cascade
pop_cascade-append [] h = cc
pop_cascade-append (f ∷ []) h = ([], rw h, ground (arith, ==_iff f "cascade_deletion"))
pop_cascade-append (f ∷ g ∷ fs) h =
    let (rest, popped, split) = pop_cascade-append (g ∷ fs) h in
    (f ∷ rest, rw (popped, pop_cascade), ap (λ l. f ∷ l) split)

update_end-fine : (turns : List Turn) → update_end turns ≢ assertion_failed
unfolding update_end
update_end-fine [] e = cc e
update_end-fine (turn ∷ turns) e = ground (arith, e)

dispatch_lem :
    (ds : List ResourceRef) (r : Resource) (turns : List Turn)
    → InDeletion r
    → ((ds ≢ []) × Works (Marks ds turns) (dispatch ds r turns))
      ⊎ ((ds ≡ [])
          × (rest : List String) × (r.finalizers ≡ rest ++ "cascade_deletion" ∷ [])
          × ((dispatch ds r turns).requests ≡ update_resource (record r { finalizers = rest }) ∷ [])
          × ((dispatch ds r turns).end ≢ assertion_failed))
unfolding dispatch is_in_deletion
dispatch_lem [] r turns h =
    let (rest, popped, split) = pop_cascade-append r.finalizers (ground arith) in
    inr (
      refl,
      rest,
      split,
      rw (popped, remove_cascade_finalizer) refl,
      rw (popped, remove_cascade_finalizer) (update_end-fine turns),
    )
dispatch_lem (d ∷ ds) r turns h = inl (λ e. cc, mark-Works 0 (d ∷ ds) turns)

-- Whatever the requests are answered, and whatever the reflectors do to the list of dependents
-- during them: for a resource from the queue that has dependents, a worker sends nothing but the
-- deletions of resources that the list held, and for one that has none the one request that takes
-- the collector's finalizer, the last one, off the resource; the assertion on that finalizer
-- holds.
pub worker_requests :
    (c : GarbageCollector) (key : String) (r : Resource) (q : WorkQueue String Resource)
    (turns : List Turn)
    → QueuesInDeletion c
    → WorkQueue.get c.queue ≡ got key r q
    → ((dependents r.ref c.graph ≢ [])
        × All (Marks (dependents r.ref c.graph) turns) (resource_received r turns c).0.requests
        × ((resource_received r turns c).0.end ≢ assertion_failed))
      ⊎ ((dependents r.ref c.graph ≡ [])
          × (rest : List String) × (r.finalizers ≡ rest ++ "cascade_deletion" ∷ [])
          × ((resource_received r turns c).0.requests
              ≡ update_resource (record r { finalizers = rest }) ∷ [])
          × ((resource_received r turns c).0.end ≢ assertion_failed))
unfolding resource_received get_direct_dependents
worker_requests c key r q turns h e =
    elim (dispatch_lem (dependents r.ref c.graph) r turns
      (got-Holds InDeletion key r c.queue q e h)) [
        | inl (some_left, (marks, fine)) ↦ inl (some_left, marks, fine)
        | inr last ↦ inr last
      ]
