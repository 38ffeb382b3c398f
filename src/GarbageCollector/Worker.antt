-- ===== src/GarbageCollector/Worker.antt =====
-- What is in the collector's queue.
use krake.Prelude.{◌≡◌, inl, inr, true, Option, none, List, [], ◌∷◌}
use krake.Prelude.Tests.{Bool-cases, Option-cases}
use krake.Prelude.Keys.{string_key}
use krake.Data.Core.{ResourceRef, ref_key}
use krake.WorkQueue.Contents.{Holds, put-Holds}
use krake.DependencyGraph.{Checked, no_cycle, cycle, out_of_fuel}
use krake.GarbageCollector.{
  Resource, GarbageCollector, is_in_deletion, simple_on_receive, received, on_received_new,
  on_received_update, requeue_owners, on_received_deleted,
}

abbrev pub InDeletion : Resource → Type 0
InDeletion r = is_in_deletion r ≡ true

-- Only resources in deletion are in the queue.
abbrev pub QueuesInDeletion : GarbageCollector → Type 0
QueuesInDeletion c = Holds InDeletion c.queue

simple_on_receive-QueuesInDeletion :
    (r : Resource) (c : GarbageCollector)
    → QueuesInDeletion c
    → QueuesInDeletion (simple_on_receive r c)
unfolding simple_on_receive
simple_on_receive-QueuesInDeletion r c h = elim (Bool-cases (is_in_deletion r)) [
  | inl deleting ↦ rw deleting (put-Holds InDeletion r.uid r none c.queue deleting h)
  | inr other ↦ rw other h
]

received-QueuesInDeletion :
    (result : Checked ResourceRef) (r : Resource) (c : GarbageCollector)
    → QueuesInDeletion c
    → QueuesInDeletion (received result r c)
unfolding received
received-QueuesInDeletion (no_cycle g visited) r c h =
    simple_on_receive-QueuesInDeletion r (record c { graph = g }) h
received-QueuesInDeletion (cycle g visited) r c h = h
received-QueuesInDeletion out_of_fuel r c h = h

requeue_owners-QueuesInDeletion :
    (read : ResourceRef → Option Resource) (owners : List ResourceRef) (c : GarbageCollector)
    → QueuesInDeletion c
    → QueuesInDeletion (requeue_owners read owners c).0
unfolding requeue_owners
requeue_owners-QueuesInDeletion read [] c h = h
requeue_owners-QueuesInDeletion read (owner ∷ owners) c h = elim (Option-cases (read owner)) [
  | inl missing ↦ rw (missing, requeue_owners) h
  | inr (dependency, found) ↦
      rw (found, requeue_owners)
        (requeue_owners-QueuesInDeletion read owners (simple_on_receive dependency c)
          (simple_on_receive-QueuesInDeletion dependency c h))
]

-- If all queued resources are in deletion, then so they are after each of the three handlers.
pub handlers-QueuesInDeletion :
    (read : ResourceRef → Option Resource) (r : Resource) (c : GarbageCollector)
    → QueuesInDeletion c
    → QueuesInDeletion (on_received_new r c)
      × QueuesInDeletion (on_received_update r c)
      × QueuesInDeletion (on_received_deleted read r c).0
unfolding on_received_new on_received_update on_received_deleted
handlers-QueuesInDeletion read r c h = (
  received-QueuesInDeletion _ r c h,
  received-QueuesInDeletion _ r c h,
  elim (Bool-cases (requeue_owners read r.owners c).1) [
    | inl ran ↦ rw ran (requeue_owners-QueuesInDeletion read r.owners c h)
    | inr failed ↦ rw failed (requeue_owners-QueuesInDeletion read r.owners c h)
  ],
)
