-- ===== src/GarbageCollector/Handling.antt =====
-- What the handlers keep, and what a worker does with a resource in deletion.
use krake.Prelude.{
  ◌≡◌, inl, inr, refl, ap, ◌∙◌, Bool, true, false, ◌||◌, Option, List, [], ◌∷◌, arith,
}
use krake.Prelude.Tests.{if◌then◌else◌, Bool-cases, Option-cases}
use krake.Prelude.Keys.{◌==◌, ==_iff, contains, string_key}
use krake.Data.Core.{ResourceRef, ref_key}
use krake.DependencyGraph.{
  DependencyGraph, Checked, no_cycle, cycle, out_of_fuel, dependents, touch, add_owners, delete,
  replace_owners, check_for_cycles, add_resource, update_resource, remove_resource, is_nil,
}
use krake.DependencyGraph.Edges.{
  IsSimple, dependents-touch, contains-add_owners, contains-delete, contains-replace_owners,
  add_owners-IsSimple, delete-IsSimple, replace_owners-IsSimple, touch-IsSimple,
}
use krake.DependencyGraph.Cycles.{Edge, DependsOn, Shows, no_cycle_sound}
use krake.DependencyGraph.Growth.{Keeps, check_for_cycles-Keeps}
use krake.GarbageCollector.{
  Resource, GarbageCollector, after_removal, clean_cycle, received, simple_on_receive,
  requeue_owners, on_received_new, on_received_update, on_received_deleted,
}
use krake.GarbageCollector.Acyclic.{IsAcyclic, OnlyTo, IsAcyclic-root, DependsOn-fewer}

abbrev Refs : Type 0
Refs = DependencyGraph ResourceRef

abbrev view : Refs → ResourceRef → List ResourceRef
view g j = dependents j g

-- No dependent is listed twice, and no resource depends on itself, over any number of owners.
pub record IsSound (g : Refs) : Type 0 where
  pub simple : IsSimple g
  pub acyclic : IsAcyclic (λ j. dependents j g)

-- Every edge of the new graph is one of the old graph.
IsSound-fewer :
    (old new : Refs)
    → IsSound old
    → IsSimple new
    → ((a b : ResourceRef) → Edge (view new) b a → Edge (view old) b a)
    → IsSound new
IsSound-fewer old new h simple fewer = record {
  simple = simple;
  acyclic = λ node loop. h.acyclic node (DependsOn-fewer (view old) (view new) fewer loop);
}

-- What `remove_resource` without the check leaves.
abbrev emptied : ResourceRef → Refs → Refs
emptied r g = delete r (touch r g)

emptied-IsSimple : (r : ResourceRef) (g : Refs) → IsSimple g → IsSimple (emptied r g)
emptied-IsSimple r g h = delete-IsSimple r _ (touch-IsSimple r g h)

contains-emptied :
    (j k r : ResourceRef) (g : Refs)
    → IsSimple g
    → contains k (dependents j (emptied r g))
      ≡ (if r == j || r == k then false else contains k (dependents j g))
contains-emptied j k r g h =
    ground (arith, contains-delete j k r (touch r g) (touch-IsSimple r g h), dependents-touch j r g)

clean_cycle-IsSimple : (rs : List ResourceRef) (g : Refs) → IsSimple g → IsSimple (clean_cycle rs g)
unfolding clean_cycle remove_resource
clean_cycle-IsSimple [] g h = h
clean_cycle-IsSimple (r ∷ rs) g h = clean_cycle-IsSimple rs _ (emptied-IsSimple r g h)

-- After a cycle is cleaned its nodes have no dependents and are dependents of no node, and every
-- other edge is as before.
pub contains-clean_cycle :
    (j k : ResourceRef) (rs : List ResourceRef) (g : Refs)
    → IsSimple g
    → contains k (dependents j (clean_cycle rs g))
      ≡ (if contains j rs || contains k rs then false else contains k (dependents j g))
unfolding clean_cycle remove_resource
contains-clean_cycle j k [] g h = refl
contains-clean_cycle j k (r ∷ rs) g h = ground (
  arith,
  contains-clean_cycle j k rs (emptied r g) (emptied-IsSimple r g h),
  contains-emptied j k r g h,
)

guarded :
    (p q x : Bool) {y : Bool}
    → y ≡ (if p || q then false else x)
    → y ≡ true
    → (q ≡ false) × (x ≡ true)
guarded p q x h k = ground arith

-- The graph that the handler leaves after the search for cycles in `g`.
graph_after : Checked ResourceRef → Refs → Refs
graph_after (no_cycle g visited) old = g
graph_after (cycle g visited) old = clean_cycle visited g
graph_after out_of_fuel old = old

same_edges-IsSimple : (g g' : Refs) → Shows (view g) g' → IsSimple g → IsSimple g'
same_edges-IsSimple g g' shows h = record { once = λ j k. rw shows (h.once j k) }

-- If `new` differs from a sound graph by edges to `r` alone, then the search from `r` and the
-- cleaning leave a sound graph.
IsSound-checked :
    (r : ResourceRef) (old new : Refs) (result : Checked ResourceRef)
    → IsSound old
    → IsSimple new
    → OnlyTo r (view old) (view new)
    → Keeps (view new) (r ∷ []) result
    → ((g' : Refs) (visited : List ResourceRef)
        → result ≡ no_cycle g' visited
        → ¬ DependsOn (view new) r r)
    → IsSound (graph_after result old)
unfolding graph_after
IsSound-checked r old new (no_cycle g visited) h simple only (shows, grows) root = record {
  simple = same_edges-IsSimple new g shows simple;
  acyclic = λ node loop.
      IsAcyclic-root r (view old) (view new) only h.acyclic (root g visited refl) node
        (DependsOn-fewer (view new) (view g) (λ a b k. rw (← shows a) k) loop);
}
IsSound-checked r old new (cycle g visited) h simple only (shows, grows) root =
    let simple' = same_edges-IsSimple new g shows simple in
    IsSound-fewer old (clean_cycle visited g) h (clean_cycle-IsSimple visited g simple') λ a b k.
      let (fresh, kept) =
        guarded (contains a visited) (contains b visited) (contains b (dependents a g))
          (contains-clean_cycle a b visited g simple') k in
      elim (only a b (rw shows at kept)) [
        | inl same ↦
            cc (grows r (ground (arith, ==_iff r r)), fresh, ap (λ x. contains x visited) same)
        | inr edge ↦ edge
      ]
IsSound-checked r old new out_of_fuel h simple only keeps root = h

searched :
    (r : ResourceRef) (old new : Refs)
    → IsSound old
    → IsSimple new
    → OnlyTo r (view old) (view new)
    → IsSound (graph_after (check_for_cycles r new) old)
searched r old new h simple only =
    IsSound-checked r old new (check_for_cycles r new) h simple only (check_for_cycles-Keeps r new)
      (λ g' visited e. unfold check_for_cycles in no_cycle_sound _ r new g' visited r e (inl refl))

add_owners-OnlyTo :
    (r : ResourceRef) (owners : List ResourceRef) (g : Refs)
    → OnlyTo r (view g) (view (add_owners r owners g))
add_owners-OnlyTo r owners g a b k = ground (arith, contains-add_owners a b r owners g, ==_iff r b)

replace_owners-OnlyTo :
    (r : ResourceRef) (owners : List ResourceRef) (g : Refs)
    → IsSimple g
    → OnlyTo r (view g) (view (replace_owners r owners g))
replace_owners-OnlyTo r owners g h a b k =
    ground (arith, contains-replace_owners a b r owners g h, ==_iff r b, ==_iff r a)

graph-simple_on_receive :
    (r : Resource) (c : GarbageCollector) → (simple_on_receive r c).graph ≡ c.graph
unfolding simple_on_receive
graph-simple_on_receive r c = ground arith

graph-received :
    (result : Checked ResourceRef) (r : Resource) (c : GarbageCollector)
    → (received result r c).graph ≡ graph_after result c.graph
unfolding received graph_after
graph-received (no_cycle g visited) r c = graph-simple_on_receive r (record c { graph = g })
graph-received (cycle g visited) r c = refl
graph-received out_of_fuel r c = refl

-- A resource that is received for the first time leaves a sound graph sound, also when it closes a
-- cycle.
pub on_received_new-IsSound :
    (r : Resource) (c : GarbageCollector) → IsSound c.graph → IsSound (on_received_new r c).graph
unfolding on_received_new add_resource
on_received_new-IsSound r c h = rw graph-received (
    searched r.ref c.graph (add_owners r.ref r.owners c.graph) h
      (add_owners-IsSimple r.ref r.owners c.graph h.simple)
      (add_owners-OnlyTo r.ref r.owners c.graph))

-- An update of a resource leaves a sound graph sound, also when it closes a cycle.
pub on_received_update-IsSound :
    (r : Resource) (c : GarbageCollector) → IsSound c.graph → IsSound (on_received_update r c).graph
unfolding on_received_update update_resource
on_received_update-IsSound r c h = rw graph-received (
    searched r.ref c.graph (replace_owners r.ref r.owners c.graph) h
      (replace_owners-IsSimple r.ref r.owners c.graph h.simple)
      (replace_owners-OnlyTo r.ref r.owners c.graph h.simple))

graph-requeue_owners :
    (read : ResourceRef → Option Resource) (owners : List ResourceRef) (c : GarbageCollector)
    → (requeue_owners read owners c).0.graph ≡ c.graph
unfolding requeue_owners
graph-requeue_owners read [] c = refl
graph-requeue_owners read (owner ∷ owners) c = elim (Option-cases (read owner)) [
  | inl missing ↦ rw (missing, requeue_owners) refl
  | inr (dependency, found) ↦
      rw (found, requeue_owners)
        (graph-requeue_owners read owners (simple_on_receive dependency c)
          ∙ graph-simple_on_receive dependency c)
]

removal-IsSound :
    (r : ResourceRef) (g : Refs) → IsSound g → IsSound (after_removal (remove_resource r true g))
unfolding remove_resource after_removal
removal-IsSound r g h = elim (Bool-cases (is_nil (dependents r (touch r g)))) [
  | inl none_left ↦ rw none_left (
      IsSound-fewer g (emptied r g) h (emptied-IsSimple r g h.simple)
        (λ a b k. ground (arith, contains-emptied a b r g h.simple)))
  | inr others ↦ rw others (
      IsSound-fewer g (touch r g) h (touch-IsSimple r g h.simple)
        (λ a b k. rw dependents-touch at k))
]

-- And so does the deletion of a resource, whether the reads of its owners succeed or not.
pub on_received_deleted-IsSound :
    (read : ResourceRef → Option Resource) (r : Resource) (c : GarbageCollector)
    → IsSound c.graph
    → IsSound (on_received_deleted read r c).0.graph
unfolding on_received_deleted
on_received_deleted-IsSound read r c h =
    let same = graph-requeue_owners read r.owners c in
    elim (Bool-cases (requeue_owners read r.owners c).1) [
      | inl ran ↦ rw ran (rw same (removal-IsSound r.ref c.graph h))
      | inr failed ↦ rw failed (rw same h)
    ]
