-- ===== src/DependencyGraph/Edges.antt =====
-- What `add_resource`, `remove_resource` and `update_resource` do to the dependents of each node.
use krake.Prelude.{◌≤◌, ◌≡◌, refl, false, ◌&&◌, ◌||◌, List, [], ◌∷◌, ◌++◌, arith}
use krake.Prelude.Tests.{if◌then◌else◌}
use krake.Prelude.Keys.{
  Keyed, ◌==◌, ==_iff, contains, count, remove_first, contains-append, count-append,
  contains-remove_first, count-remove_first-le, count-eq-zero,
}
use krake.Prelude.Dict
use krake.Prelude.Dict.{get-put, get-remove}
use krake.DependencyGraph.{
  DependencyGraph, dependents, touch, add_owner, add_owners, remove_everywhere, delete,
  replace_owners,
}

module _ {N : Type 0} ⦃e : Keyed N⦄ where
  pub dependents-put :
      (j k : N) (ds : List N) (g : DependencyGraph N)
      → dependents j (Dict.put k ds g) ≡ (if k == j then ds else dependents j g)
  unfolding dependents
  dependents-put j k ds g = ground (arith, get-put k j ds g)

  pub dependents-touch :
      (j k : N) (g : DependencyGraph N) → dependents j (touch k g) ≡ dependents j g
  unfolding touch dependents Dict.has
  dependents-touch j k g = ground (arith, get-put k j [] g, ==_iff k j)

  pub dependents-remove :
      (j k : N) (g : DependencyGraph N)
      → dependents j (Dict.remove k g) ≡ (if k == j then [] else dependents j g)
  unfolding dependents
  dependents-remove j k g = ground (arith, get-remove k j g)

  pub contains-add_owner :
      (j k r o : N) (g : DependencyGraph N)
      → contains k (dependents j (add_owner r o g))
        ≡ (contains k (dependents j g) || (o == j && r == k))
  unfolding add_owner
  contains-add_owner j k r o g = ground (
    arith,
    dependents-touch j o g,
    dependents-touch o o g,
    dependents-put j o (dependents o g ++ r ∷ []) (touch o g),
    contains-append k (dependents o g) (r ∷ []),
    ==_iff o j,
    ==_iff r k,
  )

  -- After `add_resource` the resource is a dependent of each owner, and nothing else changed.
  pub contains-add_owners :
      (j k r : N) (owners : List N) (g : DependencyGraph N)
      → contains k (dependents j (add_owners r owners g))
        ≡ (contains k (dependents j g) || (contains j owners && r == k))
  unfolding add_owners
  contains-add_owners j k r [] g = ground arith
  contains-add_owners j k r (o ∷ owners) g =
      ground
        (arith, contains-add_owners j k r owners (add_owner r o g), contains-add_owner j k r o g)

  -- No node lists a dependent twice.
  pub record IsSimple (g : DependencyGraph N) : Type 0 where
    pub once : (j k : N) → count k (dependents j g) ≤ 1

  count-add_owner-le :
      (j k r o : N) (g : DependencyGraph N)
      → count k (dependents j g) ≤ 1
      → count k (dependents j (add_owner r o g)) ≤ 1
  unfolding add_owner
  count-add_owner-le j k r o g h = ground (
    arith,
    dependents-touch j o g,
    dependents-touch o o g,
    dependents-put j o (dependents o g ++ r ∷ []) (touch o g),
    count-append k (dependents o g) (r ∷ []),
    count-eq-zero r (dependents o g),
    ==_iff o j,
    ==_iff r k,
  )

  pub add_owners-IsSimple :
      (r : N) (owners : List N) (g : DependencyGraph N)
      → IsSimple g
      → IsSimple (add_owners r owners g)
  unfolding add_owners
  add_owners-IsSimple r [] g h = h
  add_owners-IsSimple r (o ∷ owners) g h =
      add_owners-IsSimple r owners (add_owner r o g)
        (record { once = λ j k. count-add_owner-le j k r o g (h.once j k) })

  dependents-remove_everywhere :
      (j r : N) (g : DependencyGraph N)
      → dependents j (remove_everywhere r g)
        ≡ (if contains r (dependents j g) then remove_first r (dependents j g) else dependents j g)
  unfolding dependents remove_everywhere Dict.get
  dependents-remove_everywhere j r [] = refl
  dependents-remove_everywhere j r ((i, ds) ∷ g) =
      ground (arith, dependents-remove_everywhere j r g)

  -- After `remove_resource` the resource has no dependents and is a dependent of no node; all
  -- else is as before.
  pub contains-delete :
      (j k r : N) (g : DependencyGraph N)
      → IsSimple g
      → contains k (dependents j (delete r g))
        ≡ (if r == j then false else if r == k then false else contains k (dependents j g))
  unfolding delete
  contains-delete j k r g h = ground (
    arith,
    dependents-remove_everywhere j r (Dict.remove r g),
    dependents-remove j r g,
    contains-remove_first r k (dependents j g),
    h.once j r,
    ==_iff r k,
  )

  pub delete-IsSimple : (r : N) (g : DependencyGraph N) → IsSimple g → IsSimple (delete r g)
  unfolding delete
  delete-IsSimple r g h = record {
    once = λ j k. ground (
      arith,
      dependents-remove_everywhere j r (Dict.remove r g),
      dependents-remove j r g,
      count-remove_first-le r k (dependents j g),
      h.once j k,
    );
  }

  pub touch-IsSimple : (r : N) (g : DependencyGraph N) → IsSimple g → IsSimple (touch r g)
  touch-IsSimple r g h = record { once = λ j k. rw dependents-touch (h.once j k) }

  -- After `update_resource` a node other than the resource has the resource among its dependents
  -- exactly if it is one of the new owners; the resource keeps its dependents, and so does every
  -- other pair of nodes.
  pub contains-replace_owners :
      (j k r : N) (owners : List N) (g : DependencyGraph N)
      → IsSimple g
      → contains k (dependents j (replace_owners r owners g)) ≡ (
          if r == j
          then contains k (dependents r g)
          else if r == k
          then contains j owners
          else contains k (dependents j g))
  unfolding replace_owners
  contains-replace_owners j k r owners g h =
      let g' = touch r (touch r g) in
      ground (
        arith,
        dependents-put j r (dependents r g) (add_owners r owners (delete r g')),
        contains-add_owners j k r owners (delete r g'),
        contains-delete j k r g' (touch-IsSimple r _ (touch-IsSimple r g h)),
        dependents-touch j r (touch r g),
        dependents-touch j r g,
        ==_iff r k,
      )

  pub replace_owners-IsSimple :
      (r : N) (owners : List N) (g : DependencyGraph N)
      → IsSimple g
      → IsSimple (replace_owners r owners g)
  unfolding replace_owners
  replace_owners-IsSimple r owners g h =
      let g' = touch r (touch r g) in
      let kept =
        add_owners-IsSimple r owners (delete r g')
          (delete-IsSimple r g' (touch-IsSimple r _ (touch-IsSimple r g h))) in
      record {
        once = λ j k. ground (
          arith,
          dependents-put j r (dependents r g) (add_owners r owners (delete r g')),
          kept.once j k,
          h.once r k,
        );
      }
