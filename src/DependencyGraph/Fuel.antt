-- ===== src/DependencyGraph/Fuel.antt =====
-- The search for cycles ends: its depth is at most the number of nodes.
use krake.Prelude.{
  ℕ, zero, suc, ◌+◌, ◌≤◌, ◌<◌, ◌≡◌, ◌≢◌, refl, ◌∙◌, true, false, List, [], ◌∷◌, ◌++◌, arith, inl,
  inr,
}
use krake.Prelude.Lists.{length, length-append}
use krake.Prelude.Tests.{Bool-cases}
use krake.Prelude.Keys.{
  Keyed, ==_iff, contains, count, contains-append, count-append, count-eq-zero, length-le_of_subset,
}
use krake.Prelude.Dict
use krake.DependencyGraph.{
  DependencyGraph, Checked, no_cycle, cycle, out_of_fuel, dependents, touch, and_then, visit_all,
  check_from, nodes, check_for_cycles,
}
use krake.DependencyGraph.Edges.{dependents-touch}
use krake.DependencyGraph.Cycles.{Shows}

module _ {N : Type 0} ⦃e : Keyed N⦄ (universe : List N) (ds : N → List N)
    (closed : (a b : N)
      → contains a universe ≡ true
      → contains b (ds a) ≡ true
      → contains b universe ≡ true) where
  -- The visited nodes are distinct, and all nodes of the search belong to `universe`.
  record IsSafe (visited : List N) (g : DependencyGraph N) : Type 0 where
    shows : Shows ds g
    once : (k : N) → count k visited ≤ 1
    inside : (k : N) → contains k visited ≡ true → contains k universe ≡ true

  -- The search has not run out of fuel, and has only added to the visited nodes.
  Ends : ℕ → Checked N → Type 0
  Ends visits (no_cycle g visited) = IsSafe visited g × (visits ≤ length visited)
  Ends visits (cycle g visited) = Unit
  Ends visits out_of_fuel = ⊥

  Ends-weaken : (m n : ℕ) (r : Checked N) → m ≤ n → Ends n r → Ends m r
  unfolding Ends
  Ends-weaken m n (no_cycle g visited) le (safe, h) = (safe, omega arith)
  Ends-weaken m n (cycle g visited) le h = tt
  Ends-weaken m n out_of_fuel le h = h

  and_then-Ends :
      (visits : ℕ) (r : Checked N) (next : DependencyGraph N → List N → Checked N)
      → Ends visits r
      → ((g : DependencyGraph N) (visited : List N)
          → IsSafe visited g
          → visits ≤ length visited
          → Ends (length visited) (next g visited))
      → Ends visits (and_then r next)
  unfolding Ends and_then
  and_then-Ends visits (no_cycle g visited) next (safe, le) h =
      Ends-weaken visits (length visited) (next g visited) le (h g visited safe le)
  and_then-Ends visits (cycle g visited) next h k = tt
  and_then-Ends visits out_of_fuel next h k = h

  visit_all-Ends :
      (n : ℕ) (visit : N → List N → DependencyGraph N → Checked N)
      → ((node : N) (visited : List N) (g : DependencyGraph N)
          → IsSafe visited g
          → contains node universe ≡ true
          → length universe < n + length visited
          → Ends (length visited) (visit node visited g))
      → (todo visited : List N) (g : DependencyGraph N) → IsSafe visited g
      → ((node : N) → contains node todo ≡ true → contains node universe ≡ true)
      → length universe < n + length visited
      → Ends (length visited) (visit_all visit todo visited g)
  unfolding visit_all Ends
  visit_all-Ends n visit each [] visited g safe todo_inside fuel = (safe, omega arith)
  visit_all-Ends n visit each (node ∷ rest) visited g safe todo_inside fuel =
      and_then-Ends (length visited) (visit node visited g) _
        (each node visited g safe (todo_inside node (ground (arith, ==_iff node node))) fuel)
        (λ g' visited' safe' le.
          visit_all-Ends n visit each rest visited' g' safe' (λ j h. todo_inside j (ground arith))
            (omega arith))

  visited-le :
      (visited : List N) (g : DependencyGraph N)
      → IsSafe visited g
      → length visited ≤ length universe
  visited-le visited g safe = length-le_of_subset visited universe safe.once safe.inside

  IsSafe-visit :
      (node : N) (visited : List N) (g : DependencyGraph N)
      → IsSafe visited g
      → contains node universe ≡ true
      → contains node visited ≡ false
      → IsSafe (visited ++ node ∷ []) (touch node g)
  IsSafe-visit node visited g safe inside new = record {
    shows = λ j. dependents-touch j node g ∙ safe.shows j;
    once = λ k. ground (
      arith,
      safe.once k,
      count-append k visited (node ∷ []),
      count-eq-zero node visited,
      ==_iff node k,
    );
    inside =
        λ k h. ground (arith, safe.inside k, contains-append k visited (node ∷ []), ==_iff node k);
  }

  check_from-Ends :
      (n : ℕ) (node : N) (visited : List N) (g : DependencyGraph N)
      → IsSafe visited g
      → contains node universe ≡ true
      → length universe < n + length visited
      → Ends (length visited) (check_from n node visited g)
  unfolding check_from Ends
  check_from-Ends zero node visited g safe inside fuel =
      absurd (omega (arith, visited-le visited g safe))
  check_from-Ends (suc n) node visited g safe inside fuel =
      elim (Bool-cases (contains node visited)) [
        | inl seen ↦ rw seen tt
        | inr new ↦
            let longer = length-append visited (node ∷ []) in
            rw new (
              Ends-weaken (length visited) (length (visited ++ node ∷ [])) _ (omega arith) (
                visit_all-Ends n (check_from n) (check_from-Ends n) (dependents node g)
                  (visited ++ node ∷ []) (touch node g)
                  (IsSafe-visit node visited g safe inside new)
                  (λ j h. closed node j inside (rw safe.shows at h)) (omega arith)))
      ]

module _ {N : Type 0} ⦃e : Keyed N⦄ where
  -- Every dependent in the graph is one of its nodes.
  contains-nodes :
      (a b : N) (g : DependencyGraph N)
      → contains b (dependents a g) ≡ true
      → contains b (nodes g) ≡ true
  unfolding dependents nodes Dict.get
  contains-nodes a b [] h = cc
  contains-nodes a b ((i, bs) ∷ g) h =
      ground (arith, contains-nodes a b g, contains-append b bs (nodes g))

  -- The search for cycles ends with a result: it never runs out of fuel.
  pub check_for_cycles-ends :
      (reference : N) (g : DependencyGraph N) → check_for_cycles reference g ≢ out_of_fuel
  unfolding check_for_cycles Ends
  check_for_cycles-ends reference g h =
      let universe : List N = reference ∷ nodes g in
      let ds : N → List N = λ j. dependents j g in
      let ended =
        check_from-Ends universe ds (λ a b inside k. ground (arith, contains-nodes a b g))
          (suc (suc (length (nodes g)))) reference [] g
          (record { shows = λ j. refl; once = λ k. omega arith; inside = λ k k'. cc })
          (ground (arith, ==_iff reference reference)) (omega arith) in
      rw h at ended
