-- ===== src/DependencyGraph/Reports.antt =====
-- When DependencyCycleException is raised: for every cycle below the resource, and also for two
-- dependents of the resource that share a dependent, since one set of visited nodes serves the
-- whole search.
use krake.Prelude.{
  ℕ, zero, suc, ◌≡◌, ◌≢◌, refl, ◌∙◌, true, false, List, [], ◌∷◌, ◌++◌, arith, inl, inr,
}
use krake.Prelude.Lists.{length}
use krake.Prelude.Tests.{Bool-cases}
use krake.Prelude.Keys.{Keyed, ==_iff, contains, contains-append}
use krake.DependencyGraph.{
  DependencyGraph, Checked, no_cycle, cycle, out_of_fuel, dependents, touch, and_then, visit_all,
  check_from, nodes, check_for_cycles,
}
use krake.DependencyGraph.Edges.{dependents-touch}
use krake.DependencyGraph.Cycles.{Shows}
use krake.DependencyGraph.Fuel.{check_for_cycles-ends}

-- The exception, with the graph and the visited nodes.
abbrev pub RaisesCycle : {N : Type 0} → Checked N → Type 0
RaisesCycle {N} r = (g : DependencyGraph N) × (visited : List N) × (r ≡ cycle g visited)

module _ {N : Type 0} ⦃e : Keyed N⦄ where
  Checked-cases :
      (r : Checked N)
      → r ≢ out_of_fuel
      → ((g : DependencyGraph N) (visited : List N) → r ≢ no_cycle g visited)
      → RaisesCycle r
  Checked-cases (no_cycle g visited) h k = absurd (k g visited refl)
  Checked-cases (cycle g visited) h k = (g, visited, refl)
  Checked-cases out_of_fuel h k = absurd (h refl)

  module _ (ds : N → List N) where
    -- What a search over `todo` that reports no cycle has done to the set of visited nodes.
    record Marks (todo before after : List N) : Type 0 where
      grows : (x : N) → contains x before ≡ true → contains x after ≡ true
      child_new :
          (x d : N) → contains x todo ≡ true → contains d (ds x) ≡ true → contains d before ≡ false
      child_marked :
          (x d : N) → contains x todo ≡ true → contains d (ds x) ≡ true → contains d after ≡ true
      new : (x : N) → contains x todo ≡ true → contains x before ≡ false
      marked : (x : N) → contains x todo ≡ true → contains x after ≡ true
      apart :
          (x y d : N)
          → contains x todo ≡ true
          → contains y todo ≡ true
          → contains d (ds x) ≡ true
          → contains d (ds y) ≡ true
          → x ≡ y

    MarksIn : List N → List N → Checked N → Type 0
    MarksIn todo before (no_cycle g after) = Shows ds g × Marks todo before after
    MarksIn todo before _ = Unit

    Marks-nil : (before : List N) → Marks [] before before
    Marks-nil before = record {
      grows = λ x h. h;
      child_new = λ x d h. cc;
      child_marked = λ x d h. cc;
      new = λ x h. cc;
      marked = λ x h. cc;
      apart = λ x y d h. cc;
    }

    Marks-cons :
        (node : N) (rest before middle after : List N)
        → Marks (node ∷ []) before middle
        → Marks rest middle after
        → Marks (node ∷ rest) before after
    Marks-cons node rest before middle after h k = record {
      grows = λ x i. k.grows x (h.grows x i);
      child_new =
          λ x d i j. ground (arith, h.child_new x d, k.child_new x d, h.grows d, ==_iff node x);
      child_marked = λ x d i j.
          ground (arith, h.child_marked x d, k.child_marked x d, k.grows d, ==_iff node x);
      new = λ x i. ground (arith, h.new x, k.new x, h.grows x, ==_iff node x);
      marked = λ x i. ground (arith, h.marked x, k.marked x, k.grows x, ==_iff node x);
      apart = λ x y d hx hy dx dy. ground (
        arith,
        k.apart x y d,
        h.child_marked x d,
        h.child_marked y d,
        k.child_new x d,
        k.child_new y d,
        ==_iff node x,
        ==_iff node y,
      );
    }

    Marks-parent :
        (node : N) (before after : List N)
        → contains node before ≡ false
        → Marks (ds node) (before ++ node ∷ []) after
        → Marks (node ∷ []) before after
    Marks-parent node before after fresh h = record {
      grows = λ x i. ground (arith, h.grows x, contains-append x before (node ∷ []));
      child_new =
          λ x d i j. ground (arith, h.new d, contains-append d before (node ∷ []), ==_iff node x);
      child_marked = λ x d i j. ground (arith, h.marked d, ==_iff node x);
      new = λ x i. ground (arith, ==_iff node x);
      marked =
          λ x i. ground (arith, h.grows x, contains-append x before (node ∷ []), ==_iff node x);
      apart = λ x y d hx hy dx dy. ground (arith, ==_iff node x, ==_iff node y);
    }

    and_then-MarksIn :
        (node : N) (rest before : List N) (r : Checked N)
        (next : DependencyGraph N → List N → Checked N)
        → MarksIn (node ∷ []) before r
        → ((g : DependencyGraph N) (middle : List N)
            → Shows ds g
            → MarksIn rest middle (next g middle))
        → MarksIn (node ∷ rest) before (and_then r next)
    unfolding and_then MarksIn
    and_then-MarksIn node rest before (no_cycle g middle) next (shows, h) k =
        join (next g middle) (k g middle shows)
      where
        join : (r : Checked N) → MarksIn rest middle r → MarksIn (node ∷ rest) before r
        join (no_cycle g' after) (shows', h') =
            (shows', Marks-cons node rest before middle after h h')
        join (cycle g' after) h' = tt
        join out_of_fuel h' = tt
    and_then-MarksIn node rest before (cycle g middle) next h k = tt
    and_then-MarksIn node rest before out_of_fuel next h k = tt

    visit_all-MarksIn :
        (visit : N → List N → DependencyGraph N → Checked N)
        → ((node : N) (before : List N) (g : DependencyGraph N)
            → Shows ds g
            → MarksIn (node ∷ []) before (visit node before g))
        → (todo before : List N) (g : DependencyGraph N) → Shows ds g
        → MarksIn todo before (visit_all visit todo before g)
    unfolding visit_all MarksIn
    visit_all-MarksIn visit each [] before g shows = (shows, Marks-nil before)
    visit_all-MarksIn visit each (node ∷ rest) before g shows =
        and_then-MarksIn node rest before (visit node before g) _ (each node before g shows)
          (λ g' middle shows'. visit_all-MarksIn visit each rest middle g' shows')

    parent-MarksIn :
        (node : N) (before : List N) (r : Checked N)
        → contains node before ≡ false
        → MarksIn (ds node) (before ++ node ∷ []) r
        → MarksIn (node ∷ []) before r
    unfolding MarksIn
    parent-MarksIn node before (no_cycle g after) fresh (shows, h) =
        (shows, Marks-parent node before after fresh h)
    parent-MarksIn node before (cycle g after) fresh h = tt
    parent-MarksIn node before out_of_fuel fresh h = tt

    check_from-MarksIn :
        (n : ℕ) (node : N) (before : List N) (g : DependencyGraph N)
        → Shows ds g
        → MarksIn (node ∷ []) before (check_from n node before g)
    unfolding check_from MarksIn
    check_from-MarksIn zero node before g shows = tt
    check_from-MarksIn (suc n) node before g shows = elim (Bool-cases (contains node before)) [
      | inl seen ↦ rw seen tt
      | inr fresh ↦
          rw (fresh, shows node)
            (parent-MarksIn node before _ fresh (
              visit_all-MarksIn (check_from n) (check_from-MarksIn n) (ds node) _ _
                (λ j. dependents-touch j node g ∙ shows j)))
    ]

  -- Two dependents of the resource that have a dependent in common make the search report a
  -- cycle, whether there is one or not.
  pub shared_dependent_reported :
      (reference x y d : N) (g : DependencyGraph N)
      → x ≢ y
      → contains x (dependents reference g) ≡ true
      → contains y (dependents reference g) ≡ true
      → contains d (dependents x g) ≡ true
      → contains d (dependents y g) ≡ true
      → RaisesCycle (check_for_cycles reference g)
  unfolding check_for_cycles check_from MarksIn
  shared_dependent_reported reference x y d g distinct hx hy dx dy =
      let ds : N → List N = λ j. dependents j g in
      Checked-cases _ (check_for_cycles-ends reference g) (λ g' visited h.
        let found =
          visit_all-MarksIn ds (check_from (suc (length (nodes g))))
            (check_from-MarksIn ds (suc (length (nodes g)))) (ds reference) (reference ∷ [])
            (touch reference g) (λ j. dependents-touch j reference g) in
        distinct ((rw h at found).1.apart x y d hx hy dx dy))
