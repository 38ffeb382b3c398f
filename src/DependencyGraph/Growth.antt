-- ===== src/DependencyGraph/Growth.antt =====
-- The search for cycles keeps every dependent, and only adds to the visited nodes, also where it
-- ends with an exception.
use krake.Prelude.{ℕ, zero, suc, ◌≡◌, refl, ◌∙◌, true, List, [], ◌∷◌, ◌++◌, arith, inl, inr}
use krake.Prelude.Tests.{Bool-cases}
use krake.Prelude.Lists.{length}
use krake.Prelude.Keys.{Keyed, contains, contains-append}
use krake.DependencyGraph.{
  DependencyGraph, Checked, no_cycle, cycle, out_of_fuel, dependents, touch, and_then, visit_all,
  check_from, nodes, check_for_cycles,
}
use krake.DependencyGraph.Edges.{dependents-touch}
use krake.DependencyGraph.Cycles.{Shows}

abbrev Includes : {N : Type 0} → ⦃e : Keyed N⦄ → List N → List N → Type 0
Includes {N} before after = (x : N) → contains x before ≡ true → contains x after ≡ true

module _ {N : Type 0} ⦃e : Keyed N⦄ where
  abbrev pub Keeps : (N → List N) → List N → Checked N → Type 0
  Keeps ds before (no_cycle g after) = Shows ds g × Includes before after
  Keeps ds before (cycle g after) = Shows ds g × Includes before after
  Keeps ds before out_of_fuel = Unit

  Keeps-weaken :
      (ds : N → List N) (before middle : List N) (r : Checked N)
      → Includes before middle
      → Keeps ds middle r
      → Keeps ds before r
  Keeps-weaken ds before middle (no_cycle g after) h (shows, k) = (shows, λ x i. k x (h x i))
  Keeps-weaken ds before middle (cycle g after) h (shows, k) = (shows, λ x i. k x (h x i))
  Keeps-weaken ds before middle out_of_fuel h k = tt

  module _ (ds : N → List N) where
    and_then-Keeps :
        (before : List N) (r : Checked N) (next : DependencyGraph N → List N → Checked N)
        → Keeps ds before r
        → ((g : DependencyGraph N) (middle : List N) → Shows ds g → Keeps ds middle (next g middle))
        → Keeps ds before (and_then r next)
    unfolding and_then
    and_then-Keeps before (no_cycle g middle) next (shows, h) k =
        Keeps-weaken ds before middle (next g middle) h (k g middle shows)
    and_then-Keeps before (cycle g middle) next h k = h
    and_then-Keeps before out_of_fuel next h k = tt

    visit_all-Keeps :
        (visit : N → List N → DependencyGraph N → Checked N)
        → ((node : N) (before : List N) (g : DependencyGraph N)
            → Shows ds g
            → Keeps ds before (visit node before g))
        → (todo before : List N) (g : DependencyGraph N) → Shows ds g
        → Keeps ds before (visit_all visit todo before g)
    unfolding visit_all
    visit_all-Keeps visit each [] before g shows = (shows, λ x i. i)
    visit_all-Keeps visit each (node ∷ rest) before g shows =
        and_then-Keeps before (visit node before g) _ (each node before g shows)
          (λ g' middle shows'. visit_all-Keeps visit each rest middle g' shows')

    after_touch : (node : N) (g : DependencyGraph N) → Shows ds g → Shows ds (touch node g)
    after_touch node g shows j = dependents-touch j node g ∙ shows j

    check_from-Keeps :
        (n : ℕ) (node : N) (before : List N) (g : DependencyGraph N)
        → Shows ds g
        → Keeps ds before (check_from n node before g)
    unfolding check_from
    check_from-Keeps zero node before g shows = tt
    check_from-Keeps (suc n) node before g shows = elim (Bool-cases (contains node before)) [
      | inl seen ↦ rw seen (shows, λ x i. i)
      | inr new ↦ rw new (
          Keeps-weaken ds before (before ++ node ∷ []) _
            (λ x i. ground (arith, contains-append x before (node ∷ [])))
            (visit_all-Keeps (check_from n) (check_from-Keeps n) (dependents node g) _ _
              (after_touch node g shows)))
    ]

  -- The visited nodes of a search, reported with an exception or not, contain its start.
  pub check_for_cycles-Keeps :
      (reference : N) (g : DependencyGraph N)
      → Keeps (λ j. dependents j g) (reference ∷ []) (check_for_cycles reference g)
  unfolding check_for_cycles check_from
  check_for_cycles-Keeps reference g =
      let ds : N → List N = λ j. dependents j g in
      visit_all-Keeps ds (check_from (suc (length (nodes g))))
        (check_from-Keeps ds (suc (length (nodes g)))) (dependents reference g) (reference ∷ []) _
        (after_touch ds reference g (λ j. refl))
