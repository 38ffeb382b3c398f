-- ===== src/DependencyGraph/Examples.antt =====
-- Small dependency graphs, and the theorems at concrete inputs.
use krake.Prelude.{◌≢◌, ℕ, ◌<◌, ◌≡◌, refl, true, false, [], ◌∷◌, arith, inl}
use krake.Prelude.Keys.{number_key, contains}
use krake.Prelude.Dict
use krake.DependencyGraph.{
  DependencyGraph, touch, add_owner, nodes, remove_everywhere, no_cycle, out_of_fuel, cycle,
  dependents, check_for_cycles, check_from, add_resource, add_owners, delete, update_resource,
  replace_owners,
}
use krake.DependencyGraph.Fuel.{check_for_cycles-ends}
use krake.DependencyGraph.Edges.{IsSimple, contains-add_owners, contains-delete}
use krake.DependencyGraph.Cycles.{DependsOn, direct, over, no_cycle_sound}
use krake.DependencyGraph.Reports.{RaisesCycle, shared_dependent_reported}

program : Unit {0}
unfolding dependents touch add_owner nodes remove_everywhere check_from check_for_cycles
    add_resource delete replace_owners update_resource Dict.get Dict.put Dict.remove Dict.has
program = tt

-- 0 is a dependency of 1 and of 2, which are dependencies of 3.
abbrev diamond : DependencyGraph ℕ
diamond = (0, 1 ∷ 2 ∷ []) ∷ (1, 3 ∷ []) ∷ (2, 3 ∷ []) ∷ (3, []) ∷ []

abbrev loop : DependencyGraph ℕ
loop = (0, 1 ∷ []) ∷ (1, 0 ∷ []) ∷ []

-- The graph that the resources make as they are received one by one: no cycle is reported.
diamond_built :
    add_resource 3 (1 ∷ 2 ∷ []) true ((0, 1 ∷ 2 ∷ []) ∷ (1, []) ∷ (2, []) ∷ [])
    ≡ no_cycle diamond (3 ∷ [])
unfolding program
diamond_built = refl

-- An update of 0 that changes nothing is then taken for a cycle.
diamond_updated :
    update_resource 0 [] diamond
    ≡ cycle ((1, 3 ∷ []) ∷ (2, 3 ∷ []) ∷ (3, []) ∷ (0, 1 ∷ 2 ∷ []) ∷ []) (0 ∷ 1 ∷ 3 ∷ 2 ∷ [])
unfolding program
diamond_updated = refl

diamond-rank : (a b : ℕ) → contains b (dependents a diamond) ≡ true → a < b
unfolding program
diamond-rank a b h = ground arith

diamond-DependsOn : {b a : ℕ} → DependsOn (λ j. dependents j diamond) b a → a < b
diamond-DependsOn {b} {a} (direct h) = diamond-rank a b h
diamond-DependsOn {a = a} (over {c = c} h k) =
    omega (arith, diamond-rank a c k, diamond-DependsOn h)

diamond_acyclic : (a : ℕ) → ¬ DependsOn (λ j. dependents j diamond) a a
diamond_acyclic a h = omega (arith, diamond-DependsOn h)

shared_dependent_reported_example : RaisesCycle (check_for_cycles 0 diamond)
unfolding program
shared_dependent_reported_example =
    shared_dependent_reported 0 1 2 3 diamond (omega arith) refl refl refl refl

no_cycle_sound_example : ¬ DependsOn (λ j. dependents j diamond) 1 1
unfolding program
no_cycle_sound_example = no_cycle_sound 5 1 diamond diamond (1 ∷ 3 ∷ []) 1 refl (inl refl)

diamond-IsSimple : IsSimple diamond
unfolding program
diamond-IsSimple = record { once = λ j k. ground arith }

contains-add_owners_example : contains 3 (dependents 0 (add_owners 3 (0 ∷ []) diamond)) ≡ true
unfolding program
contains-add_owners_example = contains-add_owners 0 3 3 (0 ∷ []) diamond

contains-delete_example : contains 3 (dependents 1 (delete 3 diamond)) ≡ false
contains-delete_example = contains-delete 1 3 3 diamond diamond-IsSimple

check_for_cycles-ends_example : check_for_cycles 0 loop ≢ out_of_fuel
check_for_cycles-ends_example = check_for_cycles-ends 0 loop
