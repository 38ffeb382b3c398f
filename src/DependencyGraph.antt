-- ===== src/DependencyGraph.antt =====
-- krake/krake/controller/gc.py: `DependencyGraph`, the dependents of each resource. The source's
-- nodes are resource references; here any keys serve. `_relationships` is a `defaultdict(list)`:
-- reading a missing key adds it with the empty list.
pub mod Edges
pub mod Cycles
pub mod Fuel
pub mod Reports
pub mod Growth
mod Examples
use krake.Prelude.{ℕ, zero, suc, Bool, true, false, Option, none, some, List, [], ◌∷◌, ◌++◌, map}
use krake.Prelude.Lists.{length}
use krake.Prelude.Tests.{if◌then◌else◌}
use krake.Prelude.Keys.{Keyed, ◌==◌, contains, remove_first}
use krake.Prelude.Dict
use krake.Prelude.Dict.{Dict}

abbrev pub DependencyGraph : Type 0 → Type 0
DependencyGraph N = Dict N (List N)

-- The outcome of a search for cycles: the nodes that it has visited, or DependencyCycleException
-- with the visited nodes. The graph is returned on both, since the search adds missing keys.
pub data Checked (N : Type 0) : Type 0 where
  no_cycle : DependencyGraph N → List N → Checked N
  cycle : DependencyGraph N → List N → Checked N
  out_of_fuel : Checked N

-- The outcome of `remove_resource`: `has_dependents` is ResourceWithDependentsException.
pub data Removed (N : Type 0) : Type 0 where
  removed : DependencyGraph N → Removed N
  has_dependents : DependencyGraph N → List N → Removed N

module _ {N : Type 0} ⦃e : Keyed N⦄ where
  or_empty : Option (List N) → List N
  or_empty none = []
  or_empty (some xs) = xs

  -- The value of `self._relationships[node]`.
  unfoldable pub dependents : N → DependencyGraph N → List N
  unfolding or_empty
  dependents node g = or_empty (Dict.get node g)

  -- The key that reading `self._relationships[node]` adds.
  pub touch : N → DependencyGraph N → DependencyGraph N
  touch node g = if Dict.has node g then g else Dict.put node [] g

  unfoldable pub get_direct_dependents : N → DependencyGraph N → List N × DependencyGraph N
  get_direct_dependents resource g = (dependents resource g, touch resource g)

  pub add_owner : N → N → DependencyGraph N → DependencyGraph N
  add_owner resource owner g =
      let g' = touch owner g in
      let present = dependents owner g' in
      if contains resource present then g' else Dict.put owner (present ++ resource ∷ []) g'

  -- The loop of `add_resource` over the owners.
  pub add_owners : N → List N → DependencyGraph N → DependencyGraph N
  add_owners resource [] g = g
  add_owners resource (owner ∷ owners) g = add_owners resource owners (add_owner resource owner g)

  -- An exception ends the search.
  and_then : Checked N → (DependencyGraph N → List N → Checked N) → Checked N
  and_then (no_cycle g visited) rest = rest g visited
  and_then (cycle g visited) rest = cycle g visited
  and_then out_of_fuel rest = out_of_fuel

  -- The loop of `_check_for_cycles` over the dependents.
  visit_all :
      (N → List N → DependencyGraph N → Checked N) → List N → List N → DependencyGraph N → Checked N
  unfolding and_then
  visit_all visit [] visited g = no_cycle g visited
  visit_all visit (node ∷ rest) visited g =
      and_then (visit node visited g) (λ g' visited'. visit_all visit rest visited' g')

  -- `_check_for_cycles`: the fuel bounds the depth of the recursion. `visited` is one set for
  -- the whole search.
  pub check_from : ℕ → N → List N → DependencyGraph N → Checked N
  unfolding visit_all
  check_from zero reference visited g = out_of_fuel
  check_from (suc n) reference visited g =
      if contains reference visited
      then cycle g visited
      else visit_all (check_from n) (dependents reference g) (visited ++ reference ∷ [])
          (touch reference g)

  -- Every node of the graph, as a key or as a dependent.
  pub nodes : DependencyGraph N → List N
  nodes [] = []
  nodes ((node, ds) ∷ g) = node ∷ (ds ++ nodes g)

  unfoldable pub check_for_cycles : N → DependencyGraph N → Checked N
  check_for_cycles reference g = check_from (suc (suc (length (nodes g)))) reference [] g

  unfoldable pub add_resource : N → List N → Bool → DependencyGraph N → Checked N
  unfolding add_owners
  add_resource resource owners check_cycles g =
      let g' = add_owners resource owners g in
      if check_cycles then check_for_cycles resource g' else no_cycle g' []

  -- The loop of `remove_resource` over `self._relationships.values()`.
  pub remove_everywhere : N → DependencyGraph N → DependencyGraph N
  remove_everywhere resource [] = []
  remove_everywhere resource ((node, ds) ∷ g) =
      (node, if contains resource ds then remove_first resource ds else ds)
      ∷ remove_everywhere resource g

  abbrev pub is_nil : List N → Bool
  is_nil [] = true
  is_nil (x ∷ xs) = false

  pub delete : N → DependencyGraph N → DependencyGraph N
  delete resource g = remove_everywhere resource (Dict.remove resource g)

  unfoldable pub remove_resource : N → Bool → DependencyGraph N → Removed N
  remove_resource resource check_dependents g =
      let g' = touch resource g in
      let existing = dependents resource g' in
      if check_dependents
      then (if is_nil existing then removed (delete resource g') else has_dependents g' existing)
      else removed (delete resource g')

  removed_graph : Removed N → DependencyGraph N
  removed_graph (removed g) = g
  removed_graph (has_dependents g ds) = g

  checked_graph : Checked N → DependencyGraph N → DependencyGraph N
  checked_graph (no_cycle g visited) old = g
  checked_graph (cycle g visited) old = g
  checked_graph out_of_fuel old = old

  -- `update_resource` before its search for cycles.
  pub replace_owners : N → List N → DependencyGraph N → DependencyGraph N
  unfolding get_direct_dependents add_resource remove_resource removed_graph checked_graph
  replace_owners resource owners g =
      let (ds, g₁) = get_direct_dependents resource g in
      let g₂ = removed_graph (remove_resource resource false g₁) in
      Dict.put resource ds (checked_graph (add_resource resource owners false g₂) g₂)

  unfoldable pub update_resource : N → List N → DependencyGraph N → Checked N
  update_resource resource owners g = check_for_cycles resource (replace_owners resource owners g)
