-- ===== src/DependencyGraph/Cycles.antt =====
-- What the search for cycles finds out. A node with its dependents, their dependents and so on is
-- acyclic if it is accessible by the relation "is a direct dependent of".
use mathlib.Core.WellFounded.{Acc}
use krake.Prelude.{
  ℕ, zero, suc, ◌≡◌, refl, sym, subst, ◌∙◌, true, List, [], ◌∷◌, arith, ◌⊎◌, inl, inr,
}
use krake.Prelude.Tests.{Bool-cases}
use krake.Prelude.Keys.{Keyed, ◌==◌, ==_iff, contains}
use krake.DependencyGraph.{
  DependencyGraph, Checked, no_cycle, cycle, out_of_fuel, dependents, touch, and_then, visit_all,
  check_from,
}
use krake.DependencyGraph.Edges.{dependents-touch}

module _ {N : Type 0} ⦃e : Keyed N⦄ where
  -- `b` is a direct dependent of `a`.
  abbrev pub Edge : (N → List N) → N → N → Type 0
  Edge ds b a = contains b (ds a) ≡ true

  -- `b` depends on `a`, over one owner or more.
  pub data DependsOn (ds : N → List N) (b : N) : N → Type 0 where
    direct : {a : N} → Edge ds b a → DependsOn ds b a
    over : {a c : N} → DependsOn ds b c → Edge ds c a → DependsOn ds b a

  -- The dependents of every node of the graph are those of `ds`.
  abbrev pub Shows : (N → List N) → DependencyGraph N → Type 0
  Shows ds g = (node : N) → dependents node g ≡ ds node

  -- What a search over `todo` that reports no cycle has shown.
  abbrev Finds : (N → List N) → (N → Type 0) → Checked N → Type 0
  Finds ds P (no_cycle g visited) = Shows ds g × ((node : N) → P node)
  Finds ds P _ = Unit

  touch-Shows :
      (ds : N → List N) (node : N) (g : DependencyGraph N) → Shows ds g → Shows ds (touch node g)
  touch-Shows ds node g h j = dependents-touch j node g ∙ h j

  module _ (ds : N → List N) where
    abbrev IsTree : N → Type 0
    IsTree = Acc (Edge ds)

    abbrev FindsTrees : List N → Checked N → Type 0
    FindsTrees todo = Finds ds (λ node. contains node todo ≡ true → IsTree node)

    FindsTrees-cons :
        (node : N) (rest : List N) (r : Checked N)
        → IsTree node
        → FindsTrees rest r
        → FindsTrees (node ∷ rest) r
    FindsTrees-cons node rest (no_cycle g visited) tree (shows, trees) = (
      shows,
      λ j h. elim (Bool-cases (node == j)) [
        | inl same ↦ rw (← (==_iff node j).0 same) tree
        | inr other ↦ trees j (ground arith)
      ],
    )
    FindsTrees-cons node rest (cycle g visited) tree h = tt
    FindsTrees-cons node rest out_of_fuel tree h = tt

    and_then-trees :
        (node : N) (rest : List N) (r : Checked N) (next : DependencyGraph N → List N → Checked N)
        → FindsTrees (node ∷ []) r
        → ((g : DependencyGraph N) (visited : List N)
            → Shows ds g
            → FindsTrees rest (next g visited))
        → FindsTrees (node ∷ rest) (and_then r next)
    unfolding and_then
    and_then-trees node rest (no_cycle g visited) next (shows, trees) h =
        FindsTrees-cons node rest (next g visited) (trees node (ground (arith, ==_iff node node)))
          (h g visited shows)
    and_then-trees node rest (cycle g visited) next h k = tt
    and_then-trees node rest out_of_fuel next h k = tt

    FindsTrees-parent :
        (node : N) (r : Checked N) → FindsTrees (ds node) r → FindsTrees (node ∷ []) r
    FindsTrees-parent node (no_cycle g visited) (shows, trees) =
        (shows, λ j h. rw (← (==_iff node j).0 (ground arith)) (Acc.intro node trees))
    FindsTrees-parent node (cycle g visited) h = tt
    FindsTrees-parent node out_of_fuel h = tt

    visit_all-trees :
        (visit : N → List N → DependencyGraph N → Checked N)
        → ((node : N) (visited : List N) (g : DependencyGraph N)
            → Shows ds g
            → FindsTrees (node ∷ []) (visit node visited g))
        → (todo visited : List N) (g : DependencyGraph N) → Shows ds g
        → FindsTrees todo (visit_all visit todo visited g)
    unfolding visit_all
    visit_all-trees visit each [] visited g shows = (shows, λ node h. cc)
    visit_all-trees visit each (node ∷ rest) visited g shows =
        and_then-trees node rest (visit node visited g) _ (each node visited g shows)
          (λ g' visited' shows'. visit_all-trees visit each rest visited' g' shows')

    check_from-trees :
        (n : ℕ) (node : N) (visited : List N) (g : DependencyGraph N)
        → Shows ds g
        → FindsTrees (node ∷ []) (check_from n node visited g)
    unfolding check_from
    check_from-trees zero node visited g shows = tt
    check_from-trees (suc n) node visited g shows = elim (Bool-cases (contains node visited)) [
      | inl seen ↦ rw seen tt
      | inr new ↦
          rw (new, shows node)
            (FindsTrees-parent node _ (
              visit_all-trees (check_from n) (check_from-trees n) (ds node) _ _
                (touch-Shows ds node g shows)))
    ]

  -- A search that reports no cycle has seen a tree.
  pub IsTree-of-no_cycle :
      (n : ℕ) (node : N) (visited : List N) (g : DependencyGraph N) {g' : DependencyGraph N}
      {visited' : List N}
      → check_from n node visited g ≡ no_cycle g' visited'
      → IsTree (λ j. dependents j g) node
  IsTree-of-no_cycle n node visited g h =
      let found = check_from-trees (λ j. dependents j g) n node visited g (λ j. refl) in
      (rw h at found).1 node (ground (arith, ==_iff node node))

  pub DependsOn-extend :
      {ds : N → List N} {b a c : N} → DependsOn ds b a → Edge ds c b → DependsOn ds c a
  DependsOn-extend (direct h) k = over (direct k) h
  DependsOn-extend (over h i) k = over (DependsOn-extend h k) i

  IsTree-dependent : (ds : N → List N) {a b : N} → IsTree ds a → DependsOn ds b a → IsTree ds b
  IsTree-dependent ds (Acc.intro _ smaller) (direct h) = smaller _ h
  IsTree-dependent ds (Acc.intro _ smaller) (over {c = c} h k) = IsTree-dependent ds (smaller c k) h

  IsTree-acyclic : (ds : N → List N) {a : N} (b : N) → IsTree ds a → b ≡ a → ¬ DependsOn ds b a
  IsTree-acyclic ds b (Acc.intro _ smaller) same (direct h) =
      IsTree-acyclic ds b (smaller b h) refl (direct (subst (Edge ds b) (sym same) h))
  IsTree-acyclic ds b (Acc.intro _ smaller) same (over {c = c} h k) =
      IsTree-acyclic ds c (smaller c k) refl (DependsOn-extend h (rw (← same) at k))

  -- If the search reports no cycle, then neither the resource nor anything that depends on it
  -- depends on itself.
  pub no_cycle_sound :
      (n : ℕ) (reference : N) (g g' : DependencyGraph N) (visited : List N) (node : N)
      → check_from n reference [] g ≡ no_cycle g' visited
      → (node ≡ reference) ⊎ DependsOn (λ j. dependents j g) node reference
      → ¬ DependsOn (λ j. dependents j g) node node
  no_cycle_sound n reference g g' visited node h reached =
      let ds : N → List N = λ j. dependents j g in
      let tree = IsTree-of-no_cycle n reference [] g h in
      IsTree-acyclic ds node
        (elim reached [ inl same ↦ rw same tree | inr below ↦ IsTree-dependent ds tree below ]) refl
