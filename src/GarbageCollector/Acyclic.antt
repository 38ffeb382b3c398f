-- ===== src/GarbageCollector/Acyclic.antt =====
-- The collector's graph never holds a cycle: what the handlers add is searched for cycles, and
-- the nodes of a cycle are taken out.
use krake.Prelude.{◌≡◌, ◌⊎◌, inl, inr, subst, List}
use krake.Prelude.Keys.{Keyed}
use krake.DependencyGraph.Cycles.{Edge, DependsOn, direct, over}

module _ {N : Type 0} ⦃e : Keyed N⦄ where
  abbrev pub IsAcyclic : (N → List N) → Type 0
  IsAcyclic ds = (node : N) → ¬ DependsOn ds node node

  -- Every edge of `new` that does not lead to `r` is one of `old`.
  abbrev pub OnlyTo : N → (N → List N) → (N → List N) → Type 0
  OnlyTo r old new = (a b : N) → Edge new b a → (b ≡ r) ⊎ Edge old b a

  DependsOn-trans :
      {ds : N → List N} {c b a : N} → DependsOn ds b a → DependsOn ds c b → DependsOn ds c a
  DependsOn-trans (direct h) k = over k h
  DependsOn-trans (over h i) k = over (DependsOn-trans h k) i

  -- A path in `new` is one in `old`, or it goes through `r`.
  through :
      (r : N) (old new : N → List N)
      → OnlyTo r old new
      → {b a : N} → DependsOn new b a
      → DependsOn old b a ⊎ (DependsOn new r a × ((b ≡ r) ⊎ DependsOn new b r))
  through r old new only {b} {a} (direct h) = elim (only a b h) [
    | inl same ↦ inr (direct (rw same at h), inl same)
    | inr kept ↦ inl (direct kept)
  ]
  through r old new only {b} {a} (over {c = c} h k) = elim (through r old new only h) [
    | inl path ↦ elim (only a c k) [
      | inl same ↦ inr (direct (rw same at k), inr (rw same at h))
      | inr kept ↦ inl (over path kept)
    ]
    | inr (above, below) ↦ inr (over above k, below)
  ]

  -- A graph that gains edges to `r` alone, and in which `r` does not depend on itself, stays
  -- acyclic.
  pub IsAcyclic-root :
      (r : N) (old new : N → List N)
      → OnlyTo r old new
      → IsAcyclic old
      → ¬ DependsOn new r r
      → IsAcyclic new
  IsAcyclic-root r old new only acyclic root node h = elim (through r old new only h) [
    | inl path ↦ acyclic node path
    | inr (above, below) ↦ elim below [
      | inl same ↦ root (subst (DependsOn new r) same above)
      | inr path ↦ root (DependsOn-trans path above)
    ]
  ]

  -- Fewer edges make no cycle.
  pub DependsOn-fewer :
      (old new : N → List N)
      → ((a b : N) → Edge new b a → Edge old b a)
      → {b a : N} → DependsOn new b a
      → DependsOn old b a
  DependsOn-fewer old new fewer {b} {a} (direct h) = direct (fewer a b h)
  DependsOn-fewer old new fewer {b} {a} (over {c = c} h k) =
      over (DependsOn-fewer old new fewer h) (fewer a c k)
