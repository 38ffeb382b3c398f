-- ===== src/Scheduler/Ranking/Examples.antt =====
-- The selection among a few scores.
use krake.Prelude.{ℕ, String, ◌≡◌, ◌↔◌, inl, refl, some, List, [], ◌∷◌}
use krake.Prelude.Lists.{All}
use krake.Data.Core.{ref_key}
use krake.Data.Constraints.Naturals.{naturals}
use krake.Scheduler.Ranking.{
  Place, cluster_place, Score, chosen, select_maximum, max_score, max_from, greater, maxima,
  preferred, clusters_of,
}
use krake.Scheduler.Ranking.Order.{naturals-LinearOrder, In, Beaten}
use krake.Scheduler.Ranking.Maximum.{Picks, select_maximum_iff}

abbrev place_of : String → Place
place_of name =
    cluster_place
      (record { api = "kubernetes"; kind = "Cluster"; name = name; namespace = some "team" })

abbrev low : Score ℕ
low = record { score = 1; place = place_of "small" }

abbrev high : Score ℕ
high = record { score = 3; place = place_of "large" }

abbrev tied : Score ℕ
tied = record { score = 3; place = place_of "other" }

-- The first of the list.
abbrev first : List (Score ℕ) → Score ℕ
first [] = low
first (s ∷ ss) = s

first-Picks : Picks naturals naturals-LinearOrder first
first-Picks s ss = inl refl

selects-high : select_maximum naturals first (low ∷ high ∷ []) ≡ chosen high
unfolding select_maximum max_score max_from greater maxima preferred clusters_of
selects-high = refl

-- The last of the list.
abbrev last : List (Score ℕ) → Score ℕ
last [] = low
last (s ∷ []) = s
last (s ∷ t ∷ ss) = last (t ∷ ss)

-- Two clusters tie, and each of them can be selected.
selects-first : select_maximum naturals first (low ∷ high ∷ tied ∷ []) ≡ chosen high
unfolding select_maximum max_score max_from greater maxima preferred clusters_of
selects-first = refl

selects-last : select_maximum naturals last (low ∷ high ∷ tied ∷ []) ≡ chosen tied
unfolding select_maximum max_score max_from greater maxima preferred clusters_of
selects-last = refl

select_maximum_iff_example :
    ((choice : List (Score ℕ) → Score ℕ) × Picks naturals naturals-LinearOrder choice
      × (select_maximum naturals choice (low ∷ high ∷ tied ∷ []) ≡ chosen tied))
    ↔ (In tied (low ∷ high ∷ tied ∷ [])
        × All (Beaten naturals naturals-LinearOrder tied) (low ∷ high ∷ tied ∷ []))
select_maximum_iff_example =
    select_maximum_iff naturals naturals-LinearOrder (low ∷ high ∷ tied ∷ []) tied
