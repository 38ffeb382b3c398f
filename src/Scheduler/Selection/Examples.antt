-- ===== src/Scheduler/Selection/Examples.antt =====
-- The selection between an online and an offline cluster.
use krake.Prelude.{ℕ, String, ◌≡◌, inl, refl, Bool, true, false, Option, none, some, List, [], ◌∷◌}
use krake.Data.Core.{ResourceRef, ref_key}
use krake.Data.Constraints.Naturals.{naturals}
use krake.Scheduler.Constraints.{QueryResult, Candidate, match_application_constraints}
use krake.Scheduler.Ranking.{cluster_place, Score}
use krake.Scheduler.Ranking.Order.{naturals-LinearOrder}
use krake.Scheduler.Ranking.Maximum.{Picks}
use krake.Scheduler.Selection.{
  Cluster, Wanted, selected, with_match, select_scheduling_location,
  fetch_kubernetes_cluster_scores, score_matching,
}
use krake.Scheduler.Selection.Eligible.{Eligible, selected-Eligible}

abbrev ref_of : String → ResourceRef
ref_of name = record { api = "kubernetes"; kind = "Cluster"; name = name; namespace = some "team" }

abbrev online : Cluster
online = record { name = "up"; ref = ref_of "up"; deleted = none; online = true }

abbrev offline : Cluster
offline = record { name = "down"; ref = ref_of "down"; deleted = none; online = false }

abbrev candidate : Cluster → Candidate
candidate c = record { name = c.name; labels = []; custom_resources = some [] }

abbrev no_metrics : Cluster → Option (List (QueryResult ℕ))
no_metrics c = none

-- An application that runs on the cluster since 100.
abbrev running : Bool → Wanted
running auto = record {
  constraints = none;
  auto_cluster_create = auto;
  scheduled_to = some (ref_of "up");
  scheduled = 100;
}

abbrev first : List (Score ℕ) → Score ℕ
first [] = record { score = 0; place = cluster_place (ref_of "up") }
first (s ∷ ss) = s

first-Picks : Picks naturals naturals-LinearOrder first
first-Picks s ss = inl refl

stays-there :
    select_scheduling_location naturals candidate no_metrics no_metrics first 1 120 60
      (running false)
      (offline ∷ online ∷ [])
      []
    ≡ selected (cluster_place (ref_of "up"))
unfolding select_scheduling_location fetch_kubernetes_cluster_scores score_matching with_match
    match_application_constraints
stays-there = refl

selected-Eligible_example :
    Eligible naturals naturals-LinearOrder candidate no_metrics no_metrics
      (running false)
      (offline ∷ online ∷ [])
      (ref_of "up")
selected-Eligible_example =
    selected-Eligible naturals naturals-LinearOrder candidate no_metrics no_metrics first 1 120 60
      (running false) (offline ∷ online ∷ []) [] (ref_of "up") first-Picks tt stays-there
