-- ===== src/Scheduler/Constraints/Examples.antt =====
-- Constraints of an application on one cluster, with natural numbers for weights.
use krake.Prelude.{ℕ, String, ◌≡◌, ◌↔◌, refl, true, some, List, [], ◌∷◌}
use krake.Prelude.Keys.{string_key}
use krake.Prelude.Lists.{All}
use krake.Prelude.Dict.{Dict, get}
use krake.Data.Constraints.{equal_constraint, match_label, greater_than}
use krake.Data.Constraints.Naturals.{naturals}
use krake.Scheduler.Constraints.{
  QueryResult, Candidate, Constraints, fulfilled, match_application_constraints,
}
use krake.Scheduler.Constraints.Fulfilled.{
  HasResource, MetricHolds, match_application_constraints_iff,
}

abbrev cluster : Candidate
cluster = record {
  name = "minikube";
  labels = ("location", "DE") ∷ [];
  custom_resources = some ("crontabs" ∷ []);
}

abbrev loaded : Dict String (List (QueryResult ℕ))
loaded = ("minikube", record { metric = "load"; weight = 2; value = 3 } ∷ []) ∷ []

abbrev demands : Constraints
demands = record {
  labels = equal_constraint "location" "DE" ∷ [];
  custom_resources = "crontabs" ∷ [];
  metrics = record { comparison = greater_than; metric = "load"; value = "5" } ∷ [];
}

match_application_constraints_iff_example :
    (match_application_constraints naturals (some demands) cluster loaded ≡ fulfilled) ↔ (
      All (λ l. match_label l cluster.labels ≡ true) demands.labels
      × All (HasResource cluster) demands.custom_resources
      × All (MetricHolds naturals cluster loaded) demands.metrics)
match_application_constraints_iff_example =
    match_application_constraints_iff naturals demands cluster loaded

in-germany : match_label (equal_constraint "location" "DE") cluster.labels ≡ true
unfolding match_label get
in-germany = refl
