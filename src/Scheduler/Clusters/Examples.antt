-- ===== src/Scheduler/Clusters/Examples.antt =====
-- A cluster, two clouds and the properties at concrete inputs.
use krake.Prelude.{ℕ, String, ◌≡◌, inl, refl, true, false, Option, none, some, List, [], ◌∷◌}
use krake.Prelude.Keys.{string_key}
use krake.Prelude.Lists.{Any}
use krake.Prelude.Dict.{Dict}
use krake.Data.Core.{ResourceRef}
use krake.Data.Constraints.Naturals.{naturals}
use krake.Scheduler.Constraints.{QueryResult, match_cluster_constraints}
use krake.Scheduler.Ranking.{calculate_cloud_score, cloud_place, Score, select_maximum}
use krake.Scheduler.Ranking.Order.{naturals-LinearOrder}
use krake.Scheduler.Ranking.Maximum.{Picks}
use krake.Scheduler.Clusters.{
  Cloud, Unbound, with_cloud, cloud_of, select_matching, fetch_clouds, select_cloud, picked,
}
use krake.Scheduler.Clusters.Placed.{Fits, selected-Fits}
use krake.Scheduler.Clusters.Scheduling.{delete_cluster, schedule_kubernetes_cluster, used-deleted}

abbrev ref_of : String → ResourceRef
ref_of name = record {
  api = "infrastructure";
  kind = "Cloud";
  name = name;
  namespace = some "team";
}

abbrev gone : Cloud
gone = record {
  ref = ref_of "gone";
  candidate = record { name = "gone"; labels = []; custom_resources = none };
  deleted = true;
  openstack = true;
  metrics = false;
}

abbrev there : Cloud
there = record gone {
  ref = ref_of "there";
  candidate = record { name = "there"; labels = []; custom_resources = none };
  deleted = false;
}

abbrev cluster : Unbound
cluster = record {
  name = "c";
  constraints = none;
  bound = false;
  online = true;
  in_failure = false;
  registered = false;
  auto_generated = true;
  deleted = false;
}

abbrev no_metrics : Cloud → Option (List (QueryResult ℕ))
no_metrics c = none

abbrev first : List (Score ℕ) → Score ℕ
first [] = record { score = 0; place = cloud_place (ref_of "there") }
first (s ∷ ss) = s

first-Picks : Picks naturals naturals-LinearOrder first
first-Picks s ss = inl refl

selects :
    select_cloud naturals first no_metrics no_metrics cluster (gone ∷ there ∷ [])
    ≡ picked (ref_of "there")
unfolding calculate_cloud_score select_cloud select_matching select_maximum cloud_of with_cloud
    match_cluster_constraints
selects = refl

selected-Fits_example :
    (fetched : Dict String (List (QueryResult ℕ))) × (fetch_clouds naturals first no_metrics
        no_metrics
        (gone ∷ there ∷ [])
        []
      ≡ some fetched)
    × (c : Cloud) × Fits naturals naturals-LinearOrder first no_metrics no_metrics cluster
        (gone ∷ there ∷ [])
        fetched
        c
    × (c.ref ≡ ref_of "there")
selected-Fits_example =
    selected-Fits naturals naturals-LinearOrder first no_metrics no_metrics cluster
      (gone ∷ there ∷ []) (ref_of "there") first-Picks selects

used-deleted_example :
    Any
      (λ r. r ≡ delete_cluster)
      (schedule_kubernetes_cluster
        (select_cloud naturals first no_metrics no_metrics)
        cluster
        (some "d" ∷ some "c" ∷ [])
        (there ∷ [])
        []).requests
used-deleted_example =
    used-deleted (select_cloud naturals first no_metrics no_metrics) cluster "d" (some "c" ∷ [])
      (there ∷ []) [] refl refl refl refl refl (inl refl)
