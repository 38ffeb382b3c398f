-- ===== src/Scheduler/Clusters.antt =====
-- krake/krake/controller/scheduler/scheduler.py: which cloud a cluster gets. What `fetch_metrics`
-- yields for a cloud is an argument, none when the fetch failed, once for the constraints and
-- again for the ranks.
pub mod Placed
pub mod Scheduling
mod Examples
use krake.Prelude.{String, Bool, true, false, not, ◌&&◌, ◌||◌, Option, none, some, List, [], ◌∷◌}
use krake.Prelude.Tests.{if◌then◌else◌}
use krake.Prelude.Keys.{◌==◌, string_key}
use krake.Prelude.Dict.{Dict, put}
use krake.Data.Core.{ResourceRef}
use krake.Data.Constraints.{Numbers}
use krake.Scheduler.Constraints.{
  QueryResult, Candidate, Constraints, Match, fulfilled, violated, key_error, value_error,
  attribute_error, match_cluster_constraints,
}
use krake.Scheduler.Ranking.{
  cluster_place, cloud_place, Score, Chosen, chosen, select_maximum, calculate_cloud_score,
}
use krake.Scheduler.Ranking as Ranking

-- What the selection reads of a cloud: `openstack` is its type, `metrics` whether it has some.
pub record Cloud : Type 0 where
  pub ref : ResourceRef
  pub candidate : Candidate
  pub deleted : Bool
  pub openstack : Bool
  pub metrics : Bool

-- What it reads of a cluster.
pub record Unbound : Type 0 where
  pub name : String
  pub constraints : Option Constraints
  pub bound : Bool
  pub online : Bool
  pub in_failure : Bool
  pub registered : Bool
  pub auto_generated : Bool
  pub deleted : Bool

pub data Failure : Type 0 where
  no_cloud_found already_bound not_implemented raises_key_error raises_value_error : Failure
  raises_attribute_error : Failure

pub data Selection (A : Type 0) : Type 0 where
  failure : Failure → Selection A
  picked : A → Selection A

-- received_kubernetes_cluster: whether the cluster is put into the queue.
unfoldable pub accepts_cluster : Unbound → Bool
accepts_cluster cluster =
    if cluster.deleted || cluster.registered || cluster.in_failure then false else not cluster.bound

unfoldable pub with_cloud : Cloud → Match → Selection (List Cloud) → Selection (List Cloud)
with_cloud c fulfilled (picked cs) = picked (c ∷ cs)
with_cloud c fulfilled (failure f) = failure f
with_cloud c violated rest = rest
with_cloud c key_error rest = failure raises_key_error
with_cloud c value_error rest = failure raises_value_error
with_cloud c attribute_error rest = failure raises_attribute_error

unfoldable pub has_metrics : List Cloud → List Cloud
has_metrics [] = []
has_metrics (c ∷ cs) = let rest = has_metrics cs in if c.metrics then c ∷ rest else rest

module _ {N : Type 0} (ops : Numbers N) (choice : List (Score N) → Score N)
    (fetch fetch_again : Cloud → Option (List (QueryResult N))) where
  fetched_metrics : Cloud → Dict String (List (QueryResult N)) → Dict String (List (QueryResult N))
  unfolding put
  fetched_metrics c fetched = elim (fetch c) [
    | none ↦ fetched
    | some ms ↦ put c.candidate.name ms fetched
  ]

  -- The loop over all clouds, those that are deleted too; `none` for the NotImplementedError.
  unfoldable pub fetch_clouds :
      List Cloud → Dict String (List (QueryResult N)) → Option (Dict String (List (QueryResult N)))
  unfolding fetched_metrics
  fetch_clouds [] fetched = some fetched
  fetch_clouds (c ∷ cs) fetched =
      let rest = fetch_clouds cs (if c.metrics then fetched_metrics c fetched else fetched) in
      if c.openstack then rest else none

  unfoldable pub matching_clouds :
      Option Constraints → Dict String (List (QueryResult N)) → List Cloud → Selection (List Cloud)
  unfolding with_cloud
  matching_clouds k fetched [] = picked []
  matching_clouds k fetched (c ∷ cs) =
      let rest = matching_clouds k fetched cs in
      if c.deleted
      then rest
      else with_cloud c (match_cluster_constraints ops k c.candidate fetched) rest

  unfoldable pub rank_cloud :
      Cloud → Option (List (QueryResult N)) → List (Score N) → List (Score N)
  rank_cloud c none rest = rest
  rank_cloud c (some ms) rest = calculate_cloud_score ops ms c.ref ∷ rest

  unfoldable pub rank_clouds : List Cloud → List (Score N)
  unfolding rank_cloud
  rank_clouds [] = []
  rank_clouds (c ∷ cs) = rank_cloud c (fetch_again c) (rank_clouds cs)

  unfoldable pub zero_scores : List Cloud → List (Score N)
  zero_scores [] = []
  zero_scores (c ∷ cs) = calculate_cloud_score ops [] c.ref ∷ zero_scores cs

  -- `if not scores`
  unfoldable pub cloud_scores : List Cloud → List (Score N)
  unfolding has_metrics rank_clouds zero_scores
  cloud_scores matching = elim (rank_clouds (has_metrics matching)) [
    | [] ↦ zero_scores matching
    | s ∷ ss ↦ s ∷ ss
  ]

  -- A score of a cluster has no attribute `cloud`.
  unfoldable pub cloud_of : Chosen (Score N) → Selection ResourceRef
  cloud_of (chosen s) = elim s.place [
    | cloud_place r ↦ picked r
    | cluster_place r ↦ failure raises_attribute_error
  ]
  cloud_of Ranking.value_error = failure raises_value_error

  unfoldable pub select_matching : Selection (List Cloud) → Selection ResourceRef
  unfolding cloud_scores cloud_of
  select_matching (failure f) = failure f
  select_matching (picked []) = failure no_cloud_found
  select_matching (picked (c ∷ cs)) = cloud_of (select_maximum ops choice (cloud_scores (c ∷ cs)))

  unfoldable pub select_cloud : Unbound → List Cloud → Selection ResourceRef
  unfolding fetch_clouds matching_clouds select_matching
  select_cloud cluster clouds = elim (fetch_clouds clouds []) [
    | none ↦ failure not_implemented
    | some fetched ↦ select_matching (matching_clouds cluster.constraints fetched clouds)
  ]
