-- ===== src/Scheduler/Selection.antt =====
-- krake/krake/controller/scheduler/scheduler.py: which cluster or cloud an application may get.
-- What `fetch_metrics` yields for a cluster is an argument, none when the fetch failed, once for
-- the constraints and again for the ranks; so are the values that a cluster inherits, and the
-- scores of the clouds.
pub mod Scored
pub mod Eligible
mod Examples
use krake.Prelude.{
  ℕ, ◌+◌, String, ◌≡◌, Bool, true, false, not, ◌&&◌, Option, none, some, List, [], ◌∷◌, ◌++◌,
}
use krake.Prelude.Tests.{if◌then◌else◌, ltb}
use krake.Prelude.Keys.{◌==◌, string_key}
use krake.Prelude.Dict.{Dict, get, has, put}
use krake.Data.Core.{ResourceRef, ref_key}
use krake.Data.Constraints.{Numbers}
use krake.Scheduler.Constraints.{
  QueryResult, Candidate, Constraints, Match, fulfilled, violated, key_error, value_error,
  attribute_error, match_application_constraints,
}
use krake.Scheduler.Ranking.{
  Place, cluster_place, cloud_place, Score, Chosen, chosen, select_maximum, calculate_cloud_score,
  calculate_kubernetes_cluster_score,
}
use krake.Scheduler.Ranking as Ranking

-- What the selection reads of a cluster.
pub record Cluster : Type 0 where
  pub name : String
  pub ref : ResourceRef
  pub deleted : Option ℕ
  pub online : Bool

-- What it reads of an application.
pub record Wanted : Type 0 where
  pub constraints : Option Constraints
  pub auto_cluster_create : Bool
  pub scheduled_to : Option ResourceRef
  pub scheduled : ℕ

-- What a selection ends with: a place, NoClusterFound, or an exception that is no ControllerError.
pub data Selected : Type 0 where
  selected : Place → Selected
  no_cluster_found : Selected
  raises_key_error raises_value_error raises_attribute_error : Selected

-- The clusters that match, or the exception of the first evaluation that raises.
pub data Matching : Type 0 where
  matching : List Cluster → Matching
  match_key_error match_value_error match_attribute_error : Matching

-- What `fetch_kubernetes_cluster_scores` gives back: the current cluster, or scores.
pub data ClusterScores (N : Type 0) : Type 0 where
  stays : Cluster → ClusterScores N
  scores : List (Score N) → ClusterScores N
  nothing_matches : ClusterScores N
  scores_key_error scores_value_error scores_attribute_error : ClusterScores N

exists_online : Cluster → Bool
exists_online c = elim c.deleted [ none ↦ c.online | some t ↦ false ]

pub existing : List Cluster → List Cluster
unfolding exists_online
existing [] = []
existing (c ∷ cs) = let rest = existing cs in if exists_online c then c ∷ rest else rest

with_match : Cluster → Match → Matching → Matching
with_match c fulfilled (matching cs) = matching (c ∷ cs)
with_match c fulfilled match_key_error = match_key_error
with_match c fulfilled match_value_error = match_value_error
with_match c fulfilled match_attribute_error = match_attribute_error
with_match c violated rest = rest
with_match c key_error rest = match_key_error
with_match c value_error rest = match_value_error
with_match c attribute_error rest = match_attribute_error

is_current : Option ResourceRef → Cluster → Bool
is_current none c = false
is_current (some r) c = c.ref == r

no_clusters : List Cluster → Bool
no_clusters [] = true
no_clusters (c ∷ cs) = false

-- `next((c for c in matching if ...), None)`
current_of : Option ResourceRef → List Cluster → Option Cluster
unfolding is_current
current_of scheduled_to [] = none
current_of scheduled_to (c ∷ cs) =
    if is_current scheduled_to c then some c else current_of scheduled_to cs

module _ {N : Type 0} (ops : Numbers N) (inherited : Cluster → Candidate)
    (fetch fetch_again : Cluster → Option (List (QueryResult N))) where
  -- The metrics of the clusters for which the fetch succeeded, by the cluster's name.
  pub fetch_all :
      List Cluster → Dict String (List (QueryResult N)) → Dict String (List (QueryResult N))
  unfolding put
  fetch_all [] fetched = fetched
  fetch_all (c ∷ cs) fetched =
      fetch_all cs (elim (fetch c) [ none ↦ fetched | some ms ↦ put c.name ms fetched ])

  pub matching_clusters :
      Option Constraints → Dict String (List (QueryResult N)) → List Cluster → Matching
  unfolding with_match
  matching_clusters k fetched [] = matching []
  matching_clusters k fetched (c ∷ cs) =
      with_match c (match_application_constraints ops k (inherited c) fetched)
        (matching_clusters k fetched cs)

  with_metrics : Dict String (List (QueryResult N)) → List Cluster → List Cluster
  unfolding has
  with_metrics fetched [] = []
  with_metrics fetched (c ∷ cs) =
      let rest = with_metrics fetched cs in if has c.name fetched then c ∷ rest else rest

  rank_one :
      N
      → Option ResourceRef
      → Cluster
      → Option (List (QueryResult N))
      → List (Score N)
      → List (Score N)
  rank_one stickiness scheduled_to c none rest = rest
  rank_one stickiness scheduled_to c (some ms) rest =
      calculate_kubernetes_cluster_score ops stickiness ms c.ref scheduled_to ∷ rest

  -- A cluster whose metrics cannot be fetched is left out.
  rank_clusters : N → Option ResourceRef → List Cluster → List (Score N)
  unfolding rank_one
  rank_clusters stickiness scheduled_to [] = []
  rank_clusters stickiness scheduled_to (c ∷ cs) =
      rank_one stickiness scheduled_to c (fetch_again c) (rank_clusters stickiness scheduled_to cs)

  rank_without_metrics : N → Option ResourceRef → List Cluster → List (Score N)
  rank_without_metrics stickiness scheduled_to [] = []
  rank_without_metrics stickiness scheduled_to (c ∷ cs) =
      calculate_kubernetes_cluster_score ops stickiness [] c.ref scheduled_to
      ∷ rank_without_metrics stickiness scheduled_to cs

  -- `if not scores`
  or_else : List (Score N) → List (Score N) → List (Score N)
  or_else [] others = others
  or_else (s ∷ ss) others = s ∷ ss

  pub score_matching :
      N → ℕ → ℕ → Wanted → Dict String (List (QueryResult N)) → Matching → ClusterScores N
  unfolding no_clusters current_of with_metrics rank_clusters rank_without_metrics or_else
  score_matching stickiness now reschedule_after app fetched match_key_error = scores_key_error
  score_matching stickiness now reschedule_after app fetched match_value_error = scores_value_error
  score_matching stickiness now reschedule_after app fetched match_attribute_error =
      scores_attribute_error
  score_matching stickiness now reschedule_after app fetched (matching cs) =
      let ranked = scores (
        or_else (rank_clusters stickiness app.scheduled_to (with_metrics fetched cs))
          (rank_without_metrics stickiness app.scheduled_to cs)) in
      if no_clusters cs && not app.auto_cluster_create
      then nothing_matches
      else elim (current_of app.scheduled_to cs) [
        | none ↦ ranked
        | some c ↦ if ltb now (app.scheduled + reschedule_after) then stays c else ranked
      ]

  fetch_kubernetes_cluster_scores : N → ℕ → ℕ → Wanted → List Cluster → ClusterScores N
  unfolding fetch_all matching_clusters existing score_matching
  fetch_kubernetes_cluster_scores stickiness now reschedule_after app clusters =
      let fetched = fetch_all clusters [] in
      score_matching stickiness now reschedule_after app fetched
        (matching_clusters app.constraints fetched (existing clusters))

  of_chosen : Chosen (Score N) → Selected
  of_chosen (chosen s) = selected s.place
  of_chosen Ranking.value_error = raises_value_error

  -- `scores += cluster` raises the TypeError that gives the current cluster back. The scores of
  -- the clouds count only with `auto_cluster_create`.
  pub select_scheduling_location :
      (List (Score N) → Score N) → N → ℕ → ℕ → Wanted → List Cluster → List (Score N) → Selected
  unfolding fetch_kubernetes_cluster_scores of_chosen
  select_scheduling_location choice stickiness now reschedule_after app clusters cloud_scores =
      elim (fetch_kubernetes_cluster_scores stickiness now reschedule_after app clusters) [
        | stays c ↦ selected (cluster_place c.ref)
        | scores ss ↦
            of_chosen (
              select_maximum ops choice
                (if app.auto_cluster_create then ss ++ cloud_scores else ss))
        | nothing_matches ↦ no_cluster_found
        | scores_key_error ↦ raises_key_error
        | scores_value_error ↦ raises_value_error
        | scores_attribute_error ↦ raises_attribute_error
      ]
