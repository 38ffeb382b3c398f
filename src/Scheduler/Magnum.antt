-- ===== src/Scheduler/Magnum.antt =====
-- OpenstackHandler in krake/krake/controller/scheduler/scheduler.py: the project of a Magnum
-- cluster, and what the cluster inherits from it. What fetch_metrics yields is an argument. The
-- score of a project stands for one of a place that is no cluster.
pub mod Inherited
mod Examples
use krake.Prelude.{String, Bool, true, false, not, Option, none, some, List, [], ◌∷◌, ◌++◌}
use krake.Prelude.Tests.{if◌then◌else◌}
use krake.Prelude.Keys.{string_key, contains}
use krake.Prelude.Dict.{Dict, put}
use krake.Data.Core.{ResourceRef}
use krake.Data.Constraints.{Numbers, LabelConstraint}
use krake.Scheduler.Constraints.{
  QueryResult, Candidate, Match, fulfilled, violated, key_error, value_error,
  match_project_constraints,
}
use krake.Scheduler.Ranking.{
  Place, cloud_place, cluster_place, Score, Chosen, chosen, select_maximum, calculate_cloud_score,
}
use krake.Scheduler.Ranking as Ranking

pub record MetricRef (N : Type 0) : Type 0 where
  pub name : String
  pub weight : N

pub record Project (N : Type 0) : Type 0 where
  pub ref : ResourceRef
  pub labels : Dict String String
  pub metrics : List (MetricRef N)
  pub deleted : Bool

pub record MagnumCluster (N : Type 0) : Type 0 where
  pub labels : Dict String String
  pub metrics : List (MetricRef N)
  pub constraints : List LabelConstraint
  pub bound : Bool
  pub deleted : Bool

pub data ProjectSelection (A : Type 0) : Type 0 where
  no_project_found magnum_bound select_value_error : ProjectSelection A
  project : A → ProjectSelection A

-- {**labels, **others}
unfoldable pub merge_labels : Dict String String → Dict String String → Dict String String
unfolding put
merge_labels labels [] = labels
merge_labels labels ((k, v) ∷ others) = merge_labels (put k v labels) others

module _ {N : Type 0} where
  -- received_magnum_cluster: whether the cluster is put into the queue.
  unfoldable pub accepts_magnum_cluster : MagnumCluster N → Bool
  accepts_magnum_cluster cluster = if cluster.deleted then false else not cluster.bound

  unfoldable pub metric_names : List (MetricRef N) → List String
  metric_names [] = []
  metric_names (m ∷ ms) = m.name ∷ metric_names ms

  -- The names are those of the cluster before the loop.
  unfoldable pub other_metrics : List String → List (MetricRef N) → List (MetricRef N)
  other_metrics names [] = []
  other_metrics names (m ∷ ms) =
      let rest = other_metrics names ms in if contains m.name names then rest else m ∷ rest

  unfoldable pub inherit_from : Project N → MagnumCluster N → MagnumCluster N
  unfolding merge_labels metric_names other_metrics
  inherit_from p cluster = record cluster {
    labels = merge_labels p.labels cluster.labels;
    metrics = cluster.metrics ++ other_metrics (metric_names cluster.metrics) p.metrics;
  }

pub data MagnumRequest (N : Type 0) : Type 0 where
  list_all_projects : MagnumRequest N
  update_magnum_cluster : MagnumCluster N → MagnumRequest N
  update_magnum_cluster_binding : ResourceRef → MagnumRequest N

module _ {N : Type 0} (ops : Numbers N) (choice : List (Score N) → Score N)
    (fetch : Project N → Option (List (QueryResult N))) where
  candidate_of : Project N → Candidate
  candidate_of p = record { name = p.ref.name; labels = p.labels; custom_resources = none }

  -- A label has no error to raise.
  unfoldable pub matching_projects : List LabelConstraint → List (Project N) → List (Project N)
  unfolding candidate_of
  matching_projects constraints [] = []
  matching_projects constraints (p ∷ ps) =
      let rest = matching_projects constraints ps in
      if p.deleted then rest else elim (match_project_constraints constraints (candidate_of p)) [
        | fulfilled ↦ p ∷ rest
        | _ ↦ rest
      ]

  projects_with_metrics : List (Project N) → List (Project N)
  projects_with_metrics [] = []
  projects_with_metrics (p ∷ ps) =
      let rest = projects_with_metrics ps in elim p.metrics [ [] ↦ rest | m ∷ ms ↦ p ∷ rest ]

  unfoldable rank_openstack_projects : List (Project N) → List (Score N)
  rank_openstack_projects [] = []
  rank_openstack_projects (p ∷ ps) =
      let rest = rank_openstack_projects ps in
      elim (fetch p) [ none ↦ rest | some ms ↦ calculate_cloud_score ops ms p.ref ∷ rest ]

  zero_projects : List (Project N) → List (Score N)
  zero_projects [] = []
  zero_projects (p ∷ ps) = calculate_cloud_score ops [] p.ref ∷ zero_projects ps

  -- The projects without metrics count only when none that matches has metrics.
  unfoldable project_scores : List (Project N) → List (Score N)
  unfolding projects_with_metrics rank_openstack_projects zero_projects
  project_scores matching = elim (projects_with_metrics matching) [
    | [] ↦ zero_projects matching
    | p ∷ ps ↦ rank_openstack_projects (p ∷ ps)
  ]

  of_score : Chosen (Score N) → ProjectSelection Place
  of_score (chosen s) = project s.place
  of_score Ranking.value_error = select_value_error

  unfoldable pub select_openstack_project :
      MagnumCluster N → List (Project N) → ProjectSelection Place
  unfolding matching_projects project_scores of_score
  select_openstack_project cluster projects =
      elim (project_scores (matching_projects cluster.constraints projects)) [
        | [] ↦ no_project_found
        | s ∷ ss ↦ of_score (select_maximum ops choice (s ∷ ss))
      ]

-- The requests and the end of schedule_magnum_cluster, for what was selected.
unfoldable pub schedule_magnum_cluster :
    {N : Type 0}
    → MagnumCluster N
    → ProjectSelection (Project N)
    → List (MagnumRequest N) × ProjectSelection (MagnumCluster N)
unfolding inherit_from
schedule_magnum_cluster cluster selected =
    if cluster.bound then ([], magnum_bound) else elim selected [
      | project p ↦ (
        list_all_projects
            ∷ update_magnum_cluster (inherit_from p cluster)
            ∷ update_magnum_cluster_binding p.ref
            ∷ [],
        project (inherit_from p cluster),
      )
      | no_project_found ↦ (list_all_projects ∷ [], no_project_found)
      | magnum_bound ↦ (list_all_projects ∷ [], magnum_bound)
      | select_value_error ↦ (list_all_projects ∷ [], select_value_error)
    ]
