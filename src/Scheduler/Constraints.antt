-- ===== src/Scheduler/Constraints.antt =====
-- krake/krake/controller/scheduler/constraints.py: whether a cluster, a cloud or a project
-- fulfills constraints.
pub mod Fulfilled
mod Examples
use krake.Prelude.{ℕ, String, ◌≡◌, Bool, true, false, Option, none, some, List, [], ◌∷◌, ◌++◌, map}
use krake.Prelude.Tests.{if◌then◌else◌}
use krake.Prelude.Keys.{contains, string_key}
use krake.Prelude.Dict.{Dict, get, put}
use krake.Data.Constraints.{LabelConstraint, match_label, Numbers, MetricConstraint, match_metric}

-- A fetched metric: the name of the metric, the weight of its reference, and its value.
pub record QueryResult (N : Type 0) : Type 0 where
  pub metric : String
  pub weight : N
  pub value : N

-- What the constraints read of a cluster, a cloud or a project. Only the spec of a cluster has the
-- attribute `custom_resources`.
pub record Candidate : Type 0 where
  pub name : String
  pub labels : Dict String String
  pub custom_resources : Option (List String)

-- None and an empty list of constraints are the same to the code.
pub record Constraints : Type 0 where
  pub labels : List LabelConstraint
  pub custom_resources : List String
  pub metrics : List MetricConstraint

-- True, False, or an exception: KeyError for metrics that were not fetched, ValueError for a bound
-- that is not a number, AttributeError for the custom resources of a cloud.
pub data Match : Type 0 where
  fulfilled violated key_error value_error attribute_error : Match

abbrev of_test : Bool → Match
of_test b = if b then fulfilled else violated

condition_label : Candidate → LabelConstraint → Match
condition_label c constraint = of_test (match_label constraint c.labels)

condition_custom_resources : Candidate → String → Match
condition_custom_resources c kind = elim c.custom_resources [
  | none ↦ attribute_error
  | some resources ↦ of_test (contains kind resources)
]

-- `_evaluate`: the first condition that does not hold ends it.
evaluate : List Match → Match
evaluate [] = fulfilled
evaluate (m ∷ ms) =
    let rest = evaluate ms in
    elim m [
      | fulfilled ↦ rest
      | violated ↦ violated
      | key_error ↦ key_error
      | value_error ↦ value_error
      | attribute_error ↦ attribute_error
    ]

module _ {N : Type 0} (ops : Numbers N) where
  -- `refs`: a later metric of the same name replaces an earlier one.
  pub metric_refs : List (QueryResult N) → Dict String N → Dict String N
  unfolding put
  metric_refs [] refs = refs
  metric_refs (m ∷ metrics) refs =
      metric_refs metrics (put m.metric (ops.multiply m.weight m.value) refs)

  condition_metric : Candidate → Dict String (List (QueryResult N)) → MetricConstraint → Match
  unfolding metric_refs
  condition_metric c fetched constraint = elim (get c.name fetched) [
    | none ↦ key_error
    | some metrics ↦ elim (match_metric ops constraint (metric_refs metrics [])) [
      | none ↦ value_error
      | some b ↦ of_test b
    ]
  ]

  unfoldable pub match_application_constraints :
      Option Constraints → Candidate → Dict String (List (QueryResult N)) → Match
  unfolding evaluate condition_label condition_custom_resources condition_metric
  match_application_constraints none c fetched = fulfilled
  match_application_constraints (some k) c fetched = evaluate (
      map (condition_label c) k.labels
      ++ map (condition_custom_resources c) k.custom_resources
      ++ map (condition_metric c fetched) k.metrics)

  unfoldable pub match_cluster_constraints :
      Option Constraints → Candidate → Dict String (List (QueryResult N)) → Match
  unfolding evaluate condition_label condition_metric
  match_cluster_constraints none c fetched = fulfilled
  match_cluster_constraints (some k) c fetched =
      evaluate (map (condition_label c) k.labels ++ map (condition_metric c fetched) k.metrics)

pub match_project_constraints : List LabelConstraint → Candidate → Match
unfolding evaluate condition_label
match_project_constraints labels project = evaluate (map (condition_label project) labels)
