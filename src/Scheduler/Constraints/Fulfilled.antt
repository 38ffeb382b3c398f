-- ===== src/Scheduler/Constraints/Fulfilled.antt =====
-- When the constraints of an application hold, and when their evaluation raises.
use krake.Prelude.{String, ◌≡◌, ◌↔◌, inl, inr, true, some, List, [], ◌∷◌, ◌++◌, map, arith}
use krake.Prelude.Tests.{Option-cases}
use krake.Prelude.Keys.{contains, string_key}
use krake.Prelude.Lists.{All}
use krake.Prelude.Dict.{Dict, get}
use krake.Data.Constraints.{match_label, Numbers, MetricConstraint, match_metric}
use krake.Scheduler.Constraints.{
  QueryResult, Candidate, Constraints, Match, fulfilled, metric_refs, condition_label,
  condition_custom_resources, condition_metric, evaluate, match_application_constraints,
}

evaluate-append :
    (xs ys : List Match)
    → (evaluate (xs ++ ys) ≡ fulfilled) ↔ ((evaluate xs ≡ fulfilled) × (evaluate ys ≡ fulfilled))
unfolding evaluate
evaluate-append [] ys = ground arith
evaluate-append (m ∷ xs) ys = ground (arith, evaluate-append xs ys)

evaluate-map :
    {A : Type 0} (condition : A → Match) (P : A → Type 0) (xs : List A)
    → ((x : A) → (condition x ≡ fulfilled) ↔ P x)
    → (evaluate (map condition xs) ≡ fulfilled) ↔ All P xs
unfolding evaluate
evaluate-map condition P [] h = ground arith
evaluate-map condition P (x ∷ xs) h = ground (arith, h x, evaluate-map condition P xs h)

-- The candidate has custom resources, and this one is among them.
abbrev pub HasResource : Candidate → String → Type 0
HasResource c kind =
    (resources : List String) × (c.custom_resources ≡ some resources)
    × (contains kind resources ≡ true)

module _ {N : Type 0} (ops : Numbers N) where
  -- The metrics of the candidate were fetched, and the constraint holds of their weights.
  abbrev pub MetricHolds :
      Candidate → Dict String (List (QueryResult N)) → MetricConstraint → Type 0
  MetricHolds c fetched k =
      (metrics : List (QueryResult N)) × (get c.name fetched ≡ some metrics)
      × (match_metric ops k (metric_refs ops metrics []) ≡ some true)

  condition_custom_resources_iff :
      (c : Candidate) (kind : String)
      → (condition_custom_resources c kind ≡ fulfilled) ↔ HasResource c kind
  unfolding condition_custom_resources
  condition_custom_resources_iff c kind = elim (Option-cases c.custom_resources) [
    | inl cloud ↦
        (λ h. absurd (ground (arith, cloud)), λ (rs, has, _). absurd (ground (arith, cloud, has)))
    | inr (resources, has) ↦ (
      λ h. (resources, has, ground (arith, has, h)),
      λ (rs, has', h). ground (arith, has, has', h),
    )
  ]

  condition_metric_iff :
      (c : Candidate) (fetched : Dict String (List (QueryResult N))) (k : MetricConstraint)
      → (condition_metric ops c fetched k ≡ fulfilled) ↔ MetricHolds c fetched k
  unfolding condition_metric
  condition_metric_iff c fetched k = elim (Option-cases (get c.name fetched)) [
    | inl missing ↦ (
      λ h. absurd (ground (arith, missing)),
      λ (ms, found, _). absurd (ground (arith, missing, found)),
    )
    | inr (metrics, found) ↦ (
      λ h. (metrics, found, ground (arith, found, h)),
      λ (ms, found', h). ground (arith, found, found', h),
    )
  ]

  -- The constraints of an application hold of a cluster or a cloud exactly when every label constraint
  -- matches its labels, it has every custom resource, and every metric constraint holds of the
  -- weighted metrics that were fetched for it.
  pub match_application_constraints_iff :
      (k : Constraints) (c : Candidate) (fetched : Dict String (List (QueryResult N)))
      → (match_application_constraints ops (some k) c fetched ≡ fulfilled) ↔ (
          All (λ l. match_label l c.labels ≡ true) k.labels
          × All (HasResource c) k.custom_resources
          × All (MetricHolds c fetched) k.metrics)
  unfolding match_application_constraints condition_label
  match_application_constraints_iff k c fetched = ground (
    arith,
    evaluate-append
        (map (condition_label c) k.labels ++ map (condition_custom_resources c) k.custom_resources)
        (map (condition_metric ops c fetched) k.metrics),
    evaluate-append (map (condition_label c) k.labels)
        (map (condition_custom_resources c) k.custom_resources),
    evaluate-map (condition_label c) (λ l. match_label l c.labels ≡ true) k.labels
        (λ l. ground arith),
    evaluate-map (condition_custom_resources c) (HasResource c) k.custom_resources
        (condition_custom_resources_iff c),
    evaluate-map (condition_metric ops c fetched) (MetricHolds c fetched) k.metrics
        (condition_metric_iff c fetched),
  )
