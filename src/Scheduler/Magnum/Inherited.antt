-- ===== src/Scheduler/Magnum/Inherited.antt =====
-- What a Magnum cluster inherits from its project.
use krake.Prelude.{
  ◌≡◌, refl, sym, ap, ◌∙◌, ◌⊎◌, inl, inr, true, false, Option, none, some, List, [], ◌∷◌, ◌++◌,
  String, arith,
}
use krake.Prelude.Tests.{if◌then◌else◌, if_true, if_false, Bool-cases}
use krake.Prelude.Keys.{string_key, ◌==◌, ==_iff, contains}
use krake.Prelude.Dict.{Dict, get, has, put, get-put}
use krake.Scheduler.Magnum.{
  MetricRef, Project, MagnumCluster, merge_labels, metric_names, other_metrics, inherit_from,
}

-- No key stands twice.
abbrev pub HasOnce : Dict String String → Type 0
HasOnce [] = Unit
HasOnce ((k, v) ∷ d) = (has k d ≡ false) × HasOnce d

-- d.get(k, other)
abbrev pub get_or : String → Dict String String → Option String → Option String
get_or k d other = elim (get k d) [ none ↦ other | some v ↦ some v ]

get-merge :
    (k : String) (labels others : Dict String String)
    → HasOnce others
    → get k (merge_labels labels others) ≡ get_or k others (get k labels)
unfolding merge_labels get has
get-merge k labels [] once = refl
get-merge k labels ((j, v) ∷ others) once =
    ground
      (arith, get-merge k (put j v labels) others once.1, get-put j k v labels, ==_iff j k, once.0)

module _ {N : Type 0} where
  -- The metrics of a name, in order.
  unfoldable pub named : String → List (MetricRef N) → List (MetricRef N)
  named n [] = []
  named n (m ∷ ms) = let rest = named n ms in if m.name == n then m ∷ rest else rest

  abbrev pub if_any : List (MetricRef N) → List (MetricRef N) → List (MetricRef N)
  if_any [] others = others
  if_any (m ∷ ms) others = m ∷ ms

  -- Those of the cluster if it has any of the name, and else those of the project.
  abbrev pub preferred_metrics :
      String → List (MetricRef N) → List (MetricRef N) → List (MetricRef N)
  preferred_metrics n own others = if_any (named n own) (named n others)

  named-append :
      (n : String) (ms others : List (MetricRef N))
      → named n (ms ++ others) ≡ named n ms ++ named n others
  unfolding named
  named-append n [] others = refl
  named-append n (m ∷ ms) others = ground (arith, named-append n ms others)

  named-other_metrics :
      (n : String) (names : List String) (ms : List (MetricRef N))
      → named n (other_metrics names ms) ≡ (if contains n names then [] else named n ms)
  unfolding named other_metrics
  named-other_metrics n names [] = elim (Bool-cases (contains n names)) [
    | inl is ↦ sym (if_true (contains n names) [] [] is)
    | inr out ↦ sym (if_false (contains n names) [] [] out)
  ]
  named-other_metrics n names (m ∷ ms) =
      ground (arith, named-other_metrics n names ms, ==_iff m.name n)

  append_nil : (ms : List (MetricRef N)) → ms ++ [] ≡ ms
  append_nil [] = refl
  append_nil (m ∷ ms) = ap (m ∷◌) (append_nil ms)

  -- Whether a name is there is whether it names a metric.
  named-cases :
      (n : String) (ms : List (MetricRef N))
      → ((contains n (metric_names ms) ≡ false) × (named n ms ≡ []))
        ⊎ ((contains n (metric_names ms) ≡ true)
            × (m : MetricRef N) × (rest : List (MetricRef N)) × (named n ms ≡ m ∷ rest))
  unfolding named metric_names
  named-cases n [] = inl (refl, refl)
  named-cases n (m ∷ ms) = elim (Bool-cases (m.name == n)) [
    | inl is ↦
        inr (
          ground (arith, is),
          m,
          named n ms,
          if_true (m.name == n) (m ∷ named n ms) (named n ms) is,
        )
    | inr other ↦ elim (named-cases n ms) [
      | inl (out, none_) ↦ inl (
        ground (arith, other, out),
        if_false (m.name == n) (m ∷ named n ms) (named n ms) other ∙ none_,
      )
      | inr (there, l, rest, some_) ↦ inr (
        ground (arith, there),
        l,
        rest,
        if_false (m.name == n) (m ∷ named n ms) (named n ms) other ∙ some_,
      )
    ]
  ]

  named-inherited :
      (n : String) (own others : List (MetricRef N))
      → named n (own ++ other_metrics (metric_names own) others) ≡ preferred_metrics n own others
  named-inherited n own others =
      named-append n own (other_metrics (metric_names own) others)
      ∙ ap (named n own ++◌) (named-other_metrics n (metric_names own) others)
      ∙ elim (named-cases n own) [
        | inl (out, none_) ↦ rw (preferred_metrics, out, none_) refl
        | inr (there, m, rest, some_) ↦ rw (preferred_metrics, there, some_) (append_nil (m ∷ rest))
      ]

  -- A cluster whose labels stand once each keeps its labels, and has those of the project whose
  -- keys it does not have. Its metrics of a name are its own ones, if it has any, and else all
  -- those of the project.
  pub inherit-labels_and_metrics :
      (p : Project N) (cluster : MagnumCluster N) (k n : String)
      → HasOnce cluster.labels
      → (get k (inherit_from p cluster).labels ≡ get_or k cluster.labels (get k p.labels))
        × (named n (inherit_from p cluster).metrics ≡ preferred_metrics n cluster.metrics p.metrics)
  unfolding inherit_from
  inherit-labels_and_metrics p cluster k n once =
      (get-merge k p.labels cluster.labels once, named-inherited n cluster.metrics p.metrics)
