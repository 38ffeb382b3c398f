-- ===== src/Scheduler/Selection/Scored.antt =====
-- What is scored for an application: clusters that match, and nothing else.
use krake.Prelude.{
  ℕ, ◌+◌, String, ◌≡◌, inl, inr, refl, subst, true, not, ◌&&◌, Option, none, some, List, [], ◌∷◌,
  arith,
}
use krake.Prelude.Tests.{ltb, Bool-cases, Option-cases}
use krake.Prelude.Keys.{string_key}
use krake.Prelude.Lists.{All}
use krake.Prelude.Dict.{Dict, has}
use krake.Data.Core.{ResourceRef, ref_key}
use krake.Data.Constraints.{Numbers}
use krake.Scheduler.Constraints.{
  QueryResult, Candidate, Constraints, Match, fulfilled, violated, key_error, value_error,
  attribute_error, match_application_constraints,
}
use krake.Scheduler.Ranking.{cluster_place, Score}
use krake.Scheduler.Ranking.Order.{place-calculate}
use krake.Scheduler.Selection.{
  Cluster, Wanted, Matching, matching, match_key_error, match_value_error, match_attribute_error,
  ClusterScores, stays, scores, nothing_matches, scores_key_error, scores_value_error,
  scores_attribute_error, rank_one, exists_online, existing, with_match, is_current, current_of,
  no_clusters, fetch_all, matching_clusters, with_metrics, rank_clusters, rank_without_metrics,
  or_else, score_matching,
}

pub existing-All :
    (P : Cluster → Type 0) (cs : List Cluster)
    → All P cs
    → All (λ c. P c × (c.deleted ≡ none) × (c.online ≡ true)) (existing cs)
unfolding existing exists_online
existing-All P [] h = tt
existing-All P (c ∷ cs) h = elim (Bool-cases (exists_online c)) [
  | inl is ↦
      rw (existing, is) ((h.0, ground (arith, is), ground (arith, is)), existing-All P cs h.1)
  | inr not_ ↦ rw (existing, not_) (existing-All P cs h.1)
]

current_of-All :
    (P : Cluster → Type 0) (r : Option ResourceRef) (c : Cluster) (cs : List Cluster)
    → All P cs
    → current_of r cs ≡ some c
    → P c
unfolding current_of
current_of-All P r c [] h e = absurd (cc e)
current_of-All P r c (d ∷ cs) h e = elim (Bool-cases (is_current r d)) [
  | inl is ↦ subst P (ground (arith, is, e)) h.0
  | inr not_ ↦ current_of-All P r c cs h.1 (ground (arith, not_, e))
]

matching-injective : (xs ys : List Cluster) → matching xs ≡ matching ys → xs ≡ ys
matching-injective xs ys e = ground (arith, e)

with_match-All :
    (P : Cluster → Type 0) (c : Cluster) (m : Match) (rest : Matching) (ms : List Cluster)
    → (m ≡ fulfilled → P c)
    → ((ms' : List Cluster) → rest ≡ matching ms' → All P ms')
    → with_match c m rest ≡ matching ms
    → All P ms
unfolding with_match
with_match-All P c fulfilled (matching cs) ms h k e =
    subst (All P) (matching-injective (c ∷ cs) ms e) (h refl, k cs refl)
with_match-All P c fulfilled match_key_error ms h k e = absurd (cc e)
with_match-All P c fulfilled match_value_error ms h k e = absurd (cc e)
with_match-All P c fulfilled match_attribute_error ms h k e = absurd (cc e)
with_match-All P c violated rest ms h k e = k ms e
with_match-All P c key_error rest ms h k e = absurd (cc e)
with_match-All P c value_error rest ms h k e = absurd (cc e)
with_match-All P c attribute_error rest ms h k e = absurd (cc e)

module _ {N : Type 0} (ops : Numbers N) (inherited : Cluster → Candidate)
    (fetch fetch_again : Cluster → Option (List (QueryResult N))) where
  abbrev pub fetched_of : List Cluster → Dict String (List (QueryResult N))
  fetched_of clusters = fetch_all ops inherited fetch fetch_again clusters []

  pub matching_clusters-All :
      (P : Cluster → Type 0) (k : Option Constraints) (fetched : Dict String (List (QueryResult N)))
      (cs ms : List Cluster)
      → All P cs
      → matching_clusters ops inherited fetch fetch_again k fetched cs ≡ matching ms
      → All (λ c. P c × (match_application_constraints ops k (inherited c) fetched ≡ fulfilled)) ms
  unfolding matching_clusters
  matching_clusters-All P k fetched [] ms h e = subst (All _) (matching-injective [] ms e) tt
  matching_clusters-All P k fetched (c ∷ cs) ms h e =
      with_match-All
        (λ d. P d × (match_application_constraints ops k (inherited d) fetched ≡ fulfilled)) c
        (match_application_constraints ops k (inherited c) fetched)
        (matching_clusters ops inherited fetch fetch_again k fetched cs) ms (λ ok. (h.0, ok))
        (λ ms' e'. matching_clusters-All P k fetched cs ms' h.1 e') e

  -- The place of a score is that of a cluster with `P`.
  abbrev pub Places : (Cluster → Type 0) → Score N → Type 0
  Places P s = (c : Cluster) × P c × (s.place ≡ cluster_place c.ref)

  with_metrics-All :
      (P : Cluster → Type 0) (fetched : Dict String (List (QueryResult N))) (cs : List Cluster)
      → All P cs
      → All P (with_metrics ops inherited fetch fetch_again fetched cs)
  unfolding with_metrics
  with_metrics-All P fetched [] h = tt
  with_metrics-All P fetched (c ∷ cs) h = elim (Bool-cases (has c.name fetched)) [
    | inl is ↦ rw is (h.0, with_metrics-All P fetched cs h.1)
    | inr not_ ↦ rw not_ (with_metrics-All P fetched cs h.1)
  ]

  rank_one-All :
      (P : Cluster → Type 0) (stickiness : N) (scheduled_to : Option ResourceRef) (c : Cluster)
      (metrics : Option (List (QueryResult N))) (rest : List (Score N))
      → P c
      → All (Places P) rest
      → All
          (Places P)
          (rank_one ops inherited fetch fetch_again stickiness scheduled_to c metrics rest)
  unfolding rank_one
  rank_one-All P stickiness scheduled_to c none rest h k = k
  rank_one-All P stickiness scheduled_to c (some ms) rest h k =
      ((c, h, place-calculate ops stickiness ms c.ref scheduled_to), k)

  rank_clusters-All :
      (P : Cluster → Type 0) (stickiness : N) (scheduled_to : Option ResourceRef)
      (cs : List Cluster)
      → All P cs
      → All (Places P) (rank_clusters ops inherited fetch fetch_again stickiness scheduled_to cs)
  unfolding rank_clusters
  rank_clusters-All P stickiness scheduled_to [] h = tt
  rank_clusters-All P stickiness scheduled_to (c ∷ cs) h =
      rank_one-All P stickiness scheduled_to c (fetch_again c)
        (rank_clusters ops inherited fetch fetch_again stickiness scheduled_to cs) h.0
        (rank_clusters-All P stickiness scheduled_to cs h.1)

  rank_without_metrics-All :
      (P : Cluster → Type 0) (stickiness : N) (scheduled_to : Option ResourceRef)
      (cs : List Cluster)
      → All P cs
      → All
          (Places P)
          (rank_without_metrics ops inherited fetch fetch_again stickiness scheduled_to cs)
  unfolding rank_without_metrics
  rank_without_metrics-All P stickiness scheduled_to [] h = tt
  rank_without_metrics-All P stickiness scheduled_to (c ∷ cs) h = (
    (c, h.0, place-calculate ops stickiness [] c.ref scheduled_to),
    rank_without_metrics-All P stickiness scheduled_to cs h.1,
  )

  or_else-All :
      (P : Score N → Type 0) (xs ys : List (Score N))
      → All P xs
      → All P ys
      → All P (or_else ops inherited fetch fetch_again xs ys)
  unfolding or_else
  or_else-All P [] ys h k = k
  or_else-All P (x ∷ xs) ys h k = h

  -- The current cluster, and all that is scored, have `P`.
  abbrev pub Scored : (Cluster → Type 0) → ClusterScores N → Type 0
  Scored P (stays c) = P c
  Scored P (scores ss) = All (Places P) ss
  Scored P nothing_matches = Unit
  Scored P scores_key_error = Unit
  Scored P scores_value_error = Unit
  Scored P scores_attribute_error = Unit

  pub score_matching-All :
      (P : Cluster → Type 0) (stickiness : N) (now after : ℕ) (app : Wanted)
      (fetched : Dict String (List (QueryResult N))) (m : Matching)
      → ((ms : List Cluster) → m ≡ matching ms → All P ms)
      → Scored P (score_matching ops inherited fetch fetch_again stickiness now after app fetched m)
  unfolding score_matching
  score_matching-All P stickiness now after app fetched match_key_error h = tt
  score_matching-All P stickiness now after app fetched match_value_error h = tt
  score_matching-All P stickiness now after app fetched match_attribute_error h = tt
  score_matching-All P stickiness now after app fetched (matching cs) h =
      let here = h cs refl in
      let ranked =
        or_else-All (Places P)
          (rank_clusters ops inherited fetch fetch_again stickiness app.scheduled_to
            (with_metrics ops inherited fetch fetch_again fetched cs))
          (rank_without_metrics ops inherited fetch fetch_again stickiness app.scheduled_to cs)
          (rank_clusters-All P stickiness app.scheduled_to
            (with_metrics ops inherited fetch fetch_again fetched cs)
            (with_metrics-All P fetched cs here))
          (rank_without_metrics-All P stickiness app.scheduled_to cs here) in
      elim (Bool-cases (no_clusters cs && not app.auto_cluster_create)) [
        | inl empty ↦ rw empty tt
        | inr some_left ↦ elim (Option-cases (current_of app.scheduled_to cs)) [
          | inl missing ↦ rw (some_left, missing) ranked
          | inr (c, found) ↦ elim (Bool-cases (ltb now (app.scheduled + after))) [
            | inl recent ↦
                rw (some_left, found, recent) (current_of-All P app.scheduled_to c cs here found)
            | inr old ↦ rw (some_left, found, old) ranked
          ]
        ]
      ]
