-- ===== src/Scheduler/Clusters/Placed.antt =====
-- The cloud that a cluster gets.
use krake.Prelude.{
  ◌≡◌, refl, Bool, true, false, Option, none, some, List, [], ◌∷◌, String, arith, inl, inr, ◌⊎◌,
  subst,
}
use krake.Prelude.Tests.{if◌then◌else◌}
use krake.Prelude.Keys.{string_key}
use krake.Prelude.Lists.{All, Any, All-member, Any-All}
use krake.Prelude.Dict.{Dict}
use krake.Data.Core.{ResourceRef, ref_key}
use krake.Data.Constraints.{Numbers}
use krake.Scheduler.Constraints.{
  QueryResult, Match, fulfilled, violated, key_error, value_error, attribute_error,
  match_cluster_constraints,
}
use krake.Scheduler.Ranking.{
  Place, cluster_place, cloud_place, Score, Chosen, chosen, select_maximum, calculate_cloud_score,
}
use krake.Scheduler.Ranking as Ranking
use krake.Scheduler.Ranking.Order.{LinearOrder}
use krake.Scheduler.Ranking.Maximum.{Picks, select_maximum-Beaten}
use krake.Scheduler.Clusters.{
  Cloud, Unbound, Selection, failure, picked, not_implemented, raises_attribute_error, with_cloud,
  has_metrics, fetch_clouds, matching_clouds, rank_cloud, rank_clouds, zero_scores, cloud_scores,
  cloud_of, select_matching, select_cloud,
}

if-All :
    {A : Type 0} (P : A → Type 0) (b : Bool) (xs ys : List A)
    → All P xs
    → All P ys
    → All P (if b then xs else ys)
if-All P true xs ys h k = h
if-All P false xs ys h k = k

if-picked :
    {A : Type 0} (b : Bool) (x y : Selection A) {a : A}
    → (if b then x else y) ≡ picked a
    → ((b ≡ true) × (x ≡ picked a)) ⊎ ((b ≡ false) × (y ≡ picked a))
if-picked true x y h = inl (refl, h)
if-picked false x y h = inr (refl, h)

module _ {N : Type 0} (ops : Numbers N) (order : LinearOrder ops)
    (choice : List (Score N) → Score N)
    (fetch fetch_again : Cloud → Option (List (QueryResult N))) where
  -- A cloud of the list that is not deleted and fulfills the constraints, with the metrics fetched.
  abbrev pub Fits : Unbound → List Cloud → Dict String (List (QueryResult N)) → Cloud → Type 0
  Fits cluster clouds fetched c =
      Any (λ d. d ≡ c) clouds
      × (c.deleted ≡ false)
      × (match_cluster_constraints ops cluster.constraints c.candidate fetched ≡ fulfilled)

  with_cloud-All :
      (P : Cloud → Type 0) (c : Cloud) (m : Match) (rest : Selection (List Cloud)) (ms : List Cloud)
      → (m ≡ fulfilled → P c)
      → ((cs : List Cloud) → rest ≡ picked cs → All P cs)
      → with_cloud c m rest ≡ picked ms
      → All P ms
  unfolding with_cloud
  with_cloud-All P c fulfilled (picked cs) ms this others h =
      subst (All P) {x = c ∷ cs} (cc h) (this refl, others cs refl)
  with_cloud-All P c fulfilled (failure f) ms this others h = absurd (cc h)
  with_cloud-All P c violated rest ms this others h = others ms h
  with_cloud-All P c key_error rest ms this others h = absurd (cc h)
  with_cloud-All P c value_error rest ms this others h = absurd (cc h)
  with_cloud-All P c attribute_error rest ms this others h = absurd (cc h)

  matching-Fits :
      (cluster : Unbound) (clouds cs ms : List Cloud) (fetched : Dict String (List (QueryResult N)))
      → All (λ c. Any (λ d. d ≡ c) clouds) cs
      → matching_clouds ops choice fetch fetch_again cluster.constraints fetched cs ≡ picked ms
      → All (Fits cluster clouds fetched) ms
  unfolding matching_clouds
  matching-Fits cluster clouds [] ms fetched inside h =
      subst (All (Fits cluster clouds fetched)) {x = []} (cc h) tt
  matching-Fits cluster clouds (c ∷ cs) ms fetched inside h =
      elim (if-picked c.deleted
        (matching_clouds ops choice fetch fetch_again cluster.constraints fetched cs)
        (with_cloud c (match_cluster_constraints ops cluster.constraints c.candidate fetched)
          (matching_clouds ops choice fetch fetch_again cluster.constraints fetched cs))
        h) [
          | inl (gone, rest) ↦ matching-Fits cluster clouds cs ms fetched inside.1 rest
          | inr (there, this) ↦
              with_cloud-All (Fits cluster clouds fetched) c
                (match_cluster_constraints ops cluster.constraints c.candidate fetched)
                (matching_clouds ops choice fetch fetch_again cluster.constraints fetched cs) ms
                (λ e. (inside.0, there, e))
                (λ ds e. matching-Fits cluster clouds cs ds fetched inside.1 e) this
        ]

  -- A score for a cloud with `P`.
  abbrev ScoresOne : (Cloud → Type 0) → Score N → Type 0
  ScoresOne P s = (c : Cloud) × P c × (s.place ≡ cloud_place c.ref)

  score-place :
      (ms : List (QueryResult N)) (r : ResourceRef)
      → (calculate_cloud_score ops ms r).place ≡ cloud_place r
  unfolding calculate_cloud_score
  score-place [] r = refl
  score-place (m ∷ ms) r = refl

  metrics-All : (P : Cloud → Type 0) (cs : List Cloud) → All P cs → All P (has_metrics cs)
  unfolding has_metrics
  metrics-All P [] h = tt
  metrics-All P (c ∷ cs) h =
      if-All P c.metrics (c ∷ has_metrics cs) (has_metrics cs) (h.0, metrics-All P cs h.1)
        (metrics-All P cs h.1)

  rank_one-All :
      (P : Cloud → Type 0) (c : Cloud) (o : Option (List (QueryResult N))) (rest : List (Score N))
      → P c
      → All (ScoresOne P) rest
      → All (ScoresOne P) (rank_cloud ops choice fetch fetch_again c o rest)
  unfolding rank_cloud
  rank_one-All P c none rest h k = k
  rank_one-All P c (some ms) rest h k = ((c, h, score-place ms c.ref), k)

  rank-All :
      (P : Cloud → Type 0) (cs : List Cloud)
      → All P cs
      → All (ScoresOne P) (rank_clouds ops choice fetch fetch_again cs)
  unfolding rank_clouds
  rank-All P [] h = tt
  rank-All P (c ∷ cs) h =
      rank_one-All P c (fetch_again c) (rank_clouds ops choice fetch fetch_again cs) h.0
        (rank-All P cs h.1)

  zero-All :
      (P : Cloud → Type 0) (cs : List Cloud)
      → All P cs
      → All (ScoresOne P) (zero_scores ops choice fetch fetch_again cs)
  unfolding zero_scores
  zero-All P [] h = tt
  zero-All P (c ∷ cs) h = ((c, h.0, score-place [] c.ref), zero-All P cs h.1)

  scores-All :
      (P : Cloud → Type 0) (cs : List Cloud)
      → All P cs
      → All (ScoresOne P) (cloud_scores ops choice fetch fetch_again cs)
  unfolding cloud_scores
  scores-All P cs h =
      or_zero (rank_clouds ops choice fetch fetch_again (has_metrics cs))
        (rank-All P (has_metrics cs) (metrics-All P cs h))
    where
      or_zero :
          (ss : List (Score N))
          → All (ScoresOne P) ss
          → All
              (ScoresOne P)
              (elim ss [ [] ↦ zero_scores ops choice fetch fetch_again cs | s ∷ rest ↦ s ∷ rest ])
      or_zero [] k = zero-All P cs h
      or_zero (s ∷ ss) k = k

  cloud_of-picked :
      (m : Chosen (Score N)) (r : ResourceRef)
      → cloud_of ops choice fetch fetch_again m ≡ picked r
      → (s : Score N) × (m ≡ chosen s) × (s.place ≡ cloud_place r)
  unfolding cloud_of
  cloud_of-picked (chosen s) r h = (s, refl, of_place s.place refl h)
    where
      of_place :
          (p : Place)
          → s.place ≡ p
          → elim p [ cloud_place r ↦ picked r | cluster_place r ↦ failure raises_attribute_error ]
            ≡ picked r
          → s.place ≡ cloud_place r
      of_place (cloud_place q) e k = cc (e, k)
      of_place (cluster_place q) e k = absurd (cc k)
  cloud_of-picked Ranking.value_error r h = absurd (cc h)

  picked-P :
      (P : Cloud → Type 0) (matching : Selection (List Cloud)) (r : ResourceRef)
      → Picks ops order choice
      → ((cs : List Cloud) → matching ≡ picked cs → All P cs)
      → select_matching ops choice fetch fetch_again matching ≡ picked r
      → (c : Cloud) × P c × (c.ref ≡ r)
  unfolding select_matching
  picked-P P (failure f) r picks fine h = absurd (cc h)
  picked-P P (picked []) r picks fine h = absurd (cc h)
  picked-P P (picked (c ∷ cs)) r picks fine h =
      let ranked = cloud_scores ops choice fetch fetch_again (c ∷ cs) in
      let (s, chose, place) = cloud_of-picked (select_maximum ops choice ranked) r h in
      let (found, _) = select_maximum-Beaten ops order choice ranked s picks chose in
      let (t, same, (d, good, at)) =
        Any-All ranked found (scores-All P (c ∷ cs) (fine (c ∷ cs) refl)) in
      (d, good, ground (arith, same, place, at))

  -- When the numbers are in a linear order and the choice returns a member of its list: the cloud
  -- that is selected for a cluster is one of the list, is not deleted, and fulfills the
  -- constraints of the cluster with the metrics that were fetched.
  pub selected-Fits :
      (cluster : Unbound) (clouds : List Cloud) (r : ResourceRef)
      → Picks ops order choice
      → select_cloud ops choice fetch fetch_again cluster clouds ≡ picked r
      → (fetched : Dict String (List (QueryResult N))) × (fetch_clouds ops choice fetch fetch_again
            clouds []
          ≡ some fetched)
        × (c : Cloud) × Fits cluster clouds fetched c
        × (c.ref ≡ r)
  unfolding select_cloud
  selected-Fits cluster clouds r picks h =
      with_fetched (fetch_clouds ops choice fetch fetch_again clouds []) refl h
    where
      with_fetched :
          (o : Option (Dict String (List (QueryResult N))))
          → fetch_clouds ops choice fetch fetch_again clouds [] ≡ o
          → elim o [
            | none ↦ failure not_implemented
            | some fetched ↦
                select_matching ops choice fetch fetch_again
                  (matching_clouds ops choice fetch fetch_again cluster.constraints fetched clouds)
          ]
            ≡ picked r
          → (fetched : Dict String (List (QueryResult N))) × (fetch_clouds ops choice fetch
                fetch_again clouds []
              ≡ some fetched)
            × (c : Cloud) × Fits cluster clouds fetched c
            × (c.ref ≡ r)
      with_fetched none e k = absurd (cc k)
      with_fetched (some fetched) e k =
          let (c, fits, at) =
            picked-P (Fits cluster clouds fetched)
              (matching_clouds ops choice fetch fetch_again cluster.constraints fetched clouds) r
              picks (λ cs e. matching-Fits cluster clouds clouds cs fetched (All-member clouds) e)
              k in
          (fetched, e, c, fits, at)
