-- ===== src/Scheduler/Ranking/Order.antt =====
-- Scores under a linear order, and what `max` and the preference of clusters leave of a list.
use krake.Prelude.{◌≡◌, ◌↔◌, ◌⊎◌, inl, inr, refl, subst, true, false, Option, List, [], ◌∷◌, arith}
use krake.Prelude.Tests.{Bool-cases}
use krake.Prelude.Keys.{==_iff}
use krake.Prelude.Lists.{All, Any, Any-All}
use krake.Data.Core.{ResourceRef, ref_key}
use krake.Data.Constraints.{Numbers}
use krake.Data.Constraints.Naturals.{naturals}
use krake.Scheduler.Constraints.{QueryResult}
use krake.Scheduler.Ranking.{
  Place, cluster_place, cloud_place, place_same, is_cluster, Score, chosen, value_error, greater,
  max_from, max_score, maxima, clusters_of, select_maximum, calculate_kubernetes_cluster_score,
}

-- The comparisons are those of a linear order; floats are, but for NaN.
pub record LinearOrder {N : Type 0} (ops : Numbers N) : Type 0 where
  pub equals_iff : (a b : N) → (ops.equals a b ≡ true) ↔ (a ≡ b)
  pub less-irrefl : (a : N) → ops.less a a ≡ false
  pub less-trans : (a b c : N) → ops.less a b ≡ true → ops.less b c ≡ true → ops.less a c ≡ true
  pub less-total : (a b : N) → ops.less a b ≡ false → ops.equals a b ≡ false → ops.less b a ≡ true

pub naturals-LinearOrder : LinearOrder naturals
naturals-LinearOrder = record {
  equals_iff = λ a b. ground arith;
  less-irrefl = λ a. ground arith;
  less-trans = λ a b c h k. ground (arith, h, k);
  less-total = λ a b h k. ground (arith, h, k);
}

pub place_same_iff : (a b : Place) → (place_same a b ≡ true) ↔ (a ≡ b)
unfolding place_same
place_same_iff (cluster_place a) (cluster_place b) = ground (arith, ==_iff a b)
place_same_iff (cluster_place a) (cloud_place b) = ground arith
place_same_iff (cloud_place a) (cluster_place b) = ground arith
place_same_iff (cloud_place a) (cloud_place b) = ground (arith, ==_iff a b)

-- The score of a cluster is about that cluster.
pub place-calculate :
    {N : Type 0} (ops : Numbers N) (stickiness : N) (ms : List (QueryResult N))
    (cluster : ResourceRef) (scheduled_to : Option ResourceRef)
    → (calculate_kubernetes_cluster_score ops stickiness ms cluster scheduled_to).place
      ≡ cluster_place cluster
unfolding calculate_kubernetes_cluster_score
place-calculate ops stickiness [] cluster scheduled_to = refl
place-calculate ops stickiness (m ∷ ms) cluster scheduled_to = refl

-- `max` of nothing.
pub select_maximum-empty :
    {N : Type 0} (ops : Numbers N) (choice : List (Score N) → Score N)
    → select_maximum ops choice [] ≡ value_error
unfolding select_maximum max_score
select_maximum-empty ops choice = refl

-- Membership in a list of scores.
abbrev pub In : {N : Type 0} → Score N → List (Score N) → Type 0
In r ss = Any (λ s. s ≡ r) ss

pub All-of-members :
    {N : Type 0} (P : Score N → Type 0) (ss : List (Score N))
    → ((s : Score N) → In s ss → P s)
    → All P ss
All-of-members P [] h = tt
All-of-members P (s ∷ ss) h = (h s (inl refl), All-of-members P ss (λ t i. h t (inr i)))

pub All-at :
    {N : Type 0} (P : Score N → Type 0) (r : Score N) (ss : List (Score N))
    → In r ss
    → All P ss
    → P r
All-at P r ss here h = let (s, same, holds) = Any-All ss here h in subst P same holds

module _ {N : Type 0} (ops : Numbers N) (order : LinearOrder ops) where
  -- No score of the list is above it.
  abbrev pub Top : Score N → List (Score N) → Type 0
  Top r ss = All (λ s. ops.less r.score s.score ≡ false) ss

  -- Another score loses to `r` when it is strictly worse, or ties with it and is not about a cluster
  -- where `r` is about none.
  abbrev pub Beaten : Score N → Score N → Type 0
  Beaten r s =
      (ops.less s.score r.score ≡ true)
      ⊎ ((s.score ≡ r.score) × (is_cluster s.place ≡ true → is_cluster r.place ≡ true))

  at_most_trans : (a b c : N) → ops.less b a ≡ false → ops.less c b ≡ false → ops.less c a ≡ false
  at_most_trans a b c h k =
      ground (arith, h, k, order.less-trans c a b, order.less-total b a, order.equals_iff b a)

  greater-at_most : (a b : Score N) → greater ops a b ≡ true → ops.less a.score b.score ≡ false
  unfolding greater
  greater-at_most a b h = ground (arith, h)

  not_greater-at_most : (a b : Score N) → greater ops a b ≡ false → ops.less b.score a.score ≡ false
  unfolding greater
  not_greater-at_most a b h = ground (
    arith,
    h,
    order.less-trans b.score a.score b.score,
    order.less-irrefl b.score,
    order.equals_iff a.score b.score,
  )

  max_from-replaced :
      (best s : Score N) (ss : List (Score N))
      → greater ops s best ≡ true
      → max_from ops s ss ≡ max_from ops best (s ∷ ss)
  unfolding max_from
  max_from-replaced best s ss h = rw h refl

  max_from-kept :
      (best s : Score N) (ss : List (Score N))
      → greater ops s best ≡ false
      → max_from ops best ss ≡ max_from ops best (s ∷ ss)
  unfolding max_from
  max_from-kept best s ss h = rw h refl

  max_from-Top : (best : Score N) (ss : List (Score N)) → Top (max_from ops best ss) (best ∷ ss)
  unfolding max_from
  max_from-Top best [] = (order.less-irrefl best.score, tt)
  max_from-Top best (s ∷ ss) = elim (Bool-cases (greater ops s best)) [
    | inl above ↦
        let (top, rest) = max_from-Top s ss in
        subst (λ m. Top m (best ∷ s ∷ ss)) (max_from-replaced best s ss above)
          (
            at_most_trans best.score s.score (max_from ops s ss).score
                (greater-at_most s best above) top,
            (top, rest),
          )
    | inr below ↦
        let (top, rest) = max_from-Top best ss in
        subst (λ m. Top m (best ∷ s ∷ ss)) (max_from-kept best s ss below)
          (
            top,
            (
              at_most_trans s.score best.score (max_from ops best ss).score
                  (not_greater-at_most s best below) top,
              rest,
            ),
          )
  ]

  max_from-In : (best : Score N) (ss : List (Score N)) → In (max_from ops best ss) (best ∷ ss)
  unfolding max_from
  max_from-In best [] = inl refl
  max_from-In best (s ∷ ss) = elim (Bool-cases (greater ops s best)) [
    | inl above ↦
        subst (λ m. In m (best ∷ s ∷ ss)) (max_from-replaced best s ss above)
          (inr (max_from-In s ss))
    | inr below ↦
        subst (λ m. In m (best ∷ s ∷ ss)) (max_from-kept best s ss below)
          (elim (max_from-In best ss) [ inl here ↦ inl here | inr there ↦ inr (inr there) ])
  ]

  pub max_score-Top :
      (ss : List (Score N)) (best : Score N)
      → max_score ops ss ≡ chosen best
      → In best ss × Top best ss
  unfolding max_score
  max_score-Top [] best h = absurd (cc h)
  max_score-Top (s ∷ ss) best h =
      let same : max_from ops s ss ≡ best = ground (arith, h) in
      subst (λ b. In b (s ∷ ss) × Top b (s ∷ ss)) same (max_from-In s ss, max_from-Top s ss)

  -- The maxima are the scores that tie with the best one.
  pub maxima_iff :
      (best r : Score N) (ss : List (Score N))
      → In r (maxima ops best ss) ↔ (In r ss × (r.score ≡ best.score))
  unfolding maxima
  maxima_iff best r [] = ground arith
  maxima_iff best r (s ∷ ss) =
      ground (arith, maxima_iff best r ss, order.equals_iff s.score best.score)

  pub clusters_of_iff :
      (r : Score N) (ss : List (Score N))
      → In r (clusters_of ops ss) ↔ (In r ss × (is_cluster r.place ≡ true))
  unfolding clusters_of
  clusters_of_iff r [] = ground arith
  clusters_of_iff r (s ∷ ss) = ground (arith, clusters_of_iff r ss)
