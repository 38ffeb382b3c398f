-- ===== src/Scheduler/Ranking.antt =====
-- krake/krake/controller/scheduler/scheduler.py: scores, and the selection among them. The choice
-- of `random.choice` is an argument.
pub mod Order
pub mod Candidates
pub mod Maximum
mod Examples
use krake.Prelude.{
  ℕ, String, ◌≡◌, Bool, true, false, not, ◌&&◌, ◌||◌, Option, none, some, List, [], ◌∷◌, ◌++◌,
}
use krake.Prelude.Tests.{if◌then◌else◌}
use krake.Prelude.Keys.{Keyed, ◌==◌}
use krake.Data.Core.{ResourceRef, ref_key}
use krake.Data.Constraints.{Numbers}
use krake.Scheduler.Constraints.{QueryResult}

-- What a score is about: ClusterScore has the attribute `cluster`, CloudScore `cloud`.
pub data Place : Type 0 where
  cluster_place : ResourceRef → Place
  cloud_place : ResourceRef → Place

pub place_same : Place → Place → Bool
place_same (cluster_place a) (cluster_place b) = a == b
place_same (cloud_place a) (cloud_place b) = a == b
place_same _ _ = false

pub is_cluster : Place → Bool
is_cluster (cluster_place r) = true
is_cluster (cloud_place r) = false

pub record Score (N : Type 0) : Type 0 where
  pub score : N
  pub place : Place

-- A result, or ValueError for the maximum of an empty list.
pub data Chosen (A : Type 0) : Type 0 where
  chosen : A → Chosen A
  value_error : Chosen A

pub record Stickiness (N : Type 0) : Type 0 where
  pub weight : N
  pub value : N

module _ {N : Type 0} (ops : Numbers N) where
  -- `a > b`, as `total_ordering` makes it of `__lt__`: `not a < b and a != b`. RankMixin has no
  -- `__ne__`, so `!=` is that of tuples: the scores, and then the resources.
  pub greater : Score N → Score N → Bool
  unfolding place_same
  greater a b =
      not (ops.less a.score b.score)
      && not (ops.equals a.score b.score && place_same a.place b.place)

  -- `max`: the best so far against the rest.
  pub max_from : Score N → List (Score N) → Score N
  unfolding greater
  max_from best [] = best
  max_from best (s ∷ ss) =
      let replaced = max_from s ss in
      let kept = max_from best ss in if greater s best then replaced else kept

  pub max_score : List (Score N) → Chosen (Score N)
  unfolding max_from
  max_score [] = value_error
  max_score (s ∷ ss) = chosen (max_from s ss)

  -- `rank == best` is RankMixin's: the scores alone.
  pub maxima : Score N → List (Score N) → List (Score N)
  maxima best [] = []
  maxima best (s ∷ ss) =
      let rest = maxima best ss in if ops.equals s.score best.score then s ∷ rest else rest

  pub clusters_of : List (Score N) → List (Score N)
  unfolding is_cluster
  clusters_of [] = []
  clusters_of (s ∷ ss) = let rest = clusters_of ss in if is_cluster s.place then s ∷ rest else rest

  pub preferred : List (Score N) → List (Score N)
  unfolding clusters_of
  preferred ss = elim (clusters_of ss) [ [] ↦ ss | c ∷ cs ↦ c ∷ cs ]

  unfoldable pub select_maximum : (List (Score N) → Score N) → List (Score N) → Chosen (Score N)
  unfolding max_score maxima preferred
  select_maximum choice ranked = elim (max_score ranked) [
    | chosen best ↦ chosen (choice (preferred (maxima best ranked)))
    | value_error ↦ value_error
  ]

  weights : List (QueryResult N) → N
  weights [] = ops.zero
  weights (m ∷ ms) = ops.add m.weight (weights ms)

  weighted : List (QueryResult N) → N
  weighted [] = ops.zero
  weighted (m ∷ ms) = ops.add (ops.multiply m.value m.weight) (weighted ms)

  unfoldable pub calculate_cloud_score : List (QueryResult N) → ResourceRef → Score N
  unfolding weights weighted
  calculate_cloud_score [] cloud = record { score = ops.zero; place = cloud_place cloud }
  calculate_cloud_score (m ∷ ms) cloud = record {
    score = ops.divide (weighted (m ∷ ms)) (weights (m ∷ ms));
    place = cloud_place cloud;
  }

  -- An application sticks to the cluster where it is scheduled.
  calculate_stickiness : N → ResourceRef → Option ResourceRef → Stickiness N
  calculate_stickiness stickiness cluster none = record { weight = ops.zero; value = ops.zero }
  calculate_stickiness stickiness cluster (some scheduled_to) =
      if cluster == scheduled_to
      then record { weight = stickiness; value = ops.one }
      else record { weight = ops.zero; value = ops.zero }

  pub calculate_kubernetes_cluster_score :
      N → List (QueryResult N) → ResourceRef → Option ResourceRef → Score N
  unfolding weights weighted calculate_stickiness
  calculate_kubernetes_cluster_score stickiness [] cluster scheduled_to =
      let sticky = calculate_stickiness stickiness cluster scheduled_to in
      record { score = ops.multiply sticky.weight sticky.value; place = cluster_place cluster }
  calculate_kubernetes_cluster_score stickiness (m ∷ ms) cluster scheduled_to =
      let sticky = calculate_stickiness stickiness cluster scheduled_to in
      record {
        score =
            ops.divide (ops.add (weighted (m ∷ ms)) (ops.multiply sticky.value sticky.weight))
              (ops.add (weights (m ∷ ms)) sticky.weight);
        place = cluster_place cluster;
      }
