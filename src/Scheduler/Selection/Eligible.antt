-- ===== src/Scheduler/Selection/Eligible.antt =====
-- A cluster that is selected is online, not deleted, and fulfills the constraints.
use krake.Prelude.{
  ℕ, String, ◌≡◌, ◌⊎◌, inl, inr, refl, Bool, true, false, Option, none, List, [], ◌++◌, arith,
}
use krake.Prelude.Tests.{if◌then◌else◌}
use krake.Prelude.Keys.{string_key}
use krake.Prelude.Lists.{All, Any, All-map, All-member, All-append, Any-All}
use krake.Prelude.Dict.{Dict}
use krake.Data.Core.{ResourceRef, ref_key}
use krake.Data.Constraints.{Numbers}
use krake.Scheduler.Constraints.{QueryResult, Candidate, fulfilled, match_application_constraints}
use krake.Scheduler.Ranking.{
  Place, cluster_place, cloud_place, Score, Chosen, chosen, select_maximum,
  calculate_kubernetes_cluster_score,
}
use krake.Scheduler.Ranking as Ranking
use krake.Scheduler.Ranking.Order.{LinearOrder, select_maximum-empty}
use krake.Scheduler.Ranking.Maximum.{Picks, select_maximum-Beaten}
use krake.Scheduler.Selection.Scored.{
  fetched_of, Places, Scored, existing-All, matching_clusters-All, score_matching-All,
}
use krake.Scheduler.Selection.{
  Cluster, Wanted, selected, no_cluster_found, raises_value_error, raises_key_error, matching,
  ClusterScores, stays, scores, nothing_matches, scores_key_error, scores_value_error,
  scores_attribute_error, raises_attribute_error, existing, current_of, no_clusters,
  matching_clusters, with_metrics, rank_clusters, rank_without_metrics, or_else, score_matching,
  fetch_kubernetes_cluster_scores, of_chosen, select_scheduling_location,
}

module _ {N : Type 0} (ops : Numbers N) (order : LinearOrder ops) (inherited : Cluster → Candidate)
    (fetch fetch_again : Cluster → Option (List (QueryResult N))) where
  -- What an application may be placed on: a cluster of the list that is online, is not deleted and
  -- fulfills the constraints of the application.
  abbrev pub Eligible : Wanted → List Cluster → ResourceRef → Type 0
  Eligible app clusters r =
      (c : Cluster) × Any (λ d. d ≡ c) clusters
      × (c.ref ≡ r)
      × (c.deleted ≡ none)
      × (c.online ≡ true)
      × (match_application_constraints ops app.constraints (inherited c)
            (fetched_of ops inherited fetch fetch_again clusters)
          ≡ fulfilled)

  -- What is true of every cluster that matches.
  abbrev Good : Wanted → List Cluster → Cluster → Type 0
  Good app clusters c =
      (Any (λ d. d ≡ c) clusters × (c.deleted ≡ none) × (c.online ≡ true))
      × (match_application_constraints ops app.constraints (inherited c)
            (fetched_of ops inherited fetch fetch_again clusters)
          ≡ fulfilled)

  fetch-Good :
      (stickiness : N) (now after : ℕ) (app : Wanted) (clusters : List Cluster)
      → Scored ops inherited fetch fetch_again (Good app clusters) (
          fetch_kubernetes_cluster_scores ops inherited fetch fetch_again stickiness now after app
            clusters)
  unfolding fetch_kubernetes_cluster_scores
  fetch-Good stickiness now after app clusters =
      score_matching-All ops inherited fetch fetch_again (Good app clusters) stickiness now after
        app (fetched_of ops inherited fetch fetch_again clusters) _
        (λ ms e.
          matching_clusters-All ops inherited fetch fetch_again
            (λ c. Any (λ d. d ≡ c) clusters × (c.deleted ≡ none) × (c.online ≡ true))
            app.constraints (fetched_of ops inherited fetch fetch_again clusters)
            (existing clusters) ms
            (existing-All (λ c. Any (λ d. d ≡ c) clusters) clusters (All-member clusters)) e)

  of_chosen-selected :
      (m : Chosen (Score N)) (p : Place)
      → of_chosen ops inherited fetch fetch_again m ≡ selected p
      → (s : Score N) × (m ≡ chosen s) × (s.place ≡ p)
  unfolding of_chosen
  of_chosen-selected (chosen s) p h = (s, refl, ground (arith, h))
  of_chosen-selected Ranking.value_error p h = absurd (cc h)

  abbrev CloudPlace : Score N → Type 0
  CloudPlace s = (cloud : ResourceRef) × (s.place ≡ cloud_place cloud)

  All-placed :
      (P : Cluster → Type 0) (auto : Bool) (ss clouds : List (Score N))
      → All (Places ops inherited fetch fetch_again P) ss
      → All CloudPlace clouds
      → All
          (λ s. Places ops inherited fetch fetch_again P s ⊎ CloudPlace s)
          (if auto then ss ++ clouds else ss)
  All-placed P true ss clouds h k =
      All-append (λ s. Places ops inherited fetch fetch_again P s ⊎ CloudPlace s) ss clouds
        (All-map ss (λ s x. inl x) h) (All-map clouds (λ s x. inr x) k)
  All-placed P false ss clouds h k = All-map ss (λ s x. inl x) h

  selected-Good :
      (choice : List (Score N) → Score N) (app : Wanted) (clusters : List Cluster)
      (clouds : List (Score N)) (r : ResourceRef) (result : ClusterScores N)
      → Picks ops order choice
      → All CloudPlace clouds
      → Scored ops inherited fetch fetch_again (Good app clusters) result
      → elim result [
        | stays c ↦ selected (cluster_place c.ref)
        | scores ss ↦
            of_chosen ops inherited fetch fetch_again
              (select_maximum ops choice (if app.auto_cluster_create then ss ++ clouds else ss))
        | nothing_matches ↦ no_cluster_found
        | scores_key_error ↦ raises_key_error
        | scores_value_error ↦ raises_value_error
        | scores_attribute_error ↦ raises_attribute_error
      ]
        ≡ selected (cluster_place r)
      → Eligible app clusters r
  selected-Good choice app clusters clouds r (stays c) picks only good h =
      (c, good.0.0, ground (arith, h), good.0.1, good.0.2, good.1)
  selected-Good choice app clusters clouds r (scores ss) picks only good h =
      let ranked = if app.auto_cluster_create then ss ++ clouds else ss in
      let (s, chose, place) =
        of_chosen-selected (select_maximum ops choice ranked) (cluster_place r) h in
      let (found, _) = select_maximum-Beaten ops order choice ranked s picks chose in
      let (t, same, placed) =
        Any-All ranked found
          (All-placed (Good app clusters) app.auto_cluster_create ss clouds good only) in
      elim placed [
        | inl (c, fine, at) ↦
            (c, fine.0.0, ground (arith, same, place, at), fine.0.1, fine.0.2, fine.1)
        | inr (cloud, at) ↦ absurd (ground (arith, same, place, at))
      ]
  selected-Good choice app clusters clouds r nothing_matches picks only good h = absurd (cc h)
  selected-Good choice app clusters clouds r scores_key_error picks only good h = absurd (cc h)
  selected-Good choice app clusters clouds r scores_value_error picks only good h = absurd (cc h)
  selected-Good choice app clusters clouds r scores_attribute_error picks only good h =
      absurd (cc h)

  -- When the numbers are in a linear order, the choice returns a member of its list, and the scores
  -- of clouds are about clouds: a cluster that is selected is one of the list that is online, is not
  -- deleted and fulfills the constraints of the application, also when the application stays where
  -- it is.
  pub selected-Eligible :
      (choice : List (Score N) → Score N) (stickiness : N) (now after : ℕ) (app : Wanted)
      (clusters : List Cluster) (clouds : List (Score N)) (r : ResourceRef)
      → Picks ops order choice
      → All (λ s. (cloud : ResourceRef) × (s.place ≡ cloud_place cloud)) clouds
      → select_scheduling_location ops inherited fetch fetch_again choice stickiness now after app
          clusters clouds
        ≡ selected (cluster_place r)
      → Eligible app clusters r
  unfolding select_scheduling_location fetch_kubernetes_cluster_scores
  selected-Eligible choice stickiness now after app clusters clouds r picks only_clouds h =
      selected-Good choice app clusters clouds r
        (fetch_kubernetes_cluster_scores ops inherited fetch fetch_again stickiness now after app
          clusters)
        picks only_clouds (fetch-Good stickiness now after app clusters) h

  scores-nothing :
      (stickiness : N) (now after : ℕ) (app : Wanted) (fetched : Dict String (List (QueryResult N)))
      → app.auto_cluster_create ≡ true
      → score_matching ops inherited fetch fetch_again stickiness now after app fetched
          (matching [])
        ≡ scores []
  unfolding score_matching no_clusters current_of with_metrics rank_clusters rank_without_metrics
      or_else
  scores-nothing stickiness now after app fetched auto = rw (score_matching, auto) refl

  fetch-nothing :
      (stickiness : N) (now after : ℕ) (app : Wanted) (clusters : List Cluster)
      → app.auto_cluster_create ≡ true
      → existing clusters ≡ []
      → fetch_kubernetes_cluster_scores ops inherited fetch fetch_again stickiness now after app
          clusters
        ≡ scores []
  unfolding fetch_kubernetes_cluster_scores matching_clusters
  fetch-nothing stickiness now after app clusters auto none_left =
      rw (fetch_kubernetes_cluster_scores, none_left)
        (scores-nothing stickiness now after app
          (fetched_of ops inherited fetch fetch_again clusters) auto)

  -- With automatic cluster creation, but no cluster that exists and is online, and no cloud that
  -- scores, the
  -- selection does not end with NoClusterFound: it raises ValueError, which is no ControllerError.
  pub nothing-to_select :
      (choice : List (Score N) → Score N) (stickiness : N) (now after : ℕ) (app : Wanted)
      (clusters : List Cluster)
      → app.auto_cluster_create ≡ true
      → existing clusters ≡ []
      → select_scheduling_location ops inherited fetch fetch_again choice stickiness now after app
          clusters []
        ≡ raises_value_error
  unfolding select_scheduling_location of_chosen
  nothing-to_select choice stickiness now after app clusters auto none_left =
      rw
        (
          select_scheduling_location,
          fetch-nothing stickiness now after app clusters auto none_left,
          auto,
          select_maximum-empty ops choice,
        )
        refl
