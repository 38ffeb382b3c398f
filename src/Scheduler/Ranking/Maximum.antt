-- ===== src/Scheduler/Ranking/Maximum.antt =====
-- Which scores the selection may return.
use krake.Prelude.{
  ◌≡◌, ◌↔◌, inl, inr, refl, ap, sym, subst, Bool, true, false, ◌&&◌, ◌||◌, List, [], ◌∷◌, arith,
}
use krake.Prelude.Tests.{if◌then◌else◌, if_true, if_false, Bool-cases}
use krake.Prelude.Lists.{All}
use krake.Data.Core.{ref_key}
use krake.Data.Constraints.{Numbers}
use krake.Scheduler.Ranking.Order.{
  LinearOrder, In, Beaten, place_same_iff, max_score-Top, maxima_iff,
}
use krake.Scheduler.Ranking.{
  place_same, Score, Chosen, chosen, value_error, max_from, max_score, maxima, clusters_of,
  preferred, select_maximum,
}
use krake.Scheduler.Ranking.Candidates.{Selectable, candidates_iff}

module _ {N : Type 0} (ops : Numbers N) (order : LinearOrder ops) where
  -- What `random.choice` is documented to do: it returns a member of a list that is not empty.
  abbrev pub Picks : (List (Score N) → Score N) → Type 0
  Picks choice = (s : Score N) (ss : List (Score N)) → In (choice (s ∷ ss)) (s ∷ ss)

  some_candidate :
      (b : Score N) (ss : List (Score N)) → In b ss → (c : Score N) × In c (preferred ops ss)
  unfolding preferred
  some_candidate b ss here = by_clusters (clusters_of ops ss)
    where
      by_clusters :
          (cs : List (Score N))
          → (c : Score N) × In c (elim cs as (λ x. List (Score N)) [ [] ↦ ss | d ∷ ds ↦ d ∷ ds ])
      by_clusters [] = (b, here)
      by_clusters (c ∷ cs) = (c, inl refl)

  choice-In :
      (choice : List (Score N) → Score N) (c : Score N) (ss : List (Score N))
      → Picks choice
      → In c ss
      → In (choice ss) ss
  choice-In choice c [] picks h = elim h [ ]
  choice-In choice c (s ∷ ss) picks h = picks s ss

  best-chosen :
      (choice : List (Score N) → Score N) (ranked : List (Score N)) (r : Score N)
      → select_maximum ops choice ranked ≡ chosen r
      → (best : Score N) × (max_score ops ranked ≡ chosen best)
        × (choice (preferred ops (maxima ops best ranked)) ≡ r)
  unfolding select_maximum
  best-chosen choice ranked r h = by_maximum (max_score ops ranked) refl h
    where
      by_maximum :
          (m : Chosen (Score N))
          → max_score ops ranked ≡ m
          → elim m as (λ x. Chosen (Score N)) [
            | chosen best ↦ chosen (choice (preferred ops (maxima ops best ranked)))
            | value_error ↦ value_error
          ]
            ≡ chosen r
          → (best : Score N) × (max_score ops ranked ≡ chosen best)
            × (choice (preferred ops (maxima ops best ranked)) ≡ r)
      by_maximum (chosen best) e k = (best, e, ground (arith, k))
      by_maximum value_error e k = absurd (cc k)

  -- What a choice that returns a member selects is one of the scores, and beats the others.
  pub select_maximum-Beaten :
      (choice : List (Score N) → Score N) (ranked : List (Score N)) (r : Score N)
      → Picks choice
      → select_maximum ops choice ranked ≡ chosen r
      → In r ranked × All (Beaten ops order r) ranked
  select_maximum-Beaten choice ranked r picks h =
      let (best, e, picked) = best-chosen choice ranked r h in
      let (there, top) = max_score-Top ops order ranked best e in
      let (c, some_left) =
        some_candidate best (maxima ops best ranked)
          ((maxima_iff ops order best best ranked).1 (there, refl)) in
      (candidates_iff ops order best r ranked e).0 (
        subst (λ s. In s (preferred ops (maxima ops best ranked))) picked
          (choice-In choice c (preferred ops (maxima ops best ranked)) picks some_left))

  unfoldable score_same : Score N → Score N → Bool
  score_same a b = ops.equals a.score b.score && place_same a.place b.place

  score_same_iff : (a b : Score N) → (score_same a b ≡ true) ↔ (a ≡ b)
  unfolding score_same
  score_same_iff a b =
      ground (arith, order.equals_iff a.score b.score, place_same_iff a.place b.place)

  unfoldable member_of : Score N → List (Score N) → Bool
  member_of r [] = false
  member_of r (s ∷ ss) = score_same s r || member_of r ss

  member_of_iff : (r : Score N) (ss : List (Score N)) → (member_of r ss ≡ true) ↔ In r ss
  unfolding member_of
  member_of_iff r [] = ground arith
  member_of_iff r (s ∷ ss) = ground (arith, member_of_iff r ss, score_same_iff s r)

  -- The choice of `r` where it can be chosen, and of the first score elsewhere.
  unfoldable choose : Score N → List (Score N) → Score N
  unfolding member_of
  choose r [] = r
  choose r (s ∷ ss) = if member_of r (s ∷ ss) then r else s

  choose-Picks : (r : Score N) → Picks (choose r)
  unfolding choose
  choose-Picks r s ss = elim (Bool-cases (member_of r (s ∷ ss))) [
    | inl is ↦
        subst (λ t. In t (s ∷ ss)) (sym (if_true (member_of r (s ∷ ss)) r s is))
          ((member_of_iff r (s ∷ ss)).0 is)
    | inr out ↦
        subst (λ t. In t (s ∷ ss)) (sym (if_false (member_of r (s ∷ ss)) r s out)) (inl refl)
  ]

  choose-member : (r : Score N) (ss : List (Score N)) → In r ss → choose r ss ≡ r
  unfolding choose
  choose-member r [] h = refl
  choose-member r (s ∷ ss) h = if_true (member_of r (s ∷ ss)) r s ((member_of_iff r (s ∷ ss)).1 h)

  some-best :
      (ranked : List (Score N)) (r : Score N)
      → In r ranked
      → (best : Score N) × (max_score ops ranked ≡ chosen best)
  unfolding max_score
  some-best [] r h = elim h [ ]
  some-best (s ∷ ss) r h = (max_from ops s ss, refl)

  Selectable-chosen :
      (ranked : List (Score N)) (r : Score N)
      → Selectable ops order r ranked
      → select_maximum ops (choose r) ranked ≡ chosen r
  unfolding select_maximum
  Selectable-chosen ranked r c =
      let (best, e) = some-best ranked r c.0 in
      rw (select_maximum, e)
        (ap chosen (
          choose-member r (preferred ops (maxima ops best ranked))
            ((candidates_iff ops order best r ranked e).1 c)))

  -- Under a linear order, the scores that a random choice may select are exactly those of the list
  -- that beat the others: every other score of the list is strictly worse, or it ties, and is not
  -- about a cluster unless this one is. So each of several clusters that tie for the best score can
  -- be selected.
  pub select_maximum_iff :
      (ranked : List (Score N)) (r : Score N)
      → ((choice : List (Score N) → Score N) × Picks choice
          × (select_maximum ops choice ranked ≡ chosen r))
        ↔ (In r ranked × All (Beaten ops order r) ranked)
  select_maximum_iff ranked r = (
    λ (choice, picks, h). select_maximum-Beaten choice ranked r picks h,
    λ c. (choose r, choose-Picks r, Selectable-chosen ranked r c),
  )
