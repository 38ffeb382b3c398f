-- ===== src/Scheduler/Ranking/Candidates.antt =====
-- The scores among which `select_maximum` makes its random choice.
use krake.Prelude.{◌≡◌, ◌↔◌, inl, inr, refl, sym, ◌∙◌, subst, true, false, List, [], ◌∷◌, arith}
use krake.Prelude.Tests.{Bool-cases}
use krake.Prelude.Lists.{All}
use krake.Data.Core.{ref_key}
use krake.Data.Constraints.{Numbers}
use krake.Scheduler.Ranking.Order.{
  LinearOrder, In, Top, Beaten, All-of-members, All-at, max_score-Top, maxima_iff, clusters_of_iff,
}
use krake.Scheduler.Ranking.{is_cluster, Score, chosen, max_score, maxima, clusters_of, preferred}

module _ {N : Type 0} (ops : Numbers N) (order : LinearOrder ops) where
  -- Where some score is about a cluster, so is this one.
  abbrev Prefers : List (Score N) → Score N → Type 0
  Prefers ss r = (t : Score N) → In t ss → is_cluster t.place ≡ true → is_cluster r.place ≡ true

  no_clusters-Prefers : (ss : List (Score N)) (r : Score N) → clusters_of ops ss ≡ [] → Prefers ss r
  no_clusters-Prefers ss r none_left t there is =
      absurd (subst (In t) none_left ((clusters_of_iff ops order t ss).1 (there, is)))

  clusters-Prefers :
      (c r : Score N) (cs ss : List (Score N))
      → clusters_of ops ss ≡ c ∷ cs
      → In r (clusters_of ops ss) ↔ (In r ss × Prefers ss r)
  clusters-Prefers c r cs ss some_left = (
    λ h. let (there, is) = (clusters_of_iff ops order r ss).0 h in (there, λ t i k. is),
    λ (there, prefers).
        let (c_there, c_is) =
          (clusters_of_iff ops order c ss).0 (subst (In c) (sym some_left) (inl refl)) in
        (clusters_of_iff ops order r ss).1 (there, prefers c c_there c_is),
  )

  -- Clusters are preferred over clouds.
  preferred_iff :
      (r : Score N) (ss : List (Score N)) → In r (preferred ops ss) ↔ (In r ss × Prefers ss r)
  unfolding preferred
  preferred_iff r ss = by_clusters (clusters_of ops ss) refl
    where
      by_clusters :
          (cs : List (Score N))
          → clusters_of ops ss ≡ cs
          → In r (elim cs as (λ x. List (Score N)) [ [] ↦ ss | c ∷ ds ↦ c ∷ ds ])
            ↔ (In r ss × Prefers ss r)
      by_clusters [] e = (λ h. (h, no_clusters-Prefers ss r e), λ h. h.0)
      by_clusters (c ∷ cs) e =
          subst (λ l. In r l ↔ (In r ss × Prefers ss r)) e (clusters-Prefers c r cs ss e)

  -- The scores among which the choice is made.
  abbrev pub Selectable : Score N → List (Score N) → Type 0
  Selectable r ranked = In r ranked × All (Beaten ops order r) ranked

  tied-Beaten :
      (best r : Score N) (ranked : List (Score N))
      → Top ops order best ranked
      → r.score ≡ best.score
      → Prefers (maxima ops best ranked) r
      → (s : Score N) → In s ranked
      → Beaten ops order r s
  tied-Beaten best r ranked top same prefers s there =
      elim (Bool-cases (ops.equals s.score best.score)) [
        | inl tied ↦
            let tie : s.score ≡ best.score = (order.equals_iff s.score best.score).0 tied in
            inr (tie ∙ sym same, prefers s ((maxima_iff ops order best s ranked).1 (there, tie)))
        | inr worse ↦ inl (
            ground (
              arith,
              same,
              worse,
              order.less-total best.score s.score,
              order.equals_iff s.score best.score,
              order.equals_iff best.score s.score,
              All-at (λ t. ops.less best.score t.score ≡ false) s ranked there top,
            ))
      ]

  Beaten-tied :
      (best r : Score N) (ranked : List (Score N))
      → In best ranked
      → Top ops order best ranked
      → Selectable r ranked
      → r.score ≡ best.score
  Beaten-tied best r ranked here top (there, beaten) = ground (
    arith,
    All-at (λ t. ops.less best.score t.score ≡ false) r ranked there top,
    All-at (Beaten ops order r) best ranked here beaten,
  )

  tie-prefers :
      (r t : Score N)
      → t.score ≡ r.score
      → is_cluster t.place ≡ true
      → Beaten ops order r t
      → is_cluster r.place ≡ true
  tie-prefers r t tie is beaten = ground (arith, tie, is, beaten, order.less-irrefl r.score)

  pub candidates_iff :
      (best r : Score N) (ranked : List (Score N))
      → max_score ops ranked ≡ chosen best
      → In r (preferred ops (maxima ops best ranked)) ↔ Selectable r ranked
  candidates_iff best r ranked e =
      let (here, top) = max_score-Top ops order ranked best e in
      (
        λ h.
            let (tied, prefers) = (preferred_iff r (maxima ops best ranked)).0 h in
            let (there, same) = (maxima_iff ops order best r ranked).0 tied in
            (
              there,
              All-of-members (Beaten ops order r) ranked
                  (tied-Beaten best r ranked top same prefers),
            ),
        λ c.
            let same : r.score ≡ best.score = Beaten-tied best r ranked here top c in
            (preferred_iff r (maxima ops best ranked)).1 (
              (maxima_iff ops order best r ranked).1 (c.0, same),
              λ t i is.
                  let (inside, tie) = (maxima_iff ops order best t ranked).0 i in
                  tie-prefers r t (tie ∙ sym same) is
                    (All-at (Beaten ops order r) t ranked inside c.1),
            ),
      )
