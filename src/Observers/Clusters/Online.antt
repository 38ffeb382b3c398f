-- ===== src/Observers/Clusters/Online.antt =====
-- When a cluster counts as online.
use krake.Prelude.{
  ◌≡◌, ◌≢◌, ◌↔◌, refl, sym, subst, false, not, ◌&&◌, ◌⊎◌, Option, none, some, List, [], ◌∷◌, inl,
  inr,
}
use krake.Prelude.Tests.{Bool-cases}
use krake.Prelude.Keys.{string_key, ◌==◌}
use krake.Observers.Clusters.{
  ClusterState, online, offline, failing_metrics, Condition, Node, ClusterStatus, verdict, first_of,
  check_conditions, check_nodes, or_online, observed_state, poll_cluster,
}

-- No pressure, and ready where the condition says whether the node is.
pub data IsGood : List Condition → Type 0 where
  no_condition : IsGood []
  condition :
      {c : Condition} {cs : List Condition}
      → (c.pressure && c.status == "True") ≡ false
      → (c.type == "ready" && not (c.status == "True")) ≡ false
      → IsGood cs
      → IsGood (c ∷ cs)

pub data AreGood : List Node → Type 0 where
  no_node : AreGood []
  node : {n : Node} {ns : List Node} → IsGood n.conditions → AreGood ns → AreGood (n ∷ ns)

conditions-cases :
    (cs : List Condition)
    → ((check_conditions cs ≡ none) × IsGood cs) ⊎ (or_online (check_conditions cs) ≢ online)
unfolding check_conditions or_online verdict first_of
conditions-cases [] = inl (refl, no_condition)
conditions-cases (c ∷ cs) = elim (Bool-cases (c.pressure && c.status == "True")) [
  | inl p ↦ inr (rw p (λ e. cc e))
  | inr p ↦ elim (Bool-cases (c.type == "ready" && not (c.status == "True"))) [
    | inl r ↦ inr (rw (p, r) (λ e. cc e))
    | inr r ↦ elim (conditions-cases cs) [
      | inl (e, good) ↦ inl (rw (p, r) e, condition p r good)
      | inr bad ↦ inr (rw (p, r) bad)
    ]
  ]
]

online_first :
    (o rest : Option ClusterState)
    → or_online o ≢ online
    → or_online (first_of o rest) ≡ online
    → or_online o ≡ online
unfolding first_of or_online
online_first none rest bad h = refl
online_first (some s) rest bad h = h

nodes-cases :
    (ns : List Node)
    → ((check_nodes ns ≡ none) × AreGood ns) ⊎ (or_online (check_nodes ns) ≢ online)
unfolding check_nodes or_online first_of
nodes-cases [] = inl (refl, no_node)
nodes-cases (n ∷ ns) = elim (conditions-cases n.conditions) [
  | inl (e, good) ↦ elim (nodes-cases ns) [
    | inl (f, goods) ↦ inl (simp (e, f), node good goods)
    | inr bad ↦ inr (λ h. bad (subst (λ o. or_online (first_of o (check_nodes ns)) ≡ online) e h))
  ]
  | inr bad ↦ inr (λ h. bad (online_first (check_conditions n.conditions) (check_nodes ns) bad h))
]

good-conditions : {cs : List Condition} → IsGood cs → check_conditions cs ≡ none
unfolding check_conditions verdict first_of
good-conditions no_condition = refl
good-conditions (condition p r h) = rw (p, r) (good-conditions h)

good-nodes : {ns : List Node} → AreGood ns → check_nodes ns ≡ none
unfolding check_nodes first_of
good-nodes no_node = refl
good-nodes (node h hs) = simp (good-conditions h, good-nodes hs)

all_good : (ns : List Node) → or_online (check_nodes ns) ≡ online → AreGood ns
all_good ns h = elim (nodes-cases ns) [ inl (e, good) ↦ good | inr bad ↦ absurd (bad h) ]

observed-online :
    (state : ClusterState) (ns : List Node)
    → observed_state state ns ≡ online
    → (state ≢ failing_metrics) × (state ≢ offline) × AreGood ns
unfolding observed_state
observed-online failing_metrics ns h = absurd (cc h)
observed-online offline ns h = absurd (cc h)
observed-online state ns h = ((λ e. cc e), (λ e. cc e), all_good ns h)

online-observed :
    (state : ClusterState) (ns : List Node)
    → state ≢ failing_metrics
    → state ≢ offline
    → AreGood ns
    → observed_state state ns ≡ online
unfolding observed_state or_online
online-observed failing_metrics ns f g h = absurd (f refl)
online-observed offline ns f g h = absurd (g refl)
online-observed state ns f g h = simp (good-nodes h)

-- A poll leaves a cluster online exactly if its nodes could be listed, the cluster was not offline
-- before and the scheduler does not miss metrics of it, and no condition of a node tells of
-- pressure or of a node that is not ready.
pub online_iff :
    (status : ClusterStatus) (answer : Option (List Node))
    → ((poll_cluster status answer).state ≡ online) ↔ (
        (status.state ≢ failing_metrics)
        × (status.state ≢ offline)
        × (ns : List Node) × (answer ≡ some ns)
        × AreGood ns)
unfolding poll_cluster
online_iff status none = (λ h. absurd (cc h), λ h. absurd (cc (h.3)))
online_iff status (some ns) = (
  λ h. let (f, g, good) = observed-online status.state ns h in (f, g, ns, refl, good),
  λ h. online-observed status.state ns h.0 h.1 (subst AreGood (sym (cc (h.3))) h.4),
)
