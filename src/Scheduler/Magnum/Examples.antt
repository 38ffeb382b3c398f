-- ===== src/Scheduler/Magnum/Examples.antt =====
-- A Magnum cluster and its project, and the property at a concrete input.
use krake.Prelude.{ℕ, ◌≡◌, refl, false, none, [], ◌∷◌}
use krake.Prelude.Keys.{string_key}
use krake.Prelude.Dict.{get, has}
use krake.Scheduler.Magnum.{Project, MagnumCluster, inherit_from}
use krake.Scheduler.Magnum.Inherited.{get_or, named, preferred_metrics, inherit-labels_and_metrics}

abbrev team : Project ℕ
team = record {
  ref = record { api = "openstack"; kind = "Project"; name = "p"; namespace = none };
  labels = ("site", "one") ∷ ("tier", "gold") ∷ [];
  metrics = record { name = "heat"; weight = 1 } ∷ record { name = "load"; weight = 2 } ∷ [];
  deleted = false;
}

abbrev cluster : MagnumCluster ℕ
cluster = record {
  labels = ("site", "two") ∷ [];
  metrics = record { name = "heat"; weight = 5 } ∷ [];
  constraints = [];
  bound = false;
  deleted = false;
}

test_inherit : inherit_from team cluster ≡ record cluster {
  labels = ("site", "two") ∷ ("tier", "gold") ∷ [];
  metrics = record { name = "heat"; weight = 5 } ∷ record { name = "load"; weight = 2 } ∷ [];
}
unfolding inherit_from
test_inherit = refl

inherit-labels_and_metrics_example :
    (get "site" (inherit_from team cluster).labels
      ≡ get_or "site" cluster.labels (get "site" team.labels))
    × (named "heat" (inherit_from team cluster).metrics
        ≡ preferred_metrics "heat" cluster.metrics team.metrics)
unfolding has
inherit-labels_and_metrics_example =
    inherit-labels_and_metrics team cluster "site" "heat" (refl, tt)
