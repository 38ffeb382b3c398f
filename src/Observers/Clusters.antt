-- ===== src/Observers/Clusters.antt =====
-- KubernetesClusterObserver.poll_resource.
pub mod Online
use krake.Prelude.{String, Bool, true, false, not, ◌&&◌, ◌||◌, Option, none, some, List, [], ◌∷◌}
use krake.Prelude.Tests.{if◌then◌else◌}
use krake.Prelude.Keys.{string_key, ◌==◌}

pub data ClusterState : Type 0 where
  pending online connecting offline unhealthy notready failing_metrics : ClusterState
  creating reconciling deleting failing_reconciliation failed degraded : ClusterState

-- `type` in lower case, and whether that ends in "pressure".
pub record Condition : Type 0 where
  pub type : String
  pub pressure : Bool
  pub status : String

pub record Node : Type 0 where
  pub name : String
  pub conditions : List Condition

pub record ClusterStatus : Type 0 where
  pub state : ClusterState
  pub nodes : List Node

-- The two tests on a condition, with what the first that holds says.
unfoldable pub verdict : Condition → Option ClusterState
verdict c =
    if c.pressure && c.status == "True"
    then some unhealthy
    else if c.type == "ready" && not (c.status == "True")
    then some notready
    else none

unfoldable pub first_of : Option ClusterState → Option ClusterState → Option ClusterState
first_of none rest = rest
first_of (some s) rest = some s

unfoldable pub check_conditions : List Condition → Option ClusterState
unfolding verdict first_of
check_conditions [] = none
check_conditions (c ∷ cs) = first_of (verdict c) (check_conditions cs)

unfoldable pub check_nodes : List Node → Option ClusterState
unfolding check_conditions first_of
check_nodes [] = none
check_nodes (n ∷ ns) = first_of (check_conditions n.conditions) (check_nodes ns)

unfoldable pub or_online : Option ClusterState → ClusterState
or_online none = online
or_online (some s) = s

-- The state after the nodes were listed.
unfoldable pub observed_state : ClusterState → List Node → ClusterState
unfolding check_nodes or_online
observed_state failing_metrics nodes = failing_metrics
observed_state offline nodes = connecting
observed_state _ nodes = or_online (check_nodes nodes)

-- `none` stands for an error of the request for the nodes: the list of nodes is empty then.
unfoldable pub poll_cluster : ClusterStatus → Option (List Node) → ClusterStatus
unfolding observed_state
poll_cluster status none = record { state = offline; nodes = [] }
poll_cluster status (some nodes) = record {
  state = observed_state status.state nodes;
  nodes = nodes;
}

-- The polls of an observer, each with the answer of the cluster.
unfoldable pub poll_all : ClusterStatus → List (Option (List Node)) → ClusterStatus
unfolding poll_cluster
poll_all status [] = status
poll_all status (answer ∷ answers) = poll_all (poll_cluster status answer) answers
