-- ===== src/Observers/Examples.antt =====
-- An observed application of two resources, and the properties at concrete inputs.
use krake.Prelude.{String, ◌≡◌, ◌≢◌, ◌↔◌, refl, false, none, some, List, [], ◌∷◌}
use krake.Prelude.Tests.{if◌then◌else◌}
use krake.Scheduler.Applications.{pending, running}
use krake.Manifest.Results.{ok}
use krake.Manifest.Resources.{get_kubernetes_resource_idx, entry}
use krake.Manifest.Observed.{observe_resource}
use krake.Manifest.Values.{Value, str, dict, end, field, same}
use krake.Observers.Clusters.{online, notready, offline, failing_metrics, Node, poll_cluster}
use krake.Observers.Clusters.Online.{online_iff, AreGood}
use krake.Observers.Containers.{workload, Status, Reading, found, poll_resources}
use krake.Observers.Containers.Last.{ready, last-running}

abbrev deployment : String → String → Value
deployment version name = dict (
    field version (str "apps/v1")
      (field "kind" (str "Deployment") (field "metadata" (dict (field "name" (str name) end)) end)))

abbrev broken : Value
broken = deployment "apiVersion" "broken"

abbrev fine : Value
fine = deployment "apiVersion" "fine"

-- Nothing runs of the first, and the one replica of the second does.
abbrev read : Value → Reading
read v =
    if same v broken
    then found (workload (some 2) none) (deployment "api_version" "broken")
    else found (ready 1) (deployment "api_version" "fine")

abbrev before : Status
before = record { state = pending; container_health = none; last_observed_manifest = [] }

abbrev after : Status
after = record {
  state = running;
  container_health =
      some
        (record { desired_pods = some 1; running_pods = 1; completed_pods = 0; failed_pods = 0 });
  last_observed_manifest = broken ∷ fine ∷ [];
}

polled : poll_resources read (broken ∷ fine ∷ []) (broken ∷ fine ∷ []) before ≡ ok (some after)
unfolding poll_resources get_kubernetes_resource_idx entry observe_resource
polled = refl

last-running_example : after.state ≡ running
unfolding same
last-running_example =
    last-running read (broken ∷ fine ∷ []) (broken ∷ []) fine (deployment "api_version" "fine") 1
      before after refl polled

abbrev ready_node : Node
ready_node = record {
  name = "n";
  conditions = record { type = "ready"; pressure = false; status = "True" } ∷ [];
}

online_iff_example :
    ((poll_cluster (record { state = notready; nodes = [] }) (some (ready_node ∷ []))).state
      ≡ online)
    ↔ ((notready ≢ failing_metrics)
        × (notready ≢ offline)
        × (ns : List Node) × (some (ready_node ∷ []) ≡ some ns)
        × AreGood ns)
online_iff_example = online_iff (record { state = notready; nodes = [] }) (some (ready_node ∷ []))
