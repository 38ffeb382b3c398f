-- ===== src/Scheduler/Clusters/Scheduling.antt =====
-- KubernetesClusterHandler.schedule_kubernetes_cluster, with the requests that it sends. A request
-- that fails ends it with its exception, and is left out.
use krake.Prelude.{
  ◌≡◌, inl, inr, refl, Bool, true, false, not, ◌&&◌, ◌||◌, Option, none, some, List, [], ◌∷◌,
  String,
}
use krake.Prelude.Tests.{if◌then◌else◌}
use krake.Prelude.Keys.{◌==◌, string_key}
use krake.Prelude.Lists.{Any}
use krake.Data.Core.{ResourceRef}
use krake.Scheduler.Clusters.{
  Cloud, Unbound, Failure, no_cloud_found, already_bound, Selection, failure, picked,
}

pub data ClusterRequest : Type 0 where
  list_all_applications delete_cluster list_clouds list_global_clouds : ClusterRequest
  update_cluster_binding : ResourceRef → ClusterRequest

-- The name of the cluster where each application is scheduled. The `break` stands after the `if`,
-- so that the loop looks at the first application only.
unfoldable pub cluster_has_apps : Unbound → List (Option String) → Bool
cluster_has_apps cluster [] = false
cluster_has_apps cluster (none ∷ apps) = not cluster.online
cluster_has_apps cluster (some name ∷ apps) = name == cluster.name || not cluster.online

unfoldable pub delete_unused :
    Unbound → List (Option String) → List ClusterRequest → List ClusterRequest
unfolding cluster_has_apps
delete_unused cluster apps rest =
    if not (cluster_has_apps cluster apps) && cluster.auto_generated && not cluster.deleted
    then delete_cluster ∷ rest
    else rest

pub record Scheduled : Type 0 where
  pub requests : List ClusterRequest
  pub error : Option Failure

bind_global : Selection ResourceRef → Scheduled
bind_global (picked r) = record {
  requests = list_global_clouds ∷ update_cluster_binding r ∷ [];
  error = none;
}
bind_global (failure f) = record { requests = list_global_clouds ∷ []; error = some f }

-- The clouds of the namespace, and the global ones on NoCloudFound.
unfoldable pub bind_cloud : Selection ResourceRef → Selection ResourceRef → Scheduled
unfolding bind_global
bind_cloud (picked r) global = record { requests = update_cluster_binding r ∷ []; error = none }
bind_cloud (failure no_cloud_found) global = bind_global global
bind_cloud (failure f) global = record { requests = []; error = some f }

module _ (select_cloud : Unbound → List Cloud → Selection ResourceRef) where
  unfoldable pub schedule_kubernetes_cluster :
      Unbound → List (Option String) → List Cloud → List Cloud → Scheduled
  unfolding delete_unused bind_cloud
  schedule_kubernetes_cluster cluster apps clouds global =
      let bound = bind_cloud (select_cloud cluster clouds) (select_cloud cluster global) in
      if cluster.bound then record { requests = []; error = some already_bound } else record {
        requests =
            list_all_applications ∷ delete_unused cluster apps (list_clouds ∷ bound.requests);
        error = bound.error;
      }

  -- A cluster that is online, was generated automatically, is not bound and not marked for
  -- deletion is deleted when the first application of the list is on another cluster, however many
  -- of the others run on it.
  pub used-deleted :
      (cluster : Unbound) (other : String) (apps : List (Option String))
      (clouds global : List Cloud)
      → cluster.bound ≡ false
      → cluster.online ≡ true
      → cluster.auto_generated ≡ true
      → cluster.deleted ≡ false
      → (other == cluster.name) ≡ false
      → Any (λ app. app ≡ some cluster.name) apps
      → Any
          (λ r. r ≡ delete_cluster)
          (schedule_kubernetes_cluster cluster (some other ∷ apps) clouds global).requests
  unfolding schedule_kubernetes_cluster delete_unused cluster_has_apps
  used-deleted cluster other apps clouds global free online auto kept elsewhere used =
      rw (free, online, auto, kept, elsewhere) (inr (inl refl))
