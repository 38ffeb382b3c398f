-- ===== src/Kubernetes/Examples.antt =====
-- A small application, its reconciliation, and the properties at concrete inputs.
use krake.Prelude.{suc, ◌+◌, ◌≤◌, String, ◌≡◌, refl, true, false, none, some, List, [], ◌∷◌}
use krake.Prelude.Keys.{string_key, contains}
use krake.Data.Core.{ResourceRef}
use krake.Scheduler.Applications.{running}
use krake.Manifest.Results.{Result, ok}
use krake.Manifest.Values.{Value, str, dict, end, field}
use krake.Kubernetes.Applications.{Application, deletion_finalizer}
use krake.Kubernetes.Tasks.{
  apply_resource, Environment, returned, Task, pure, continue, send, lift, required, fetch,
}
use krake.Manifest.Schema.{generate_default_observer_schema}
use krake.Manifest.Applied.Specification.{update_last_applied_manifest_from_spec}
use krake.Manifest.Applied.{update_last_applied_manifest_from_resp}
use krake.Manifest.Observed.{update_last_observed_manifest_from_resp}
use krake.Kubernetes.Services.{register_service}
use krake.Kubernetes.Manifests.{ensure_finalizer, apply_manifest}
use krake.Kubernetes.Deletion.{
  ShutdownConfiguration, has_shutdown_strategy, or_else, run_app_shutdown,
}
use krake.Kubernetes.Deletion.Attempts.{shutdown_calls, shutdown_attempts-le}
use krake.Kubernetes.Reconciliation.{reconcile_application, migrate_application}
use krake.Kubernetes.Reconciliation.Finalizer.{is_guarded}
use krake.Kubernetes.Reconciliation.Guarded.{reconciled-Guarded}
use krake.Kubernetes.Reconciliation.Worker.{is_ready, resource_received}
use krake.Kubernetes.Reconciliation.Worker.Graceful.{touched}
use krake.Kubernetes.Reconciliation.Worker.Kept.{with_tasks, shutdown-keeps}

abbrev named : String → Value
named version = dict (
    field version (str "v1")
      (field "kind" (str "ConfigMap") (field "metadata" (dict (field "name" (str "a") end)) end)))

-- Every request succeeds.
abbrev world : Environment
world = record {
  failure = λ log. none;
  response = λ log. named "api_version";
  host = λ log. "host";
  shown = λ v. "";
}

abbrev cluster : ResourceRef
cluster = record { api = "kubernetes"; namespace = some "system"; kind = "Cluster"; name = "east" }

abbrev application : Application
application = record {
  uid = "1";
  deleted = false;
  modified = 0;
  finalizers = [];
  owners = [];
  hooks = "shutdown" ∷ [];
  manifest = named "apiVersion" ∷ [];
  observer_schema = [];
  has_template = false;
  shutdown_grace_time = none;
  shutdown_retry_count = some 2;
  shutdown_failure_strategy = none;
  state = running;
  reason = none;
  kube_controller_triggered = some 0;
  scheduled_to = some cluster;
  running_on = none;
  services = [];
  mangled_observer_schema = [];
  last_applied_manifest = [];
  last_observed_manifest = [];
  shutdown_grace_period = none;
}

abbrev in_deletion : Application
in_deletion = record application { deleted = true }

abbrev unmangled : Application → Result Application
unmangled app = ok app

abbrev no_template : Application → Result (List Value)
no_template app = ok []

abbrev settings : ShutdownConfiguration
settings = record { timeout = 60; failure_retry_count = 1; failure_strategy = "give_up" }

abbrev stay : Application → Task Application
stay app log = (returned app, log)

-- The one resource is created.
test_reconciled :
    touched (reconcile_application world unmangled no_template application []).1
    ≡ apply_resource (named "apiVersion") ∷ []
unfolding reconcile_application touched continue send pure lift generate_default_observer_schema
    update_last_applied_manifest_from_spec ensure_finalizer apply_manifest required fetch
    register_service update_last_applied_manifest_from_resp update_last_observed_manifest_from_resp
test_reconciled = refl

reconciled-Guarded_example :
    let held = contains deletion_finalizer application.finalizers in
    (is_guarded held (reconcile_application world unmangled no_template application []).1 ≡ true)
    × (is_guarded held (migrate_application world unmangled no_template application []).1 ≡ true)
reconciled-Guarded_example =
    reconciled-Guarded world unmangled no_template application (λ a m e. cc e)

shutdown_attempts-le_example :
    shutdown_calls (run_app_shutdown world settings application []).1
    ≤ shutdown_calls []
      + suc (or_else application.shutdown_retry_count settings.failure_retry_count)
shutdown_attempts-le_example = shutdown_attempts-le world settings application []

shutdown-keeps_example :
    touched (
      with_tasks world settings
        (resource_received world settings 0 unmangled no_template stay
          (λ a. false)
          in_deletion
          []).1)
    ≡ []
unfolding is_ready has_shutdown_strategy
shutdown-keeps_example =
    shutdown-keeps world settings 0 unmangled no_template stay (λ a. false) in_deletion refl refl
      refl refl
