-- ===== src/Kubernetes/Reconciliation.antt =====
-- The reconciliation and the migration of an application, and the worker that chooses between
-- them. The mangling hooks change the application and send no request; they are the argument
-- `mangle`, and the translation of a template by the TOSCA parser is `translate`. Observers are
-- tasks of their own: what registering one asks of the API is here, the set of them is not.
pub mod Finalizer
pub mod Guarded
pub mod Worker
use krake.Prelude.{
  ℕ, String, ◌+◌, Bool, true, false, not, ◌&&◌, ◌||◌, Option, none, some, List, [], ◌∷◌,
}
use krake.Prelude.Tests.{if◌then◌else◌, nat_beq}
use krake.Prelude.Keys.{string_key, contains, ◌==◌}
use krake.Data.Core.{ResourceRef, ref_key}
use krake.Scheduler.Applications.{
  ApplicationState, creating, running, reconciling, translating, migrating, waiting_for_cleaning,
  ready_for_action, has_failed,
}
use krake.Manifest.Results.{Result, type_error}
use krake.Manifest.Values.{Value}
use krake.Manifest.Schema.{generate_default_observer_schema}
use krake.Manifest.Applied.Specification.{update_last_applied_manifest_from_spec}
use krake.Manifest.Delta.Resources.{ResourceDelta, calculate}
use krake.Kubernetes.Applications.{Application}
use krake.Kubernetes.Tasks.{
  Exception, client_response, kubernetes_error, controller_error, tosca_error, Request,
  update_application_status, update_application, read_cluster, History, Environment, Reply, threw,
  returned, Task, pure, throw, lift, required, send, is_gone, unless_gone, ◌>>=◌, ◌>>◌,
}
use krake.Kubernetes.Manifests.{ensure_finalizer, apply_manifest, delete_manifest}

unfoldable pub is_empty : List Value → Bool
is_empty [] = true
is_empty (v ∷ vs) = false

-- not delta
unfoldable pub no_change : ResourceDelta → Bool
unfolding is_empty
no_change d = is_empty d.new && is_empty d.deleted && is_empty d.modified

-- Everything is new.
unfoldable pub all_new : List Value → ResourceDelta
all_new applied = record { new = applied; deleted = []; modified = [] }

module _ (env : Environment) (mangle : Application → Result Application)
    (translate : Application → Result (List Value)) where
  unfoldable pub translate_tosca : Application → Task Application
  translate_tosca app =
      if not (is_empty app.manifest)
      then pure app
      else if not app.has_template
      then throw tosca_error
      else do
        let app = record app { state = translating }
        send env (update_application_status app)
        manifest ← lift (translate app)
        let app = record app { manifest = manifest }
        send env (update_application app)
        pure app

  -- generate_default_observer_schema, update_last_applied_manifest_from_spec and the mangling.
  unfoldable pub prepare_manifests : Application → Task Application
  prepare_manifests app = do
    schema ← lift (generate_default_observer_schema app.manifest app.observer_schema)
    let app = record app { mangled_observer_schema = schema }
    applied ←
        lift (update_last_applied_manifest_from_spec schema app.last_applied_manifest app.manifest)
    lift (mangle (record app { last_applied_manifest = applied }))

  unfoldable pub delta_of : Application → Task ResourceDelta
  unfolding is_empty all_new
  delta_of app =
      if is_empty app.last_observed_manifest
      then pure (all_new app.last_applied_manifest)
      else lift (
          calculate app.mangled_observer_schema app.last_applied_manifest
            app.last_observed_manifest)

  -- What follows the test that there is something to do.
  unfoldable pub apply_delta : Application → ResourceDelta → Task Application
  apply_delta app delta = do
    app ← ensure_finalizer env app
    let app = record app {
      state = elim app.running_on [ none ↦ creating | some ref ↦ reconciling ];
    }
    send env (update_application_status app)
    app ← apply_manifest env app delta
    let app = record app { state = running; reason = none }
    send env (update_application_status app)
    pure app

  unfoldable pub reconcile_application : Application → Task Application
  unfolding translate_tosca prepare_manifests delta_of no_change apply_delta
  reconcile_application app = elim app.scheduled_to [
    | none ↦ throw (controller_error "INTERNAL_ERROR")
    | some cluster ↦ do
      send env (read_cluster cluster)
      app ← translate_tosca app
      app ← prepare_manifests app
      delta ← delta_of app
      if no_change delta then pure app else apply_delta app delta
  ]

  pub migrate_application : Application → Task Application
  unfolding prepare_manifests all_new
  migrate_application app = do
    app ← ensure_finalizer env app
    let app = record app { state = migrating }
    send env (update_application_status app)
    app ← delete_manifest env app
    cluster ← required type_error app.scheduled_to
    send env (read_cluster cluster)
    app ← prepare_manifests app
    app ← apply_manifest env app (all_new app.last_applied_manifest)
    let app = record app { shutdown_grace_period = none; state = running; reason = none }
    send env (update_application_status app)
    send env (update_application app)
    pure app
