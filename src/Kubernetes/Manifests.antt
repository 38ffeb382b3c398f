-- ===== src/Kubernetes/Manifests.antt =====
-- The requests for the resources of an application, with the hooks that follow each of them in the
-- order in which hooks.py registers them, and the finalizer that has to be there first.
use krake.Prelude.{String, Option, none, some, List, [], ◌∷◌, ◌++◌}
use krake.Prelude.Tests.{if◌then◌else◌}
use krake.Prelude.Keys.{string_key, contains, remove_first}
use krake.Data.Core.{ResourceRef, ref_key}
use krake.Manifest.Results.{type_error, value_error}
use krake.Manifest.Values.{Value}
use krake.Manifest.Observed.{
  update_last_observed_manifest_from_resp, remove_resource_from_last_observed_manifest,
}
use krake.Manifest.Applied.{update_last_applied_manifest_from_resp}
use krake.Manifest.Delta.Resources.{ResourceDelta}
use krake.Kubernetes.Applications.{Application, deletion_finalizer}
use krake.Kubernetes.Tasks.{
  python_error, update_application, read_cluster, apply_resource, delete_resource, Environment,
  Task, pure, throw, lift, required, send, fetch, ◌>>=◌, ◌>>◌,
}
use krake.Kubernetes.Services.{register_service, unregister_service}

module _ (env : Environment) where
  -- The host is read for a service with a node port alone, and it takes no request.
  host : Task String
  host log = pure (env.host log) log

  -- HookType.ResourcePostCreate and HookType.ResourcePostUpdate
  unfoldable pub applied_hooks : Value → Value → Application → Task Application
  unfolding host
  applied_hooks resource response app = do
    h ← host
    app ← lift (register_service env.shown h resource response app)
    applied ← lift (
        update_last_applied_manifest_from_resp app.mangled_observer_schema app.last_applied_manifest
          response)
    let app = record app { last_applied_manifest = applied }
    observed ← lift (
        update_last_observed_manifest_from_resp app.mangled_observer_schema
          app.last_observed_manifest response)
    pure (record app { last_observed_manifest = observed })

  -- HookType.ResourcePostDelete
  unfoldable pub deleted_hooks : Value → Application → Task Application
  deleted_hooks resource app = do
    app ← lift (unregister_service resource app)
    observed ←
        lift (remove_resource_from_last_observed_manifest app.last_observed_manifest resource)
    pure (record app { last_observed_manifest = observed })

  unfoldable pub delete_resources : List Value → Application → Task Application
  unfolding deleted_hooks
  delete_resources [] app = pure app
  delete_resources (v ∷ vs) app = do
    send env (delete_resource v)
    app ← deleted_hooks v app
    delete_resources vs app

  unfoldable pub apply_resources : List Value → Application → Task Application
  unfolding applied_hooks
  apply_resources [] app = pure app
  apply_resources (v ∷ vs) app = do
    response ← fetch env (apply_resource v)
    app ← applied_hooks v response app
    apply_resources vs app

  unfoldable pub ensure_finalizer : Application → Task Application
  ensure_finalizer app = if contains deletion_finalizer app.finalizers then pure app else do
    let app = record app { finalizers = app.finalizers ++ deletion_finalizer ∷ [] }
    send env (update_application app)
    pure app

  unfoldable pub apply_manifest : Application → ResourceDelta → Task Application
  unfolding ensure_finalizer delete_resources apply_resources
  apply_manifest app delta = do
    app ← ensure_finalizer app
    cluster ← required type_error app.scheduled_to
    send env (read_cluster cluster)
    app ← delete_resources delta.deleted app
    app ← apply_resources delta.new app
    app ← apply_resources delta.modified app
    pure (record app { running_on = app.scheduled_to })

  -- app.metadata.owners.remove(app.status.running_on)
  unfoldable pub leave_owner : Application → Task Application
  leave_owner app = elim app.running_on [
    | none ↦ pure app
    | some ref ↦
        if contains ref app.owners
        then pure (record app { owners = remove_first ref app.owners })
        else throw (python_error value_error)
  ]

  -- What was observed on the cluster, if there is one.
  unfoldable pub delete_observed : Option ResourceRef → List Value → Application → Task Application
  unfolding delete_resources
  delete_observed none observed app = pure app
  delete_observed (some cluster) [] app = pure app
  delete_observed (some cluster) (v ∷ vs) app = do
    send env (read_cluster cluster)
    delete_resources (v ∷ vs) app

  unfoldable pub delete_manifest : Application → Task Application
  unfolding delete_observed leave_owner
  delete_manifest app = do
    app ← delete_observed app.running_on app.last_observed_manifest app
    app ← leave_owner app
    pure (record app { running_on = none })
