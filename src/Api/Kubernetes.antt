-- ===== src/Api/Kubernetes.antt =====
-- krake/krake/api/kubernetes.py: the handlers of applications and clusters, on the resource that
-- `load` found, up to the call of the database session; and of krake/krake/data/serializable.py
-- `update` on a resource. The comparison of two resources, which dataclasses generate, is an
-- argument. Fields that no handler reads are held together in `other`.
pub mod Lifecycle
use krake.Prelude.{
  ℕ, String, ◌≡◌, Bool, true, false, not, ◌&&◌, ◌||◌, Option, none, some, List, [], ◌∷◌, ◌++◌,
}
use krake.Prelude.Tests.{if◌then◌else◌}
use krake.Prelude.Keys.{◌==◌, contains, string_key}
use krake.Prelude.Dict.{Dict}
use krake.Data.Core.{ResourceRef, ref_key, optional_same}

pub record Metadata : Type 0 where
  pub name : String
  pub namespace : Option String
  pub labels : Dict String String
  pub inherit_labels : Bool
  pub finalizers : List String
  pub uid : String
  pub created : ℕ
  pub modified : ℕ
  pub deleted : Option ℕ
  pub owners : List ResourceRef

pub record Resource (Spec Status : Type 0) : Type 0 where
  pub metadata : Metadata
  pub spec : Spec
  pub status : Status

-- What a handler does with the database, with the resource that it answers, or how it refuses:
-- 409 Conflict, 400 Bad Request, 401 Unauthorized.
pub data Effect (R : Type 0) : Type 0 where
  stored : R → Effect R
  erased : R → Effect R
  unchanged : R → Effect R
  conflict bad_request unauthorized : Effect R

pub is_set : {A : Type 0} → Option A → Bool
is_set none = false
is_set (some a) = true

is_nil : List String → Bool
is_nil [] = true
is_nil (x ∷ xs) = false

-- set(xs) <= set(ys)
pub is_subset : List String → List String → Bool
is_subset [] ys = true
is_subset (x ∷ xs) ys = contains x ys && is_subset xs ys

-- `Metadata.update`: name and namespace are immutable, uid and the times are read-only; none is
-- ValueError.
metadata_update : Metadata → Metadata → Option Metadata
metadata_update self overwrite =
    if self.name == overwrite.name && optional_same self.namespace overwrite.namespace
    then some (record self {
      labels = overwrite.labels;
      inherit_labels = overwrite.inherit_labels;
      finalizers = overwrite.finalizers;
      owners = overwrite.owners;
    })
    else none

module _ {Spec Status : Type 0} where
  -- The status is a subresource.
  resource_update : Resource Spec Status → Resource Spec Status → Option (Resource Spec Status)
  unfolding metadata_update
  resource_update self overwrite = elim (metadata_update self.metadata overwrite.metadata) [
    | none ↦ none
    | some m ↦ some (record self { metadata = m; spec = overwrite.spec })
  ]

  -- The end of an update: the deletion is complete when no finalizer is left.
  save_update : ℕ → Option (Resource Spec Status) → Effect (Resource Spec Status)
  unfolding is_set is_nil
  save_update now none = bad_request
  save_update now (some r) =
      let r' : Resource Spec Status = record r {
        metadata = record r.metadata { modified = now };
      } in
      if is_set r'.metadata.deleted && is_nil r'.metadata.finalizers then erased r' else stored r'

  -- update_application, update_cluster
  pub update_resource :
      (Resource Spec Status → Resource Spec Status → Bool)
      → ℕ
      → Resource Spec Status
      → Resource Spec Status
      → Effect (Resource Spec Status)
  unfolding is_subset save_update resource_update is_set
  update_resource same now body entity =
      if is_set entity.metadata.deleted
        && not (is_subset body.metadata.finalizers entity.metadata.finalizers)
      then conflict
      else (if same body entity then bad_request else save_update now (resource_update entity body))

  mark_deleted : ℕ → Resource Spec Status → Resource Spec Status
  mark_deleted now r = record r {
    metadata = record r.metadata {
      deleted = some now;
      finalizers = r.metadata.finalizers ++ "cascade_deletion" ∷ [];
    };
  }

  pub delete_cluster : Bool → ℕ → Resource Spec Status → Effect (Resource Spec Status)
  unfolding mark_deleted is_set
  delete_cluster force now r =
      if force
      then erased (record r { metadata = record r.metadata { deleted = some now } })
      else (if is_set r.metadata.deleted then unchanged r else stored (mark_deleted now r))

pub data ApplicationState : Type 0 where
  waiting_for_cleaning ready_for_action degraded : ApplicationState
  other_state : String → ApplicationState

pub record ApplicationSpec (Other : Type 0) : Type 0 where
  pub hooks : List String
  pub other : Other

pub record ApplicationStatus (Other : Type 0) : Type 0 where
  pub state : ApplicationState
  pub kube_controller_triggered : Option ℕ
  pub scheduled : Option ℕ
  pub scheduled_to : Option ResourceRef
  pub complete_token : Option String
  pub shutdown_token : Option String
  pub shutdown_grace_period : Option ℕ
  pub other : Other

abbrev pub Application : Type 0 → Type 0 → Type 0
Application S T = Resource (ApplicationSpec S) (ApplicationStatus T)

-- `token is None or token != body.token`
is_refused : Option String → Option String → Bool
is_refused none given = true
is_refused (some token) given = not (optional_same (some token) given)

is_cleaning : ApplicationState → Bool
is_cleaning waiting_for_cleaning = true
is_cleaning degraded = true
is_cleaning _ = false

is_degraded : ApplicationState → Bool
is_degraded degraded = true
is_degraded _ = false

module _ {S T : Type 0} where
  set_state : ApplicationState → Application S T → Application S T
  set_state state app = record app { status = record app.status { state = state } }

  pub delete_application : Bool → ℕ → Application S T → Effect (Application S T)
  unfolding mark_deleted set_state is_set
  delete_application force now app =
      if force
      then erased (record app { metadata = record app.metadata { deleted = some now } })
      else (if is_set app.metadata.deleted
          then unchanged app
          else stored (
              mark_deleted now (
                if contains "shutdown" app.spec.hooks
                then set_state waiting_for_cleaning app
                else app)))

  pub update_application_binding : ℕ → ResourceRef → Application S T → Effect (Application S T)
  update_application_binding now cluster app = stored (record app {
    status = record app.status {
      scheduled = some now;
      kube_controller_triggered = some now;
      scheduled_to = some cluster;
    };
    metadata = record app.metadata {
      owners =
          if contains cluster app.metadata.owners
          then app.metadata.owners
          else app.metadata.owners ++ cluster ∷ [];
    };
  })

  pub update_application_complete : ℕ → Option String → Application S T → Effect (Application S T)
  unfolding is_refused
  update_application_complete now token app =
      if is_refused app.status.complete_token token
      then unauthorized
      else stored (record app {
        status = record app.status { state = ready_for_action };
        metadata = record app.metadata { deleted = some now };
      })

  pub update_application_shutdown : Option String → Application S T → Effect (Application S T)
  unfolding is_refused is_cleaning
  update_application_shutdown token app =
      if is_refused app.status.shutdown_token token
      then unauthorized
      else stored (
          if is_cleaning app.status.state
          then record app {
            status = record app.status { state = ready_for_action; shutdown_grace_period = none };
          }
          else app)

  pub update_application_status : Application S T → Application S T → Effect (Application S T)
  update_application_status body app = stored (record app { status = body.status })

  pub retry_application : Application S T → Effect (Application S T)
  unfolding is_degraded
  retry_application app =
      if is_degraded app.status.state
      then stored (record app {
        status = record app.status { state = waiting_for_cleaning; shutdown_grace_period = none };
      })
      else bad_request
