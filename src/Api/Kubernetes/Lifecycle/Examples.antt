-- ===== src/Api/Kubernetes/Lifecycle/Examples.antt =====
-- An application that is deleted, and loses its finalizers one after the other.
use krake.Prelude.{ℕ, String, ◌≡◌, refl, Bool, false, Option, none, some, List, [], ◌∷◌}
use krake.Prelude.Keys.{string_key}
use krake.Data.Core.{ref_key}
use krake.Api.Kubernetes.{
  other_state, Application, is_set, is_nil, is_subset, metadata_update, resource_update,
  save_update, update_resource, mark_deleted, delete_application,
}
use krake.Api.Kubernetes.Lifecycle.{
  Request, update, delete, answer, after, serve, serve_all, Follows, serve_all-Follows,
}

abbrev App : Type 0
App = Application String String

abbrev app : Option ℕ → List String → App
app deleted finalizers = record {
  metadata = record {
    name = "shop";
    namespace = some "team";
    labels = [];
    inherit_labels = false;
    finalizers = finalizers;
    uid = "1234";
    created = 1;
    modified = 1;
    deleted = deleted;
    owners = [];
  };
  spec = record { hooks = []; other = "manifest" };
  status = record {
    state = other_state "RUNNING";
    kube_controller_triggered = none;
    scheduled = none;
    scheduled_to = none;
    complete_token = none;
    shutdown_token = none;
    shutdown_grace_period = none;
    other = "";
  };
}

-- The requests below are never without a change.
abbrev never_same : App → App → Bool
never_same a b = false

abbrev requests : List (Request String String)
requests = delete false 7 ∷ update 8 (app none ("kubernetes" ∷ [])) ∷ []

left_over :
    serve_all never_same requests (app none ("kubernetes" ∷ []))
    ≡ some (record (app (some 7) ("kubernetes" ∷ [])) {
      metadata = record (app (some 7) ("kubernetes" ∷ [])).metadata { modified = 8 };
    })
unfolding serve_all serve answer after update_resource is_set is_subset save_update resource_update
    metadata_update is_nil delete_application mark_deleted
left_over = refl

serve_all-Follows_example :
    Follows never_same (app none ("kubernetes" ∷ [])) (record (app (some 7) ("kubernetes" ∷ [])) {
      metadata = record (app (some 7) ("kubernetes" ∷ [])).metadata { modified = 8 };
    })
serve_all-Follows_example =
    serve_all-Follows never_same requests (app none ("kubernetes" ∷ []))
      (record (app (some 7) ("kubernetes" ∷ [])) {
        metadata = record (app (some 7) ("kubernetes" ∷ [])).metadata { modified = 8 };
      })
      left_over

completed : serve never_same (update 9 (app none [])) (app (some 7) ("kubernetes" ∷ [])) ≡ none
unfolding serve answer after update_resource is_set is_subset save_update resource_update
    metadata_update is_nil
completed = refl
