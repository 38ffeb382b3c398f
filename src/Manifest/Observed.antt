-- ===== src/Manifest/Observed.antt =====
-- krake/krake/controller/kubernetes/hooks.py: what of a response of the Kubernetes API an observer
-- schema keeps, `update_last_observed_manifest_dict` and `update_last_observed_manifest_list`.
use krake.Prelude.{ℕ, String, false, List, [], ◌∷◌, ◌++◌}
use krake.Prelude.Tests.{if◌then◌else◌}
use krake.Manifest.Results.{key_error, index_error, type_error, Result, ok, raised, ◌>>=◌}
use krake.Manifest.Values.{
  Value, number, str, list, dict, Items, nil, cons, Fields, end, field, item_count, append, member,
  subscript, truthy,
}
use krake.Manifest.Names.{camel_to_snake_case}
use krake.Manifest.Resources.{get_kubernetes_resource_idx, entry, set_entry}

-- {"observer_schema_list_current_length": n}
unfoldable pub current_control : ℕ → Value
current_control n = dict (field "observer_schema_list_current_length" (number n) end)

characters : String → Items
characters String.[] = nil
characters (String.◌∷◌ c s) = cons (str (String.◌∷◌ c String.[])) (characters s)

-- What the loops read of a response by position. Indexing a dictionary by a number is a KeyError.
unfoldable pub elements : Value → Result Items
unfolding characters
elements (list xs) = ok xs
elements (str s) = ok (characters s)
elements (dict end) = ok nil
elements (dict (field k v fs)) = raised key_error
elements _ = raised type_error

-- `response[camel_to_snake_case(key)]`, after the test that it is there.
unfoldable pub respond : String → Value → Result Value
unfolding member subscript camel_to_snake_case
respond k response = do
  present ← member (camel_to_snake_case k) response
  if present then subscript (camel_to_snake_case k) response else raised key_error

-- A list as long as its control dictionary says.
unfoldable pub controlled : ℕ → Result Items → Result Value
unfolding append current_control
controlled n found = do res ← found; ok (list (append res (current_control n)))

-- A list of the response where the schema has no list.
unfoldable pub unobserved : Items → Result Value
unfolding current_control
unobserved nil = ok (list (cons (current_control 0) nil))
unobserved (cons y ys) = raised type_error

unfoldable mutual
  unfolding unobserved current_control controlled elements respond truthy item_count

  -- The loop over the items of a schema. It yields those of `res`.
  pub observe_fields : Fields → Value → Result Fields
  observe_fields end response = ok end
  observe_fields (field k v fs) response = do
    w ← respond k response
    seen ← observe_value v w
    others ← observe_fields fs response
    ok (field k seen others)

  -- In a dictionary the schema decides what is kept.
  pub observe_value : Value → Value → Result Value
  observe_value (dict fs) w = do seen ← observe_fields fs w; ok (dict seen)
  observe_value (list xs) w =
      if truthy w
      then (do ys ← elements w; controlled (item_count ys) (observe_items xs ys))
      else ok (list (cons (current_control 0) nil))
  observe_value _ w = ok w

  -- The loop over `observed_resource[:-1]` and the elements of the response.
  pub observe_items : Items → Items → Result Items
  observe_items nil ys = ok nil
  observe_items (cons v nil) ys = ok nil
  observe_items (cons v (cons w ws)) ys = elim ys [
    | nil ↦ ok nil
    | cons y rest ↦ do
      seen ← observe_element v y
      others ← observe_items (cons w ws) rest
      ok (cons seen others)
  ]

  -- In a list the type of the response's element decides.
  pub observe_element : Value → Value → Result Value
  observe_element (dict fs) y = elim y [
    | dict gs ↦ do seen ← observe_fields fs (dict gs); ok (dict seen)
    | list ys ↦ unobserved ys
    | other ↦ ok other
  ]
  observe_element (list xs) y = elim y [
    | dict gs ↦ raised type_error
    | list nil ↦ ok (list (cons (current_control 0) nil))
    | list ys ↦ controlled (item_count ys) (observe_items xs ys)
    | other ↦ ok other
  ]
  observe_element _ y = elim y [
    | dict gs ↦ raised type_error
    | list ys ↦ unobserved ys
    | other ↦ ok other
  ]

-- A resource of a schema is a dictionary.
unfoldable pub observe_resource : Value → Value → Result Value
unfolding observe_fields
observe_resource (dict fs) response = do seen ← observe_fields fs response; ok (dict seen)
observe_resource _ response = raised type_error

-- update_last_observed_manifest_from_resp: the schema, the last observed manifest, the response.
unfoldable pub update_last_observed_manifest_from_resp :
    List Value → List Value → Value → Result (List Value)
unfolding get_kubernetes_resource_idx entry set_entry observe_resource
update_last_observed_manifest_from_resp schema observed response = do
  idx_observed ← get_kubernetes_resource_idx schema response false
  resource ← entry idx_observed schema
  elim (get_kubernetes_resource_idx observed response false) [
    | ok idx ↦ do seen ← observe_resource resource response; ok (set_entry idx seen observed)
    | raised index_error ↦ do seen ← observe_resource resource response; ok (observed ++ seen ∷ [])
    | raised e ↦ raised e
  ]

without_entry : ℕ → List Value → List Value
without_entry i [] = []
without_entry ℕ.zero (v ∷ vs) = vs
without_entry (ℕ.suc i) (v ∷ vs) = v ∷ without_entry i vs

-- remove_resource_from_last_observed_manifest
unfoldable pub remove_resource_from_last_observed_manifest :
    List Value → Value → Result (List Value)
unfolding get_kubernetes_resource_idx without_entry
remove_resource_from_last_observed_manifest observed resource =
    elim (get_kubernetes_resource_idx observed resource false) [
      | ok idx ↦ ok (without_entry idx observed)
      | raised index_error ↦ ok observed
      | raised e ↦ raised e
    ]
