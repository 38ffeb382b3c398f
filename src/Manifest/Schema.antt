-- ===== src/Manifest/Schema.antt =====
-- The observer schema of a resource: krake/krake/controller/kubernetes/hooks.py generates the
-- default one, and krake/krake/data/kubernetes.py validates the user's.
pub mod Validation
pub mod Default
use krake.Prelude.{
  ℕ, String, Bool, true, false, not, ◌&&◌, ◌||◌, Option, none, some, List, [], ◌∷◌, ◌++◌,
}
use krake.Prelude.Tests.{if◌then◌else◌, ltb, leb, nat_beq}
use krake.Prelude.Keys.{string_key, ◌==◌}
use krake.Manifest.Results.{
  Error, key_error, index_error, type_error, value_error, observer_schema_error, Result, ok, raised,
  ◌>>=◌, ◌>>◌,
}
use krake.Manifest.Values.{
  Value, null, boolean, number, negative, str, list, dict, Items, nil, cons, Fields, end, field,
  lookup, has_key, assign, item_count, append, last, front, natural, same, member, subscript,
  or_raise,
}
use krake.Manifest.Resources.{get_kubernetes_resource_idx}

-- The control dictionary of a default schema.
unfoldable pub default_control : ℕ → Value
default_control n = dict (
    field "observer_schema_list_min_length" (number n)
      (field "observer_schema_list_max_length" (number n) end))

-- Below the first level.
unfoldable mutual
  unfolding default_control append item_count

  pub default_value : Value → Value
  default_value (dict fs) = dict (default_fields fs)
  default_value (list xs) = list (append (default_items xs) (default_control (item_count xs)))
  default_value _ = null

  pub default_fields : Fields → Fields
  default_fields end = end
  default_fields (field k v fs) = field k (default_value v) (default_fields fs)

  pub default_items : Items → Items
  default_items nil = nil
  default_items (cons x xs) = cons (default_value x) (default_items xs)

-- v[k] = w
unfoldable pub set_item : String → Value → Value → Result Value
unfolding assign
set_item k w (dict fs) = ok (dict (assign k w fs))
set_item k w _ = raised type_error

-- {"load_balancer": {"ingress": None}}
abbrev pub load_balancer : Value
load_balancer = dict (field "load_balancer" (dict (field "ingress" null end)) end)

unfoldable pub is_load_balancer : Value → Result Bool
unfolding subscript member
is_load_balancer manifest = do
  has_spec ← member "spec" manifest
  if not has_spec then ok false else do
    spec ← subscript "spec" manifest
    has_type ← member "type" spec
    if not has_type
        then ok false
        else do type ← subscript "type" spec; ok (same type (str "LoadBalancer"))

-- generate_default_observer_schema_dict(manifest_dict, first_level=True)
unfoldable pub default_resource : Fields → Result Value
unfolding default_value set_item is_load_balancer subscript
default_resource fs = do
  api ← subscript "apiVersion" (dict fs)
  schema ← set_item "apiVersion" api (dict (default_fields fs))
  kind ← subscript "kind" (dict fs)
  schema ← set_item "kind" kind schema
  metadata ← subscript "metadata" (dict fs)
  name ← subscript "name" metadata
  observed ← subscript "metadata" schema
  observed ← set_item "name" name observed
  schema ← set_item "metadata" observed schema
  balanced ← is_load_balancer (dict fs)
  if balanced then set_item "status" load_balancer schema else ok schema

-- A resource that is not a dictionary has no `items`.
default_schema : Value → Result Value
unfolding default_resource
default_schema (dict fs) = default_resource fs
default_schema _ = raised type_error

-- The loop of `generate_default_observer_schema`, over the rest of the manifest.
unfoldable pub add_defaults : List Value → List Value → Result (List Value)
unfolding default_schema get_kubernetes_resource_idx
add_defaults [] schema = ok schema
add_defaults (resource ∷ manifest) schema =
    elim (get_kubernetes_resource_idx schema resource false) [
      | ok i ↦ add_defaults manifest schema
      | raised index_error ↦
          default_schema resource >>= λ s. add_defaults manifest (schema ++ s ∷ [])
      | raised e ↦ raised e
    ]

-- What it leaves in `status.mangled_observer_schema`, from `spec.observer_schema`.
unfoldable pub generate_default_observer_schema : List Value → List Value → Result (List Value)
unfolding add_defaults
generate_default_observer_schema manifest observer_schema = add_defaults manifest observer_schema
