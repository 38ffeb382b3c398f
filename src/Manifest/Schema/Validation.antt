-- ===== src/Manifest/Schema/Validation.antt =====
-- krake/krake/data/kubernetes.py: `_validate_observer_schema`, with the two functions that it
-- calls on the dictionaries and the lists of a schema.
use krake.Prelude.{ℕ, String, Bool, true, false, not, ◌||◌, none, some, List, [], ◌∷◌}
use krake.Prelude.Tests.{if◌then◌else◌, ltb, nat_beq}
use krake.Prelude.Keys.{string_key, contains}
use krake.Manifest.Results.{
  Error, index_error, type_error, value_error, observer_schema_error, Result, ok, raised, ◌>>=◌,
  ◌>>◌,
}
use krake.Manifest.Values.{
  Value, null, list, dict, Items, nil, cons, Fields, end, field, lookup, item_count, last, front,
  natural, or_raise,
}
use krake.Manifest.Resources.{get_kubernetes_resource_idx}

unfoldable pub require : Bool → Error → Result (Unit {0})
require true e = ok tt
require false e = raised e

-- An int that is not negative; a bool is an int.
unfoldable pub as_length : Value → Result ℕ
unfolding natural or_raise
as_length v = or_raise value_error (natural v)

-- The checks of the control dictionary of a list that observes `observed` elements.
unfoldable pub check_control : ℕ → Value → Result (Unit {0})
unfolding lookup as_length require or_raise
check_control observed (dict fs) = do
  low ← or_raise value_error (lookup "observer_schema_list_min_length" fs)
  high ← or_raise value_error (lookup "observer_schema_list_max_length" fs)
  min ← as_length low
  max ← as_length high
  require (nat_beq max 0 || not (ltb max min)) value_error
  require (nat_beq max 0 || not (ltb max observed)) value_error
check_control observed _ = raised value_error

-- partial_schema[-1], then its checks.
unfoldable pub check_list : Items → Result (Unit {0})
unfolding check_control last front item_count or_raise
check_list xs = or_raise index_error (last xs) >>= check_control (item_count (front xs))

unfoldable mutual
  unfolding check_list

  pub validate_value : Value → Result (Unit {0})
  validate_value (dict fs) = validate_fields [] fs
  validate_value (list xs) = check_list xs >> validate_items xs
  validate_value null = ok tt
  validate_value _ = raised value_error

  -- The loop over `items()`, which leaves out the keys that were validated before.
  pub validate_fields : List String → Fields → Result (Unit {0})
  validate_fields skipped end = ok tt
  validate_fields skipped (field k v fs) =
      (if contains k skipped then ok tt else validate_value v) >> validate_fields skipped fs

  -- The loop over `partial_schema[:-1]`.
  pub validate_items : Items → Result (Unit {0})
  validate_items nil = ok tt
  validate_items (cons x nil) = ok tt
  validate_items (cons x (cons y ys)) = validate_value x >> validate_items (cons y ys)

-- `fs.get(k) is None` raises.
unfoldable pub is_defined : String → Fields → Result Value
unfolding lookup
is_defined k fs = elim (lookup k fs) [
  | none ↦ raised value_error
  | some v ↦ elim v [ null ↦ raised value_error | other ↦ ok other ]
]

-- `metadata`, which has to be a dictionary with a name.
unfoldable pub validate_metadata : Value → Result (Unit {0})
unfolding is_defined validate_fields
validate_metadata (dict fs) = is_defined "name" fs >> validate_fields ("name" ∷ []) fs
validate_metadata _ = raised type_error

-- _validate_observer_schema_dict(partial_schema, first_level=True)
unfoldable pub validate_resource : Fields → Result (Unit {0})
unfolding is_defined validate_metadata validate_fields
validate_resource fs = do
  is_defined "apiVersion" fs
  is_defined "kind" fs
  metadata ← is_defined "metadata" fs
  validate_metadata metadata
  validate_fields ("apiVersion" ∷ "kind" ∷ "metadata" ∷ []) fs

-- A resource that is not a dictionary has no `get`, and an AttributeError goes to the caller.
validate_schema : Value → Result (Unit {0})
unfolding validate_resource
validate_schema (dict fs) = elim (validate_resource fs) [
  | ok _ ↦ ok tt
  | raised value_error ↦ raised observer_schema_error
  | raised type_error ↦ raised observer_schema_error
  | raised e ↦ raised e
]
validate_schema _ = raised type_error

in_manifest : List Value → Value → Result (Unit {0})
unfolding get_kubernetes_resource_idx
in_manifest manifest resource = elim (get_kubernetes_resource_idx manifest resource false) [
  | ok _ ↦ ok tt
  | raised index_error ↦ raised observer_schema_error
  | raised e ↦ raised e
]

unfoldable pub validate_observer_schema : List Value → List Value → Result (Unit {0})
unfolding validate_schema in_manifest
validate_observer_schema [] manifest = ok tt
validate_observer_schema (resource ∷ schema) manifest = do
  validate_schema resource
  in_manifest manifest resource
  validate_observer_schema schema manifest
