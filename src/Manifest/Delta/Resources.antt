-- ===== src/Manifest/Delta/Resources.antt =====
-- krake/krake/controller/kubernetes/application/application.py: `ResourceDelta.calculate`, from the
-- observer schema, the last applied and the last observed manifest of an application.
use krake.Prelude.{true, false, not, Option, none, some, List, [], ◌∷◌}
use krake.Prelude.Tests.{if◌then◌else◌}
use krake.Manifest.Results.{modified_resource, index_error, type_error, Result, ok, raised, ◌>>=◌}
use krake.Manifest.Values.{Value, dict, subscript, truthy}
use krake.Manifest.Resources.{get_kubernetes_resource_idx, entry, get_field}
use krake.Manifest.Delta.{compare_fields, is_null}

pub record ResourceDelta : Type 0 where
  pub new : List Value
  pub deleted : List Value
  pub modified : List Value

-- A resource of a schema is a dictionary.
unfoldable pub compare_resource : Value → Value → Value → Result (Unit {0})
unfolding compare_fields
compare_resource (dict fs) desired current = compare_fields fs desired current
compare_resource _ desired current = raised type_error

unfoldable pub namespace_of : Value → Result Value
unfolding subscript get_field
namespace_of resource = do m ← subscript "metadata" resource; get_field "namespace" m

-- The observed resource of the same name, and of the same namespace where it has one.
unfoldable pub find_current : List Value → Value → Result Value
unfolding get_kubernetes_resource_idx entry namespace_of is_null
find_current observed desired = do
  idx ← get_kubernetes_resource_idx observed desired false
  current ← entry idx observed
  namespace ← namespace_of current
  if is_null namespace
      then ok current
      else do idx ← get_kubernetes_resource_idx observed desired true; entry idx observed

-- `with suppress(IndexError)`
unfoldable pub current_resource : List Value → Value → Result (Option Value)
unfolding find_current
current_resource observed desired = elim (find_current observed desired) [
  | ok current ↦ ok (some current)
  | raised index_error ↦ ok none
  | raised e ↦ raised e
]

-- The branches of the first loop.
pub data Change : Type 0 where
  is_new is_modified is_unchanged : Change

compare_current : Value → Value → Option Value → Result Change
unfolding truthy compare_resource
compare_current resource desired none = ok is_new
compare_current resource desired (some current) =
    if not (truthy current) then ok is_new else elim (compare_resource resource desired current) [
      | ok _ ↦ ok is_unchanged
      | raised modified_resource ↦ ok is_modified
      | raised e ↦ raised e
    ]

change_of : List Value → List Value → Value → Result Change
unfolding get_kubernetes_resource_idx entry current_resource compare_current
change_of schema observed desired = do
  idx ← get_kubernetes_resource_idx schema desired false
  resource ← entry idx schema
  current ← current_resource observed desired
  compare_current resource desired current

record_change : Value → Change → ResourceDelta → ResourceDelta
record_change v is_new d = record d { new = v ∷ d.new }
record_change v is_modified d = record d { modified = v ∷ d.modified }
record_change v is_unchanged d = d

applied_delta : List Value → List Value → List Value → Result ResourceDelta
unfolding change_of record_change
applied_delta schema observed [] = ok (record { new = []; deleted = []; modified = [] })
applied_delta schema observed (desired ∷ applied) = do
  change ← change_of schema observed desired
  rest ← applied_delta schema observed applied
  ok (record_change desired change rest)

-- The second loop: what was observed and is no longer applied.
deleted_from : List Value → List Value → Result (List Value)
unfolding get_kubernetes_resource_idx namespace_of is_null
deleted_from applied [] = ok []
deleted_from applied (current ∷ observed) = do
  namespace ← namespace_of current
  gone ← elim (get_kubernetes_resource_idx applied current (not (is_null namespace))) [
    | ok _ ↦ ok false
    | raised index_error ↦ ok true
    | raised e ↦ raised e
  ]
  rest ← deleted_from applied observed
  ok (if gone then current ∷ rest else rest)

-- ResourceDelta.calculate
unfoldable pub calculate : List Value → List Value → List Value → Result ResourceDelta
unfolding applied_delta deleted_from
calculate schema applied observed = do
  delta ← applied_delta schema observed applied
  gone ← deleted_from applied observed
  ok (record delta { deleted = gone })
