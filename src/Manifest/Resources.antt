-- ===== src/Manifest/Resources.antt =====
-- krake/krake/utils.py: `get_kubernetes_resource_idx`, which finds the entry of a resource in a
-- manifest, in an observer schema or among the observed resources.
pub mod Identity
pub mod Search
use krake.Prelude.{ℕ, suc, String, Bool, true, false, Option, none, some, List, [], ◌∷◌}
use krake.Prelude.Tests.{if◌then◌else◌}
use krake.Manifest.Results.{Error, index_error, type_error, Result, ok, raised, ◌>>=◌}
use krake.Manifest.Values.{Value, null, dict, Fields, lookup, subscript, same, truthy, or_raise}

-- v.get(k)
unfoldable pub get_field : String → Value → Result Value
unfolding lookup
get_field k (dict fs) = ok (elim (lookup k fs) [ none ↦ null | some v ↦ v ])
get_field k _ = raised type_error

-- resource.get("apiVersion") or resource["api_version"]
unfoldable pub api_version : Value → Result Value
unfolding get_field subscript truthy
api_version resource = do
  v ← get_field "apiVersion" resource
  if truthy v then ok v else subscript "api_version" resource

-- The two values agree at `k`.
unfoldable pub same_field : String → Value → Value → Result Bool
unfolding subscript same
same_field k found resource = do v ← subscript k found; w ← subscript k resource; ok (same v w)

unfoldable pub both_true : Result Bool → Result Bool → Result Bool
both_true a b = do x ← a; if x then b else ok false

unfoldable pub same_name : Value → Value → Result Bool
unfolding same_field
same_name found resource = do
  m ← subscript "metadata" found
  v ← subscript "name" m
  m' ← subscript "metadata" resource
  w ← subscript "name" m'
  ok (same v w)

unfoldable pub same_namespace : Value → Value → Result Bool
unfolding get_field same
same_namespace found resource = do
  m ← subscript "metadata" found
  v ← get_field "namespace" m
  m' ← subscript "metadata" resource
  w ← get_field "namespace" m'
  ok (same v w)

-- The condition of the loop.
unfoldable pub identifies : Bool → Value → Value → Result Bool
unfolding api_version both_true same_field same_name same_namespace
identifies check_namespace resource found = do
  api ← api_version resource
  both_true (do v ← subscript "apiVersion" found; ok (same v api))
      (both_true (same_field "kind" found resource) (
        both_true (same_name found resource)
          (if check_namespace then same_namespace found resource else ok true)))

unfoldable pub get_kubernetes_resource_idx : List Value → Value → Bool → Result ℕ
unfolding identifies
get_kubernetes_resource_idx [] resource check_namespace = raised index_error
get_kubernetes_resource_idx (found ∷ manifest) resource check_namespace =
    let rest = get_kubernetes_resource_idx manifest resource check_namespace in
    do
      this ← identifies check_namespace resource found
      if this then ok 0 else (do i ← rest; ok (suc i))

-- manifest[idx]
unfoldable pub entry : ℕ → List Value → Result Value
entry i [] = raised index_error
entry ℕ.zero (v ∷ vs) = ok v
entry (suc i) (v ∷ vs) = entry i vs

-- manifest[idx] = v
unfoldable pub set_entry : ℕ → Value → List Value → List Value
set_entry i v [] = []
set_entry ℕ.zero v (w ∷ ws) = v ∷ ws
set_entry (suc i) v (w ∷ ws) = w ∷ set_entry i v ws
