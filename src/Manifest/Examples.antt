-- ===== src/Manifest/Examples.antt =====
-- Tests on small manifests, and the properties at concrete inputs.
use krake.Prelude.{ℕ, String, ◌≡◌, ◌↔◌, refl, false, [], ◌∷◌, arith}
use krake.Manifest.Results.{ok}
use krake.Manifest.Values.{
  Value, null, number, str, list, dict, nil, cons, Fields, end, field, lookup, has_key, last,
  item_count, same,
}
use krake.Manifest.Names.{camel_to_snake_case}
use krake.Manifest.Resources.{get_kubernetes_resource_idx}
use krake.Manifest.Resources.Search.{found_iff, IsFirst}
use krake.Manifest.Schema.{default_value}
use krake.Manifest.Schema.Validation.{validate_value}
use krake.Manifest.Schema.Default.{default_value-accepted}
use krake.Manifest.Observed.{observe_resource}
use krake.Manifest.Applied.{complete_resource}
use krake.Manifest.Applied.Specification.{merge_resource}
use krake.Manifest.Applied.Extends.{Extends}
use krake.Manifest.Applied.Kept.{completed-Extends, merged-Extends}
use krake.Manifest.Delta.Resources.{calculate, compare_resource}
use krake.Manifest.Reconciled.{
  Obeys, no_field, one_field, known_dict, new_leaf, known_leaf, known_list, known, control,
  known_inner_dict, is_leaf,
}
use krake.Manifest.Reconciled.Converges.{obeyed-reconciled}

abbrev limits : ℕ → ℕ → Value
limits low high = dict (
    field "observer_schema_list_min_length" (number low)
      (field "observer_schema_list_max_length" (number high) end))

abbrev port : Value → Value
port v = dict (field "targetPort" v end)

-- A service whose type is left to Kubernetes.
abbrev schema : Fields
schema =
    field "spec"
      (dict
        (field "type" null (field "ports" (list (cons (port null) (cons (limits 0 2) nil))) end)))
      end

abbrev manifest : Fields
manifest = field "spec" (dict (field "ports" (list (cons (port (number 80)) nil)) end)) end

abbrev response : Fields
response =
    field "spec"
      (dict (
        field "type" (str "ClusterIP")
          (field "ports" (list (cons (dict (field "target_port" (number 80) end)) nil)) end)))
      end

abbrev completed : Value
completed = dict (
    field "spec"
      (dict
        (field "ports" (list (cons (port (number 80)) nil)) (field "type" (str "ClusterIP") end)))
      end)

test_snake : camel_to_snake_case "loadBalancerIP" ≡ "load_balancer_ip"
unfolding camel_to_snake_case
test_snake = refl

test_completed : complete_resource (dict schema) (dict manifest) (dict response) ≡ ok completed
unfolding complete_resource
test_completed = refl

test_merged : merge_resource (dict schema) (dict manifest) completed ≡ ok completed
unfolding merge_resource
test_merged = refl

obeys : Obeys schema manifest response
unfolding lookup has_key camel_to_snake_case is_leaf same last item_count
obeys =
    one_field refl
      (known_dict (
        one_field refl (new_leaf refl refl) refl (
          one_field refl
            (known_list
              (known (known_inner_dict (one_field refl (known_leaf refl refl) refl no_field))
                control)
              (record {
                control =
                    field "observer_schema_list_min_length" (number 0)
                      (field "observer_schema_list_max_length" (number 2) end);
                low = 0;
                high = 2;
                control_last = refl;
                control_low = refl;
                control_high = refl;
                long_enough = omega arith;
                short_enough = omega arith;
              }))
            refl no_field)))
      refl no_field

obeyed-reconciled_example :
    (applied : Value) × (observed : Value) × (complete_resource
        (dict schema)
        (dict manifest)
        (dict response)
      ≡ ok applied)
    × (observe_resource (dict schema) (dict response) ≡ ok observed)
    × (compare_resource (dict schema) applied observed ≡ ok tt)
obeyed-reconciled_example = obeyed-reconciled obeys

completed-Extends_example : Extends (dict manifest) completed
completed-Extends_example =
    completed-Extends (dict schema) (dict manifest) (dict response) completed test_completed

merged-Extends_example : Extends (dict manifest) completed
merged-Extends_example =
    merged-Extends (dict schema) (dict manifest) completed completed test_merged

default_value-accepted_example : validate_value (default_value (dict manifest)) ≡ ok tt
default_value-accepted_example = default_value-accepted (dict manifest)

abbrev service : String → Value
service name = dict (
    field "apiVersion" (str "v1")
      (field "kind" (str "Service") (field "metadata" (dict (field "name" (str name) end)) end)))

found_iff_example :
    (get_kubernetes_resource_idx (service "a" ∷ service "b" ∷ []) (service "b") false ≡ ok 1)
    ↔ IsFirst false (service "b") (service "a" ∷ service "b" ∷ []) 1
found_iff_example = found_iff (service "a" ∷ service "b" ∷ []) (service "b") false 1

test_calculate :
    calculate
      (service "a" ∷ service "b" ∷ [])
      (service "a" ∷ service "b" ∷ [])
      (service "b" ∷ service "c" ∷ [])
    ≡ ok (record { new = service "a" ∷ []; deleted = service "c" ∷ []; modified = [] })
unfolding calculate
test_calculate = refl
