-- ===== src/Manifest/Delta/Limits.antt =====
-- What of a list the comparison never accepts.
use krake.Prelude.{ℕ, suc, ◌≡◌, some, arith}
use krake.Manifest.Results.{modified_resource, raised}
use krake.Manifest.Values.{number, dict, list, Items, Fields, lookup, last, append, or_raise}
use krake.Manifest.Observed.{current_control, elements}
use krake.Manifest.Delta.{check_length, last_element, unless_modified}
use krake.Manifest.Delta.Lengths.{last-append, current_length, subscript_found}

-- A maximum of 0, which the validation of a schema takes for no maximum at all, makes every list
-- with an element item_count as modified: whatever the schema's list and its minimum are, the check of
-- the length raises.
pub zero-maximum_modified :
    (xs cs : Items) (control : Fields) (low n : ℕ)
    → last xs ≡ some (dict control)
    → lookup "observer_schema_list_min_length" control ≡ some (number low)
    → lookup "observer_schema_list_max_length" control ≡ some (number 0)
    → check_length xs (list (append cs (current_control (suc n)))) ≡ raised modified_resource
unfolding check_length last_element elements
zero-maximum_modified xs cs control low n here min max =
    let min = subscript_found "observer_schema_list_min_length" (number low) control min in
    let max = subscript_found "observer_schema_list_max_length" (number 0) control max in
    simp (last-append, here, or_raise, current_length, min, max) (ground (arith, unless_modified))
