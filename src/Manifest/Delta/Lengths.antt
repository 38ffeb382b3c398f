-- ===== src/Manifest/Delta/Lengths.antt =====
-- The lengths that the control dictionary of a schema's list allows.
use krake.Prelude.{String, ℕ, ◌≤◌, ◌≡◌, refl, some, arith}
use krake.Manifest.Results.{ok}
use krake.Manifest.Values.{
  Value, number, dict, list, Items, nil, cons, Fields, lookup, last, append, subscript, or_raise,
}
use krake.Manifest.Observed.{current_control, elements}
use krake.Manifest.Delta.{check_length, last_element, unless_modified}

-- The control dictionary of the schema's list allows the length.
pub record Allows (xs : Items) (n : ℕ) : Type 0 where
  pub control : Fields
  pub low : ℕ
  pub high : ℕ
  pub control_last : last xs ≡ some (dict control)
  pub control_low : lookup "observer_schema_list_min_length" control ≡ some (number low)
  pub control_high : lookup "observer_schema_list_max_length" control ≡ some (number high)
  pub long_enough : low ≤ n
  pub short_enough : n ≤ high

pub last-append : (xs : Items) (v : Value) → last (append xs v) ≡ some v
unfolding last append
last-append nil v = refl
last-append (cons x nil) v = refl
last-append (cons x (cons y nil)) v = refl
last-append (cons x (cons y (cons z zs))) v = last-append (cons y (cons z zs)) v

pub current_length :
    (n : ℕ) → subscript "observer_schema_list_current_length" (current_control n) ≡ ok (number n)
unfolding current_control subscript lookup or_raise
current_length n = refl

pub subscript_found :
    (k : String) (v : Value) (fs : Fields) → lookup k fs ≡ some v → subscript k (dict fs) ≡ ok v
unfolding subscript
subscript_found k v fs h = rw (h, or_raise) refl

pub check_length_ok :
    (xs cs : Items) (n : ℕ)
    → Allows xs n
    → check_length xs (list (append cs (current_control n))) ≡ ok tt
unfolding check_length last_element elements
check_length_ok xs cs n allows =
    let min =
      subscript_found "observer_schema_list_min_length" (number allows.low) allows.control
        allows.control_low in
    let max =
      subscript_found "observer_schema_list_max_length" (number allows.high) allows.control
        allows.control_high in
    simp (last-append, allows.control_last, or_raise, current_length, min, max)
      (ground (arith, unless_modified))
