-- ===== src/Manifest/Schema/Default.antt =====
-- The default schema is one that the validation of the user's schemas accepts.
use krake.Prelude.{ℕ, suc, ◌≡◌, refl, ap, some, [], arith}
use krake.Manifest.Results.{ok}
use krake.Manifest.Values.{
  Value, null, boolean, number, negative, str, dict, list, Items, nil, cons, Fields, end, field,
  item_count, append, last, front, or_raise,
}
use krake.Manifest.Schema.{default_control, default_value, default_fields, default_items}
use krake.Manifest.Schema.Validation.{
  check_control, check_list, require, validate_value, validate_fields, validate_items,
}

last-append : (xs : Items) (v : Value) → last (append xs v) ≡ some v
unfolding last append
last-append nil v = refl
last-append (cons x nil) v = refl
last-append (cons x (cons y nil)) v = refl
last-append (cons x (cons y (cons z zs))) v = last-append (cons y (cons z zs)) v

front-append : (xs : Items) (v : Value) → front (append xs v) ≡ xs
unfolding front append
front-append nil v = refl
front-append (cons x nil) v = refl
front-append (cons x (cons y ys)) v = ap (cons x) (front-append (cons y ys) v)

item_count-default : (xs : Items) → item_count (default_items xs) ≡ item_count xs
unfolding item_count default_value
item_count-default nil = refl
item_count-default (cons x xs) = ap suc (item_count-default xs)

control_accepted : (n : ℕ) → check_control n (default_control n) ≡ ok tt
unfolding check_control default_control
control_accepted n = ground (arith, require)

list_accepted :
    (xs : Items) → check_list (append (default_items xs) (default_control (item_count xs))) ≡ ok tt
unfolding check_list or_raise
list_accepted xs = simp (last-append, front-append, item_count-default, control_accepted)

mutual
  unfolding default_value validate_value

  default-value_valid : (v : Value) → validate_value (default_value v) ≡ ok tt
  default-value_valid null = refl
  default-value_valid (boolean b) = refl
  default-value_valid (number n) = refl
  default-value_valid (negative n) = refl
  default-value_valid (str s) = refl
  default-value_valid (dict fs) = default-fields_valid fs
  default-value_valid (list xs) =
      rw (list_accepted xs) (default-items_valid xs (default_control (item_count xs)))

  default-fields_valid : (fs : Fields) → validate_fields [] (default_fields fs) ≡ ok tt
  default-fields_valid end = refl
  default-fields_valid (field k v fs) = rw (default-value_valid v) (default-fields_valid fs)

  default-items_valid :
      (xs : Items) (c : Value) → validate_items (append (default_items xs) c) ≡ ok tt
  default-items_valid nil c = refl
  default-items_valid (cons x nil) c = simp (default-value_valid x)
  default-items_valid (cons x (cons y ys)) c =
      simp (default-value_valid x, default-items_valid (cons y ys) c)

-- Whatever the manifest holds below its first level, the validation of the user's schemas accepts
-- what `generate_default_observer_schema_dict` makes of it: each list has its control
-- dictionary, with bounds that allow the observed elements, and each other value is `None`.
pub default_value-accepted : (v : Value) → validate_value (default_value v) ≡ ok tt
default_value-accepted v = default-value_valid v
