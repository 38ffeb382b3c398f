-- ===== src/Manifest/Reconciled/Inner.antt =====
-- Each kind of element that a list of the response can hold, reconciled.
use krake.Prelude.{◌≡◌, refl, ◌∙◌, true, Option, none, some, arith}
use krake.Manifest.Results.{Result, ok}
use krake.Manifest.Values.{Value, list, Items, nil, cons, append, item_count, same}
use krake.Manifest.Observed.{current_control, observe_fields, observe_value, observe_element}
use krake.Manifest.Applied.{complete_fields, complete_element, complete_missing}
use krake.Manifest.Delta.{compare_fields, compare_element, unless_modified}
use krake.Manifest.Delta.Lengths.{Allows}
use krake.Manifest.Reconciled.{is_leaf}
use krake.Manifest.Reconciled.Parts.{
  ListReconciled, list_completed, list_observed, list_compared, truthy_cons,
}

abbrev pub complete_at : Value → Option Value → Value → Result Value
complete_at v none y = complete_missing v y
complete_at v (some m) y = complete_element v m y

-- What the controller makes of one element.
pub record ItemReconciled (v : Value) (before : Option Value) (y : Value) : Type 0 where
  pub value : Value
  pub seen : Value
  pub completed : complete_at v before y ≡ ok value
  pub observed : observe_element v y ≡ ok seen
  pub compared : compare_element v value seen ≡ ok tt

leaf_element : (v y m : Value) → is_leaf v ≡ true → is_leaf y ≡ true → complete_element v m y ≡ ok m
unfolding complete_fields is_leaf
leaf_element v y m h i = ground (arith)

leaf_missing : (v y : Value) → is_leaf v ≡ true → is_leaf y ≡ true → complete_missing v y ≡ ok y
unfolding complete_fields is_leaf
leaf_missing v y h i = ground (arith)

leaf_seen : (v y : Value) → is_leaf v ≡ true → is_leaf y ≡ true → observe_element v y ≡ ok y
unfolding observe_fields is_leaf
leaf_seen v y h i = ground (arith)

leaf_same : (v a b : Value) → is_leaf v ≡ true → same a b ≡ true → compare_element v a b ≡ ok tt
unfolding compare_fields is_leaf unless_modified
leaf_same v a b h e = ground (arith)

pub known_leaf-ItemReconciled :
    (v m y : Value)
    → is_leaf v ≡ true
    → is_leaf y ≡ true
    → same m y ≡ true
    → ItemReconciled v (some m) y
known_leaf-ItemReconciled v m y h i e = record {
  value = m;
  seen = y;
  completed = leaf_element v y m h i;
  observed = leaf_seen v y h i;
  compared = leaf_same v m y h e;
}

pub new_leaf-ItemReconciled :
    (v y : Value) → is_leaf v ≡ true → is_leaf y ≡ true → same y y ≡ true → ItemReconciled v none y
new_leaf-ItemReconciled v y h i e = record {
  value = y;
  seen = y;
  completed = leaf_missing v y h i;
  observed = leaf_seen v y h i;
  compared = leaf_same v y y h e;
}

list_seen :
    (xs ys : Items) → observe_element (list xs) (list ys) ≡ observe_value (list xs) (list ys)
unfolding observe_fields
list_seen xs nil = refl
list_seen xs (cons y ys) = rw (truthy_cons y ys) refl

pub known_list-ItemReconciled :
    (xs ms ys : Items)
    → ListReconciled xs ms ys
    → Allows xs (item_count ys)
    → ItemReconciled (list xs) (some (list ms)) (list ys)
unfolding complete_fields compare_fields
known_list-ItemReconciled xs ms ys r allows = record {
  value = list r.items;
  seen = list (append r.seen (current_control (item_count ys)));
  completed = list_completed xs ms ys r;
  observed = list_seen xs ys ∙ list_observed xs ms ys r;
  compared = list_compared xs ms ys r allows;
}

pub new_list-ItemReconciled :
    (xs ys : Items)
    → ListReconciled xs nil ys
    → Allows xs (item_count ys)
    → ItemReconciled (list xs) none (list ys)
unfolding complete_fields compare_fields
new_list-ItemReconciled xs ys r allows =
    let known = known_list-ItemReconciled xs nil ys r allows in
    record {
      value = known.value;
      seen = known.seen;
      completed = known.completed;
      observed = known.observed;
      compared = known.compared;
    }
