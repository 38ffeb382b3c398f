-- ===== src/Manifest/Reconciled/Keyed.antt =====
-- Each kind of value that the response can hold at a key, reconciled.
use krake.Prelude.{String, ◌≡◌, refl, sym, subst, true, Option, none, some, arith}
use krake.Prelude.Keys.{string_key}
use krake.Manifest.Results.{ok}
use krake.Manifest.Values.{
  Value, null, dict, list, Items, nil, Fields, lookup, assign, member, has_key, append, item_count,
  same,
}
use krake.Manifest.Values.Assign.{lookup-assign}
use krake.Manifest.Names.{camel_to_snake_case}
use krake.Manifest.Schema.{set_item}
use krake.Manifest.Observed.{current_control, observe_fields, observe_value}
use krake.Manifest.Applied.{
  initialize, observes, with_elements, complete_fields, complete_key, complete_items,
}
use krake.Manifest.Delta.{compare_leaf, compare_fields, compare_key}
use krake.Manifest.Delta.Lengths.{Allows}
use krake.Manifest.Delta.Leaves.{compare_leaf_same, compare_leaf_namespace}
use krake.Manifest.Reconciled.{is_leaf}
use krake.Manifest.Reconciled.Keys.{subscript_of_lookup}
use krake.Manifest.Reconciled.Parts.{
  KeyReconciled, ListReconciled, StartsAs, update_part_lem, keeps_known, list_completed,
  list_observed, list_compared,
}

pub list-KeyReconciled :
    (k : String) (xs part ys : Items) (before : Option Value)
    → StartsAs before (list nil) (list part)
    → ListReconciled xs part ys
    → Allows xs (item_count ys)
    → KeyReconciled k (list xs) before (list ys)
unfolding complete_fields observe_fields compare_fields
list-KeyReconciled k xs part ys before start r allows = record {
  value = list r.items;
  seen = list (append r.seen (current_control (item_count ys)));
  completed = λ ms source e found.
      update_part_lem k (camel_to_snake_case k) (list nil) (list part) (list ys) (list r.items)
        (λ a b. with_elements (observes xs) a b (complete_items xs)) ms source
        (subst (λ o. StartsAs o (list nil) (list part)) (sym e) start) found
        (list_completed xs part ys r);
  observed = list_observed xs part ys r;
  compared = λ ms cs e f. simp (
    (subscript_of_lookup k _ ms e).1,
    (subscript_of_lookup k _ cs f).1,
    list_compared xs part ys r allows,
  );
}

leaf_completed :
    (k : String) (v m r : Value)
    → is_leaf v ≡ true
    → complete_key k v m r ≡ initialize k (camel_to_snake_case k) m r
unfolding complete_fields is_leaf
leaf_completed k v m r h = ground arith

leaf_observed : (v w : Value) → is_leaf v ≡ true → observe_value v w ≡ ok w
unfolding observe_fields is_leaf
leaf_observed v w h = ground arith

leaf_compared :
    (k : String) (v m c : Value) → is_leaf v ≡ true → compare_key k v m c ≡ compare_leaf k m c
unfolding compare_fields is_leaf
leaf_compared k v m c h = ground arith

initialize_known :
    (k name : String) (m : Value) (ms : Fields) (source : Value)
    → lookup k ms ≡ some m
    → initialize k name (dict ms) source ≡ ok (dict ms)
unfolding initialize
initialize_known k name m ms source h = rw (h, member, has_key) refl

initialize_new :
    (k name : String) (w : Value) (ms rs : Fields)
    → lookup k ms ≡ none
    → lookup name rs ≡ some w
    → initialize k name (dict ms) (dict rs) ≡ ok (dict (assign k w ms))
unfolding initialize set_item
initialize_new k name w ms rs h found =
    rw (h, member, has_key) (simp ((subscript_of_lookup name w rs found).1))

pub known_leaf-KeyReconciled :
    (k : String) (v m w : Value) → is_leaf v ≡ true → same m w ≡ true → KeyReconciled k v (some m) w
known_leaf-KeyReconciled k v m w leaf h = record {
  value = m;
  seen = w;
  completed = λ ms rs e found. (
    ms,
    rw (leaf_completed k v _ _ leaf) (initialize_known k _ m ms _ e),
    λ j. keeps_known k j m ms e,
  );
  observed = leaf_observed v w leaf;
  compared = λ ms cs e f. rw (leaf_compared k v _ _ leaf) (compare_leaf_same k m w ms cs e f h);
}

pub new_leaf-KeyReconciled :
    (k : String) (v w : Value) → is_leaf v ≡ true → same w w ≡ true → KeyReconciled k v none w
new_leaf-KeyReconciled k v w leaf h = record {
  value = w;
  seen = w;
  completed = λ ms rs e found. (
    assign k w ms,
    rw (leaf_completed k v _ _ leaf) (initialize_new k _ w ms rs e found),
    λ j. lookup-assign k j w ms,
  );
  observed = leaf_observed v w leaf;
  compared = λ ms cs e f. rw (leaf_compared k v _ _ leaf) (compare_leaf_same k w w ms cs e f h);
}

pub namespace-KeyReconciled :
    (v m : Value) → is_leaf v ≡ true → KeyReconciled "namespace" v (some m) null
namespace-KeyReconciled v m leaf = record {
  value = m;
  seen = null;
  completed = λ ms rs e found. (
    ms,
    rw (leaf_completed "namespace" v _ _ leaf) (initialize_known "namespace" _ m ms _ e),
    λ j. keeps_known "namespace" j m ms e,
  );
  observed = leaf_observed v null leaf;
  compared =
      λ ms cs e f. rw (leaf_compared "namespace" v _ _ leaf) (compare_leaf_namespace cs ms f);
}
