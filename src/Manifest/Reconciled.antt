-- ===== src/Manifest/Reconciled.antt =====
-- After an update of a resource, `update_last_applied_manifest_from_resp` and
-- `update_last_observed_manifest_from_resp` read the same response. Here is what a response has
-- to hold for the next comparison of the two manifests to find nothing to do.
pub mod Keys
pub mod Parts
pub mod Keyed
pub mod Inner
pub mod Converges
use krake.Prelude.{ℕ, ◌≤◌, String, ◌≡◌, Bool, true, false, Option, none, some}
use krake.Manifest.Values.{
  Value, null, boolean, number, negative, str, list, dict, Items, nil, cons, Fields, end, field,
  lookup, has_key, item_count, last, same,
}
use krake.Manifest.Delta.Lengths.{Allows}
use krake.Manifest.Names.{camel_to_snake_case}

-- Neither a dictionary nor a list.
unfoldable pub is_leaf : Value → Bool
is_leaf (dict fs) = false
is_leaf (list xs) = false
is_leaf _ = true

mutual
  -- The response holds every field of the schema, with the value of the manifest where that has
  -- one: a schema, a manifest and a response.
  pub data Obeys : Fields → Fields → Fields → Type 0 where
    no_field : {ms rs : Fields} → Obeys end ms rs
    one_field :
        {k : String} {v w : Value} {fs ms rs : Fields}
        → lookup (camel_to_snake_case k) rs ≡ some w
        → Holds k v (lookup k ms) w
        → has_key k fs ≡ false
        → Obeys fs ms rs
        → Obeys (field k v fs) ms rs

  pub data Holds : String → Value → Option Value → Value → Type 0 where
    known_dict :
        {k : String} {fs ms rs : Fields}
        → Obeys fs ms rs
        → Holds k (dict fs) (some (dict ms)) (dict rs)
    new_dict : {k : String} {fs rs : Fields} → Obeys fs end rs → Holds k (dict fs) none (dict rs)
    known_list :
        {k : String} {xs ms ys : Items}
        → ObeysItems xs ms ys
        → Allows xs (item_count ys)
        → Holds k (list xs) (some (list ms)) (list ys)
    new_list :
        {k : String} {xs ys : Items}
        → ObeysItems xs nil ys
        → Allows xs (item_count ys)
        → Holds k (list xs) none (list ys)
    known_leaf :
        {k : String} {v m w : Value} → is_leaf v ≡ true → same m w ≡ true → Holds k v (some m) w
    new_leaf : {k : String} {v w : Value} → is_leaf v ≡ true → same w w ≡ true → Holds k v none w
    -- a namespace of a resource that has none
    namespace : {v m : Value} → is_leaf v ≡ true → Holds "namespace" v (some m) null

  -- The response has every element that the schema observes.
  pub data ObeysItems : Items → Items → Items → Type 0 where
    control : {v : Value} {ms ys : Items} → ObeysItems (cons v nil) ms ys
    known :
        {v w m y : Value} {ws ms ys : Items}
        → HoldsItem v (some m) y
        → ObeysItems (cons w ws) ms ys
        → ObeysItems (cons v (cons w ws)) (cons m ms) (cons y ys)
    new :
        {v w y : Value} {ws ys : Items}
        → HoldsItem v none y
        → ObeysItems (cons w ws) nil ys
        → ObeysItems (cons v (cons w ws)) nil (cons y ys)

  pub data HoldsItem : Value → Option Value → Value → Type 0 where
    known_inner_dict :
        {fs ms rs : Fields} → Obeys fs ms rs → HoldsItem (dict fs) (some (dict ms)) (dict rs)
    new_inner_dict : {fs rs : Fields} → Obeys fs end rs → HoldsItem (dict fs) none (dict rs)
    known_inner_list :
        {xs ms ys : Items}
        → ObeysItems xs ms ys
        → Allows xs (item_count ys)
        → HoldsItem (list xs) (some (list ms)) (list ys)
    new_inner_list :
        {xs ys : Items}
        → ObeysItems xs nil ys
        → Allows xs (item_count ys)
        → HoldsItem (list xs) none (list ys)
    known_inner_leaf :
        {v m y : Value}
        → is_leaf v ≡ true
        → is_leaf y ≡ true
        → same m y ≡ true
        → HoldsItem v (some m) y
    new_inner_leaf :
        {v y : Value} → is_leaf v ≡ true → is_leaf y ≡ true → same y y ≡ true → HoldsItem v none y
