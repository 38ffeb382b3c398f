-- ===== src/Manifest/Reconciled/Parts.antt =====
-- One key and one list of a resource, once what stands below them has been reconciled.
use krake.Prelude.{
  String, ◌≡◌, refl, sym, subst, true, false, Option, none, some, ◌⊎◌, inl, inr, arith,
}
use krake.Prelude.Tests.{if◌then◌else◌, Bool-cases}
use krake.Prelude.Keys.{string_key, ◌==◌, ==_iff, ==_refl}
use krake.Manifest.Results.{Result, ok}
use krake.Manifest.Values.{
  Value, dict, list, Items, nil, cons, Fields, end, lookup, has_key, assign, member, item_count,
  append, same, truthy,
}
use krake.Manifest.Values.Assign.{lookup-assign}
use krake.Manifest.Names.{camel_to_snake_case}
use krake.Manifest.Schema.{set_item}
use krake.Manifest.Observed.{
  current_control, controlled, elements, observe_fields, observe_value, observe_items,
}
use krake.Manifest.Applied.{
  ensure, observes, update_part, is_nil, list_items, with_elements, complete_fields, complete_key,
  complete_items,
}
use krake.Manifest.Delta.{compare_fields, compare_key, compare_lists, compare_items}
use krake.Manifest.Delta.Lengths.{Allows, check_length_ok}
use krake.Manifest.Reconciled.Keys.{subscript_of_lookup}

-- What the controller makes of one key of a resource.
pub record KeyReconciled (k : String) (v : Value) (before : Option Value) (w : Value) : Type 0 where
  -- The value in the manifest afterwards, and in the observed manifest.
  pub value : Value
  pub seen : Value
  pub completed :
      (ms rs : Fields)
      → lookup k ms ≡ before
      → lookup (camel_to_snake_case k) rs ≡ some w
      → (ms' : Fields) × (complete_key k v (dict ms) (dict rs) ≡ ok (dict ms'))
        × ((j : String) → lookup j ms' ≡ (if k == j then some value else lookup j ms))
  pub observed : observe_value v w ≡ ok seen
  pub compared :
      (ms cs : Fields)
      → lookup k ms ≡ some value
      → lookup k cs ≡ some seen
      → compare_key k v (dict ms) (dict cs) ≡ ok tt

-- What it makes of a list.
pub record ListReconciled (xs ms ys : Items) : Type 0 where
  pub items : Items
  pub seen : Items
  pub completed : complete_items xs ms ys ≡ ok items
  pub observed : observe_items xs ys ≡ ok seen
  pub compared : (c : Value) → compare_items xs items (append seen c) ≡ ok tt
  pub left : observes xs ≡ true → is_nil ys ≡ false

ensure_known :
    (k : String) (v initial : Value) (ms : Fields)
    → lookup k ms ≡ some v
    → ensure k initial (dict ms) ≡ ok (dict ms)
unfolding ensure
ensure_known k v initial ms h = rw (h, member, has_key) refl

ensure_new :
    (k : String) (initial : Value) (ms : Fields)
    → lookup k ms ≡ none
    → ensure k initial (dict ms) ≡ ok (dict (assign k initial ms))
unfolding ensure set_item
ensure_new k initial ms h = rw (h, member, has_key) refl

pub keeps_known :
    (k j : String) (v : Value) (ms : Fields)
    → lookup k ms ≡ some v
    → lookup j ms ≡ (if k == j then some v else lookup j ms)
keeps_known k j v ms h = ground (arith, ==_iff k j)

assign_twice :
    (k j : String) (a b : Value) (ms : Fields)
    → lookup j (assign k b (assign k a ms)) ≡ (if k == j then some b else lookup j ms)
assign_twice k j a b ms =
    ground (arith, lookup-assign k j b (assign k a ms), lookup-assign k j a ms)

-- What stands below a key: the manifest has it, or it starts as `initial`.
abbrev pub StartsAs : Option Value → Value → Value → Type 0
StartsAs before initial part = (before ≡ some part) ⊎ ((before ≡ none) × (part ≡ initial))

pub update_part_lem :
    (k name : String) (initial part w part' : Value) (update : Value → Value → Result Value)
    (ms rs : Fields)
    → StartsAs (lookup k ms) initial part
    → lookup name rs ≡ some w
    → update part w ≡ ok part'
    → (ms' : Fields) × (update_part k name initial update (dict ms) (dict rs) ≡ ok (dict ms'))
      × ((j : String) → lookup j ms' ≡ (if k == j then some part' else lookup j ms))
unfolding update_part set_item
update_part_lem k name initial part w part' update ms rs start found done = elim start [
  | inl here ↦ (
    assign k part' ms,
    simp (
      ensure_known k part initial ms here,
      (subscript_of_lookup k part ms here).1,
      (subscript_of_lookup name w rs found).1,
      done,
    ),
    λ j. lookup-assign k j part' ms,
  )
  | inr (none_yet, e) ↦
      let here : lookup k (assign k initial ms) ≡ some part =
        ground (arith, lookup-assign k k initial ms, ==_refl k) in
      (
        assign k part' (assign k initial ms),
        simp (
          ensure_new k initial ms none_yet,
          (subscript_of_lookup k part _ here).1,
          (subscript_of_lookup name w rs found).1,
          done,
        ),
        λ j. assign_twice k j initial part' ms,
      )
]

pub dict-KeyReconciled :
    (k : String) (fs part rs part' cs : Fields) (before : Option Value)
    → StartsAs before (dict end) (dict part)
    → complete_fields fs (dict part) (dict rs) ≡ ok (dict part')
    → observe_fields fs (dict rs) ≡ ok cs
    → compare_fields fs (dict part') (dict cs) ≡ ok tt
    → KeyReconciled k (dict fs) before (dict rs)
unfolding complete_fields observe_fields compare_fields
dict-KeyReconciled k fs part rs part' cs before start done seen same = record {
  value = dict part';
  seen = dict cs;
  completed = λ ms source e found.
      update_part_lem k (camel_to_snake_case k) (dict end) (dict part) (dict rs) (dict part')
        (complete_fields fs) ms source
        (subst (λ o. StartsAs o (dict end) (dict part)) (sym e) start) found done;
  observed = simp seen;
  compared = λ ms cs' e f.
      simp ((subscript_of_lookup k _ ms e).1, (subscript_of_lookup k _ cs' f).1, same);
}

-- The loop, which has an element to observe where the schema has one.
with_elements_ok :
    (xs ms ys items : Items)
    → complete_items xs ms ys ≡ ok items
    → (observes xs ≡ true → is_nil ys ≡ false)
    → with_elements (observes xs) (list ms) (list ys) (complete_items xs) ≡ ok (list items)
unfolding with_elements complete_fields elements list_items
with_elements_ok nil ms ys items h some_left = cc h
with_elements_ok (cons v nil) ms ys items h some_left = cc h
with_elements_ok (cons v (cons w ws)) ms ys items h some_left = simp (some_left refl, h)

pub list_completed :
    (xs ms ys : Items) (r : ListReconciled xs ms ys)
    → with_elements (observes xs) (list ms) (list ys) (complete_items xs) ≡ ok (list r.items)
list_completed xs ms ys r = with_elements_ok xs ms ys r.items r.completed r.left

pub truthy_cons : (y : Value) (ys : Items) → truthy (list (cons y ys)) ≡ true
unfolding truthy item_count
truthy_cons y ys = ground arith

nothing_seen : (xs : Items) → observe_items xs nil ≡ ok nil
unfolding observe_fields
nothing_seen nil = refl
nothing_seen (cons v nil) = refl
nothing_seen (cons v (cons w ws)) = refl

pub list_observed :
    (xs ms ys : Items) (r : ListReconciled xs ms ys)
    → observe_value (list xs) (list ys)
      ≡ ok (list (append r.seen (current_control (item_count ys))))
unfolding observe_fields controlled elements append item_count
list_observed xs ms nil r =
    let e : r.seen ≡ nil = cc (nothing_seen xs, r.observed) in rw (e, append) refl
list_observed xs ms (cons y ys) r = rw (truthy_cons y ys) (simp r.observed)

pub list_compared :
    (xs ms ys : Items) (r : ListReconciled xs ms ys)
    → Allows xs (item_count ys)
    → compare_lists xs
        (list r.items)
        (list (append r.seen (current_control (item_count ys))))
        (compare_items xs)
      ≡ ok tt
unfolding compare_lists elements
list_compared xs ms ys r allows = elim (Bool-cases (observes xs)) [
  | inl e ↦ simp (e, r.compared, check_length_ok xs r.seen (item_count ys) allows)
  | inr e ↦ simp (e, check_length_ok xs r.seen (item_count ys) allows)
]
