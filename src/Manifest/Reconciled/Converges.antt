-- ===== src/Manifest/Reconciled/Converges.antt =====
-- An update that the cluster obeys leaves nothing to do.
use krake.Prelude.{String, ◌≡◌, refl, sym, ◌∙◌, false, Option, some, inl, inr, arith}
use krake.Prelude.Tests.{if◌then◌else◌}
use krake.Prelude.Keys.{string_key, ◌==◌, ==_iff, ==_refl}
use krake.Manifest.Results.{ok}
use krake.Manifest.Values.{
  Value, dict, Items, nil, cons, Fields, end, field, lookup, has_key, or_raise,
}
use krake.Manifest.Names.{camel_to_snake_case}
use krake.Manifest.Observed.{observe_resource, observe_fields}
use krake.Manifest.Applied.{observes, complete_resource, complete_fields, complete_key}
use krake.Manifest.Delta.{compare_fields}
use krake.Manifest.Delta.Resources.{compare_resource}
use krake.Manifest.Reconciled.{
  Obeys, no_field, one_field, Holds, known_dict, new_dict, known_list, new_list, known_leaf,
  new_leaf, namespace, ObeysItems, control, known, new, HoldsItem, known_inner_dict, new_inner_dict,
  known_inner_list, new_inner_list, known_inner_leaf, new_inner_leaf,
}
use krake.Manifest.Reconciled.Keys.{
  AgreesOn, AgreesOn-rest, compare_fields-cong, has_of_lookup, has_key-field, present_ok,
}
use krake.Manifest.Reconciled.Parts.{KeyReconciled, ListReconciled, dict-KeyReconciled}
use krake.Manifest.Reconciled.Inner.{
  ItemReconciled, known_leaf-ItemReconciled, new_leaf-ItemReconciled, known_list-ItemReconciled,
  new_list-ItemReconciled,
}
use krake.Manifest.Reconciled.Keyed.{
  list-KeyReconciled, known_leaf-KeyReconciled, new_leaf-KeyReconciled, namespace-KeyReconciled,
}

-- What the controller makes of the fields of a resource.
pub record Reconciles (fs ms rs : Fields) : Type 0 where
  pub manifest : Fields
  pub seen : Fields
  pub completed : complete_fields fs (dict ms) (dict rs) ≡ ok (dict manifest)
  pub observed : observe_fields fs (dict rs) ≡ ok seen
  pub compared : compare_fields fs (dict manifest) (dict seen) ≡ ok tt
  pub kept : (j : String) → has_key j fs ≡ false → lookup j manifest ≡ lookup j ms

-- The key of a field, then the fields after it.
field-Reconciles :
    (k : String) (v w : Value) (fs ms ms' rs : Fields) (before : Option Value)
    → lookup (camel_to_snake_case k) rs ≡ some w
    → has_key k fs ≡ false
    → (r : KeyReconciled k v before w) → complete_key k v (dict ms) (dict rs) ≡ ok (dict ms')
    → ((j : String) → lookup j ms' ≡ (if k == j then some r.value else lookup j ms))
    → Reconciles fs ms' rs
    → Reconciles (field k v fs) ms rs
unfolding complete_fields observe_fields compare_fields
field-Reconciles k v w fs ms ms' rs before found apart r done holds rest =
    let there = has_of_lookup (camel_to_snake_case k) w rs found in
    let e : lookup k rest.manifest ≡ some r.value =
      rest.kept k apart ∙ ground (arith, holds k, ==_refl k) in
    let f : lookup k (field k r.seen rest.seen) ≡ some r.seen = rw (lookup, ==_refl k) refl in
    record {
      manifest = rest.manifest;
      seen = field k r.seen rest.seen;
      completed = simp (there, done, rest.completed);
      observed = simp (there, found, or_raise, r.observed, rest.observed);
      compared = simp (
        present_ok k r.value r.seen rest.manifest (field k r.seen rest.seen) e f,
        r.compared rest.manifest (field k r.seen rest.seen) e f,
        compare_fields-cong fs rest.manifest rest.manifest (field k r.seen rest.seen) rest.seen
            (λ j i. refl) (λ j i. ground (arith, ==_iff k j, lookup)),
        rest.compared,
      );
      kept = λ j h. ground (arith, has_key-field k j v fs, rest.kept j, holds j);
    }

mutual
  unfolding complete_fields observe_fields compare_fields

  fields_reconciled :
      {fs ms rs : Fields}
      → Obeys fs ms rs
      → (ms' : Fields) → AgreesOn fs ms ms'
      → Reconciles fs ms' rs
  fields_reconciled no_field ms' agree = record {
    manifest = ms';
    seen = end;
    completed = refl;
    observed = refl;
    compared = refl;
    kept = λ j h. refl;
  }
  fields_reconciled {fs = field k v fs} {ms} {rs} (one_field {w} found holds apart others) ms'
        agree =
      let (here, rest) = AgreesOn-rest k v fs ms ms' agree in
      let r = key_reconciled holds in
      let (ms2, done, at) = r.completed ms' rs (sym here) found in
      field-Reconciles k v w fs ms' ms2 rs (lookup k ms) found apart r done at
        (fields_reconciled others ms2 (λ j i. ground (arith, rest j i, at j, ==_iff k j)))

  key_reconciled :
      {k : String} {v w : Value} {before : Option Value}
      → Holds k v before w
      → KeyReconciled k v before w
  key_reconciled {k} (known_dict {fs} {ms} {rs} h) =
      let r = fields_reconciled h ms (λ j i. refl) in
      dict-KeyReconciled k fs ms rs r.manifest r.seen _ (inl refl) r.completed r.observed r.compared
  key_reconciled {k} (new_dict {fs} {rs} h) =
      let r = fields_reconciled h end (λ j i. refl) in
      dict-KeyReconciled k fs end rs r.manifest r.seen _ (inr (refl, refl)) r.completed r.observed
        r.compared
  key_reconciled {k} (known_list {xs} {ms} {ys} h allows) =
      list-KeyReconciled k xs ms ys _ (inl refl) (items_reconciled h) allows
  key_reconciled {k} (new_list {xs} {ys} h allows) =
      list-KeyReconciled k xs nil ys _ (inr (refl, refl)) (items_reconciled h) allows
  key_reconciled {k} (known_leaf {v} {m} {w} leaf h) = known_leaf-KeyReconciled k v m w leaf h
  key_reconciled {k} (new_leaf {v} {w} leaf h) = new_leaf-KeyReconciled k v w leaf h
  key_reconciled (namespace {v} {m} leaf) = namespace-KeyReconciled v m leaf

  items_reconciled : {xs ms ys : Items} → ObeysItems xs ms ys → ListReconciled xs ms ys
  items_reconciled (control {v} {ms} {ys}) = record {
    items = ms;
    seen = nil;
    completed = refl;
    observed = refl;
    compared = λ c. refl;
    left = λ h. ground (arith, observes);
  }
  items_reconciled (known {v} {w} {m} {y} {ws} {ms} {ys} h others) =
      let one = item_reconciled h in
      let r = items_reconciled others in
      record {
        items = cons one.value r.items;
        seen = cons one.seen r.seen;
        completed = simp (one.completed, r.completed);
        observed = simp (one.observed, r.observed);
        compared = λ c. simp (one.compared, r.compared c);
        left = λ e. refl;
      }
  items_reconciled (new {v} {w} {y} {ws} {ys} h others) =
      let one = item_reconciled h in
      let r = items_reconciled others in
      record {
        items = cons one.value r.items;
        seen = cons one.seen r.seen;
        completed = simp (one.completed, r.completed);
        observed = simp (one.observed, r.observed);
        compared = λ c. simp (one.compared, r.compared c);
        left = λ e. refl;
      }

  item_reconciled :
      {v y : Value} {before : Option Value} → HoldsItem v before y → ItemReconciled v before y
  item_reconciled (known_inner_dict {fs} {ms} {rs} h) =
      let r = fields_reconciled h ms (λ j i. refl) in
      record {
        value = dict r.manifest;
        seen = dict r.seen;
        completed = r.completed;
        observed = simp r.observed;
        compared = r.compared;
      }
  item_reconciled (new_inner_dict {fs} {rs} h) =
      let r = fields_reconciled h end (λ j i. refl) in
      record {
        value = dict r.manifest;
        seen = dict r.seen;
        completed = r.completed;
        observed = simp r.observed;
        compared = r.compared;
      }
  item_reconciled (known_inner_list {xs} {ms} {ys} h allows) =
      known_list-ItemReconciled xs ms ys (items_reconciled h) allows
  item_reconciled (new_inner_list {xs} {ys} h allows) =
      new_list-ItemReconciled xs ys (items_reconciled h) allows
  item_reconciled (known_inner_leaf {v} {m} {y} leaf scalar e) =
      known_leaf-ItemReconciled v m y leaf scalar e
  item_reconciled (new_inner_leaf {v} {y} leaf scalar e) = new_leaf-ItemReconciled v y leaf scalar e

-- Once Kubernetes has answered with a resource that obeys, so that the response holds every field
-- of the schema, with the value of the manifest where that has one, and lists as long as their
-- control dictionaries allow, the two hooks end without an exception, and the comparison of the
-- two manifests that they leave reports no modification: the next reconciliation has nothing to do.
pub obeyed-reconciled :
    {fs ms rs : Fields}
    → Obeys fs ms rs
    → (applied : Value) × (observed : Value) × (complete_resource (dict fs) (dict ms) (dict rs)
        ≡ ok applied)
      × (observe_resource (dict fs) (dict rs) ≡ ok observed)
      × (compare_resource (dict fs) applied observed ≡ ok tt)
unfolding complete_resource observe_resource compare_resource
obeyed-reconciled {fs} {ms} {rs} h =
    let r = fields_reconciled h ms (λ j i. refl) in
    (dict r.manifest, dict r.seen, r.completed, simp r.observed, r.compared)
