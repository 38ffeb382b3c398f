-- ===== src/Manifest/Applied/Kept.antt =====
-- The completion of a manifest, from a response or from the manifest before it, keeps what is there.
use krake.Prelude.{String, ◌≡◌, subst, Bool, true, false, ◌⊎◌, inl, inr}
use krake.Prelude.Tests.{if◌then◌else◌}
use krake.Manifest.Results.{key_error, type_error, Result, ok, raised, bind_ok}
use krake.Manifest.Values.{
  Value, null, boolean, number, negative, str, list, dict, Items, nil, cons, Fields, end, field,
  member,
}
use krake.Manifest.Names.{camel_to_snake_case}
use krake.Manifest.Applied.{
  with_elements, observes, complete_fields, complete_key, complete_items, complete_element,
  complete_resource,
}
use krake.Manifest.Applied.Specification.{
  merge_fields, merge_key, merge_items, merge_element, merge_resource,
}
use krake.Manifest.Applied.Extends.{
  Extends, unchanged, ExtendsItems, at_end, element, Extends-trans, ExtendsItems-refl,
  initialize-Extends, update_part-Extends, with_elements-Extends,
}

when_true :
    {a : Result Value} {m : Value} (b : Bool)
    → (if b then a else raised key_error) ≡ ok m
    → a ≡ ok m
when_true true h = h
when_true false h = absurd (cc h)

stays : (y m m' : Value) → elim y [ list ys ↦ raised type_error | _ ↦ ok m ] ≡ ok m' → Extends m m'
stays (list ys) m m' h = absurd (cc h)
stays y m m' h = subst (Extends m) (cc h) unchanged

mutual
  unfolding complete_fields

  complete_fields-Extends :
      (fs : Fields) (m r m' : Value) → complete_fields fs m r ≡ ok m' → Extends m m'
  complete_fields-Extends end m r m' h = subst (Extends m) (cc h) unchanged
  complete_fields-Extends (field k v fs) m r m' h =
      let (present, e, h1) = bind_ok (member (camel_to_snake_case k) r) _ h in
      let (m1, e1, h2) =
        bind_ok (if present then complete_key k v m r else raised key_error) _ h1 in
      Extends-trans (complete_key-Extends k v m r m1 (when_true present e1))
        (complete_fields-Extends fs m1 r m' h2)

  complete_key-Extends :
      (k : String) (v m r m' : Value) → complete_key k v m r ≡ ok m' → Extends m m'
  complete_key-Extends k (dict fs) m r m' h =
      update_part-Extends k (camel_to_snake_case k) (dict end) (complete_fields fs) m r m'
        (λ p f p' e. complete_fields-Extends fs p f p' e) h
  complete_key-Extends k (list xs) m r m' h =
      update_part-Extends k (camel_to_snake_case k) (list nil)
        (λ p f. with_elements (observes xs) p f (complete_items xs)) m r m'
        (λ p f p' e.
          with_elements-Extends (observes xs) p f p' (complete_items xs)
            (λ ms ys ms' i. complete_items-Extends xs ms ys ms' i) e)
        h
  complete_key-Extends k null m r m' h = initialize-Extends k (camel_to_snake_case k) m r m' h
  complete_key-Extends k (boolean b) m r m' h =
      initialize-Extends k (camel_to_snake_case k) m r m' h
  complete_key-Extends k (number n) m r m' h = initialize-Extends k (camel_to_snake_case k) m r m' h
  complete_key-Extends k (negative n) m r m' h =
      initialize-Extends k (camel_to_snake_case k) m r m' h
  complete_key-Extends k (str s) m r m' h = initialize-Extends k (camel_to_snake_case k) m r m' h

  complete_items-Extends :
      (xs ms ys ms' : Items) → complete_items xs ms ys ≡ ok ms' → ExtendsItems ms ms'
  complete_items-Extends nil ms ys ms' h = subst (ExtendsItems ms) (cc h) (ExtendsItems-refl ms)
  complete_items-Extends (cons v nil) ms ys ms' h =
      subst (ExtendsItems ms) (cc h) (ExtendsItems-refl ms)
  complete_items-Extends (cons v (cons w ws)) ms nil ms' h =
      subst (ExtendsItems ms) (cc h) (ExtendsItems-refl ms)
  complete_items-Extends (cons v (cons w ws)) nil (cons y ys) ms' h = at_end
  complete_items-Extends (cons v (cons w ws)) (cons m ms) (cons y ys) ms' h =
      let (m1, e1, h1) = bind_ok (complete_element v m y) _ h in
      let (rest, e2, h2) = bind_ok (complete_items (cons w ws) ms ys) _ h1 in
      subst (ExtendsItems (cons m ms)) (cc h2) (
        element (complete_element-Extends v m y m1 e1)
          (complete_items-Extends (cons w ws) ms ys rest e2))

  complete_element-Extends : (v m y m' : Value) → complete_element v m y ≡ ok m' → Extends m m'
  complete_element-Extends (dict fs) m y m' h = complete_fields-Extends fs m y m' h
  complete_element-Extends (list xs) m (list ys) m' h =
      with_elements-Extends (observes xs) m (list ys) m' (complete_items xs)
        (λ ms zs ms' i. complete_items-Extends xs ms zs ms' i) h
  complete_element-Extends (list xs) m y m' h = subst (Extends m) (cc h) unchanged
  complete_element-Extends v m y m' h = stays y m m' h

when_known :
    {a : Result Value} {m m1 : Value} (b : Bool)
    → (if b then a else ok m) ≡ ok m1
    → (a ≡ ok m1) ⊎ (m ≡ m1)
when_known true h = inl h
when_known false h = inr (cc h)

mutual
  unfolding merge_fields

  merge_fields-Extends : (fs : Fields) (m r m' : Value) → merge_fields fs m r ≡ ok m' → Extends m m'
  merge_fields-Extends end m r m' h = subst (Extends m) (cc h) unchanged
  merge_fields-Extends (field k v fs) m r m' h =
      let (known, e, h1) = bind_ok (member k r) _ h in
      let (m1, e1, h2) = bind_ok (if known then merge_key k v m r else ok m) _ h1 in
      let first : Extends m m1 = elim (when_known known e1) [
        | inl done ↦ merge_key-Extends k v m r m1 done
        | inr same ↦ subst (Extends m) same unchanged
      ] in
      Extends-trans first (merge_fields-Extends fs m1 r m' h2)

  merge_key-Extends : (k : String) (v m r m' : Value) → merge_key k v m r ≡ ok m' → Extends m m'
  merge_key-Extends k (dict fs) m r m' h =
      update_part-Extends k k (dict end) (merge_fields fs) m r m'
        (λ p f p' e. merge_fields-Extends fs p f p' e) h
  merge_key-Extends k (list xs) m r m' h =
      update_part-Extends k k (list nil) (λ p f. with_elements (observes xs) p f (merge_items xs)) m
        r m'
        (λ p f p' e.
          with_elements-Extends (observes xs) p f p' (merge_items xs)
            (λ ms ys ms' i. merge_items-Extends xs ms ys ms' i) e)
        h
  merge_key-Extends k null m r m' h = initialize-Extends k k m r m' h
  merge_key-Extends k (boolean b) m r m' h = initialize-Extends k k m r m' h
  merge_key-Extends k (number n) m r m' h = initialize-Extends k k m r m' h
  merge_key-Extends k (negative n) m r m' h = initialize-Extends k k m r m' h
  merge_key-Extends k (str s) m r m' h = initialize-Extends k k m r m' h

  merge_items-Extends : (xs ms ys ms' : Items) → merge_items xs ms ys ≡ ok ms' → ExtendsItems ms ms'
  merge_items-Extends nil ms ys ms' h = subst (ExtendsItems ms) (cc h) (ExtendsItems-refl ms)
  merge_items-Extends (cons v nil) ms ys ms' h =
      subst (ExtendsItems ms) (cc h) (ExtendsItems-refl ms)
  merge_items-Extends (cons v (cons w ws)) ms nil ms' h =
      subst (ExtendsItems ms) (cc h) (ExtendsItems-refl ms)
  merge_items-Extends (cons v (cons w ws)) nil (cons y ys) ms' h = at_end
  merge_items-Extends (cons v (cons w ws)) (cons m ms) (cons y ys) ms' h =
      let (m1, e1, h1) = bind_ok (merge_element v m y) _ h in
      let (rest, e2, h2) = bind_ok (merge_items (cons w ws) ms ys) _ h1 in
      subst (ExtendsItems (cons m ms)) (cc h2) (
        element (merge_element-Extends v m y m1 e1) (merge_items-Extends (cons w ws) ms ys rest e2))

  merge_element-Extends : (v m y m' : Value) → merge_element v m y ≡ ok m' → Extends m m'
  merge_element-Extends (dict fs) m y m' h = merge_fields-Extends fs m y m' h
  merge_element-Extends (list xs) m y m' h =
      with_elements-Extends (observes xs) m y m' (merge_items xs)
        (λ ms zs ms' i. merge_items-Extends xs ms zs ms' i) h
  merge_element-Extends v m y m' h = subst (Extends m) (cc h) unchanged

-- When the hook completes the manifest of a resource from a response without an exception, then
-- everything that was in the manifest is still there, at every depth: keys keep their values, and
-- lists their elements.
pub completed-Extends :
    (resource manifest response completed : Value)
    → complete_resource resource manifest response ≡ ok completed
    → Extends manifest completed
unfolding complete_resource
completed-Extends (dict fs) m r m' h = complete_fields-Extends fs m r m' h
completed-Extends null m r m' h = absurd (cc h)
completed-Extends (boolean b) m r m' h = absurd (cc h)
completed-Extends (number n) m r m' h = absurd (cc h)
completed-Extends (negative n) m r m' h = absurd (cc h)
completed-Extends (str s) m r m' h = absurd (cc h)
completed-Extends (list xs) m r m' h = absurd (cc h)

-- The same of what a resource of the specification takes over from the last applied manifest: the
-- specification's own values stay, at every depth.
pub merged-Extends :
    (resource new old merged : Value)
    → merge_resource resource new old ≡ ok merged
    → Extends new merged
unfolding merge_resource
merged-Extends (dict fs) m r m' h = merge_fields-Extends fs m r m' h
merged-Extends null m r m' h = absurd (cc h)
merged-Extends (boolean b) m r m' h = absurd (cc h)
merged-Extends (number n) m r m' h = absurd (cc h)
merged-Extends (negative n) m r m' h = absurd (cc h)
merged-Extends (str s) m r m' h = absurd (cc h)
merged-Extends (list xs) m r m' h = absurd (cc h)
