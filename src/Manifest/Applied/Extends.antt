-- ===== src/Manifest/Applied/Extends.antt =====
-- What is in a manifest already stays there when it is completed.
use krake.Prelude.{String, ◌≡◌, refl, subst, ◌∙◌, ap, Bool, true, false, some, inl, inr, arith}
use krake.Prelude.Tests.{if◌then◌else◌, Bool-cases}
use krake.Prelude.Keys.{string_key, ◌==◌, ==_iff}
use krake.Manifest.Results.{Result, ok, ◌>>=◌, bind_ok}
use krake.Manifest.Values.{
  Value, null, boolean, number, negative, str, list, dict, Items, nil, cons, Fields, lookup, assign,
  has_key, member, subscript, or_raise,
}
use krake.Manifest.Schema.{set_item}
use krake.Manifest.Values.Assign.{lookup-assign}
use krake.Manifest.Observed.{elements}
use krake.Manifest.Applied.{ensure, initialize, update_part, with_elements, list_items, is_nil}

mutual
  -- The second value has all that the first has: a dictionary may have more keys and a list more
  -- elements at its end, also further down.
  pub data Extends : Value → Value → Type 0 where
    unchanged : {m : Value} → Extends m m
    more_keys :
        {ms ms' : Fields}
        → (at : (j : String) (m : Value) → lookup j ms ≡ some m → Value)
        → ((j : String) (m : Value) (e : lookup j ms ≡ some m) → lookup j ms' ≡ some (at j m e))
        → ((j : String) (m : Value) (e : lookup j ms ≡ some m) → Extends m (at j m e))
        → Extends (dict ms) (dict ms')
    more_elements : {ms ms' : Items} → ExtendsItems ms ms' → Extends (list ms) (list ms')

  pub data ExtendsItems : Items → Items → Type 0 where
    at_end : {ms' : Items} → ExtendsItems nil ms'
    element :
        {m m' : Value} {ms ms' : Items}
        → Extends m m'
        → ExtendsItems ms ms'
        → ExtendsItems (cons m ms) (cons m' ms')

pub ExtendsItems-refl : (ms : Items) → ExtendsItems ms ms
ExtendsItems-refl nil = at_end
ExtendsItems-refl (cons m ms) = element unchanged (ExtendsItems-refl ms)

mutual
  pub Extends-trans : {a b c : Value} → Extends a b → Extends b c → Extends a c
  Extends-trans unchanged h = h
  Extends-trans (more_keys at f x) unchanged = more_keys at f x
  Extends-trans (more_keys at f x) (more_keys at' g y) =
      more_keys (λ j m e. at' j (at j m e) (f j m e)) (λ j m e. g j (at j m e) (f j m e))
        (λ j m e. Extends-trans (x j m e) (y j (at j m e) (f j m e)))
  Extends-trans (more_elements h) unchanged = more_elements h
  Extends-trans (more_elements h) (more_elements i) = more_elements (ExtendsItems-trans h i)

  ExtendsItems-trans : {a b c : Items} → ExtendsItems a b → ExtendsItems b c → ExtendsItems a c
  ExtendsItems-trans at_end i = at_end
  ExtendsItems-trans (element h hs) (element i is) =
      element (Extends-trans h i) (ExtendsItems-trans hs is)

-- One key is written, over a value that the new one extends or where there was none.
assign-Extends :
    (k : String) (v : Value) (ms : Fields)
    → ((m : Value) → lookup k ms ≡ some m → Extends m v)
    → Extends (dict ms) (dict (assign k v ms))
assign-Extends k v ms over =
    more_keys (λ j m e. if k == j then v else m) (λ j m e. ground (arith, lookup-assign k j v ms))
      (λ j m e. elim (Bool-cases (k == j)) [
        | inl i ↦ rw i (over m (ap (λ q. lookup q ms) ((==_iff k j).0 i) ∙ e))
        | inr i ↦ rw i unchanged
      ])

set_item-Extends :
    (k : String) (v m m' : Value)
    → ((w : Value) → subscript k m ≡ ok w → Extends w v)
    → set_item k v m ≡ ok m'
    → Extends m m'
unfolding set_item subscript
set_item-Extends k v (dict fs) m' over h =
    subst (Extends (dict fs)) (cc h) (assign-Extends k v fs (λ m e. over m (rw (e, or_raise) refl)))
set_item-Extends k v null m' over h = absurd (cc h)
set_item-Extends k v (boolean b) m' over h = absurd (cc h)
set_item-Extends k v (number n) m' over h = absurd (cc h)
set_item-Extends k v (negative n) m' over h = absurd (cc h)
set_item-Extends k v (str s) m' over h = absurd (cc h)
set_item-Extends k v (list xs) m' over h = absurd (cc h)

subscript-member : (k : String) (m w : Value) → subscript k m ≡ ok w → member k m ≡ ok true
unfolding member has_key subscript or_raise
subscript-member k m w e = ground arith

-- `if key not in m: m[key] = v`, for a `v` that is fetched only then.
when_absent-Extends :
    (k : String) (m m' : Value) (fetch : Result Value) (present : Bool)
    → member k m ≡ ok present
    → (if present then ok m else (fetch >>= λ v. set_item k v m)) ≡ ok m'
    → Extends m m'
when_absent-Extends k m m' fetch true e h = subst (Extends m) (cc h) unchanged
when_absent-Extends k m m' fetch false e h =
    let (v, f, g) = bind_ok fetch (λ v. set_item k v m) h in
    set_item-Extends k v m m' (λ w i. absurd (cc (e, subscript-member k m w i))) g

ensure-Extends : (k : String) (i m m' : Value) → ensure k i m ≡ ok m' → Extends m m'
unfolding ensure
ensure-Extends k i m m' h =
    let (present, e, rest) = bind_ok (member k m) _ h in
    when_absent-Extends k m m' (ok i) present e rest

pub initialize-Extends :
    (k name : String) (m source m' : Value) → initialize k name m source ≡ ok m' → Extends m m'
unfolding initialize
initialize-Extends k name m source m' h =
    let (present, e, rest) = bind_ok (member k m) _ h in
    when_absent-Extends k m m' (subscript name source) present e rest

pub update_part-Extends :
    (k name : String) (i : Value) (update : Value → Value → Result Value) (m source m' : Value)
    → ((part from part' : Value) → update part from ≡ ok part' → Extends part part')
    → update_part k name i update m source ≡ ok m'
    → Extends m m'
unfolding update_part
update_part-Extends k name i update m source m' grows h =
    let (m1, e1, h1) = bind_ok (ensure k i m) _ h in
    let (part, e2, h2) = bind_ok (subscript k m1) _ h1 in
    let (from, e3, h3) = bind_ok (subscript name source) _ h2 in
    let (part', e4, h4) = bind_ok (update part from) _ h3 in
    Extends-trans (ensure-Extends k i m m1 e1) (
      set_item-Extends k part' m1 m'
        (λ w e. subst (λ p. Extends p part') (cc (e, e2)) (grows part from part' e4)) h4)

loop_elements-Extends :
    (b : Bool) (ys : Items) (m m' : Value) (loop : Items → Items → Result Items)
    → ((ms ys ms' : Items) → loop ms ys ≡ ok ms' → ExtendsItems ms ms')
    → (if b then ok m else do ms ← list_items m; ms ← loop ms ys; ok (list ms)) ≡ ok m'
    → Extends m m'
unfolding list_items
loop_elements-Extends true ys m m' loop grows h = subst (Extends m) (cc h) unchanged
loop_elements-Extends false ys (list ms) m' loop grows h =
    let (ms', e, f) = bind_ok (loop ms ys) _ h in
    subst (Extends (list ms)) (cc f) (more_elements (grows ms ys ms' e))
loop_elements-Extends false ys null m' loop grows h = absurd (cc h)
loop_elements-Extends false ys (boolean b) m' loop grows h = absurd (cc h)
loop_elements-Extends false ys (number n) m' loop grows h = absurd (cc h)
loop_elements-Extends false ys (negative n) m' loop grows h = absurd (cc h)
loop_elements-Extends false ys (str s) m' loop grows h = absurd (cc h)
loop_elements-Extends false ys (dict fs) m' loop grows h = absurd (cc h)

pub with_elements-Extends :
    (b : Bool) (m source m' : Value) (loop : Items → Items → Result Items)
    → ((ms ys ms' : Items) → loop ms ys ≡ ok ms' → ExtendsItems ms ms')
    → with_elements b m source loop ≡ ok m'
    → Extends m m'
unfolding with_elements
with_elements-Extends false m source m' loop grows h = subst (Extends m) (cc h) unchanged
with_elements-Extends true m source m' loop grows h =
    let (ys, e1, h1) = bind_ok (elements source) _ h in
    loop_elements-Extends (is_nil ys) ys m m' loop grows h1
