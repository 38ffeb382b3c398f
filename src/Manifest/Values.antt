-- ===== src/Manifest/Values.antt =====
-- The values of a manifest, of an observer schema and of a response of the Kubernetes API: what
-- YAML and JSON yield in Python, less the floats. A dictionary keeps its insertion order.
pub mod Assign
use text.Mathlib.Text.{find?}
use krake.Prelude.{
  ℕ, zero, suc, String, ◌≡◌, Bool, true, false, not, ◌&&◌, ◌||◌, Option, none, some,
}
use krake.Prelude.Tests.{if◌then◌else◌, nat_beq}
use krake.Prelude.Keys.{string_key, ◌==◌}
use krake.Manifest.Results.{Error, key_error, type_error, Result, ok, raised}

mutual
  -- None, a bool, an int, a str, a list or a dict.
  pub data Value : Type 0 where
    null : Value
    boolean : Bool → Value
    number : ℕ → Value
    -- -(n + 1)
    negative : ℕ → Value
    str : String → Value
    list : Items → Value
    dict : Fields → Value

  pub data Items : Type 0 where
    nil : Items
    cons : Value → Items → Items

  pub data Fields : Type 0 where
    end : Fields
    field : String → Value → Fields → Fields

abbrev pub bit : Bool → ℕ
bit true = 1
bit false = 0

-- d.get(k)
unfoldable pub lookup : String → Fields → Option Value
lookup k end = none
lookup k (field j v fs) = if j == k then some v else lookup k fs

-- k in d
unfoldable pub has_key : String → Fields → Bool
unfolding lookup
has_key k fs = elim (lookup k fs) [ none ↦ false | some _ ↦ true ]

-- d[k] = v
unfoldable pub assign : String → Value → Fields → Fields
assign k v end = field k v end
assign k v (field j w fs) = if j == k then field j v fs else field j w (assign k v fs)

-- len(d)
unfoldable pub key_count : Fields → ℕ
key_count end = 0
key_count (field k v fs) = suc (key_count fs)

-- len(xs)
unfoldable pub item_count : Items → ℕ
item_count nil = 0
item_count (cons x xs) = suc (item_count xs)

-- xs[i], for an index that is not negative
unfoldable pub item : ℕ → Items → Option Value
item i nil = none
item zero (cons x xs) = some x
item (suc i) (cons x xs) = item i xs

-- xs[-1]
unfoldable pub last : Items → Option Value
last nil = none
last (cons x nil) = some x
last (cons x (cons y ys)) = last (cons y ys)

-- xs[:-1]
unfoldable pub front : Items → Items
front nil = nil
front (cons x nil) = nil
front (cons x (cons y ys)) = cons x (front (cons y ys))

-- xs.append(x)
unfoldable pub append : Items → Value → Items
append nil v = cons v nil
append (cons x xs) v = cons x (append xs v)

-- xs[i] = v, which is out of range nowhere
unfoldable pub replace : ℕ → Value → Items → Items
replace i v nil = nil
replace zero v (cons x xs) = cons v xs
replace (suc i) v (cons x xs) = cons x (replace i v xs)

-- A bool, which is an int in Python, or an int that is not negative.
unfoldable pub natural : Value → Option ℕ
natural (boolean b) = some (bit b)
natural (number n) = some n
natural _ = none

same_number : ℕ → Value → Bool
unfolding natural
same_number n v = elim (natural v) [ none ↦ false | some m ↦ nat_beq n m ]

-- `v == w`: the order of a dictionary's keys does not item_count.
unfoldable mutual
  unfolding lookup key_count same_number

  pub same : Value → Value → Bool
  same null w = elim w [ null ↦ true | _ ↦ false ]
  same (boolean b) w = same_number (bit b) w
  same (number n) w = same_number n w
  same (negative n) w = elim w [ negative m ↦ nat_beq n m | _ ↦ false ]
  same (str s) w = elim w [ str t ↦ s == t | _ ↦ false ]
  same (list xs) w = elim w [ list ys ↦ same_items xs ys | _ ↦ false ]
  same (dict fs) w = elim w [
    | dict gs ↦ nat_beq (key_count fs) (key_count gs) && same_fields fs gs
    | _ ↦ false
  ]

  pub same_items : Items → Items → Bool
  same_items nil ys = elim ys [ nil ↦ true | cons _ _ ↦ false ]
  same_items (cons x xs) ys = elim ys [ nil ↦ false | cons y ys ↦ same x y && same_items xs ys ]

  pub same_fields : Fields → Fields → Bool
  same_fields end gs = true
  same_fields (field k v fs) gs = elim (lookup k gs) [
    | none ↦ false
    | some w ↦ same v w && same_fields fs gs
  ]

in_items : String → Items → Bool
unfolding same
in_items k nil = false
in_items k (cons x xs) = same (str k) x || in_items k xs

-- `k in v`
unfoldable pub member : String → Value → Result Bool
unfolding has_key in_items
member k (dict fs) = ok (has_key k fs)
member k (list xs) = ok (in_items k xs)
member k (str s) = ok (elim (find? s k) [ none ↦ false | some _ ↦ true ])
member k _ = raised type_error

unfoldable pub or_raise {ℓ} : {A : Type ℓ} → Error → Option A → Result A
or_raise e none = raised e
or_raise e (some a) = ok a

-- `v[k]`
unfoldable pub subscript : String → Value → Result Value
unfolding lookup or_raise
subscript k (dict fs) = or_raise key_error (lookup k fs)
subscript k _ = raised type_error

-- `bool(v)`
unfoldable pub truthy : Value → Bool
truthy null = false
truthy (boolean b) = b
truthy (number n) = not (nat_beq n 0)
truthy (negative n) = true
truthy (str s) = not (s == "")
truthy (list xs) = not (nat_beq (item_count xs) 0)
truthy (dict fs) = not (nat_beq (key_count fs) 0)
