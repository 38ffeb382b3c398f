-- ===== src/Manifest/Reconciled/Keys.antt =====
-- What the dictionaries of a manifest hold after an assignment, and what of them a comparison
-- and the completion from a response depend on.
use krake.Prelude.{String, ◌≡◌, refl, true, false, none, some, arith}
use krake.Prelude.Tests.{if◌then◌else◌}
use krake.Prelude.Keys.{string_key, ◌==◌, ==_refl}
use krake.Manifest.Results.{ok}
use krake.Manifest.Values.{
  Value, dict, list, Fields, end, field, lookup, has_key, member, subscript, or_raise, null,
  boolean, number, negative, str,
}
use krake.Manifest.Delta.{
  present_in_both, compare_leaf, compare_fields, compare_key, unless_modified,
}

pub subscript_of_lookup :
    (k : String) (v : Value) (fs : Fields)
    → lookup k fs ≡ some v
    → (member k (dict fs) ≡ ok true) × (subscript k (dict fs) ≡ ok v)
unfolding member has_key subscript or_raise
subscript_of_lookup k v fs h = (rw (h, member, has_key) refl, rw (h, subscript) refl)

pub absent_of_lookup :
    (k : String) (fs : Fields) → lookup k fs ≡ none → member k (dict fs) ≡ ok false
unfolding member has_key
absent_of_lookup k fs h = rw (h, member, has_key) refl

-- Two dictionaries that hold the same values at the keys of `fs`.
abbrev pub AgreesOn : Fields → Fields → Fields → Type 0
AgreesOn fs a b = (j : String) → has_key j fs ≡ true → lookup j a ≡ lookup j b

pub AgreesOn-rest :
    (k : String) (v : Value) (fs a b : Fields)
    → AgreesOn (field k v fs) a b
    → (lookup k a ≡ lookup k b) × AgreesOn fs a b
unfolding has_key lookup
AgreesOn-rest k v fs a b h = (h k (ground (arith, ==_refl k)), λ j i. h j (ground arith))

present-cong :
    (k : String) (d1 d2 c1 c2 : Fields)
    → lookup k d1 ≡ lookup k d2
    → lookup k c1 ≡ lookup k c2
    → present_in_both k (dict d1) (dict c1) ≡ present_in_both k (dict d2) (dict c2)
unfolding present_in_both
present-cong k d1 d2 c1 c2 e f = rw (e, f, member, has_key) refl

subscript-cong :
    (k : String) (a b : Fields)
    → lookup k a ≡ lookup k b
    → subscript k (dict a) ≡ subscript k (dict b)
unfolding subscript
subscript-cong k a b e = rw (e, or_raise) refl

leaf-cong :
    (k : String) (d1 d2 c1 c2 : Fields)
    → lookup k d1 ≡ lookup k d2
    → lookup k c1 ≡ lookup k c2
    → compare_leaf k (dict d1) (dict c1) ≡ compare_leaf k (dict d2) (dict c2)
unfolding compare_leaf
leaf-cong k d1 d2 c1 c2 e f = rw (subscript-cong k d1 d2 e, subscript-cong k c1 c2 f) refl

key-cong :
    (k : String) (v : Value) (d1 d2 c1 c2 : Fields)
    → lookup k d1 ≡ lookup k d2
    → lookup k c1 ≡ lookup k c2
    → compare_key k v (dict d1) (dict c1) ≡ compare_key k v (dict d2) (dict c2)
unfolding compare_fields
key-cong k (dict fs) d1 d2 c1 c2 e f = rw (subscript-cong k d1 d2 e, subscript-cong k c1 c2 f) refl
key-cong k (list xs) d1 d2 c1 c2 e f = rw (subscript-cong k d1 d2 e, subscript-cong k c1 c2 f) refl
key-cong k null d1 d2 c1 c2 e f = leaf-cong k d1 d2 c1 c2 e f
key-cong k (boolean b) d1 d2 c1 c2 e f = leaf-cong k d1 d2 c1 c2 e f
key-cong k (number n) d1 d2 c1 c2 e f = leaf-cong k d1 d2 c1 c2 e f
key-cong k (negative n) d1 d2 c1 c2 e f = leaf-cong k d1 d2 c1 c2 e f
key-cong k (str s) d1 d2 c1 c2 e f = leaf-cong k d1 d2 c1 c2 e f

-- A comparison reads no other key of the two dictionaries.
pub compare_fields-cong :
    (fs d1 d2 c1 c2 : Fields)
    → AgreesOn fs d1 d2
    → AgreesOn fs c1 c2
    → compare_fields fs (dict d1) (dict c1) ≡ compare_fields fs (dict d2) (dict c2)
unfolding compare_fields
compare_fields-cong end d1 d2 c1 c2 e f = refl
compare_fields-cong (field k v fs) d1 d2 c1 c2 e f =
    let (ek, er) = AgreesOn-rest k v fs d1 d2 e in
    let (fk, fr) = AgreesOn-rest k v fs c1 c2 f in
    rw
      (
        present-cong k d1 d2 c1 c2 ek fk,
        key-cong k v d1 d2 c1 c2 ek fk,
        compare_fields-cong fs d1 d2 c1 c2 er fr,
      )
      refl

pub has_of_lookup :
    (k : String) (v : Value) (fs : Fields) → lookup k fs ≡ some v → has_key k fs ≡ true
unfolding has_key
has_of_lookup k v fs h = rw (h, has_key) refl

pub has_key-field :
    (k j : String) (v : Value) (fs : Fields)
    → has_key j (field k v fs) ≡ (if k == j then true else has_key j fs)
unfolding has_key
has_key-field k j v fs = ground arith

pub present_ok :
    (k : String) (a b : Value) (ms cs : Fields)
    → lookup k ms ≡ some a
    → lookup k cs ≡ some b
    → present_in_both k (dict ms) (dict cs) ≡ ok tt
unfolding present_in_both unless_modified
present_ok k a b ms cs e f = rw (e, f, member, has_key) refl
