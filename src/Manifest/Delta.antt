-- ===== src/Manifest/Delta.antt =====
-- krake/krake/controller/kubernetes/application/application.py: `ResourceDelta`, the difference
-- between the last applied and the last observed manifest.
pub mod Lengths
pub mod Leaves
pub mod Resources
pub mod Limits
use krake.Prelude.{ℕ, String, Bool, true, false, not, ◌&&◌, ◌||◌, Option, none, some, List, [], ◌∷◌}
use krake.Prelude.Tests.{if◌then◌else◌, ltb}
use krake.Prelude.Keys.{string_key, ◌==◌}
use krake.Manifest.Results.{
  Error, modified_resource, key_error, index_error, type_error, Result, ok, raised, ◌>>=◌, ◌>>◌,
}
use krake.Manifest.Values.{
  Value, null, boolean, number, negative, str, list, dict, Items, nil, cons, Fields, end, field,
  last, natural, same, member, subscript, truthy, or_raise, bit,
}
use krake.Manifest.Resources.{get_kubernetes_resource_idx, entry, get_field}
use krake.Manifest.Observed.{elements}
use krake.Manifest.Applied.{observes}

unfoldable pub unless_modified : Bool → Result (Unit {0})
unless_modified true = ok tt
unless_modified false = raised modified_resource

is_null : Value → Bool
is_null null = true
is_null _ = false

-- The comparison of the values at a key that the schema observes as a whole.
unfoldable pub compare_leaf : String → Value → Value → Result (Unit {0})
unfolding subscript is_null same unless_modified
compare_leaf k desired current = do
  skipped ← (if k == "namespace" then (do b ← subscript k current; ok (is_null b)) else ok false)
  if skipped
      then ok tt
      else do a ← subscript k desired; b ← subscript k current; unless_modified (same a b)

pub data Signed : Type 0 where
  pos : ℕ → Signed
  negsuc : ℕ → Signed

-- The order of other values, which a control dictionary does not hold, is left out.
integer : Value → Result Signed
unfolding natural
integer (negative n) = ok (negsuc n)
integer v = elim (natural v) [ none ↦ raised type_error | some n ↦ ok (pos n) ]

below : Signed → Signed → Bool
below (pos a) (pos b) = ltb a b
below (pos a) (negsuc b) = false
below (negsuc a) (pos b) = true
below (negsuc a) (negsuc b) = ltb b a

-- v < w
less_than : Value → Value → Result Bool
unfolding integer below
less_than v w = do a ← integer v; b ← integer w; ok (below a b)

-- v[-1]
last_element : Value → Result Value
unfolding elements last or_raise
last_element (dict fs) = raised key_error
last_element v = do xs ← elements v; or_raise index_error (last xs)

-- Neither below the minimum nor above the maximum.
unfoldable pub check_length : Items → Value → Result (Unit {0})
unfolding last_element last or_raise subscript less_than unless_modified
check_length observed current = do
  c ← last_element current
  n ← subscript "observer_schema_list_current_length" c
  o ← or_raise index_error (last observed)
  low ← subscript "observer_schema_list_min_length" o
  short ← less_than n low
  if short then raised modified_resource else do
    high ← subscript "observer_schema_list_max_length" o
    long ← less_than high n
    unless_modified (not long)

-- Presence in the observed manifest first, then in the desired one.
unfoldable pub present_in_both : String → Value → Value → Result (Unit {0})
unfolding member unless_modified
present_in_both k desired current = do
  seen ← member k current
  unless_modified seen
  wanted ← member k desired
  unless_modified wanted

-- _calculate_modified_list, around its loop.
unfoldable pub compare_lists :
    Items → Value → Value → (Items → Items → Result (Unit {0})) → Result (Unit {0})
unfolding elements observes check_length
compare_lists xs desired current loop =
    (if observes xs then (do cs ← elements current; ds ← elements desired; loop ds cs) else ok tt)
    >> check_length xs current

unfoldable mutual
  unfolding present_in_both subscript compare_leaf compare_lists same unless_modified

  -- _calculate_modified_dict
  pub compare_fields : Fields → Value → Value → Result (Unit {0})
  compare_fields end desired current = ok tt
  compare_fields (field k v fs) desired current = do
    present_in_both k desired current
    compare_key k v desired current
    compare_fields fs desired current

  pub compare_key : String → Value → Value → Value → Result (Unit {0})
  compare_key k (dict fs) desired current = do
    a ← subscript k desired
    b ← subscript k current
    compare_fields fs a b
  compare_key k (list xs) desired current = do
    a ← subscript k desired
    b ← subscript k current
    compare_lists xs a b (compare_items xs)
  compare_key k _ desired current = compare_leaf k desired current

  -- The loop of _calculate_modified_list, over what is left of the three lists.
  pub compare_items : Items → Items → Items → Result (Unit {0})
  compare_items nil ds cs = ok tt
  compare_items (cons v nil) ds cs = ok tt
  compare_items (cons v (cons w ws)) ds cs = elim ds [
    | nil ↦ elim cs [ nil ↦ ok tt | cons _ _ ↦ raised modified_resource ]
    | cons d more ↦ elim cs [
      | nil ↦ raised modified_resource
      | cons c rest ↦ do compare_element v d c; compare_items (cons w ws) more rest
    ]
  ]

  pub compare_element : Value → Value → Value → Result (Unit {0})
  compare_element (dict fs) d c = compare_fields fs d c
  compare_element (list xs) d c = compare_lists xs d c (compare_items xs)
  compare_element _ d c = unless_modified (same d c)
