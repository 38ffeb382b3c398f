-- ===== src/Data/Constraints.antt =====
-- krake/krake/data/constraints.py: label and metric constraints, their comparison and their
-- matching. The grammar and its parser (lark) are not modelled: a constraint is what `parse` made.
pub mod Equality
pub mod Naturals
mod Examples
use krake.Prelude.{
  ℕ, String, ◌≡◌, Bool, true, false, not, ◌&&◌, ◌||◌, Option, none, some, List, [], ◌∷◌, ◌++◌,
}
use krake.Prelude.Tests.{if◌then◌else◌}
use krake.Prelude.Keys.{Keyed, ◌==◌, contains, string_key}
use krake.Prelude.Dict.{Dict, get}

-- The four subclasses of LabelConstraint.
pub data LabelConstraint : Type 0 where
  equal_constraint : String → String → LabelConstraint
  not_equal_constraint : String → String → LabelConstraint
  in_constraint : String → List String → LabelConstraint
  not_in_constraint : String → List String → LabelConstraint

-- `isinstance(c, d.__class__)`: NotEqualConstraint is a subclass of EqualConstraint, and
-- NotInConstraint one of InConstraint.
is_instance : LabelConstraint → LabelConstraint → Bool
is_instance (equal_constraint _ _) (equal_constraint _ _) = true
is_instance (not_equal_constraint _ _) (equal_constraint _ _) = true
is_instance (not_equal_constraint _ _) (not_equal_constraint _ _) = true
is_instance (in_constraint _ _) (in_constraint _ _) = true
is_instance (not_in_constraint _ _) (in_constraint _ _) = true
is_instance (not_in_constraint _ _) (not_in_constraint _ _) = true
is_instance _ _ = false

list_same : List String → List String → Bool
list_same [] [] = true
list_same (x ∷ xs) (y ∷ ys) = x == y && list_same xs ys
list_same _ _ = false

-- `_as_tuple`: the label, and the value or the values.
as_tuple : LabelConstraint → String × List String
as_tuple (equal_constraint label value) = (label, value ∷ [])
as_tuple (not_equal_constraint label value) = (label, value ∷ [])
as_tuple (in_constraint label values) = (label, values)
as_tuple (not_in_constraint label values) = (label, values)

-- `LabelConstraint.__eq__`, called on `c`.
eq_method : LabelConstraint → LabelConstraint → Bool
unfolding is_instance as_tuple list_same
eq_method c d =
    if not (is_instance d c)
    then false
    else let s = as_tuple c in let t = as_tuple d in s.0 == t.0 && list_same s.1 t.1

-- `c == d`: Python asks the right operand first when its class is a proper subclass of the left
-- one's.
pub label_same : LabelConstraint → LabelConstraint → Bool
unfolding eq_method
label_same c d = if is_instance d c && not (is_instance c d) then eq_method d c else eq_method c d

-- `match`: a label that is missing fulfills no constraint, also not a negative one.
unfoldable pub match_label : LabelConstraint → Dict String String → Bool
unfolding get
match_label (equal_constraint label value) labels = elim (get label labels) [
  | none ↦ false
  | some v ↦ v == value
]
match_label (not_equal_constraint label value) labels = elim (get label labels) [
  | none ↦ false
  | some v ↦ not (v == value)
]
match_label (in_constraint label values) labels = elim (get label labels) [
  | none ↦ false
  | some v ↦ contains v values
]
match_label (not_in_constraint label values) labels = elim (get label labels) [
  | none ↦ false
  | some v ↦ not (contains v values)
]

-- Python's numbers: the comparisons, `float(text)`, where none is ValueError, and the arithmetic
-- of the scores.
pub record Numbers (N : Type 0) : Type 0 where
  pub equals : N → N → Bool
  pub less : N → N → Bool
  pub parse : String → Option N
  pub zero : N
  pub one : N
  pub add : N → N → N
  pub multiply : N → N → N
  pub divide : N → N → N

pub data Comparison : Type 0 where
  equal not_equal greater_than greater_than_or_equal lesser_than lesser_than_or_equal : Comparison

pub record MetricConstraint : Type 0 where
  pub comparison : Comparison
  pub metric : String
  pub value : String

compare_with : {N : Type 0} → Numbers N → Comparison → N → N → Bool
compare_with ops equal a b = ops.equals a b
compare_with ops not_equal a b = not (ops.equals a b)
compare_with ops greater_than a b = ops.less b a
compare_with ops greater_than_or_equal a b = ops.less b a || ops.equals a b
compare_with ops lesser_than a b = ops.less a b
compare_with ops lesser_than_or_equal a b = ops.less a b || ops.equals a b

-- `match` over the weights of the metrics: none is the ValueError of `float`, which a metric that
-- is missing does not reach.
pub match_metric : {N : Type 0} → Numbers N → MetricConstraint → Dict String N → Option Bool
unfolding compare_with get
match_metric ops c metrics = elim (get c.metric metrics) [
  | none ↦ some false
  | some weight ↦ elim (ops.parse c.value) [
    | none ↦ none
    | some bound ↦ some (compare_with ops c.comparison weight bound)
  ]
]
