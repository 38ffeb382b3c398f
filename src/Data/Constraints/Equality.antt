-- ===== src/Data/Constraints/Equality.antt =====
-- The comparison of label constraints, and what a negative constraint demands.
use krake.Prelude.{String, ◌≡◌, ◌↔◌, true, not, ◌&&◌, List, [], ◌∷◌, arith}
use krake.Prelude.Keys.{==_iff, string_key}
use krake.Prelude.Dict.{Dict, has}
use krake.Data.Constraints.{
  LabelConstraint, equal_constraint, not_equal_constraint, in_constraint, not_in_constraint,
  is_instance, list_same, as_tuple, eq_method, label_same, match_label,
}

list_same_iff : (xs ys : List String) → (list_same xs ys ≡ true) ↔ (xs ≡ ys)
unfolding list_same
list_same_iff [] [] = ground arith
list_same_iff [] (y ∷ ys) = ground arith
list_same_iff (x ∷ xs) [] = ground arith
list_same_iff (x ∷ xs) (y ∷ ys) = ground (arith, ==_iff x y, list_same_iff xs ys)

-- Two label constraints compare as equal exactly when they are of the same kind, with the same
-- label and the same values, although one kind is a subclass of another.
pub label_same_iff : (c d : LabelConstraint) → (label_same c d ≡ true) ↔ (c ≡ d)
unfolding label_same eq_method is_instance as_tuple list_same
label_same_iff (equal_constraint l v) (equal_constraint m w) =
    ground (arith, ==_iff l m, ==_iff v w)
label_same_iff (equal_constraint l v) (not_equal_constraint m w) = ground arith
label_same_iff (equal_constraint l v) (in_constraint m w) = ground arith
label_same_iff (equal_constraint l v) (not_in_constraint m w) = ground arith
label_same_iff (not_equal_constraint l v) (not_equal_constraint m w) =
    ground (arith, ==_iff l m, ==_iff v w)
label_same_iff (not_equal_constraint l v) (equal_constraint m w) = ground arith
label_same_iff (not_equal_constraint l v) (in_constraint m w) = ground arith
label_same_iff (not_equal_constraint l v) (not_in_constraint m w) = ground arith
label_same_iff (in_constraint l v) (in_constraint m w) =
    ground (arith, ==_iff l m, list_same_iff v w)
label_same_iff (in_constraint l v) (equal_constraint m w) = ground arith
label_same_iff (in_constraint l v) (not_equal_constraint m w) = ground arith
label_same_iff (in_constraint l v) (not_in_constraint m w) = ground arith
label_same_iff (not_in_constraint l v) (not_in_constraint m w) =
    ground (arith, ==_iff l m, list_same_iff v w)
label_same_iff (not_in_constraint l v) (equal_constraint m w) = ground arith
label_same_iff (not_in_constraint l v) (not_equal_constraint m w) = ground arith
label_same_iff (not_in_constraint l v) (in_constraint m w) = ground arith

-- The constraint of the other sign on the same label and values.
abbrev pub opposite : LabelConstraint → LabelConstraint
opposite (equal_constraint l v) = not_equal_constraint l v
opposite (not_equal_constraint l v) = equal_constraint l v
opposite (in_constraint l vs) = not_in_constraint l vs
opposite (not_in_constraint l vs) = in_constraint l vs

abbrev pub label_of : LabelConstraint → String
label_of (equal_constraint l v) = l
label_of (not_equal_constraint l v) = l
label_of (in_constraint l vs) = l
label_of (not_in_constraint l vs) = l

-- A constraint and its opposite never match together, and one of them matches exactly when the
-- label is there: resources without the label fulfill neither.
pub match_label-opposite :
    (c : LabelConstraint) (labels : Dict String String)
    → match_label (opposite c) labels ≡ (has (label_of c) labels && not (match_label c labels))
unfolding match_label has
match_label-opposite (equal_constraint l v) labels = ground arith
match_label-opposite (not_equal_constraint l v) labels = ground arith
match_label-opposite (in_constraint l vs) labels = ground arith
match_label-opposite (not_in_constraint l vs) labels = ground arith
