-- ===== src/Manifest/Delta/Leaves.antt =====
-- The comparison of two values that the schema observes as a whole.
use krake.Prelude.{String, ◌≡◌, true, some, inl, inr}
use krake.Prelude.Tests.{Bool-cases}
use krake.Prelude.Keys.{string_key, ◌==◌}
use krake.Manifest.Results.{ok}
use krake.Manifest.Values.{Value, null, dict, Fields, lookup, same}
use krake.Manifest.Delta.{compare_leaf, unless_modified, is_null}
use krake.Manifest.Delta.Lengths.{subscript_found}

pub compare_leaf_same :
    (k : String) (a b : Value) (ms cs : Fields)
    → lookup k ms ≡ some a
    → lookup k cs ≡ some b
    → same a b ≡ true
    → compare_leaf k (dict ms) (dict cs) ≡ ok tt
unfolding compare_leaf unless_modified
compare_leaf_same k a b ms cs e f h = elim (Bool-cases (k == "namespace")) [
  | inl n ↦ elim (Bool-cases (is_null b)) [
    | inl z ↦ simp (n, subscript_found k b cs f, z)
    | inr z ↦ simp (n, subscript_found k b cs f, subscript_found k a ms e, z, h)
  ]
  | inr n ↦ simp (n, subscript_found k b cs f, subscript_found k a ms e, h)
]

pub compare_leaf_namespace :
    (cs ms : Fields)
    → lookup "namespace" cs ≡ some null
    → compare_leaf "namespace" (dict ms) (dict cs) ≡ ok tt
unfolding compare_leaf is_null
compare_leaf_namespace cs ms f = simp (subscript_found "namespace" null cs f)
