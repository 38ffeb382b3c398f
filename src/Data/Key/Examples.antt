-- ===== src/Data/Key/Examples.antt =====
-- The keys of applications, and the theorems about them.
use krake.Prelude.{ℕ, String, ◌≡◌, refl, some, List, [], ◌∷◌, ◌++◌, arith}
use krake.Prelude.Keys.{string_key}
use krake.Prelude.Dict
use krake.Data.Key.{
  Piece, text, param, Params, formatted, type_error, missing, unexpected, allowed, parameters,
  value, fill, format_kwargs, cut, prefix, matches,
}
use krake.Data.Key.Unique.{IsName, HasNames, fill_injective}
use krake.Data.Key.Prefix.{Agrees, prefix-fill}

program : Unit {0}
unfolding parameters value fill format_kwargs prefix cut matches allowed Dict.get Dict.put
    Dict.remove
program = tt

-- "/a/{namespace}/{name}"
abbrev template : List Piece
template = text (b'/' ∷ b'a' ∷ b'/' ∷ []) ∷ param "namespace" ∷ text (b'/' ∷ []) ∷ param "name" ∷ []

abbrev one : Params
one = ("namespace", b'n' ∷ []) ∷ ("name", b'x' ∷ []) ∷ []

abbrev in_n : Params
in_n = ("namespace", b'n' ∷ []) ∷ []

abbrev key_of_one : List ℕ
key_of_one = b'/' ∷ b'a' ∷ b'/' ∷ b'n' ∷ b'/' ∷ b'x' ∷ []

formats :
    (format_kwargs template one ≡ formatted key_of_one)
    × (format_kwargs template in_n ≡ type_error (missing "name"))
    × (prefix template in_n ≡ formatted (b'/' ∷ b'a' ∷ b'/' ∷ b'n' ∷ b'/' ∷ []))
    × (prefix template (("name", b'x' ∷ []) ∷ []) ≡ type_error (unexpected "name"))
unfolding program
formats = (refl, refl, refl, refl)

one-HasNames : HasNames template one
unfolding program
one-HasNames p h = ground arith

-- The same parameters, given in the other order.
abbrev one_swapped : Params
one_swapped = ("name", b'x' ∷ []) ∷ ("namespace", b'n' ∷ []) ∷ []

one_swapped-HasNames : HasNames template one_swapped
unfolding program
one_swapped-HasNames p h = ground arith

fill_injective_example : value "name" one ≡ value "name" one_swapped
unfolding program
fill_injective_example =
    fill_injective template one one_swapped (refl, (tt, tt)) one-HasNames one_swapped-HasNames refl
      "name" refl

in_n-Agrees : Agrees in_n one
unfolding program
in_n-Agrees p v h = ground arith

prefix-fill_example :
    (rest : List ℕ) × (fill template one ≡ (b'/' ∷ b'a' ∷ b'/' ∷ b'n' ∷ b'/' ∷ []) ++ rest)
unfolding program
prefix-fill_example = prefix-fill template in_n one _ in_n-Agrees refl

in_n-IsName : (p : String) (v : List ℕ) → Dict.get p in_n ≡ some v → IsName v
unfolding program
in_n-IsName p v h = ground arith
