-- ===== src/Data/Key.antt =====
-- krake/krake/data/__init__.py: `Key`, the template of the etcd keys of a class. A template such
-- as "/kubernetes/applications/{namespace}/{name}" is given by its pieces, and text is a list of
-- code points. The regular expression of `matches` is spelled out: a parameter stands for one or
-- more of the characters that it allows.
pub mod Unique
pub mod Prefix
mod Examples
use krake.Prelude.{
  ℕ, String, Bool, true, false, ◌&&◌, ◌||◌, Option, none, some, List, [], ◌∷◌, ◌++◌,
}
use krake.Prelude.Tests.{if◌then◌else◌, leb, nat_beq}
use krake.Prelude.Keys.{Keyed, string_key}
use krake.Prelude.Dict
use krake.Prelude.Dict.{Dict}

pub data Piece : Type 0 where
  text : List ℕ → Piece
  param : String → Piece

abbrev pub Params : Type 0
Params = Dict String (List ℕ)

-- The keyword argument of a TypeError.
pub data KeyError : Type 0 where
  missing : String → KeyError
  unexpected : String → KeyError

pub data Formatted (A : Type 0) : Type 0 where
  formatted : A → Formatted A
  type_error : KeyError → Formatted A

-- [.a-zA-Z0-9_:-]
pub allowed : ℕ → Bool
allowed c =
    nat_beq c b'.'
    || (leb b'a' c && leb c b'z')
    || (leb b'A' c && leb c b'Z')
    || (leb b'0' c && leb c b'9')
    || nat_beq c b'_'
    || nat_beq c b':'
    || nat_beq c b'-'

pub parameters : List Piece → List String
parameters [] = []
parameters (text t ∷ ps) = parameters ps
parameters (param p ∷ ps) = p ∷ parameters ps

or_empty : Option (List ℕ) → List ℕ
or_empty none = []
or_empty (some v) = v

pub value : String → Params → List ℕ
unfolding or_empty
value p params = or_empty (Dict.get p params)

-- `template.format(**params)`
pub fill : List Piece → Params → List ℕ
fill [] params = []
fill (text t ∷ ps) params = t ++ fill ps params
fill (param p ∷ ps) params = value p params ++ fill ps params

-- The loop of `format_kwargs`: the collected parameters, and the arguments that are left.
collect : List String → Params → Params → Formatted (Params × Params)
collect [] kwargs params = formatted (params, kwargs)
collect (p ∷ ps) kwargs params = elim (Dict.get p kwargs) [
  | none ↦ type_error (missing p)
  | some v ↦ collect ps (Dict.remove p kwargs) (Dict.put p v params)
]

-- `if kwargs: raise TypeError`
finish : Params → List ℕ → Formatted (List ℕ)
finish [] key = formatted key
finish ((p, v) ∷ kwargs) key = type_error (unexpected p)

fill_collected : List Piece → Formatted (Params × Params) → Formatted (List ℕ)
unfolding finish
fill_collected ps (formatted (params, rest)) = finish rest (fill ps params)
fill_collected ps (type_error e) = type_error e

pub format_kwargs : List Piece → Params → Formatted (List ℕ)
unfolding fill_collected collect
format_kwargs ps kwargs = fill_collected ps (collect (parameters ps) kwargs [])

-- `format_object`: the parameters are attributes of the object, or of its metadata.
pub format_object : {A : Type 0} → (A → String → List ℕ) → List Piece → A → List ℕ
format_object attribute [] obj = []
format_object attribute (text t ∷ ps) obj = t ++ format_object attribute ps obj
format_object attribute (param p ∷ ps) obj = attribute obj p ++ format_object attribute ps obj

-- The loop of `prefix`: the template up to the first parameter that is not given, the collected
-- parameters, and the arguments that are left.
pub record Cut : Type 0 where
  pub template : List Piece
  pub params : Params
  pub rest : Params

pub cut : List Piece → Params → Params → Cut
cut [] kwargs params = record { template = []; params = params; rest = kwargs }
cut (text t ∷ ps) kwargs params =
    let c = cut ps kwargs params in record c { template = text t ∷ c.template }
cut (param p ∷ ps) kwargs params = elim (Dict.get p kwargs) [
  | none ↦ record { template = []; params = params; rest = kwargs }
  | some v ↦
      let c = cut ps (Dict.remove p kwargs) (Dict.put p v params) in
      record c { template = param p ∷ c.template }
]

pub prefix : List Piece → Params → Formatted (List ℕ)
unfolding cut finish
prefix ps kwargs = let c = cut ps kwargs [] in finish c.rest (fill c.template c.params)

-- The rest of a key behind a text.
strip : List ℕ → List ℕ → Option (List ℕ)
strip [] key = some key
strip (c ∷ cs) [] = none
strip (c ∷ cs) (d ∷ key) = if nat_beq c d then strip cs key else none

-- One or more allowed characters, and then what `next` accepts.
some_name : (List ℕ → Bool) → List ℕ → Bool
some_name next [] = false
some_name next (c ∷ cs) = allowed c && (next cs || some_name next cs)

-- `$` also matches before a newline at the end.
at_end : List ℕ → Bool
at_end [] = true
at_end (c ∷ []) = nat_beq c 10
at_end (c ∷ d ∷ cs) = false

strip_then : (List ℕ → Bool) → Option (List ℕ) → Bool
strip_then next none = false
strip_then next (some key) = next key

pub matches : List Piece → List ℕ → Bool
unfolding strip some_name at_end strip_then
matches [] key = at_end key
matches (text t ∷ ps) key = strip_then (matches ps) (strip t key)
matches (param p ∷ ps) key = some_name (matches ps) key
