-- ===== src/Data/Key/Unique.antt =====
-- What `matches` accepts, and for which templates a key identifies its object.
use krake.Prelude.{ℕ, String, ◌≡◌, ◌≢◌, refl, Bool, true, false, some, List, [], ◌∷◌, ◌++◌, arith}
use krake.Prelude.Keys.{contains, string_key, ==_iff}
use krake.Data.Key.{
  Piece, text, param, Params, allowed, parameters, value, fill, strip, some_name, matches,
}

-- What the names of resources and namespaces are validated to be, among others: not empty, and
-- of allowed characters.
abbrev pub AllAllowed : List ℕ → Type 0
AllAllowed [] = Unit
AllAllowed (c ∷ cs) = (allowed c ≡ true) × AllAllowed cs

abbrev pub IsName : List ℕ → Type 0
IsName v = (v ≢ []) × AllAllowed v

-- Behind a parameter the template ends, or goes on with a character that no parameter allows.
abbrev pub StartsApart : List Piece → Type 0
StartsApart [] = Unit
StartsApart (text (c ∷ cs) ∷ ps) = allowed c ≡ false
StartsApart _ = ⊥

abbrev pub IsSeparated : List Piece → Type 0
IsSeparated [] = Unit
IsSeparated (text t ∷ ps) = IsSeparated ps
IsSeparated (param p ∷ ps) = StartsApart ps × IsSeparated ps

abbrev pub HasNames : List Piece → Params → Type 0
HasNames ps params = (p : String) → contains p (parameters ps) ≡ true → IsName (value p params)

-- The end, or a character that no parameter allows.
abbrev pub Apart : List ℕ → Type 0
Apart [] = Unit
Apart (c ∷ cs) = allowed c ≡ false

StartsApart-fill : (ps : List Piece) (params : Params) → StartsApart ps → Apart (fill ps params)
unfolding fill
StartsApart-fill [] params h = tt
StartsApart-fill (text [] ∷ ps) params h = elim h [ ]
StartsApart-fill (text (c ∷ cs) ∷ ps) params h = h
StartsApart-fill (param p ∷ ps) params h = elim h [ ]

pub append_cancel : (t xs ys : List ℕ) → t ++ xs ≡ t ++ ys → xs ≡ ys
append_cancel [] xs ys h = h
append_cancel (c ∷ cs) xs ys h = append_cancel cs xs ys (cc)

-- Two names with what follows each are equal only if both parts are.
pub names_split :
    (v w xs ys : List ℕ)
    → AllAllowed v
    → AllAllowed w
    → Apart xs
    → Apart ys
    → v ++ xs ≡ w ++ ys
    → (v ≡ w) × (xs ≡ ys)
names_split [] [] xs ys hv hw hx hy h = (refl, h)
names_split [] (d ∷ w) [] ys hv hw hx hy h = cc
names_split [] (d ∷ w) (c ∷ xs) ys hv hw hx hy h = ground arith
names_split (c ∷ v) [] xs [] hv hw hx hy h = cc
names_split (c ∷ v) [] xs (d ∷ ys) hv hw hx hy h = ground arith
names_split (c ∷ v) (d ∷ w) xs ys hv hw hx hy h =
    ground (arith, names_split v w xs ys hv.1 hw.1 hx hy)

-- When each parameter of the template ends the key or is followed by a character that no name has,
-- and both objects have a name, of such characters and not empty, for each parameter: if their keys
-- are the same, so is the name in every parameter.
pub fill_injective :
    (ps : List Piece) (a b : Params)
    → IsSeparated ps
    → HasNames ps a
    → HasNames ps b
    → fill ps a ≡ fill ps b
    → (p : String) → contains p (parameters ps) ≡ true
    → value p a ≡ value p b
unfolding fill parameters
fill_injective [] a b sep ha hb h p k = cc
fill_injective (text t ∷ ps) a b sep ha hb h p k =
    fill_injective ps a b sep ha hb (append_cancel t _ _ h) p k
fill_injective (param q ∷ ps) a b sep ha hb h p k =
    let here : contains q (q ∷ parameters ps) ≡ true = ground (arith, ==_iff q q) in
    let (same, rest) =
      names_split (value q a) (value q b) (fill ps a) (fill ps b) (ha q here).1 (hb q here).1
        (StartsApart-fill ps a sep.0) (StartsApart-fill ps b sep.0) h in
    ground (
      arith,
      ==_iff q p,
      fill_injective ps a b sep.1 (λ x i. ha x (ground arith)) (λ x i. hb x (ground arith)) rest p,
    )

strip-append : (t key : List ℕ) → strip t (t ++ key) ≡ some key
unfolding strip
strip-append [] key = refl
strip-append (c ∷ cs) key = ground (arith, strip-append cs key)

some_name-append :
    (next : List ℕ → Bool) (v key : List ℕ)
    → IsName v
    → next key ≡ true
    → some_name next (v ++ key) ≡ true
unfolding some_name
some_name-append next [] key h k = absurd (h.0 refl)
some_name-append next (c ∷ []) key h k = ground arith
some_name-append next (c ∷ d ∷ v) key h k =
    ground (arith, h.1.0, some_name-append next (d ∷ v) key (λ e. cc, h.1.1) k)

-- The key of an object whose parameters are names matches its template.
pub matches-fill :
    (ps : List Piece) (params : Params) → HasNames ps params → matches ps (fill ps params) ≡ true
unfolding matches fill parameters
matches-fill [] params h = refl
matches-fill (text t ∷ ps) params h =
    rw (strip-append t (fill ps params)) (matches-fill ps params h)
matches-fill (param p ∷ ps) params h =
    some_name-append (matches ps) (value p params) (fill ps params)
      (h p (ground (arith, ==_iff p p))) (matches-fill ps params (λ x i. h x (ground arith)))
