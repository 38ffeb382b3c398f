-- ===== src/Data/Key/Prefix.antt =====
-- The prefix of a listing: which keys begin with it.
use mathlib.Core.List.{append_assoc}
use mathlib.Core.Path.{subst₂}
use krake.Prelude.{
  ℕ, String, ◌≡◌, ◌⊎◌, inl, inr, refl, sym, ap, subst, ◌∙◌, true, false, ◌||◌, none, some, List, [],
  ◌∷◌, ◌++◌, arith,
}
use krake.Prelude.Tests.{Option-cases, Bool-cases}
use krake.Prelude.Keys.{contains, string_key, ==_iff, ◌==◌}
use krake.Prelude.Dict
use krake.Prelude.Dict.{get-put, get-remove, has-put, get_of_has}
use krake.Data.Key.{
  Piece, text, param, Params, formatted, allowed, parameters, value, fill, Cut, cut, finish, prefix,
}
use krake.Data.Key.Unique.{IsName, HasNames, Apart, names_split, append_cancel}

-- The given parameters are those of the object.
abbrev pub Agrees : Params → Params → Type 0
Agrees kwargs params = (p : String) (v : List ℕ) → Dict.get p kwargs ≡ some v → value p params ≡ v

fill-append :
    (ps qs : List Piece) (params : Params)
    → fill (ps ++ qs) params ≡ fill ps params ++ fill qs params
unfolding fill
fill-append [] qs params = refl
fill-append (text t ∷ ps) qs params = rw (fill-append ps qs params) (sym (append_assoc t _ _))
fill-append (param p ∷ ps) qs params =
    rw (fill-append ps qs params) (sym (append_assoc (value p params) _ _))

fill_cong :
    (ps : List Piece) (a b : Params)
    → ((p : String) → contains p (parameters ps) ≡ true → value p a ≡ value p b)
    → fill ps a ≡ fill ps b
unfolding fill parameters
fill_cong [] a b h = refl
fill_cong (text t ∷ ps) a b h = ap (λ k. t ++ k) (fill_cong ps a b h)
fill_cong (param p ∷ ps) a b h =
    rw (h p (ground (arith, ==_iff p p)))
      (ap (λ k. value p b ++ k) (fill_cong ps a b (λ q i. h q (ground arith))))

-- The template of a cut is a front part of the whole template.
cut-front :
    (ps : List Piece) (kwargs params : Params)
    → (others : List Piece) × (ps ≡ (cut ps kwargs params).template ++ others)
unfolding cut
cut-front [] kwargs params = ([], refl)
cut-front (text t ∷ ps) kwargs params =
    let (others, e) = cut-front ps kwargs params in (others, ap (λ l. text t ∷ l) e)
cut-front (param p ∷ ps) kwargs params = elim (Option-cases (Dict.get p kwargs)) [
  | inl absent ↦ (param p ∷ ps, rw (absent, cut) refl)
  | inr (v, given) ↦
      let (others, e) = cut-front ps (Dict.remove p kwargs) (Dict.put p v params) in
      (others, rw (given, cut) (ap (λ l. param p ∷ l) e))
]

-- What holds of every given parameter holds of every collected one.
module _ (Q : String → List ℕ → Type 0) where
  abbrev AllParams : Params → Type 0
  AllParams d = (p : String) (v : List ℕ) → Dict.get p d ≡ some v → Q p v

  put-AllParams :
      (p : String) (v : List ℕ) (d : Params) → Q p v → AllParams d → AllParams (Dict.put p v d)
  put-AllParams p v d here h q w e = elim (Bool-cases (p == q)) [
    | inl same ↦ subst₂ Q ((==_iff p q).0 same) (ground (arith, get-put p q v d)) here
    | inr other ↦ h q w (ground (arith, get-put p q v d))
  ]

  remove-AllParams : (p : String) (d : Params) → AllParams d → AllParams (Dict.remove p d)
  remove-AllParams p d h q w e = h q w (ground (arith, get-remove p q d))

  cut-AllParams :
      (ps : List Piece) (kwargs acc : Params)
      → AllParams kwargs
      → AllParams acc
      → AllParams (cut ps kwargs acc).params
  unfolding cut
  cut-AllParams [] kwargs acc h k = k
  cut-AllParams (text t ∷ ps) kwargs acc h k = cut-AllParams ps kwargs acc h k
  cut-AllParams (param p ∷ ps) kwargs acc h k = elim (Option-cases (Dict.get p kwargs)) [
    | inl absent ↦ rw (absent, cut) k
    | inr (v, given) ↦
        rw (given, cut)
          (cut-AllParams ps _ _ (remove-AllParams p kwargs h)
            (put-AllParams p v acc (h p v given) k))
  ]

-- A collected parameter stays collected.
cut_keeps :
    (ps : List Piece) (kwargs acc : Params) (q : String)
    → Dict.has q acc ≡ true
    → Dict.has q (cut ps kwargs acc).params ≡ true
unfolding cut
cut_keeps [] kwargs acc q h = h
cut_keeps (text t ∷ ps) kwargs acc q h = cut_keeps ps kwargs acc q h
cut_keeps (param p ∷ ps) kwargs acc q h = elim (Option-cases (Dict.get p kwargs)) [
  | inl absent ↦ rw (absent, cut) h
  | inr (v, given) ↦ rw (given, cut) (cut_keeps ps _ _ q (ground (arith, has-put p q v acc)))
]

-- Every parameter of the cut template is collected.
cut_collects :
    (ps : List Piece) (kwargs acc : Params) (q : String)
    → contains q (parameters (cut ps kwargs acc).template) ≡ true
    → Dict.has q (cut ps kwargs acc).params ≡ true
unfolding cut parameters
cut_collects [] kwargs acc q h = cc
cut_collects (text t ∷ ps) kwargs acc q h = cut_collects ps kwargs acc q h
cut_collects (param p ∷ ps) kwargs acc q h = elim (Option-cases (Dict.get p kwargs)) [
  | inl absent ↦ cc (rw (absent, cut) at h)
  | inr (v, given) ↦
      let acc' : Params = Dict.put p v acc in
      let h' : (p == q || contains q (parameters (cut ps (Dict.remove p kwargs) acc').template))
          ≡ true =
        rw (given, cut) at h in
      rw (given, cut)
        (ground (
          arith,
          h',
          cut_collects ps (Dict.remove p kwargs) acc' q,
          cut_keeps ps (Dict.remove p kwargs) acc' q,
          has-put p q v acc,
          ==_iff p q,
        ))
]

finish-eq-formatted :
    (rest : Params) (key x : List ℕ) → finish rest key ≡ formatted x → (rest ≡ []) × (key ≡ x)
unfolding finish
finish-eq-formatted [] key x h = ground arith
finish-eq-formatted ((p, v) ∷ rest) key x h = cc

value-eq : (p : String) (v : List ℕ) (d : Params) → Dict.get p d ≡ some v → value p d ≡ v
unfolding value
value-eq p v d h = rw h refl

-- The prefix that a listing asks for is a prefix of the key of every object with the given
-- parameters.
pub prefix-fill :
    (ps : List Piece) (kwargs params : Params) (x : List ℕ)
    → Agrees kwargs params
    → prefix ps kwargs ≡ formatted x
    → (rest : List ℕ) × (fill ps params ≡ x ++ rest)
unfolding prefix
prefix-fill ps kwargs params x h e =
    let c : Cut = cut ps kwargs [] in
    let (others, front) = cut-front ps kwargs [] in
    let agrees =
      cut-AllParams (λ p v. value p params ≡ v) ps kwargs [] h (unfold Dict.get in λ p v i. cc) in
    let same = fill_cong c.template c.params params (λ p i.
      let (v, given) = get_of_has p c.params (cut_collects ps kwargs [] p i) in
      value-eq p v c.params given ∙ sym (agrees p v given)) in
    (
      fill others params,
      ap (λ l. fill l params) front
          ∙ fill-append c.template others params
          ∙ ap (λ k. k ++ fill others params)
              (sym same ∙ (finish-eq-formatted c.rest (fill c.template c.params) x e).1),
    )

-- Each parameter of the template is followed in it by a character that no parameter allows.
abbrev pub StartsClosed : List Piece → Type 0
StartsClosed (text (c ∷ cs) ∷ ps) = allowed c ≡ false
StartsClosed _ = ⊥

abbrev pub IsClosed : List Piece → Type 0
IsClosed [] = Unit
IsClosed (text t ∷ ps) = IsClosed ps
IsClosed (param p ∷ ps) = StartsClosed ps × IsClosed ps

StartsClosed-fill :
    (ps : List Piece) (params : Params) (rest : List ℕ)
    → StartsClosed ps
    → Apart (fill ps params ++ rest)
unfolding fill
StartsClosed-fill [] params rest h = elim h [ ]
StartsClosed-fill (text [] ∷ ps) params rest h = elim h [ ]
StartsClosed-fill (text (c ∷ cs) ∷ ps) params rest h = h
StartsClosed-fill (param p ∷ ps) params rest h = elim h [ ]

closed_split :
    (ps : List Piece) (a b : Params) (r s : List ℕ)
    → IsClosed ps
    → HasNames ps a
    → HasNames ps b
    → fill ps a ++ r ≡ fill ps b ++ s
    → (p : String) → contains p (parameters ps) ≡ true
    → value p a ≡ value p b
unfolding fill parameters
closed_split [] a b r s closed ha hb h p k = cc
closed_split (text t ∷ ps) a b r s closed ha hb h p k =
    closed_split ps a b r s closed ha hb
      (append_cancel t _ _ (sym (append_assoc t _ r) ∙ h ∙ append_assoc t _ s)) p k
closed_split (param q ∷ ps) a b r s closed ha hb h p k =
    let here : contains q (q ∷ parameters ps) ≡ true = ground (arith, ==_iff q q) in
    let (same, rest) =
      names_split (value q a) (value q b) (fill ps a ++ r) (fill ps b ++ s) (ha q here).1
        (hb q here).1 (StartsClosed-fill ps a r closed.0) (StartsClosed-fill ps b s closed.0)
        (sym (append_assoc (value q a) _ r) ∙ h ∙ append_assoc (value q b) _ s) in
    ground (
      arith,
      ==_iff q p,
      closed_split ps a b r s closed.1 (λ x i. ha x (ground arith)) (λ x i. hb x (ground arith))
          rest p,
    )

cut_keeps_value :
    (ps : List Piece) (kwargs acc : Params) (q : String) (v : List ℕ)
    → Dict.get q acc ≡ some v
    → Dict.get q kwargs ≡ none
    → Dict.get q (cut ps kwargs acc).params ≡ some v
unfolding cut
cut_keeps_value [] kwargs acc q v h k = h
cut_keeps_value (text t ∷ ps) kwargs acc q v h k = cut_keeps_value ps kwargs acc q v h k
cut_keeps_value (param p ∷ ps) kwargs acc q v h k = elim (Option-cases (Dict.get p kwargs)) [
  | inl absent ↦ rw (absent, cut) h
  | inr (w, given) ↦
      rw (given, cut)
        (cut_keeps_value ps _ _ q v (ground (arith, get-put p q w acc, ==_iff p q))
          (ground (arith, get-remove p q kwargs)))
]

-- A given parameter is collected from the template, or it is left over.
cut-given :
    (ps : List Piece) (kwargs acc : Params) (q : String) (v : List ℕ)
    → Dict.get q kwargs ≡ some v
    → ((contains q (parameters (cut ps kwargs acc).template) ≡ true)
        × (Dict.get q (cut ps kwargs acc).params ≡ some v))
      ⊎ (Dict.get q (cut ps kwargs acc).rest ≡ some v)
unfolding cut parameters
cut-given [] kwargs acc q v h = inr h
cut-given (text t ∷ ps) kwargs acc q v h = cut-given ps kwargs acc q v h
cut-given (param p ∷ ps) kwargs acc q v h = elim (Option-cases (Dict.get p kwargs)) [
  | inl absent ↦ rw (absent, cut) (inr h)
  | inr (w, given) ↦
      rw (given, cut)
        (ground (
          arith,
          cut-given ps (Dict.remove p kwargs) (Dict.put p w acc) q v,
          cut_keeps_value ps (Dict.remove p kwargs) (Dict.put p w acc) q v,
          get-remove p q kwargs,
          get-put p q w acc,
          ==_iff p q,
        ))
]

contains-parameters :
    (p : String) (ps qs : List Piece)
    → contains p (parameters ps) ≡ true
    → contains p (parameters (ps ++ qs)) ≡ true
unfolding parameters
contains-parameters p [] qs h = cc
contains-parameters p (text t ∷ ps) qs h = contains-parameters p ps qs h
contains-parameters p (param q ∷ ps) qs h = ground (arith, contains-parameters p ps qs)

-- Where each parameter of the cut template is followed by a character that
-- no parameter allows, every object whose key begins with the prefix has the given parameters.
-- The given values and those of the object are names.
pub prefix_exact :
    (ps : List Piece) (kwargs params : Params) (x rest : List ℕ)
    → IsClosed (cut ps kwargs []).template
    → ((p : String) (v : List ℕ) → Dict.get p kwargs ≡ some v → IsName v)
    → HasNames ps params
    → prefix ps kwargs ≡ formatted x
    → fill ps params ≡ x ++ rest
    → Agrees kwargs params
unfolding prefix
prefix_exact ps kwargs params x rest closed names hp e k q v given =
    let c : Cut = cut ps kwargs [] in
    let (others, front) = cut-front ps kwargs [] in
    let (left, filled) = finish-eq-formatted c.rest (fill c.template c.params) x e in
    let named =
      cut-AllParams (λ p v. IsName v) ps kwargs [] names (unfold Dict.get in λ p v i. cc) in
    let named_cut : HasNames c.template c.params = λ p i.
      let (w, has_value) = get_of_has p c.params (cut_collects ps kwargs [] p i) in
      subst IsName (sym (value-eq p w c.params has_value)) (named p w has_value) in
    let named_object : HasNames c.template params = λ p i. hp p (
      subst (λ l. contains p (parameters l) ≡ true) (sym front)
        (contains-parameters p c.template others i)) in
    let keys : fill c.template c.params ++ rest ≡ fill c.template params ++ fill others params =
      ap (λ l. l ++ rest) filled
      ∙ sym k
      ∙ ap (λ l. fill l params) front
      ∙ fill-append c.template others params in
    elim (cut-given ps kwargs [] q v given) [
      | inl (inside, collected) ↦
          sym (
            closed_split c.template c.params params rest (fill others params) closed named_cut
              named_object keys q inside)
          ∙ value-eq q v c.params collected
      | inr over ↦ unfold Dict.get in cc (rw left at over)
    ]
