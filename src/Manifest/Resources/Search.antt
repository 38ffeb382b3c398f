-- ===== src/Manifest/Resources/Search.antt =====
-- Which entry `get_kubernetes_resource_idx` finds.
use krake.Prelude.{
  ℕ, zero, suc, ◌≡◌, refl, sym, ap, ◌∙◌, subst, ◌↔◌, ◌⊎◌, inl, inr, Bool, true, false, List, [],
  ◌∷◌,
}
use krake.Prelude.Tests.{if◌then◌else◌}
use krake.Manifest.Results.{index_error, Result, ok, raised, ◌>>=◌, bind_ok}
use krake.Manifest.Values.{Value}
use krake.Manifest.Resources.{get_kubernetes_resource_idx, identifies}
use krake.Manifest.Resources.Identity.{
  IsResource, IsOther, identifies-IsResource, identifies-IsOther,
}

-- The entry at `i` is the resource, and none before it is.
pub data IsFirst (check : Bool) (resource : Value) : List Value → ℕ → Type 0 where
  here :
      {v : Value} {vs : List Value}
      → IsResource check resource v
      → IsFirst check resource (v ∷ vs) 0
  later :
      {v : Value} {vs : List Value} {i : ℕ}
      → IsOther check resource v
      → IsFirst check resource vs i
      → IsFirst check resource (v ∷ vs) (suc i)

-- Every entry is another resource.
pub data IsAbsent (check : Bool) (resource : Value) : List Value → Type 0 where
  no_entry : IsAbsent check resource []
  other :
      {v : Value} {vs : List Value}
      → IsOther check resource v
      → IsAbsent check resource vs
      → IsAbsent check resource (v ∷ vs)

found_here :
    (this : Bool) (rest : Result ℕ) (i : ℕ)
    → (if this then ok 0 else (rest >>= λ j. ok (suc j))) ≡ ok i
    → ((this ≡ true) × (i ≡ 0)) ⊎ ((this ≡ false) × (j : ℕ) × (rest ≡ ok j) × (i ≡ suc j))
found_here true rest i h = inl (refl, cc h)
found_here false rest i h = let (j, e, f) = bind_ok rest _ h in inr (refl, j, e, cc f)

found-IsFirst :
    (vs : List Value) (resource : Value) (check : Bool) (i : ℕ)
    → get_kubernetes_resource_idx vs resource check ≡ ok i
    → IsFirst check resource vs i
unfolding get_kubernetes_resource_idx
found-IsFirst [] resource check i h = absurd (cc h)
found-IsFirst (v ∷ vs) resource check i h =
    let (this, e, rest) = bind_ok (identifies check resource v) _ h in
    elim (found_here this (get_kubernetes_resource_idx vs resource check) i rest) [
      | inl (t, z) ↦
          subst (IsFirst check resource (v ∷ vs)) (sym z)
            (here ((identifies-IsResource check resource v).0 (e ∙ ap ok t)))
      | inr (t, j, f, z) ↦ subst (IsFirst check resource (v ∷ vs)) (sym z) (
          later ((identifies-IsOther check resource v).0 (e ∙ ap ok t))
            (found-IsFirst vs resource check j f))
    ]

IsFirst-found :
    (vs : List Value) (resource : Value) (check : Bool) (i : ℕ)
    → IsFirst check resource vs i
    → get_kubernetes_resource_idx vs resource check ≡ ok i
unfolding get_kubernetes_resource_idx
IsFirst-found [] resource check i h = elim h [ ]
IsFirst-found (v ∷ vs) resource check zero (here e) =
    simp ((identifies-IsResource check resource v).1 e)
IsFirst-found (v ∷ vs) resource check (suc i) (later e rest) =
    simp ((identifies-IsOther check resource v).1 e, IsFirst-found vs resource check i rest)

-- The search yields `i` exactly if entry `i` has the version of the API, the kind, the name and,
-- where that is checked, the namespace of the resource, and each entry before it is found to differ
-- in one of these.
pub found_iff :
    (vs : List Value) (resource : Value) (check : Bool) (i : ℕ)
    → (get_kubernetes_resource_idx vs resource check ≡ ok i) ↔ IsFirst check resource vs i
found_iff vs resource check i =
    (found-IsFirst vs resource check i, IsFirst-found vs resource check i)

-- If every entry is another resource, the search ends in an IndexError.
pub absent-raises :
    (vs : List Value) (resource : Value) (check : Bool)
    → IsAbsent check resource vs
    → get_kubernetes_resource_idx vs resource check ≡ raised index_error
unfolding get_kubernetes_resource_idx
absent-raises [] resource check no_entry = refl
absent-raises (v ∷ vs) resource check (other e rest) =
    simp ((identifies-IsOther check resource v).1 e, absent-raises vs resource check rest)
