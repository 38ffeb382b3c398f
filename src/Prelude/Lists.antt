-- ===== src/Prelude/Lists.antt =====
-- Lists measured by native numbers, and predicates on lists by recursion.
use Prim.Native.Nat.{ℕ, suc, ◌+◌}
use mathlib.Core.Path.{◌≡◌, refl}
use mathlib.Core.Logic.{◌⊎◌, ◌↔◌, inl, inr}
use mathlib.Core.Bool.{Bool, true, false, ◌||◌}
use mathlib.Core.List.{List, [], ◌∷◌, ◌++◌}
use native.Mathlib.Omega.{arith}

module _ {ℓ} {A : Type ℓ} where
  abbrev pub length : List A → ℕ
  length [] = 0
  length (x ∷ xs) = suc (length xs)

  pub length-append : (xs ys : List A) → length (xs ++ ys) ≡ length xs + length ys
  length-append [] ys = omega arith
  length-append (x ∷ xs) ys = omega (arith, length-append xs ys)

-- Some member satisfies `P`; every member does.
abbrev pub Any {ℓ} : {A : Type ℓ} → (A → Type 0) → List A → Type 0
Any P [] = ⊥
Any P (x ∷ xs) = P x ⊎ Any P xs

abbrev pub All {ℓ} : {A : Type ℓ} → (A → Type 0) → List A → Type 0
All P [] = Unit
All P (x ∷ xs) = P x × All P xs

-- A test that decides `P` decides `Any P` when it is run along the list.
pub Any-iff {ℓ} :
    {A : Type ℓ} (test : A → Bool) (P : A → Type 0) (any : List A → Bool)
    → ((x : A) → (test x ≡ true) ↔ P x)
    → (any [] ≡ false)
    → ((x : A) (xs : List A) → any (x ∷ xs) ≡ (test x || any xs))
    → (xs : List A) → (any xs ≡ true) ↔ Any P xs
Any-iff test P any decides nil cons [] = ground (arith, nil)
Any-iff test P any decides nil cons (x ∷ xs) =
    ground (arith, cons x xs, decides x, Any-iff test P any decides nil cons xs)

pub All-map :
    {A : Type 0} {P Q : A → Type 0} (xs : List A) → ((x : A) → P x → Q x) → All P xs → All Q xs
All-map [] f h = tt
All-map (x ∷ xs) f h = (f x h.0, All-map xs f h.1)

-- Every member is a member.
pub All-member : {A : Type 0} (xs : List A) → All (λ x. Any (λ y. y ≡ x) xs) xs
All-member [] = tt
All-member (x ∷ xs) = (inl refl, All-map xs (λ y h. inr h) (All-member xs))

pub All-append :
    {A : Type 0} (P : A → Type 0) (xs ys : List A) → All P xs → All P ys → All P (xs ++ ys)
All-append P [] ys h k = k
All-append P (x ∷ xs) ys h k = (h.0, All-append P xs ys h.1 k)

-- A member with `P` where all have `Q` has both.
pub Any-All :
    {A : Type 0} {P Q : A → Type 0} (xs : List A) → Any P xs → All Q xs → (x : A) × P x × Q x
Any-All [] h k = elim h [ ]
Any-All (x ∷ xs) h k = elim h [ inl here ↦ (x, here, k.0) | inr there ↦ Any-All xs there k.1 ]
