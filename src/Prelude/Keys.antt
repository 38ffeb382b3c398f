-- ===== src/Prelude/Keys.antt =====
-- Equality of keys as an instance, and Python's `in`, `set` and `list.remove` over such keys.
use Prim.Native.Nat.{ℕ, suc, ◌+◌, ◌≤◌}
use Prim.Native.String.{String}
use mathlib.Core.Path.{◌≡◌, refl}
use mathlib.Core.Logic.{◌↔◌, inl, inr}
use mathlib.Core.Bool.{Bool, true, false, ◌||◌}
use mathlib.Core.List.{List, [], ◌∷◌, ◌++◌}
use native.Mathlib.Omega.{arith}
use text.Mathlib.Text.{◌==◌ as str_eq}
use text.Mathlib.TextEquality.{eq_iff}
use krake.Prelude.Lists.{length}
use krake.Prelude.Tests.{nat_beq, nat_beq_iff, if◌then◌else◌, Bool-cases}

-- What a dictionary or a set wants of its keys.
pub record Keyed {ℓ} (K : Type ℓ) : Type ℓ where
  pub same : K → K → Bool
  pub same_iff : (k j : K) → (same k j ≡ true) ↔ (k ≡ j)

instance abbrev pub string_key : Keyed String
string_key = record { same_iff = eq_iff; same = str_eq }

infix 50 ◌==◌
abbrev pub ◌==◌ {ℓ} : {K : Type ℓ} ⦃keyed : Keyed K⦄ → K → K → Bool
◌==◌ ⦃keyed⦄ k j = keyed.same k j

instance abbrev pub number_key : Keyed ℕ
number_key = record { same_iff = nat_beq_iff; same = nat_beq }

module _ {ℓ} {A : Type ℓ} ⦃e : Keyed A⦄ where
  pub ==_iff : (a b : A) → ((a == b) ≡ true) ↔ (a ≡ b)
  ==_iff a b = e.same_iff a b

  pub ==_refl : (a : A) → (a == a) ≡ true
  ==_refl a = (e.same_iff a a).1 refl

  -- x in xs
  abbrev pub contains : A → List A → Bool
  contains a [] = false
  contains a (x ∷ xs) = x == a || contains a xs

  -- How often `a` stands in the list.
  abbrev pub count : A → List A → ℕ
  count a [] = 0
  count a (x ∷ xs) = (if x == a then 1 else 0) + count a xs

  -- xs.remove(x): the first occurrence.
  abbrev pub remove_first : A → List A → List A
  remove_first a [] = []
  remove_first a (x ∷ xs) = if x == a then xs else x ∷ remove_first a xs

  -- s.add(x)
  abbrev pub add : A → List A → List A
  add a xs = if contains a xs then xs else xs ++ a ∷ []

  -- s.discard(x)
  abbrev pub discard : A → List A → List A
  discard a [] = []
  discard a (x ∷ xs) = let rest = discard a xs in if x == a then rest else x ∷ rest

  pub contains-append :
      (a : A) (xs ys : List A) → contains a (xs ++ ys) ≡ (contains a xs || contains a ys)
  contains-append a [] ys = refl
  contains-append a (x ∷ xs) ys = ground (arith, contains-append a xs ys)

  pub count-append : (a : A) (xs ys : List A) → count a (xs ++ ys) ≡ count a xs + count a ys
  count-append a [] ys = omega arith
  count-append a (x ∷ xs) ys = ground (arith, count-append a xs ys)

  pub contains-add : (a b : A) (xs : List A) → contains a (add b xs) ≡ (contains a xs || b == a)
  contains-add a b xs = elim (Bool-cases (contains b xs)) [
    | inl h ↦ rw h (ground (arith, ==_iff b a))
    | inr h ↦ rw h (ground (arith, contains-append a xs (b ∷ [])))
  ]

  pub contains-discard :
      (a b : A) (xs : List A)
      → contains a (discard b xs) ≡ (if b == a then false else contains a xs)
  contains-discard a b [] = ground arith
  contains-discard a b (x ∷ xs) =
      ground (arith, contains-discard a b xs, ==_iff x b, ==_iff b a, ==_iff x a)

  pub count-eq-zero : (a : A) (xs : List A) → contains a xs ≡ false → count a xs ≡ 0
  count-eq-zero a [] h = refl
  count-eq-zero a (x ∷ xs) h = ground (arith, count-eq-zero a xs)

  pub count-pos : (a : A) (xs : List A) → contains a xs ≡ true → 1 ≤ count a xs
  count-pos a [] h = ground arith
  count-pos a (x ∷ xs) h = ground (arith, count-pos a xs)

  pub count-remove_first :
      (a b : A) (xs : List A)
      → contains a xs ≡ true
      → count b (remove_first a xs) + (if a == b then 1 else 0) ≡ count b xs
  count-remove_first a b [] h = ground arith
  count-remove_first a b (x ∷ xs) h =
      ground (arith, count-remove_first a b xs, ==_iff x a, ==_iff x b, ==_iff a b)

  pub contains-of-count : (a : A) (xs : List A) → 1 ≤ count a xs → contains a xs ≡ true
  contains-of-count a [] h = absurd (omega arith)
  contains-of-count a (x ∷ xs) h = ground (arith, contains-of-count a xs)

  pub contains-remove_first :
      (a b : A) (xs : List A)
      → count a xs ≤ 1
      → contains b (remove_first a xs) ≡ (if a == b then false else contains b xs)
  contains-remove_first a b [] h = ground arith
  contains-remove_first a b (x ∷ xs) h =
      ground
        (arith, contains-remove_first a b xs, ==_iff x a, ==_iff x b, ==_iff a b, count-pos b xs)

  -- Unlike `contains-remove_first` this asks nothing of the list.
  pub contains-remove_first_ne :
      (a b : A) (xs : List A) → (a == b) ≡ false → contains b (remove_first a xs) ≡ contains b xs
  contains-remove_first_ne a b [] h = refl
  contains-remove_first_ne a b (x ∷ xs) h =
      ground (arith, contains-remove_first_ne a b xs, ==_iff x a, ==_iff x b, ==_iff a b)

  pub count-remove_first-le : (a b : A) (xs : List A) → count b (remove_first a xs) ≤ count b xs
  count-remove_first-le a b [] = omega arith
  count-remove_first-le a b (x ∷ xs) = ground (arith, count-remove_first-le a b xs)

  pub length-remove_first :
      (a : A) (xs : List A) → contains a xs ≡ true → length xs ≡ suc (length (remove_first a xs))
  length-remove_first a [] h = ground arith
  length-remove_first a (x ∷ xs) h = ground (arith, length-remove_first a xs)

  -- Distinct members of `universe` are at most as many as `universe` is long.
  pub length-le_of_subset :
      (xs universe : List A)
      → ((x : A) → count x xs ≤ 1)
      → ((x : A) → contains x xs ≡ true → contains x universe ≡ true)
      → length xs ≤ length universe
  length-le_of_subset [] universe once inside = omega arith
  length-le_of_subset (x ∷ xs) universe once inside =
      let found : contains x universe ≡ true = inside x (ground (arith, ==_iff x x)) in
      omega (
        arith,
        length-remove_first x universe found,
        length-le_of_subset xs (remove_first x universe) (λ y. ground (arith, once y))
            (λ y h. ground (
              arith,
              once y,
              once x,
              inside y,
              count-pos y xs,
              contains-remove_first_ne x y universe,
              ==_iff x y,
            )),
      )
