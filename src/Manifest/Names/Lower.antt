-- ===== src/Manifest/Names/Lower.antt =====
-- Names without upper-case letters.
use Prim.Native.Char.{Char, code}
use Prim.Native.String.{String, [], ◌∷◌}
use krake.Prelude.{◌≡◌, refl, Bool, false, ◌||◌, ◌⊎◌, inl, inr, arith}
use krake.Prelude.Tests.{nat_beq, Bool-cases}
use krake.Manifest.Names.{
  is_upper, starts_word, starts_upper, scanning, split_words, split_capitals, translate, lower_char,
  lower, camel_to_snake_case,
}

pub data IsLower : String → Type 0 where
  nil : IsLower []
  cons : {c : Char} {s : String} → is_upper c ≡ false → IsLower s → IsLower (c ∷ s)

in_table : String → Char → Bool
in_table [] c = false
in_table (u ∷ us) c = nat_beq (code u) (code c) || in_table us c

-- A table with as many letters on both sides, the right ones in lower case.
data IsTable : String → String → Type 0 where
  no_letter : IsTable [] []
  letter :
      {u l : Char} {us ls : String} → is_upper l ≡ false → IsTable us ls → IsTable (u ∷ us) (l ∷ ls)

translate-upper :
    {us ls : String} (c : Char)
    → IsTable us ls
    → ((in_table us c ≡ false) × (translate us ls c ≡ c)) ⊎ (is_upper (translate us ls c) ≡ false)
unfolding translate in_table
translate-upper c no_letter = inl (refl, refl)
translate-upper c (letter {u} {l} {us} {ls} h t) = elim (Bool-cases (nat_beq (code u) (code c))) [
  | inl e ↦ inr (rw e h)
  | inr e ↦ rw e (translate-upper c t)
]

alphabet : IsTable "ABCDEFGHIJKLMNOPQRSTUVWXYZ" "abcdefghijklmnopqrstuvwxyz"
unfolding is_upper
alphabet = letter refl (
    letter refl (
      letter refl (
        letter refl (
          letter refl (
            letter refl (
              letter refl (
                letter refl (
                  letter refl (
                    letter refl (
                      letter refl (
                        letter refl (
                          letter refl (
                            letter refl (
                              letter refl (
                                letter refl (
                                  letter refl (
                                    letter refl (
                                      letter refl (
                                        letter refl (
                                          letter refl (
                                            letter refl (
                                              letter refl (
                                                letter refl (
                                                  letter refl (
                                                    letter refl (no_letter))))))))))))))))))))))))))

not_in_alphabet : (c : Char) → in_table "ABCDEFGHIJKLMNOPQRSTUVWXYZ" c ≡ false → is_upper c ≡ false
unfolding in_table is_upper
not_in_alphabet c h = ground arith

lower_char-upper : (c : Char) → is_upper (lower_char c) ≡ false
unfolding lower_char is_upper
lower_char-upper c = elim (translate-upper c alphabet) [
  | inl (missing, e) ↦ rw e (not_in_alphabet c missing)
  | inr h ↦ h
]

lower_char-fixed : (c : Char) → is_upper c ≡ false → lower_char c ≡ c
unfolding is_upper lower_char translate
lower_char-fixed c h = ground arith

lower-IsLower : (s : String) → IsLower (lower s)
unfolding lower
lower-IsLower [] = nil
lower-IsLower (c ∷ s) = cons (lower_char-upper c) (lower-IsLower s)

lower-fixed : {s : String} → IsLower s → lower s ≡ s
unfolding lower
lower-fixed nil = refl
lower-fixed (cons {c} {s} h t) = rw (lower_char-fixed c h, lower-fixed t) refl

starts_word-IsLower : {s : String} → IsLower s → starts_word s ≡ false
unfolding starts_word
starts_word-IsLower nil = refl
starts_word-IsLower (cons h nil) = refl
starts_word-IsLower (cons h (cons i t)) = rw h refl

starts_upper-IsLower : {s : String} → IsLower s → starts_upper s ≡ false
unfolding starts_upper
starts_upper-IsLower nil = refl
starts_upper-IsLower (cons h t) = h

split_words-fixed : {s : String} → IsLower s → split_words scanning s ≡ s
unfolding split_words
split_words-fixed nil = refl
split_words-fixed (cons {c} {s} h t) = ground (arith, starts_word-IsLower t, split_words-fixed t)

split_capitals-fixed : {s : String} → IsLower s → split_capitals s ≡ s
unfolding split_capitals
split_capitals-fixed nil = refl
split_capitals-fixed (cons {c} {s} h t) =
    ground (arith, starts_upper-IsLower t, split_capitals-fixed t)

snake-fixed : {s : String} → IsLower s → camel_to_snake_case s ≡ s
unfolding camel_to_snake_case
snake-fixed {s} h = rw (split_words-fixed h) (rw (split_capitals-fixed h) (lower-fixed h))

snake-IsLower : (s : String) → IsLower (camel_to_snake_case s)
unfolding camel_to_snake_case
snake-IsLower s = lower-IsLower (split_capitals (split_words scanning s))

-- What the conversion yields holds no upper-case letter, and converting it again changes nothing,
-- so that a key which is in snake case already is looked up as it is.
pub camel_to_snake_case-idempotent :
    (s : String)
    → IsLower (camel_to_snake_case s)
      × (camel_to_snake_case (camel_to_snake_case s) ≡ camel_to_snake_case s)
camel_to_snake_case-idempotent s =
    let low : IsLower (camel_to_snake_case s) = snake-IsLower s in (low, snake-fixed low)
