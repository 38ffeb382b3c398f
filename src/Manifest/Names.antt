-- ===== src/Manifest/Names.antt =====
-- krake/krake/utils.py: `camel_to_snake_case`. Its two regular expressions are spelled out, and
-- `lower` knows the letters of ASCII, which the names of Kubernetes' fields are written in.
pub mod Lower
use Prim.Native.Char.{Char, code}
use Prim.Native.String.{String, [], ◌∷◌}
use krake.Prelude.{ℕ, Bool, true, false, not, ◌&&◌, ◌||◌}
use krake.Prelude.Tests.{if◌then◌else◌, leb, nat_beq}

-- [A-Z], [a-z] and [0-9]
unfoldable pub is_upper : Char → Bool
is_upper c = leb b'A' (code c) && leb (code c) b'Z'

unfoldable pub is_lower : Char → Bool
is_lower c = leb b'a' (code c) && leb (code c) b'z'

is_digit : Char → Bool
is_digit c = leb b'0' (code c) && leb (code c) b'9'

-- [A-Z][a-z]
starts_word : String → Bool
unfolding is_upper is_lower
starts_word (u ∷ l ∷ s) = is_upper u && is_lower l
starts_word _ = false

pub data Mode : Type 0 where
  scanning word_head word_tail : Mode

-- re.sub(r"(.)([A-Z][a-z]+)", r"\1_\2", name), where the mode tells what of a match is copied.
pub split_words : Mode → String → String
unfolding starts_word is_lower
split_words m [] = []
split_words word_head (c ∷ s) = c ∷ split_words word_tail s
split_words scanning (c ∷ s) =
    if not (nat_beq (code c) b'\n') && starts_word s
    then c ∷ "_" ∷ split_words word_head s
    else c ∷ split_words scanning s
split_words word_tail (c ∷ s) =
    if is_lower c
    then c ∷ split_words word_tail s
    else if not (nat_beq (code c) b'\n') && starts_word s
    then c ∷ "_" ∷ split_words word_head s
    else c ∷ split_words scanning s

starts_upper : String → Bool
unfolding is_upper
starts_upper [] = false
starts_upper (c ∷ s) = is_upper c

-- re.sub(r"([a-z0-9])([A-Z])", r"\1_\2", name)
pub split_capitals : String → String
unfolding starts_upper is_lower is_digit
split_capitals [] = []
split_capitals (c ∷ s) =
    if (is_lower c || is_digit c) && starts_upper s
    then c ∷ "_" ∷ split_capitals s
    else c ∷ split_capitals s

translate : String → String → Char → Char
translate (u ∷ us) (l ∷ ls) c = if nat_beq (code u) (code c) then l else translate us ls c
translate _ _ c = c

pub lower_char : Char → Char
unfolding translate
lower_char = translate "ABCDEFGHIJKLMNOPQRSTUVWXYZ" "abcdefghijklmnopqrstuvwxyz"

pub lower : String → String
unfolding lower_char
lower [] = []
lower (c ∷ s) = lower_char c ∷ lower s

unfoldable pub camel_to_snake_case : String → String
unfolding split_words split_capitals lower
camel_to_snake_case name = lower (split_capitals (split_words scanning name))
