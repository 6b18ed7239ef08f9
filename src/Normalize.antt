-- ===== src/Normalize.antt =====
-- internal/normalize/normalize.go: keys for comparing names.
pub mod Idempotent
pub mod Sgb
use Prim.Native.Char.{Char, code}
use Prim.Native.String.{String, [], ◌∷◌}
use gesetzeswache.Prelude.{ℕ, Bool, ◌||◌, eqb, if◌then◌else◌}
use gesetzeswache.Text.{to_lower, trim_space}
use gesetzeswache.Text.Runes.{is_letter, is_digit}

-- One round of the loop of `Key`: what is written for a rune, in front of the rest.
unfoldable pub fold_char : Char → String → String
unfolding is_letter is_digit
fold_char c rest =
    if eqb (code c) 0xE4
    then "a" ∷ "e" ∷ rest
    else if eqb (code c) 0xF6
    then "o" ∷ "e" ∷ rest
    else if eqb (code c) 0xFC
    then "u" ∷ "e" ∷ rest
    else if eqb (code c) 0xDF
    then "s" ∷ "s" ∷ rest
    else if is_letter (code c) || is_digit (code c)
    then c ∷ rest
    else rest

pub fold_chars : String → String
fold_chars [] = []
fold_chars (c ∷ s) = fold_char c (fold_chars s)

-- `Key`
unfoldable pub key : String → String
unfolding fold_chars fold_char to_lower trim_space
key s = fold_chars (trim_space (to_lower s))
