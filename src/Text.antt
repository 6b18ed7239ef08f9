-- ===== src/Text.antt =====
-- Go's `strings`, `unicode` and `strconv` functions that the program calls, over texts as lists of
-- code points. Case mapping and letters are Unicode's up to U+00FF; above it a rune has no case.
pub mod Runes
pub mod Cut
pub mod Laws
pub mod Decimal
use Prim.Native.Char.{Char, code}
use Prim.Native.String
use Prim.Native.String.{String, [], ◌∷◌}
use gesetzeswache.Prelude.{
  ℕ, suc, ◌+◌, ◌-◌, ◌*◌, ◌/◌, ◌%◌, ◌^◌, Bool, true, false, not, ◌&&◌, ◌||◌, ◌==◌, eqb, ltb, leb,
  if◌then◌else◌, ℤ, pos, negsuc, List,
}
use Runes.{is_space, upper_rune, lower_rune, fold_rune, recase, digit_char, is_digit}

-- `strings.Map` with a rune function.
abbrev pub map_text : (ℕ → ℕ) → String → String
map_text f [] = []
map_text f (c ∷ s) = recase f c ∷ map_text f s

-- `strings.ToUpper`
unfoldable pub to_upper : String → String
unfolding upper_rune recase
to_upper = map_text upper_rune

-- `strings.ToLower`
unfoldable pub to_lower : String → String
unfolding lower_rune recase
to_lower = map_text lower_rune

-- `strings.EqualFold`
unfoldable pub equal_fold : String → String → Bool
unfolding fold_rune recase
equal_fold s t = map_text fold_rune s == map_text fold_rune t

abbrev pub is_empty : String → Bool
is_empty [] = true
is_empty (c ∷ s) = false

unfoldable pub trim_left : String → String
trim_left [] = []
trim_left (c ∷ s) = if is_space (code c) then trim_left s else c ∷ s

abbrev pub cons_trimmed : Char → String → String
cons_trimmed c r = if is_empty r && is_space (code c) then [] else c ∷ r

unfoldable pub trim_right : String → String
trim_right [] = []
trim_right (c ∷ s) = cons_trimmed c (trim_right s)

-- `strings.TrimSpace`
unfoldable pub trim_space : String → String
unfolding is_space trim_left trim_right
trim_space s = trim_right (trim_left s)

-- `strings.HasPrefix`
unfoldable pub has_prefix : String → String → Bool
has_prefix s [] = true
has_prefix [] (d ∷ p) = false
has_prefix (c ∷ s) (d ∷ p) = eqb (code c) (code d) && has_prefix s p

-- `strings.TrimPrefix`, once the prefix is known to be there: the text behind it
unfoldable pub after_prefix : String → String → String
after_prefix s [] = s
after_prefix [] (d ∷ p) = []
after_prefix (c ∷ s) (d ∷ p) = after_prefix s p

-- `strings.HasSuffix`
unfoldable pub has_suffix : String → String → Bool
has_suffix [] p = [] == p
has_suffix (c ∷ s) p = c ∷ s == p || has_suffix s p

-- `strings.TrimSuffix`
unfoldable pub trim_suffix : String → String → String
trim_suffix [] p = []
trim_suffix (c ∷ s) p = if c ∷ s == p then [] else c ∷ trim_suffix s p

-- `strings.Contains`
unfoldable pub contains : String → String → Bool
contains [] p = [] == p
contains (c ∷ s) p = has_prefix (c ∷ s) p || contains s p

abbrev pub push : Char → List String → List String
push c List.[] = List.◌∷◌ (c ∷ []) List.[]
push c (List.◌∷◌ part parts) = List.◌∷◌ (c ∷ part) parts

-- `strings.Split` at a separator of one rune, given by its code
unfoldable pub split_on : (sep : ℕ) → String → List String
split_on sep [] = List.◌∷◌ [] List.[]
split_on sep (c ∷ s) =
    let rest = split_on sep s in if eqb (code c) sep then List.◌∷◌ [] rest else push c rest

-- `strconv.Itoa` of a number that is not negative, on fuel above the number
decimal : ℕ → ℕ → String
decimal (suc fuel) n =
    let rest = decimal fuel (n / 10) in
    if ltb n 10 then digit_char n ∷ [] else String.◌++◌ rest (digit_char (n % 10) ∷ [])
decimal _ n = []

unfoldable pub itoa : ℕ → String
unfolding decimal digit_char
itoa n = decimal (suc n) n

-- What `strconv.ParseUint` in base 10 answers: a syntax error, a range error or a value.
pub data Parsed : Type 0 where
  syntax_error range_error : Parsed
  value : ℕ → Parsed

pub parse_digits : ℕ → String → Parsed
parse_digits n [] = value n
parse_digits n (c ∷ s) =
    let more = parse_digits (n * 10 + (code c - 48)) s in
    if not (is_digit (code c))
    then syntax_error
    else if leb (2 ^ 64) (n * 10 + (code c - 48))
    then range_error
    else more

abbrev parse_unsigned : String → Parsed
parse_unsigned [] = syntax_error
parse_unsigned (c ∷ s) = parse_digits 0 (c ∷ s)

-- `strconv.Atoi`: the value, which is 0 on a syntax error and the nearest `int` on a range error,
-- and whether the error is nil.
pub record Atoi : Type 0 where
  pub value : ℤ
  pub ok : Bool

pub signed : Bool → Parsed → Atoi
signed neg syntax_error = record { value = pos 0; ok = false }
signed false range_error = record { value = pos (2 ^ 63 - 1); ok = false }
signed true range_error = record { value = negsuc (2 ^ 63 - 1); ok = false }
signed false (value n) =
    if leb (2 ^ 63) n
    then record { value = pos (2 ^ 63 - 1); ok = false }
    else record { value = pos n; ok = true }
signed true (value n) =
    if ltb (2 ^ 63) n
    then record { value = negsuc (2 ^ 63 - 1); ok = false }
    else record { value = if eqb n 0 then pos 0 else negsuc (n - 1); ok = true }

unfoldable pub atoi : String → Atoi
unfolding signed parse_digits is_digit
atoi [] = signed false syntax_error
atoi (c ∷ s) =
    if eqb (code c) b'-'
    then signed true (parse_unsigned s)
    else if eqb (code c) b'+'
    then signed false (parse_unsigned s)
    else signed false (parse_unsigned (c ∷ s))
