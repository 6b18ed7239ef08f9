-- ===== src/Text/Cut.antt =====
-- Go's `strings` functions on positions, cut sets and pieces. Positions count runes; `byte_len` is
-- Go's `len`. Case mapping keeps the bytes of each rune up to U+00FF, so a position in a lowered
-- text is the same in the text.
use Prim.Native.Char.{Char, code}
use Prim.Native.String
use Prim.Native.String.{String, [], ◌∷◌}
use gesetzeswache.Prelude.{
  ℕ, zero, suc, ◌+◌, ◌-◌, Bool, false, ◌&&◌, ◌||◌, eqb, ltb, Option, none, some, List,
  if◌then◌else◌,
}
use gesetzeswache.Text.{has_prefix, is_empty}

infixr 65 ◌+++◌
abbrev pub ◌+++◌ : String → String → String
◌+++◌ = String.◌++◌

abbrev later : Option ℕ → Option ℕ
later none = none
later (some n) = some (suc n)

-- `strings.Index`
unfoldable pub index : (s substr : String) → Option ℕ
unfolding has_prefix
index [] p = if is_empty p then some 0 else none
index (c ∷ s) p = let rest = index s p in if has_prefix (c ∷ s) p then some 0 else later rest

-- `strings.ContainsRune` and the cut sets
abbrev pub has_rune : String → ℕ → Bool
has_rune [] n = false
has_rune (c ∷ s) n = eqb (code c) n || has_rune s n

-- `strings.IndexAny`
unfoldable pub index_any : (s chars : String) → Option ℕ
index_any [] p = none
index_any (c ∷ s) p = let rest = index_any s p in if has_rune p (code c) then some 0 else later rest

-- `s[:n]` and `s[n:]`
unfoldable pub take_text : ℕ → String → String
take_text zero s = []
take_text (suc n) [] = []
take_text (suc n) (c ∷ s) = c ∷ take_text n s

unfoldable pub drop_text : ℕ → String → String
drop_text zero s = s
drop_text (suc n) [] = []
drop_text (suc n) (c ∷ s) = drop_text n s

abbrev pub rune_len : String → ℕ
rune_len [] = 0
rune_len (c ∷ s) = suc (rune_len s)

abbrev pub utf8_len : ℕ → ℕ
utf8_len c = if ltb c 0x80 then 1 else if ltb c 0x800 then 2 else if ltb c 0x10000 then 3 else 4

-- `len(s)`
unfoldable pub byte_len : String → ℕ
byte_len [] = 0
byte_len (c ∷ s) = utf8_len (code c) + byte_len s

-- The bytes of the first `n` runes.
unfoldable pub byte_pos : ℕ → String → ℕ
unfolding byte_len take_text
byte_pos n s = byte_len (take_text n s)

-- `strings.TrimLeft`, `strings.TrimRight` and `strings.Trim`
unfoldable pub trim_left_set : (s cutset : String) → String
trim_left_set [] set = []
trim_left_set (c ∷ s) set = if has_rune set (code c) then trim_left_set s set else c ∷ s

abbrev cons_kept : String → Char → String → String
cons_kept set c rest = if is_empty rest && has_rune set (code c) then [] else c ∷ rest

unfoldable pub trim_right_set : (s cutset : String) → String
trim_right_set [] set = []
trim_right_set (c ∷ s) set = cons_kept set c (trim_right_set s set)

unfoldable pub trim_set : (s cutset : String) → String
unfolding trim_left_set trim_right_set
trim_set s set = trim_right_set (trim_left_set s set) set

-- `strings.Join`
unfoldable pub join : List String → (sep : String) → String
join List.[] sep = []
join (List.◌∷◌ s List.[]) sep = s
join (List.◌∷◌ s (List.◌∷◌ t more)) sep = s +++ sep +++ join (List.◌∷◌ t more) sep

-- `strings.ReplaceAll` for a text to replace that is not empty; `skip` runes of it are still to pass.
pub replace_from : (skip : ℕ) → (from to : String) → String → String
unfolding has_prefix
replace_from skip from to [] = []
replace_from (suc skip) from to (c ∷ s) = replace_from skip from to s
replace_from zero from to (c ∷ s) =
    let replaced = to +++ replace_from (rune_len from - 1) from to s in
    let kept = c ∷ replace_from zero from to s in if has_prefix (c ∷ s) from then replaced else kept

unfoldable pub replace_all : (s from to : String) → String
unfolding replace_from
replace_all s from to = replace_from 0 from to s
