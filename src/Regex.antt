-- ===== src/Regex.antt =====
-- Go's `regexp` as the parsers use it: leftmost-first matching with capture groups, by backtracking
-- with a continuation. A `*` runs on fuel, the length of the text left; each round must consume.
use Prim.Native.Char.{code}
use Prim.Native.String.{[], ◌∷◌}
use gesetzeswache.Prelude.{
  ℕ, zero, suc, ◌-◌, String, Bool, true, false, not, ◌&&◌, ◌||◌, Option, none, some, List, eqb, ltb,
  leb, if◌then◌else◌,
}
use gesetzeswache.Text.Runes.{fold_rune}

pub data Regex : Type 0 where
  eps : Regex
  -- one rune that passes the test
  rune : (ℕ → Bool) → Regex
  seq : Regex → Regex → Regex
  alt : Regex → Regex → Regex
  star : Regex → Regex
  group : ℕ → Regex → Regex
  -- `\b`
  boundary : Regex
  -- `^` and `$` without the flag m
  at_start : Regex
  at_end : Regex

pub record Cursor : Type 0 where
  -- the rune before the position, if any
  pub previous : Option ℕ
  pub rest : String
  pub groups : List (ℕ × String)

abbrev pub Cont : Type 0
Cont = Cursor → Option Cursor

abbrev size : String → ℕ
size [] = 0
size (c ∷ s) = suc (size s)

-- The first `n` runes of a text.
abbrev leading : ℕ → String → String
leading zero s = []
leading (suc n) [] = []
leading (suc n) (c ∷ s) = c ∷ leading n s

abbrev is_word : ℕ → Bool
is_word c = leb 48 c && leb c 57 || leb 65 c && leb c 90 || leb 97 c && leb c 122 || eqb c 95

abbrev word_before : Option ℕ → Bool
word_before none = false
word_before (some c) = is_word c

abbrev word_after : String → Bool
word_after [] = false
word_after (c ∷ s) = is_word (code c)

abbrev different : Bool → Bool → Bool
different true b = not b
different false b = b

abbrev step_rune : (ℕ → Bool) → Cursor → String → Cont → Option Cursor
step_rune p at [] k = none
step_rune p at (c ∷ s) k =
    let next = k (record at { previous = some (code c); rest = s }) in
    if p (code c) then next else none

-- The rounds of `*`, greedy: one more round if it consumes, else what follows.
star_loop : (Cursor → Cont → Option Cursor) → ℕ → Cursor → Cont → Option Cursor
star_loop one zero at k = k at
star_loop one (suc fuel) at k =
    let stop = k at in
    let more = λ (next : Cursor). star_loop one fuel next k in
    elim (one at
      (λ next. let go = more next in if ltb (size next.rest) (size at.rest) then go else none)) [
        | some found ↦ some found
        | none ↦ stop
      ]

abbrev empty_text : String → Bool
empty_text [] = true
empty_text (c ∷ s) = false

abbrev is_none : Option ℕ → Bool
is_none none = true
is_none (some c) = false

unfoldable pub match_at : Regex → Cursor → Cont → Option Cursor
unfolding star_loop
match_at eps at k = k at
match_at (rune p) at k = step_rune p at at.rest k
match_at (seq r s) at k = match_at r at (λ next. match_at s next k)
match_at (alt r s) at k = elim (match_at r at k) [
  | some found ↦ some found
  | none ↦ match_at s at k
]
match_at (star r) at k = star_loop (match_at r) (size at.rest) at k
match_at (group n r) at k = match_at r at (λ next. k (record next {
  groups = List.◌∷◌ (n, leading (size at.rest - size next.rest) at.rest) next.groups;
}))
match_at boundary at k =
    let next = k at in
    if different (word_before at.previous) (word_after at.rest) then next else none
match_at at_start at k = let next = k at in if is_none at.previous then next else none
match_at at_end at k = let next = k at in if empty_text at.rest then next else none

-- `r?`, `r+`, `r{1,2}`, `r{4}`
abbrev pub opt : Regex → Regex
opt r = alt r eps

abbrev pub plus : Regex → Regex
plus r = seq r (star r)

abbrev pub times : ℕ → Regex → Regex
times zero r = eps
times (suc n) r = seq r (times n r)

-- A literal text under the flag i.
abbrev pub literal : String → Regex
literal [] = eps
literal (c ∷ s) = seq (rune (λ x. eqb (fold_rune x) (fold_rune (code c)))) (literal s)

abbrev pub digit : Regex
digit = rune (λ c. leb 48 c && leb c 57)

-- `[a-zA-Z]` under the flag i, which folds in U+017F and U+212A.
abbrev pub letter : Regex
letter = rune (λ c. leb 65 c && leb c 90 || leb 97 c && leb c 122 || eqb c 0x17F || eqb c 0x212A)

-- `\s`
abbrev pub space : Regex
space = rune (λ c. eqb c 9 || eqb c 10 || eqb c 12 || eqb c 13 || eqb c 32)

pub record Match : Type 0 where
  -- the whole match and the groups, the last capture of each first
  pub whole : String
  pub groups : List (ℕ × String)
  pub previous : Option ℕ
  pub rest : String

-- `m[n]`, which is "" for a group that took no part
abbrev pub group_of : ℕ → List (ℕ × String) → String
group_of n List.[] = []
group_of n (List.◌∷◌ (j, s) more) = if eqb j n then s else group_of n more

abbrev found_at : Cursor → Option Cursor → Option Match
found_at at none = none
found_at at (some next) = some (record {
  whole = leading (size at.rest - size next.rest) at.rest;
  groups = next.groups;
  previous = next.previous;
  rest = next.rest;
})

-- `FindStringSubmatch` from a position: the leftmost match, the first in order of preference.
unfoldable pub find_from : Regex → Option ℕ → String → Option Match
unfolding match_at
find_from r previous [] =
    let at : Cursor = record { previous = previous; rest = []; groups = List.[] } in
    found_at at (match_at r at some)
find_from r previous (c ∷ s) =
    let at : Cursor = record { previous = previous; rest = c ∷ s; groups = List.[] } in
    elim (found_at at (match_at r at some)) [
      | some m ↦ some m
      | none ↦ find_from r (some (code c)) s
    ]

-- `FindAllStringSubmatch(s, -1)` for an expression that never matches the empty text, on fuel above
-- the length of the text.
abbrev then_all : (Option ℕ → String → List Match) → Option Match → List Match
then_all more none = List.[]
then_all more (some m) = List.◌∷◌ m (more m.previous m.rest)

find_all_from : ℕ → Regex → Option ℕ → String → List Match
find_all_from zero r previous s = List.[]
find_all_from (suc fuel) r previous s =
    then_all (λ p t. find_all_from fuel r p t) (find_from r previous s)

unfoldable pub find_all : Regex → String → List Match
unfolding find_all_from find_from
find_all r s = find_all_from (suc (size s)) r none s
