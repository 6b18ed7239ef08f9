-- ===== src/Normalize/Sgb.antt =====
-- internal/normalize/sgb.go, and AlternateKeys of normalize.go: the books of the Social Code (SGB)
-- under their Arabic and Roman numbers.
pub mod Roman
use Prim.Native.Char.{code}
use Prim.Native.String.{String, [], ◌∷◌}
use gesetzeswache.Prelude.{
  ℕ, zero, suc, ◌+◌, ◌-◌, Bool, true, false, not, ◌&&◌, ◌||◌, ◌==◌, eqb, ltb, leb, any, Option,
  none, some, List, ◌++◌, ℤ, pos, negsuc, pos_part, if◌then◌else◌,
}
use gesetzeswache.Text.{trim_space, to_upper, to_lower, has_prefix, contains, Atoi, atoi, itoa}
use gesetzeswache.Text.Runes.{fold_rune}
use gesetzeswache.Text.Cut.{◌+++◌, has_rune, drop_text, trim_left_set, replace_all}
use gesetzeswache.Regex.{
  Regex, rune, seq, alt, star, group, at_start, at_end, plus, literal, digit, space, Match,
  group_of, find_from,
}
use gesetzeswache.Normalize.{key}

-- `reSGBBookQuery`: `(?i)^\s*sgb\s*[_\s-]*([ivxlc\d]+)\s*$`
abbrev book_digit : Regex
book_digit = alt (rune (λ c. has_rune "ivxlc" (fold_rune c))) digit

abbrev book_gap : Regex
book_gap = star (alt (rune (λ c. eqb c b'_' || eqb c b'-')) space)

unfoldable pub re_sgb_book_query : Regex
unfolding fold_rune
re_sgb_book_query = seq at_start (
    seq (star space) (
      seq (literal "sgb") (
        seq (star space)
          (seq book_gap (seq (group 1 (plus book_digit)) (seq (star space) at_end))))))

-- The values of the Roman digits; 0 for another rune, as a Go map answers.
abbrev roman_value : ℕ → ℕ
roman_value c =
    if eqb c b'I'
    then 1
    else if eqb c b'V'
    then 5
    else if eqb c b'X'
    then 10
    else if eqb c b'L'
    then 50
    else if eqb c b'C'
    then 100
    else if eqb c b'D'
    then 500
    else if eqb c b'M'
    then 1000
    else 0

-- The loop of `RomanToInt` from the right. `total` is what was added less what was taken off.
pub record Total : Type 0 where
  pub added : ℕ
  pub taken : ℕ
  pub prev : ℕ

abbrev roman_step : ℕ → Total → Total
roman_step v t =
    if ltb v t.prev
    then record { added = t.added; taken = t.taken + v; prev = v }
    else record { added = t.added + v; taken = t.taken; prev = v }

abbrev roman_total : String → Total
roman_total [] = record { added = 0; taken = 0; prev = 0 }
roman_total (c ∷ s) = roman_step (roman_value (code c)) (roman_total s)

abbrev all_roman : String → Bool
all_roman [] = true
all_roman (c ∷ s) = has_rune "IVXLCDM" (code c) && all_roman s

abbrev positive_total : Total → Option ℕ
positive_total t = if leb t.added t.taken then none else some (t.added - t.taken)

-- `RomanToInt`
unfoldable pub roman_to_int : String → Option ℕ
unfolding to_upper trim_space
roman_to_int s =
    let t = to_upper (trim_space s) in
    if t == "" || not (all_roman t) then none else positive_total (roman_total t)

-- `for n >= v { b.WriteString(sym); n -= v }`, then what `more` writes of the rest. Each round lowers
-- `n`, so fuel `n` is enough.
emit : (fuel v : ℕ) → (sym : String) → (more : ℕ → String) → ℕ → String
emit zero v sym more n = more n
emit (suc fuel) v sym more n =
    let again = sym +++ emit fuel v sym more (n - v) in if leb v n then again else more n

-- The loop over the values and their symbols.
abbrev roman_text : ℕ → String
unfolding emit
roman_text n =
    let ones = emit n 1 "I" (λ m. "") in
    let fours = emit n 4 "IV" ones in
    let fives = emit n 5 "V" fours in let nines = emit n 9 "IX" fives in emit n 10 "X" nines n

-- `IntToRoman`
unfoldable pub int_to_roman : ℕ → Option String
unfolding emit
int_to_roman n = if eqb n 0 || ltb 20 n then none else some (roman_text n)

abbrev number_of : String → Option ℕ
unfolding atoi roman_to_int
number_of rest =
    let n = atoi rest in
    if rest == ""
    then none
    else if n.ok
    then if eqb (pos_part n.value) 0 then none else some (pos_part n.value)
    else roman_to_int rest

abbrev book_of : Option Match → Option ℕ
unfolding atoi roman_to_int trim_space
book_of none = none
book_of (some m) = number_of (trim_space (group_of 1 m.groups))

-- `ParseSGBBookQuery`; none stands for `(_, false)`.
unfoldable pub parse_sgb_book_query : String → Option ℕ
unfolding trim_space find_from re_sgb_book_query atoi roman_to_int
parse_sgb_book_query s = book_of (find_from re_sgb_book_query none (trim_space s))

-- The closures `add`: the key of each text that has one, once.
unfoldable pub keys_from : (seen : List String) → List String → List String
unfolding key
keys_from seen List.[] = List.[]
keys_from seen (List.◌∷◌ s more) =
    let k = key s in
    let skipped = keys_from seen more in
    let added = List.◌∷◌ k (keys_from (List.◌∷◌ k seen) more) in
    if k == "" then skipped else if any (λ t. t == k) seen then skipped else added

-- The four spellings of a book, the Roman ones up to 20.
abbrev roman_spellings : Option String → List String
roman_spellings none = List.[]
roman_spellings (some roman) = List.◌∷◌ ("sgb" +++ roman) (List.◌∷◌ ("sgb_" +++ roman) List.[])

abbrev book_spellings : ℕ → List String
unfolding itoa int_to_roman
book_spellings book =
    List.◌∷◌ ("sgb" +++ itoa book)
      (List.◌∷◌ ("sgb_" +++ itoa book) (roman_spellings (int_to_roman book)))

abbrev keys_of_book : Option ℕ → List String
unfolding keys_from itoa int_to_roman
keys_of_book none = List.[]
keys_of_book (some book) = keys_from List.[] (book_spellings book)

-- `sgbBookAlternateKeys`
unfoldable pub sgb_book_alternate_keys : String → List String
unfolding parse_sgb_book_query keys_from itoa int_to_roman
sgb_book_alternate_keys s = keys_of_book (parse_sgb_book_query s)

-- `strconv.Itoa`
abbrev itoa_ℤ : ℤ → String
unfolding itoa
itoa_ℤ (pos n) = itoa n
itoa_ℤ (negsuc n) = "-" +++ itoa (suc n)

abbrev pub int_to_roman_ℤ : ℤ → Option String
unfolding int_to_roman
int_to_roman_ℤ (pos n) = int_to_roman n
int_to_roman_ℤ (negsuc n) = none

abbrev spaced_spellings : Option String → List String
spaced_spellings none = List.[]
spaced_spellings (some roman) = List.◌∷◌ ("sgb " +++ roman) (List.◌∷◌ ("sgb_" +++ roman) List.[])

abbrev spellings_of_id : Atoi → List String
unfolding itoa int_to_roman
spellings_of_id n =
    if n.ok
    then List.◌∷◌ ("sgb " +++ itoa_ℤ n.value)
        (List.◌∷◌ ("sgb_" +++ itoa_ℤ n.value) (spaced_spellings (int_to_roman_ℤ n.value)))
    else List.[]

abbrev id_spellings : String → List String
unfolding itoa int_to_roman atoi has_prefix to_lower drop_text trim_left_set
id_spellings id =
    if has_prefix (to_lower id) "sgb"
    then spellings_of_id (atoi (trim_left_set (drop_text 3 id) "_"))
    else List.[]

abbrev abbreviation_spellings : Option ℕ → List String
unfolding itoa
abbreviation_spellings none = List.[]
abbreviation_spellings (some book) =
    List.◌∷◌ ("sgb" +++ itoa book) (List.◌∷◌ ("sgb_" +++ itoa book) List.[])

-- `SGBBookLawIDKeys`
unfoldable pub sgb_book_law_id_keys : (law_id abbreviation : String) → List String
unfolding itoa int_to_roman atoi has_prefix to_lower drop_text trim_left_set trim_space keys_from
    parse_sgb_book_query
sgb_book_law_id_keys law_id abbreviation = keys_from List.[] (
    List.◌∷◌ law_id (
      List.◌∷◌ abbreviation (
        ◌++◌ (id_spellings (trim_space law_id))
          (abbreviation_spellings (parse_sgb_book_query abbreviation)))))

-- The digraphs of `AlternateKeys`, each with its vowel.
abbrev folded_digraphs : String → List String
unfolding contains replace_all
folded_digraphs k =
    let ue = if contains k "ue" then List.◌∷◌ (replace_all k "ue" "u") List.[] else List.[] in
    let oe = if contains k "oe" then List.◌∷◌ (replace_all k "oe" "o") ue else ue in
    if contains k "ae" then List.◌∷◌ (replace_all k "ae" "a") oe else oe

-- `unique`
unfoldable pub unique : (seen : List String) → List String → List String
unique seen List.[] = List.[]
unique seen (List.◌∷◌ s more) =
    let skipped = unique seen more in
    let added = List.◌∷◌ s (unique (List.◌∷◌ s seen) more) in
    if any (λ t. t == s) seen then skipped else added

-- `AlternateKeys`
unfoldable pub alternate_keys : String → List String
unfolding key contains replace_all sgb_book_alternate_keys unique
alternate_keys s =
    unique List.[] (◌++◌ (List.◌∷◌ (key s) (folded_digraphs (key s))) (sgb_book_alternate_keys s))
