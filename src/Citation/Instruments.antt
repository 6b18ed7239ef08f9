-- ===== src/Citation/Instruments.antt =====
-- internal/citation/parse.go: the BGBl citations of a Stand or an editorial note.
mod Examples
use Prim.Native.String.{[]}
use Prim.Native.String
use gesetzeswache.Prelude.{
  ℕ, String, Bool, not, ◌&&◌, ◌||◌, ◌==◌, List, ◌∷◌, eqb, any, if◌then◌else◌, pos_part, ◌++◌,
}
use gesetzeswache.Text.{
  trim_space, to_upper, has_prefix, after_prefix, contains, trim_suffix, itoa, atoi,
}
use gesetzeswache.Text.Runes.{fold_rune}
use gesetzeswache.Regex.{
  Regex, seq, alt, star, group, rune, opt, plus, times, literal, digit, letter, space, Match,
  group_of, find_all,
}
use gesetzeswache.Domain.{InstrumentRef}

abbrev pub one_of_I12 : Regex
one_of_I12 = rune (λ c. eqb c b'I' || eqb c b'i' || eqb c b'1' || eqb c b'2')

-- `([I12]|II)`
abbrev pub part_group : ℕ → Regex
part_group n = group n (alt one_of_I12 (literal "II"))

-- `(\d{1,2})\.` for day and month
abbrev pub day_group : ℕ → Regex
day_group n = seq (group n (seq digit (opt digit))) (literal ".")

-- `(\d{4})`
abbrev pub year_group : ℕ → Regex
year_group n = group n (times 4 digit)

-- `Nr\.?\s*([0-9]+[a-zA-Z]?)`
abbrev pub number_group : ℕ → Regex
number_group n =
    seq (literal "Nr")
      (seq (opt (literal ".")) (seq (star space) (group n (seq (plus digit) (opt letter)))))

-- `v\.?\s+(\d{1,2})\.(\d{1,2})\.(\d{4})\s+([I12]|II)\s+Nr\.?\s*([0-9]+[a-zA-Z]?)`, groups from `n` on
abbrev dated_part : (a b c d e : ℕ) → Regex
dated_part a b c d e = seq (literal "v") (
    seq (opt (literal ".")) (
      seq (plus space) (
        seq (day_group a) (
          seq (day_group b) (
            seq (year_group c)
              (seq (plus space) (seq (part_group d) (seq (plus space) (number_group e)))))))))

-- `reLinkedInstrument`
unfoldable pub re_linked_instrument : Regex
unfolding fold_rune
re_linked_instrument =
    seq
      (opt (
        group 1 (
          seq (literal "§") (seq (star space) (seq (plus digit) (seq (opt letter) (plus space)))))))
      (seq (group 2 (alt (literal "G") (alt (literal "V") (literal "Bek"))))
        (seq (opt (literal ".")) (seq (plus space) (dated_part 3 4 5 6 7))))

-- `reStandInstrument`
unfoldable pub re_stand_instrument : Regex
unfolding fold_rune
re_stand_instrument = dated_part 1 2 3 4 5

-- `reBGBlInline`
unfoldable pub re_bgbl_inline : Regex
unfolding fold_rune
re_bgbl_inline = seq (literal "BGBl") (
    seq (opt (literal ".")) (
      seq (star space) (
        seq (year_group 1)
          (seq (star space) (seq (group 2 one_of_I12) (seq (star space) (number_group 3)))))))

abbrev strip_prefix : String → String → String
strip_prefix s p = if has_prefix s p then after_prefix s p else s

-- `teilFrom`; a number that is not negative, since its callers pass parts of a match
unfoldable pub teil_from : String → ℕ
teil_from s =
    let t = trim_space (strip_prefix (to_upper (trim_space s)) "TEIL") in
    if t == "I" || t == "1"
    then 1
    else if t == "II" || t == "2"
    then 2
    else if (atoi t).ok
    then pos_part (atoi t).value
    else 0

abbrev pub year_of : String → ℕ
year_of s = pos_part (atoi s).value

abbrev linked_ref : Match → InstrumentRef
linked_ref m = record {
  kind = to_upper (trim_suffix (group_of 2 m.groups) ".");
  teil = teil_from (group_of 6 m.groups);
  year = year_of (group_of 5 m.groups);
  number = group_of 7 m.groups;
  section_hint = trim_space (group_of 1 m.groups);
  raw = m.whole;
}

abbrev inline_ref : Match → InstrumentRef
inline_ref m = record {
  kind = "";
  teil = teil_from (group_of 2 m.groups);
  year = year_of (group_of 1 m.groups);
  number = group_of 3 m.groups;
  section_hint = "";
  raw = m.whole;
}

abbrev stand_ref : Match → InstrumentRef
stand_ref m = record {
  kind = "";
  teil = teil_from (group_of 4 m.groups);
  year = year_of (group_of 3 m.groups);
  number = group_of 5 m.groups;
  section_hint = "";
  raw = m.whole;
}

infixl 65 ◌+++◌
abbrev ◌+++◌ : String → String → String
◌+++◌ = String.◌++◌

-- The key of the closure `add`: `%s|%d|%d|%s|%s`.
unfoldable pub ref_key : InstrumentRef → String
ref_key ref =
    ref.kind
    +++ "|"
    +++ itoa ref.teil
    +++ "|"
    +++ itoa ref.year
    +++ "|"
    +++ ref.number
    +++ "|"
    +++ ref.section_hint

-- `seen` and `refs` of the closure, the refs in order.
pub record Found : Type 0 where
  pub seen : List String
  pub refs : List InstrumentRef

unfoldable pub add_ref : Found → InstrumentRef → Found
add_ref found ref =
    if any (λ k. k == ref_key ref) found.seen
    then found
    else record { seen = ref_key ref ∷ found.seen; refs = found.refs ++ ref ∷ List.[] }

unfoldable pub is_subsumed_by_existing : String → List InstrumentRef → Bool
is_subsumed_by_existing raw = any (λ ref. not (raw == ref.raw) && contains ref.raw raw)

pub add_all : (Match → InstrumentRef) → Found → List Match → Found
add_all make found List.[] = found
add_all make found (m ∷ more) = add_all make (add_ref found (make m)) more

pub add_stand_matches : Found → List Match → Found
add_stand_matches found List.[] = found
add_stand_matches found (m ∷ more) =
    add_stand_matches
      (if is_subsumed_by_existing (stand_ref m).raw found.refs
        then found
        else add_ref found (stand_ref m))
      more

abbrev nothing_found : Found
nothing_found = record { seen = List.[]; refs = List.[] }

unfoldable pub parse_linked_instruments : String → List InstrumentRef
unfolding add_all add_stand_matches add_ref is_subsumed_by_existing find_all re_linked_instrument
    re_stand_instrument re_bgbl_inline teil_from ref_key to_upper trim_space has_prefix after_prefix
    contains trim_suffix itoa atoi
parse_linked_instruments text =
    let raw = trim_space text in
    let linked = add_all linked_ref nothing_found (find_all re_linked_instrument raw) in
    let inlined = add_all inline_ref linked (find_all re_bgbl_inline raw) in
    if raw == ""
    then List.[]
    else (add_stand_matches inlined (find_all re_stand_instrument raw)).refs
