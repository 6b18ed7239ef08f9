-- ===== src/Citation/Parse.antt =====
-- internal/citation/parse.go: `Parse`, a raw Stand as a structured citation.
pub mod Fields
mod Examples
use gesetzeswache.Prelude.{
  ℕ, ◌+◌, ◌-◌, ◌*◌, ◌/◌, ◌%◌, String, Bool, true, false, not, ◌&&◌, ◌||◌, ◌==◌, Option, none, some,
  eqb, ltb, if◌then◌else◌, pos_part,
}
use gesetzeswache.Text.{trim_space, to_upper, trim_suffix, atoi}
use gesetzeswache.Text.Runes.{fold_rune}
use gesetzeswache.Time.{Instant, second, day_number}
use gesetzeswache.Regex.{
  Regex, seq, alt, star, group, boundary, opt, plus, literal, digit, letter, space, Match, group_of,
  find_from,
}
use gesetzeswache.Domain.{StandCitation}
use gesetzeswache.Citation.Instruments.{
  one_of_I12, part_group, day_group, year_group, number_group, re_linked_instrument, teil_from,
  year_of,
}

-- `reYearNum`: `BGBl\.?\s*(\d{4})\s*([I12])\s*(?:Nr\.?\s*)?([0-9]+[a-zA-Z]?)`
unfoldable pub re_year_num : Regex
unfolding fold_rune
re_year_num = seq (literal "BGBl") (
    seq (opt (literal ".")) (
      seq (star space) (
        seq (year_group 1) (
          seq (star space) (
            seq (group 2 one_of_I12) (
              seq (star space) (
                seq (opt (seq (literal "Nr") (seq (opt (literal ".")) (star space))))
                  (group 3 (seq (plus digit) (opt letter))))))))))

abbrev one_of_I1 : Regex
one_of_I1 = alt (literal "I") (literal "1")

-- `(?:([I1]|[I1]{2}|Teil\s*[I12]))?`
abbrev full_part : Regex
full_part = opt (
    group 1 (
      alt one_of_I1
        (alt (seq one_of_I1 one_of_I1) (seq (literal "Teil") (seq (star space) one_of_I12)))))

-- `reBGBlFull`
unfoldable pub re_bgbl_full : Regex
unfolding fold_rune
re_bgbl_full = seq (literal "BGBl") (
    seq (opt (literal ".")) (
      seq (star space) (
        seq full_part (
          seq (star space) (
            seq (opt (seq (year_group 2) (star space))) (
              seq (opt (seq (number_group 3) (star space))) (
                opt (
                  seq (literal "S")
                    (seq (opt (literal ".")) (seq (star space) (group 4 (plus digit))))))))))))

-- `reDate`: `(\d{1,2})\.(\d{1,2})\.(\d{4})`
unfoldable pub re_date : Regex
unfolding fold_rune
re_date = seq (day_group 1) (seq (day_group 2) (year_group 3))

-- `reTeilPage`: `\b([I12])\s+(\d{2,})\b`
abbrev re_teil_page : Regex
re_teil_page =
    seq boundary (
      seq (group 1 one_of_I12) (seq (plus space) (seq (group 2 (seq digit (plus digit))) boundary)))

-- `reTeilNr`: `\b([I12]|II)\s+Nr\.?\s*([0-9]+[a-zA-Z]?)`
unfoldable pub re_teil_nr : Regex
unfolding fold_rune
re_teil_nr = seq boundary (seq (part_group 1) (seq (plus space) (number_group 2)))

abbrev found : Regex → String → Option Match
found r raw = find_from r none raw

-- `time.Date(y, mo, d, …)` in UTC: months and days out of range run over into the next or the
-- previous one. `months` counts from January of year 0; an instant before year 1 is not
-- represented and is cut to the zero time.
abbrev days_to : (y mo d : ℕ) → ℕ
days_to y mo d =
    let months = y * 12 + mo - 1 in day_number (months / 12) (months % 12 + 1) 1 + d - 1

unfoldable pub date : (y mo d : ℕ) → Instant
date y mo d = (days_to y mo d - 366) * (86400 * second)

abbrev dated : StandCitation → (y mo d : ℕ) → StandCitation
dated out y mo d = record out {
  date = some (date y mo d);
  year = if eqb out.year 0 then y else out.year;
}

abbrev with_date : StandCitation → Option Match → StandCitation
with_date out none = out
with_date out (some m) =
    dated out (year_of (group_of 3 m.groups)) (year_of (group_of 2 m.groups))
      (year_of (group_of 1 m.groups))

unfoldable pub attach_date : StandCitation → (raw : String) → StandCitation
unfolding find_from re_date
attach_date out raw = with_date out (found re_date raw)

abbrev kind_from : StandCitation → Option Match → StandCitation
kind_from out none = out
kind_from out (some m) = record out {
  instrument_kind = to_upper (trim_suffix (group_of 2 m.groups) ".");
}

unfoldable pub with_kind : StandCitation → (raw : String) → StandCitation
unfolding find_from
with_kind out raw = kind_from out (found re_linked_instrument raw)

unfoldable pub is_numbered : StandCitation → Bool
is_numbered out = ltb 0 out.year && ltb 0 out.teil && not (out.number == "")

abbrev year_num_from : StandCitation → Option Match → StandCitation
year_num_from out none = out
year_num_from out (some m) = record out {
  year = year_of (group_of 1 m.groups);
  teil = teil_from (group_of 2 m.groups);
  number = group_of 3 m.groups;
}

unfoldable pub with_year_num : StandCitation → (raw : String) → StandCitation
unfolding find_from re_year_num
with_year_num out raw = year_num_from out (found re_year_num raw)

abbrev or_text : String → String → String
or_text s old = if s == "" then old else s

abbrev full_from : StandCitation → Option Match → StandCitation
full_from out none = out
full_from out (some m) = record out {
  teil = if group_of 1 m.groups == "" then out.teil else teil_from (group_of 1 m.groups);
  year = if group_of 2 m.groups == "" then out.year else year_of (group_of 2 m.groups);
  number = or_text (group_of 3 m.groups) out.number;
  page = or_text (group_of 4 m.groups) out.page;
}

unfoldable pub with_full : StandCitation → (raw : String) → StandCitation
unfolding find_from re_bgbl_full
with_full out raw = full_from out (found re_bgbl_full raw)

abbrev or_teil : ℕ → String → ℕ
or_teil teil s = if eqb teil 0 then teil_from s else teil

abbrev page_from : StandCitation → Option Match → StandCitation
page_from out none = out
page_from out (some m) = record out {
  teil = or_teil out.teil (group_of 1 m.groups);
  page = if out.page == "" then group_of 2 m.groups else out.page;
}

unfoldable pub with_page : StandCitation → (raw : String) → StandCitation
unfolding find_from
with_page out raw =
    let paged = page_from out (found re_teil_page raw) in
    if eqb out.teil 0 || eqb out.year 0 || out.number == "" then paged else out

abbrev number_from : StandCitation → Option Match → StandCitation
number_from out none = out
number_from out (some m) = record out {
  teil = or_teil out.teil (group_of 1 m.groups);
  number = group_of 2 m.groups;
}

unfoldable pub with_number : StandCitation → (raw : String) → StandCitation
unfolding find_from re_teil_nr
with_number out raw =
    let numbered = number_from out (found re_teil_nr raw) in
    if out.number == "" then numbered else out

-- `ParseOK` and `ParseNotes` at the end.
unfoldable pub judged : StandCitation → StandCitation
judged out =
    let ok = ltb 0 out.year && ltb 0 out.teil && (not (out.number == "") || not (out.page == "")) in
    record out {
      parse_ok = ok;
      parse_notes = if ok then out.parse_notes else "insufficient structured fields";
    }

abbrev blank : (law_id raw : String) → StandCitation
blank law_id raw = record {
  law_id = law_id;
  raw = raw;
  teil = 0;
  year = 0;
  number = "";
  page = "";
  date = none;
  instrument_kind = "";
  parse_ok = false;
  parse_notes = "";
}

unfoldable pub parse_loose : StandCitation → (raw : String) → StandCitation
unfolding with_full with_page attach_date with_number with_kind judged
parse_loose out raw =
    judged (with_kind (with_number (attach_date (with_page (with_full out raw) raw) raw) raw) raw)

unfoldable pub parse_text : (law_id raw : String) → StandCitation
unfolding with_year_num is_numbered parse_loose attach_date with_kind
parse_text law_id raw =
    let out = with_year_num (blank law_id raw) raw in
    let strict = with_kind (attach_date (record out { parse_ok = true }) raw) raw in
    let loose = parse_loose out raw in if is_numbered out then strict else loose

unfoldable pub parse : (law_id raw : String) → StandCitation
unfolding parse_text
parse law_id raw =
    let text = trim_space raw in
    let parsed = parse_text law_id text in
    if text == "" then record (blank law_id text) { parse_notes = "empty stand" } else parsed
