-- ===== src/Discovery/Preamble.antt =====
-- internal/discovery/ermaechtigung.go: the references to statutes in the preamble of an ordinance.
pub mod Starts
use gesetzeswache.Prelude.{
  ℕ, zero, suc, ◌+◌, ◌-◌, String, Bool, true, false, ◌&&◌, ◌||◌, ◌==◌, eqb, ltb, any, Option, none,
  some, List, [], ◌∷◌, ◌++◌, map, length, if◌then◌else◌,
}
use gesetzeswache.Text.{trim_space}
use gesetzeswache.Text.Runes.{fold_rune}
use gesetzeswache.Text.Cut.{take_text, drop_text, trim_set, byte_pos, rune_len}
use gesetzeswache.Regex.{
  Regex, rune, seq, alt, star, group, boundary, opt, plus, literal, digit, letter, space, Match,
  group_of, find_from, find_all,
}
use gesetzeswache.Discovery.Books.{Ermaechtigung}
use gesetzeswache.Discovery.Titles.{
  authorization_scope, extract_parent_phrase, extract_jurabk, infer_jurabk_from_phrase,
}

abbrev paragraph_sign : Regex
paragraph_sign = rune (λ c. eqb c 0xA7)

-- `\d+[a-zA-Z]?`
abbrev number_letter : Regex
number_letter = seq (plus digit) (opt letter)

-- `reSectionRef`: `(?i)§\s*(\d+[a-zA-Z]?)`
unfoldable pub re_section_ref : Regex
unfolding fold_rune
re_section_ref = seq paragraph_sign (seq (star space) (group 1 number_letter))

-- `reAbsatz`: `(?i)\bAbsatz\s+(\d+[a-zA-Z]?)\b`
unfoldable pub re_absatz : Regex
unfolding fold_rune
re_absatz =
    seq boundary (seq (literal "Absatz") (seq (plus space) (seq (group 1 number_letter) boundary)))

-- `reSatz`: `(?i)\bSatz\s+(\d+)\b`
unfoldable pub re_satz : Regex
unfolding fold_rune
re_satz =
    seq boundary (seq (literal "Satz") (seq (plus space) (seq (group 1 (plus digit)) boundary)))

-- `reAufGrund`: `(?i)\b(?:auf\s+grund|aufgrund)\b`
unfoldable pub re_auf_grund : Regex
unfolding fold_rune
re_auf_grund = seq boundary (
    seq (alt (seq (literal "auf") (seq (plus space) (literal "grund"))) (literal "aufgrund"))
      boundary)

-- `reDesPara`: `(?i)des\s+§`
unfoldable pub re_des_para : Regex
unfolding fold_rune
re_des_para = seq (literal "des") (seq (plus space) paragraph_sign)

-- `reDashDesPara`: `(?i)[–\-]\s*des\s+§`
unfoldable pub re_dash_des_para : Regex
unfolding re_des_para
re_dash_des_para = seq (rune (λ c. eqb c 0x2013 || eqb c b'-')) (seq (star space) re_des_para)

-- `reAbbrDesPara`: `(?i)\bd\.\s*§`
unfoldable pub re_abbr_des_para : Regex
unfolding fold_rune
re_abbr_des_para = seq boundary (seq (literal "d.") (seq (star space) paragraph_sign))

-- `reVerordnet`: `(?i)\bverordnet\s+(?:die|das)\b`
unfoldable pub re_verordnet : Regex
unfolding fold_rune
re_verordnet = seq boundary (
    seq (literal "verordnet")
      (seq (plus space) (seq (alt (literal "die") (literal "das")) boundary)))

-- `m[0]`: where a match in a text starts.
abbrev pub start_of : (text : String) → Match → ℕ
start_of text m = rune_len text - (rune_len m.whole + rune_len m.rest)

abbrev start_in : (text : String) → Option Match → Option ℕ
start_in text none = none
start_in text (some m) = some (start_of text m)

-- `re.FindStringIndex(text)`
unfoldable pub find_start : Regex → (text : String) → Option ℕ
unfolding find_from
find_start re text = start_in text (find_from re none text)

abbrev or_else : Option ℕ → Option ℕ → Option ℕ
or_else (some n) m = some n
or_else none m = m

-- The place of "des §" behind "Auf Grund", if it is less than 80 bytes off.
abbrev near_place : (at : ℕ) → (rest : String) → Option ℕ → List ℕ
unfolding byte_pos
near_place at rest none = []
near_place at rest (some loc) = if ltb (byte_pos loc rest) 80 then (at + loc) ∷ [] else []

abbrev auf_grund_starts : (text : String) → List Match → List ℕ
unfolding byte_pos drop_text find_start re_des_para re_abbr_des_para
auf_grund_starts text [] = []
auf_grund_starts text (m ∷ more) =
    let rest = drop_text (start_of text m) text in
    near_place (start_of text m) rest
      (or_else (find_start re_des_para rest) (find_start re_abbr_des_para rest))
    ++ auf_grund_starts text more

abbrev dash_place : (at : ℕ) → Option ℕ → List ℕ
dash_place at none = []
dash_place at (some loc) = (at + loc) ∷ []

abbrev dash_starts : (text : String) → List Match → List ℕ
unfolding drop_text find_start re_des_para
dash_starts text [] = []
dash_starts text (m ∷ more) =
    dash_place (start_of text m) (find_start re_des_para (drop_text (start_of text m) text))
    ++ dash_starts text more

-- The closure `add`: each position within the text, once.
unfoldable pub add_positions : (size : ℕ) → (seen : List ℕ) → List ℕ → List ℕ
add_positions size seen [] = []
add_positions size seen (pos ∷ more) =
    let skipped = add_positions size seen more in
    let added = pos ∷ add_positions size (pos ∷ seen) more in
    if ltb pos size then if any (λ p. eqb p pos) seen then skipped else added else skipped

abbrev pub behind : ℕ → ℕ × List ℕ → ℕ × List ℕ
behind y (low, rest) = (low, y ∷ rest)

-- One pass of the inner loop: what stands in front after the exchanges, and the rest.
unfoldable pub pass : ℕ → List ℕ → ℕ × List ℕ
pass x [] = (x, [])
pass x (y ∷ ys) = behind (if ltb y x then x else y) (pass (if ltb y x then y else x) ys)

-- The exchange sort; a round for each element.
unfoldable pub sort_starts : (rounds : ℕ) → List ℕ → List ℕ
unfolding pass
sort_starts (suc n) (x ∷ xs) = let (low, rest) = pass x xs in low ∷ sort_starts n rest
sort_starts _ xs = xs

-- The positions in the order in which the two loops find them.
unfoldable pub found_starts : (text : String) → List ℕ
unfolding byte_pos drop_text find_start re_des_para re_abbr_des_para re_auf_grund re_dash_des_para
    find_all
found_starts text =
    auf_grund_starts text (find_all re_auf_grund text)
    ++ dash_starts text (find_all re_dash_des_para text)

-- `segmentStartIndexes`
unfoldable pub segment_start_indexes : (text : String) → List ℕ
unfolding found_starts add_positions sort_starts
segment_start_indexes text =
    let starts = add_positions (rune_len text) [] (found_starts text) in
    sort_starts (length starts) starts

abbrev before_verordnet : (chunk : String) → Option ℕ → String
unfolding take_text
before_verordnet chunk none = chunk
before_verordnet chunk (some at) = take_text at chunk

abbrev segment_of : (chunk : String) → String
unfolding take_text find_start re_verordnet trim_set trim_space
segment_of chunk =
    trim_space (trim_set (before_verordnet chunk (find_start re_verordnet chunk)) "–-,; ")

abbrev end_of : (size : ℕ) → (starts : List ℕ) → ℕ
end_of size [] = size
end_of size (start ∷ more) = start

abbrev segments : (text : String) → (starts : List ℕ) → List String
unfolding take_text drop_text find_start re_verordnet trim_set trim_space
segments text [] = []
segments text (start ∷ more) =
    let chunk =
      segment_of (take_text (end_of (rune_len text) more - start) (drop_text start text)) in
    if chunk == "" then segments text more else chunk ∷ segments text more

abbrev or_whole : (text : String) → List String → List String
or_whole text [] = text ∷ []
or_whole text (seg ∷ segs) = seg ∷ segs

abbrev split_at_starts : (text : String) → (starts : List ℕ) → List String
unfolding take_text drop_text find_start re_verordnet trim_set trim_space
split_at_starts text (a ∷ b ∷ more) = or_whole text (segments text (a ∷ b ∷ more))
split_at_starts text _ = text ∷ []

-- `splitErmaechtigungSegments`
unfoldable pub split_ermaechtigung_segments : String → List String
unfolding segment_start_indexes take_text drop_text find_start re_verordnet trim_set trim_space
split_ermaechtigung_segments text = split_at_starts text (segment_start_indexes text)

-- `sectionRef`, with the text from its start to its end.
pub record SectionRef : Type 0 where
  pub section : String
  pub absatz : String
  pub satz : String
  pub chunk : String

abbrev group_or_empty : Option Match → String
group_or_empty none = ""
group_or_empty (some m) = group_of 1 m.groups

-- `firstMatch`
unfoldable pub first_match : Regex → String → String
unfolding find_from
first_match re s = group_or_empty (find_from re none s)

abbrev next_start : (text : String) → List Match → ℕ
next_start text [] = rune_len text
next_start text (m ∷ more) = start_of text m

abbrev section_refs : (text : String) → List Match → List SectionRef
unfolding take_text drop_text first_match re_absatz re_satz
section_refs text [] = []
section_refs text (m ∷ more) =
    let start = start_of text m in
    let chunk = take_text (next_start text more - start) (drop_text start text) in
    let ref : SectionRef = record {
      section = group_of 1 m.groups;
      absatz = first_match re_absatz chunk;
      satz = first_match re_satz chunk;
      chunk = chunk;
    } in
    ref ∷ section_refs text more

-- `extractSectionRefs`
unfoldable pub extract_section_refs : String → List SectionRef
unfolding find_all re_section_ref take_text drop_text first_match re_absatz re_satz
extract_section_refs text = section_refs text (find_all re_section_ref text)

abbrev reference : (phrase jurabk : String) → SectionRef → Ermaechtigung
unfolding trim_space
reference phrase jurabk ref = record {
  section = ref.section;
  absatz = ref.absatz;
  satz = ref.satz;
  law_title_phrase = phrase;
  jurabk = jurabk;
  raw = trim_space ref.chunk;
}

abbrev jurabk_or : (seg phrase jurabk : String) → String
unfolding extract_jurabk infer_jurabk_from_phrase
jurabk_or seg phrase jurabk =
    let from_seg = extract_jurabk seg in
    if jurabk == ""
    then if from_seg == "" then infer_jurabk_from_phrase phrase else from_seg
    else jurabk

-- What one segment gives.
abbrev segment_refs : (seg : String) → List Ermaechtigung
unfolding authorization_scope extract_parent_phrase extract_jurabk infer_jurabk_from_phrase
    extract_section_refs trim_space
segment_refs seg =
    let scope = authorization_scope seg in
    let (phrase, jurabk) = extract_parent_phrase scope in
    map (reference phrase (jurabk_or seg phrase jurabk)) (extract_section_refs scope)

abbrev all_refs : (segs : List String) → List Ermaechtigung
unfolding authorization_scope extract_parent_phrase extract_jurabk infer_jurabk_from_phrase
    extract_section_refs trim_space
all_refs [] = []
all_refs (seg ∷ segs) = segment_refs seg ++ all_refs segs

-- `ParseErmaechtigung`
unfoldable pub parse_ermaechtigung : String → List Ermaechtigung
unfolding authorization_scope extract_parent_phrase extract_jurabk infer_jurabk_from_phrase
    extract_section_refs split_ermaechtigung_segments trim_space
parse_ermaechtigung text =
    let trimmed = trim_space text in
    if trimmed == "" then [] else all_refs (split_ermaechtigung_segments trimmed)
