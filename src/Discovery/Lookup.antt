-- ===== src/Discovery/Lookup.antt =====
-- internal/discovery/ingest.go: `CatalogLookup`, the laws that a name may stand for.
pub mod Found
use Prim.Native.Char.{code}
use Prim.Native.String
use gesetzeswache.Prelude.{
  ℕ, suc, ◌+◌, ◌-◌, String, Bool, true, false, not, ◌&&◌, ◌||◌, ◌==◌, eqb, ltb, leb, ◌≤◌, Option,
  none, some, List, [], ◌∷◌, ◌++◌, map, any, ℤ, pos, negsuc, if◌then◌else◌,
}
use gesetzeswache.Text.{
  trim_space, to_lower, to_upper, has_prefix, has_suffix, trim_suffix, contains, Atoi, atoi, itoa,
  push,
}
use gesetzeswache.Text.Runes.{is_letter, is_digit, fold_rune}
use gesetzeswache.Text.Cut.{◌+++◌, drop_text, trim_left_set, byte_len}
use gesetzeswache.Regex.{Regex, seq, alt, at_start, at_end, times, literal, digit, Match, find_from}
use gesetzeswache.Normalize.{key}
use gesetzeswache.Normalize.Sgb.{keys_from, roman_to_int, int_to_roman_ℤ, int_to_roman}
use gesetzeswache.Domain.{Law, LawVariant}
use gesetzeswache.Discovery.Parents.{ParentLookup}

pub record CatalogLookup : Type 0 where
  pub laws : List Law
  pub variants : List LawVariant

abbrev both_spellings : String → List String
both_spellings n = ("SGB " +++ n) ∷ ("SGB_" +++ n) ∷ []

abbrev arabic_spellings : Option ℕ → List String
unfolding itoa
arabic_spellings none = []
arabic_spellings (some n) = both_spellings (itoa n)

abbrev roman_spellings : Option String → List String
roman_spellings none = []
roman_spellings (some r) = both_spellings r

abbrev numbered_spellings : (rest : String) → List String
unfolding itoa atoi roman_to_int int_to_roman
numbered_spellings rest =
    let n = atoi rest in
    both_spellings rest
    ++ (arabic_spellings (roman_to_int rest)
        ++ (if n.ok then roman_spellings (int_to_roman_ℤ n.value) else []))

-- What follows "SGB" in an abbreviation.
abbrev sgb_rest : (base : String) → String
unfolding trim_space trim_left_set drop_text
sgb_rest base = trim_left_set (trim_space (drop_text 3 base)) " _-"

-- `jurabkLookupKeys`
unfoldable pub jurabk_lookup_keys : String → List String
unfolding trim_space trim_left_set drop_text to_upper has_prefix keys_from itoa atoi roman_to_int
    int_to_roman
jurabk_lookup_keys jurabk =
    let base = trim_space jurabk in
    let spelled = numbered_spellings (sgb_rest base) in
    let more =
      if has_prefix (to_upper base) "SGB" && not (sgb_rest base == "") then spelled else [] in
    if base == "" then [] else keys_from [] (base ∷ more)

abbrev laws_named : (candidate : String) → List Law → List String
unfolding key
laws_named candidate [] = []
laws_named candidate (law ∷ laws) =
    let rest = laws_named candidate laws in
    if key law.abbreviation == candidate || key law.id == candidate then law.id ∷ rest else rest

abbrev variants_named : (candidate : String) → List LawVariant → List String
unfolding key
variants_named candidate [] = []
variants_named candidate (v ∷ vs) =
    let rest = variants_named candidate vs in
    if key v.variant == candidate then v.law_id ∷ rest else rest

abbrev ids_named : CatalogLookup → List String → List String
unfolding key
ids_named c [] = []
ids_named c (candidate ∷ more) =
    laws_named candidate c.laws ++ (variants_named candidate c.variants ++ ids_named c more)

-- `ByJurabk`
unfoldable pub by_jurabk : CatalogLookup → (jurabk : String) → List String
unfolding key keys_from jurabk_lookup_keys
by_jurabk c jurabk = keys_from [] (ids_named c (jurabk_lookup_keys jurabk))

-- `letterWords`; `inside` says whether a word goes on.
abbrev words_from : (inside : Bool) → String → List String
unfolding is_letter is_digit
words_from inside String.[] = if inside then "" ∷ [] else []
words_from inside (String.◌∷◌ c s) =
    let between = words_from false s in
    let within = push c (words_from true s) in
    if is_letter (code c) || is_digit (code c)
    then within
    else if inside
    then "" ∷ between
    else between

unfoldable pub letter_words : String → List String
unfolding is_letter is_digit
letter_words s = words_from false s

abbrev first_ending : (k : String) → List String → String
unfolding byte_len has_suffix trim_suffix
first_ending k [] = k
first_ending k (suf ∷ more) =
    if has_suffix k suf && leb 4 (byte_len k - byte_len suf)
    then trim_suffix k suf
    else first_ending k more

-- `germanStemKey`
unfoldable pub german_stem_key : String → String
unfolding byte_len has_suffix trim_suffix
german_stem_key k =
    if ltb (byte_len k) 5
    then k
    else first_ending k (
        "lichen" ∷ "liches" ∷ "ischen" ∷ "isches" ∷ "ischem" ∷ "ischer" ∷ "en" ∷ "em" ∷ "er" ∷ "es"
        ∷ "e" ∷ "s" ∷ [])

-- The loop over the words of a title; words of fewer than four bytes are passed over.
abbrev covered : (stems : List String) → (matched : Bool) → List String → Bool
unfolding german_stem_key key byte_len
covered stems matched [] = matched
covered stems matched (w ∷ ws) =
    let short = ltb (byte_len (key w)) 4 in
    let rest = covered stems (matched || not short) ws in
    if short || any (λ t. t == german_stem_key (key w)) stems then rest else false

-- `titleWordsCoveredByPhrase`
unfoldable pub title_words_covered_by_phrase : (title phrase : String) → Bool
unfolding letter_words german_stem_key key byte_len
title_words_covered_by_phrase title phrase =
    covered (map (λ w. german_stem_key (key w)) (letter_words phrase)) false (letter_words title)

-- `reVerordnungSlug`: `(?i)(?:^|_)v(?:\d|_|$)|(?:^|_)v\d{4}|milov\d|pbav_\d{4}`
abbrev slug_start : Regex
slug_start = alt at_start (literal "_")

unfoldable pub re_verordnung_slug : Regex
unfolding fold_rune
re_verordnung_slug =
    alt (seq slug_start (seq (literal "v") (alt digit (alt (literal "_") at_end)))) (
      alt (seq slug_start (seq (literal "v") (times 4 digit)))
        (alt (seq (literal "milov") digit) (seq (literal "pbav_") (times 4 digit))))

-- `reEndsWithV`: `(?i)v$`
unfoldable pub re_ends_with_v : Regex
unfolding fold_rune
re_ends_with_v = seq (literal "v") at_end

abbrev is_match : Option Match → Bool
is_match none = false
is_match (some m) = true

-- `LooksLikeVerordnung`
unfoldable pub looks_like_verordnung : Law → Bool
unfolding contains to_lower trim_space find_from re_ends_with_v re_verordnung_slug
looks_like_verordnung law =
    let abbr = trim_space law.abbreviation in
    let slug = to_lower (trim_space law.gii_path) in
    contains (to_lower law.title) "verordnung"
    || (not (abbr == "") && is_match (find_from re_ends_with_v none abbr)
        || not (slug == "") && is_match (find_from re_verordnung_slug none slug))

-- Does the title stand for the phrase, and does it at least hold it?
unfoldable pub is_strong : (phrase : String) → Law → Bool
unfolding key byte_len contains title_words_covered_by_phrase
is_strong phrase law =
    let k = key phrase in
    let t = key law.title in
    t == k
    || (leb 12 (byte_len t) && contains k t || title_words_covered_by_phrase law.title phrase)

unfoldable pub is_weak : (phrase : String) → Law → Bool
unfolding key contains
is_weak phrase law = contains (key law.title) (key phrase)

-- The loop of `ByTitlePhrase`: the ids behind the strong and behind the weak matches.
unfoldable pub title_matches : (phrase : String) → List Law → List String × List String
unfolding key byte_len is_strong is_weak looks_like_verordnung
title_matches phrase [] = ([], [])
title_matches phrase (law ∷ laws) =
    let (strong, weak) = title_matches phrase laws in
    if ltb (byte_len (key law.title)) 8 || looks_like_verordnung law
    then (strong, weak)
    else if is_strong phrase law
    then (law.id ∷ strong, weak)
    else if is_weak phrase law
    then (strong, law.id ∷ weak)
    else (strong, weak)

abbrev pub or_ids : List String → List String → List String
or_ids [] weak = weak
or_ids (id ∷ ids) weak = id ∷ ids

-- `ByTitlePhrase`
unfoldable pub by_title_phrase : CatalogLookup → (phrase : String) → List String
unfolding key byte_len keys_from title_matches
by_title_phrase c phrase =
    let (strong, weak) = title_matches phrase c.laws in
    if ltb (byte_len (key phrase)) 12 then [] else or_ids (keys_from [] strong) (keys_from [] weak)

unfoldable pub catalog_lookup : CatalogLookup → ParentLookup
unfolding by_jurabk by_title_phrase
catalog_lookup c = record { by_jurabk = by_jurabk c; by_title_phrase = by_title_phrase c }
