-- ===== src/Discovery/Titles.antt =====
-- internal/discovery/ermaechtigung.go: the clause of a statute's name in a preamble.
use gesetzeswache.Prelude.{
  ℕ, zero, suc, ◌+◌, String, ◌&&◌, ◌||◌, ◌==◌, ltb, leb, Option, none, some, List, [], ◌∷◌,
  if◌then◌else◌,
}
use gesetzeswache.Text.{trim_space, to_lower, to_upper, has_prefix, has_suffix, contains}
use gesetzeswache.Text.Runes.{fold_rune}
use gesetzeswache.Text.Cut.{
  ◌+++◌, index, has_rune, take_text, drop_text, trim_right_set, byte_len, rune_len,
}
use gesetzeswache.Regex.{
  Regex, rune, seq, alt, group, boundary, plus, literal, digit, space, Match, group_of, find_from,
}
use gesetzeswache.Discovery.Books.{sgb_book_phrase_entries, first_book}

-- The text up to the first cut that is found, in the order of the cuts.
abbrev pub before_first : (text lower : String) → (cuts : List String) → String
unfolding index take_text
before_first text lower [] = text
before_first text lower (cut ∷ cuts) = elim (index lower cut) [
  | some i ↦ take_text i text
  | none ↦ before_first text lower cuts
]

-- `authorizationScope`
unfoldable pub authorization_scope : String → String
unfolding to_lower index take_text
authorization_scope text = before_first text (to_lower text) (
    ", von denen" ∷ ", von dem" ∷ ", von der" ∷ " von denen" ∷ " von dem" ∷ " von der" ∷ ", dessen"
    ∷ ", deren" ∷ ", der zuletzt" ∷ ", die zuletzt" ∷ ", das zuletzt" ∷ ", der durch"
    ∷ ", die durch" ∷ ", das durch" ∷ [])

-- The cases of the score, in their order.
abbrev base_score : (lower : String) → ℕ
unfolding contains has_suffix
base_score k =
    if contains k "sozialgesetzbuch" || contains k "buches" || contains k "buch "
    then 10
    else if has_suffix k "gesetzes" || has_suffix k "gesetz"
    then 8
    else if contains k "gesetz"
    then 6
    else if has_suffix k "ordnung" || has_suffix k "verordnung"
    then 5
    else 2

abbrev sized_score : (bytes score : ℕ) → ℕ
sized_score bytes score =
    let long = if ltb 20 bytes then score + 1 else score in
    if leb 10 long && ltb bytes 60 then long + 2 else long

-- `scoreLawTitlePhrase`
unfoldable pub score_law_title_phrase : String → ℕ
unfolding trim_space to_lower contains has_prefix has_suffix byte_len
score_law_title_phrase phrase =
    let k = to_lower (trim_space phrase) in
    if k == "" || (has_prefix k "§" || has_prefix k "paragraph")
    then 0
    else if k == "gesetz"
        || (k == "gesetzes" || (has_prefix k "gesetzes vom" || has_prefix k "gesetz vom"))
    then 1
    else sized_score (byte_len k) (base_score k)

-- The trimmed text up to a position, or the text where there is none.
abbrev cut_at : (phrase : String) → Option ℕ → String
unfolding trim_space take_text
cut_at phrase none = phrase
cut_at phrase (some i) = trim_space (take_text i phrase)

-- `trimTrailingVomClause`
unfoldable pub trim_trailing_vom_clause : String → String
unfolding trim_space take_text to_lower index
trim_trailing_vom_clause phrase = cut_at phrase (index (to_lower phrase) " vom ")

-- `trimTrailingFassungClause`
unfoldable pub trim_trailing_fassung_clause : String → String
unfolding trim_space take_text to_lower index
trim_trailing_fassung_clause phrase =
    cut_at phrase (index (to_lower phrase) " in der fassung der bekanntmachung")

-- A hyphen cuts a subtitle off only if the subtitle is about social insurance.
abbrev cut_hyphen : (phrase : String) → Option ℕ → String
unfolding trim_space take_text drop_text to_lower contains
cut_hyphen phrase none = phrase
cut_hyphen phrase (some dash) =
    let rest = to_lower (trim_space (drop_text (suc dash) phrase)) in
    if contains rest "sozial" || contains rest "versicherung"
    then trim_space (take_text dash phrase)
    else phrase

-- `trimTrailingSubtitle`
unfoldable pub trim_trailing_subtitle : String → String
unfolding trim_space take_text drop_text to_lower contains index
trim_trailing_subtitle phrase = elim (index phrase "–") [
  | some dash ↦ trim_space (take_text dash phrase)
  | none ↦ cut_hyphen phrase (index phrase "-")
]

-- `sanitizeParentPhrase`
unfoldable pub sanitize_parent_phrase : String → String
unfolding trim_space take_text index score_law_title_phrase
sanitize_parent_phrase text =
    let trimmed = trim_space text in
    let phrase = cut_at trimmed (index trimmed ")") in
    if trimmed == "" then "" else if leb (score_law_title_phrase phrase) 1 then "" else phrase

-- The trims that both the choice of a clause and its caller make.
abbrev pub trimmed_clause : String → String
unfolding trim_right_set trim_trailing_subtitle trim_trailing_fassung_clause
    trim_trailing_vom_clause
trimmed_clause raw =
    trim_trailing_vom_clause
      (trim_trailing_fassung_clause (trim_trailing_subtitle (trim_right_set raw "–-:,; ")))

pub record Hit : Type 0 where
  pub phrase : String
  pub score : ℕ

abbrev better : Hit → Hit → Hit
better best next = if ltb best.score next.score then next else best

abbrev hit_of : String → Hit
unfolding score_law_title_phrase
hit_of raw = record { phrase = raw; score = score_law_title_phrase raw }

-- The loop over the places of " des ", on the texts from the position on. Each round passes five
-- runes, so fuel above the length is enough.
clauses : (fuel : ℕ) → (lower scope : String) → Hit → Hit
unfolding trim_space drop_text index trim_right_set trim_trailing_subtitle
    trim_trailing_fassung_clause trim_trailing_vom_clause score_law_title_phrase
clauses zero lower scope best = best
clauses (suc fuel) lower scope best = elim (index lower " des ") [
  | none ↦ best
  | some idx ↦
      let start = idx + rune_len " des " in
      clauses fuel (drop_text start lower) (drop_text start scope)
        (better best (hit_of (trimmed_clause (trim_space (drop_text start scope)))))
]

-- `pickLawTitleAfterDes`
unfoldable pub pick_law_title_after_des : (scope : String) → String
unfolding clauses to_lower
pick_law_title_after_des scope =
    let nothing : Hit = record { phrase = ""; score = 0 } in
    let best = clauses (suc (rune_len scope)) (to_lower scope) scope nothing in best.phrase

-- `reJurabk`: `(?i)\bSGB\s+([IVXLC]+|\d+)\b`
unfoldable pub re_jurabk : Regex
unfolding fold_rune
re_jurabk = seq boundary (
    seq (literal "SGB") (
      seq (plus space) (
        seq (group 1 (alt (plus (rune (λ c. has_rune "ivxlc" (fold_rune c)))) (plus digit)))
          boundary)))

abbrev jurabk_of : Option Match → String
unfolding to_upper trim_space
jurabk_of none = ""
jurabk_of (some m) = "SGB " +++ to_upper (trim_space (group_of 1 m.groups))

-- `extractJurabk`
unfoldable pub extract_jurabk : String → String
unfolding find_from re_jurabk to_upper trim_space
extract_jurabk text = jurabk_of (find_from re_jurabk none text)

-- `inferJurabkFromPhrase`
unfoldable pub infer_jurabk_from_phrase : String → String
unfolding to_lower contains
infer_jurabk_from_phrase phrase = first_book (to_lower phrase) sgb_book_phrase_entries

abbrev or_text : String → String → String
or_text s t = if s == "" then t else s

-- `extractParentPhrase`: the phrase and the abbreviation.
unfoldable pub extract_parent_phrase : String → String × String
unfolding authorization_scope pick_law_title_after_des trim_right_set trim_trailing_subtitle
    trim_trailing_fassung_clause trim_trailing_vom_clause sanitize_parent_phrase extract_jurabk
    infer_jurabk_from_phrase
extract_parent_phrase text =
    let scope = authorization_scope text in
    let phrase = sanitize_parent_phrase (trimmed_clause (pick_law_title_after_des scope)) in
    (
      phrase,
      or_text (extract_jurabk scope)
          (or_text (extract_jurabk text) (infer_jurabk_from_phrase phrase)),
    )
