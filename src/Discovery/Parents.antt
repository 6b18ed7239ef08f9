-- ===== src/Discovery/Parents.antt =====
-- internal/discovery/parent_resolve.go: the law that an ordinance is based on.
pub mod Unique
use gesetzeswache.Prelude.{
  ℕ, suc, ◌+◌, ◌-◌, String, Bool, true, false, not, ◌&&◌, ◌||◌, ◌==◌, Option, none, some, List, [],
  ◌∷◌, ◌++◌, any, if◌then◌else◌,
}
use gesetzeswache.Text.{trim_space, to_lower, has_suffix, contains}
use gesetzeswache.Text.Cut.{◌+++◌, index, index_any, take_text, drop_text, rune_len}
use gesetzeswache.Normalize.{key}
use gesetzeswache.Normalize.Sgb.{keys_from}
use gesetzeswache.Discovery.Books.{
  Ermaechtigung, Book, Builtin, sgb_book_phrase_entries, builtin_parent_names,
  built_in_title_parent, is_direct_parent, names_book,
}

-- `ParentLookup`
pub record ParentLookup : Type 0 where
  pub by_jurabk : String → List String
  pub by_title_phrase : String → List String

-- `uniqueIDs`
unfoldable pub unique_ids : List String → List String
unfolding keys_from
unique_ids ids = keys_from [] ids

abbrev pub only_one : List String → Option String
only_one (id ∷ []) = some id
only_one _ = none

-- `uniqueFrom`
unfoldable pub unique_from : List String → Option String
unfolding unique_ids
unique_from ids = only_one (unique_ids ids)

-- The closures `add` of the phrases: each trimmed text that is not empty, once by its key.
unfoldable pub phrases_from : (seen : List String) → List String → List String
unfolding trim_space key
phrases_from seen [] = []
phrases_from seen (text ∷ more) =
    let s = trim_space text in
    let skipped = phrases_from seen more in
    let added = s ∷ phrases_from (key s ∷ seen) more in
    if s == "" then skipped else if any (λ t. t == key s) seen then skipped else added

-- What stands behind "nach dem ", up to a comma or a semicolon.
abbrev cut_name : String → Option ℕ → String
unfolding trim_space take_text
cut_name name none = name
cut_name name (some cut) = trim_space (take_text cut name)

abbrev with_endings : String → List String
unfolding to_lower has_suffix
with_endings name =
    let long = if has_suffix (to_lower name) "gesetzes" then [] else (name +++ "gesetzes") ∷ [] in
    name ∷ (if has_suffix (to_lower name) "gesetz" then long else (name +++ "gesetz") ∷ long)

abbrev after_nach_dem : (title : String) → Option ℕ → List String
unfolding to_lower has_suffix trim_space take_text drop_text index_any
after_nach_dem title none = []
after_nach_dem title (some idx) =
    let name = trim_space (drop_text (idx + rune_len "nach dem ") title) in
    with_endings (cut_name name (index_any name ",;"))

abbrev before_verordnung : (title : String) → List String
unfolding to_lower has_suffix trim_space take_text
before_verordnung title =
    let base = trim_space (take_text (rune_len title - rune_len "verordnung") title) in
    if has_suffix (to_lower title) "verordnung" && not (base == "")
    then (base +++ "gesetz") ∷ (base +++ "gesetzes") ∷ []
    else []

-- `parentPhrasesFromVerordnungTitle`
unfoldable pub parent_phrases_from_verordnung_title : String → List String
unfolding phrases_from trim_space to_lower has_suffix index index_any take_text drop_text
parent_phrases_from_verordnung_title text =
    let title = trim_space text in
    if title == ""
    then []
    else phrases_from []
        (after_nach_dem title (index (to_lower title) "nach dem ") ++ before_verordnung title)

-- `titlePhraseVariants`
abbrev before_dash : (phrase : String) → Option ℕ → List String
unfolding take_text
before_dash phrase none = []
before_dash phrase (some dash) = take_text dash phrase ∷ []

unfoldable pub title_phrase_variants : String → List String
unfolding phrases_from trim_space index take_text
title_phrase_variants text =
    let phrase = trim_space text in
    if phrase == "" then [] else phrases_from [] (phrase ∷ before_dash phrase (index phrase "–"))

module _ (lookup : ParentLookup) where
  -- `resolveBuiltInParent`
  unfoldable pub resolve_built_in_parent : (mapped : String) → List String
  unfolding is_direct_parent key
  resolve_built_in_parent mapped =
      if is_direct_parent (key mapped) then key mapped ∷ [] else lookup.by_jurabk mapped

  abbrev by_phrase : (phrase : String) → (mapped : String) → Option String
  unfolding unique_from resolve_built_in_parent
  by_phrase phrase mapped = elim (unique_from (lookup.by_title_phrase phrase)) [
    | some id ↦ some id
    | none ↦ if mapped == "" then none else unique_from (resolve_built_in_parent mapped)
  ]

  abbrev first_resolved : (phrases : List String) → Option String
  unfolding unique_from resolve_built_in_parent built_in_title_parent key
  first_resolved [] = none
  first_resolved (phrase ∷ more) = elim (by_phrase phrase (built_in_title_parent (key phrase))) [
    | some id ↦ some id
    | none ↦ first_resolved more
  ]

  -- `ResolveParentFromChildTitle`
  unfoldable pub resolve_parent_from_child_title : (child_title : String) → Option String
  unfolding parent_phrases_from_verordnung_title unique_from resolve_built_in_parent
      built_in_title_parent key
  resolve_parent_from_child_title title =
      first_resolved (parent_phrases_from_verordnung_title title)

  abbrev mapped_candidates : (mapped : String) → List String
  unfolding resolve_built_in_parent
  mapped_candidates mapped = if mapped == "" then [] else resolve_built_in_parent mapped

  abbrev named_in : (phrase_key : String) → List Builtin → List String
  unfolding resolve_built_in_parent contains key
  named_in k [] = []
  named_in k (e ∷ more) =
      let found = any (λ name. k == key name || contains k (key name)) e.names in
      (if found then resolve_built_in_parent e.mapped else []) ++ named_in k more

  abbrev books_in : (lower : String) → List Book → List String
  unfolding resolve_built_in_parent contains
  books_in lower [] = []
  books_in lower (e ∷ more) =
      (if names_book lower e then resolve_built_in_parent e.jurabk else []) ++ books_in lower more

  -- `preciseParentCandidates`
  unfoldable pub precise_parent_candidates : Ermaechtigung → List String
  unfolding resolve_built_in_parent built_in_title_parent contains key to_lower
  precise_parent_candidates e =
      let by_jurabk = if e.jurabk == "" then [] else lookup.by_jurabk e.jurabk in
      let k = key e.law_title_phrase in
      let by_name =
        mapped_candidates (built_in_title_parent k)
        ++ (named_in k builtin_parent_names
            ++ books_in (to_lower e.law_title_phrase) sgb_book_phrase_entries) in
      if k == "" then by_jurabk else by_jurabk ++ by_name

  abbrev by_phrases : List String → List String
  by_phrases [] = []
  by_phrases (phrase ∷ more) = lookup.by_title_phrase phrase ++ by_phrases more

  -- `titleParentCandidates`
  unfoldable pub title_parent_candidates : Ermaechtigung → List String
  unfolding title_phrase_variants
  title_parent_candidates e = by_phrases (title_phrase_variants e.law_title_phrase)

  -- `ResolveParent`; none stands for `("", false)`.
  unfoldable pub resolve_parent : Ermaechtigung → Option String
  unfolding unique_from precise_parent_candidates title_parent_candidates
  resolve_parent e = elim (unique_from (precise_parent_candidates e)) [
    | some id ↦ some id
    | none ↦ unique_from (title_parent_candidates e)
  ]

-- `ScoreConfidence`
unfoldable pub score_confidence :
    (parent_unique : Bool) (section_hint : String) (fundstelle_ok editorial_agrees : Bool) → String
score_confidence false hint found agrees = if not (hint == "") || found then "medium" else "low"
score_confidence true hint found agrees =
    let some_sign = if not (hint == "") || found then "medium" else "low" in
    let score = if not (hint == "") && found then "high" else some_sign in
    if agrees && not (hint == "") && found && score == "medium" then "high" else score
