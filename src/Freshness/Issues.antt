-- ===== src/Freshness/Issues.antt =====
-- internal/freshness/eval.go: which gazette issues are newer than the reflected Stand.
pub mod Unique
pub mod Newer
use gesetzeswache.Prelude.{
  String, Bool, true, false, not, ◌&&◌, ◌||◌, ◌==◌, Option, none, some, List, [], ◌∷◌, ◌++◌, map,
  ltb, any, keep, if◌then◌else◌,
}
use gesetzeswache.Text.{to_lower, trim_space, has_prefix}
use gesetzeswache.Time.{Instant, after}
use gesetzeswache.Domain.{
  InstrumentRef, StandCitation, GazetteIssue, link_confirmed, link_heuristic,
}
use gesetzeswache.Citation
use gesetzeswache.Citation.{Comparison, older, equal, newer, incomparable}
use gesetzeswache.Freshness.Refs.{instrument_issue_is_stale_relevant}

unfoldable pub is_bare_bekanntmachung_issue : GazetteIssue → Bool
is_bare_bekanntmachung_issue iss =
    let title = trim_space iss.title in
    let lower = to_lower title in
    if title == ""
    then false
    else if has_prefix lower "bekanntmachung"
    then true
    else has_prefix lower "bek." || has_prefix lower "bek "

-- The citation that an issue stands for: `pseudo` of `issueNewerThanStand`.
abbrev pub pseudo_citation : GazetteIssue → StandCitation
pseudo_citation iss = record {
  law_id = "";
  raw = "";
  teil = iss.teil;
  year = iss.year;
  number = iss.number;
  page = "";
  date = none;
  instrument_kind = "";
  parse_ok = true;
  parse_notes = "";
}

abbrev published_after : Option Instant → Option Instant → Bool
published_after (some date) (some published) = after published date
published_after _ _ = false

abbrev newer_by : Comparison → Bool → Bool
newer_by older by_date = true
newer_by equal by_date = false
newer_by newer by_date = false
newer_by incomparable by_date = by_date

unfoldable pub issue_newer_than_stand : GazetteIssue → StandCitation → Bool
issue_newer_than_stand iss stand =
    let by_date = published_after stand.date iss.published_at in
    if not stand.parse_ok
    then ltb 0 iss.year && not (iss.number == "")
    else newer_by (Citation.compare stand (pseudo_citation iss)) by_date

-- `uniqueStrings`: the texts that are not empty, each at its first place.
pub unique_from : List String → List String → List String
unique_from seen [] = []
unique_from seen (s ∷ more) =
    let skipped = unique_from seen more in
    let taken = s ∷ unique_from (s ∷ seen) more in
    if s == "" then skipped else if any (λ t. t == s) seen then skipped else taken

unfoldable pub unique_strings : List String → List String
unfolding unique_from
unique_strings = unique_from []

-- The two loops of `Evaluate` that collect newer issues.
unfoldable pub newer_linked : StandCitation → List GazetteIssue → List GazetteIssue
newer_linked stand =
    keep (λ iss. not (is_bare_bekanntmachung_issue iss) && issue_newer_than_stand iss stand)

unfoldable pub newer_instrument :
    StandCitation → List InstrumentRef → List GazetteIssue → List GazetteIssue
newer_instrument stand refs =
    keep (λ iss. instrument_issue_is_stale_relevant iss refs && issue_newer_than_stand iss stand)

unfoldable pub newer_ids :
    StandCitation → List InstrumentRef → (linked instrument : List GazetteIssue) → List String
unfolding newer_linked newer_instrument unique_strings
newer_ids stand refs linked instrument = unique_strings (
    map (λ iss. iss.id) (newer_linked stand linked)
    ++ map (λ iss. iss.id) (newer_instrument stand refs instrument))

-- `in.LinkClasses[iss.ID]`
pub class_of : List (String × String) → String → Option String
class_of [] id = none
class_of ((k, c) ∷ classes) id = if k == id then some c else class_of classes id

abbrev is_class : String → Option String → Bool
is_class c none = false
is_class c (some d) = d == c

abbrev is_nil {ℓ} : {A : Type ℓ} → List A → Bool
is_nil [] = true
is_nil (x ∷ xs) = false

unfoldable pub only_heuristic_links : List GazetteIssue → List (String × String) → Bool
unfolding class_of
only_heuristic_links issues classes =
    if is_nil issues
    then false
    else if is_nil classes
    then false
    else any (λ iss. is_class link_heuristic (class_of classes iss.id)) issues
      && not (any (λ iss. is_class link_confirmed (class_of classes iss.id)) issues)
