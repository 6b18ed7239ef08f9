-- ===== src/Freshness/Refs.antt =====
-- internal/freshness/eval.go: which instrument citations count, and for what.
use gesetzeswache.Prelude.{
  String, Bool, true, false, not, ◌&&◌, ◌||◌, ◌==◌, Option, List, eqb, any, find_first,
  if◌then◌else◌,
}
use gesetzeswache.Text.{to_upper, trim_space}
use gesetzeswache.Domain.{InstrumentRef, StandCitation, GazetteIssue, VRefResolution}

-- `strings.ToUpper(strings.TrimSpace(ref.Kind))`
unfoldable pub kind_of : InstrumentRef → String
kind_of ref = to_upper (trim_space ref.kind)

unfoldable pub hint_of : InstrumentRef → String
hint_of ref = trim_space ref.section_hint

-- `ref.Year == 0 || (ref.Number == "" && ref.Teil == 0)`: a citation with no identity is skipped.
unfoldable pub lacks_identity : InstrumentRef → Bool
lacks_identity ref = eqb ref.year 0 || (ref.number == "" && eqb ref.teil 0)

unfoldable pub stand_reflects_ref : StandCitation → InstrumentRef → Bool
stand_reflects_ref stand ref =
    stand.parse_ok
    && eqb stand.year ref.year
    && eqb stand.teil ref.teil
    && stand.number == ref.number

unfoldable pub is_operative_instrument_ref : InstrumentRef → Bool → Bool
is_operative_instrument_ref ref has_seeded =
    if kind_of ref == "G"
    then false
    else if kind_of ref == "V"
    then true
    else if kind_of ref == "BEK"
    then not (hint_of ref == "")
    else has_seeded && kind_of ref == ""

unfoldable pub is_stale_relevant_instrument_ref : InstrumentRef → Bool
is_stale_relevant_instrument_ref ref =
    if kind_of ref == "G" || kind_of ref == "V"
    then true
    else if kind_of ref == "BEK"
    then not (hint_of ref == "")
    else false

unfoldable pub issue_matches_instrument_ref : GazetteIssue → InstrumentRef → Bool
issue_matches_instrument_ref iss ref =
    if not (eqb iss.year ref.year) || not (iss.number == ref.number)
    then false
    else if not (eqb iss.teil 0) && not (eqb ref.teil 0) && not (eqb iss.teil ref.teil)
    then false
    else true

unfoldable pub instrument_issue_is_stale_relevant : GazetteIssue → List InstrumentRef → Bool
unfolding issue_matches_instrument_ref is_stale_relevant_instrument_ref
instrument_issue_is_stale_relevant iss =
    any (λ ref. issue_matches_instrument_ref iss ref && is_stale_relevant_instrument_ref ref)

unfoldable pub ref_identity_equal : InstrumentRef → InstrumentRef → Bool
ref_identity_equal a b =
    if not (eqb a.year b.year) || not (a.number == b.number)
    then false
    else if not (eqb a.teil 0) && not (eqb b.teil 0) && not (eqb a.teil b.teil)
    then false
    else if not (kind_of a == kind_of b)
    then false
    else if not (hint_of a == hint_of b)
    then false
    else true

unfoldable pub find_vref_resolution : List VRefResolution → InstrumentRef → Option VRefResolution
unfolding ref_identity_equal
find_vref_resolution resolutions ref =
    find_first (λ res. ref_identity_equal res.ref ref) resolutions
