-- ===== src/Freshness/Eval.antt =====
-- internal/freshness/eval.go: `Evaluate` and the evidence that it gathers.
pub mod Open
pub mod Gates
pub mod Verdict
use gesetzeswache.Prelude.{
  String, Bool, true, false, not, ◌&&◌, ◌==◌, Option, none, some, List, [], ◌∷◌, ltb, eqb, length,
  any, if◌then◌else◌,
}
use gesetzeswache.Time.{Instant, Duration, is_zero}
use gesetzeswache.Domain.{
  InstrumentRef, StandCitation, GazetteIssue, VRefResolution, FreshnessRecord, confirmed_current,
  confirmed_stale, uncertain, method_feeds, method_probe_only,
}
use gesetzeswache.Freshness.Evidence.{timestamp_fresh, or_default_age}
use gesetzeswache.Freshness.Refs.{
  lacks_identity, stand_reflects_ref, is_operative_instrument_ref, find_vref_resolution,
}
use gesetzeswache.Freshness.Issues.{newer_ids, only_heuristic_links}

pub record Input : Type 0 where
  pub law_id : String
  pub stand : StandCitation
  pub linked_issues : List GazetteIssue
  -- a map from issue id to class
  pub link_classes : List (String × String)
  pub instrument_refs : List InstrumentRef
  pub instrument_issues : List GazetteIssue
  pub has_seeded_linked_instruments : Bool
  -- `none` is Go's nil: the blunt path
  pub vref_resolutions : Option (List VRefResolution)
  pub links_read_failed : Bool
  pub last_toc_success : Instant
  pub last_gii_feed_success : Instant
  pub last_bgbl_success : Instant
  pub bgbl_from_probe_only : Bool
  pub now : Instant
  pub max_age : Duration

unfoldable pub sync_within_max_age : Input → Instant → Bool
sync_within_max_age in_ now =
    if not (timestamp_fresh in_.last_toc_success now (or_default_age in_.max_age))
    then false
    else if not (timestamp_fresh in_.last_gii_feed_success now (or_default_age in_.max_age))
    then false
    else if not (timestamp_fresh in_.last_bgbl_success now (or_default_age in_.max_age))
    then false
    else true

unfoldable pub stand_missing : StandCitation → Bool
stand_missing stand =
    not stand.parse_ok
    && stand.raw == ""
    && eqb stand.year 0
    && stand.number == ""
    && stand.page == ""

abbrev pub stand_unparsed : StandCitation → Bool
stand_unparsed stand = if stand_missing stand then true else not stand.parse_ok

unfoldable pub lower_confidence : String → String
lower_confidence c = if c == "high" then "medium" else if c == "medium" then "low" else "low"

-- An operative citation that the Stand does not reflect: the three `continue`s of the loops below.
unfoldable pub is_open_ref : Input → InstrumentRef → Bool
is_open_ref in_ ref =
    if lacks_identity ref
    then false
    else if stand_reflects_ref in_.stand ref
    then false
    else is_operative_instrument_ref ref in_.has_seeded_linked_instruments

unfoldable pub unresolved_instrument_refs_blunt : Input → Bool
unresolved_instrument_refs_blunt in_ = any (is_open_ref in_) in_.instrument_refs

-- What the proof loop notes of one citation.
pub data RefOutcome : Type 0 where
  settled unmatched unconfirmed_child : RefOutcome

unfoldable pub outcome_of : Option VRefResolution → RefOutcome
outcome_of none = unmatched
outcome_of (some res) =
    if res.historical
    then settled
    else if res.resolved && res.child_confirmed
    then settled
    else if not (res.matched_gii_slug == "")
    then unconfirmed_child
    else unmatched

unfoldable pub ref_outcome : Input → List VRefResolution → InstrumentRef → RefOutcome
unfolding outcome_of
ref_outcome in_ resolutions ref =
    if is_open_ref in_ ref then outcome_of (find_vref_resolution resolutions ref) else settled

-- `hasUnmatched` and `hasUnconfirmedChild`
pub record Flags : Type 0 where
  pub has_unmatched : Bool
  pub has_unconfirmed_child : Bool

abbrev pub note : Flags → RefOutcome → Flags
note f settled = f
note f unmatched = record f { has_unmatched = true }
note f unconfirmed_child = record f { has_unconfirmed_child = true }

pub proof_loop : Input → List VRefResolution → Flags → List InstrumentRef → Flags
proof_loop in_ resolutions f [] = f
proof_loop in_ resolutions f (ref ∷ refs) =
    proof_loop in_ resolutions (note f (ref_outcome in_ resolutions ref)) refs

abbrev pub no_flags : Flags
no_flags = record { has_unmatched = false; has_unconfirmed_child = false }

unfoldable pub rationale_of : Flags → Option String
rationale_of f =
    if not f.has_unmatched && not f.has_unconfirmed_child
    then none
    else if f.has_unmatched
    then some "unresolved_linked_instrument_refs"
    else some "linked_child_not_confirmed"

-- The rationale of an unresolved citation, if there is one.
unfoldable pub unresolved_instrument_refs_proof : Input → List VRefResolution → Option String
unfolding proof_loop ref_outcome rationale_of
unresolved_instrument_refs_proof in_ resolutions =
    rationale_of (proof_loop in_ resolutions no_flags in_.instrument_refs)

abbrev by_path :
    Option (List VRefResolution)
    → Option String
    → (List VRefResolution → Option String)
    → Option String
by_path none blunt proof = blunt
by_path (some resolutions) blunt proof = proof resolutions

abbrev blunt_rationale : Input → Option String
blunt_rationale in_ =
    if unresolved_instrument_refs_blunt in_ then some "unresolved_linked_instrument_refs" else none

unfoldable pub unresolved_instrument_refs : Input → Option String
unfolding unresolved_instrument_refs_proof unresolved_instrument_refs_blunt
unresolved_instrument_refs in_ =
    if eqb (length in_.instrument_refs) 0
    then none
    else by_path in_.vref_resolutions (blunt_rationale in_) (unresolved_instrument_refs_proof in_)

-- `now := in.Now`, or the clock's time where that is zero
abbrev pub time_of : Instant → Input → Instant
time_of clock in_ = if is_zero in_.now then clock else in_.now

-- The record as it stands before the first gate.
abbrev pub initial_record : Instant → Input → FreshnessRecord
initial_record clock in_ = record {
  law_id = in_.law_id;
  state = "";
  confidence = if in_.bgbl_from_probe_only then "low" else "high";
  method = if in_.bgbl_from_probe_only then method_probe_only else method_feeds;
  evaluated_at = time_of clock in_;
  newer_issue_ids = [];
  rationale = "";
}

abbrev pub be_uncertain : FreshnessRecord → (confidence rationale : String) → FreshnessRecord
be_uncertain rec conf why = record rec { state = uncertain; confidence = conf; rationale = why }

abbrev pub lowered_if : Bool → FreshnessRecord → FreshnessRecord
lowered_if b rec = record rec {
  confidence = if b then lower_confidence rec.confidence else rec.confidence;
}

-- The end of `Evaluate`: a parsed Stand with no newer issue.
abbrev pub settle : Option String → Bool → FreshnessRecord → FreshnessRecord
settle (some why) heuristic rec = be_uncertain rec (lower_confidence rec.confidence) why
settle none heuristic rec = lowered_if heuristic (record rec {
  state = confirmed_current;
  rationale = "no newer linked gazette issue beyond Stand";
})

-- `Evaluate` behind the three gates: newer issues, the Stand, open citations.
unfoldable pub judge : Input → List String → FreshnessRecord → FreshnessRecord
unfolding lower_confidence stand_missing
judge in_ newer rec =
    let heuristic = only_heuristic_links in_.linked_issues in_.link_classes in
    if ltb 0 (length newer)
    then lowered_if heuristic (record rec {
      state = confirmed_stale;
      newer_issue_ids = newer;
      rationale = "newer gazette issue linked than reflected Stand";
    })
    else if not in_.stand.parse_ok
    then be_uncertain rec "low" "stand_unparsed_or_missing"
    else settle (unresolved_instrument_refs in_) heuristic rec

-- `clock` is what `time.Now()` answers.
unfoldable pub evaluate : Instant → Input → FreshnessRecord
unfolding judge sync_within_max_age
evaluate clock in_ =
    let rec = initial_record clock in_ in
    if not (sync_within_max_age in_ (time_of clock in_))
    then be_uncertain rec "low" "sync data older than max age"
    else if in_.bgbl_from_probe_only
    then be_uncertain rec "low" "bgbl_evidence_probe_only"
    else if in_.links_read_failed
    then be_uncertain rec "low" "links_read_failed"
    else judge in_ (newer_ids in_.stand in_.instrument_refs in_.linked_issues in_.instrument_issues)
        rec
