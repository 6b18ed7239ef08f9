-- ===== src/Tests/Data.antt =====
-- The inputs of the tests.
use gesetzeswache.Prelude.{
  ℕ, ◌*◌, ◌<◌, String, true, false, none, some, List, [], ◌∷◌, pos, arith, pos_part,
}
use gesetzeswache.Time.{Instant, second, max_duration}
use gesetzeswache.Domain.{
  InstrumentRef, VRefResolution, LinkedInstrument, StandCitation, GazetteIssue,
}
use gesetzeswache.Freshness.Evidence.{or_default_age}
use gesetzeswache.Freshness.Eval.{Input}

abbrev pub now : Instant
now = 3600 * second * 1000

abbrev pub stand_of : String → (year : ℕ) → (number raw : String) → StandCitation
stand_of id year number raw = record {
  law_id = id;
  raw = raw;
  teil = 1;
  year = year;
  number = number;
  page = "";
  date = none;
  instrument_kind = "";
  parse_ok = true;
  parse_notes = "";
}

abbrev pub parent_stand : StandCitation
parent_stand = stand_of "xg" 2023 "12" "V v. 5.11.2025 I Nr. 268"

abbrev pub child_stand : StandCitation
child_stand = stand_of "xv" 2025 "268" ""

abbrev pub ref_v : InstrumentRef
ref_v = record {
  kind = "V";
  teil = 1;
  year = 2025;
  number = "268";
  section_hint = "";
  raw = "V v. 5.11.2025 I Nr. 268";
}

abbrev pub settled_v : VRefResolution
settled_v = record {
  ref = ref_v;
  matched_gii_slug = "xv";
  match_method = "notes_identity";
  child_confirmed = true;
  resolved = true;
  historical = false;
  superseded_by = "";
}

abbrev pub child : LinkedInstrument
child = record {
  parent_law_id = "xg";
  kind = "verordnung";
  gii_slug = "xv";
  notes = "";
  effective_from = "";
  section_hint = "";
  status = "";
  coverage = "section";
  source = "seeded";
  confidence = "";
  edge_type = "";
  resolve_ok = false;
  gii_url = "";
  law_id = "";
}

abbrev pub newer_issue : GazetteIssue
newer_issue = record {
  id = "bgbl-1-2024-7";
  teil = 1;
  year = 2024;
  number = "7";
  published_at = none;
  title = "Gesetz zur Änderung";
  eli_url = "";
  discovery_sources = [];
  existence_confidence = "high";
  matched = true;
  first_seen_at = now;
}

abbrev pub input_of : List GazetteIssue → Input
input_of linked = record {
  law_id = "xg";
  stand = parent_stand;
  linked_issues = linked;
  link_classes = [];
  instrument_refs = ref_v ∷ [];
  instrument_issues = [];
  has_seeded_linked_instruments = true;
  vref_resolutions = some (settled_v ∷ []);
  links_read_failed = false;
  last_toc_success = now;
  last_gii_feed_success = now;
  last_bgbl_success = now;
  bgbl_from_probe_only = false;
  now = now;
  max_age = pos 0;
}

pub default_age-small : pos_part (or_default_age (pos 0)) < max_duration
default_age-small = omega arith
