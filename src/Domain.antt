-- ===== src/Domain.antt =====
-- internal/domain/types.go: the entities that the components exchange. Enumerations over Go's
-- `string` stay texts; `*time.Time` is an optional instant; parts and years are never negative,
-- since the parsers read them from digits.
use gesetzeswache.Prelude.{ℕ, String, Bool, Option, List}
use gesetzeswache.Time.{Instant}

-- FreshnessState
abbrev pub confirmed_current : String
confirmed_current = "confirmed_current"

abbrev pub confirmed_stale : String
confirmed_stale = "confirmed_stale"

abbrev pub uncertain : String
uncertain = "uncertain"

-- LinkClass
abbrev pub link_confirmed : String
link_confirmed = "confirmed"

abbrev pub link_heuristic : String
link_heuristic = "heuristic"

-- VerificationMethod
abbrev pub method_feeds : String
method_feeds = "feeds"

abbrev pub method_probe_only : String
method_probe_only = "probe_only"

pub record Law : Type 0 where
  pub id : String
  pub abbreviation : String
  pub title : String
  pub gii_path : String
  pub gii_url : String

pub record LawVariant : Type 0 where
  pub variant : String
  pub law_id : String

pub record InstrumentRef : Type 0 where
  pub kind : String
  pub teil : ℕ
  pub year : ℕ
  pub number : String
  pub section_hint : String
  pub raw : String

pub record VRefResolution : Type 0 where
  pub ref : InstrumentRef
  pub matched_gii_slug : String
  pub match_method : String
  pub child_confirmed : Bool
  pub resolved : Bool
  pub historical : Bool
  pub superseded_by : String

pub record LinkedInstrument : Type 0 where
  pub parent_law_id : String
  pub kind : String
  pub gii_slug : String
  pub notes : String
  pub effective_from : String
  pub section_hint : String
  pub status : String
  pub coverage : String
  pub source : String
  pub confidence : String
  pub edge_type : String
  pub resolve_ok : Bool
  pub gii_url : String
  pub law_id : String

pub record DiscoveredEdge : Type 0 where
  pub parent_law_id : String
  pub gii_slug : String
  pub section_hint : String
  pub notes : String
  pub edge_type : String
  pub confidence : String
  pub effective_from : String
  pub child_law_id : String

pub record StandCitation : Type 0 where
  pub law_id : String
  pub raw : String
  pub teil : ℕ
  pub year : ℕ
  pub number : String
  pub page : String
  pub date : Option Instant
  pub instrument_kind : String
  pub parse_ok : Bool
  pub parse_notes : String

pub record GazetteIssue : Type 0 where
  pub id : String
  pub teil : ℕ
  pub year : ℕ
  pub number : String
  pub published_at : Option Instant
  pub title : String
  pub eli_url : String
  pub discovery_sources : List String
  pub existence_confidence : String
  pub matched : Bool
  pub first_seen_at : Instant

pub record IssueLawLink : Type 0 where
  pub issue_id : String
  pub law_id : String
  pub class : String
  pub created_at : Instant

pub record FreshnessRecord : Type 0 where
  pub law_id : String
  pub state : String
  pub confidence : String
  pub method : String
  pub evaluated_at : Instant
  pub newer_issue_ids : List String
  pub rationale : String

pub record SyncAttempt : Type 0 where
  pub id : String
  pub source : String
  pub started_at : Instant
  pub ended_at : Instant
  pub success : Bool
  pub error : String
  pub detail : String
