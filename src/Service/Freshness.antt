-- ===== src/Service/Freshness.antt =====
-- internal/service/service.go: the freshness of a law as it is served.
pub mod Safe
use gesetzeswache.Prelude.{
  ℕ, String, Bool, true, false, not, ◌&&◌, ◌||◌, ◌==◌, Option, none, some, List, [], ◌∷◌, ◌++◌,
  if◌then◌else◌,
}
use gesetzeswache.Time.{Instant, Duration, is_zero}
use gesetzeswache.Domain.{
  Law, LinkedInstrument, InstrumentRef, VRefResolution, StandCitation, GazetteIssue, IssueLawLink,
  FreshnessRecord, confirmed_current,
}
use gesetzeswache.Freshness.Evidence.{bgbl_evidence, effective_bgbl_feed_time}
use gesetzeswache.Freshness.Eval.{Input, evaluate}
use gesetzeswache.Freshness.Unresolved.{UnresolvedInstrumentRef, collect_unresolved_refs}
use gesetzeswache.Instruments.Gesetz.{filter_operative_linked}
use gesetzeswache.Instruments.Chain.{annotate_chain, filter_linked_for_response}
use gesetzeswache.Instruments.Evidence.{MetaStandIssueStore, collect_evidence}
use gesetzeswache.Instruments.Family.{FamilyCatalog}
use gesetzeswache.Instruments.VrefProof.{
  LinksReader, VRefProofContext, Linked, read_links, no_links, stand_or_none,
  prove_vref_resolutions,
}
use gesetzeswache.Service.Links.{
  StoreOps, Catalog, linked_instruments_for, repair_stand_if_needed, ensure_linked_law_stubs,
  attach_linked_pointers,
}

pub record IncludeOpts : Type 0 where
  pub past : Bool
  pub linked : Bool
  pub proof : Bool

-- What of the configuration and of its files the service reads, and the clock of one request:
-- `now` when the handler asks it, `clock` when `Evaluate` does.
pub record Setup : Type 0 where
  pub catalog : Catalog
  pub families : Option FamilyCatalog
  pub parse_base : String → Option (String → String)
  pub gii_base : String
  pub max_age : Duration
  pub now : Instant
  pub clock : Instant

pub record FreshnessMeta : Type 0 where
  pub state : String
  pub safe_to_serve : Bool
  pub confidence : String
  pub method : String
  pub evaluated_at : Instant
  pub last_toc_success : Option Instant
  pub last_bgbl_success : Option Instant
  pub newer_issue_ids : List String
  pub rationale : String
  pub stand : StandCitation
  pub gii_url : String
  pub bgbl_pointers : List String
  pub linked_instruments : List LinkedInstrument
  pub instrument_refs : List InstrumentRef
  pub unresolved_refs : List UnresolvedInstrumentRef
  pub proof : List VRefResolution

abbrev time_unless_zero : Instant → Option Instant
time_unless_zero t = if is_zero t then none else some t

abbrev pointers_of : List GazetteIssue → List String
pointers_of [] = []
pointers_of (iss ∷ issues) =
    let rest = pointers_of issues in if iss.eli_url == "" then rest else iss.eli_url ∷ rest

abbrev pub or_missing : Option (Option Law) → Option Law
or_missing none = none
or_missing (some law) = law

abbrev chosen_pair :
    {S : Type 0}
    → Bool
    → List LinkedInstrument × S
    → List LinkedInstrument × S
    → List LinkedInstrument × S
chosen_pair true a b = a
chosen_pair false a b = b

module _ {S : Type 0} (st : StoreOps S) (setup : Setup) where
  -- The reads of a store state as the instruments package has them.
  unfoldable pub reads : S → MetaStandIssueStore
  reads s = record {
    get_meta = λ k. st.get_meta s k;
    get_stand = λ k. st.get_stand s k;
    get_issue = λ k. st.get_issue s k;
  }

  abbrev rows_unless_failed : List IssueLawLink × Bool → Option (List IssueLawLink)
  rows_unless_failed (rows, true) = none
  rows_unless_failed (rows, false) = some rows

  unfoldable pub links_reader : S → LinksReader
  links_reader s = some (λ id. rows_unless_failed (st.links_for_law s id))

  -- The BGBl evidence of now and whether it rests on the probe alone.
  unfoldable pub bgbl_now : S → Instant × Bool
  bgbl_now s =
      let feed =
        effective_bgbl_feed_time (st.get_meta_time s "last_bgbl_feed_success")
          (st.get_meta_time s "last_bgbl_feed_degraded") in
      bgbl_evidence feed (st.get_meta_time s "last_eli_probe_success") setup.now setup.max_age

  -- The rows of the law that count as ordinances, before and after they are annotated.
  unfoldable pub operative_linked : S → (law_id : String) → List LinkedInstrument
  operative_linked s law_id =
      filter_operative_linked (some (λ id. or_missing (st.laws.get_law s id)))
        ((linked_instruments_for st setup.catalog setup.families s law_id).0)

  abbrev is_nil : List LinkedInstrument → Bool
  is_nil [] = true
  is_nil (x ∷ xs) = false

  unfoldable pub proof_context : S → (read_failed : Bool) → VRefProofContext
  proof_context s read_failed = record {
    now = setup.now;
    max_age = setup.max_age;
    last_toc_success = st.get_meta_time s "last_toc_success";
    last_gii_feed_success = st.get_meta_time s "last_gii_feed_success";
    last_bgbl_success = (bgbl_now s).0;
    bgbl_from_probe_only = (bgbl_now s).1;
    links_read_failed = read_failed;
  }

  -- What a law is evaluated on. `s` is the state behind the repair of the Stand.
  unfoldable pub input_for :
      S → (law_id : String) → StandCitation → Linked → (failed : Bool) → List VRefResolution → Input
  input_for s law_id stand linked failed resolutions =
      let (refs, issues) = collect_evidence (reads s) (operative_linked s law_id) law_id stand in
      record {
        law_id = law_id;
        stand = stand;
        linked_issues = linked.issues;
        link_classes = linked.classes;
        instrument_refs = refs;
        instrument_issues = issues;
        has_seeded_linked_instruments =
            not (is_nil (operative_linked s law_id))
            || (linked_instruments_for st setup.catalog setup.families s law_id).1;
        vref_resolutions = some resolutions;
        links_read_failed = failed;
        last_toc_success = st.get_meta_time s "last_toc_success";
        last_gii_feed_success = st.get_meta_time s "last_gii_feed_success";
        last_bgbl_success = (bgbl_now s).0;
        bgbl_from_probe_only = (bgbl_now s).1;
        now = setup.now;
        max_age = setup.max_age;
      }

  -- The chain of the law's rows at the time of the request.
  unfoldable pub annotated_for : S → (law_id : String) → List LinkedInstrument
  annotated_for s law_id = annotate_chain (operative_linked s law_id) setup.now

  -- `s₁` is the state in which the stubs exist and the children are proved.
  unfoldable pub resolutions_for :
      (s s₁ : S) → (law_id : String) → StandCitation → (failed : Bool) → List VRefResolution
  resolutions_for s s₁ law_id stand failed =
      prove_vref_resolutions setup.clock
        ((collect_evidence (reads s) (operative_linked s law_id) law_id stand).0)
        (annotated_for s law_id) stand (reads s₁)
        (some (λ teil year number. st.lookup_bgbl_index s₁ teil year number)) (links_reader s₁)
        (proof_context s failed)

  unfoldable pub meta_of :
      Law
      → StandCitation
      → IncludeOpts
      → List GazetteIssue
      → List LinkedInstrument
      → List VRefResolution
      → Input
      → FreshnessMeta
  meta_of law stand opts issues linked resolutions in_ =
      let rec = evaluate setup.clock in_ in
      record {
        state = rec.state;
        safe_to_serve = rec.state == confirmed_current;
        confidence = rec.confidence;
        method = rec.method;
        evaluated_at = rec.evaluated_at;
        last_toc_success = time_unless_zero in_.last_toc_success;
        last_bgbl_success = time_unless_zero in_.last_bgbl_success;
        newer_issue_ids = rec.newer_issue_ids;
        rationale = rec.rationale;
        stand = stand;
        gii_url = law.gii_url;
        bgbl_pointers = pointers_of issues;
        linked_instruments = linked;
        instrument_refs = in_.instrument_refs;
        unresolved_refs = collect_unresolved_refs in_;
        proof = if opts.proof then resolutions else [];
      }

  unfoldable pub read_failed : S → (law_id : String) → Bool
  read_failed s law_id =
      (st.links_for_law s law_id).1
      || (linked_instruments_for st setup.catalog setup.families s law_id).1

  -- The rows of the response, and the state with the stubs that they and the links needed.
  unfoldable pub response_for : IncludeOpts → S → (law_id : String) → List LinkedInstrument × S
  response_for opts s law_id =
      let rows = (linked_instruments_for st setup.catalog setup.families s law_id).0 in
      let s₁ = ensure_linked_law_stubs st setup.parse_base setup.gii_base rows s in
      let shown = filter_linked_for_response (annotated_for s law_id) opts.past in
      let attached = attach_linked_pointers st setup.parse_base setup.gii_base shown s₁ in
      chosen_pair opts.linked attached (shown, s₁)

  unfoldable pub linked_for : S → (law_id : String) → Linked
  linked_for s law_id = read_links (reads s) no_links ((st.links_for_law s law_id).0)

  -- What the verdict of one request is about.
  unfoldable pub served_input : IncludeOpts → (law_id : String) → StandCitation → S → Input
  served_input opts law_id stand s =
      let failed = read_failed s law_id in
      input_for s law_id stand (linked_for s law_id) failed
        (resolutions_for s ((response_for opts s law_id).1) law_id stand failed)

  -- The handler behind the read of the law and of its Stand.
  unfoldable pub freshness_of :
      Law → IncludeOpts → (law_id : String) → StandCitation × S → FreshnessMeta × S
  freshness_of law opts law_id (stand, s) =
      let (response, s₂) = response_for opts s law_id in
      let resolutions = resolutions_for s s₂ law_id stand (read_failed s law_id) in
      let in_ = served_input opts law_id stand s in
      (
        meta_of law stand opts ((linked_for s law_id).issues) response resolutions in_,
        st.put_freshness s₂ (evaluate setup.clock in_),
      )

  -- `freshnessFor`: an error, or the answer and the state behind it.
  unfoldable pub freshness_for : (law_id : String) → IncludeOpts → S → Option (FreshnessMeta × S)
  unfolding freshness_of
  freshness_for law_id opts s = elim (or_missing (st.laws.get_law s law_id)) [
    | none ↦ none
    | some law ↦ some (
        freshness_of law opts law_id
          (repair_stand_if_needed st s law_id (stand_or_none (st.get_stand s law_id))))
  ]
