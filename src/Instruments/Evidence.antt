-- ===== src/Instruments/Evidence.antt =====
-- internal/instruments/evidence.go: the citations of a law and the gazette issues that they name.
pub mod Issues
pub mod Dedupe
use Prim.Native.String
use gesetzeswache.Prelude.{
  String, ◌||◌, ◌==◌, Option, none, some, List, [], ◌∷◌, ◌++◌, eqb, any, if◌then◌else◌,
}
use gesetzeswache.Text.{itoa}
use gesetzeswache.Normalize.{key}
use gesetzeswache.Domain.{InstrumentRef, LinkedInstrument, StandCitation, GazetteIssue}
use gesetzeswache.Citation.{issue_id}
use gesetzeswache.Citation.Instruments.{parse_linked_instruments}

-- The store surface that evidence is read from. The callers drop the errors, so that a read
-- answers a value or none.
pub record MetaStandIssueStore : Type 0 where
  pub get_meta : String → Option String
  pub get_stand : String → Option StandCitation
  pub get_issue : String → Option GazetteIssue

infixl 65 ◌+++◌
abbrev ◌+++◌ : String → String → String
◌+++◌ = String.◌++◌

-- The key of `dedupeRefs`, which leaves the section out.
unfoldable pub dedupe_key : InstrumentRef → String
dedupe_key r = r.kind +++ "|" +++ itoa r.teil +++ "|" +++ itoa r.year +++ "|" +++ r.number

pub dedupe_from : List String → List InstrumentRef → List InstrumentRef
dedupe_from seen [] = []
dedupe_from seen (r ∷ rs) =
    let old = dedupe_from seen rs in
    let new = r ∷ dedupe_from (dedupe_key r ∷ seen) rs in
    if any (λ k. k == dedupe_key r) seen then old else new

unfoldable pub dedupe_refs : List InstrumentRef → List InstrumentRef
unfolding dedupe_from
dedupe_refs = dedupe_from []

abbrev editorial_refs : Option String → List InstrumentRef
editorial_refs none = []
editorial_refs (some blob) =
    let refs = parse_linked_instruments blob in if blob == "" then [] else refs

abbrev raw_refs : Option StandCitation → List InstrumentRef
raw_refs none = []
raw_refs (some stand) = parse_linked_instruments stand.raw

-- `childID` of the loop: the law id's key, or the slug's
abbrev child_id : LinkedInstrument → String
child_id li = if key li.law_id == "" then key li.gii_slug else key li.law_id

pub linked_refs : MetaStandIssueStore → List LinkedInstrument → List InstrumentRef
linked_refs st [] = []
linked_refs st (li ∷ linked) =
    parse_linked_instruments li.notes
    ++ (raw_refs (st.get_stand (child_id li)) ++ linked_refs st linked)

abbrev take_issue :
    Option GazetteIssue → List String → (List String → List GazetteIssue) → List GazetteIssue
take_issue none seen more = more seen
take_issue (some iss) seen more =
    let old = more seen in
    let new = iss ∷ more (iss.id ∷ seen) in if any (λ k. k == iss.id) seen then old else new

-- The second loop: the issues that the store has for the citations, each once.
pub issues_from : MetaStandIssueStore → List String → List InstrumentRef → List GazetteIssue
issues_from st seen [] = []
issues_from st seen (ref ∷ refs) =
    let skipped = issues_from st seen refs in
    let looked_up =
      take_issue (st.get_issue (issue_id ref.teil ref.year ref.number)) seen
        (λ s. issues_from st s refs) in
    if eqb ref.year 0 || ref.number == "" then skipped else looked_up

unfoldable pub evidence_refs :
    MetaStandIssueStore → List LinkedInstrument → String → StandCitation → List InstrumentRef
unfolding linked_refs dedupe_refs
evidence_refs st linked law_id stand = dedupe_refs (
    parse_linked_instruments stand.raw
    ++ (editorial_refs (st.get_meta ("editorial:" +++ law_id)) ++ linked_refs st linked))

unfoldable pub collect_evidence :
    MetaStandIssueStore
    → List LinkedInstrument
    → String
    → StandCitation
    → List InstrumentRef × List GazetteIssue
unfolding issues_from
collect_evidence st linked law_id stand =
    let refs = evidence_refs st linked law_id stand in (refs, issues_from st [] refs)
