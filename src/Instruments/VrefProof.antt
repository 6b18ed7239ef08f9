-- ===== src/Instruments/VrefProof.antt =====
-- internal/instruments/vref_proof.go: a matched child must itself be confirmed current.
pub mod Settled
pub mod Backed
use gesetzeswache.Prelude.{
  ℕ, String, Bool, true, false, not, ◌&&◌, ◌||◌, ◌==◌, Option, none, some, List, [], ◌∷◌, ◌++◌, map,
  eqb, any, keep, find_first, if◌then◌else◌,
}
use gesetzeswache.Time.{Instant, Duration}
use gesetzeswache.Normalize.{key}
use gesetzeswache.Domain.{
  InstrumentRef, LinkedInstrument, StandCitation, VRefResolution, GazetteIssue, IssueLawLink,
  confirmed_current, uncertain,
}
use gesetzeswache.Freshness.Eval.{Input, evaluate}
use gesetzeswache.Instruments.Chain.{normalize_section_hint}
use gesetzeswache.Instruments.Evidence.{MetaStandIssueStore, collect_evidence}
use gesetzeswache.Instruments.VrefResolve.{
  BgblIndexLookup, ChildStands, is_current_candidate, is_past, is_kind_v,
  match_children_by_identity, resolve_operative_vrefs, build_child_stands,
}

-- `LinksReader`: the links of a law, or none on a read error; the outer `none` is nil.
abbrev pub LinksReader : Type 0
LinksReader = Option (String → Option (List IssueLawLink))

pub record VRefProofContext : Type 0 where
  pub now : Instant
  pub max_age : Duration
  pub last_toc_success : Instant
  pub last_gii_feed_success : Instant
  pub last_bgbl_success : Instant
  pub bgbl_from_probe_only : Bool
  pub links_read_failed : Bool

abbrev confirm : VRefResolution → VRefResolution
confirm res = record res { child_confirmed = true; resolved = true }

unfoldable pub prove_child : (String → String) → VRefResolution → VRefResolution
prove_child eval_child res =
    let state = eval_child res.matched_gii_slug in
    if res.historical || res.matched_gii_slug == ""
    then res
    else if state == confirmed_current
    then confirm res
    else res

unfoldable pub apply_child_freshness_proof :
    List VRefResolution → (String → String) → List VRefResolution
unfolding prove_child
apply_child_freshness_proof resolutions eval_child = map (prove_child eval_child) resolutions

-- `confirmedSlugs`
unfoldable pub is_confirmed_slug : List VRefResolution → String → Bool
is_confirmed_slug resolutions slug =
    any
      (λ res.
        res.resolved
        && res.child_confirmed
        && not (res.matched_gii_slug == "")
        && res.matched_gii_slug == slug)
      resolutions

-- The one section on which all past matches agree, else "*".
unfoldable pub past_section : List LinkedInstrument → String
past_section [] = "*"
past_section (first ∷ more) =
    let section = normalize_section_hint first.section_hint in
    if any (λ pm. not (normalize_section_hint pm.section_hint == section)) more
    then "*"
    else section

unfoldable pub superseded_section : InstrumentRef → List LinkedInstrument → String
unfolding past_section
superseded_section ref past_matches =
    if normalize_section_hint ref.section_hint == "*"
    then past_section past_matches
    else normalize_section_hint ref.section_hint

abbrev supersede : Option LinkedInstrument → VRefResolution → VRefResolution
supersede none res = res
supersede (some child) res = record res {
  historical = true;
  match_method = "superseded_past_v";
  superseded_by = child.gii_slug;
}

abbrev is_nil : List LinkedInstrument → Bool
is_nil [] = true
is_nil (x ∷ xs) = false

module _ (confirmed : String → Bool) (current past : List LinkedInstrument)
    (stands : ChildStands) where
  -- The current sibling of a section whose slug is confirmed.
  unfoldable pub confirmed_sibling : String → Option LinkedInstrument
  confirmed_sibling section =
      find_first
        (λ child. normalize_section_hint child.section_hint == section && confirmed child.gii_slug)
        current

  unfoldable pub supersede_ref : VRefResolution → VRefResolution
  unfolding superseded_section confirmed_sibling
  supersede_ref res =
      let past_matches = match_children_by_identity res.ref past stands in
      let section = superseded_section res.ref past_matches in
      let superseded = supersede (confirmed_sibling section) res in
      if res.historical
      then res
      else if res.resolved && res.child_confirmed
      then res
      else if not (res.matched_gii_slug == "")
      then res
      else if not (is_kind_v res.ref)
      then res
      else if is_nil past_matches
      then res
      else if section == "*"
      then res
      else superseded

unfoldable pub mark_superseded_past_kind_v :
    List VRefResolution → List LinkedInstrument → ChildStands → List VRefResolution
unfolding supersede_ref is_confirmed_slug
mark_superseded_past_kind_v resolutions annotated stands =
    map
      (supersede_ref (is_confirmed_slug resolutions) (keep is_current_candidate annotated)
        (keep is_past annotated) stands)
      resolutions

-- The zero `StandCitation`, which a missing Stand is.
abbrev pub no_stand : StandCitation
no_stand = record {
  law_id = "";
  raw = "";
  teil = 0;
  year = 0;
  number = "";
  page = "";
  date = none;
  instrument_kind = "";
  parse_ok = false;
  parse_notes = "";
}

abbrev pub stand_or_none : Option StandCitation → StandCitation
stand_or_none none = no_stand
stand_or_none (some stand) = stand

-- `issues` and `classes` of the links; a later link's class stands in front.
pub record Linked : Type 0 where
  pub issues : List GazetteIssue
  pub classes : List (String × String)

abbrev add_issue : Option GazetteIssue → List GazetteIssue → List GazetteIssue
add_issue none issues = issues
add_issue (some iss) issues = issues ++ iss ∷ []

unfoldable pub read_links : MetaStandIssueStore → Linked → List IssueLawLink → Linked
read_links st acc [] = acc
read_links st acc (l ∷ links) =
    read_links st
      (record {
        issues = add_issue (st.get_issue l.issue_id) acc.issues;
        classes = (l.issue_id, l.class) ∷ acc.classes;
      })
      links

abbrev pub no_links : Linked
no_links = record { issues = []; classes = [] }

-- The links of a child and whether reading them failed.
abbrev child_links : MetaStandIssueStore → Bool → Option (List IssueLawLink) → Linked × Bool
child_links st failed none = (no_links, true)
child_links st failed (some links) = (read_links st no_links links, failed)

abbrev reader_links : MetaStandIssueStore → Bool → LinksReader → String → Linked × Bool
reader_links st failed none id = (no_links, failed)
reader_links st failed (some reader) id = child_links st failed (reader id)

-- What a child is evaluated on: a leaf, with no seeds and no resolutions.
unfoldable pub leaf_input :
    MetaStandIssueStore → LinksReader → (child_id : String) → VRefProofContext → Input
unfolding read_links
leaf_input st links child_id ctx =
    let stand = stand_or_none (st.get_stand child_id) in
    let (linked, failed) = reader_links st ctx.links_read_failed links child_id in
    let (refs, issues) = collect_evidence st [] child_id stand in
    record {
      law_id = child_id;
      stand = stand;
      linked_issues = linked.issues;
      link_classes = linked.classes;
      instrument_refs = refs;
      instrument_issues = issues;
      has_seeded_linked_instruments = false;
      vref_resolutions = none;
      links_read_failed = failed;
      last_toc_success = ctx.last_toc_success;
      last_gii_feed_success = ctx.last_gii_feed_success;
      last_bgbl_success = ctx.last_bgbl_success;
      bgbl_from_probe_only = ctx.bgbl_from_probe_only;
      now = ctx.now;
      max_age = ctx.max_age;
    }

-- `clock` is what `time.Now()` answers inside `Evaluate`.
unfoldable pub evaluate_leaf_child_freshness :
    Instant → MetaStandIssueStore → LinksReader → (child_slug : String) → VRefProofContext → String
evaluate_leaf_child_freshness clock st links child_slug ctx =
    let state = (evaluate clock (leaf_input st links (key child_slug) ctx)).state in
    if key child_slug == "" then uncertain else state

unfoldable pub prove_vref_resolutions :
    Instant
    → List InstrumentRef
    → List LinkedInstrument
    → StandCitation
    → MetaStandIssueStore
    → BgblIndexLookup
    → LinksReader
    → VRefProofContext
    → List VRefResolution
prove_vref_resolutions clock refs annotated parent_stand st index links ctx =
    let stands = build_child_stands annotated st in
    let raw = resolve_operative_vrefs refs annotated stands index parent_stand in
    let proven =
      apply_child_freshness_proof raw
        (λ slug. evaluate_leaf_child_freshness clock st links slug ctx) in
    mark_superseded_past_kind_v proven annotated stands
