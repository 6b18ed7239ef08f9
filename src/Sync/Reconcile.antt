-- ===== src/Sync/Reconcile.antt =====
-- internal/sync/orchestrator.go: `Reconcile`, which writes the verdict on each law, and the heuristic
-- links that it makes before. The network, the log and the search behind a title are left to the
-- caller.
pub mod Kept
pub mod Judged
pub mod Children
use gesetzeswache.Prelude.{
  ℕ, suc, String, Bool, true, false, ◌&&◌, ◌||◌, ◌==◌, Option, none, some, List, [], ◌∷◌, ◌++◌, map,
  any, if◌then◌else◌, ltb_ℤ,
}
use gesetzeswache.Text.{trim_space}
use gesetzeswache.Time.{Instant, Duration, sub}
use gesetzeswache.Domain.{
  Law, LinkedInstrument, DiscoveredEdge, StandCitation, GazetteIssue, IssueLawLink, VRefResolution,
  link_heuristic,
}
use gesetzeswache.Freshness.Evidence.{bgbl_evidence, effective_bgbl_feed_time}
use gesetzeswache.Freshness.Eval.{Input, evaluate}
use gesetzeswache.Discovery.Merge.{edge_to_linked, merge}
use gesetzeswache.Instruments.Gesetz.{filter_operative_linked}
use gesetzeswache.Instruments.Chain.{annotate_chain}
use gesetzeswache.Instruments.Evidence.{collect_evidence}
use gesetzeswache.Instruments.Family.{FamilyCatalog, expand_for_parent}
use gesetzeswache.Instruments.Ensure.{ensure_law_from_slug}
use gesetzeswache.Instruments.VrefProof.{
  VRefProofContext, read_links, no_links, stand_or_none, prove_vref_resolutions,
}
use gesetzeswache.Service.Links.{
  StoreOps, Linked, without_families, catalog_for_parent, repair_stand_if_needed,
}
use gesetzeswache.Service.Freshness.{Setup, reads, links_reader, or_missing}

-- The operations of the store that the job needs besides those of the service. `discovered_rows`
-- answers the edges that were read and whether the read failed.
pub record SyncOps (S : Type 0) : Type 0 where
  pub store : StoreOps S
  pub discovered_rows : S → (parent : String) → List DiscoveredEdge × Bool
  pub list_issues : S → List GazetteIssue
  pub upsert_link : S → IssueLawLink → S
  pub upsert_issue : S → GazetteIssue → S
  pub set_meta_time : S → (key : String) → Instant → S

-- The configuration of heuristic links; `law_for` is the law that the search finds for a title, and
-- none where there is no snapshot.
pub record Heuristics : Type 0 where
  pub enabled : Bool
  pub grace : Duration
  pub law_for : Option (String → Option String)

-- What one run reads before its loop.
pub record Pass : Type 0 where
  pub laws : List Law
  pub toc : Instant
  pub gii : Instant
  pub bgbl : Instant
  pub probe_only : Bool

abbrev pub rows_by :
    Option FamilyCatalog
    → (law_id : String) → (seeded expanded : List LinkedInstrument) → List DiscoveredEdge
    → List LinkedInstrument
unfolding merge edge_to_linked
rows_by families law_id seeded expanded edges =
    merge (seeded ++ expanded)
      (without_families families law_id expanded (map edge_to_linked edges))

abbrev pub expanded_for :
    Option FamilyCatalog → (law_id : String) → List Law → List LinkedInstrument
unfolding expand_for_parent
expanded_for none law_id laws = []
expanded_for (some families) law_id laws = expand_for_parent (some families) law_id laws

module _ {S : Type 0} (ops : SyncOps S) (setup : Setup) (heuristics : Heuristics) where
  abbrev pub linked_by : GazetteIssue → Option String → S → S
  linked_by iss none s = s
  linked_by iss (some law_id) s =
      ops.upsert_issue
        (ops.upsert_link s (record {
          issue_id = iss.id;
          law_id = law_id;
          class = link_heuristic;
          created_at = setup.now;
        }))
        (record iss { matched = true })

  -- The loop over the issues: matched ones and those within the grace are passed over.
  unfoldable pub heuristic_links : (law_for : String → Option String) → List GazetteIssue → S → S
  heuristic_links law_for [] s = s
  heuristic_links law_for (iss ∷ issues) s =
      let skipped = heuristic_links law_for issues s in
      let linked = heuristic_links law_for issues (linked_by iss (law_for iss.title) s) in
      if iss.matched
      then skipped
      else if ltb_ℤ (sub setup.now iss.first_seen_at) heuristics.grace
      then skipped
      else linked

  abbrev pub with_snapshot : Option (String → Option String) → S → S
  unfolding heuristic_links
  with_snapshot none s = s
  with_snapshot (some law_for) s = heuristic_links law_for (ops.list_issues s) s

  -- `heuristicLink`
  unfoldable pub heuristic_link : S → S
  unfolding heuristic_links
  heuristic_link s = with_snapshot heuristics.law_for s

  -- The times of the last successes, read once.
  unfoldable pub pass_of : S → List Law → Pass
  unfolding effective_bgbl_feed_time bgbl_evidence
  pass_of s laws =
      let feed =
        effective_bgbl_feed_time (ops.store.get_meta_time s "last_bgbl_feed_success")
          (ops.store.get_meta_time s "last_bgbl_feed_degraded") in
      let (bgbl, probe_only) =
        bgbl_evidence feed (ops.store.get_meta_time s "last_eli_probe_success") setup.now
          setup.max_age in
      record {
        laws = laws;
        toc = ops.store.get_meta_time s "last_toc_success";
        gii = ops.store.get_meta_time s "last_gii_feed_success";
        bgbl = bgbl;
        probe_only = probe_only;
      }

  -- The rows of a law that count as ordinances.
  unfoldable pub operative_in : Pass → S → (law_id : String) → List LinkedInstrument
  operative_in p s law_id =
      filter_operative_linked (some (λ id. or_missing (ops.store.laws.get_law s id))) (
        rows_by setup.families law_id (catalog_for_parent setup.catalog law_id)
          (expanded_for setup.families law_id p.laws) ((ops.discovered_rows s law_id).0))

  unfoldable pub law_failed : S → (law_id : String) → Bool
  law_failed s law_id = (ops.store.links_for_law s law_id).1 || (ops.discovered_rows s law_id).1

  unfoldable pub pass_context : Pass → (read_failed : Bool) → VRefProofContext
  pass_context p read_failed = record {
    now = setup.now;
    max_age = setup.max_age;
    last_toc_success = p.toc;
    last_gii_feed_success = p.gii;
    last_bgbl_success = p.bgbl;
    bgbl_from_probe_only = p.probe_only;
    links_read_failed = read_failed;
  }

  unfoldable pub annotated_in : Pass → S → (law_id : String) → List LinkedInstrument
  annotated_in p s law_id = annotate_chain (operative_in p s law_id) setup.now

  -- `s` is the state behind the repair of the Stand, `s₁` the one with the stubs, in which the
  -- children are proved.
  unfoldable pub proved_in :
      Pass → (s s₁ : S) → (law_id : String) → StandCitation → List VRefResolution
  proved_in p s s₁ law_id stand =
      prove_vref_resolutions setup.clock
        ((collect_evidence (reads ops.store setup s) (operative_in p s law_id) law_id stand).0)
        (annotated_in p s law_id) stand (reads ops.store setup s₁)
        (some (λ teil year number. ops.store.lookup_bgbl_index s₁ teil year number))
        (links_reader ops.store setup s₁) (pass_context p (law_failed s law_id))

  unfoldable pub reconciled_input : Pass → (s s₁ : S) → (law_id : String) → StandCitation → Input
  reconciled_input p s s₁ law_id stand =
      let linked =
        read_links (reads ops.store setup s) no_links ((ops.store.links_for_law s law_id).0) in
      let (refs, issues) =
        collect_evidence (reads ops.store setup s) (operative_in p s law_id) law_id stand in
      record {
        law_id = law_id;
        stand = stand;
        linked_issues = linked.issues;
        link_classes = linked.classes;
        instrument_refs = refs;
        instrument_issues = issues;
        has_seeded_linked_instruments =
            any (λ li. true) (operative_in p s law_id) || (ops.discovered_rows s law_id).1;
        vref_resolutions = some (proved_in p s s₁ law_id stand);
        links_read_failed = law_failed s law_id;
        last_toc_success = p.toc;
        last_gii_feed_success = p.gii;
        last_bgbl_success = p.bgbl;
        bgbl_from_probe_only = p.probe_only;
        now = setup.now;
        max_age = setup.max_age;
      }

  -- The loop over the annotated rows: a stub for each slug.
  unfoldable pub ensure_rows : List LinkedInstrument → S → S
  unfolding ensure_law_from_slug
  ensure_rows [] s = s
  ensure_rows (li ∷ rows) s =
      let slug = trim_space li.gii_slug in
      let skipped = ensure_rows rows s in
      let made =
        ensure_rows rows
          ((ensure_law_from_slug ops.store.laws setup.parse_base setup.gii_base s slug).1) in
      if slug == "" then skipped else made

  -- A law behind the repair of its Stand: the stubs, then the verdict.
  unfoldable pub judged : Pass → (law_id : String) → StandCitation × S → S
  judged p law_id (stand, s) =
      let s₁ = ensure_rows (annotated_in p s law_id) s in
      ops.store.put_freshness s₁ (evaluate setup.clock (reconciled_input p s s₁ law_id stand))

  unfoldable pub reconcile_law : Pass → Law → S → S
  reconcile_law p law s =
      judged p law.id
        (repair_stand_if_needed ops.store s law.id (stand_or_none (ops.store.get_stand s law.id)))

  -- The loop over the laws. `expired n` says whether the context has ended before the law at place
  -- `n`; the Boolean answers whether `Reconcile` returns an error.
  unfoldable pub reconcile_laws : (expired : ℕ → Bool) → ℕ → Pass → List Law → S → Bool × S
  reconcile_laws expired n p [] s = (false, ops.set_meta_time s "last_reconcile_at" setup.now)
  reconcile_laws expired n p (law ∷ laws) s =
      let rest = reconcile_laws expired (suc n) p laws (reconcile_law p law s) in
      if expired n then (true, s) else rest

  abbrev pub with_listed : (expired : ℕ → Bool) → (before : S) → Option (List Law) → S → Bool × S
  unfolding reconcile_laws pass_of
  with_listed expired before none s = (true, s)
  with_listed expired before (some laws) s = reconcile_laws expired 0 (pass_of before laws) laws s

  -- `Reconcile`
  unfoldable pub reconcile : (expired : ℕ → Bool) → S → Bool × S
  unfolding reconcile_laws pass_of heuristic_link
  reconcile expired s =
      let s₁ = if heuristics.enabled then heuristic_link s else s in
      with_listed expired s (ops.store.list_laws s₁) s₁
