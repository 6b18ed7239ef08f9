-- ===== src/Tests/Reconciled.antt =====
-- A run over the law "xg", whose child "xv" is confirmed.
use gesetzeswache.Prelude.{
  ◌≡◌, ◌⊎◌, inl, inr, refl, String, true, false, ◌||◌, ◌==◌, Option, none, some, [], ◌∷◌, Memᴰ,
  Bool-cases, eq_iff, if◌then◌else◌, pos,
}
use gesetzeswache.Text.{equal_fold}
use gesetzeswache.Normalize.{key}
use gesetzeswache.Domain.{FreshnessRecord, confirmed_current, method_feeds}
use gesetzeswache.Citation.Instruments.{parse_linked_instruments}
use gesetzeswache.Discovery.Merge.{merge, edge_to_linked, filter_discovered_by_family_prefixes}
use gesetzeswache.Freshness.Evidence.{timestamp_fresh, bgbl_evidence, effective_bgbl_feed_time}
use gesetzeswache.Freshness.Issues.{newer_ids, only_heuristic_links}
use gesetzeswache.Freshness.Refs.{
  kind_of, lacks_identity, stand_reflects_ref, is_operative_instrument_ref, find_vref_resolution,
  hint_of,
}
use gesetzeswache.Freshness.Eval.{is_open_ref, unresolved_instrument_refs, evaluate}
use gesetzeswache.Instruments.Gesetz.{
  filter_operative_linked, is_soft_gesetz_fp, child_title, child_law_id,
}
use gesetzeswache.Instruments.Chain.{annotate_chain, normalize_section_hint, parse_effective_date}
use gesetzeswache.Instruments.Family.{expand_for_parent, for_parent}
use gesetzeswache.Instruments.Ensure.{ensure_law_from_slug}
use gesetzeswache.Instruments.Evidence.{evidence_refs, collect_evidence}
use gesetzeswache.Instruments.VrefResolve.{
  child_matches_ref, match_children_by_identity, resolve_operative_vrefs, build_child_stands,
}
use gesetzeswache.Instruments.VrefProof.{
  prove_vref_resolutions, evaluate_leaf_child_freshness, apply_child_freshness_proof,
  mark_superseded_past_kind_v, leaf_input, read_links,
}
use gesetzeswache.Service.Links.{StoreOps, catalog_for_parent, repair_stand_if_needed}
use gesetzeswache.Service.Freshness.{reads, links_reader}
use gesetzeswache.Sync.Reconcile.{
  SyncOps, Heuristics, Pass, pass_of, operative_in, law_failed, pass_context, annotated_in,
  proved_in, reconciled_input, ensure_rows, judged, reconcile_law, reconcile_laws, reconcile,
}
use gesetzeswache.Sync.Reconcile.Kept.{VerdictLaws}
use gesetzeswache.Sync.Reconcile.Judged.{IsJudgedIn, linked_first, reconcile-IsJudged}
use gesetzeswache.Sync.Reconcile.Children.{IsProvedIn, reconciled-children_confirmed}
use gesetzeswache.Tests.Data.{now, parent_stand, ref_v, default_age-small}
use gesetzeswache.Tests.Served.{law_of, stand_for, setup, ref_v-is_kind_v}

-- The verdicts as a function; the rest of the store does not change.
abbrev Verdicts : Type 0
Verdicts = String → Option FreshnessRecord

abbrev store : StoreOps Verdicts
store = record {
  laws = record {
    get_law = λ s id. some (some (law_of id));
    upsert_law_if_absent = λ s law. (some false, s);
  };
  list_laws = λ s. some (law_of "xg" ∷ []);
  get_stand = λ s id. stand_for id;
  upsert_stand = λ s stand. s;
  get_issue = λ s id. none;
  get_meta = λ s k. none;
  get_meta_time =
      λ s k. if k == "last_bgbl_feed_degraded" || k == "last_eli_probe_success" then 0 else now;
  links_for_law = λ s id. ([], false);
  discovered_for_parent = λ s id. some [];
  lookup_bgbl_index = λ s teil year number. none;
  put_freshness = λ s rec id. if rec.law_id == id then some rec else s id;
}

abbrev ops : SyncOps Verdicts
ops = record {
  store = store;
  discovered_rows = λ s id. ([], false);
  list_issues = λ s. [];
  upsert_link = λ s link. s;
  upsert_issue = λ s iss. s;
  set_meta_time = λ s k t. s;
}

abbrev heuristics : Heuristics
heuristics = record { enabled = false; grace = pos 0; law_for = none }

abbrev verdict : Verdicts → String → Option FreshnessRecord
verdict s id = s id

put_verdict :
    (s : Verdicts) (r : FreshnessRecord) (id : String)
    → ((if r.law_id == id then some r else s id) ≡ s id)
      ⊎ ((r.law_id ≡ id) × ((if r.law_id == id then some r else s id) ≡ some r))
put_verdict s r id = elim (Bool-cases (r.law_id == id)) [
  | inl e ↦ inr ((eq_iff r.law_id id).0 e, rw e refl)
  | inr e ↦ inl (rw e refl)
]

laws : VerdictLaws ops verdict
laws = record {
  put = put_verdict;
  keeps_stand = λ s c id. refl;
  keeps_law = λ s law id. refl;
  keeps_link = λ s l id. refl;
  keeps_issue = λ s iss id. refl;
  keeps_time = λ s k t id. refl;
}

abbrev before : Verdicts
before id = none

abbrev xg_verdict : FreshnessRecord
xg_verdict = record {
  law_id = "xg";
  state = confirmed_current;
  confidence = "high";
  method = method_feeds;
  evaluated_at = now;
  newer_issue_ids = [];
  rationale = "no newer linked gazette issue beyond Stand";
}

xg_reconciled :
    verdict ((reconcile ops setup heuristics (λ n. false) before).1) "xg" ≡ some xg_verdict
unfolding key parse_linked_instruments child_matches_ref match_children_by_identity
    resolve_operative_vrefs build_child_stands evidence_refs collect_evidence
    apply_child_freshness_proof mark_superseded_past_kind_v leaf_input evaluate_leaf_child_freshness
    prove_vref_resolutions unresolved_instrument_refs evaluate newer_ids timestamp_fresh kind_of
    lacks_identity reads links_reader read_links bgbl_evidence effective_bgbl_feed_time
    filter_operative_linked annotate_chain is_open_ref is_soft_gesetz_fp equal_fold child_title
    child_law_id stand_reflects_ref is_operative_instrument_ref find_vref_resolution
    normalize_section_hint parse_effective_date hint_of merge edge_to_linked catalog_for_parent
    expand_for_parent for_parent filter_discovered_by_family_prefixes repair_stand_if_needed
    ensure_law_from_slug pass_of operative_in law_failed pass_context annotated_in proved_in
    reconciled_input ensure_rows judged reconcile_law reconcile_laws reconcile only_heuristic_links
xg_reconciled = refl

reconcile-IsJudged_example :
    (verdict before "xg" ≡ some xg_verdict)
    ⊎ IsJudgedIn ops setup heuristics before
        (store.list_laws (linked_first ops setup heuristics before))
        (linked_first ops setup heuristics before)
        "xg"
        xg_verdict
reconcile-IsJudged_example =
    reconcile-IsJudged ops setup heuristics verdict laws (λ n. false) before "xg" xg_verdict
      xg_reconciled

abbrev pass : Pass
pass = record { laws = law_of "xg" ∷ []; toc = now; gii = now; bgbl = now; probe_only = false }

xg_judged :
    ((evaluate setup.clock
        (reconciled_input ops setup heuristics pass before before "xg" parent_stand)).state
      ≡ confirmed_current)
    × ((reconciled_input ops setup heuristics pass before before "xg" parent_stand).instrument_refs
        ≡ ref_v ∷ [])
    × (is_open_ref
          (reconciled_input ops setup heuristics pass before before "xg" parent_stand)
          ref_v
        ≡ true)
unfolding key parse_linked_instruments child_matches_ref match_children_by_identity
    resolve_operative_vrefs build_child_stands evidence_refs collect_evidence
    apply_child_freshness_proof mark_superseded_past_kind_v leaf_input evaluate_leaf_child_freshness
    prove_vref_resolutions unresolved_instrument_refs evaluate newer_ids timestamp_fresh kind_of
    lacks_identity reads links_reader read_links bgbl_evidence effective_bgbl_feed_time
    filter_operative_linked annotate_chain is_open_ref is_soft_gesetz_fp equal_fold child_title
    child_law_id stand_reflects_ref is_operative_instrument_ref find_vref_resolution
    normalize_section_hint parse_effective_date hint_of merge edge_to_linked catalog_for_parent
    expand_for_parent for_parent filter_discovered_by_family_prefixes repair_stand_if_needed
    ensure_law_from_slug pass_of operative_in law_failed pass_context annotated_in proved_in
    reconciled_input ensure_rows judged reconcile_law reconcile_laws
xg_judged = (refl, refl, refl)

reconciled-children_example : IsProvedIn ops setup heuristics pass before before "xg" ref_v
reconciled-children_example =
    reconciled-children_confirmed ops setup heuristics pass before before "xg" parent_stand ref_v
      default_age-small (xg_judged.0) (rw (xg_judged.1) (Memᴰ.head refl)) (xg_judged.2)
      ref_v-is_kind_v
