-- ===== src/Tests/Served.antt =====
-- The law "xg" as it is served, with its child "xv".
use gesetzeswache.Prelude.{
  ◌≡◌, ◌↔◌, inr, refl, String, true, false, ◌||◌, ◌==◌, Option, none, some, [], ◌∷◌, Memᴰ, pos,
  if◌then◌else◌,
}
use gesetzeswache.Domain.{Law, StandCitation}
use gesetzeswache.Instruments.Evidence.{MetaStandIssueStore, evidence_refs, collect_evidence}
use gesetzeswache.Instruments.VrefProof.{
  LinksReader, VRefProofContext, prove_vref_resolutions, evaluate_leaf_child_freshness,
  apply_child_freshness_proof, mark_superseded_past_kind_v, leaf_input, read_links,
}
use gesetzeswache.Instruments.VrefProof.Settled.{IsBacked, prove_vref-settled}
use gesetzeswache.Instruments.VrefResolve.{
  is_kind_v, child_matches_ref, match_children_by_identity, resolve_operative_vrefs,
  build_child_stands,
}
use gesetzeswache.Freshness.Refs.{
  kind_of, lacks_identity, stand_reflects_ref, is_operative_instrument_ref, find_vref_resolution,
  hint_of,
}
use gesetzeswache.Text.{to_upper, trim_space, equal_fold}
use gesetzeswache.Freshness.Eval.{is_open_ref, unresolved_instrument_refs, evaluate}
use gesetzeswache.Freshness.Eval.Verdict.{IsProvenCurrent}
use gesetzeswache.Service.Links.{StoreOps, linked_instruments_for, ensure_linked_law_stubs}
use gesetzeswache.Service.Freshness.{
  IncludeOpts, Setup, freshness_of, served_input, meta_of, input_for, resolutions_for, response_for,
  read_failed, linked_for, annotated_for, operative_linked, bgbl_now, proof_context, reads,
  links_reader,
}
use gesetzeswache.Service.Freshness.Safe.{
  IsServed, freshness_of-safe_to_serve, freshness_of-children_confirmed,
}
use gesetzeswache.Service.Bundle.{
  BundleMemberExport, OperativeMemberExport, aggregate_bundle_freshness,
}
use gesetzeswache.Service.Bundle.Members.{members_of, IsCurrent}
use gesetzeswache.Service.Bundle.Aggregate.{
  worst_of, rationale_for, aggregate-worst, aggregate-safe_iff,
}
use gesetzeswache.Tests.Data.{
  now, parent_stand, child_stand, ref_v, settled_v, child, default_age-small,
}
use gesetzeswache.Normalize.{key}
use gesetzeswache.Citation.Instruments.{parse_linked_instruments}
use gesetzeswache.Freshness.Issues.{newer_ids}
use gesetzeswache.Freshness.Evidence.{timestamp_fresh, bgbl_evidence, effective_bgbl_feed_time}
use gesetzeswache.Instruments.Gesetz.{
  filter_operative_linked, is_soft_gesetz_fp, child_title, child_law_id,
}
use gesetzeswache.Instruments.Chain.{
  annotate_chain, filter_linked_for_response, normalize_section_hint, parse_effective_date,
}

abbrev pub law_of : String → Law
law_of id = record { id = id; abbreviation = id; title = ""; gii_path = id; gii_url = "" }

abbrev pub stand_for : String → Option StandCitation
stand_for id =
    if id == "xg" then some parent_stand else if id == "xv" then some child_stand else none

abbrev store : StoreOps Unit
store = record {
  laws = record {
    get_law = λ s id. some (some (law_of id));
    upsert_law_if_absent = λ s law. (some false, s);
  };
  list_laws = λ s. some [];
  get_stand = λ s id. stand_for id;
  upsert_stand = λ s stand. s;
  get_issue = λ s id. none;
  get_meta = λ s k. none;
  get_meta_time =
      λ s k. if k == "last_bgbl_feed_degraded" || k == "last_eli_probe_success" then 0 else now;
  links_for_law = λ s id. ([], false);
  discovered_for_parent = λ s id. some [];
  lookup_bgbl_index = λ s teil year number. none;
  put_freshness = λ s rec. s;
}

abbrev pub setup : Setup
setup = record {
  catalog = ("xg", child ∷ []) ∷ [];
  families = none;
  parse_base = λ base. none;
  gii_base = "";
  max_age = pos 0;
  now = now;
  clock = now;
}

abbrev opts : IncludeOpts
opts = record { past = false; linked = false; proof = false }

abbrev reader : LinksReader
reader = some (λ id. some [])

abbrev evidence : MetaStandIssueStore
evidence = record { get_meta = λ k. none; get_stand = stand_for; get_issue = λ id. none }

abbrev context : VRefProofContext
context = record {
  now = now;
  max_age = pos 0;
  last_toc_success = now;
  last_gii_feed_success = now;
  last_bgbl_success = now;
  bgbl_from_probe_only = false;
  links_read_failed = false;
}

xv_proves :
    prove_vref_resolutions now (ref_v ∷ []) (child ∷ []) parent_stand evidence none reader context
    ≡ settled_v ∷ []
unfolding key parse_linked_instruments child_matches_ref match_children_by_identity
    resolve_operative_vrefs build_child_stands evidence_refs collect_evidence
    apply_child_freshness_proof mark_superseded_past_kind_v leaf_input evaluate_leaf_child_freshness
    prove_vref_resolutions unresolved_instrument_refs evaluate newer_ids timestamp_fresh kind_of
    lacks_identity
xv_proves = refl

xg_served :
    ((freshness_of store setup (law_of "xg") opts "xg" (parent_stand, tt)).0.safe_to_serve ≡ true)
    × ((served_input store setup opts "xg" parent_stand tt).instrument_refs ≡ ref_v ∷ [])
    × (is_open_ref (served_input store setup opts "xg" parent_stand tt) ref_v ≡ true)
unfolding key parse_linked_instruments child_matches_ref match_children_by_identity
    resolve_operative_vrefs build_child_stands evidence_refs collect_evidence
    apply_child_freshness_proof mark_superseded_past_kind_v leaf_input evaluate_leaf_child_freshness
    prove_vref_resolutions unresolved_instrument_refs evaluate newer_ids timestamp_fresh kind_of
    lacks_identity freshness_of meta_of served_input input_for resolutions_for response_for
    read_failed linked_for annotated_for operative_linked bgbl_now proof_context reads links_reader
    linked_instruments_for ensure_linked_law_stubs read_links bgbl_evidence effective_bgbl_feed_time
    filter_operative_linked annotate_chain filter_linked_for_response is_open_ref is_soft_gesetz_fp
    equal_fold child_title child_law_id stand_reflects_ref is_operative_instrument_ref
    find_vref_resolution normalize_section_hint parse_effective_date hint_of
xg_served = (refl, refl, refl)

pub ref_v-is_kind_v : is_kind_v ref_v ≡ true
unfolding is_kind_v kind_of to_upper trim_space
ref_v-is_kind_v = refl

prove_vref-settled_example :
    IsBacked
      (λ slug. evaluate_leaf_child_freshness now evidence reader slug context)
      (child ∷ [])
      settled_v
prove_vref-settled_example =
    prove_vref-settled now (ref_v ∷ []) (child ∷ []) parent_stand evidence none reader context
      settled_v (rw xv_proves (Memᴰ.head refl)) ref_v-is_kind_v (inr (refl, refl))

freshness_of-safe_example : IsProvenCurrent now (served_input store setup opts "xg" parent_stand tt)
freshness_of-safe_example =
    freshness_of-safe_to_serve store setup (law_of "xg") opts "xg" parent_stand tt default_age-small
      (xg_served.0)

freshness_of-children_example : IsServed store setup opts "xg" tt ref_v
freshness_of-children_example =
    freshness_of-children_confirmed store setup (law_of "xg") opts "xg" parent_stand tt ref_v
      default_age-small (xg_served.0) (rw (xg_served.1) (Memᴰ.head refl)) (xg_served.2)
      ref_v-is_kind_v

abbrev parent_export : BundleMemberExport
parent_export = record { law = some (law_of "xg"); freshness = none }

abbrev unread_export : OperativeMemberExport
unread_export = record { link = child; law = some (law_of "xv"); freshness = none }

aggregate-worst_example :
    ((aggregate_bundle_freshness (some parent_export) (unread_export ∷ [])).members
      ≡ members_of (some parent_export) (unread_export ∷ []))
    × ((aggregate_bundle_freshness (some parent_export) (unread_export ∷ [])).state
        ≡ worst_of (members_of (some parent_export) (unread_export ∷ [])))
    × ((aggregate_bundle_freshness (some parent_export) (unread_export ∷ [])).rationale
        ≡ rationale_for (members_of (some parent_export) (unread_export ∷ [])))
aggregate-worst_example = aggregate-worst (some parent_export) (unread_export ∷ [])

aggregate-safe_example :
    ((aggregate_bundle_freshness (some parent_export) (unread_export ∷ [])).safe_to_serve ≡ true)
    ↔ (((p : BundleMemberExport) → some parent_export ≡ some p → IsCurrent p.freshness)
        × ((op : OperativeMemberExport) → Memᴰ op (unread_export ∷ []) → IsCurrent op.freshness))
aggregate-safe_example = aggregate-safe_iff (some parent_export) (unread_export ∷ [])
