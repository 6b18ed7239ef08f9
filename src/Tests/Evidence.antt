-- ===== src/Tests/Evidence.antt =====
-- Evidence, chains and families at concrete inputs.
use gesetzeswache.Prelude.{
  ◌≡◌, refl, String, true, ◌==◌, none, some, [], ◌∷◌, Memᴰ, arith, eq_iff, map, any, if◌then◌else◌,
}
use gesetzeswache.Text.{has_prefix, itoa}
use gesetzeswache.Citation.{issue_id}
use gesetzeswache.Citation.Instruments.{parse_linked_instruments}
use gesetzeswache.Discovery.Merge.{filter_discovered_by_family_prefixes}
use gesetzeswache.Discovery.Merge.Families.{filter_discovered-kept}
use gesetzeswache.Instruments.Chain.{annotate_chain}
use gesetzeswache.Instruments.Chain.Kept.{unlabelled, annotate_chain-unlabelled}
use gesetzeswache.Instruments.Evidence.{MetaStandIssueStore, collect_evidence, evidence_refs}
use gesetzeswache.Instruments.Evidence.Issues.{collect_evidence_complete}
use gesetzeswache.Tests.Data.{now, parent_stand, ref_v, child, newer_issue}

abbrev gazette : MetaStandIssueStore
gazette = record {
  get_meta = λ k. none;
  get_stand = λ id. none;
  get_issue = λ id. if id == "BGBl-1/2025/268" then some newer_issue else none;
}

xg_evidence : collect_evidence gazette [] "xg" parent_stand ≡ (ref_v ∷ [], newer_issue ∷ [])
unfolding collect_evidence evidence_refs parse_linked_instruments issue_id
xg_evidence = refl

ref_v-stored : gazette.get_issue (issue_id ref_v.teil ref_v.year ref_v.number) ≡ some newer_issue
unfolding issue_id itoa
ref_v-stored = refl

collect_evidence_complete_example :
    any (λ i. i.id == newer_issue.id) ((collect_evidence gazette [] "xg" parent_stand).1) ≡ true
collect_evidence_complete_example =
    collect_evidence_complete gazette [] "xg" parent_stand ref_v newer_issue
      (rw xg_evidence (Memᴰ.head refl)) (omega arith) (ground (arith, eq_iff "268" "")) ref_v-stored

annotate_chain-unlabelled_example :
    map unlabelled (annotate_chain (child ∷ []) now) ≡ map unlabelled (child ∷ [])
annotate_chain-unlabelled_example = annotate_chain-unlabelled (child ∷ []) now

abbrev family : String
family = "xv"

filter_discovered-kept_example : any (λ k. k == "xv") ("xv" ∷ []) ≡ true
unfolding filter_discovered_by_family_prefixes has_prefix
filter_discovered-kept_example =
    filter_discovered-kept (child ∷ []) (family ∷ []) ("xv" ∷ []) child family (Memᴰ.head refl)
      (Memᴰ.head refl) (ground (arith, eq_iff family "")) refl
