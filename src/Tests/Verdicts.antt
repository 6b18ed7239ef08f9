-- ===== src/Tests/Verdicts.antt =====
-- Verdicts on the law "xg".
use gesetzeswache.Prelude.{
  ◌≡◌, ◌≢◌, ◌↔◌, refl, false, none, [], ◌∷◌, Memᴰ, arith, Distinct, any, pos,
}
use gesetzeswache.Domain.{GazetteIssue, confirmed_current, confirmed_stale}
use gesetzeswache.Freshness.Evidence.{or_default_age}
use gesetzeswache.Freshness.Evidence.Laws.{IsRecent}
use gesetzeswache.Freshness.Issues.Newer.{IsNewer}
use gesetzeswache.Freshness.Eval.{Input, evaluate, unresolved_instrument_refs}
use gesetzeswache.Freshness.Eval.Open.{NothingOpen, unresolved-none_iff}
use gesetzeswache.Freshness.Eval.Gates.{PassesGates}
use gesetzeswache.Freshness.Eval.Verdict.{
  IsProvenCurrent, evaluate-current_iff, evaluate-stale_iff, evaluate-newer_issue_ids,
}
use gesetzeswache.Freshness.Unresolved.{collect_unresolved_refs}
use gesetzeswache.Freshness.Unresolved.Agree.{is_blocking, collect-unresolved_iff}
use gesetzeswache.Tests.Data.{now, parent_stand, ref_v, newer_issue, input_of, default_age-small}

abbrev quiet : Input
quiet = input_of []

abbrev overtaken : Input
overtaken = input_of (newer_issue ∷ [])

now-IsRecent : IsRecent now now (or_default_age (pos 0))
now-IsRecent = record { stamped = omega arith; not_future = omega arith; young = omega arith }

overtaken-PassesGates : PassesGates now overtaken
overtaken-PassesGates = record {
  synced = record { toc = now-IsRecent; gii_feed = now-IsRecent; bgbl = now-IsRecent };
  from_feed = refl;
  links_read = refl;
}

evaluate-current_example :
    ((evaluate now quiet).state ≡ confirmed_current) ↔ IsProvenCurrent now quiet
evaluate-current_example = evaluate-current_iff now quiet default_age-small

evaluate-stale_example : ((evaluate now overtaken).state ≡ confirmed_stale) ↔ (
    PassesGates now overtaken
    × ((iss : GazetteIssue) × IsNewer parent_stand (ref_v ∷ []) (newer_issue ∷ []) [] iss
        × (iss.id ≢ "")))
evaluate-stale_example = evaluate-stale_iff now overtaken default_age-small

evaluate-newer_issue_ids_example :
    Distinct (evaluate now overtaken).newer_issue_ids
    × (Memᴰ newer_issue.id (evaluate now overtaken).newer_issue_ids ↔ (
        (newer_issue.id ≢ "")
        × ((iss : GazetteIssue) × IsNewer parent_stand (ref_v ∷ []) (newer_issue ∷ []) [] iss
            × (iss.id ≡ newer_issue.id))))
evaluate-newer_issue_ids_example =
    evaluate-newer_issue_ids now overtaken newer_issue.id default_age-small overtaken-PassesGates

unresolved-none_example :
    (unresolved_instrument_refs quiet ≡ none) ↔ NothingOpen quiet quiet.vref_resolutions
unresolved-none_example = unresolved-none_iff quiet

collect-unresolved_example :
    (any (λ u. is_blocking u.classification) (collect_unresolved_refs quiet) ≡ false)
    ↔ (unresolved_instrument_refs quiet ≡ none)
collect-unresolved_example = collect-unresolved_iff quiet
