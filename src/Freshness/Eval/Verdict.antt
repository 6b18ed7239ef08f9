-- ===== src/Freshness/Eval/Verdict.antt =====
-- What each verdict of `Evaluate` proves.
use gesetzeswache.Prelude.{
  ◌≡◌, ◌≢◌, ◌↔◌, ◌⊎◌, ◌<◌, inl, inr, refl, sym, ◌∙◌, ap, String, true, false, List, [], ◌∷◌, Memᴰ,
  none, arith, eq_iff, Bool-cases, Option-cases, List-cases, pos_part, Distinct,
}
use gesetzeswache.Time.{Instant, max_duration}
use gesetzeswache.Domain.{
  GazetteIssue, FreshnessRecord, confirmed_current, confirmed_stale, uncertain,
}
use gesetzeswache.Freshness.Evidence.{or_default_age}
use gesetzeswache.Freshness.Issues.{only_heuristic_links}
use gesetzeswache.Freshness.Issues.Newer.{
  IsNewer, newer_ids-mem_iff, newer_ids-eq-nil_iff, newer_ids-Distinct,
}
use gesetzeswache.Freshness.Eval.{
  Input, unresolved_instrument_refs, initial_record, be_uncertain, settle, judge, evaluate,
}
use gesetzeswache.Freshness.Eval.Open.{NothingOpen, unresolved-none_iff}
use gesetzeswache.Freshness.Eval.Gates.{PassesGates, collected, evaluate-gates}

pub stale-ne-current : confirmed_stale ≢ confirmed_current
stale-ne-current = ground (arith, eq_iff confirmed_stale confirmed_current)

pub uncertain-ne-current : uncertain ≢ confirmed_current
uncertain-ne-current = ground (arith, eq_iff uncertain confirmed_current)

pub uncertain-ne-stale : uncertain ≢ confirmed_stale
uncertain-ne-stale = ground (arith, eq_iff uncertain confirmed_stale)

module _ (in_ : Input) (rec : FreshnessRecord) where
  judge-stale :
      (s : String) (more : List String)
      → ((judge in_ (s ∷ more) rec).state ≡ confirmed_stale)
        × ((judge in_ (s ∷ more) rec).newer_issue_ids ≡ s ∷ more)
  unfolding judge
  judge-stale s more = (ground arith, ground arith)

  judge-unparsed :
      in_.stand.parse_ok ≡ false
      → judge in_ [] rec ≡ be_uncertain rec "low" "stand_unparsed_or_missing"
  unfolding judge
  judge-unparsed e = rw e (ground arith)

  judge-parsed :
      in_.stand.parse_ok ≡ true
      → judge in_ [] rec
        ≡ settle
            (unresolved_instrument_refs in_)
            (only_heuristic_links in_.linked_issues in_.link_classes)
            rec
  unfolding judge
  judge-parsed e = rw e refl

abbrev IsSettled : Input → Type 0
IsSettled in_ = (in_.stand.parse_ok ≡ true) × (unresolved_instrument_refs in_ ≡ none)

-- The verdict of `judge`, by what it was given.
judge-cases :
    (in_ : Input) (newer : List String) (rec : FreshnessRecord)
    → ((newer ≢ [])
        × ((judge in_ newer rec).state ≡ confirmed_stale)
        × ((judge in_ newer rec).newer_issue_ids ≡ newer))
      ⊎ ((newer ≡ [])
          × ((judge in_ newer rec).newer_issue_ids ≡ rec.newer_issue_ids)
          × ((IsSettled in_ × ((judge in_ newer rec).state ≡ confirmed_current))
              ⊎ ((¬ IsSettled in_) × ((judge in_ newer rec).state ≡ uncertain))))
judge-cases in_ (s ∷ more) rec =
    let (st, ids) = judge-stale in_ rec s more in inl (λ e. cc, st, ids)
judge-cases in_ [] rec = elim (Bool-cases in_.stand.parse_ok) [
  | inr e ↦ rw (judge-unparsed in_ rec e) (inr (refl, refl, inr (λ (p, _). cc (p, e), refl)))
  | inl e ↦ elim (Option-cases (unresolved_instrument_refs in_)) [
    | inl none_open ↦
        rw (judge-parsed in_ rec e, none_open) (inr (refl, refl, inl ((e, refl), refl)))
    | inr (why, open_ref) ↦
        rw (judge-parsed in_ rec e, open_ref) (inr (refl, refl, inr (λ (_, q). cc q, refl)))
  ]
]

-- Everything that `confirmed_current` rests on.
pub record IsProvenCurrent (clock : Instant) (in_ : Input) : Type 0 where
  pub gates : PassesGates clock in_
  pub reflected :
      (iss : GazetteIssue)
      → IsNewer in_.stand in_.instrument_refs in_.linked_issues in_.instrument_issues iss
      → iss.id ≡ ""
  pub parsed : in_.stand.parse_ok ≡ true
  pub settled : NothingOpen in_ in_.vref_resolutions

-- A law is confirmed current exactly when every gate is passed, no newer issue with an id is
-- linked or cited, the Stand was parsed, and nothing is left open among its citations. The age, by
-- default six hours, is below the longest duration.
pub evaluate-current_iff :
    (clock : Instant) (in_ : Input)
    → pos_part (or_default_age in_.max_age) < max_duration
    → ((evaluate clock in_).state ≡ confirmed_current) ↔ IsProvenCurrent clock in_
evaluate-current_iff clock in_ small =
    let stand = in_.stand in
    let nil =
      newer_ids-eq-nil_iff in_.stand in_.instrument_refs in_.linked_issues in_.instrument_issues in
    let refs = unresolved-none_iff in_ in
    elim (evaluate-gates clock in_ small) [
      | inr (shut, e) ↦ (λ h. absurd (uncertain-ne-current (sym e ∙ h)), λ p. absurd (shut p.gates))
      | inl (gates, e) ↦ elim (judge-cases in_ (collected in_) (initial_record clock in_)) [
        | inl (some_newer, st, ids) ↦ (
          λ h. absurd (stale-ne-current (sym st ∙ sym (ap (λ r. r.state) e) ∙ h)),
          λ p. absurd (some_newer (nil.1 p.reflected)),
        )
        | inr (none_newer, ids, inl ((parsed, settled), st)) ↦ (
          λ h. record {
            gates = gates;
            reflected = nil.0 none_newer;
            parsed = parsed;
            settled = refs.0 settled;
          },
          λ p. ap (λ r. r.state) e ∙ st,
        )
        | inr (none_newer, ids, inr (missing, st)) ↦ (
          λ h. absurd (uncertain-ne-current (sym st ∙ sym (ap (λ r. r.state) e) ∙ h)),
          λ p. absurd (missing (p.parsed, refs.1 p.settled)),
        )
      ]
    ]

-- A law is confirmed stale exactly when every gate is passed and some newer issue with an id is
-- linked or cited. The age, by default six hours, is below the longest duration.
pub evaluate-stale_iff :
    (clock : Instant) (in_ : Input)
    → pos_part (or_default_age in_.max_age) < max_duration
    → ((evaluate clock in_).state ≡ confirmed_stale) ↔ (
        PassesGates clock in_
        × ((iss : GazetteIssue) × IsNewer in_.stand in_.instrument_refs in_.linked_issues
              in_.instrument_issues iss
            × (iss.id ≢ "")))
evaluate-stale_iff clock in_ small =
    let stand = in_.stand in
    let mem =
      newer_ids-mem_iff in_.stand in_.instrument_refs in_.linked_issues in_.instrument_issues in
    elim (evaluate-gates clock in_ small) [
      | inr (shut, e) ↦
          (λ h. absurd (uncertain-ne-stale (sym e ∙ h)), λ (gates, found). absurd (shut gates))
      | inl (gates, e) ↦ elim (judge-cases in_ (collected in_) (initial_record clock in_)) [
        | inl (some_newer, st, ids) ↦ (
          λ h. (
            gates,
            elim (List-cases (collected in_)) [
              | inl none_newer ↦ absurd (some_newer none_newer)
              | inr (s, more, q) ↦
                  let (ne, (iss, new, same)) = (mem s).0 (rw q (Memᴰ.head refl)) in
                  (iss, new, λ blank. ne (sym same ∙ blank))
            ],
          ),
          λ _. ap (λ r. r.state) e ∙ st,
        )
        | inr (none_newer, ids, rest) ↦
            let found_none : ¬ (
                (iss : GazetteIssue) × IsNewer in_.stand in_.instrument_refs in_.linked_issues
                  in_.instrument_issues iss
                × (iss.id ≢ "")) =
              λ (iss, new, filled).
                elim (rw none_newer at ((mem iss.id).1 (filled, (iss, new, refl)))) [ ] in
            (
              λ h. absurd (not-stale rest (sym (ap (λ r. r.state) e) ∙ h)),
              λ (_, found). absurd (found_none found),
            )
      ]
    ]
  where
    not-stale :
        {A B : Type 0} {st : String}
        → (A × (st ≡ confirmed_current)) ⊎ (B × (st ≡ uncertain))
        → st ≢ confirmed_stale
    not-stale (inl (a, q)) h = stale-ne-current (sym h ∙ q)
    not-stale (inr (b, q)) h = uncertain-ne-stale (sym q ∙ h)

evaluate-ids :
    (clock : Instant) (in_ : Input)
    → pos_part (or_default_age in_.max_age) < max_duration
    → PassesGates clock in_
    → (evaluate clock in_).newer_issue_ids ≡ collected in_
evaluate-ids clock in_ small gates = elim (evaluate-gates clock in_ small) [
  | inr (shut, e) ↦ absurd (shut gates)
  | inl (gates, e) ↦ elim (judge-cases in_ (collected in_) (initial_record clock in_)) [
    | inl (some_newer, st, ids) ↦ ap (λ r. r.newer_issue_ids) e ∙ ids
    | inr (none_newer, ids, rest) ↦ ap (λ r. r.newer_issue_ids) e ∙ ids ∙ sym none_newer
  ]
]

-- Behind the gates, the ids in the record are those of the newer issues, less the empty one, and
-- each stands there once. The age, by default six hours, is below the longest duration.
pub evaluate-newer_issue_ids :
    (clock : Instant) (in_ : Input) (s : String)
    → pos_part (or_default_age in_.max_age) < max_duration
    → PassesGates clock in_
    → Distinct (evaluate clock in_).newer_issue_ids
      × (Memᴰ s (evaluate clock in_).newer_issue_ids ↔ (
          (s ≢ "")
          × ((iss : GazetteIssue) × IsNewer in_.stand in_.instrument_refs in_.linked_issues
                in_.instrument_issues iss
              × (iss.id ≡ s))))
evaluate-newer_issue_ids clock in_ s small gates = rw (evaluate-ids clock in_ small gates) (
  newer_ids-Distinct in_.stand in_.instrument_refs in_.linked_issues in_.instrument_issues,
  newer_ids-mem_iff in_.stand in_.instrument_refs in_.linked_issues in_.instrument_issues s,
)
