-- ===== src/Freshness/Issues/Newer.antt =====
-- Which issue ids `Evaluate` collects as newer than the Stand.
use mathlib.Core.List.Memᴰ
use mathlib.Core.Bool.{and-eq-true_iff}
use gesetzeswache.Prelude.{
  ◌≡◌, ◌≢◌, ◌↔◌, ◌⊎◌, inl, inr, refl, sym, ◌∙◌, String, true, false, List, [], ◌++◌, map, Memᴰ,
  arith, any_witness, any-true_of_mem, keep-mem, mem-keep, List-cases, Distinct, ◌==◌, eq_iff,
  Bool-cases,
}
use gesetzeswache.Domain.{InstrumentRef, StandCitation, GazetteIssue}
use gesetzeswache.Freshness.Refs.{
  issue_matches_instrument_ref, is_stale_relevant_instrument_ref,
  instrument_issue_is_stale_relevant,
}
use gesetzeswache.Freshness.Issues.{
  is_bare_bekanntmachung_issue, issue_newer_than_stand, newer_linked, newer_instrument, newer_ids,
}
use gesetzeswache.Freshness.Issues.Unique.{unique_strings-mem_iff, unique_strings-Distinct}

module _ (stand : StandCitation) (refs : List InstrumentRef)
    (linked instrument : List GazetteIssue) where
  -- A linked issue, no bare Bekanntmachung, that is newer than the Stand.
  pub record IsNewerLinked (iss : GazetteIssue) : Type 0 where
    pub listed : Memᴰ iss linked
    pub not_bare : is_bare_bekanntmachung_issue iss ≡ false
    pub newer : issue_newer_than_stand iss stand ≡ true

  -- An issue that a stale-relevant citation names, newer than the Stand.
  pub record IsNewerInstrument (iss : GazetteIssue) : Type 0 where
    pub listed : Memᴰ iss instrument
    pub ref : InstrumentRef
    pub cited : Memᴰ ref refs
    pub matched : issue_matches_instrument_ref iss ref ≡ true
    pub relevant : is_stale_relevant_instrument_ref ref ≡ true
    pub newer : issue_newer_than_stand iss stand ≡ true

  abbrev pub IsNewer : GazetteIssue → Type 0
  IsNewer iss = IsNewerLinked iss ⊎ IsNewerInstrument iss

  newer_linked_iff : (iss : GazetteIssue) → Memᴰ iss (newer_linked stand linked) ↔ IsNewerLinked iss
  unfolding newer_linked
  newer_linked_iff iss = (
    λ m.
        let (n, h) = keep-mem _ linked iss m in
        record { listed = n; not_bare = ground arith; newer = ground arith },
    λ r. mem-keep _ linked iss r.listed (rw (r.not_bare, r.newer) refl),
  )

  stale_relevant_iff :
      (iss : GazetteIssue)
      → (instrument_issue_is_stale_relevant iss refs ≡ true) ↔ (
          (ref : InstrumentRef) × Memᴰ ref refs
          × (issue_matches_instrument_ref iss ref ≡ true)
          × (is_stale_relevant_instrument_ref ref ≡ true))
  unfolding instrument_issue_is_stale_relevant
  stale_relevant_iff iss = (
    λ h.
        let (ref, m, both) = any_witness _ refs h in
        let (a, b) = (and-eq-true_iff _ _).0 both in (ref, m, a, b),
    λ (ref, m, a, b). any-true_of_mem _ refs ref m ((and-eq-true_iff _ _).1 (a, b)),
  )

  newer_instrument_iff :
      (iss : GazetteIssue)
      → Memᴰ iss (newer_instrument stand refs instrument) ↔ IsNewerInstrument iss
  unfolding newer_instrument
  newer_instrument_iff iss = (
    λ m.
        let (n, both) = keep-mem _ instrument iss m in
        let (a, b) = (and-eq-true_iff _ _).0 both in
        let (ref, c, d, e) = (stale_relevant_iff iss).0 a in
        record { listed = n; ref = ref; cited = c; matched = d; relevant = e; newer = b },
    λ r. mem-keep _ instrument iss r.listed (
        (and-eq-true_iff _ _).1
          ((stale_relevant_iff iss).1 (r.ref, r.cited, r.matched, r.relevant), r.newer)),
  )

  -- The collected ids are those of the newer issues that have one.
  pub newer_ids-mem_iff :
      (s : String)
      → Memᴰ s (newer_ids stand refs linked instrument)
        ↔ ((s ≢ "") × ((iss : GazetteIssue) × IsNewer iss × (iss.id ≡ s)))
  unfolding newer_ids
  newer_ids-mem_iff s =
      let ids = map {B = String} (λ (iss : GazetteIssue). iss.id) in
      let first = newer_linked stand linked in
      let second = newer_instrument stand refs instrument in
      (
        λ m.
            let (n, ne) = (unique_strings-mem_iff s (ids first ++ ids second)).0 m in
            (
              ne,
              elim (Memᴰ.append_cases (ids first) n) [
                | inl k ↦
                    let (iss, l, e) = Memᴰ.of_map (λ (i : GazetteIssue). i.id) first k in
                    (iss, inl ((newer_linked_iff iss).0 l), e)
                | inr k ↦
                    let (iss, l, e) = Memᴰ.of_map (λ (i : GazetteIssue). i.id) second k in
                    (iss, inr ((newer_instrument_iff iss).0 l), e)
              ],
            ),
        λ (ne, (iss, new, e)). (unique_strings-mem_iff s (ids first ++ ids second)).1 (
          elim new [
            | inl l ↦
                Memᴰ.append_left (ids second)
                  (rw (← e) (Memᴰ.map (λ (i : GazetteIssue). i.id) ((newer_linked_iff iss).1 l)))
            | inr l ↦
                Memᴰ.append_right (ids first) (
                  rw (← e) (Memᴰ.map (λ (i : GazetteIssue). i.id) ((newer_instrument_iff iss).1 l)))
          ],
          ne,
        ),
      )

  -- No id is collected exactly when every newer issue lacks an id.
  pub newer_ids-eq-nil_iff :
      (newer_ids stand refs linked instrument ≡ [])
      ↔ ((iss : GazetteIssue) → IsNewer iss → iss.id ≡ "")
  newer_ids-eq-nil_iff = (
    λ e iss new. elim (Bool-cases (iss.id == "")) [
      | inl same ↦ (eq_iff iss.id "").0 same
      | inr other ↦
          let m =
            (newer_ids-mem_iff iss.id).1
              (λ q. cc ((eq_iff iss.id "").1 q, other), (iss, new, refl)) in
          elim (rw e at m) [ ]
    ],
    λ all. elim (List-cases (newer_ids stand refs linked instrument)) [
      | inl e ↦ e
      | inr (s, rest, e) ↦
          let (ne, (iss, new, same)) = (newer_ids-mem_iff s).0 (rw e (Memᴰ.head refl)) in
          absurd (ne (sym same ∙ all iss new))
    ],
  )

  pub newer_ids-Distinct : Distinct (newer_ids stand refs linked instrument)
  newer_ids-Distinct =
      let ids = map {B = String} (λ (iss : GazetteIssue). iss.id) in
      let all = ids (newer_linked stand linked) ++ ids (newer_instrument stand refs instrument) in
      let once = unique_strings-Distinct all in unfold newer_ids in once
