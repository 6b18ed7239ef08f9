-- ===== src/Instruments/Evidence/Issues.antt =====
-- The gazette issues that the evidence of a law holds.
use mathlib.Core.List.Memᴰ
use gesetzeswache.Prelude.{
  ◌≡◌, ◌≢◌, ◌⊎◌, inl, inr, refl, String, Bool, true, false, ◌||◌, ◌==◌, List, [], ◌∷◌, Memᴰ, some,
  arith, eq_iff, Bool-cases, Option-cases, map, map-mem, any, eqb, Distinct,
}
use gesetzeswache.Domain.{InstrumentRef, LinkedInstrument, StandCitation, GazetteIssue}
use gesetzeswache.Citation.{issue_id}
use gesetzeswache.Instruments.Evidence.{
  MetaStandIssueStore, issues_from, evidence_refs, collect_evidence,
}

-- An issue that the store has under the id of a citation with a year and a number.
pub record IsCited (st : MetaStandIssueStore) (refs : List InstrumentRef) (iss : GazetteIssue)
    : Type 0 where
  pub ref : InstrumentRef
  pub cited : Memᴰ ref refs
  pub dated : ref.year ≢ 0
  pub numbered : ref.number ≢ ""
  pub stored : st.get_issue (issue_id ref.teil ref.year ref.number) ≡ some iss

abbrev is_seen : List String → GazetteIssue → Bool
is_seen seen iss = any (λ k. k == iss.id) seen

identity-parts :
    (ref : InstrumentRef)
    → (eqb ref.year 0 || ref.number == "") ≡ false
    → (ref.year ≢ 0) × (ref.number ≢ "")
identity-parts ref h = (ground arith, ground (arith, eq_iff ref.number ""))

IsCited-cons :
    (st : MetaStandIssueStore) (ref : InstrumentRef) (refs : List InstrumentRef)
    (iss : GazetteIssue)
    → IsCited st refs iss
    → IsCited st (ref ∷ refs) iss
IsCited-cons st ref refs iss c = record {
  ref = c.ref;
  cited = Memᴰ.tail c.cited;
  dated = c.dated;
  numbered = c.numbered;
  stored = c.stored;
}

module _ (st : MetaStandIssueStore) where
  -- One round of the loop: it adds nothing, or an issue that was not seen.
  issues_from-step :
      (seen : List String) (ref : InstrumentRef) (refs : List InstrumentRef)
      → (issues_from st seen (ref ∷ refs) ≡ issues_from st seen refs)
        ⊎ ((iss : GazetteIssue) × IsCited st (ref ∷ refs) iss
            × (is_seen seen iss ≡ false)
            × (issues_from st seen (ref ∷ refs) ≡ iss ∷ issues_from st (iss.id ∷ seen) refs))
  unfolding issues_from
  issues_from-step seen ref refs = elim (Bool-cases (eqb ref.year 0 || ref.number == "")) [
    | inl e ↦ inl (rw e refl)
    | inr e ↦ elim (Option-cases (st.get_issue (issue_id ref.teil ref.year ref.number))) [
      | inl missing ↦ inl (rw (e, missing) refl)
      | inr (iss, found) ↦ elim (Bool-cases (is_seen seen iss)) [
        | inl old ↦ inl (rw (e, found, old) refl)
        | inr new ↦
            let (dated, numbered) = identity-parts ref e in
            let c : IsCited st (ref ∷ refs) iss = record {
              ref = ref;
              cited = Memᴰ.head refl;
              dated = dated;
              numbered = numbered;
              stored = found;
            } in
            inr (iss, c, new, rw (e, found, new) refl)
      ]
    ]
  ]

  issues_from-nil : (seen : List String) → issues_from st seen [] ≡ []
  unfolding issues_from
  issues_from-nil seen = refl

  issues_from-mem :
      (seen : List String) (refs : List InstrumentRef) (iss : GazetteIssue)
      → Memᴰ iss (issues_from st seen refs)
      → IsCited st refs iss × (is_seen seen iss ≡ false)
  issues_from-mem seen [] iss m = elim (rw (issues_from-nil seen) at m) [ ]
  issues_from-mem seen (ref ∷ refs) iss m = elim (issues_from-step seen ref refs) [
    | inl e ↦
        let (c, new) = issues_from-mem seen refs iss (rw e at m) in
        (IsCited-cons st ref refs iss c, new)
    | inr (first, c, new, e) ↦ elim (Memᴰ.cases_cons (rw e at m)) [
      | inl q ↦ rw q (c, new)
      | inr k ↦
          let (c', new') = issues_from-mem (first.id ∷ seen) refs iss k in
          (IsCited-cons st ref refs iss c', later_new (first.id == iss.id) (is_seen seen iss) new')
    ]
  ]
    where
      later_new : (a b : Bool) → (a || b) ≡ false → b ≡ false
      later_new a b h = ground arith

  issues_from-Distinct :
      (seen : List String) (refs : List InstrumentRef)
      → Distinct (map (λ i. i.id) (issues_from st seen refs))
  issues_from-Distinct seen [] = rw (issues_from-nil seen) tt
  issues_from-Distinct seen (ref ∷ refs) = elim (issues_from-step seen ref refs) [
    | inl e ↦ rw e (issues_from-Distinct seen refs)
    | inr (first, c, new, e) ↦ rw e (
      λ m.
          let (other, k, q) =
            map-mem (λ i. i.id) (issues_from st (first.id ∷ seen) refs) first.id m in
          let (c', fresh) = issues_from-mem (first.id ∷ seen) refs other k in
          absurd (seen_twice first.id other.id (is_seen seen other) q fresh),
      issues_from-Distinct (first.id ∷ seen) refs,
    )
  ]
    where
      seen_twice : (a b : String) (r : Bool) → a ≡ b → (a == b || r) ≡ false → ⊥
      seen_twice a b r q h = ground (arith, eq_iff a b)

  -- A stored issue of the first citation is seen or collected in its round.
  issues_from-first :
      (seen : List String) (refs : List InstrumentRef) (ref : InstrumentRef) (iss : GazetteIssue)
      → ref.year ≢ 0
      → ref.number ≢ ""
      → st.get_issue (issue_id ref.teil ref.year ref.number) ≡ some iss
      → (is_seen seen iss ≡ true)
        ⊎ (issues_from st seen (ref ∷ refs) ≡ iss ∷ issues_from st (iss.id ∷ seen) refs)
  unfolding issues_from
  issues_from-first seen refs ref iss dated numbered found =
      let e = has_parts ref dated numbered in
      elim (Bool-cases (is_seen seen iss)) [
        | inl old ↦ inl old
        | inr new ↦ inr (rw (e, found, new) refl)
      ]
    where
      has_parts :
          (r : InstrumentRef)
          → r.year ≢ 0
          → r.number ≢ ""
          → (eqb r.year 0 || r.number == "") ≡ false
      has_parts r d n = ground (arith, eq_iff r.number "")

  -- An issue that a citation of the list names was seen before, or it is collected.
  issues_from_complete :
      (seen : List String) (refs : List InstrumentRef) (ref : InstrumentRef) (iss : GazetteIssue)
      → Memᴰ ref refs
      → ref.year ≢ 0
      → ref.number ≢ ""
      → st.get_issue (issue_id ref.teil ref.year ref.number) ≡ some iss
      → (is_seen seen iss ≡ true) ⊎ (any (λ i. i.id == iss.id) (issues_from st seen refs) ≡ true)
  issues_from_complete seen [] ref iss m dated numbered found = elim m [ ]
  issues_from_complete seen (first ∷ refs) ref iss m dated numbered found =
      elim (Memᴰ.cases_cons m) [
        | inl q ↦
            elim (issues_from-first seen refs first iss (rw (← q) dated) (rw (← q) numbered)
              (rw (← q) found)) [ inl old ↦ inl old | inr e ↦ inr (rw e (own_id iss.id _)) ]
        | inr k ↦ elim (issues_from-step seen first refs) [
          | inl e ↦ rw e (issues_from_complete seen refs ref iss k dated numbered found)
          | inr (other, c, new, e) ↦ rw e (
              later (other.id == iss.id) (is_seen seen iss) _
                (issues_from_complete (other.id ∷ seen) refs ref iss k dated numbered found))
        ]
      ]
    where
      own_id : (a : String) (r : Bool) → (a == a || r) ≡ true
      own_id a r = ground (arith, eq_iff a a)

      later : (a b r : Bool) → ((a || b) ≡ true) ⊎ (r ≡ true) → (b ≡ true) ⊎ ((a || r) ≡ true)
      later true b r h = inr refl
      later false b r h = h

-- Each issue in the evidence of a law is the one that the store has under the id of a citation in
-- the evidence that has a year and a number.
pub collect_evidence-IsCited :
    (st : MetaStandIssueStore) (linked : List LinkedInstrument) (law_id : String)
    (stand : StandCitation) (iss : GazetteIssue)
    → Memᴰ iss ((collect_evidence st linked law_id stand).1)
    → IsCited st ((collect_evidence st linked law_id stand).0) iss
unfolding collect_evidence
collect_evidence-IsCited st linked law_id stand iss m =
    (issues_from-mem st [] (evidence_refs st linked law_id stand) iss m).0

-- No two issues in the evidence of a law have the same id.
pub collect_evidence-Distinct :
    (st : MetaStandIssueStore) (linked : List LinkedInstrument) (law_id : String)
    (stand : StandCitation)
    → Distinct (map (λ i. i.id) ((collect_evidence st linked law_id stand).1))
unfolding collect_evidence
collect_evidence-Distinct st linked law_id stand =
    issues_from-Distinct st [] (evidence_refs st linked law_id stand)

-- If the store has an issue for a citation in the evidence with a year and a number, then an issue
-- with the same id is in the evidence.
pub collect_evidence_complete :
    (st : MetaStandIssueStore) (linked : List LinkedInstrument) (law_id : String)
    (stand : StandCitation) (ref : InstrumentRef) (iss : GazetteIssue)
    → Memᴰ ref ((collect_evidence st linked law_id stand).0)
    → ref.year ≢ 0
    → ref.number ≢ ""
    → st.get_issue (issue_id ref.teil ref.year ref.number) ≡ some iss
    → any (λ i. i.id == iss.id) ((collect_evidence st linked law_id stand).1) ≡ true
unfolding collect_evidence
collect_evidence_complete st linked law_id stand ref iss m dated numbered found =
    elim (issues_from_complete st [] (evidence_refs st linked law_id stand) ref iss m dated numbered
      found) [ inl none_seen ↦ cc none_seen | inr collected ↦ collected ]
