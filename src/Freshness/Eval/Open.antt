-- ===== src/Freshness/Eval/Open.antt =====
-- When no citation is left open.
use mathlib.Core.List.Memᴰ
use gesetzeswache.Prelude.{
  ◌≡◌, ◌↔◌, ◌⊎◌, inl, inr, refl, sym, ◌∙◌, ap, true, false, List, [], ◌∷◌, Memᴰ, Option, none, some,
  arith, any, any-false, any_witness, Bool-cases, List-cases, length, eqb,
}
use gesetzeswache.Domain.{InstrumentRef, VRefResolution}
use gesetzeswache.Freshness.Refs.{find_vref_resolution}
use gesetzeswache.Freshness.Eval.{
  Input, is_open_ref, unresolved_instrument_refs_blunt, RefOutcome, settled, unmatched,
  unconfirmed_child, outcome_of, ref_outcome, Flags, note, proof_loop,
  unresolved_instrument_refs_proof, no_flags, rationale_of, by_path, blunt_rationale,
  unresolved_instrument_refs, no_flags, rationale_of,
}

-- A resolution that settles its citation: a historical one, or one whose child is confirmed.
abbrev pub Settles : VRefResolution → Type 0
Settles res = (res.historical ≡ true) ⊎ ((res.resolved ≡ true) × (res.child_confirmed ≡ true))

outcome_of-settled_iff :
    (o : Option VRefResolution)
    → (outcome_of o ≡ settled) ↔ ((res : VRefResolution) × (o ≡ some res) × Settles res)
unfolding outcome_of
outcome_of-settled_iff none = (λ h. cc, λ (res, e, s). cc)
outcome_of-settled_iff (some res) = (λ h. (res, refl, ground arith), λ (r, e, s). ground arith)

-- Every open citation has a resolution that settles it.
abbrev pub AllSettled : Input → List VRefResolution → Type 0
AllSettled in_ resolutions =
    (ref : InstrumentRef)
    → Memᴰ ref in_.instrument_refs
    → is_open_ref in_ ref ≡ true
    → (res : VRefResolution) × (find_vref_resolution resolutions ref ≡ some res) × Settles res

abbrev IsClear : Flags → Type 0
IsClear f = (f.has_unmatched ≡ false) × (f.has_unconfirmed_child ≡ false)

IsClear-note : (f : Flags) (o : RefOutcome) → IsClear (note f o) → IsClear f × (o ≡ settled)
IsClear-note f settled h = (h, refl)
IsClear-note f unmatched h = cc (h.0)
IsClear-note f unconfirmed_child h = cc (h.1)

rationale_of-none_iff : (f : Flags) → (rationale_of f ≡ none) ↔ IsClear f
unfolding rationale_of
rationale_of-none_iff f = ground arith

proof-rationale :
    (in_ : Input) (resolutions : List VRefResolution)
    → unresolved_instrument_refs_proof in_ resolutions
      ≡ rationale_of (proof_loop in_ resolutions no_flags in_.instrument_refs)
unfolding unresolved_instrument_refs_proof
proof-rationale in_ resolutions = refl

module _ (in_ : Input) (resolutions : List VRefResolution) where
  -- The loop ends with no flag only if it began with none and noted nothing.
  proof_loop-IsClear :
      (f : Flags) (refs : List InstrumentRef)
      → IsClear (proof_loop in_ resolutions f refs)
      → IsClear f
        × ((ref : InstrumentRef) → Memᴰ ref refs → ref_outcome in_ resolutions ref ≡ settled)
  unfolding proof_loop
  proof_loop-IsClear f [] h = (h, λ ref m. elim m [ ])
  proof_loop-IsClear f (ref ∷ refs) h =
      let (c, later) = proof_loop-IsClear (note f (ref_outcome in_ resolutions ref)) refs h in
      let (c', here) = IsClear-note f (ref_outcome in_ resolutions ref) c in
      (c', λ other m. elim (Memᴰ.cases_cons m) [ inl e ↦ rw e here | inr n ↦ later other n ])

  IsClear-proof_loop :
      (f : Flags) (refs : List InstrumentRef)
      → IsClear f
      → ((ref : InstrumentRef) → Memᴰ ref refs → ref_outcome in_ resolutions ref ≡ settled)
      → IsClear (proof_loop in_ resolutions f refs)
  unfolding proof_loop
  IsClear-proof_loop f [] h all = h
  IsClear-proof_loop f (ref ∷ refs) h all =
      IsClear-proof_loop (note f (ref_outcome in_ resolutions ref)) refs
        (rw (all ref (Memᴰ.head refl)) h) (λ other m. all other (Memᴰ.tail m))

  ref_outcome-settled_iff :
      (ref : InstrumentRef)
      → (ref_outcome in_ resolutions ref ≡ settled) ↔ (
          is_open_ref in_ ref ≡ true
          → (res : VRefResolution) × (find_vref_resolution resolutions ref ≡ some res)
            × Settles res)
  ref_outcome-settled_iff ref =
      let found = outcome_of-settled_iff (find_vref_resolution resolutions ref) in
      unfold ref_outcome in
      elim (Bool-cases (is_open_ref in_ ref)) [
        | inl e ↦ (λ h o. found.0 (rw e at h), λ all. rw e (found.1 (all e)))
        | inr e ↦ (λ h o. cc, λ all. rw e refl)
      ]

  proof-none_iff :
      (unresolved_instrument_refs_proof in_ resolutions ≡ none) ↔ AllSettled in_ resolutions
  proof-none_iff =
      let refs = in_.instrument_refs in
      let clear = proof_loop-IsClear no_flags refs in
      let back = IsClear-proof_loop no_flags refs (refl, refl) in
      let one = ref_outcome-settled_iff in
      let flags = rationale_of-none_iff (proof_loop in_ resolutions no_flags refs) in
      rw (proof-rationale in_ resolutions) (
        λ e ref m o. (one ref).0 ((clear (flags.0 e)).1 ref m) o,
        λ all. flags.1 (back (λ ref m. (one ref).1 (λ o. all ref m o))),
      )

-- The blunt path is content exactly when no citation is open.
blunt-false_iff :
    (in_ : Input)
    → (unresolved_instrument_refs_blunt in_ ≡ false)
      ↔ ((ref : InstrumentRef) → Memᴰ ref in_.instrument_refs → is_open_ref in_ ref ≡ false)
unfolding unresolved_instrument_refs_blunt
blunt-false_iff in_ = (
  λ h ref m. any-false (is_open_ref in_) in_.instrument_refs ref h m,
  λ all. elim (Bool-cases (any (is_open_ref in_) in_.instrument_refs)) [
    | inl e ↦
        let (ref, m, o) = any_witness (is_open_ref in_) in_.instrument_refs e in cc (all ref m, o)
    | inr e ↦ e
  ],
)

-- What the two paths ask of the open citations: with no proof none may be open, with a proof each
-- must be settled.
abbrev pub NothingOpen : Input → Option (List VRefResolution) → Type 0
NothingOpen in_ none =
    (ref : InstrumentRef) → Memᴰ ref in_.instrument_refs → is_open_ref in_ ref ≡ false
NothingOpen in_ (some resolutions) = AllSettled in_ resolutions

unresolved-by_path :
    (in_ : Input)
    → eqb (length in_.instrument_refs) 0 ≡ false
    → unresolved_instrument_refs in_
      ≡ by_path in_.vref_resolutions (blunt_rationale in_) (unresolved_instrument_refs_proof in_)
unresolved-by_path in_ h = unfold unresolved_instrument_refs in rw h refl

by_path-none_iff :
    (in_ : Input) (o : Option (List VRefResolution))
    → (by_path o (blunt_rationale in_) (unresolved_instrument_refs_proof in_) ≡ none)
      ↔ NothingOpen in_ o
by_path-none_iff in_ none =
    let (to, from) = blunt-false_iff in_ in (λ h. to (ground arith), λ all. rw (from all) refl)
by_path-none_iff in_ (some resolutions) = proof-none_iff in_ resolutions

NothingOpen-nil :
    (in_ : Input) (o : Option (List VRefResolution)) → in_.instrument_refs ≡ [] → NothingOpen in_ o
NothingOpen-nil in_ none e = λ ref m. elim (rw e at m) [ ]
NothingOpen-nil in_ (some resolutions) e = λ ref m. elim (rw e at m) [ ]

-- `unresolvedInstrumentRefs` answers false exactly when nothing is open: with no resolutions given,
-- no citation is open, and with resolutions each open citation has one that settles it.
pub unresolved-none_iff :
    (in_ : Input) → (unresolved_instrument_refs in_ ≡ none) ↔ NothingOpen in_ in_.vref_resolutions
unresolved-none_iff in_ =
    let paths = by_path-none_iff in_ in_.vref_resolutions in
    elim (List-cases in_.instrument_refs) [
      | inl e ↦ (
        λ _. NothingOpen-nil in_ in_.vref_resolutions e,
        λ _. unfold unresolved_instrument_refs in rw (ap length e) refl,
      )
      | inr (ref, refs, e) ↦
          let some_ref : eqb (length in_.instrument_refs) 0 ≡ false =
            rw (ap length e) (ground arith) in
          let step : unresolved_instrument_refs in_
              ≡ by_path in_.vref_resolutions (blunt_rationale in_)
                  (unresolved_instrument_refs_proof in_) =
            unresolved-by_path in_ some_ref in
          (λ h. paths.0 (sym step ∙ h), λ n. step ∙ paths.1 n)
    ]
