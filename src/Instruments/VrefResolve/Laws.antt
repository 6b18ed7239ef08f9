-- ===== src/Instruments/VrefResolve/Laws.antt =====
-- What `ResolveOperativeVRefs` answers, and what it leaves to its caller.
use mathlib.Core.List.Memᴰ
use gesetzeswache.Prelude.{
  ◌≡◌, ◌≢◌, ◌↔◌, eq_iff, eqb, eqb_iff, inl, inr, refl, sym, ◌∙◌, ap, String, Bool, true, false, not,
  ◌&&◌, ◌==◌, List, [], ◌∷◌, Memᴰ, Option, none, some, arith, Bool-cases, map, keep, ◌⊎◌,
}
use gesetzeswache.Domain.{InstrumentRef, LinkedInstrument, VRefResolution, StandCitation}
use gesetzeswache.Freshness.Refs.{kind_of, hint_of, lacks_identity}
use gesetzeswache.Instruments.VrefResolve.{
  is_operative_ref_for_resolve, stand_reflects_ref, is_current_candidate, is_past, BgblIndexLookup,
  ChildStands, CurrentMatch, one_child, ambiguous, no_child, is_kind_v, match_children_by_identity,
  bare_resolution, matched_by, is_nil, past_step, index_step, index_match, current_match,
  fall_through, resolve_ref, is_resolvable, resolve_loop, resolve_operative_vrefs,
}

-- A resolution as its caller gets it: no flag of the proof is set, and none of kind V is historical.
pub record IsRaw (ref : InstrumentRef) (res : VRefResolution) : Type 0 where
  pub about : res.ref ≡ ref
  pub unresolved : res.resolved ≡ false
  pub unconfirmed : res.child_confirmed ≡ false
  pub open_v : is_kind_v ref ≡ true → res.historical ≡ false

IsRaw-same :
    {ref : InstrumentRef} {res other : VRefResolution}
    → res ≡ other
    → IsRaw ref other
    → IsRaw res.ref res
IsRaw-same e r = record {
  about = refl;
  unresolved = ap (λ x. x.resolved) e ∙ r.unresolved;
  unconfirmed = ap (λ x. x.child_confirmed) e ∙ r.unconfirmed;
  open_v = λ v.
      ap (λ x. x.historical) e ∙ r.open_v (sym (ap is_kind_v (ap (λ x. x.ref) e ∙ r.about)) ∙ v);
}

IsRaw-bare : (ref : InstrumentRef) → IsRaw ref (bare_resolution ref)
IsRaw-bare ref = record { about = refl; unresolved = refl; unconfirmed = refl; open_v = λ _. refl }

IsRaw-matched_by :
    (ref : InstrumentRef) (method : String) (child : LinkedInstrument) (res : VRefResolution)
    → IsRaw ref res
    → IsRaw ref (matched_by method child res)
IsRaw-matched_by ref method child res r = record {
  about = r.about;
  unresolved = r.unresolved;
  unconfirmed = r.unconfirmed;
  open_v = r.open_v;
}

IsRaw-index_step :
    (ref : InstrumentRef) (o : Option LinkedInstrument) (res : VRefResolution)
    → IsRaw ref res
    → IsRaw ref (index_step o res)
IsRaw-index_step ref none res r = r
IsRaw-index_step ref (some child) res r = IsRaw-matched_by ref "bgbl_index" child res r

IsRaw-past_step :
    (past : List LinkedInstrument) (stands : ChildStands) (ref : InstrumentRef)
    (res : VRefResolution)
    → IsRaw ref res
    → IsRaw ref (past_step past stands ref res)
IsRaw-past_step past stands ref res r =
    elim (Bool-cases (res.matched_gii_slug == "" && not (is_kind_v ref))) [
      | inr e ↦ unfold past_step in rw e r
      | inl e ↦ elim (Bool-cases (is_nil (match_children_by_identity ref past stands))) [
        | inl n ↦ unfold past_step in rw (e, n) r
        | inr n ↦
            unfold past_step in
            rw (e, n)
              (record {
                about = r.about;
                unresolved = r.unresolved;
                unconfirmed = r.unconfirmed;
                open_v = λ v. absurd (not_v v e);
              })
      ]
    ]
  where
    not_v : is_kind_v ref ≡ true → (res.matched_gii_slug == "" && not (is_kind_v ref)) ≡ true → ⊥
    not_v v e = ground arith

IsRaw-fall_through :
    (index : BgblIndexLookup) (current past : List LinkedInstrument) (stands : ChildStands)
    (ref : InstrumentRef) (res : VRefResolution)
    → IsRaw ref res
    → IsRaw ref (fall_through index current past stands ref res)
IsRaw-fall_through index current past stands ref res r =
    let indexed = index_step (index_match index current ref) res in
    let kept = IsRaw-past_step past stands ref res r in
    let looked_up =
      IsRaw-past_step past stands ref indexed
        (IsRaw-index_step ref (index_match index current ref) res r) in
    elim (Bool-cases (res.matched_gii_slug == "")) [
      | inl e ↦ unfold fall_through in rw e looked_up
      | inr e ↦ unfold fall_through in rw e kept
    ]

IsRaw-resolve_ref :
    (index : BgblIndexLookup) (current past : List LinkedInstrument) (stands : ChildStands)
    (ref : InstrumentRef) (m : CurrentMatch)
    → IsRaw ref (resolve_ref index current past stands ref m)
unfolding resolve_ref
IsRaw-resolve_ref index current past stands ref ambiguous = IsRaw-bare ref
IsRaw-resolve_ref index current past stands ref (one_child child) =
    IsRaw-fall_through index current past stands ref _
      (IsRaw-matched_by ref "notes_identity" child (bare_resolution ref) (IsRaw-bare ref))
IsRaw-resolve_ref index current past stands ref no_child =
    IsRaw-fall_through index current past stands ref (bare_resolution ref) (IsRaw-bare ref)

module _ (index : BgblIndexLookup) (current past : List LinkedInstrument) (stands : ChildStands)
    (parent : StandCitation) (has_linked : Bool) where
  abbrev pub answer : InstrumentRef → VRefResolution
  answer ref =
      resolve_ref index current past stands ref
        (current_match (match_children_by_identity ref current stands) ref.section_hint)

  abbrev pub loop : List InstrumentRef → List VRefResolution
  loop = resolve_loop index current past stands parent has_linked

  pub resolve_loop-step :
      (ref : InstrumentRef) (refs : List InstrumentRef)
      → ((is_resolvable parent has_linked ref ≡ true)
          × (loop (ref ∷ refs) ≡ answer ref ∷ loop refs))
        ⊎ ((is_resolvable parent has_linked ref ≡ false) × (loop (ref ∷ refs) ≡ loop refs))
  unfolding resolve_loop
  resolve_loop-step ref refs = elim (Bool-cases (is_resolvable parent has_linked ref)) [
    | inl e ↦ inl (e, rw e refl)
    | inr e ↦ inr (e, rw e refl)
  ]

  pub resolve_loop-nil : loop [] ≡ []
  unfolding resolve_loop
  resolve_loop-nil = refl

  pub answer-IsRaw : (ref : InstrumentRef) → IsRaw ref (answer ref)
  answer-IsRaw ref =
      IsRaw-resolve_ref index current past stands ref
        (current_match (match_children_by_identity ref current stands) ref.section_hint)

  pub resolve_loop-IsRaw :
      (refs : List InstrumentRef) (res : VRefResolution) → Memᴰ res (loop refs) → IsRaw res.ref res
  resolve_loop-IsRaw [] res m = elim (rw resolve_loop-nil at m) [ ]
  resolve_loop-IsRaw (ref ∷ refs) res m = elim (resolve_loop-step ref refs) [
    | inr (e, step) ↦ resolve_loop-IsRaw refs res (rw step at m)
    | inl (e, step) ↦ elim (Memᴰ.cases_cons (rw step at m)) [
      | inl q ↦ IsRaw-same q (answer-IsRaw ref)
      | inr n ↦ resolve_loop-IsRaw refs res n
    ]
  ]

  pub resolve_loop-refs :
      (refs : List InstrumentRef)
      → map (λ res. res.ref) (loop refs) ≡ keep (is_resolvable parent has_linked) refs
  resolve_loop-refs [] = rw resolve_loop-nil refl
  resolve_loop-refs (ref ∷ refs) = elim (resolve_loop-step ref refs) [
    | inr (e, step) ↦ rw (step, keep, e) (resolve_loop-refs refs)
    | inl (e, step) ↦ rw (step, keep, e, map, (answer-IsRaw ref).about, resolve_loop-refs refs) refl
  ]

-- A citation that asks for a child: it has a year and a number or a part, the parent's Stand is not this very
-- issue, and it cites an ordinance, an announcement with a section, or, where the law has children,
-- something of no kind.
pub record IsAsking (parent : StandCitation) (has_linked : Bool) (ref : InstrumentRef)
    : Type 0 where
  pub year : ref.year ≢ 0
  pub named : ¬ ((ref.number ≡ "") × (ref.teil ≡ 0))
  pub unreflected : ¬ (
      (parent.parse_ok ≡ true)
      × (parent.year ≡ ref.year)
      × (parent.teil ≡ ref.teil)
      × (parent.number ≡ ref.number))
  pub kind :
      (kind_of ref ≡ "V")
      ⊎ ((kind_of ref ≡ "BEK") × (hint_of ref ≢ ""))
      ⊎ ((kind_of ref ≡ "") × (has_linked ≡ true))

reflects_iff :
    (parent : StandCitation) (ref : InstrumentRef)
    → (stand_reflects_ref parent ref ≡ true) ↔ (
        (parent.parse_ok ≡ true)
        × (parent.year ≡ ref.year)
        × (parent.teil ≡ ref.teil)
        × (parent.number ≡ ref.number))
unfolding stand_reflects_ref
reflects_iff parent ref =
    let same = eq_iff parent.number ref.number in
    (λ h. ground (arith, same), λ (p, y, t, n). ground (arith, same))

halves : (a b : Bool) → (a && b) ≡ true → (a ≡ true) × (b ≡ true)
halves a b h = ground arith

lacks_iff :
    (ref : InstrumentRef)
    → (lacks_identity ref ≡ false) ↔ ((ref.year ≢ 0) × (¬ ((ref.number ≡ "") × (ref.teil ≡ 0))))
unfolding lacks_identity
lacks_iff ref =
    let same = eq_iff ref.number "" in
    (λ h. (λ q. ground (arith, same), λ (n, t). ground (arith, same)), λ (y, n). by_parts y n)
  where
    by_parts : ref.year ≢ 0 → (¬ ((ref.number ≡ "") × (ref.teil ≡ 0))) → lacks_identity ref ≡ false
    by_parts y n = elim (Bool-cases (eqb ref.year 0)) [
      | inl e ↦ absurd (y ((eqb_iff ref.year 0).0 e))
      | inr e ↦ elim (Bool-cases (ref.number == "" && eqb ref.teil 0)) [
        | inr f ↦ rw (e, f) refl
        | inl f ↦
            let both : ((ref.number == "") ≡ true) × (eqb ref.teil 0 ≡ true) = halves _ _ f in
            absurd (n ((eq_iff ref.number "").0 both.0, (eqb_iff ref.teil 0).0 both.1))
      ]
    ]

operative_iff :
    (ref : InstrumentRef) (has_linked : Bool)
    → (is_operative_ref_for_resolve ref has_linked ≡ true) ↔ (
        (kind_of ref ≡ "V")
        ⊎ ((kind_of ref ≡ "BEK") × (hint_of ref ≢ ""))
        ⊎ ((kind_of ref ≡ "") × (has_linked ≡ true)))
unfolding is_operative_ref_for_resolve
operative_iff ref has_linked =
    let v = eq_iff (kind_of ref) "V" in
    let bek = eq_iff (kind_of ref) "BEK" in
    let blank = eq_iff (kind_of ref) "" in
    (
      λ h. elim (Bool-cases (kind_of ref == "G")) [
        | inl e ↦ cc (rw e at h)
        | inr e ↦ elim (Bool-cases (kind_of ref == "V")) [
          | inl f ↦ inl (v.0 f)
          | inr f ↦ elim (Bool-cases (kind_of ref == "BEK")) [
            | inl b ↦ inr (inl (bek.0 b, filled (rw (e, f, b) at h)))
            | inr b ↦
                let (linked, none_of) = halves _ _ (rw (e, f, b) at h) in
                inr (inr (blank.0 none_of, linked))
          ]
        ]
      ],
      λ k. elim k [
        | inl q ↦ rw q refl
        | inr (inl (q, hint)) ↦ rw q (hinted hint)
        | inr (inr (q, linked)) ↦ rw (q, linked) refl
      ],
    )
  where
    filled : not (hint_of ref == "") ≡ true → hint_of ref ≢ ""
    filled h q = cc (h, (eq_iff (hint_of ref) "").1 q)

    hinted : hint_of ref ≢ "" → not (hint_of ref == "") ≡ true
    hinted n = elim (Bool-cases (hint_of ref == "")) [
      | inl e ↦ absurd (n ((eq_iff (hint_of ref) "").0 e))
      | inr e ↦ rw e refl
    ]

is_resolvable_iff :
    (parent : StandCitation) (has_linked : Bool) (ref : InstrumentRef)
    → (is_resolvable parent has_linked ref ≡ true) ↔ IsAsking parent has_linked ref
unfolding is_resolvable
is_resolvable_iff parent has_linked ref =
    let lacks = lacks_iff ref in
    let reflects = reflects_iff parent ref in
    let operative = operative_iff ref has_linked in
    elim (Bool-cases (lacks_identity ref)) [
      | inl l ↦ (λ h. cc (rw l at h), λ a. cc (sym l, lacks.1 (a.year, a.named)))
      | inr l ↦ elim (Bool-cases (stand_reflects_ref parent ref)) [
        | inl s ↦ (λ h. cc (rw (l, s) at h), λ a. absurd (a.unreflected (reflects.0 s)))
        | inr s ↦ (
          λ h. record {
            year = (lacks.0 l).0;
            named = (lacks.0 l).1;
            unreflected = λ r. cc (sym s, reflects.1 r);
            kind = operative.0 (rw (l, s) at h);
          },
          λ a. rw (l, s) (operative.1 a.kind),
        )
      ]
    ]

-- `ResolveOperativeVRefs` answers one resolution for each citation that has a year and a number or a
-- part, that is not itself the issue of the parent's parsed Stand, and that cites an ordinance, an announcement
-- with a section, or, where the law has children, something of no kind: for these citations and no
-- others, in their order.
pub resolve_operative_vrefs-refs :
    (refs : List InstrumentRef) (annotated : List LinkedInstrument) (stands : ChildStands)
    (index : BgblIndexLookup) (parent : StandCitation)
    → (map (λ res. res.ref) (resolve_operative_vrefs refs annotated stands index parent)
        ≡ keep (is_resolvable parent (not (is_nil annotated))) refs)
      × ((ref : InstrumentRef)
          → (is_resolvable parent (not (is_nil annotated)) ref ≡ true)
            ↔ IsAsking parent (not (is_nil annotated)) ref)
unfolding resolve_operative_vrefs
resolve_operative_vrefs-refs refs annotated stands index parent = (
  resolve_loop-refs index (keep is_current_candidate annotated) (keep is_past annotated) stands
      parent (not (is_nil annotated)) refs,
  is_resolvable_iff parent (not (is_nil annotated)),
)

pub resolve_operative_vrefs-IsRaw :
    (refs : List InstrumentRef) (annotated : List LinkedInstrument) (stands : ChildStands)
    (index : BgblIndexLookup) (parent : StandCitation) (res : VRefResolution)
    → Memᴰ res (resolve_operative_vrefs refs annotated stands index parent)
    → IsRaw res.ref res
unfolding resolve_operative_vrefs
resolve_operative_vrefs-IsRaw refs annotated stands index parent res m =
    resolve_loop-IsRaw index (keep is_current_candidate annotated) (keep is_past annotated) stands
      parent (not (is_nil annotated)) refs res m
