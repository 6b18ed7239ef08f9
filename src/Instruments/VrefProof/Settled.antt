-- ===== src/Instruments/VrefProof/Settled.antt =====
-- When no citation of kind V is settled without a child that is itself confirmed current.
use gesetzeswache.Prelude.{
  ◌≡◌, ◌⊎◌, inl, inr, refl, sym, ◌∙◌, ap, String, Bool, true, false, not, ◌&&◌, ◌||◌, ◌==◌, List,
  Memᴰ, some, arith, eq_iff, Bool-cases, Option-cases, keep, keep-mem, map-mem, any_witness,
  find_first-mem, if_either,
}
use gesetzeswache.Time.{Instant}
use gesetzeswache.Domain.{
  InstrumentRef, LinkedInstrument, VRefResolution, StandCitation, confirmed_current,
}
use gesetzeswache.Freshness.Eval.Open.{Settles}
use gesetzeswache.Instruments.Evidence.{MetaStandIssueStore}
use gesetzeswache.Instruments.Chain.{normalize_section_hint}
use gesetzeswache.Instruments.VrefResolve.{
  BgblIndexLookup, ChildStands, is_kind_v, is_current_candidate, is_past,
  match_children_by_identity, resolve_operative_vrefs, build_child_stands,
}
use gesetzeswache.Instruments.VrefResolve.Laws.{IsRaw, resolve_operative_vrefs-IsRaw}
use gesetzeswache.Instruments.VrefProof.{
  LinksReader, VRefProofContext, confirm, prove_child, apply_child_freshness_proof,
  is_confirmed_slug, superseded_section, supersede, confirmed_sibling, supersede_ref,
  mark_superseded_past_kind_v, evaluate_leaf_child_freshness, prove_vref_resolutions, is_nil,
}

-- A resolution that rests on the children's proofs `eval`.
abbrev pub IsEarned : (String → String) → VRefResolution → Type 0
IsEarned eval res =
    (res.resolved ≡ true → eval res.matched_gii_slug ≡ confirmed_current)
    × (is_kind_v res.ref ≡ true → res.historical ≡ false)

prove_child-IsEarned :
    (eval : String → String) (res : VRefResolution)
    → IsRaw res.ref res
    → IsEarned eval (prove_child eval res)
prove_child-IsEarned eval res r =
    let untouched : IsEarned eval res = (λ e. cc (e, r.unresolved), r.open_v) in
    elim (Bool-cases (eval res.matched_gii_slug == confirmed_current)) [
      | inl e ↦
          let proven : eval res.matched_gii_slug ≡ confirmed_current = (eq_iff _ _).0 e in
          let earned : IsEarned eval (confirm res) = (λ _. proven, r.open_v) in
          unfold prove_child in
          rw e (
            if_either (IsEarned eval) (res.historical || res.matched_gii_slug == "") untouched
              earned)
      | inr e ↦
          unfold prove_child in
          rw e (
            if_either (IsEarned eval) (res.historical || res.matched_gii_slug == "") untouched
              untouched)
    ]

pub proven-IsEarned :
    (eval : String → String) (raw : List VRefResolution) (res : VRefResolution)
    → ((r : VRefResolution) → Memᴰ r raw → IsRaw r.ref r)
    → Memᴰ res (apply_child_freshness_proof raw eval)
    → IsEarned eval res
unfolding apply_child_freshness_proof
proven-IsEarned eval raw res all m =
    let (r, k, e) = map-mem (prove_child eval) raw res m in
    rw e (prove_child-IsEarned eval r (all r k))

pub confirmed_slug-earned :
    (eval : String → String) (proven : List VRefResolution) (slug : String)
    → ((r : VRefResolution) → Memᴰ r proven → IsEarned eval r)
    → is_confirmed_slug proven slug ≡ true
    → eval slug ≡ confirmed_current
unfolding is_confirmed_slug
confirmed_slug-earned eval proven slug all h =
    let found : (r : VRefResolution) × Memᴰ r proven
        × ((r.resolved
              && r.child_confirmed
              && not (r.matched_gii_slug == "")
              && r.matched_gii_slug == slug)
            ≡ true) =
      any_witness _ proven h in
    let (r, m, e) = found in
    let (resolved, same) =
      parts r.resolved r.child_confirmed (not (r.matched_gii_slug == "")) _ e in
    rw (← (eq_iff _ _).0 same) ((all r m).0 resolved)
  where
    parts : (a b c d : Bool) → (a && b && c && d) ≡ true → (a ≡ true) × (d ≡ true)
    parts a b c d h = ground arith

module _ (confirmed : String → Bool) (current past : List LinkedInstrument)
    (stands : ChildStands) where
  -- A resolution that is kept, or that a confirmed current child supersedes.
  abbrev IsSuperseding : VRefResolution → VRefResolution → Type 0
  IsSuperseding before after =
      (after ≡ before)
      ⊎ ((child : LinkedInstrument) × Memᴰ child current
          × (confirmed child.gii_slug ≡ true)
          × (after ≡ supersede (some child) before))

  confirmed_sibling-confirmed :
      (section : String) (child : LinkedInstrument)
      → confirmed_sibling confirmed current past stands section ≡ some child
      → Memᴰ child current × (confirmed child.gii_slug ≡ true)
  unfolding confirmed_sibling
  confirmed_sibling-confirmed section child e =
      let (m, h) = find_first-mem _ current e in
      (
        m,
        second (normalize_section_hint child.section_hint == section) (confirmed child.gii_slug) h,
      )
    where
      second : (a b : Bool) → (a && b) ≡ true → b ≡ true
      second a b h = ground arith

  sibling-IsSuperseding :
      (section : String) (res : VRefResolution)
      → IsSuperseding res (supersede (confirmed_sibling confirmed current past stands section) res)
  sibling-IsSuperseding section res =
      elim (Option-cases (confirmed_sibling confirmed current past stands section)) [
        | inl e ↦ rw e (inl refl)
        | inr (child, e) ↦
            let (m, h) = confirmed_sibling-confirmed section child e in
            rw e (inr (child, m, h, refl))
      ]

  supersede_ref-cases :
      (res : VRefResolution) → IsSuperseding res (supersede_ref confirmed current past stands res)
  supersede_ref-cases res =
      let kept : IsSuperseding res res = inl refl in
      let past_matches = match_children_by_identity res.ref past stands in
      let section = superseded_section res.ref past_matches in
      let superseded = sibling-IsSuperseding section res in
      let open_section = if_either (IsSuperseding res) (section == "*") kept superseded in
      let some_past = if_either (IsSuperseding res) (is_nil past_matches) kept open_section in
      let of_kind = if_either (IsSuperseding res) (not (is_kind_v res.ref)) kept some_past in
      let unmatched =
        if_either (IsSuperseding res) (not (res.matched_gii_slug == "")) kept of_kind in
      let open_ref =
        if_either (IsSuperseding res) (res.resolved && res.child_confirmed) kept unmatched in
      unfold supersede_ref in if_either (IsSuperseding res) res.historical kept open_ref

-- What a settled citation of kind V rests on: the child that was matched is confirmed current, or
-- the current child that superseded it is.
abbrev pub IsBacked : (String → String) → List LinkedInstrument → VRefResolution → Type 0
IsBacked eval annotated res =
    ((res.resolved ≡ true) × (eval res.matched_gii_slug ≡ confirmed_current))
    ⊎ ((child : LinkedInstrument) × Memᴰ child annotated
        × (is_current_candidate child ≡ true)
        × (res.superseded_by ≡ child.gii_slug)
        × (eval child.gii_slug ≡ confirmed_current))

module _ (eval : String → String) (annotated : List LinkedInstrument) (stands : ChildStands)
    (proven : List VRefResolution)
    (earned : (r : VRefResolution) → Memᴰ r proven → IsEarned eval r) where
  superseding-IsBacked :
      (before res : VRefResolution)
      → Memᴰ before proven
      → IsSuperseding
          (is_confirmed_slug proven)
          (keep is_current_candidate annotated)
          (keep is_past annotated)
          stands
          before
          res
      → is_kind_v res.ref ≡ true
      → Settles res
      → IsBacked eval annotated res
  superseding-IsBacked before res m (inl e) v (inl past) =
      cc (
        past,
        ap (λ r. r.historical) e,
        (earned before m).1 (sym (ap (λ r. is_kind_v r.ref) e) ∙ v),
      )
  superseding-IsBacked before res m (inl e) v (inr (resolved, confirmed)) =
      let proof = (earned before m).0 (sym (ap (λ r. r.resolved) e) ∙ resolved) in
      inl (resolved, ap (λ r. eval r.matched_gii_slug) e ∙ proof)
  superseding-IsBacked before res m (inr (child, k, h, e)) v s =
      let (k', cur) = keep-mem is_current_candidate annotated child k in
      inr (
        child,
        k',
        cur,
        ap (λ r. r.superseded_by) e,
        confirmed_slug-earned eval proven child.gii_slug earned h,
      )

  mark_superseded-IsBacked :
      (res : VRefResolution)
      → Memᴰ res (mark_superseded_past_kind_v proven annotated stands)
      → is_kind_v res.ref ≡ true
      → Settles res
      → IsBacked eval annotated res
  unfolding mark_superseded_past_kind_v
  mark_superseded-IsBacked res m v s =
      let current = keep is_current_candidate annotated in
      let past = keep is_past annotated in
      let confirmed = is_confirmed_slug proven in
      let (before, k, e) = map-mem (supersede_ref confirmed current past stands) proven res m in
      superseding-IsBacked before res k
        (rw e (supersede_ref-cases confirmed current past stands before)) v s

-- A citation of kind V is settled only by a child that was itself evaluated and found confirmed
-- current: the child it matched, or a current child of the chain that superseded it.
pub prove_vref-settled :
    (clock : Instant) (refs : List InstrumentRef) (annotated : List LinkedInstrument)
    (parent : StandCitation) (st : MetaStandIssueStore) (index : BgblIndexLookup)
    (links : LinksReader) (ctx : VRefProofContext) (res : VRefResolution)
    → Memᴰ res (prove_vref_resolutions clock refs annotated parent st index links ctx)
    → is_kind_v res.ref ≡ true
    → Settles res
    → IsBacked (λ slug. evaluate_leaf_child_freshness clock st links slug ctx) annotated res
unfolding prove_vref_resolutions
prove_vref-settled clock refs annotated parent st index links ctx res m v s =
    let eval : String → String = λ slug. evaluate_leaf_child_freshness clock st links slug ctx in
    let stands = build_child_stands annotated st in
    let raw = resolve_operative_vrefs refs annotated stands index parent in
    let is_raw = resolve_operative_vrefs-IsRaw refs annotated stands index parent in
    mark_superseded-IsBacked eval annotated stands (apply_child_freshness_proof raw eval)
      (λ r. proven-IsEarned eval raw r is_raw) res m v s
