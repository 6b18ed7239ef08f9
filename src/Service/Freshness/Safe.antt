-- ===== src/Service/Freshness/Safe.antt =====
-- What a law that is safe to serve rests on.
use gesetzeswache.Prelude.{Option}
use gesetzeswache.Prelude.{
  ◌≡◌, ◌<◌, ◌⊎◌, eqb_iff, inl, inr, ◌∙◌, String, Bool, true, false, not, ◌&&◌, ◌==◌, List, Memᴰ,
  some, arith, eq_iff, pos_part, find_first-mem, eqb,
}
use gesetzeswache.Prelude.{if◌then◌else◌, ◌||◌}
use gesetzeswache.Time.{max_duration}
use gesetzeswache.Domain.{
  LinkedInstrument, Law, InstrumentRef, StandCitation, VRefResolution, confirmed_current,
}
use gesetzeswache.Freshness.Evidence.{or_default_age}
use gesetzeswache.Freshness.Refs.{kind_of, hint_of, ref_identity_equal, find_vref_resolution}
use gesetzeswache.Freshness.Eval.{Input, is_open_ref, evaluate}
use gesetzeswache.Freshness.Eval.Open.{Settles, AllSettled}
use gesetzeswache.Freshness.Eval.Verdict.{IsProvenCurrent, evaluate-current_iff}
use gesetzeswache.Instruments.VrefResolve.{BgblIndexLookup, is_kind_v}
use gesetzeswache.Instruments.VrefProof.{evaluate_leaf_child_freshness}
use gesetzeswache.Instruments.VrefProof.Backed.{IsBacking, prove_vref-IsBacking}
use gesetzeswache.Service.Links.{StoreOps}
use gesetzeswache.Service.Freshness.{
  IncludeOpts, Setup, reads, links_reader, proof_context, input_for, annotated_for, resolutions_for,
  read_failed, response_for, served_input, meta_of, freshness_of,
}

-- The same citation: the same kind and section, and the same issue.
pub record IsSameCitation (a b : InstrumentRef) : Type 0 where
  pub kind : kind_of a ≡ kind_of b
  pub hint : hint_of a ≡ hint_of b
  pub year : a.year ≡ b.year
  pub number : a.number ≡ b.number
  pub teil : (a.teil ≡ 0) ⊎ (b.teil ≡ 0) ⊎ (a.teil ≡ b.teil)

IsSameCitation-of : (a b : InstrumentRef) → ref_identity_equal a b ≡ true → IsSameCitation a b
unfolding ref_identity_equal
IsSameCitation-of a b e =
    let (y, n, t, k, h) =
      by_tests (eqb a.year b.year) (a.number == b.number) (eqb a.teil 0) (eqb b.teil 0)
        (eqb a.teil b.teil) (kind_of a == kind_of b) (hint_of a == hint_of b) e in
    record {
      kind = (eq_iff _ _).0 k;
      hint = (eq_iff _ _).0 h;
      year = (eqb_iff a.year b.year).0 y;
      number = (eq_iff _ _).0 n;
      teil = elim t [
        | inl z ↦ inl ((eqb_iff a.teil 0).0 z)
        | inr (inl z) ↦ inr (inl ((eqb_iff b.teil 0).0 z))
        | inr (inr z) ↦ inr (inr ((eqb_iff a.teil b.teil).0 z))
      ];
    }
  where
    by_tests :
        (y n ta tb t k h : Bool)
        → (if not y || not n
            then false
            else if not ta && not tb && not t
            then false
            else if not k
            then false
            else if not h
            then false
            else true)
          ≡ true
        → (y ≡ true)
          × (n ≡ true)
          × ((ta ≡ true) ⊎ (tb ≡ true) ⊎ (t ≡ true))
          × (k ≡ true)
          × (h ≡ true)
    by_tests y n ta tb t k h e = ground arith

-- The citation has a resolution under its identity, and a child that backs it.
abbrev pub IsAnswered :
    BgblIndexLookup
    → (String → Option StandCitation)
    → (String → String)
    → List LinkedInstrument
    → InstrumentRef
    → Type 0
IsAnswered index stand_of eval annotated ref =
    (cited : InstrumentRef) × (child : LinkedInstrument) × IsSameCitation cited ref
    × IsBacking index stand_of eval annotated cited child

-- A citation of kind V that is open and settled is answered by a confirmed child.
pub settled-IsAnswered :
    (in_ : Input) (resolutions : List VRefResolution) (index : BgblIndexLookup)
    (stand_of : String → Option StandCitation) (eval : String → String)
    (annotated : List LinkedInstrument) (ref : InstrumentRef)
    → AllSettled in_ resolutions
    → ((res : VRefResolution)
        → Memᴰ res resolutions
        → is_kind_v res.ref ≡ true
        → Settles res
        → (child : LinkedInstrument) × IsBacking index stand_of eval annotated res.ref child)
    → Memᴰ ref in_.instrument_refs
    → is_open_ref in_ ref ≡ true
    → is_kind_v ref ≡ true
    → IsAnswered index stand_of eval annotated ref
unfolding find_vref_resolution is_kind_v
settled-IsAnswered in_ resolutions index stand_of eval annotated ref all backed m open_ref v =
    let (res, found, settles) = all ref m open_ref in
    let (k, same) = found_mem res found in
    let citation = IsSameCitation-of res.ref ref same in
    let (child, backing) = backed res k (to_v res (citation.kind ∙ (eq_iff _ _).0 v)) settles in
    (res.ref, child, citation, backing)
  where
    found_mem :
        (res : VRefResolution)
        → find_vref_resolution resolutions ref ≡ some res
        → Memᴰ res resolutions × (ref_identity_equal res.ref ref ≡ true)
    found_mem res e = find_first-mem _ resolutions e

    to_v : (res : VRefResolution) → kind_of res.ref ≡ "V" → is_kind_v res.ref ≡ true
    to_v res e = (eq_iff _ _).1 e

module _ {S : Type 0} (st : StoreOps S) (setup : Setup) where
  -- The verdict on a child, as the request computes it.
  abbrev pub child_state : IncludeOpts → (law_id : String) → S → (slug : String) → String
  child_state opts law_id s slug =
      let s₁ = (response_for st setup opts s law_id).1 in
      evaluate_leaf_child_freshness setup.clock (reads st setup s₁) (links_reader st setup s₁) slug
        (proof_context st setup s (read_failed st setup s law_id))

  verdict :
      (law : Law) (opts : IncludeOpts) (law_id : String) (stand : StandCitation) (s : S)
      → (freshness_of st setup law opts law_id (stand, s)).0.safe_to_serve ≡ true
      → (evaluate setup.clock (served_input st setup opts law_id stand s)).state ≡ confirmed_current
  unfolding freshness_of meta_of
  verdict law opts law_id stand s safe = (eq_iff _ confirmed_current).0 safe

  age :
      (opts : IncludeOpts) (law_id : String) (stand : StandCitation) (s : S)
      → pos_part (or_default_age setup.max_age) < max_duration
      → pos_part (or_default_age (served_input st setup opts law_id stand s).max_age) < max_duration
  unfolding served_input input_for
  age opts law_id stand s small = small

  -- A law that is answered as safe to serve was proven current on what the request read, provided
  -- that the configured age, by default six hours, is below the longest duration.
  pub freshness_of-safe_to_serve :
      (law : Law) (opts : IncludeOpts) (law_id : String) (stand : StandCitation) (s : S)
      → pos_part (or_default_age setup.max_age) < max_duration
      → (freshness_of st setup law opts law_id (stand, s)).0.safe_to_serve ≡ true
      → IsProvenCurrent setup.clock (served_input st setup opts law_id stand s)
  freshness_of-safe_to_serve law opts law_id stand s small safe =
      (evaluate-current_iff setup.clock (served_input st setup opts law_id stand s)
          (age opts law_id stand s small)).0
        (verdict law opts law_id stand s safe)

  -- A child of the law that answers a citation, confirmed current in the same request.
  abbrev pub IsServed : IncludeOpts → (law_id : String) → S → InstrumentRef → Type 0
  IsServed opts law_id s ref =
      let s₁ = (response_for st setup opts s law_id).1 in
      IsAnswered (some (λ teil year number. st.lookup_bgbl_index s₁ teil year number))
        (λ k. st.get_stand s₁ k) (child_state opts law_id s) (annotated_for st setup s law_id) ref

  IsServed-backed :
      (opts : IncludeOpts) (law_id : String) (stand : StandCitation) (s : S) (ref : InstrumentRef)
      → IsProvenCurrent setup.clock (served_input st setup opts law_id stand s)
      → Memᴰ ref (served_input st setup opts law_id stand s).instrument_refs
      → is_open_ref (served_input st setup opts law_id stand s) ref ≡ true
      → is_kind_v ref ≡ true
      → IsServed opts law_id s ref
  unfolding served_input input_for resolutions_for reads
  IsServed-backed opts law_id stand s ref proven =
      settled-IsAnswered (served_input st setup opts law_id stand s) _ _ _
        (child_state opts law_id s) (annotated_for st setup s law_id) ref proven.settled
        (prove_vref-IsBacking setup.clock _ (annotated_for st setup s law_id) stand _ _ _ _)

  -- If a law is answered as safe to serve, then each of its citations of kind V that is open is
  -- answered by a current child of the law's chain that was evaluated in the same request and
  -- found confirmed current. The child answers a citation of the same kind, section, year and
  -- number, and of the same part where both name one: it is the issue cited, by its notes or
  -- its own Stand, or the index names it for the citation, or a past child is the issue cited
  -- and the child stands in the section cited, or in that of the past child where the citation
  -- names none. The configured age, by default six hours, is below the longest duration.
  pub freshness_of-children_confirmed :
      (law : Law) (opts : IncludeOpts) (law_id : String) (stand : StandCitation) (s : S)
      (ref : InstrumentRef)
      → pos_part (or_default_age setup.max_age) < max_duration
      → (freshness_of st setup law opts law_id (stand, s)).0.safe_to_serve ≡ true
      → Memᴰ ref (served_input st setup opts law_id stand s).instrument_refs
      → is_open_ref (served_input st setup opts law_id stand s) ref ≡ true
      → is_kind_v ref ≡ true
      → IsServed opts law_id s ref
  freshness_of-children_confirmed law opts law_id stand s ref small safe =
      IsServed-backed opts law_id stand s ref
        (freshness_of-safe_to_serve law opts law_id stand s small safe)
