-- ===== src/Freshness/Unresolved/Agree.antt =====
-- The classifications agree with what `Evaluate` decides.
use gesetzeswache.Prelude.{
  ◌≡◌, ◌≢◌, ◌↔◌, ◌⊎◌, inl, inr, refl, sym, ◌∙◌, ap, String, Bool, true, false, not, ◌&&◌, ◌||◌,
  ◌==◌, List, [], ◌∷◌, Memᴰ, Option, none, some, subst, arith, eq_iff, any, any-false, any_witness,
  Bool-cases, if◌then◌else◌,
}
use mathlib.Core.Option.{some-injective}
use gesetzeswache.Domain.{InstrumentRef, VRefResolution}
use gesetzeswache.Freshness.Refs.{
  kind_of, hint_of, lacks_identity, stand_reflects_ref, is_operative_instrument_ref,
  find_vref_resolution,
}
use gesetzeswache.Freshness.Eval.{Input, is_open_ref, unresolved_instrument_refs}
use gesetzeswache.Freshness.Eval.Open.{Settles, NothingOpen, unresolved-none_iff}
use gesetzeswache.Freshness.Unresolved.{
  append_classified, unseeded, classify_resolution, classify_operative, classify, collect_from,
  collect_unresolved_refs,
}

-- The classifications that keep a law from being confirmed current.
abbrev pub is_blocking : String → Bool
is_blocking c = c == "unmatched" || c == "child_not_current"

abbrev blocks : Option String → Bool
blocks none = false
blocks (some c) = is_blocking c

abbrev operative_kind : (kind hint : String) → Bool → Bool
operative_kind k h seeded =
    if k == "G"
    then false
    else if k == "V"
    then true
    else if k == "BEK"
    then not (h == "")
    else seeded && k == ""

abbrev classify_kind : (kind hint : String) → Bool → Bool → Option String → Option String
classify_kind k h seeded operative rest =
    if k == "BEK" && h == ""
    then some "ignored_bare_bek"
    else if k == "G"
    then none
    else if k == "" && not seeded
    then some "missing_seed"
    else if not operative
    then none
    else rest

-- A text does not equal two different ones.
exclusive : (k a b : String) → a ≢ b → (k == a && k == b) ≡ false
exclusive k a b ne = elim (Bool-cases (k == a)) [
  | inr e ↦ rw e refl
  | inl e ↦ elim (Bool-cases (k == b)) [
    | inr e' ↦ rw (e, e') refl
    | inl e' ↦ absurd (ne (sym ((eq_iff k a).0 e) ∙ (eq_iff k b).0 e'))
  ]
]

classify_bools :
    (g v bek blank bare seeded : Bool) (rest : Option String)
    → (v && bek) ≡ false
    → (v && blank) ≡ false
    → (bek && blank) ≡ false
    → (if g then false else if v then true else if bek then not bare else seeded && blank) ≡ true
    → (if bek && bare
        then some "ignored_bare_bek"
        else if g
        then none
        else if blank && not seeded
        then some "missing_seed"
        else rest)
      ≡ rest
classify_bools true v bek blank bare seeded rest p q r h = cc
classify_bools false true true blank bare seeded rest p q r h = cc
classify_bools false true false true bare seeded rest p q r h = cc
classify_bools false true false false bare seeded rest p q r h = refl
classify_bools false false true true bare seeded rest p q r h = cc
classify_bools false false true false true seeded rest p q r h = cc
classify_bools false false true false false seeded rest p q r h = refl
classify_bools false false false true bare true rest p q r h = refl
classify_bools false false false true bare false rest p q r h = cc
classify_bools false false false false bare true rest p q r h = refl
classify_bools false false false false bare false rest p q r h = refl

module _ (k h : String) (seeded : Bool) (rest : Option String) where
  classify_kind-operative :
      operative_kind k h seeded ≡ true → classify_kind k h seeded true rest ≡ rest
  classify_kind-operative e =
      classify_bools (k == "G") (k == "V") (k == "BEK") (k == "") (h == "") seeded rest
        (exclusive k "V" "BEK" (ground (arith, eq_iff "V" "BEK")))
        (exclusive k "V" "" (ground (arith, eq_iff "V" "")))
        (exclusive k "BEK" "" (ground (arith, eq_iff "BEK" ""))) e

  classify_kind-inoperative : blocks (classify_kind k h seeded false rest) ≡ false
  classify_kind-inoperative = ground arith

operative-kind :
    (ref : InstrumentRef) (seeded : Bool)
    → is_operative_instrument_ref ref seeded ≡ operative_kind (kind_of ref) (hint_of ref) seeded
unfolding is_operative_instrument_ref
operative-kind ref seeded = refl

-- An open citation is classified by its resolution.
classify-open :
    (in_ : Input) (ref : InstrumentRef)
    → is_open_ref in_ ref ≡ true
    → classify in_ ref ≡ classify_operative in_ ref in_.vref_resolutions
classify-open in_ ref h =
    let seeded = in_.has_seeded_linked_instruments in
    let rest = classify_operative in_ ref in_.vref_resolutions in
    let op : is_operative_instrument_ref ref seeded ≡ true = unfold is_open_ref in ground arith in
    let same =
      classify_kind-operative (kind_of ref) (hint_of ref) seeded rest
        (sym (operative-kind ref seeded) ∙ op) in
    let skip : lacks_identity ref ≡ false = unfold is_open_ref in ground arith in
    let new : stand_reflects_ref in_.stand ref ≡ false = unfold is_open_ref in ground arith in
    unfold classify in rw (skip, new, op) same

-- A citation that is not open blocks nothing.
classify-not_open :
    (in_ : Input) (ref : InstrumentRef)
    → is_open_ref in_ ref ≡ false
    → blocks (classify in_ ref) ≡ false
classify-not_open in_ ref h =
    let seeded = in_.has_seeded_linked_instruments in
    let rest = classify_operative in_ ref in_.vref_resolutions in
    elim (Bool-cases (lacks_identity ref)) [
      | inl e ↦ unfold classify in rw e refl
      | inr e ↦ elim (Bool-cases (stand_reflects_ref in_.stand ref)) [
        | inl e' ↦ unfold classify in rw (e, e') refl
        | inr e' ↦
            let op : is_operative_instrument_ref ref seeded ≡ false =
              unfold is_open_ref in ground arith in
            let quiet = classify_kind-inoperative (kind_of ref) (hint_of ref) seeded rest in
            unfold classify in rw (e, e', op) quiet
      ]
    ]

seeded_bools :
    (g v bek blank bare seeded : Bool)
    → (v && blank) ≡ false
    → (bek && blank) ≡ false
    → (if g then false else if v then true else if bek then not bare else seeded && blank) ≡ true
    → (blank && not seeded) ≡ false
seeded_bools g v bek false bare seeded p q h = refl
seeded_bools g v bek true bare true p q h = refl
seeded_bools true v bek true bare false p q h = cc
seeded_bools false true bek true bare false p q h = cc
seeded_bools false false true true bare false p q h = cc
seeded_bools false false false true bare false p q h = cc

blocks_bools :
    (historical resolved confirmed blank : Bool) (c : String)
    → is_blocking c ≡ true
    → (blocks (
          if historical
          then some "historical"
          else if resolved && confirmed
          then none
          else if not blank
          then some "child_not_current"
          else some c)
        ≡ false)
      ↔ ((historical ≡ true) ⊎ ((resolved ≡ true) × (confirmed ≡ true)))
blocks_bools true r k b c h = (λ _. inl refl, λ _. refl)
blocks_bools false true true b c h = (λ _. inr (refl, refl), λ _. refl)
blocks_bools false true false true c h =
    (λ e. cc (e, h), λ s. elim s [ inl e ↦ cc | inr (e, e') ↦ cc ])
blocks_bools false true false false c h = (λ e. cc, λ s. elim s [ inl e ↦ cc | inr (e, e') ↦ cc ])
blocks_bools false false k true c h =
    (λ e. cc (e, h), λ s. elim s [ inl e ↦ cc | inr (e, e') ↦ cc ])
blocks_bools false false k false c h = (λ e. cc, λ s. elim s [ inl e ↦ cc | inr (e, e') ↦ cc ])

-- An operative citation is never classed as one that lacks a seed.
operative-seeded :
    (in_ : Input) (ref : InstrumentRef)
    → is_open_ref in_ ref ≡ true
    → (kind_of ref == "" && not in_.has_seeded_linked_instruments) ≡ false
operative-seeded in_ ref h =
    let k = kind_of ref in
    let seeded = in_.has_seeded_linked_instruments in
    let op : is_operative_instrument_ref ref seeded ≡ true = unfold is_open_ref in ground arith in
    seeded_bools (k == "G") (k == "V") (k == "BEK") (k == "") (hint_of ref == "") seeded
      (exclusive k "V" "" (ground (arith, eq_iff "V" "")))
      (exclusive k "BEK" "" (ground (arith, eq_iff "BEK" "")))
      (sym (operative-kind ref seeded) ∙ op)

unseeded-blocks :
    (in_ : Input) (ref : InstrumentRef)
    → (kind_of ref == "" && not in_.has_seeded_linked_instruments) ≡ false
    → is_blocking (unseeded in_ ref) ≡ true
unseeded-blocks in_ ref h = rw h refl

blocks-resolution_iff :
    (in_ : Input) (ref : InstrumentRef) (o : Option VRefResolution)
    → (kind_of ref == "" && not in_.has_seeded_linked_instruments) ≡ false
    → (blocks (classify_resolution in_ ref o) ≡ false)
      ↔ ((res : VRefResolution) × (o ≡ some res) × Settles res)
unfolding classify_resolution
blocks-resolution_iff in_ ref none h = (λ e. cc (unseeded-blocks in_ ref h, e), λ (r, e, s). cc)
blocks-resolution_iff in_ ref (some res) h =
    let (to, from) =
      blocks_bools res.historical res.resolved res.child_confirmed (res.matched_gii_slug == "")
        (unseeded in_ ref) (unseeded-blocks in_ ref h) in
    (λ e. (res, refl, to e), λ (r, e, st). from (subst Settles (some-injective _ _ (sym e)) st))

-- What each entry of the list says of one citation, on the path that `Evaluate` takes.
classify-quiet_iff :
    (in_ : Input) (ref : InstrumentRef) (resolutions : List VRefResolution)
    → in_.vref_resolutions ≡ some resolutions
    → (blocks (classify in_ ref) ≡ false) ↔ (
        is_open_ref in_ ref ≡ true
        → (res : VRefResolution) × (find_vref_resolution resolutions ref ≡ some res) × Settles res)
classify-quiet_iff in_ ref resolutions given = elim (Bool-cases (is_open_ref in_ ref)) [
  | inr e ↦ (λ _ o. cc, λ _. classify-not_open in_ ref e)
  | inl e ↦
      let (to, from) =
        blocks-resolution_iff in_ ref (find_vref_resolution resolutions ref)
          (operative-seeded in_ ref e) in
      let path : classify in_ ref
          ≡ classify_resolution in_ ref (find_vref_resolution resolutions ref) =
        classify-open in_ ref e ∙ ap (classify_operative in_ ref) given in
      (λ q _. to (ap blocks (sym path) ∙ q), λ all. ap blocks path ∙ from (all e))
]

collect-any :
    (in_ : Input) (refs : List InstrumentRef)
    → any (λ u. is_blocking u.classification) (collect_from in_ refs)
      ≡ any (λ ref. blocks (classify in_ ref)) refs
unfolding collect_from
collect-any in_ [] = refl
collect-any in_ (ref ∷ refs) = step (classify in_ ref) (collect-any in_ refs)
  where
    step :
        (o : Option String)
        → any (λ u. is_blocking u.classification) (collect_from in_ refs)
          ≡ any (λ r. blocks (classify in_ r)) refs
        → any (λ u. is_blocking u.classification) (append_classified ref o (collect_from in_ refs))
          ≡ (blocks o || any (λ r. blocks (classify in_ r)) refs)
    step none ih = ih
    step (some c) ih = ap (λ b. is_blocking c || b) ih

any-false_iff {ℓ} :
    {A : Type ℓ} (p : A → Bool) (xs : List A)
    → (any p xs ≡ false) ↔ ((x : A) → Memᴰ x xs → p x ≡ false)
any-false_iff p xs = (
  λ h x m. any-false p xs x h m,
  λ all. elim (Bool-cases (any p xs)) [
    | inl e ↦ let (x, m, o) = any_witness p xs e in cc (all x m, o)
    | inr e ↦ e
  ],
)

quiet-NothingOpen_iff :
    (in_ : Input) (o : Option (List VRefResolution))
    → in_.vref_resolutions ≡ o
    → ((ref : InstrumentRef) → Memᴰ ref in_.instrument_refs → blocks (classify in_ ref) ≡ false)
      ↔ NothingOpen in_ o
quiet-NothingOpen_iff in_ none given = (
  λ all ref m. elim (Bool-cases (is_open_ref in_ ref)) [
    | inr e ↦ e
    | inl e ↦
        let path : classify in_ ref ≡ some "unmatched" =
          classify-open in_ ref e ∙ ap (classify_operative in_ ref) given in
        cc (all ref m, ap blocks path)
  ],
  λ all ref m. classify-not_open in_ ref (all ref m),
)
quiet-NothingOpen_iff in_ (some resolutions) given = (
  λ all ref m. (classify-quiet_iff in_ ref resolutions given).0 (all ref m),
  λ all ref m. (classify-quiet_iff in_ ref resolutions given).1 (all ref m),
)

-- The collected list holds an `unmatched` or `child_not_current` entry exactly when `Evaluate`
-- finds the citations unresolved.
pub collect-unresolved_iff :
    (in_ : Input)
    → (any (λ u. is_blocking u.classification) (collect_unresolved_refs in_) ≡ false)
      ↔ (unresolved_instrument_refs in_ ≡ none)
collect-unresolved_iff in_ =
    let refs = in_.instrument_refs in
    let (to, from) = any-false_iff (λ ref. blocks (classify in_ ref)) refs in
    let (to', from') = quiet-NothingOpen_iff in_ in_.vref_resolutions refl in
    let (to'', from'') = unresolved-none_iff in_ in
    let same = collect-any in_ refs in
    unfold collect_unresolved_refs in
    (λ h. from'' (to' (to (sym same ∙ h))), λ h. same ∙ from (from' (to'' h)))
