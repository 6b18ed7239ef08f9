-- ===== src/Instruments/VrefResolve/Found.antt =====
-- Where the child of a resolution comes from.
use mathlib.Core.List.Memᴰ
use gesetzeswache.Prelude.{
  ◌≡◌, ◌≢◌, ◌⊎◌, inl, inr, refl, sym, String, Bool, true, false, not, ◌&&◌, ◌||◌, ◌==◌, List, [],
  ◌∷◌, subst, Memᴰ, Option, none, some, arith, Bool-cases, Option-cases, eqb, eqb_iff, ltb, eq_iff,
  any, any_witness, keep, keep-mem, find_first-mem,
}
use gesetzeswache.Normalize.{key}
use gesetzeswache.Domain.{InstrumentRef, LinkedInstrument, VRefResolution, StandCitation}
use gesetzeswache.Citation.Instruments.{parse_linked_instruments}
use gesetzeswache.Instruments.Chain.{normalize_section_hint}
use gesetzeswache.Instruments.VrefResolve.Laws.{
  resolve_loop-nil, resolve_loop-step, answer, answer-IsRaw,
}
use gesetzeswache.Instruments.VrefResolve.{
  BgblIndexLookup, ChildStands, lookup_stand, ref_identity_matches, child_lookup_keys,
  stand_identity, key_list, stand_matches_ref, child_matches_ref, match_children_by_identity,
  filter_children_by_section_hint, find_child_by_slug_or_law_id, index_match, is_current_candidate,
  is_past, is_kind_v, CurrentMatch, one_child, ambiguous, no_child, by_section, current_match,
  is_nil, past_step, index_step, fall_through, resolve_ref, resolve_loop, resolve_operative_vrefs,
}

-- The same number of the same year, of the same part where both name one.
pub record IsSameIssue (a b : InstrumentRef) : Type 0 where
  pub year : a.year ≡ b.year
  pub number : a.number ≡ b.number
  pub teil : (a.teil ≡ 0) ⊎ (b.teil ≡ 0) ⊎ (a.teil ≡ b.teil)

IsSameIssue-of : (a b : InstrumentRef) → ref_identity_matches a b ≡ true → IsSameIssue a b
unfolding ref_identity_matches
IsSameIssue-of a b h =
    let year = eqb_iff a.year b.year in
    let number = eq_iff a.number b.number in
    let none_a = eqb_iff a.teil 0 in
    let none_b = eqb_iff b.teil 0 in
    let teil = eqb_iff a.teil b.teil in
    elim (Bool-cases (not (eqb a.year b.year) || not (a.number == b.number))) [
      | inl e ↦ cc (rw e at h)
      | inr e ↦
          let (y, n) = halves _ _ e in
          elim (Bool-cases (eqb a.teil 0)) [
            | inl z ↦ record { year = year.0 y; number = number.0 n; teil = inl (none_a.0 z) }
            | inr z ↦ elim (Bool-cases (eqb b.teil 0)) [
              | inl w ↦ record {
                year = year.0 y;
                number = number.0 n;
                teil = inr (inl (none_b.0 w));
              }
              | inr w ↦ elim (Bool-cases (eqb a.teil b.teil)) [
                | inl t ↦ record {
                  year = year.0 y;
                  number = number.0 n;
                  teil = inr (inr (teil.0 t));
                }
                | inr t ↦ cc (rw (e, z, w, t) at h)
              ]
            ]
          ]
    ]
  where
    halves : (p q : Bool) → (not p || not q) ≡ false → (p ≡ true) × (q ≡ true)
    halves p q e = ground arith

-- A child that is the issue cited: its notes name it, or its own Stand, under the key of its law or
-- of its slug, is it or names it.
abbrev pub IsNamed : (String → Option StandCitation) → InstrumentRef → LinkedInstrument → Type 0
IsNamed stand_of ref child =
    ((other : InstrumentRef) × Memᴰ other (parse_linked_instruments child.notes)
      × IsSameIssue ref other)
    ⊎ ((k : String) × (stand : StandCitation) × ((k ≡ key child.law_id) ⊎ (k ≡ key child.gii_slug))
        × (stand_of k ≡ some stand)
        × (IsSameIssue ref (stand_identity stand)
            ⊎ ((other : InstrumentRef) × Memᴰ other (parse_linked_instruments stand.raw)
                × IsSameIssue ref other)))

pub IsNamed-mono :
    {f g : String → Option StandCitation} (ref : InstrumentRef) (child : LinkedInstrument)
    → ((k : String) (stand : StandCitation) → f k ≡ some stand → g k ≡ some stand)
    → IsNamed f ref child
    → IsNamed g ref child
IsNamed-mono ref child up (inl n) = inl n
IsNamed-mono ref child up (inr (k, stand, m, e, n)) = inr (k, stand, m, up k stand e, n)

key_list-mem : (k j : String) → Memᴰ j (key_list k) → j ≡ k
key_list-mem k j m = elim (Bool-cases (k == "")) [
  | inl e ↦ elim (rw e at m) [ ]
  | inr e ↦ only (rw e at m)
]
  where
    only : Memᴰ j (k ∷ []) → j ≡ k
    only n = elim (Memᴰ.cases_cons n) [ inl q ↦ q | inr n' ↦ elim n' [ ] ]

keys-mem :
    (child : LinkedInstrument) (j : String)
    → Memᴰ j (child_lookup_keys child)
    → (j ≡ key child.law_id) ⊎ (j ≡ key child.gii_slug)
unfolding child_lookup_keys
keys-mem child j m = elim (Memᴰ.append_cases (key_list (key child.law_id)) m) [
  | inl n ↦ inl (key_list-mem _ j n)
  | inr n ↦ inr (key_list-mem _ j n)
]

either : (a b : Bool) → (a || b) ≡ true → (a ≡ true) ⊎ (b ≡ true)
either a b h = ground arith

both : (a b : Bool) → (a && b) ≡ true → (a ≡ true) × (b ≡ true)
both a b h = ground arith

issue_among :
    (ref : InstrumentRef) (others : List InstrumentRef)
    → any (ref_identity_matches ref) others ≡ true
    → (other : InstrumentRef) × Memᴰ other others × IsSameIssue ref other
issue_among ref others h =
    let (other, m, e) = any_witness (ref_identity_matches ref) others h in
    (other, m, IsSameIssue-of ref other e)

named_by_stand :
    (ref : InstrumentRef) (stand : StandCitation)
    → stand_matches_ref ref (some stand) ≡ true
    → IsSameIssue ref (stand_identity stand)
      ⊎ ((other : InstrumentRef) × Memᴰ other (parse_linked_instruments stand.raw)
          × IsSameIssue ref other)
unfolding stand_matches_ref
named_by_stand ref stand e = elim (either _ _ e) [
  | inl q ↦
      let (dated, m) = both (ltb 0 stand.year && not (stand.number == "")) _ q in
      inl (IsSameIssue-of ref (stand_identity stand) m)
  | inr q ↦ inr (issue_among ref _ q)
]

pub IsNamed-of :
    (stands : ChildStands) (ref : InstrumentRef) (child : LinkedInstrument)
    → child_matches_ref ref child stands ≡ true
    → IsNamed (lookup_stand stands) ref child
unfolding child_matches_ref
IsNamed-of stands ref child h = elim (either _ _ h) [
  | inl e ↦ inl (issue_among ref _ e)
  | inr e ↦
      let (k, m, e') =
        any_witness (λ k. stand_matches_ref ref (lookup_stand stands k)) (child_lookup_keys child)
          e in
      elim (Option-cases (lookup_stand stands k)) [
        | inl n ↦ cc (rw n at e')
        | inr (stand, n) ↦
            inr (k, stand, keys-mem child k m, n, named_by_stand ref stand (rw n at e'))
      ]
]

-- A child that the index names for the citation, by the key of its slug or of its law.
abbrev pub IsIndexed : BgblIndexLookup → InstrumentRef → LinkedInstrument → Type 0
IsIndexed none ref child = ⊥
IsIndexed (some lookup) ref child =
    (slug law_id : String) × (lookup ref.teil ref.year ref.number ≡ some (slug, law_id))
    × (((key slug ≢ "") × (key child.gii_slug ≡ key slug))
        ⊎ ((key law_id ≢ "") × (key child.law_id ≡ key law_id)))

found_child :
    (slug law_id : String) (child : LinkedInstrument)
    → ((not (key slug == "") && key child.gii_slug == key slug)
        || (not (key law_id == "") && key child.law_id == key law_id))
      ≡ true
    → ((key slug ≢ "") × (key child.gii_slug ≡ key slug))
      ⊎ ((key law_id ≢ "") × (key child.law_id ≡ key law_id))
found_child slug law_id child h = elim (either _ _ h) [
  | inl e ↦ let (n, q) = both _ _ e in inl (filled (key slug) n, (eq_iff _ _).0 q)
  | inr e ↦ let (n, q) = both _ _ e in inr (filled (key law_id) n, (eq_iff _ _).0 q)
]
  where
    filled : (k : String) → not (k == "") ≡ true → k ≢ ""
    filled k n q = cc (n, (eq_iff k "").1 q)

index_match-IsIndexed :
    (index : BgblIndexLookup) (current : List LinkedInstrument) (ref : InstrumentRef)
    (child : LinkedInstrument)
    → index_match index current ref ≡ some child
    → Memᴰ child current × IsIndexed index ref child
unfolding index_match find_child_by_slug_or_law_id
index_match-IsIndexed none current ref child e = cc e
index_match-IsIndexed (some lookup) current ref child e =
    elim (Option-cases (lookup ref.teil ref.year ref.number)) [
      | inl n ↦ cc (rw n at e)
      | inr ((slug, law_id), n) ↦
          let (m, h) = find_first-mem _ current (rw n at e) in
          (m, (slug, law_id, n, found_child slug law_id child h))
    ]

by_section-one :
    (xs : List LinkedInstrument) (child : LinkedInstrument)
    → by_section xs ≡ one_child child
    → Memᴰ child xs
by_section-one [] child e = cc e
by_section-one (x ∷ []) child e = let q : x ≡ child = cc e in Memᴰ.head (sym q)
by_section-one (x ∷ y ∷ more) child e = cc e

filter_children-mem :
    (xs : List LinkedInstrument) (hint : String) (child : LinkedInstrument)
    → Memᴰ child (filter_children_by_section_hint xs hint)
    → Memᴰ child xs
unfolding filter_children_by_section_hint
filter_children-mem xs hint child m = elim (Bool-cases (normalize_section_hint hint == "*")) [
  | inl e ↦ elim (rw e at m) [ ]
  | inr e ↦ (keep-mem _ xs child (rw e at m)).0
]

current_match-mem :
    (xs : List LinkedInstrument) (hint : String) (child : LinkedInstrument)
    → current_match xs hint ≡ one_child child
    → Memᴰ child xs
unfolding current_match
current_match-mem [] hint child e = cc e
current_match-mem (x ∷ []) hint child e = let q : x ≡ child = cc e in Memᴰ.head (sym q)
current_match-mem (x ∷ y ∷ more) hint child e =
    filter_children-mem (x ∷ y ∷ more) hint child (by_section-one _ child e)

module _ (index : BgblIndexLookup) (current : List LinkedInstrument) (stands : ChildStands) where
  -- A resolution with no child yet, or with one of the law's current children, which is the issue
  -- cited or which the index names for it.
  abbrev pub IsFound : InstrumentRef → VRefResolution → Type 0
  IsFound ref res =
      (res.matched_gii_slug ≡ "")
      ⊎ ((child : LinkedInstrument) × Memᴰ child current
          × (res.matched_gii_slug ≡ child.gii_slug)
          × (IsNamed (lookup_stand stands) ref child ⊎ IsIndexed index ref child))

  past_step-IsFound :
      (past : List LinkedInstrument) (ref : InstrumentRef) (res : VRefResolution)
      → IsFound ref res
      → IsFound ref (past_step past stands ref res)
  unfolding past_step
  past_step-IsFound past ref res f =
      elim (Bool-cases (res.matched_gii_slug == "" && not (is_kind_v ref))) [
        | inr e ↦ rw e f
        | inl e ↦ elim (Bool-cases (is_nil (match_children_by_identity ref past stands))) [
          | inl n ↦ rw (e, n) f
          | inr n ↦ rw (e, n) f
        ]
      ]

  index_step-IsFound :
      (ref : InstrumentRef) (res : VRefResolution)
      → IsFound ref res
      → IsFound ref (index_step (index_match index current ref) res)
  index_step-IsFound ref res f = elim (Option-cases (index_match index current ref)) [
    | inl n ↦ rw n f
    | inr (child, n) ↦
        let (m, i) = index_match-IsIndexed index current ref child n in
        rw n (inr (child, m, refl, inr i))
  ]

  fall_through-IsFound :
      (past : List LinkedInstrument) (ref : InstrumentRef) (res : VRefResolution)
      → IsFound ref res
      → IsFound ref (fall_through index current past stands ref res)
  unfolding fall_through
  fall_through-IsFound past ref res f = elim (Bool-cases (res.matched_gii_slug == "")) [
    | inl e ↦ rw e (past_step-IsFound past ref _ (index_step-IsFound ref res f))
    | inr e ↦ rw e (past_step-IsFound past ref res f)
  ]

  resolve_ref-IsFound :
      (past : List LinkedInstrument) (ref : InstrumentRef) (m : CurrentMatch)
      → ((child : LinkedInstrument)
          → m ≡ one_child child
          → Memᴰ child (match_children_by_identity ref current stands))
      → IsFound ref (resolve_ref index current past stands ref m)
  unfolding resolve_ref match_children_by_identity
  resolve_ref-IsFound past ref ambiguous all = inl refl
  resolve_ref-IsFound past ref (one_child child) all =
      let (m, h) = keep-mem _ current child (all child refl) in
      fall_through-IsFound past ref _ (inr (child, m, refl, inl (IsNamed-of stands ref child h)))
  resolve_ref-IsFound past ref no_child all = fall_through-IsFound past ref _ (inl refl)

  resolve_loop-IsFound :
      (past : List LinkedInstrument) (parent : StandCitation) (has_linked : Bool)
      (refs : List InstrumentRef) (res : VRefResolution)
      → Memᴰ res (resolve_loop index current past stands parent has_linked refs)
      → IsFound res.ref res
  resolve_loop-IsFound past parent has_linked [] res m =
      elim (rw (resolve_loop-nil index current past stands parent has_linked) at m) [ ]
  resolve_loop-IsFound past parent has_linked (ref ∷ refs) res m =
      let raw = answer-IsRaw index current past stands parent has_linked ref in
      let found : IsFound ref (answer index current past stands parent has_linked ref) =
        resolve_ref-IsFound past ref _ (λ child.
          current_match-mem (match_children_by_identity ref current stands) ref.section_hint
            child) in
      elim (resolve_loop-step index current past stands parent has_linked ref refs) [
        | inr (e, step) ↦ resolve_loop-IsFound past parent has_linked refs res (rw step at m)
        | inl (e, step) ↦ elim (Memᴰ.cases_cons (rw step at m)) [
          | inl q ↦
              subst (λ r. IsFound r.ref r) (sym q)
                (subst (λ r. IsFound r (answer index current past stands parent has_linked ref))
                  (sym raw.about) found)
          | inr n ↦ resolve_loop-IsFound past parent has_linked refs res n
        ]
      ]

-- A resolution of `ResolveOperativeVRefs` names a current child of the chain or none.
pub resolve_operative_vrefs-IsFound :
    (refs : List InstrumentRef) (annotated : List LinkedInstrument) (stands : ChildStands)
    (index : BgblIndexLookup) (parent : StandCitation) (res : VRefResolution)
    → Memᴰ res (resolve_operative_vrefs refs annotated stands index parent)
    → IsFound index (keep is_current_candidate annotated) stands res.ref res
unfolding resolve_operative_vrefs
resolve_operative_vrefs-IsFound refs annotated stands index parent res m =
    resolve_loop-IsFound index (keep is_current_candidate annotated) stands (keep is_past annotated)
      parent (not (is_nil annotated)) refs res m
