-- ===== src/Instruments/VrefProof/Backed.antt =====
-- The child that a settled citation of kind V rests on.
use gesetzeswache.Prelude.{
  ◌≡◌, ◌≢◌, ◌⊎◌, inl, inr, refl, sym, ◌∙◌, ap, subst, String, Bool, true, false, not, ◌&&◌, ◌||◌,
  ◌==◌, List, [], ◌∷◌, Memᴰ, Option, some, arith, any, eq_iff, Bool-cases, Option-cases, keep,
  keep-mem, map-mem, find_first-mem, if◌then◌else◌,
}
use gesetzeswache.Time.{Instant}
use gesetzeswache.Domain.{
  InstrumentRef, LinkedInstrument, VRefResolution, StandCitation, confirmed_current,
}
use gesetzeswache.Freshness.Eval.Open.{Settles}
use gesetzeswache.Instruments.Evidence.{MetaStandIssueStore}
use gesetzeswache.Instruments.Chain.{normalize_section_hint}
use gesetzeswache.Instruments.VrefResolve.{
  BgblIndexLookup, ChildStands, lookup_stand, is_kind_v, is_current_candidate, is_past,
  child_matches_ref, match_children_by_identity, resolve_operative_vrefs, build_child_stands,
}
use gesetzeswache.Instruments.VrefResolve.Laws.{resolve_operative_vrefs-IsRaw}
use gesetzeswache.Instruments.VrefResolve.Found.{
  IsNamed, IsNamed-mono, IsNamed-of, IsIndexed, IsFound, resolve_operative_vrefs-IsFound,
}
use gesetzeswache.Instruments.VrefResolve.Stands.{build_child_stands-IsStored}
use gesetzeswache.Instruments.VrefProof.{
  LinksReader, VRefProofContext, prove_child, apply_child_freshness_proof, is_confirmed_slug,
  past_section, superseded_section, supersede, confirmed_sibling, supersede_ref,
  mark_superseded_past_kind_v, evaluate_leaf_child_freshness, prove_vref_resolutions, is_nil,
}
use gesetzeswache.Instruments.VrefProof.Settled.{IsEarned, proven-IsEarned, confirmed_slug-earned}

abbrev section_of : LinkedInstrument → String
section_of child = normalize_section_hint child.section_hint

-- A child that succeeds the issue cited: a past child of the same chain is that issue, and the child
-- stands in the section cited or, where none is, in that of the past child.
abbrev pub IsSuccessor :
    (String → Option StandCitation)
    → List LinkedInstrument
    → InstrumentRef
    → LinkedInstrument
    → Type 0
IsSuccessor stand_of annotated ref child =
    (former : LinkedInstrument) × Memᴰ former annotated
    × (is_past former ≡ true)
    × IsNamed stand_of ref former
    × (section_of child ≢ "*")
    × ((normalize_section_hint ref.section_hint ≡ section_of child)
        ⊎ ((normalize_section_hint ref.section_hint ≡ "*")
            × (section_of former ≡ section_of child)))

-- A current child of the chain, itself confirmed current, that answers the citation: it is the issue
-- cited, the index names it for the citation, or it succeeds the issue cited.
pub record IsBacking (index : BgblIndexLookup) (stand_of : String → Option StandCitation)
    (eval : String → String) (annotated : List LinkedInstrument) (ref : InstrumentRef)
    (child : LinkedInstrument) : Type 0 where
  pub listed : Memᴰ child annotated
  pub current : is_current_candidate child ≡ true
  pub confirmed : eval child.gii_slug ≡ confirmed_current
  pub answers :
      (IsNamed stand_of ref child ⊎ IsIndexed index ref child)
      ⊎ IsSuccessor stand_of annotated ref child

IsBacking-mono :
    {index : BgblIndexLookup} {f g : String → Option StandCitation} {eval : String → String}
    {annotated : List LinkedInstrument} (ref : InstrumentRef) (child : LinkedInstrument)
    → ((k : String) (stand : StandCitation) → f k ≡ some stand → g k ≡ some stand)
    → IsBacking index f eval annotated ref child
    → IsBacking index g eval annotated ref child
IsBacking-mono ref child up b = record {
  listed = b.listed;
  current = b.current;
  confirmed = b.confirmed;
  answers = elim (b.answers) [
    | inl (inl n) ↦ inl (inl (IsNamed-mono ref child up n))
    | inl (inr i) ↦ inl (inr i)
    | inr (former, m, p, n, closed, same) ↦
        inr (former, m, p, IsNamed-mono ref former up n, closed, same)
  ];
}

-- A test that guards: behind it, its answer is known.
if_guarded :
    {A : Type 0} (P : A → Type 0) (b : Bool) {x y : A}
    → P x
    → (b ≡ false → P y)
    → P (if b then x else y)
if_guarded P true p q = p
if_guarded P false p q = q refl

module _ (confirmed : String → Bool) (annotated : List LinkedInstrument)
    (stands : ChildStands) where
  abbrev current : List LinkedInstrument
  current = keep is_current_candidate annotated

  abbrev past : List LinkedInstrument
  past = keep is_past annotated

  abbrev IsSucceeded : VRefResolution → VRefResolution → Type 0
  IsSucceeded before after =
      (after ≡ before)
      ⊎ ((child : LinkedInstrument) × Memᴰ child current
          × (confirmed child.gii_slug ≡ true)
          × (after ≡ supersede (some child) before)
          × IsSuccessor (lookup_stand stands) annotated before.ref child)

  past_section-first :
      (matches : List LinkedInstrument) (section : String)
      → past_section matches ≡ section
      → section ≢ "*"
      → (former : LinkedInstrument) × Memᴰ former matches × (section_of former ≡ section)
  unfolding past_section
  past_section-first [] section e n = absurd (n (sym e))
  past_section-first (first ∷ more) section e n =
      elim (Bool-cases (any (λ pm. not (section_of pm == section_of first)) more)) [
        | inl h ↦ absurd (n (sym (rw h at e)))
        | inr h ↦ (first, Memᴰ.head refl, rw h at e)
      ]

  former_of :
      (ref : InstrumentRef) (former : LinkedInstrument)
      → Memᴰ former (match_children_by_identity ref past stands)
      → Memᴰ former annotated × (is_past former ≡ true) × IsNamed (lookup_stand stands) ref former
  unfolding match_children_by_identity
  former_of ref former m =
      let (k, h) = keep-mem (λ child. child_matches_ref ref child stands) past former m in
      let (j, p) = keep-mem is_past annotated former k in (j, p, IsNamed-of stands ref former h)

  successor :
      (ref : InstrumentRef) (child : LinkedInstrument)
      → is_nil (match_children_by_identity ref past stands) ≡ false
      → (superseded_section ref (match_children_by_identity ref past stands) == "*") ≡ false
      → section_of child ≡ superseded_section ref (match_children_by_identity ref past stands)
      → IsSuccessor (lookup_stand stands) annotated ref child
  unfolding superseded_section
  successor ref child some_past closed same =
      elim (Bool-cases (normalize_section_hint ref.section_hint == "*")) [
        | inl e ↦
            let same_past : past_section (match_children_by_identity ref past stands)
                ≡ section_of child =
              sym (rw e at same) in
            let (former, m, q) = past_section-first _ (section_of child) same_past filled in
            let (k, p, n) = former_of ref former m in
            (former, k, p, n, filled, inr ((eq_iff _ _).0 e, q))
        | inr e ↦
            let (former, m) = some_match _ some_past in
            let (k, p, n) = former_of ref former m in
            (former, k, p, n, filled, inl (sym (rw e at same)))
      ]
    where
      filled : section_of child ≢ "*"
      filled q = cc (closed, (eq_iff _ _).1 (sym same ∙ q))

      some_match :
          (xs : List LinkedInstrument)
          → is_nil xs ≡ false
          → (former : LinkedInstrument) × Memᴰ former xs
      some_match [] h = cc h
      some_match (x ∷ xs) h = (x, Memᴰ.head refl)

  sibling-IsSucceeded :
      (section : String) (res : VRefResolution)
      → ((child : LinkedInstrument)
          → section_of child ≡ section
          → IsSuccessor (lookup_stand stands) annotated res.ref child)
      → IsSucceeded res (supersede (confirmed_sibling confirmed current past stands section) res)
  unfolding confirmed_sibling
  sibling-IsSucceeded section res succeeds =
      elim (Option-cases (confirmed_sibling confirmed current past stands section)) [
        | inl e ↦ rw e (inl refl)
        | inr (child, e) ↦
            let (m, h) = find_first-mem _ current e in
            let (same, sure) = both (section_of child == section) _ h in
            rw e (inr (child, m, sure, refl, succeeds child ((eq_iff _ _).0 same)))
      ]
    where
      both : (a b : Bool) → (a && b) ≡ true → (a ≡ true) × (b ≡ true)
      both a b h = ground arith

  supersede_ref-IsSucceeded :
      (res : VRefResolution) → IsSucceeded res (supersede_ref confirmed current past stands res)
  supersede_ref-IsSucceeded res =
      let kept : IsSucceeded res res = inl refl in
      let matches = match_children_by_identity res.ref past stands in
      let section = superseded_section res.ref matches in
      let superseded = supersede (confirmed_sibling confirmed current past stands section) res in
      let P = IsSucceeded res in
      let closed : is_nil matches ≡ false → P (if section == "*" then res else superseded) = λ n.
        if_guarded P (section == "*") kept
          (λ c. sibling-IsSucceeded section res (λ child q. successor res.ref child n c q)) in
      unfold supersede_ref in
      if_guarded P res.historical kept (λ _.
        if_guarded P (res.resolved && res.child_confirmed) kept (λ _.
          if_guarded P (not (res.matched_gii_slug == "")) kept (λ _.
            if_guarded P (not (is_kind_v res.ref)) kept
              (λ _. if_guarded P (is_nil matches) kept closed))))

module _ (index : BgblIndexLookup) (annotated : List LinkedInstrument) (stands : ChildStands)
    (eval : String → String) where
  -- What `ApplyChildFreshnessProof` answers: a child of the chain, and one that was proved where the
  -- resolution is resolved.
  abbrev IsProved : VRefResolution → Type 0
  IsProved res =
      IsFound index (keep is_current_candidate annotated) stands res.ref res
      × (res.resolved ≡ true → res.matched_gii_slug ≢ "")

  prove_child-IsProved :
      (res : VRefResolution)
      → res.resolved ≡ false
      → IsFound index (keep is_current_candidate annotated) stands res.ref res
      → IsProved (prove_child eval res)
  prove_child-IsProved res unresolved f =
      let untouched : IsProved res = (f, λ e. cc (e, unresolved)) in
      unfold prove_child in
      if_guarded IsProved (res.historical || res.matched_gii_slug == "") untouched (λ h.
        if_guarded IsProved (eval res.matched_gii_slug == confirmed_current)
          (f, λ _ q. cc (second res.historical _ h, (eq_iff res.matched_gii_slug "").1 q))
          (λ _. untouched))
    where
      second : (a b : Bool) → (a || b) ≡ false → b ≡ false
      second a b h = ground arith

  settled-IsBacking :
      (confirmed : String → Bool) (before res : VRefResolution)
      → ((slug : String) → confirmed slug ≡ true → eval slug ≡ confirmed_current)
      → IsProved before
      → IsEarned eval before
      → IsSucceeded confirmed annotated stands before res
      → is_kind_v res.ref ≡ true
      → Settles res
      → (child : LinkedInstrument) × IsBacking index
          (lookup_stand stands)
          eval
          annotated
          res.ref
          child
  settled-IsBacking confirmed before res sure proved earned (inl e) v (inl past) =
      cc (past, ap (λ r. r.historical) e, earned.1 (sym (ap (λ r. is_kind_v r.ref) e) ∙ v))
  settled-IsBacking confirmed before res sure proved earned (inl e) v (inr (resolved, _)) =
      let was = sym (ap (λ r. r.resolved) e) ∙ resolved in
      elim (proved.0) [
        | inl none_found ↦ absurd (proved.1 was none_found)
        | inr (child, m, slug, how) ↦
            let (k, cur) = keep-mem is_current_candidate annotated child m in
            (
              child,
              record {
                listed = k;
                current = cur;
                confirmed = rw (← slug) (earned.0 was);
                answers = inl (
                    subst
                      (λ ref. IsNamed (lookup_stand stands) ref child ⊎ IsIndexed index ref child)
                      (sym (ap (λ r. r.ref) e)) how);
              },
            )
      ]
  settled-IsBacking confirmed before res sure proved earned (inr (child, m, c, e, how)) v s =
      let (k, cur) = keep-mem is_current_candidate annotated child m in
      (
        child,
        record {
          listed = k;
          current = cur;
          confirmed = sure child.gii_slug c;
          answers = inr (
              subst (λ ref. IsSuccessor (lookup_stand stands) annotated ref child)
                (sym (ap (λ r. r.ref) e)) how);
        },
      )

-- A resolution of kind V that settles its citation rests on a current child of the chain that answers
-- the citation and is itself confirmed current.
pub prove_vref-IsBacking :
    (clock : Instant) (refs : List InstrumentRef) (annotated : List LinkedInstrument)
    (parent : StandCitation) (st : MetaStandIssueStore) (index : BgblIndexLookup)
    (links : LinksReader) (ctx : VRefProofContext) (res : VRefResolution)
    → Memᴰ res (prove_vref_resolutions clock refs annotated parent st index links ctx)
    → is_kind_v res.ref ≡ true
    → Settles res
    → (child : LinkedInstrument) × IsBacking index st.get_stand
        (λ slug. evaluate_leaf_child_freshness clock st links slug ctx)
        annotated
        res.ref
        child
unfolding prove_vref_resolutions mark_superseded_past_kind_v apply_child_freshness_proof
prove_vref-IsBacking clock refs annotated parent st index links ctx res m v s =
    let eval : String → String = λ slug. evaluate_leaf_child_freshness clock st links slug ctx in
    let stands = build_child_stands annotated st in
    let raw = resolve_operative_vrefs refs annotated stands index parent in
    let proven = apply_child_freshness_proof raw eval in
    let is_raw = resolve_operative_vrefs-IsRaw refs annotated stands index parent in
    let earned : (r : VRefResolution) → Memᴰ r proven → IsEarned eval r =
      λ r. proven-IsEarned eval raw r is_raw in
    let confirmed = is_confirmed_slug proven in
    let current = keep is_current_candidate annotated in
    let past = keep is_past annotated in
    let (before, k, e) = map-mem (supersede_ref confirmed current past stands) proven res m in
    let (r, j, q) = map-mem (prove_child eval) raw before k in
    let found = resolve_operative_vrefs-IsFound refs annotated stands index parent r j in
    let proved =
      prove_child-IsProved index annotated stands eval r ((is_raw r j).unresolved) found in
    let (child, backing) =
      settled-IsBacking index annotated stands eval confirmed before res
        (λ slug h. confirmed_slug-earned eval proven slug earned h)
        (subst (IsProved index annotated stands eval) (sym q) proved) (earned before k)
        (subst (IsSucceeded confirmed annotated stands before) (sym e)
          (supersede_ref-IsSucceeded confirmed annotated stands before))
        v s in
    (child, IsBacking-mono res.ref child (build_child_stands-IsStored st annotated) backing)
