-- ===== src/Sync/Reconcile/Judged.antt =====
-- What a verdict behind a run was judged on.
use gesetzeswache.Prelude.{
  ◌≡◌, ◌⊎◌, inl, inr, refl, sym, ◌∙◌, ap, ℕ, suc, String, Bool, Option, none, some, List, [], ◌∷◌,
  ◌++◌, Bool-cases, if◌then◌else◌, ltb, length,
}
use gesetzeswache.Time.{Instant}
use gesetzeswache.Domain.{Law, StandCitation, FreshnessRecord}
use gesetzeswache.Freshness.Eval.{
  Input, is_open_ref, evaluate, judge, settle, unresolved_instrument_refs, initial_record, time_of,
  sync_within_max_age,
}
use gesetzeswache.Freshness.Eval.Gates.{collected}
use gesetzeswache.Instruments.VrefProof.{stand_or_none}
use gesetzeswache.Service.Links.{repair_stand_if_needed}
use gesetzeswache.Service.Freshness.{Setup}
use gesetzeswache.Sync.Reconcile.{
  SyncOps, Heuristics, Pass, heuristic_links, heuristic_link, pass_of, annotated_in,
  reconciled_input, ensure_rows, judged, reconcile_law, reconcile_laws, with_listed, reconcile,
}
use gesetzeswache.Sync.Reconcile.Kept.{
  VerdictLaws, if_both, ensure_rows-verdict, repaired-verdict, snapshot-verdict,
}

settle-law_id :
    (why : Option String) (h : Bool) (rec : FreshnessRecord)
    → (settle why h rec).law_id ≡ rec.law_id
settle-law_id (some why) h rec = refl
settle-law_id none h rec = refl

judge-law_id :
    (in_ : Input) (newer : List String) (rec : FreshnessRecord)
    → (judge in_ newer rec).law_id ≡ rec.law_id
unfolding judge
judge-law_id in_ newer rec = elim (Bool-cases (ltb 0 (length newer))) [
  | inl e ↦ rw e refl
  | inr e ↦ elim (Bool-cases in_.stand.parse_ok) [
    | inl f ↦ rw (e, f) (settle-law_id _ _ rec)
    | inr f ↦ rw (e, f) refl
  ]
]

evaluate-law_id : (clock : Instant) (in_ : Input) → (evaluate clock in_).law_id ≡ in_.law_id
unfolding evaluate unresolved_instrument_refs is_open_ref
evaluate-law_id clock in_ = elim (Bool-cases (sync_within_max_age in_ (time_of clock in_))) [
  | inr e ↦ rw e refl
  | inl e ↦ elim (Bool-cases in_.bgbl_from_probe_only) [
    | inl probe ↦ rw (e, probe) refl
    | inr feed ↦ elim (Bool-cases in_.links_read_failed) [
      | inl failed ↦ rw (e, feed, failed) refl
      | inr read ↦
          let kept = judge-law_id in_ (collected in_) (initial_record clock in_) in
          rw (e, feed, read) (rw feed at kept)
    ]
  ]
]

module _ {S : Type 0} (ops : SyncOps S) (setup : Setup) (heuristics : Heuristics) where
  -- The state behind the heuristic links, where these are enabled.
  abbrev pub linked_first : S → S
  unfolding heuristic_link
  linked_first s = if heuristics.enabled then heuristic_link ops setup heuristics s else s

  -- The state behind the first laws of the loop.
  abbrev pub behind : Pass → List Law → S → S
  unfolding reconcile_law
  behind p [] s = s
  behind p (law ∷ laws) s = behind p laws (reconcile_law ops setup heuristics p law s)

  -- What the run says of a law that it reaches in the state `s`: its own Stand is read and repaired,
  -- the stubs of its own rows are made, and the law is evaluated on what is then in the store.
  abbrev pub judgement : Pass → Law → S → FreshnessRecord
  unfolding repair_stand_if_needed ensure_rows reconciled_input annotated_in
  judgement p law s =
      let (stand, s₁) =
        repair_stand_if_needed ops.store s law.id (stand_or_none (ops.store.get_stand s law.id)) in
      let s₂ =
        ensure_rows ops setup heuristics (annotated_in ops setup heuristics p s₁ law.id) s₁ in
      evaluate setup.clock (reconciled_input ops setup heuristics p s₁ s₂ law.id stand)

  -- The verdict is the run's on a law with this id, in the state that the laws before it left.
  abbrev pub IsJudged : Pass → List Law → S → (id : String) → FreshnessRecord → Type 0
  IsJudged p laws s id rec =
      (before after : List Law) × (law : Law) × (laws ≡ before ++ law ∷ after)
      × (law.id ≡ id)
      × (rec ≡ judgement p law (behind p before s))

  -- What a run judges, if it gets to a list of laws.
  abbrev pub IsJudgedIn :
      (before : S) → Option (List Law) → S → (id : String) → FreshnessRecord → Type 0
  IsJudgedIn before none s id rec = ⊥
  IsJudgedIn before (some todo) s id rec =
      IsJudged (pass_of ops setup heuristics before todo) todo s id rec

  module _ (verdict : S → String → Option FreshnessRecord) (laws : VerdictLaws ops verdict) where
    put-verdict :
        (s : S) (r rec : FreshnessRecord) (id : String)
        → verdict (ops.store.put_freshness s r) id ≡ some rec
        → (verdict s id ≡ some rec) ⊎ ((r.law_id ≡ id) × (rec ≡ r))
    put-verdict s r rec id h = elim (laws.put s r id) [
      | inl kept ↦ inl (sym kept ∙ h)
      | inr (q, new) ↦ inr (q, cc (h, new))
    ]

    judged-verdict :
        (p : Pass) (law_id : String) (stand : StandCitation) (s : S) (id : String)
        (rec : FreshnessRecord)
        → verdict (judged ops setup heuristics p law_id (stand, s)) id ≡ some rec
        → (verdict s id ≡ some rec)
          ⊎ ((law_id ≡ id)
              × (rec
                  ≡ evaluate setup.clock (
                      reconciled_input ops setup heuristics p s
                        (ensure_rows ops setup heuristics
                          (annotated_in ops setup heuristics p s law_id)
                          s)
                        law_id
                        stand)))
    unfolding judged reconciled_input
    judged-verdict p law_id stand s id rec h = elim (put-verdict _ _ rec id h) [
      | inl old ↦ inl (sym (ensure_rows-verdict ops setup heuristics verdict laws _ s id) ∙ old)
      | inr (q, new) ↦ inr (sym (evaluate-law_id setup.clock _) ∙ q, new)
    ]

    reconcile_law-verdict :
        (p : Pass) (law : Law) (s : S) (id : String) (rec : FreshnessRecord)
        → verdict (reconcile_law ops setup heuristics p law s) id ≡ some rec
        → (verdict s id ≡ some rec) ⊎ ((law.id ≡ id) × (rec ≡ judgement p law s))
    unfolding reconcile_law judgement
    reconcile_law-verdict p law s id rec h = elim (judged-verdict p law.id _ _ id rec h) [
      | inl old ↦ inl (sym (repaired-verdict ops setup heuristics verdict laws s law.id _ id) ∙ old)
      | inr new ↦ inr new
    ]

    reconcile_laws-verdict :
        (expired : ℕ → Bool) (n : ℕ) (p : Pass) (todo : List Law) (s : S) (id : String)
        (rec : FreshnessRecord)
        → verdict ((reconcile_laws ops setup heuristics expired n p todo s).1) id ≡ some rec
        → (verdict s id ≡ some rec) ⊎ IsJudged p todo s id rec
    unfolding reconcile_laws behind
    reconcile_laws-verdict expired n p [] s id rec h = inl (sym (laws.keeps_time s _ _ id) ∙ h)
    reconcile_laws-verdict expired n p (law ∷ todo) s id rec h = elim (Bool-cases (expired n)) [
      | inl over ↦ inl (rw over at h)
      | inr on ↦ elim (reconcile_laws-verdict expired (suc n) p todo _ id rec (rw on at h)) [
        | inl old ↦ elim (reconcile_law-verdict p law s id rec old) [
          | inl older ↦ inl older
          | inr (q, new) ↦ inr ([], todo, law, refl, q, new)
        ]
        | inr (before, after, l, at, q, new) ↦
            inr (law ∷ before, after, l, ap (λ ls. law ∷ ls) at, q, new)
      ]
    ]

    listed-verdict :
        (expired : ℕ → Bool) (before : S) (found : Option (List Law)) (s : S) (id : String)
        (rec : FreshnessRecord)
        → verdict ((with_listed ops setup heuristics expired before found s).1) id ≡ some rec
        → (verdict s id ≡ some rec) ⊎ IsJudgedIn before found s id rec
    unfolding reconcile_laws pass_of
    listed-verdict expired before none s id rec h = inl h
    listed-verdict expired before (some todo) s id rec h =
        reconcile_laws-verdict expired 0 (pass_of ops setup heuristics before todo) todo s id rec h

    -- A verdict that the store holds behind a run, also one that an ended context broke off, was there
    -- before, or it is what `Evaluate` answers for a law of the list with this id: on the times that
    -- were read before the heuristic links, on this law's own Stand, behind its repair, and on the
    -- law's links, rows and children as the laws before it in the list have left the store.
    pub reconcile-IsJudged :
        (expired : ℕ → Bool) (s : S) (id : String) (rec : FreshnessRecord)
        → verdict ((reconcile ops setup heuristics expired s).1) id ≡ some rec
        → (verdict s id ≡ some rec)
          ⊎ IsJudgedIn s (ops.store.list_laws (linked_first s)) (linked_first s) id rec
    unfolding reconcile heuristic_link reconcile_laws heuristic_links
    reconcile-IsJudged expired s id rec h =
        let s₁ = linked_first s in
        let same : verdict s₁ id ≡ verdict s id =
          if_both (λ (t : S). verdict t id ≡ verdict s id) heuristics.enabled
            (snapshot-verdict ops setup heuristics verdict laws heuristics.law_for s id) refl in
        elim (listed-verdict expired s _ s₁ id rec h) [
          | inl old ↦ inl (sym same ∙ old)
          | inr new ↦ inr new
        ]
