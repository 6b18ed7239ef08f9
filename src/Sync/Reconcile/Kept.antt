-- ===== src/Sync/Reconcile/Kept.antt =====
-- What the steps of a run other than its verdicts leave of the verdicts in the store.
use gesetzeswache.Prelude.{
  ◌≡◌, ◌⊎◌, inl, inr, refl, ◌∙◌, ap, String, Bool, true, false, not, ◌==◌, Option, none, some, List,
  [], ◌∷◌, Bool-cases, if◌then◌else◌,
}
use gesetzeswache.Text.{trim_space}
use gesetzeswache.Time.{Instant}
use gesetzeswache.GiiUrl.{valid_slug}
use gesetzeswache.Normalize.{key}
use gesetzeswache.Domain.{
  Law, LinkedInstrument, StandCitation, GazetteIssue, IssueLawLink, FreshnessRecord,
}
use gesetzeswache.Citation.Parse.{parse}
use gesetzeswache.Instruments.Ensure.{
  winner, after_upsert, create, after_read, stub, ensure_law_from_slug,
}
use gesetzeswache.Service.Links.{repair_stand_if_needed}
use gesetzeswache.Service.Freshness.{Setup}
use gesetzeswache.Sync.Reconcile.{
  SyncOps, Heuristics, linked_by, heuristic_links, with_snapshot, ensure_rows,
}

-- What the verdicts of a store are promised: only `PutFreshness` writes one, to its law, if it
-- writes at all.
pub record VerdictLaws {S : Type 0} (ops : SyncOps S)
    (verdict : S → String → Option FreshnessRecord) : Type 0 where
  pub put :
      (s : S) (r : FreshnessRecord) (id : String)
      → (verdict (ops.store.put_freshness s r) id ≡ verdict s id)
        ⊎ ((r.law_id ≡ id) × (verdict (ops.store.put_freshness s r) id ≡ some r))
  pub keeps_stand :
      (s : S) (c : StandCitation) (id : String)
      → verdict (ops.store.upsert_stand s c) id ≡ verdict s id
  pub keeps_law :
      (s : S) (law : Law) (id : String)
      → verdict (ops.store.laws.upsert_law_if_absent s law).1 id ≡ verdict s id
  pub keeps_link :
      (s : S) (l : IssueLawLink) (id : String) → verdict (ops.upsert_link s l) id ≡ verdict s id
  pub keeps_issue :
      (s : S) (iss : GazetteIssue) (id : String)
      → verdict (ops.upsert_issue s iss) id ≡ verdict s id
  pub keeps_time :
      (s : S) (k : String) (t : Instant) (id : String)
      → verdict (ops.set_meta_time s k t) id ≡ verdict s id

pub if_both :
    {A : Type 0} (P : A → Type 0) (b : Bool) {x y : A} → P x → P y → P (if b then x else y)
if_both P true p q = p
if_both P false p q = q

module _ {S : Type 0} (ops : SyncOps S) (setup : Setup) (heuristics : Heuristics)
    (verdict : S → String → Option FreshnessRecord) (laws : VerdictLaws ops verdict) where
  winner-state :
      (law : Option (Option Law)) (s : S)
      → (winner ops.store.laws setup.parse_base setup.gii_base law s).1 ≡ s
  winner-state none s = refl
  winner-state (some none) s = refl
  winner-state (some (some law)) s = refl

  after_upsert-state :
      (law : Law) (made : Option Bool × S)
      → (after_upsert ops.store.laws setup.parse_base setup.gii_base law made).1 ≡ made.1
  after_upsert-state law (none, s) = refl
  after_upsert-state law (some true, s) = refl
  after_upsert-state law (some false, s) = winner-state _ s

  create-verdict :
      (s : S) (slug : String) (url : Option String) (id : String)
      → verdict ((create ops.store.laws setup.parse_base setup.gii_base s slug url).1) id
        ≡ verdict s id
  create-verdict s slug none id = refl
  create-verdict s slug (some url) id =
      ap (λ t. verdict t id) (after_upsert-state _ _) ∙ laws.keeps_law s (stub slug url) id

  read-verdict :
      (s : S) (slug : String) (found : Option (Option Law)) (id : String)
      → verdict ((after_read ops.store.laws setup.parse_base setup.gii_base s slug found).1) id
        ≡ verdict s id
  read-verdict s slug none id = refl
  read-verdict s slug (some (some law)) id = refl
  read-verdict s slug (some none) id = create-verdict s slug _ id

  -- Every other write keeps the verdicts.
  ensured-verdict :
      (s : S) (slug id : String)
      → verdict ((ensure_law_from_slug ops.store.laws setup.parse_base setup.gii_base s slug).1) id
        ≡ verdict s id
  unfolding ensure_law_from_slug
  ensured-verdict s slug id = elim (Bool-cases (valid_slug (trim_space slug))) [
    | inr e ↦ rw e refl
    | inl e ↦
        let t = trim_space slug in rw e (read-verdict s t (ops.store.laws.get_law s (key t)) id)
  ]

  pub ensure_rows-verdict :
      (rows : List LinkedInstrument) (s : S) (id : String)
      → verdict (ensure_rows ops setup heuristics rows s) id ≡ verdict s id
  unfolding ensure_rows
  ensure_rows-verdict [] s id = refl
  ensure_rows-verdict (li ∷ rows) s id = elim (Bool-cases (trim_space li.gii_slug == "")) [
    | inl e ↦ rw e (ensure_rows-verdict rows s id)
    | inr e ↦ rw e (ensure_rows-verdict rows _ id ∙ ensured-verdict s _ id)
  ]

  pub repaired-verdict :
      (s : S) (law_id : String) (stand : StandCitation) (id : String)
      → verdict ((repair_stand_if_needed ops.store s law_id stand).1) id ≡ verdict s id
  unfolding repair_stand_if_needed
  repaired-verdict s law_id stand id =
      let P = λ (r : StandCitation × S). verdict r.1 id ≡ verdict s id in
      let kept : StandCitation × S = (stand, s) in
      let parsed = parse law_id stand.raw in
      let unless : StandCitation × S =
        if not parsed.parse_ok then kept else (parsed, ops.store.upsert_stand s parsed) in
      let nonblank : StandCitation × S = if trim_space stand.raw == "" then kept else unless in
      if_both P stand.parse_ok {x = kept} {y = nonblank} refl (
        if_both P (trim_space stand.raw == "") {x = kept} {y = unless} refl (
          if_both P (not parsed.parse_ok) {x = kept} {y = (parsed, ops.store.upsert_stand s parsed)}
            refl (laws.keeps_stand s parsed id)))

  linked-verdict :
      (iss : GazetteIssue) (law : Option String) (s : S) (id : String)
      → verdict (linked_by ops setup heuristics iss law s) id ≡ verdict s id
  linked-verdict iss none s id = refl
  linked-verdict iss (some law_id) s id = laws.keeps_issue _ _ id ∙ laws.keeps_link s _ id

  heuristic_links-verdict :
      (law_for : String → Option String) (issues : List GazetteIssue) (s : S) (id : String)
      → verdict (heuristic_links ops setup heuristics law_for issues s) id ≡ verdict s id
  unfolding heuristic_links
  heuristic_links-verdict law_for [] s id = refl
  heuristic_links-verdict law_for (iss ∷ issues) s id =
      let P = λ (t : S). verdict t id ≡ verdict s id in
      let skipped = heuristic_links-verdict law_for issues s id in
      if_both P _ skipped (
        if_both P _ skipped (
          heuristic_links-verdict law_for issues _ id
          ∙ linked-verdict iss (law_for iss.title) s id))

  pub snapshot-verdict :
      (law_for : Option (String → Option String)) (s : S) (id : String)
      → verdict (with_snapshot ops setup heuristics law_for s) id ≡ verdict s id
  unfolding heuristic_links
  snapshot-verdict none s id = refl
  snapshot-verdict (some law_for) s id = heuristic_links-verdict law_for (ops.list_issues s) s id
