-- ===== src/Store/Verdicts.antt =====
-- The store as the job of internal/sync/orchestrator.go takes it, and what its writes do to verdicts.
use gesetzeswache.Prelude.{
  ◌≡◌, ◌⊎◌, inl, inr, refl, ℕ, ap, String, Bool, true, false, ◌==◌, Option, none, some, Bool-cases,
  eq_iff,
}
use gesetzeswache.Domain.{FreshnessRecord}
use gesetzeswache.Store.Buckets.{Bbolt, BboltLaws, update}
use gesetzeswache.Store.Entities.{
  Db, Codecs, with_bucket, created, absent_then, upsert_link, upsert_issue, list_issues,
  set_meta_time, put_freshness, get_freshness,
}
use gesetzeswache.Store.Discovered.{discovered_for_parent}
use gesetzeswache.Store.Operations.{service_store, law_upserter, found}
use gesetzeswache.Store.Maps.{AreCodecs, view, freshness_written, undone}
use gesetzeswache.Service.Freshness.{Setup}
use gesetzeswache.Sync.Reconcile.{SyncOps, Heuristics, reconcile}
use gesetzeswache.Sync.Reconcile.Kept.{VerdictLaws}
use gesetzeswache.Sync.Reconcile.Judged.{IsJudgedIn, linked_first, reconcile-IsJudged}

module _ {B : Type 0} (bb : Bbolt B) (cs : Codecs) (commits : Db B → Bool) where
  unfoldable pub sync_store : SyncOps (Db B)
  unfolding service_store law_upserter list_issues upsert_link upsert_issue set_meta_time
      discovered_for_parent
  sync_store = record {
    store = service_store bb cs commits;
    discovered_rows = discovered_for_parent bb cs commits;
    list_issues = λ s. (list_issues bb cs commits s).0;
    upsert_link = λ s l. (upsert_link bb cs commits l s).1;
    upsert_issue = λ s iss. (upsert_issue bb cs commits iss s).1;
    set_meta_time = λ s k t. (set_meta_time bb cs commits k t s).1;
  }

  -- The verdict on a law, where it can be read.
  unfoldable pub stored_verdict : Db B → (law_id : String) → Option FreshnessRecord
  unfolding get_freshness
  stored_verdict s law_id = found (get_freshness bb cs commits s law_id)

  -- A transaction keeps what the new bucket does not touch.
  update-keeps :
      {X : Type 0} (f : Db B → X) (into : B → Db B) (o : Option B) (s : Db B)
      → ((b : B) → f (into b) ≡ f s)
      → f ((update commits (with_bucket into o) s).1) ≡ f s
  unfolding update
  update-keeps f into none s h = refl
  update-keeps f into (some b) s h = elim (Bool-cases (commits (into b))) [
    | inl e ↦ rw e (h b)
    | inr e ↦ rw e refl
  ]

  created-keeps :
      {X : Type 0} (f : Db B → X) (o : Option String) (p : Bool × Db B) (s : Db B)
      → f p.1 ≡ f s
      → f ((absent_then bb cs commits o (created bb cs commits p) s).1) ≡ f s
  created-keeps f none (true, t) s h = h
  created-keeps f none (false, t) s h = h
  created-keeps f (some text) p s h = refl

module _ {B : Type 0} (bb : Bbolt B) (laws : BboltLaws bb) (cs : Codecs) (codecs : AreCodecs cs)
    (commits : Db B → Bool) where
  put_freshness-undone :
      (s : Db B) (r : FreshnessRecord) (s' : Db B)
      → put_freshness bb cs commits r s ≡ (false, s')
      → s' ≡ s
  unfolding put_freshness
  put_freshness-undone s r s' e = undone bb laws cs codecs commits _ s s' e

  put-stored :
      (s : Db B) (r : FreshnessRecord) (id : String)
      → (stored_verdict bb cs commits ((put_freshness bb cs commits r s).1) id
          ≡ stored_verdict bb cs commits s id)
        ⊎ ((r.law_id ≡ id)
            × (stored_verdict bb cs commits ((put_freshness bb cs commits r s).1) id ≡ some r))
  unfolding stored_verdict view
  put-stored s r id =
      let p = put_freshness bb cs commits r s in
      elim (Bool-cases p.0) [
        | inr e ↦
            let same : p.1 ≡ s = put_freshness-undone s r p.1 (ap (λ b. (b, p.1)) e) in
            inl (ap (λ t. found (get_freshness bb cs commits t id)) same)
        | inl e ↦
            let q = freshness_written bb laws cs codecs commits r s p.1 (ap (λ b. (b, p.1)) e) in
            let read = ap (λ v. found (v.freshness id)) q in
            elim (Bool-cases (r.law_id == id)) [
              | inl y ↦ inr ((eq_iff r.law_id id).0 y, rw y at read)
              | inr n ↦ inl (rw n at read)
            ]
      ]

  -- The store keeps what the job relies on.
  pub sync_store-keeps : VerdictLaws (sync_store bb cs commits) (stored_verdict bb cs commits)
  unfolding sync_store stored_verdict
  sync_store-keeps =
      let read = λ (id : String) (t : Db B). stored_verdict bb cs commits t id in
      record {
        put = put-stored;
        keeps_stand = λ s c id. update-keeps bb cs commits (read id) _ _ s (λ b. refl);
        keeps_law = λ s law id.
            created-keeps bb cs commits (read id) _ _ s
              (update-keeps bb cs commits (read id) _ _ s (λ b. refl));
        keeps_link = λ s l id. update-keeps bb cs commits (read id) _ _ s (λ b. refl);
        keeps_issue = λ s iss id. update-keeps bb cs commits (read id) _ _ s (λ b. refl);
        keeps_time = λ s k t id. update-keeps bb cs commits (read id) _ _ s (λ b. refl);
      }

  -- The store behind a run: each verdict was there before or was judged in the run.
  pub reconcile-IsStored :
      (setup : Setup) (heuristics : Heuristics) (expired : ℕ → Bool) (s : Db B) (id : String)
      (rec : FreshnessRecord)
      → stored_verdict bb cs commits
          ((reconcile (sync_store bb cs commits) setup heuristics expired s).1)
          id
        ≡ some rec
      → (stored_verdict bb cs commits s id ≡ some rec)
        ⊎ IsJudgedIn
            (sync_store bb cs commits)
            setup
            heuristics
            s
            ((sync_store bb cs commits).store.list_laws
              (linked_first (sync_store bb cs commits) setup heuristics s))
            (linked_first (sync_store bb cs commits) setup heuristics s)
            id
            rec
  reconcile-IsStored setup heuristics =
      reconcile-IsJudged (sync_store bb cs commits) setup heuristics (stored_verdict bb cs commits)
        sync_store-keeps
