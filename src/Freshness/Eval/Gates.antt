-- ===== src/Freshness/Eval/Gates.antt =====
-- The gates of `Evaluate` before any issue is read, and its verdict behind them.
use gesetzeswache.Prelude.{
  ◌≡◌, ◌↔◌, ◌⊎◌, ◌<◌, inl, inr, refl, String, true, false, List, arith, Bool-cases, pos_part,
}
use gesetzeswache.Time.{Instant, max_duration}
use gesetzeswache.Domain.{uncertain}
use gesetzeswache.Freshness.Evidence.{or_default_age}
use gesetzeswache.Freshness.Evidence.Laws.{IsRecent, timestamp_fresh_iff}
use gesetzeswache.Freshness.Issues.{newer_ids}
use gesetzeswache.Freshness.Eval.{
  Input, sync_within_max_age, time_of, initial_record, judge, evaluate,
}

-- All three syncs are recent at the time of evaluation.
pub record IsSynced (in_ : Input) (now : Instant) : Type 0 where
  pub toc : IsRecent in_.last_toc_success now (or_default_age in_.max_age)
  pub gii_feed : IsRecent in_.last_gii_feed_success now (or_default_age in_.max_age)
  pub bgbl : IsRecent in_.last_bgbl_success now (or_default_age in_.max_age)

sync_within_max_age_iff :
    (in_ : Input) (now : Instant)
    → pos_part (or_default_age in_.max_age) < max_duration
    → (sync_within_max_age in_ now ≡ true) ↔ IsSynced in_ now
sync_within_max_age_iff in_ now small =
    let t = timestamp_fresh_iff in_.last_toc_success now in_.max_age small in
    let g = timestamp_fresh_iff in_.last_gii_feed_success now in_.max_age small in
    let b = timestamp_fresh_iff in_.last_bgbl_success now in_.max_age small in
    (
      λ h. record {
        toc = t.0 (unfold sync_within_max_age in ground arith);
        gii_feed = g.0 (unfold sync_within_max_age in ground arith);
        bgbl = b.0 (unfold sync_within_max_age in ground arith);
      },
      λ s. unfold sync_within_max_age in rw (t.1 s.toc, g.1 s.gii_feed, b.1 s.bgbl) refl,
    )

-- The syncs are recent, the BGBl evidence is the feed's, and every link was read.
pub record PassesGates (clock : Instant) (in_ : Input) : Type 0 where
  pub synced : IsSynced in_ (time_of clock in_)
  pub from_feed : in_.bgbl_from_probe_only ≡ false
  pub links_read : in_.links_read_failed ≡ false

abbrev pub collected : Input → List String
collected in_ = newer_ids in_.stand in_.instrument_refs in_.linked_issues in_.instrument_issues

-- Behind the gates the verdict is `judge`'s; before them the state is uncertain.
pub evaluate-gates :
    (clock : Instant) (in_ : Input)
    → pos_part (or_default_age in_.max_age) < max_duration
    → (PassesGates clock in_
        × (evaluate clock in_ ≡ judge in_ (collected in_) (initial_record clock in_)))
      ⊎ ((¬ PassesGates clock in_) × ((evaluate clock in_).state ≡ uncertain))
evaluate-gates clock in_ small =
    let sync = sync_within_max_age_iff in_ (time_of clock in_) small in
    elim (Bool-cases (sync_within_max_age in_ (time_of clock in_))) [
      | inr e ↦ inr (λ p. cc (sync.1 p.synced, e), unfold evaluate in rw e refl)
      | inl e ↦ elim (Bool-cases in_.bgbl_from_probe_only) [
        | inl probe ↦ inr (λ p. cc (p.from_feed, probe), unfold evaluate in rw (e, probe) refl)
        | inr feed ↦ elim (Bool-cases in_.links_read_failed) [
          | inl failed ↦
              inr (λ p. cc (p.links_read, failed), unfold evaluate in rw (e, feed, failed) refl)
          | inr read ↦ inl (
            record { synced = sync.0 e; from_feed = feed; links_read = read },
            unfold evaluate in rw (e, feed, read) refl,
          )
        ]
      ]
    ]
