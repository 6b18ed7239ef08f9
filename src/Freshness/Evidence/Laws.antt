-- ===== src/Freshness/Evidence/Laws.antt =====
-- What a fresh timestamp and the chosen BGBl evidence say.
use gesetzeswache.Prelude.{
  ◌≡◌, ◌≢◌, ◌↔◌, ◌≤◌, ◌<◌, ◌+◌, ◌⊎◌, inl, inr, refl, true, false, ◌&&◌, arith, pos_part, pos, ltb,
  ltb→lt, Bool-cases,
}
use gesetzeswache.Time.{Instant, Duration, max_duration}
use gesetzeswache.Freshness.Evidence.{
  future_timestamp_tolerance, or_default_age, timestamp_fresh, bgbl_evidence,
  effective_bgbl_feed_time,
}

-- A success stamp within the age: set, at most five minutes ahead of now, and at most `age` old.
pub record IsRecent (ts now : Instant) (age : Duration) : Type 0 where
  pub stamped : ts ≢ 0
  pub not_future : ts ≤ now + pos_part future_timestamp_tolerance
  pub young : now ≤ ts + pos_part age

timestamp_fresh-pos_iff :
    (ts now a : Instant)
    → a < max_duration
    → (timestamp_fresh ts now (pos a) ≡ true) ↔ IsRecent ts now (pos a)
unfolding timestamp_fresh
timestamp_fresh-pos_iff ts now a small = (
  λ h. record { stamped = ground arith; not_future = ground arith; young = ground arith },
  λ r. ground (arith, r.stamped, r.not_future, r.young),
)

-- The age that is used is positive, whatever was configured.
pub or_default_age-pos :
    (d : Duration)
    → (or_default_age d ≡ pos (pos_part (or_default_age d))) × (0 < pos_part (or_default_age d))
or_default_age-pos d = ground arith

-- A stamp passes exactly when it is recent for the age, by default six hours, provided that this is
-- below the longest duration.
pub timestamp_fresh_iff :
    (ts now : Instant) (d : Duration)
    → pos_part (or_default_age d) < max_duration
    → (timestamp_fresh ts now (or_default_age d) ≡ true) ↔ IsRecent ts now (or_default_age d)
timestamp_fresh_iff ts now d small =
    rw (or_default_age-pos d).0 (timestamp_fresh-pos_iff ts now (pos_part (or_default_age d)) small)

-- With a recent feed stamp the evidence is that stamp, without the probe's mark. With none it is
-- nothing, or the probe's stamp, marked, which is then recent and later than the feed's. The age,
-- by default six hours, is below the longest duration.
pub bgbl_evidence_cases :
    (bgbl eli now : Instant) (d : Duration)
    → pos_part (or_default_age d) < max_duration
    → (IsRecent bgbl now (or_default_age d) × (bgbl_evidence bgbl eli now d ≡ (bgbl, false)))
      ⊎ ((¬ IsRecent bgbl now (or_default_age d))
          × ((bgbl_evidence bgbl eli now d ≡ (0, false))
              ⊎ ((bgbl_evidence bgbl eli now d ≡ (eli, true))
                  × IsRecent eli now (or_default_age d)
                  × (bgbl < eli))))
unfolding bgbl_evidence
bgbl_evidence_cases bgbl eli now d small =
    let feed = timestamp_fresh_iff bgbl now d small in
    let probe = timestamp_fresh_iff eli now d small in
    elim (Bool-cases (timestamp_fresh bgbl now (or_default_age d))) [
      | inl e ↦ inl (feed.0 e, rw e refl)
      | inr e ↦ elim (Bool-cases (timestamp_fresh eli now (or_default_age d))) [
        | inl e' ↦ elim (Bool-cases (ltb bgbl eli)) [
          | inl lt ↦
              inr (λ r. cc (feed.1 r, e), inr (rw (e, e', lt) refl, probe.0 e', ltb→lt _ _ lt))
          | inr ge ↦ inr (λ r. cc (feed.1 r, e), inl (rw (e, e', ge) refl))
        ]
        | inr e' ↦ inr (λ r. cc (feed.1 r, e), inl (rw (e, e') refl))
      ]
    ]

-- A feed that degraded after its last success gives no feed evidence: what evidence is left is
-- the probe's, marked as such, or the zero time.
pub bgbl_evidence_degraded :
    (feed degraded eli now : Instant) (d : Duration)
    → feed < degraded
    → ((bgbl_evidence (effective_bgbl_feed_time feed degraded) eli now d).1 ≡ true)
      ⊎ (bgbl_evidence (effective_bgbl_feed_time feed degraded) eli now d ≡ (0, false))
unfolding bgbl_evidence effective_bgbl_feed_time timestamp_fresh
bgbl_evidence_degraded feed degraded eli now d h =
    let zero : effective_bgbl_feed_time feed degraded ≡ 0 = ground arith in
    rw zero (elim (Bool-cases (timestamp_fresh eli now (or_default_age d) && ltb 0 eli)) [
      | inl e ↦ inl (rw e refl)
      | inr e ↦ inr (rw e refl)
    ])
