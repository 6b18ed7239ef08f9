-- ===== src/Freshness/Evidence.antt =====
-- internal/freshness/evidence.go: which sync timestamps count as evidence.
pub mod Laws
use gesetzeswache.Prelude.{◌-◌, Bool, true, false, ◌&&◌, ◌||◌, if◌then◌else◌, ℤ, pos, ltb_ℤ, leb_ℤ}
use gesetzeswache.Time.{Instant, Duration, minutes, hours, is_zero, after, add, sub}

abbrev pub future_timestamp_tolerance : Duration
future_timestamp_tolerance = minutes 5

-- `if maxAge <= 0 { maxAge = 6 * time.Hour }`
abbrev pub or_default_age : Duration → Duration
or_default_age max_age = if leb_ℤ max_age (pos 0) then hours 6 else max_age

unfoldable pub timestamp_fresh : (ts now : Instant) → Duration → Bool
timestamp_fresh ts now max_age =
    if is_zero ts
    then false
    else if after ts (add now future_timestamp_tolerance)
    then false
    else leb_ℤ (sub now ts) max_age

unfoldable pub bgbl_evidence : (bgbl_time eli_time now : Instant) → Duration → Instant × Bool
unfolding timestamp_fresh
bgbl_evidence bgbl_time eli_time now max_age =
    let age = or_default_age max_age in
    if timestamp_fresh bgbl_time now age
    then (bgbl_time, false)
    else if timestamp_fresh eli_time now age && after eli_time bgbl_time
    then (eli_time, true)
    else (0, false)

unfoldable pub effective_bgbl_feed_time : (feed_success degraded_at : Instant) → Instant
effective_bgbl_feed_time feed_success degraded_at =
    if is_zero degraded_at
    then feed_success
    else if is_zero feed_success || after degraded_at feed_success
    then 0
    else feed_success
