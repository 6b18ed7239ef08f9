-- ===== src/Time.antt =====
-- Go's `time`: instants as nanoseconds since the zero time (January 1 of year 1, UTC), durations
-- as signed 64-bit nanoseconds, and the calendar. Instants before the zero time are not represented.
use gesetzeswache.Prelude.{
  ℕ, zero, suc, ◌%◌, ◌/◌, not, ◌&&◌, ◌||◌, ◌-◌, ◌*◌, ◌+◌, ◌^◌, min, Bool, ltb, leb, eqb,
  if◌then◌else◌, ℤ, pos, negsuc, pos_part,
}

abbrev pub Instant : Type 0
Instant = ℕ

abbrev pub Duration : Type 0
Duration = ℤ

abbrev pub second : ℕ
second = 1_000_000_000

abbrev pub minutes : ℕ → Duration
minutes n = pos (n * 60 * second)

abbrev pub hours : ℕ → Duration
hours n = pos (n * 3600 * second)

-- `t.IsZero()`
abbrev pub is_zero : Instant → Bool
is_zero t = eqb t 0

-- `t.After(u)`
abbrev pub after : Instant → Instant → Bool
after t u = ltb u t

-- `t.Add(d)` for a duration that is not negative
abbrev pub add : Instant → Duration → Instant
add t d = t + pos_part d

-- The largest `time.Duration`, about 292 years.
abbrev pub max_duration : ℕ
max_duration = 2 ^ 63 - 1

-- `t.Sub(u)`, which saturates at the ends of the 64-bit range.
abbrev pub sub : Instant → Instant → Duration
sub t u = if leb u t then pos (min (t - u) max_duration) else negsuc (min (u - t - 1) max_duration)

abbrev is_leap : ℕ → Bool
is_leap y = eqb (y % 4) 0 && (not (eqb (y % 100) 0) || eqb (y % 400) 0)

abbrev pub days_in : ℕ → ℕ → ℕ
days_in y m =
    if eqb m 2
    then if is_leap y then 29 else 28
    else if eqb m 4 || eqb m 6 || eqb m 9 || eqb m 11
    then 30
    else 31

-- The days of the year before month `m + 1`.
abbrev days_before_month : ℕ → ℕ → ℕ
days_before_month y zero = 0
days_before_month y (suc m) = days_before_month y m + days_in y (suc m)

-- Days since January 1 of year 0, so that every four-digit year is covered.
abbrev pub day_number : (y m d : ℕ) → ℕ
day_number y m d =
    365 * y + (y + 3) / 4 - (y + 99) / 100 + (y + 399) / 400 + days_before_month y (m - 1) + (d - 1)
