-- ===== src/Instruments/Chain.antt =====
-- internal/instruments/chain.go: past, current and future instruments of each section.
pub mod Kept
use Prim.Native.Char.{code}
use gesetzeswache.Prelude.{
  ℕ, zero, suc, ◌+◌, ◌-◌, ◌*◌, ◌/◌, String, Bool, true, false, not, ◌&&◌, ◌==◌, Option, none, some,
  List, [], ◌∷◌, map, eqb, ltb, leb, any, keep, if◌then◌else◌,
}
use gesetzeswache.Text.{trim_space}
use gesetzeswache.Text.Runes.{is_digit}
use gesetzeswache.Time.{Instant, second, days_in, day_number}
use gesetzeswache.Domain.{LinkedInstrument}

abbrev pub status_past : String
status_past = "past"

abbrev pub status_current : String
status_current = "current"

abbrev pub status_future : String
status_future = "future"

abbrev pub coverage_section : String
coverage_section = "section"

unfoldable pub normalize_section_hint : String → String
normalize_section_hint hint = if trim_space hint == "" then "*" else trim_space hint

-- Exactly `n` digits, their value, and the text behind them.
abbrev digits : ℕ → ℕ → String → Option (ℕ × String)
digits zero v s = some (v, s)
digits (suc n) v String.[] = none
digits (suc n) v (String.◌∷◌ c s) =
    let rest = digits n (v * 10 + (code c - 48)) s in if is_digit (code c) then rest else none

infixl 5 ◌>>=◌
abbrev ◌>>=◌ {ℓ κ} : {A : Type ℓ} {B : Type κ} → Option A → (A → Option B) → Option B
none >>= f = none
some a >>= f = f a

abbrev dash : String → Option String
dash String.[] = none
dash (String.◌∷◌ c s) = if eqb (code c) b'-' then some s else none

abbrev valid_date : (y m d : ℕ) → String → Option ℕ
valid_date y m d rest =
    if rest == "" && leb 1 m && leb m 12 && leb 1 d && leb d (days_in y m)
    then some (day_number y m d)
    else none

-- `time.Parse("2006-01-02", s)`, as a day number
unfoldable pub parse_date : String → Option ℕ
unfolding is_digit
parse_date s = do
  (y, s₁) ← digits 4 0 s
  s₂ ← dash s₁
  (m, s₃) ← digits 2 0 s₂
  s₄ ← dash s₃
  (d, s₅) ← digits 2 0 s₄
  valid_date y m d s₅

-- `parseEffectiveDate`, with the date as a day number
unfoldable pub parse_effective_date : String → Option ℕ
parse_effective_date s =
    let t = trim_space s in let date = parse_date t in if t == "" then none else date

-- `dateOnlyUTC`: the day number of an instant. The zero time is the first day behind the 366 of
-- year 0.
abbrev pub date_only : Instant → ℕ
date_only t = t / (86400 * second) + 366

-- A row of `out` with its index.
pub record Row : Type 0 where
  pub index : ℕ
  pub item : LinkedInstrument

abbrev dated_before : Option ℕ → Option ℕ → Bool → Bool
dated_before (some i) (some j) by_index = ltb i j
dated_before (some i) none by_index = true
dated_before none (some j) by_index = false
dated_before none none by_index = by_index

abbrev pub date_of : Row → Option ℕ
date_of r = parse_effective_date r.item.effective_from

-- `less` of the second sort
unfoldable pub row_before : Row → Row → Bool
row_before a b = dated_before (date_of a) (date_of b) (ltb a.index b.index)

-- `sort.SliceStable`: the stable order, by insertion
pub insert_row : Row → List Row → List Row
insert_row r [] = r ∷ []
insert_row r (x ∷ xs) =
    let rest = insert_row r xs in if row_before x r then x ∷ rest else r ∷ x ∷ xs

pub sort_rows : List Row → List Row
sort_rows [] = []
sort_rows (r ∷ rs) = insert_row r (sort_rows rs)

abbrev not_after : ℕ → Option ℕ → Bool
not_after as_of none = false
not_after as_of (some d) = not (ltb as_of d)

-- The status that a row gets before the rows behind it in its group; none leaves it.
unfoldable pub status_for : ℕ → Option ℕ → (later : List Row) → Option String
status_for as_of none later = none
status_for as_of (some effective) later =
    if ltb as_of effective
    then some status_future
    else if any (λ l. not_after as_of (date_of l)) later
    then some status_past
    else some status_current

-- `out[idx].Status = status`
abbrev pub set_status : Option String → LinkedInstrument → LinkedInstrument
set_status none li = li
set_status (some st) li = record li { status = st }

abbrev pub write_at : ℕ → Option String → List LinkedInstrument → List LinkedInstrument
write_at i st [] = []
write_at zero st (x ∷ xs) = set_status st x ∷ xs
write_at (suc i) st (x ∷ xs) = x ∷ write_at i st xs

-- The inner loop over one sorted group.
pub annotate_group : ℕ → List Row → List LinkedInstrument → List LinkedInstrument
annotate_group as_of [] out = out
annotate_group as_of (r ∷ later) out =
    annotate_group as_of later (write_at r.index (status_for as_of (date_of r) later) out)

abbrev pub with_coverage : LinkedInstrument → LinkedInstrument
with_coverage li = if li.coverage == "" then record li { coverage = coverage_section } else li

abbrev pub number_rows : ℕ → List LinkedInstrument → List Row
number_rows i [] = []
number_rows i (x ∷ xs) = record { index = i; item = x } ∷ number_rows (suc i) xs

abbrev pub section_of : Row → String
section_of r = normalize_section_hint r.item.section_hint

-- The group keys, in the order in which they are met.
pub group_keys : List String → List Row → List String
group_keys seen [] = []
group_keys seen (r ∷ rs) =
    let old = group_keys seen rs in
    let new = section_of r ∷ group_keys (section_of r ∷ seen) rs in
    if any (λ k. k == section_of r) seen then old else new

pub annotate_groups : ℕ → List Row → List String → List LinkedInstrument → List LinkedInstrument
annotate_groups as_of rows [] out = out
annotate_groups as_of rows (k ∷ keys) out =
    annotate_groups as_of rows keys
      (annotate_group as_of (sort_rows (keep (λ r. section_of r == k) rows)) out)

unfoldable pub annotate_chain : List LinkedInstrument → Instant → List LinkedInstrument
unfolding annotate_groups annotate_group sort_rows insert_row row_before status_for group_keys
annotate_chain rows as_of =
    let out = map with_coverage rows in
    let numbered = number_rows 0 out in
    annotate_groups (date_only as_of) numbered (group_keys [] numbered) out

unfoldable pub filter_linked_for_response : List LinkedInstrument → Bool → List LinkedInstrument
filter_linked_for_response rows include_past =
    if include_past then rows else keep (λ row. not (row.status == status_past)) rows

-- The `switch` of `FilterBundleMembers`
unfoldable pub is_bundle_member : Bool → LinkedInstrument → Bool
is_bundle_member include_past row =
    if row.status == status_current
    then true
    else if row.status == status_past
    then include_past
    else if row.status == ""
    then row.source == "discovered" && row.confidence == "high"
    else false

unfoldable pub filter_bundle_members : List LinkedInstrument → Bool → List LinkedInstrument
filter_bundle_members rows include_past = keep (is_bundle_member include_past) rows
