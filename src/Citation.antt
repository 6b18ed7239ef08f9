-- ===== src/Citation.antt =====
-- internal/citation/parse.go: comparing citations, and the identity of a gazette issue.
pub mod Order
pub mod Instruments
pub mod Parse
use Prim.Native.Char.{code}
use Prim.Native.String
use Prim.Native.String.{[], ◌∷◌}
use gesetzeswache.Prelude.{
  ℕ, ◌+◌, ◌-◌, ◌*◌, ◌%◌, ◌^◌, String, Bool, true, false, not, ◌&&◌, ◌||◌, Option, none, some, ◌==◌,
  eqb, ltb, leb, if◌then◌else◌, ℤ, ltb_ℤ,
}
use gesetzeswache.Text.{itoa, atoi, Atoi}
use gesetzeswache.Domain.{StandCitation}

-- What `Compare` answers: older, equal or newer with ok, or not comparable.
pub data Comparison : Type 0 where
  older equal newer incomparable : Comparison

abbrev number_step : ℕ → ℕ → ℕ
number_step n c = (n * 10 + (c - 48)) % 2 ^ 64

-- The loop of `parseIssueNum`, whose 64-bit number wraps; `first` is its test `i == 0`.
pub issue_digits : Bool → ℕ → String → Option ℕ
issue_digits first n [] = some n
issue_digits first n (c ∷ s) =
    let more = issue_digits false (number_step n (code c)) s in
    if ltb (code c) 48 || ltb 57 (code c) then if first then none else some n else more

-- `n > 0` of a 64-bit pattern: not zero and not negative
abbrev positive : Option ℕ → Option ℕ
positive none = none
positive (some n) = if ltb 0 n && ltb n (2 ^ 63) then some n else none

unfoldable pub parse_issue_num : String → Option ℕ
unfolding issue_digits
parse_issue_num s = positive (issue_digits true 0 s)

abbrev order : ℕ → ℕ → Comparison
order a b = if ltb a b then older else if ltb b a then newer else equal

abbrev order_ℤ : ℤ → ℤ → Comparison
order_ℤ a b = if ltb_ℤ a b then older else if ltb_ℤ b a then newer else equal

-- The end of `Compare`: by page, where both have one.
pub compare_pages : String → String → Comparison
compare_pages p q =
    if not (p == "") && not (q == "") then order_ℤ (atoi p).value (atoi q).value else incomparable

-- By issue number, where both parse; `other` is what comes after.
pub compare_numbers : Option ℕ → Option ℕ → Comparison → Comparison
compare_numbers (some an) (some bn) other = order an bn
compare_numbers (some an) none other = other
compare_numbers none n other = other

-- The rest of `Compare` for two citations of one year: by number, else by page.
pub compare_same_year : StandCitation → StandCitation → Comparison
unfolding compare_numbers compare_pages
compare_same_year a b =
    let pages = compare_pages a.page b.page in
    if not (a.number == "") && not (b.number == "")
    then compare_numbers (parse_issue_num a.number) (parse_issue_num b.number) pages
    else pages

unfoldable pub compare : StandCitation → StandCitation → Comparison
unfolding compare_same_year parse_issue_num
compare a b =
    if eqb a.year 0 || eqb b.year 0 || eqb a.teil 0 || eqb b.teil 0
    then incomparable
    else if not (eqb a.teil b.teil)
    then incomparable
    else if not (eqb a.year b.year)
    then if ltb a.year b.year then older else newer
    else compare_same_year a b

infixl 65 ◌+++◌
abbrev ◌+++◌ : String → String → String
◌+++◌ = String.◌++◌

unfoldable pub issue_id : ℕ → ℕ → String → String
issue_id teil year number = "BGBl-" +++ itoa teil +++ "/" +++ itoa year +++ "/" +++ number
