-- ===== src/Search.antt =====
-- internal/search/engine.go: how a query finds a law, once its candidates have their scores. A score
-- is a float64 and stays a parameter.
pub mod Distance
pub mod Books
use Prim.Native.Char.{Char, code}
use Prim.Native.String.{String, [], ◌∷◌}
use gesetzeswache.Prelude.{
  ℕ, zero, suc, ◌+◌, ◌-◌, Bool, true, false, ◌&&◌, ◌||◌, not, eqb, ltb, leb, ◌==◌, Option, none,
  some, List, ◌++◌, any, keep, pos_part, if◌then◌else◌, ℤ, pos, negsuc,
}
use gesetzeswache.Text.{trim_space, to_lower, has_prefix, contains, atoi, Atoi}
use gesetzeswache.Text.Cut.{rune_len, drop_text, trim_left_set}
use gesetzeswache.Domain.{Law}
use gesetzeswache.Normalize.Sgb.{parse_sgb_book_query}

-- `min3`
abbrev pub min3 : ℕ → ℕ → ℕ → ℕ
min3 a b c = if ltb a b && ltb a c then a else if ltb b c then b else c

-- The cost of replacing a rune.
abbrev pub cost : Char → Char → ℕ
cost a b = if eqb (code a) (code b) then 0 else 1

-- The inner loop: the row of `a` behind its entry `left`; `diag` and `ups` are the row before.
unfoldable pub next_row : (a : Char) → (left diag : ℕ) → (ups : List ℕ) → String → List ℕ
next_row a left diag ups [] = List.[]
next_row a left diag List.[] (c ∷ b) = List.[]
next_row a left diag (List.◌∷◌ up ups) (c ∷ b) =
    let here = min3 (up + 1) (left + 1) (diag + cost a c) in
    List.◌∷◌ here (next_row a here up ups b)

-- The first row behind its first entry.
unfoldable pub first_row : (j : ℕ) → String → List ℕ
first_row j [] = List.[]
first_row j (c ∷ b) = List.◌∷◌ j (first_row (suc j) b)

abbrev pub last_of : ℕ → List ℕ → ℕ
last_of x List.[] = x
last_of x (List.◌∷◌ y ys) = last_of y ys

-- The outer loop; the row before is `diag` and `ups`.
unfoldable pub rows : (i : ℕ) → (a : String) → (diag : ℕ) → (ups : List ℕ) → String → ℕ
unfolding next_row
rows i [] diag ups b = last_of diag ups
rows i (x ∷ a) diag ups b = rows (suc i) a i (next_row x i diag ups b) b

-- `levenshtein`
unfoldable pub levenshtein : String → String → ℕ
unfolding rows first_row
levenshtein a b =
    if eqb (rune_len a) 0
    then rune_len b
    else if eqb (rune_len b) 0
    then rune_len a
    else rows 1 a 0 (first_row 1 b) b

-- `sgbBookNumber`; 0 for a law that is no SGB book.
abbrev pub number_if : Atoi → ℕ
number_if n =
    if n.ok && (leb 1 (pos_part n.value) && leb (pos_part n.value) 20) then pos_part n.value else 0

abbrev number_by_id : (id : String) → ℕ
unfolding has_prefix trim_left_set drop_text atoi
number_by_id id =
    if has_prefix id "sgb" then number_if (atoi (trim_left_set (drop_text 3 id) "_")) else 0

abbrev number_by : Option ℕ → (id : String) → ℕ
unfolding has_prefix trim_left_set drop_text atoi
number_by none id = number_by_id id
number_by (some n) id = n

unfoldable pub sgb_book_number : Law → ℕ
unfolding parse_sgb_book_query has_prefix trim_left_set drop_text atoi to_lower trim_space
sgb_book_number law =
    number_by (parse_sgb_book_query law.abbreviation) (to_lower (trim_space law.id))

-- `appendUniqueLaw`
unfoldable pub append_unique_law : List Law → Law → List Law
append_unique_law laws l =
    if any (λ existing. existing.id == l.id) laws then laws else laws ++ List.◌∷◌ l List.[]

-- `stringsContainsFold`
unfoldable pub strings_contains_fold : (hay needle : String) → Bool
unfolding contains
strings_contains_fold hay needle = not (needle == "") && contains hay needle

-- A candidate with a score of the type `F`.
pub record Candidate (F : Type 0) : Type 0 where
  pub law : Law
  pub score : F

pub record Answer (F : Type 0) : Type 0 where
  pub best : Option (Candidate F)
  pub suggestions : List (Candidate F)
  pub ambiguous : Bool

abbrev pub first_of : {A : Type 0} → ℕ → List A → List A
first_of zero xs = List.[]
first_of (suc n) List.[] = List.[]
first_of (suc n) (List.◌∷◌ x xs) = List.◌∷◌ x (first_of n xs)

module _ {F : Type 0} where
  -- `filterSGBBookCandidates`
  unfoldable pub filter_sgb_book_candidates : List (Candidate F) → (book : ℕ) → List (Candidate F)
  unfolding sgb_book_number
  filter_sgb_book_candidates all book = keep (λ c. eqb (sgb_book_number c.law) book) all

  -- The answer to a bare reference to an SGB book, by the candidates that have its number.
  abbrev pub by_hits : (all hits : List (Candidate F)) → Answer F
  by_hits all List.[] = record { best = none; suggestions = first_of 10 all; ambiguous = true }
  by_hits all (List.◌∷◌ hit List.[]) = record {
    best = some hit;
    suggestions = first_of 10 (keep (λ c. not (c.law.id == hit.law.id)) all);
    ambiguous = false;
  }
  by_hits all (List.◌∷◌ hit (List.◌∷◌ next hits)) = record {
    best = none;
    suggestions = first_of 10 (List.◌∷◌ hit (List.◌∷◌ next hits));
    ambiguous = true;
  }

  -- Any other answer, by the score of the first candidate; `reaches` compares with the threshold.
  abbrev pub by_score : (reaches : F → Bool) → List (Candidate F) → Answer F
  by_score reaches List.[] = record { best = none; suggestions = List.[]; ambiguous = false }
  by_score reaches (List.◌∷◌ c more) =
      if reaches c.score
      then record { best = some c; suggestions = first_of 10 more; ambiguous = false }
      else record { best = none; suggestions = first_of 10 (List.◌∷◌ c more); ambiguous = false }

  abbrev pub by_book : (reaches : F → Bool) → Option ℕ → List (Candidate F) → Answer F
  unfolding filter_sgb_book_candidates
  by_book reaches none all = by_score reaches all
  by_book reaches (some book) List.[] = by_score reaches List.[]
  by_book reaches (some book) (List.◌∷◌ c more) =
      by_hits (List.◌∷◌ c more) (filter_sgb_book_candidates (List.◌∷◌ c more) book)

  -- `Resolve` behind the sorting of its candidates; the branch on an SGB query behind the threshold
  -- is never reached.
  unfoldable pub resolve_ranked :
      (reaches : F → Bool) → (query : String) → List (Candidate F) → Answer F
  unfolding filter_sgb_book_candidates parse_sgb_book_query
  resolve_ranked reaches query all = by_book reaches (parse_sgb_book_query query) all
