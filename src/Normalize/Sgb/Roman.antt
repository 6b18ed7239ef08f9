-- ===== src/Normalize/Sgb/Roman.antt =====
-- Roman numbers and book references, there and back.
use gesetzeswache.Prelude.{
  ℕ, ◌<◌, ◌≤◌, ◌≡◌, refl, ap, String, Bool, true, false, ◌||◌, eqb, eqb_iff, Option, none, some,
  arith, ◌-◌, leb, not, ◌==◌, pos_part, inl, inr, Bool-cases, Option-cases, passes_table,
  passes_table-entry,
}
use gesetzeswache.Text.{itoa, atoi, to_upper, trim_space}
use gesetzeswache.Text.Cut.{◌+++◌}
use gesetzeswache.Regex.{group_of, find_from}
use gesetzeswache.Normalize.Sgb.{
  Total, positive_total, roman_total, all_roman, number_of, re_sgb_book_query, int_to_roman,
  roman_to_int, parse_sgb_book_query,
}

abbrev is_number : ℕ → Option ℕ → Bool
is_number n none = false
is_number n (some m) = eqb m n

is_number-some : (n : ℕ) (m : Option ℕ) → is_number n m ≡ true → m ≡ some n
is_number-some n none h = cc h
is_number-some n (some m) h = ap some ((eqb_iff m n).0 h)

-- A test of a number's Roman form; a number without one fails it.
abbrev on_roman : (String → Bool) → Option String → Bool
on_roman test none = false
on_roman test (some roman) = test roman

on_roman-some :
    (test : String → Bool) (r : Option String)
    → on_roman test r ≡ true
    → (roman : String) × (r ≡ some roman) × (test roman ≡ true)
on_roman-some test none h = absurd (ground arith)
on_roman-some test (some roman) h = (roman, refl, h)

is_read : ℕ → String → Bool
is_read n roman = is_number n (roman_to_int roman)

is_asked : ℕ → String → Bool
is_asked n roman = is_number n (parse_sgb_book_query ("SGB " +++ roman))

roman_table : passes_table (λ n. eqb n 0 || on_roman (is_read n) (int_to_roman n)) 21 ≡ true
unfolding passes_table is_read roman_to_int int_to_roman
roman_table = refl

query_table : passes_table (λ n. eqb n 0 || on_roman (is_asked n) (int_to_roman n)) 21 ≡ true
unfolding passes_table is_asked parse_sgb_book_query int_to_roman
query_table = refl

arabic_table :
    passes_table (λ n. eqb n 0 || is_number n (parse_sgb_book_query ("sgb_" +++ itoa n))) 21 ≡ true
unfolding passes_table parse_sgb_book_query itoa
arabic_table = refl

positive : (n : ℕ) (b : Bool) → 0 < n → (eqb n 0 || b) ≡ true → b ≡ true
positive n b lt h = ground arith

-- Each number from 1 to 20 has a Roman form, and `RomanToInt` reads it back as the number.
pub roman_to_int-int_to_roman :
    (n : ℕ)
    → 0 < n
    → n ≤ 20
    → (roman : String) × (int_to_roman n ≡ some roman) × (roman_to_int roman ≡ some n)
unfolding is_read
roman_to_int-int_to_roman n lt le =
    let entry = passes_table-entry _ n 21 (omega arith) roman_table in
    let (roman, e, h) = on_roman-some (is_read n) (int_to_roman n) (positive n _ lt entry) in
    (roman, e, is_number-some n (roman_to_int roman) h)

-- A reference to a book from 1 to 20 gives the same book by its Roman number, as in "SGB V", and by
-- its Arabic one, as in "sgb_5".
pub parse_sgb_book_query-same_book :
    (n : ℕ) (roman : String)
    → 0 < n
    → n ≤ 20
    → int_to_roman n ≡ some roman
    → (parse_sgb_book_query ("SGB " +++ roman) ≡ some n)
      × (parse_sgb_book_query ("sgb_" +++ itoa n) ≡ some n)
unfolding is_asked
parse_sgb_book_query-same_book n roman lt le e =
    let entry = passes_table-entry _ n 21 (omega arith) query_table in
    let asked : on_roman (is_asked n) (some roman) ≡ true = rw e at (positive n _ lt entry) in
    let numbered = passes_table-entry _ n 21 (omega arith) arabic_table in
    (is_number-some n _ asked, is_number-some n _ (positive n _ lt numbered))

positive_total-lt : (t : Total) (n : ℕ) → positive_total t ≡ some n → 0 < n
positive_total-lt t n e = elim (Bool-cases (leb t.added t.taken)) [
  | inl f ↦ cc (rw f at e)
  | inr f ↦ let q : t.added - t.taken ≡ n = cc (rw f at e) in rw (← q) (ground arith)
]

roman_to_int-lt : (s : String) (n : ℕ) → roman_to_int s ≡ some n → 0 < n
unfolding roman_to_int
roman_to_int-lt s n e =
    elim (Bool-cases (to_upper (trim_space s) == "" || not (all_roman (to_upper (trim_space s))))) [
      | inl f ↦ cc (rw f at e)
      | inr f ↦ positive_total-lt (roman_total (to_upper (trim_space s))) n (rw f at e)
    ]

number_of-lt : (rest : String) (n : ℕ) → number_of rest ≡ some n → 0 < n
unfolding number_of
number_of-lt rest n e = elim (Bool-cases (rest == "")) [
  | inl f ↦ cc (rw f at e)
  | inr f ↦ elim (Bool-cases ((atoi rest).ok)) [
    | inr g ↦ roman_to_int-lt rest n (rw (f, g) at e)
    | inl g ↦ elim (Bool-cases (eqb (pos_part ((atoi rest).value)) 0)) [
      | inl z ↦ cc (rw (f, g, z) at e)
      | inr z ↦
          let q : pos_part ((atoi rest).value) ≡ n = cc (rw (f, g, z) at e) in
          rw (← q) (ground arith)
    ]
  ]
]

-- A book that a query names is not 0.
pub parse_sgb_book_query_positive : (s : String) (n : ℕ) → parse_sgb_book_query s ≡ some n → 0 < n
unfolding parse_sgb_book_query
parse_sgb_book_query_positive s n e =
    elim (Option-cases (find_from re_sgb_book_query none (trim_space s))) [
      | inl f ↦ cc (rw f at e)
      | inr (m, f) ↦ number_of-lt (trim_space (group_of 1 m.groups)) n (rw f at e)
    ]
