-- ===== src/Text/Decimal.antt =====
-- `strconv.Itoa` writes different numbers differently.
use gesetzeswache.Prelude.{
  ◌≡◌, refl, sym, ◌∙◌, ap, ℕ, zero, suc, ◌+◌, ◌*◌, ◌-◌, ◌<◌, ◌≤◌, String, true, eqb, ltb,
  Bool-cases, inl, inr, arith, eqb_iff,
}
use Prim.Native.Nat.{◌/◌, ◌%◌}
use Prim.Native.String.{[], ◌∷◌, ◌++◌}
use Prim.Native.String.append
use Prim.Native.Char.{Char, code}
use gesetzeswache.Text.{decimal, itoa}
use gesetzeswache.Text.Runes.{digit_char}
use gesetzeswache.Prelude.Tables.{passes_table, passes_table-entry}

-- The number that the digits stand for.
abbrev digits_value : ℕ → String → ℕ
digits_value a [] = a
digits_value a (c ∷ s) = digits_value (a * 10 + (code c - 48)) s

append-nil : (t : String) → [] ++ t ≡ t
append-nil t = λ i. append.nil t i

append-cons : (c : Char) (s t : String) → (c ∷ s) ++ t ≡ c ∷ (s ++ t)
append-cons c s t = λ i. append.cons c s t i

digits_value-append :
    (a : ℕ) (s t : String) → digits_value a (s ++ t) ≡ digits_value (digits_value a s) t
digits_value-append a [] t = ap (digits_value a) (append-nil t)
digits_value-append a (c ∷ s) t =
    ap (digits_value a) (append-cons c s t) ∙ digits_value-append (a * 10 + (code c - 48)) s t

digit_table : passes_table (λ d. eqb (code (digit_char d) - 48) d) 10 ≡ true
unfolding passes_table digit_char
digit_table = refl

digit-value : (d : ℕ) → d < 10 → code (digit_char d) - 48 ≡ d
digit-value d lt = (eqb_iff _ d).0 (passes_table-entry _ d 10 lt digit_table)

from_below : (m n : ℕ) → ltb m n ≡ ltb 1 0 → n ≤ m
from_below m n e = ground arith

below : (m n : ℕ) → ltb m n ≡ true → m < n
below m n e = ground arith

decimal-value : (fuel n : ℕ) → n < fuel → digits_value 0 (decimal fuel n) ≡ n
unfolding decimal
decimal-value zero n lt = absurd (omega arith)
decimal-value (suc fuel) n lt = elim (Bool-cases (ltb n 10)) [
  | inl e ↦ let d = digit-value n (below n 10 e) in rw e (omega (arith, d))
  | inr e ↦
      let ten = from_below n 10 e in
      let high = decimal-value fuel (n / 10) (omega (arith, ten)) in
      rw e (
        digits_value-append 0 (decimal fuel (n / 10)) _
        ∙ ap (λ a. a * 10 + (code (digit_char (n % 10)) - 48)) high
        ∙ ap (λ d. n / 10 * 10 + d) (digit-value (n % 10) (omega arith))
        ∙ omega arith)
]

pub itoa-injective : (m n : ℕ) → itoa m ≡ itoa n → m ≡ n
unfolding itoa
itoa-injective m n e =
    sym (decimal-value (suc m) m (omega arith))
    ∙ ap (digits_value 0) e
    ∙ decimal-value (suc n) n (omega arith)

abbrev tail : String → String
tail [] = []
tail (c ∷ s) = s

pub append-left_injective : (p s t : String) → p ++ s ≡ p ++ t → s ≡ t
append-left_injective [] s t e = sym (append-nil s) ∙ e ∙ append-nil t
append-left_injective (c ∷ p) s t e =
    append-left_injective p s t (ap tail (sym (append-cons c p s) ∙ e ∙ append-cons c p t))
