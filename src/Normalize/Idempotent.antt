-- ===== src/Normalize/Idempotent.antt =====
-- A key is its own key.
use Prim.Native.Char.{Char, code}
use Prim.Native.String.{String, [], ◌∷◌}
use Prim.Native.Nat.{compare, Ordering}
use gesetzeswache.Prelude.{
  ℕ, ◌≡◌, refl, Bool, true, false, not, ◌&&◌, ◌||◌, eqb, if◌then◌else◌, arith, ap, sym, ◌∙◌,
  Bool-cases, ◌⊎◌, ltb, inl, inr, passes_table, passes_table-entry, ◌<◌,
}
use text.Mathlib.TextEquality.{Char-path}
use gesetzeswache.Text.{trim_left, trim_right, is_empty, cons_trimmed, map_text}
use gesetzeswache.Text.Runes.{is_space, is_letter, is_digit, lower_rune, recase, code-recase}
use gesetzeswache.Normalize.{fold_char, fold_chars, key}

-- A rune that a key may hold: a letter or digit, in lower case, and none that is spelled out.
abbrev is_key_rune : ℕ → Bool
is_key_rune c =
    (is_letter c || is_digit c)
    && eqb (lower_rune c) c
    && not (eqb c 0xE4 || eqb c 0xF6 || eqb c 0xFC || eqb c 0xDF)

lower_rune_idem : (c : ℕ) → lower_rune (lower_rune c) ≡ lower_rune c
unfolding lower_rune
lower_rune_idem c = ground arith

letter-lt : (c : ℕ) → (is_letter c || is_digit c) ≡ true → c < 256
unfolding is_letter is_digit
letter-lt c h = ground arith

not_space_table : passes_table (λ c. not (is_letter c || is_digit c) || not (is_space c)) 256 ≡ true
unfolding passes_table is_space is_letter is_digit
not_space_table = refl

letter-not_space : (c : ℕ) → (is_letter c || is_digit c) ≡ true → is_space c ≡ false
letter-not_space c h =
    let row =
      passes_table-entry (λ d. not (is_letter d || is_digit d) || not (is_space d)) c 256
        (letter-lt c h) not_space_table in
    ground arith

abbrev pub IsKey : String → Type 0
IsKey [] = Unit
IsKey (c ∷ s) = (is_key_rune (code c) ≡ true) × IsKey s

plain_letters :
    (is_key_rune b'a' ≡ true)
    × (is_key_rune b'e' ≡ true)
    × (is_key_rune b'o' ≡ true)
    × (is_key_rune b'u' ≡ true)
    × (is_key_rune b's' ≡ true)
unfolding is_letter is_digit lower_rune
plain_letters = (refl, refl, refl, refl, refl)

IsKey-fold_char :
    (c : Char) (s : String) → lower_rune (code c) ≡ code c → IsKey s → IsKey (fold_char c s)
IsKey-fold_char c s low h =
    let (a, e, o, u, z) = plain_letters in
    elim (Bool-cases (eqb (code c) 0xE4)) [
      | inl k ↦ unfold fold_char in rw k (a, (e, h))
      | inr k ↦ elim (Bool-cases (eqb (code c) 0xF6)) [
        | inl l ↦ unfold fold_char in rw (k, l) (o, (e, h))
        | inr l ↦ elim (Bool-cases (eqb (code c) 0xFC)) [
          | inl m ↦ unfold fold_char in rw (k, l, m) (u, (e, h))
          | inr m ↦ elim (Bool-cases (eqb (code c) 0xDF)) [
            | inl n ↦ unfold fold_char in rw (k, l, m, n) (z, (z, h))
            | inr n ↦ elim (Bool-cases (is_letter (code c) || is_digit (code c))) [
              | inl q ↦
                  let good : is_key_rune (code c) ≡ true = ground (arith, low) in
                  unfold fold_char in rw (k, l, m, n, q) (good, h)
              | inr q ↦ unfold fold_char in rw (k, l, m, n, q) h
            ]
          ]
        ]
      ]
    ]

-- Every rune passes a test.
abbrev Every : (ℕ → Type 0) → String → Type 0
Every P [] = Unit
Every P (c ∷ s) = P (code c) × Every P s

abbrev IsLow : ℕ → Type 0
IsLow c = lower_rune c ≡ c

lower-small : (n : ℕ) → (compare (lower_rune n) 55296 ≡ Ordering.lt) ⊎ (lower_rune n ≡ n)
unfolding lower_rune
lower-small n = elim (Bool-cases (ltb n 55000)) [
  | inl h ↦ inl (ground arith)
  | inr h ↦ inr (ground arith)
]

code-lowered : (c : Char) → code (recase lower_rune c) ≡ lower_rune (code c)
code-lowered c = code-recase lower_rune c (lower-small (code c))

Every-map_lower : (s : String) → Every IsLow (map_text lower_rune s)
Every-map_lower [] = tt
Every-map_lower (c ∷ s) =
    let e = code-lowered c in
    (ap lower_rune e ∙ lower_rune_idem (code c) ∙ sym e, Every-map_lower s)

module _ (P : ℕ → Type 0) where
  Every-trim_left : (s : String) → Every P s → Every P (trim_left s)
  unfolding trim_left
  Every-trim_left [] h = tt
  Every-trim_left (c ∷ s) (p, h) = elim (Bool-cases (is_space (code c))) [
    | inl e ↦ rw e (Every-trim_left s h)
    | inr e ↦ rw e (p, h)
  ]

  Every-cons_trimmed : (c : Char) (r : String) → P (code c) → Every P r → Every P (cons_trimmed c r)
  Every-cons_trimmed c r p h = elim (Bool-cases (is_empty r && is_space (code c))) [
    | inl e ↦ rw e tt
    | inr e ↦ rw e (p, h)
  ]

  Every-trim_right : (s : String) → Every P s → Every P (trim_right s)
  unfolding trim_right
  Every-trim_right [] h = tt
  Every-trim_right (c ∷ s) (p, h) = Every-cons_trimmed c (trim_right s) p (Every-trim_right s h)

IsKey-fold_chars : (s : String) → Every IsLow s → IsKey (fold_chars s)
unfolding fold_chars
IsKey-fold_chars [] h = tt
IsKey-fold_chars (c ∷ s) (low, h) = IsKey-fold_char c (fold_chars s) low (IsKey-fold_chars s h)

-- A key holds letters and digits in lower case, and no umlaut or ß.
pub key-IsKey : (s : String) → IsKey (key s)
key-IsKey s =
    let low = Every-map_lower s in
    let left = Every-trim_left IsLow (map_text lower_rune s) low in
    let right = Every-trim_right IsLow (trim_left (map_text lower_rune s)) left in
    let done = IsKey-fold_chars (trim_right (trim_left (map_text lower_rune s))) right in
    unfold key in done

lowered_self : (c : Char) → IsLow (code c) → recase lower_rune c ≡ c
lowered_self c low = Char-path (recase lower_rune c) c (code-lowered c ∙ low)

key_rune-IsLow : (c : ℕ) → is_key_rune c ≡ true → IsLow c
key_rune-IsLow c h = ground arith

map_lower-key : (s : String) → IsKey s → map_text lower_rune s ≡ s
map_lower-key [] h = refl
map_lower-key (c ∷ s) (p, h) =
    rw (lowered_self c (key_rune-IsLow (code c) p), map_lower-key s h) refl

trim_left-key : (s : String) → IsKey s → trim_left s ≡ s
unfolding trim_left
trim_left-key [] h = refl
trim_left-key (c ∷ s) (p, h) = rw (letter-not_space (code c) (ground arith)) refl

trim_right-key : (s : String) → IsKey s → trim_right s ≡ s
unfolding trim_right
trim_right-key [] h = refl
trim_right-key (c ∷ s) (p, h) =
    let here : is_space (code c) ≡ false = letter-not_space (code c) (ground arith) in
    rw (trim_right-key s h, here) (keep_first (is_empty s))
  where
    keep_first : (b : Bool) → (if b && false then [] else c ∷ s) ≡ c ∷ s
    keep_first true = refl
    keep_first false = refl

fold_chars-key : (s : String) → IsKey s → fold_chars s ≡ s
unfolding fold_chars
fold_chars-key [] h = refl
fold_chars-key (c ∷ s) (p, h) =
    let rest = fold_chars-key s h in
    let a : eqb (code c) 0xE4 ≡ false = ground arith in
    let o : eqb (code c) 0xF6 ≡ false = ground arith in
    let u : eqb (code c) 0xFC ≡ false = ground arith in
    let z : eqb (code c) 0xDF ≡ false = ground arith in
    let l : (is_letter (code c) || is_digit (code c)) ≡ true = ground arith in
    rw rest (unfold fold_char in rw (a, o, u, z, l) refl)

key_lem : (s : String) → key s ≡ fold_chars (trim_right (trim_left (map_text lower_rune s)))
unfolding key
key_lem s = refl

-- A key is its own key.
pub key-key : (s : String) → key (key s) ≡ key s
key-key s =
    let h = key-IsKey s in
    let steps =
      ap (λ t. fold_chars (trim_right (trim_left t))) (map_lower-key (key s) h)
      ∙ ap (λ t. fold_chars (trim_right t)) (trim_left-key (key s) h)
      ∙ ap fold_chars (trim_right-key (key s) h)
      ∙ fold_chars-key (key s) h in
    key_lem (key s) ∙ steps
