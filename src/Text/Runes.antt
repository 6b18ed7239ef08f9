-- ===== src/Text/Runes.antt =====
-- Runes: Go's `unicode` tables up to U+00FF (white space in full), and case mapping of one rune.
use Prim.Native.Char.{Char, char, code, IsScalar}
use Prim.Native.Nat.{compare, Ordering}
use gesetzeswache.Prelude.{
  ℕ, ◌+◌, ◌-◌, ◌≡◌, refl, sym, ◌⊎◌, inl, inr, Bool, not, ◌&&◌, ◌||◌, eqb, leb, if◌then◌else◌,
}

abbrev between : ℕ → ℕ → ℕ → Bool
between lo hi c = leb lo c && leb c hi

-- `unicode.IsSpace`
unfoldable pub is_space : ℕ → Bool
is_space c =
    between 9 13 c
    || eqb c 32
    || eqb c 0x85
    || eqb c 0xA0
    || eqb c 0x1680
    || between 0x2000 0x200A c
    || eqb c 0x2028
    || eqb c 0x2029
    || eqb c 0x202F
    || eqb c 0x205F
    || eqb c 0x3000

unfoldable pub is_digit : ℕ → Bool
is_digit c = between 48 57 c

-- `unicode.IsLetter`, up to U+00FF
unfoldable pub is_letter : ℕ → Bool
is_letter c =
    between 65 90 c
    || between 97 122 c
    || eqb c 0xAA
    || eqb c 0xB5
    || eqb c 0xBA
    || between 0xC0 0xFF c && not (eqb c 0xD7 || eqb c 0xF7)

-- `unicode.ToUpper`
unfoldable pub upper_rune : ℕ → ℕ
upper_rune c =
    if between 97 122 c
    then c - 32
    else if between 0xE0 0xFE c && not (eqb c 0xF7)
    then c - 32
    else if eqb c 0xFF
    then 0x178
    else if eqb c 0xB5
    then 0x39C
    else c

-- `unicode.ToLower`
unfoldable pub lower_rune : ℕ → ℕ
lower_rune c =
    if between 65 90 c
    then c + 32
    else if between 0xC0 0xDE c && not (eqb c 0xD7)
    then c + 32
    else c

-- The fold class of a rune under `unicode.SimpleFold`: U+017F is an s and U+212A a k.
unfoldable pub fold_rune : ℕ → ℕ
unfolding lower_rune
fold_rune c = if eqb c 0x17F then b's' else if eqb c 0x212A then b'k' else lower_rune c

scalar_of_lt : (n : ℕ) → compare n 55296 ≡ Ordering.lt → IsScalar n
scalar_of_lt n e = rw e tt

recase_by : (m : ℕ) (c : Char) (o : Ordering) → compare m 55296 ≡ o → Char
recase_by m c Ordering.lt e = char m (scalar_of_lt m e)
recase_by m c Ordering.eq e = c
recase_by m c Ordering.gt e = c

-- The character with the mapped code; every mapping above stays below the surrogates.
unfoldable pub recase : (ℕ → ℕ) → Char → Char
unfolding recase_by scalar_of_lt
recase f c = recase_by (f (code c)) c (compare (f (code c)) 55296) refl

code-recase_by :
    (m : ℕ) (c : Char) (o : Ordering) (e : compare m 55296 ≡ o)
    → (o ≡ Ordering.lt) ⊎ (m ≡ code c)
    → code (recase_by m c o e) ≡ m
unfolding recase_by
code-recase_by m c Ordering.lt e h = refl
code-recase_by m c Ordering.eq e (inl h) = cc
code-recase_by m c Ordering.eq e (inr h) = sym h
code-recase_by m c Ordering.gt e (inl h) = cc
code-recase_by m c Ordering.gt e (inr h) = sym h

-- The mapped code is reached, where it is below the surrogates or the code itself.
pub code-recase :
    (f : ℕ → ℕ) (c : Char)
    → (compare (f (code c)) 55296 ≡ Ordering.lt) ⊎ (f (code c) ≡ code c)
    → code (recase f c) ≡ f (code c)
unfolding recase
code-recase f c h = code-recase_by (f (code c)) c _ refl h

unfoldable pub digit_char : ℕ → Char
unfolding recase
digit_char n = recase (λ z. z + n) (char 48 tt)
