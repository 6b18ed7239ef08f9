-- ===== src/Search/Distance.antt =====
-- `levenshtein` computes the edit distance.
use Prim.Native.Char.{Char, code}
use Prim.Native.String.{String, [], ◌∷◌}
use gesetzeswache.Prelude.{
  ◌≡◌, refl, sym, ◌∙◌, ap, ℕ, suc, ◌+◌, true, eqb, eqb_iff, leb, ◌≤◌, if_either, if◌then◌else◌,
  List, Bool-cases, inl, inr, length, arith,
}
use gesetzeswache.Text.Cut.{rune_len}
use gesetzeswache.Search.{min3, cost, next_row, first_row, last_of, rows, levenshtein}

abbrev pub least : ℕ → ℕ → ℕ
least a b = if leb a b then a else b

-- A rune stands for itself or is replaced.
abbrev pub replaced : Char → Char → ℕ → ℕ
replaced a b n = if eqb (code a) (code b) then n else suc n

-- The edit distance of two texts, read from their ends: the last runes are deleted, inserted or
-- replaced.
unfoldable pub edit_distance : List Char → List Char → ℕ
edit_distance List.[] ys = length ys
edit_distance (List.◌∷◌ x xs) List.[] = suc (length xs)
edit_distance (List.◌∷◌ x xs) (List.◌∷◌ y ys) =
    least (replaced x y (edit_distance xs ys))
      (suc (least (edit_distance xs (List.◌∷◌ y ys)) (edit_distance (List.◌∷◌ x xs) ys)))

-- `n` edits make one text of the other, each read from its end.
pub data Edits : List Char → List Char → ℕ → Type 0 where
  no_edits : Edits List.[] List.[] 0
  kept :
      {x y : Char} {xs ys : List Char} {n : ℕ}
      → code x ≡ code y
      → Edits xs ys n
      → Edits (List.◌∷◌ x xs) (List.◌∷◌ y ys) n
  replaced_by :
      {x y : Char} {xs ys : List Char} {n : ℕ}
      → Edits xs ys n
      → Edits (List.◌∷◌ x xs) (List.◌∷◌ y ys) (suc n)
  deleted :
      {x : Char} {xs ys : List Char} {n : ℕ} → Edits xs ys n → Edits (List.◌∷◌ x xs) ys (suc n)
  inserted :
      {y : Char} {xs ys : List Char} {n : ℕ} → Edits xs ys n → Edits xs (List.◌∷◌ y ys) (suc n)

delete_all : (xs : List Char) → Edits xs List.[] (length xs)
delete_all List.[] = no_edits
delete_all (List.◌∷◌ x xs) = deleted (delete_all xs)

insert_all : (ys : List Char) → Edits List.[] ys (length ys)
insert_all List.[] = no_edits
insert_all (List.◌∷◌ y ys) = inserted (insert_all ys)

least-either : (P : ℕ → Type 0) (a b : ℕ) → P a → P b → P (least a b)
least-either P a b p q = if_either P (leb a b) p q

-- So many edits are enough.
edit_distance-Edits : (xs ys : List Char) → Edits xs ys (edit_distance xs ys)
unfolding edit_distance
edit_distance-Edits List.[] ys = insert_all ys
edit_distance-Edits (List.◌∷◌ x xs) List.[] = deleted (delete_all xs)
edit_distance-Edits (List.◌∷◌ x xs) (List.◌∷◌ y ys) =
    let P : ℕ → Type 0 = Edits (List.◌∷◌ x xs) (List.◌∷◌ y ys) in
    let inner = edit_distance-Edits xs ys in
    let diagonal : P (replaced x y (edit_distance xs ys)) =
      elim (Bool-cases (eqb (code x) (code y))) [
        | inl e ↦ rw e (kept ((eqb_iff (code x) (code y)).0 e) inner)
        | inr e ↦ rw e (replaced_by inner)
      ] in
    least-either P _ _ diagonal (
      least-either (λ n. P (suc n)) _ _ (deleted (edit_distance-Edits xs (List.◌∷◌ y ys)))
        (inserted (edit_distance-Edits (List.◌∷◌ x xs) ys)))

edit_distance-nil : (xs : List Char) → edit_distance xs List.[] ≡ length xs
unfolding edit_distance
edit_distance-nil List.[] = refl
edit_distance-nil (List.◌∷◌ x xs) = refl

least-le :
    (x y : Char) (diag up left : ℕ)
    → (least (replaced x y diag) (suc (least up left)) ≤ suc diag)
      × (least (replaced x y diag) (suc (least up left)) ≤ suc up)
      × (least (replaced x y diag) (suc (least up left)) ≤ suc left)
least-le x y diag up left = ground arith

least-kept : (x y : Char) (diag rest : ℕ) → code x ≡ code y → least (replaced x y diag) rest ≤ diag
least-kept x y diag rest same = ground arith

-- No fewer do.
edit_distance-le-Edits : (xs ys : List Char) (n : ℕ) → Edits xs ys n → edit_distance xs ys ≤ n
unfolding edit_distance
edit_distance-le-Edits _ _ _ no_edits = omega arith
edit_distance-le-Edits _ _ _ (kept {x} {y} {xs} {ys} {n} same e) =
    let inner = edit_distance-le-Edits xs ys n e in
    omega (arith, inner, least-kept x y (edit_distance xs ys) _ same)
edit_distance-le-Edits _ _ _ (replaced_by {x} {y} {xs} {ys} {n} e) =
    let inner = edit_distance-le-Edits xs ys n e in
    omega (
      arith,
      inner,
      (least-le x y (edit_distance xs ys) (edit_distance xs (List.◌∷◌ y ys))
          (edit_distance (List.◌∷◌ x xs) ys)).0,
    )
edit_distance-le-Edits _ List.[] _ (deleted {x} {xs} {n = n} e) =
    let inner = edit_distance-le-Edits xs List.[] n e in omega (arith, inner, edit_distance-nil xs)
edit_distance-le-Edits _ (List.◌∷◌ y ys) _ (deleted {x} {xs} {n = n} e) =
    let inner = edit_distance-le-Edits xs (List.◌∷◌ y ys) n e in
    omega (
      arith,
      inner,
      (least-le x y (edit_distance xs ys) (edit_distance xs (List.◌∷◌ y ys))
          (edit_distance (List.◌∷◌ x xs) ys)).1,
    )
edit_distance-le-Edits List.[] _ _ (inserted {y} {ys = ys} {n} e) =
    let inner = edit_distance-le-Edits List.[] ys n e in omega (arith, inner)
edit_distance-le-Edits (List.◌∷◌ x xs) _ _ (inserted {y} {ys = ys} {n} e) =
    let inner = edit_distance-le-Edits (List.◌∷◌ x xs) ys n e in
    omega (
      arith,
      inner,
      (least-le x y (edit_distance xs ys) (edit_distance xs (List.◌∷◌ y ys))
          (edit_distance (List.◌∷◌ x xs) ys)).2,
    )

-- The recurrence of the code is that of the edit distance.
min3-least :
    (x y : Char) (up left diag : ℕ)
    → min3 (up + 1) (left + 1) (diag + cost x y) ≡ least (replaced x y diag) (suc (least up left))
min3-least x y up left diag = ground arith

-- The runes of a text from its end, before those of `done`.
abbrev pub reversed : (done : List Char) → String → List Char
reversed done [] = done
reversed done (c ∷ s) = reversed (List.◌∷◌ c done) s

-- The distances of `xs` to the longer and longer beginnings of a text, behind the one to `done`.
abbrev row : (xs done : List Char) → String → List ℕ
unfolding edit_distance
row xs done [] = List.[]
row xs done (c ∷ b) = List.◌∷◌ (edit_distance xs (List.◌∷◌ c done)) (row xs (List.◌∷◌ c done) b)

next_row-row :
    (x : Char) (xs done : List Char) (b : String)
    → next_row x (edit_distance (List.◌∷◌ x xs) done) (edit_distance xs done) (row xs done b) b
      ≡ row (List.◌∷◌ x xs) done b
unfolding next_row edit_distance
next_row-row x xs done [] = refl
next_row-row x xs done (c ∷ b) =
    rw
      (min3-least x c (edit_distance xs (List.◌∷◌ c done)) (edit_distance (List.◌∷◌ x xs) done)
        (edit_distance xs done))
      (ap (List.◌∷◌ (edit_distance (List.◌∷◌ x xs) (List.◌∷◌ c done)))
        (next_row-row x xs (List.◌∷◌ c done) b))

first_row-row :
    (done : List Char) (b : String) → first_row (suc (length done)) b ≡ row List.[] done b
unfolding first_row edit_distance
first_row-row done [] = refl
first_row-row done (c ∷ b) = ap (List.◌∷◌ (suc (length done))) (first_row-row (List.◌∷◌ c done) b)

last_of-row :
    (xs done : List Char) (b : String)
    → last_of (edit_distance xs done) (row xs done b) ≡ edit_distance xs (reversed done b)
unfolding edit_distance
last_of-row xs done [] = refl
last_of-row xs done (c ∷ b) = last_of-row xs (List.◌∷◌ c done) b

rows-row :
    (a : String) (xs : List Char) (b : String)
    → rows (suc (length xs)) a (edit_distance xs List.[]) (row xs List.[] b) b
      ≡ edit_distance (reversed xs a) (reversed List.[] b)
unfolding rows edit_distance
rows-row [] xs b = last_of-row xs List.[] b
rows-row (x ∷ a) xs b =
    ap (λ r. rows (suc (suc (length xs))) a (suc (length xs)) r b) (next_row-row x xs List.[] b)
    ∙ rows-row a (List.◌∷◌ x xs) b

length-reversed :
    (done : List Char) (s : String) → length (reversed done s) ≡ length done + rune_len s
length-reversed done [] = omega arith
length-reversed done (c ∷ s) = omega (arith, length-reversed (List.◌∷◌ c done) s)

size : (s : String) → length (reversed List.[] s) ≡ rune_len s
size s = omega (arith, length-reversed List.[] s)

empty-reversed : (s : String) → eqb (rune_len s) 0 ≡ true → reversed List.[] s ≡ List.[]
empty-reversed [] e = refl
empty-reversed (c ∷ s) e = absurd (ground arith)

-- The code's table computes the recursion, on all branches.
levenshtein-edit_distance :
    (a b : String) → levenshtein a b ≡ edit_distance (reversed List.[] a) (reversed List.[] b)
unfolding levenshtein edit_distance
levenshtein-edit_distance a b = elim (Bool-cases (eqb (rune_len a) 0)) [
  | inl e ↦ rw (e, empty-reversed a e) (sym (size b))
  | inr e ↦ elim (Bool-cases (eqb (rune_len b) 0)) [
    | inl f ↦ rw (e, f, empty-reversed b f) (sym (edit_distance-nil (reversed List.[] a) ∙ size a))
    | inr f ↦ rw (e, f) (ap (λ r. rows 1 a 0 r b) (first_row-row List.[] b) ∙ rows-row a List.[] b)
  ]
]

-- `levenshtein` answers the least number of edits between two texts: so many deletions, insertions
-- and replacements of a rune make one of the other, and any edits that do are at least as many.
pub levenshtein-least-Edits :
    (a b : String) (n : ℕ)
    → Edits (reversed List.[] a) (reversed List.[] b) n
    → Edits (reversed List.[] a) (reversed List.[] b) (levenshtein a b) × (levenshtein a b ≤ n)
levenshtein-least-Edits a b n e =
    let xs = reversed List.[] a in
    let ys = reversed List.[] b in
    let same = levenshtein-edit_distance a b in
    rw same (edit_distance-Edits xs ys, edit_distance-le-Edits xs ys n e)
