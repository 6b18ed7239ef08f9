-- ===== src/Discovery/Preamble/Starts.antt =====
-- The positions where segments start.
use gesetzeswache.Prelude.{
  ℕ, zero, suc, ◌<◌, ◌≤◌, ◌≡◌, ◌≢◌, refl, sym, subst, String, Bool, true, false, ◌||◌, eqb, ltb,
  any, List, [], ◌∷◌, length, All, Bool-cases, inl, inr, arith,
}
use gesetzeswache.Text.Cut.{rune_len}
use gesetzeswache.Discovery.Preamble.{
  add_positions, behind, pass, sort_starts, segment_start_indexes, found_starts,
}

-- Each position is below those behind it.
abbrev pub IsRising : List ℕ → Type 0
IsRising [] = Unit
IsRising (x ∷ xs) = All (λ y. x < y) xs × IsRising xs

abbrev AreApart : List ℕ → Type 0
AreApart [] = Unit
AreApart (x ∷ xs) = All (λ y. y ≢ x) xs × AreApart xs

All-map : {P Q : ℕ → Type 0} (f : (x : ℕ) → P x → Q x) (xs : List ℕ) → All P xs → All Q xs
All-map f [] h = tt
All-map f (x ∷ xs) (p, h) = (f x p, All-map f xs h)

-- What holds of all positions holds of them after a pass.
pass-All :
    (P : ℕ → Type 0) (x : ℕ) (ys : List ℕ) → P x → All P ys → P (pass x ys).0 × All P (pass x ys).1
unfolding pass
pass-All P x [] p h = (p, tt)
pass-All P x (y ∷ ys) p (q, h) = elim (Bool-cases (ltb y x)) [
  | inl less ↦ rw less (let (low, rest) = pass-All P y ys q h in (low, (p, rest)))
  | inr more ↦ rw more (let (low, rest) = pass-All P x ys p h in (low, (q, rest)))
]

pass-le : (x : ℕ) (ys : List ℕ) → (pass x ys).0 ≤ x
unfolding pass
pass-le x [] = omega arith
pass-le x (y ∷ ys) = elim (Bool-cases (ltb y x)) [
  | inl less ↦ rw less (let low = pass-le y ys in ground arith)
  | inr more ↦ rw more (pass-le x ys)
]

pass-less : (x y : ℕ) (ys : List ℕ) → ltb y x ≡ true → pass x (y ∷ ys) ≡ behind x (pass y ys)
unfolding pass
pass-less x y ys less = rw less refl

pass-more : (x y : ℕ) (ys : List ℕ) → ltb y x ≡ false → pass x (y ∷ ys) ≡ behind y (pass x ys)
unfolding pass
pass-more x y ys more = rw more refl

abbrev IsLeast : ℕ × List ℕ → Type 0
IsLeast (low, rest) = All (λ z. low < z) rest × AreApart rest

pass-nil : (x : ℕ) → pass x [] ≡ (x, [])
unfolding pass
pass-nil x = refl

-- A pass puts the least position in front, and keeps the others apart.
pass-IsLeast : (x : ℕ) (ys : List ℕ) → AreApart (x ∷ ys) → IsLeast (pass x ys)
pass-IsLeast x [] h = subst IsLeast (sym (pass-nil x)) (tt, tt)
pass-IsLeast x (y ∷ ys) ((y_ne_x, ne_x), (ne_y, rest)) = elim (Bool-cases (ltb y x)) [
  | inl less ↦
      let (least, apart) = pass-IsLeast y ys (ne_y, rest) in
      let low = pass-le y ys in
      let others = (pass-All (λ z. z ≢ x) y ys y_ne_x ne_x).1 in
      let below : (pass y ys).0 < x = ground arith in
      subst IsLeast (sym (pass-less x y ys less)) ((below, least), (others, apart))
  | inr more ↦
      let (least, apart) = pass-IsLeast x ys (ne_x, rest) in
      let low = pass-le x ys in
      let x_ne_y : x ≢ y = λ e. y_ne_x (sym e) in
      let others = (pass-All (λ z. z ≢ y) x ys x_ne_y ne_y).1 in
      let below : (pass x ys).0 < y = ground arith in
      subst IsLeast (sym (pass-more x y ys more)) ((below, least), (others, apart))
]

length-pass : (x : ℕ) (ys : List ℕ) → length (pass x ys).1 ≡ length ys
unfolding pass
length-pass x [] = refl
length-pass x (y ∷ ys) = elim (Bool-cases (ltb y x)) [
  | inl less ↦ rw less (omega (arith, length-pass y ys))
  | inr more ↦ rw more (omega (arith, length-pass x ys))
]

sort_starts-All : (P : ℕ → Type 0) (n : ℕ) (xs : List ℕ) → All P xs → All P (sort_starts n xs)
unfolding sort_starts
sort_starts-All P zero xs h = h
sort_starts-All P (suc n) [] h = tt
sort_starts-All P (suc n) (x ∷ xs) (p, h) =
    let (low, rest) = pass-All P x xs p h in (low, sort_starts-All P n (pass x xs).1 rest)

sort_starts-IsRising :
    (n : ℕ) (xs : List ℕ) → length xs ≤ n → AreApart xs → IsRising (sort_starts n xs)
unfolding sort_starts
sort_starts-IsRising zero [] le h = tt
sort_starts-IsRising zero (x ∷ xs) le h = absurd (omega arith)
sort_starts-IsRising (suc n) [] le h = tt
sort_starts-IsRising (suc n) (x ∷ xs) le h =
    let (least, apart) = pass-IsLeast x xs h in
    (
      sort_starts-All (λ z. (pass x xs).0 < z) n (pass x xs).1 least,
      sort_starts-IsRising n (pass x xs).1 (omega (arith, length-pass x xs)) apart,
    )

-- The collected positions are within the text, and none that was seen.
add_positions-fresh :
    (size : ℕ) (seen : List ℕ) (ps : List ℕ)
    → All (λ p. (p < size) × (any (λ q. eqb q p) seen ≡ false)) (add_positions size seen ps)
unfolding add_positions
add_positions-fresh size seen [] = tt
add_positions-fresh size seen (pos ∷ more) = elim (Bool-cases (ltb pos size)) [
  | inr out ↦ rw out (add_positions-fresh size seen more)
  | inl inside ↦ elim (Bool-cases (any (λ q. eqb q pos) seen)) [
    | inl old ↦ rw (inside, old) (add_positions-fresh size seen more)
    | inr new ↦
        let rest = add_positions-fresh size (pos ∷ seen) more in
        rw (inside, new)
          (
            (ground arith, new),
            All-map (λ p h. (h.0, later pos p (any (λ q. eqb q p) seen) h.1))
                (add_positions size (pos ∷ seen) more) rest,
          )
  ]
]
  where
    later : (pos p : ℕ) (b : Bool) → (eqb pos p || b) ≡ false → b ≡ false
    later pos p b h = ground arith

add_positions-AreApart : (size : ℕ) (seen ps : List ℕ) → AreApart (add_positions size seen ps)
unfolding add_positions
add_positions-AreApart size seen [] = tt
add_positions-AreApart size seen (pos ∷ more) = elim (Bool-cases (ltb pos size)) [
  | inr out ↦ rw out (add_positions-AreApart size seen more)
  | inl inside ↦ elim (Bool-cases (any (λ q. eqb q pos) seen)) [
    | inl old ↦ rw (inside, old) (add_positions-AreApart size seen more)
    | inr new ↦
        rw (inside, new)
          (
            All-map (λ p h. other pos p (any (λ q. eqb q p) seen) h.1)
                (add_positions size (pos ∷ seen) more) (add_positions-fresh size (pos ∷ seen) more),
            add_positions-AreApart size (pos ∷ seen) more,
          )
  ]
]
  where
    other : (pos p : ℕ) (b : Bool) → (eqb pos p || b) ≡ false → p ≢ pos
    other pos p b h e = ground arith

sorted_positions :
    (size : ℕ) (ps : List ℕ)
    → IsRising (sort_starts (length (add_positions size [] ps)) (add_positions size [] ps))
      × All
          (λ p. p < size)
          (sort_starts (length (add_positions size [] ps)) (add_positions size [] ps))
sorted_positions size ps =
    let starts = add_positions size [] ps in
    (
      sort_starts-IsRising (length starts) starts (omega arith) (add_positions-AreApart size [] ps),
      sort_starts-All (λ p. p < size) (length starts) starts
          (All-map {P = λ p. (p < size) × (any (λ q. eqb q p) [] ≡ false)} {Q = λ p. p < size}
            (λ p h. h.0) starts (add_positions-fresh size [] ps)),
    )

-- The segments of a preamble start in rising order, none twice, and each within the text.
pub segment_start_indexes-IsRising :
    (text : String)
    → IsRising (segment_start_indexes text)
      × All (λ p. p < rune_len text) (segment_start_indexes text)
unfolding segment_start_indexes
segment_start_indexes-IsRising text = sorted_positions (rune_len text) (found_starts text)
