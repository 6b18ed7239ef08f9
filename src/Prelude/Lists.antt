-- ===== src/Prelude/Lists.antt =====
-- Lists with native lengths and Boolean predicates: the shapes that Go's `for` loops take here.
use Prim.Native.Nat.{ℕ, suc, ◌+◌, ◌≤◌}
use mathlib.Core.Path.{◌≡◌, refl, sym, subst}
use mathlib.Core.Bool.{Bool, true, false, ◌||◌}
use mathlib.Core.Logic.{◌⊎◌, inl, inr}
use mathlib.Core.Option.{Option, none, some}
use mathlib.Core.List.Memᴰ
use mathlib.Core.List.{List, [], ◌∷◌, ◌++◌, map, Memᴰ}
use native.Mathlib.Omega.{arith}
use gesetzeswache.Prelude.Tests.{if◌then◌else◌, Bool-cases}

module _ {ℓ} {A : Type ℓ} where
  abbrev pub length : List A → ℕ
  length [] = 0
  length (x ∷ xs) = suc (length xs)

  -- `for _, x := range xs { if p(x) { return true } }; return false`
  abbrev pub any : (A → Bool) → List A → Bool
  any p [] = false
  any p (x ∷ xs) = p x || any p xs

  -- `for _, x := range xs { if p(x) { out = append(out, x) } }`
  abbrev pub keep : (A → Bool) → List A → List A
  keep p [] = []
  keep p (x ∷ xs) = let rest = keep p xs in if p x then x ∷ rest else rest

  -- `for _, x := range xs { if p(x) { return x, true } }; return _, false`
  abbrev pub find_first : (A → Bool) → List A → Option A
  find_first p [] = none
  find_first p (x ∷ xs) = if p x then some x else find_first p xs

  pub List-cases : (xs : List A) → (xs ≡ []) ⊎ ((x : A) × (rest : List A) × (xs ≡ x ∷ rest))
  List-cases [] = inl refl
  List-cases (x ∷ xs) = inr (x, xs, refl)

  pub any-false : (p : A → Bool) (xs : List A) (x : A) → any p xs ≡ false → Memᴰ x xs → p x ≡ false
  any-false p [] x h m = elim m [ ]
  any-false p (y ∷ xs) x h (Memᴰ.head e) = rw e (ground arith)
  any-false p (y ∷ xs) x h (Memᴰ.tail m) = any-false p xs x (ground arith) m

  pub any-true_of_mem :
      (p : A → Bool) (xs : List A) (x : A) → Memᴰ x xs → p x ≡ true → any p xs ≡ true
  any-true_of_mem p [] x m h = elim m [ ]
  any-true_of_mem p (y ∷ xs) x (Memᴰ.head e) h =
      let here : p y ≡ true = subst (λ z. p z ≡ true) e h in rw here refl
  any-true_of_mem p (y ∷ xs) x (Memᴰ.tail m) h = ground (arith, any-true_of_mem p xs x m h)

  -- The member that a successful search found.
  pub any_witness :
      (p : A → Bool) (xs : List A) → any p xs ≡ true → (x : A) × Memᴰ x xs × (p x ≡ true)
  any_witness p [] h = cc
  any_witness p (y ∷ xs) h = elim (Bool-cases (p y)) [
    | inl e ↦ (y, Memᴰ.head refl, e)
    | inr e ↦ let (x, m, hx) = any_witness p xs (ground arith) in (x, Memᴰ.tail m, hx)
  ]

  pub keep-mem :
      (p : A → Bool) (xs : List A) (x : A) → Memᴰ x (keep p xs) → Memᴰ x xs × (p x ≡ true)
  keep-mem p [] x m = elim m [ ]
  keep-mem p (y ∷ xs) x m = elim (Bool-cases (p y)) [
    | inl e ↦ elim (Memᴰ.cases_cons (rw (e, keep) at m)) [
      | inl q ↦ (Memᴰ.head q, rw q e)
      | inr n ↦ let (k, h) = keep-mem p xs x n in (Memᴰ.tail k, h)
    ]
    | inr e ↦ let (n, h) = keep-mem p xs x (rw (e, keep) at m) in (Memᴰ.tail n, h)
  ]

  pub mem-keep : (p : A → Bool) (xs : List A) (x : A) → Memᴰ x xs → p x ≡ true → Memᴰ x (keep p xs)
  mem-keep p [] x m h = elim m [ ]
  mem-keep p (y ∷ xs) x (Memᴰ.head e) h =
      let here : p y ≡ true = subst (λ z. p z ≡ true) e h in rw here (Memᴰ.head e)
  mem-keep p (y ∷ xs) x (Memᴰ.tail m) h = elim (Bool-cases (p y)) [
    | inl e ↦ rw e (Memᴰ.tail (mem-keep p xs x m h))
    | inr e ↦ rw e (mem-keep p xs x m h)
  ]

  pub find_first-mem :
      (p : A → Bool) (xs : List A) {x : A} → find_first p xs ≡ some x → Memᴰ x xs × (p x ≡ true)
  find_first-mem p [] h = cc
  find_first-mem p (y ∷ xs) {x} h = elim (Bool-cases (p y)) [
    | inl e ↦ let q : y ≡ x = ground arith in (Memᴰ.head (sym q), rw (← q) e)
    | inr e ↦ let (m, k) = find_first-mem p xs (ground arith) in (Memᴰ.tail m, k)
  ]

  pub find_first-none :
      (p : A → Bool) (xs : List A) (x : A) → find_first p xs ≡ none → Memᴰ x xs → p x ≡ false
  find_first-none p [] x h m = elim m [ ]
  find_first-none p (y ∷ xs) x h (Memᴰ.head e) = rw e (ground arith)
  find_first-none p (y ∷ xs) x h (Memᴰ.tail m) = find_first-none p xs x (ground arith) m

  pub length-append : (xs ys : List A) → length (xs ++ ys) ≡ length xs + length ys
  length-append [] ys = omega arith
  length-append (x ∷ xs) ys = omega (arith, length-append xs ys)

  pub length-keep-le : (p : A → Bool) (xs : List A) → length (keep p xs) ≤ length xs
  length-keep-le p [] = omega arith
  length-keep-le p (x ∷ xs) = ground (arith, length-keep-le p xs)

module _ {ℓ} {A : Type ℓ} where
  -- No element twice.
  abbrev pub Distinct : List A → Type ℓ
  Distinct [] = Unit
  Distinct (x ∷ xs) = (¬ Memᴰ x xs) × Distinct xs

module _ {ℓ κ} {A : Type ℓ} (P : A → Type κ) where
  abbrev pub All : List A → Type κ
  All [] = Unit
  All (x ∷ xs) = P x × All xs

  pub All-mem : (xs : List A) (x : A) → All xs → Memᴰ x xs → P x
  All-mem [] x h m = elim m [ ]
  All-mem (y ∷ xs) x (p, h) (Memᴰ.head e) = subst P (sym e) p
  All-mem (y ∷ xs) x (p, h) (Memᴰ.tail m) = All-mem xs x h m

  pub All-append : (xs ys : List A) → All xs → All ys → All (xs ++ ys)
  All-append [] ys h k = k
  All-append (x ∷ xs) ys (p, h) k = (p, All-append xs ys h k)

  pub All-keep : (p : A → Bool) (xs : List A) → All xs → All (keep p xs)
  All-keep p [] h = tt
  All-keep p (x ∷ xs) (q, h) = elim (Bool-cases (p x)) [
    | inl e ↦ rw e (q, All-keep p xs h)
    | inr e ↦ rw e (All-keep p xs h)
  ]

-- What stands in the image of a list comes from one of its members.
pub map-mem {ℓ κ} :
    {A : Type ℓ} {B : Type κ} (f : A → B) (xs : List A) (y : B)
    → Memᴰ y (map f xs)
    → (x : A) × Memᴰ x xs × (y ≡ f x)
map-mem f [] y m = elim m [ ]
map-mem f (x ∷ xs) y m = elim (Memᴰ.cases_cons m) [
  | inl q ↦ (x, Memᴰ.head refl, q)
  | inr n ↦ let (z, k, e) = map-mem f xs y n in (z, Memᴰ.tail k, e)
]
