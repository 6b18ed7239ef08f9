-- ===== src/Export/Chunks/Assigned.antt =====
-- Assigned ids of chunks.
use Prim.Native.String.{◌++◌}
use mathlib.Core.List.Memᴰ
use gesetzeswache.Prelude.{
  ◌≡◌, ◌≢◌, ◌≤◌, ◌<◌, inl, inr, refl, sym, ◌∙◌, ap, subst, ℕ, zero, suc, String, true, false, ◌==◌,
  some, List, [], ◌∷◌, Memᴰ, Bool-cases, eq_iff, any, map, length, Distinct, if◌then◌else◌, arith,
  any-true_of_mem,
}
use gesetzeswache.Text.{itoa}
use gesetzeswache.Text.Cut.{◌+++◌}
use gesetzeswache.Text.Decimal.{itoa-injective, append-left_injective}
use gesetzeswache.Export.Chunks.{IndexChunk, free_id, assigned_id, dedupe_ids, dedupe_chunk_ids}

-- The list without the first place of a member.
abbrev without : (ys : List String) → (x : String) → List String
without [] x = []
without (y ∷ ys) x = let rest = y ∷ without ys x in if y == x then ys else rest

length-without :
    (ys : List String) (x : String) → Memᴰ x ys → length ys ≡ suc (length (without ys x))
length-without [] x m = elim m [ ]
length-without (y ∷ ys) x m = elim (Bool-cases (y == x)) [
  | inl e ↦ rw e refl
  | inr e ↦ elim (Memᴰ.cases_cons m) [
    | inl q ↦ absurd (cc (e, (eq_iff y x).1 (sym q)))
    | inr n ↦ rw e (ap suc (length-without ys x n))
  ]
]

without-mem : (ys : List String) (x z : String) → Memᴰ z ys → x ≢ z → Memᴰ z (without ys x)
without-mem [] x z m ne = elim m [ ]
without-mem (y ∷ ys) x z m ne = elim (Bool-cases (y == x)) [
  | inl e ↦ elim (Memᴰ.cases_cons m) [
    | inl q ↦ absurd (ne (sym ((eq_iff y x).0 e) ∙ sym q))
    | inr n ↦ rw e n
  ]
  | inr e ↦ elim (Memᴰ.cases_cons m) [
    | inl q ↦ rw e (Memᴰ.head q)
    | inr n ↦ rw e (Memᴰ.tail (without-mem ys x z n ne))
  ]
]

mem-any : (x : String) (ys : List String) → any (λ t. t == x) ys ≡ true → Memᴰ x ys
mem-any x [] h = absurd cc
mem-any x (y ∷ ys) h = elim (Bool-cases (y == x)) [
  | inl e ↦ Memᴰ.head (sym ((eq_iff y x).0 e))
  | inr e ↦ Memᴰ.tail (mem-any x ys (rw e at h))
]

not_mem-any : (x : String) (ys : List String) → any (λ t. t == x) ys ≡ false → ¬ Memᴰ x ys
not_mem-any x ys h m = cc (h, any-true_of_mem (λ t. t == x) ys x m ((eq_iff x x).1 refl))

abbrev candidate : (base : String) → ℕ → String
unfolding itoa
candidate base n = base +++ "-" +++ itoa n

candidate-injective : (base : String) (m n : ℕ) → candidate base m ≡ candidate base n → m ≡ n
unfolding itoa
candidate-injective base m n e =
    itoa-injective m n
      (append-left_injective "-" _ _ (append-left_injective base ("-" ++ itoa m) ("-" ++ itoa n) e))

-- While the candidates in use from `n` on stand among fewer ids than there is fuel, one is free.
free_id-some :
    (fuel n : ℕ) (base : String) (used left : List String)
    → ((m : ℕ) → n ≤ m → Memᴰ (candidate base m) used → Memᴰ (candidate base m) left)
    → length left < fuel
    → (id : String) × (free_id fuel n base used ≡ some id) × (¬ Memᴰ id used)
unfolding free_id
free_id-some zero n base used left taken lt = absurd (omega arith)
free_id-some (suc fuel) n base used left taken lt =
    elim (Bool-cases (any (λ t. t == candidate base n) used)) [
      | inr e ↦ (candidate base n, rw e refl, not_mem-any (candidate base n) used e)
      | inl e ↦
          let mine = taken n (omega arith) (mem-any (candidate base n) used e) in
          let shorter = length-without left (candidate base n) mine in
          let (id, found, new) =
            free_id-some fuel (suc n) base used (without left (candidate base n))
              (λ m le k.
                without-mem left (candidate base n) (candidate base m) (taken m (omega arith) k)
                  (λ q. let same = candidate-injective base n m q in absurd (omega (arith, same))))
              (omega (arith, shorter)) in
          (id, rw e found, new)
    ]

assigned_id-some :
    (id : String) (used : List String)
    → (new : String) × (assigned_id id used ≡ some new) × (¬ Memᴰ new used)
unfolding assigned_id
assigned_id-some id used = elim (Bool-cases (any (λ t. t == id) used)) [
  | inr e ↦ (id, rw e refl, not_mem-any id used e)
  | inl e ↦
      let (new, found, free) =
        free_id-some (suc (length used)) 2 id used used (λ m le k. k) (omega arith) in
      (new, rw e found, free)
]

abbrev pub chunk_ids : List IndexChunk → List String
chunk_ids chunks = map (λ c. c.chunk_id) chunks

-- A chunk without its id.
abbrev pub unlabelled : IndexChunk → IndexChunk
unlabelled c = record c { chunk_id = "" }

dedupe_ids-some :
    (used : List String) (chunks : List IndexChunk)
    → (out : List IndexChunk) × (dedupe_ids used chunks ≡ some out)
      × Distinct (chunk_ids out)
      × ((x : String) → Memᴰ x used → ¬ Memᴰ x (chunk_ids out))
      × (map unlabelled out ≡ map unlabelled chunks)
unfolding dedupe_ids
dedupe_ids-some used [] = ([], refl, tt, (λ x m k. elim k [ ]), refl)
dedupe_ids-some used (c ∷ chunks) =
    let (id, found, free) = assigned_id-some c.chunk_id used in
    let (out, rest, distinct, apart, same) = dedupe_ids-some (id ∷ used) chunks in
    (
      record c { chunk_id = id } ∷ out,
      rw (dedupe_ids, found, rest) refl,
      (apart id (Memᴰ.head refl), distinct),
      λ x m k. elim (Memᴰ.cases_cons k) [
        | inl q ↦ free (subst (λ y. Memᴰ y used) q m)
        | inr n ↦ apart x (Memᴰ.tail m) n
      ],
      ap (λ more. unlabelled c ∷ more) same,
    )

-- `DedupeChunkIDs` ends: within one try more than there are ids in use it finds a free suffix. No two
-- of the chunks that it answers have the same id, and but for their ids they are the given ones, in
-- their order.
pub dedupe_chunk_ids-Distinct :
    (chunks : List IndexChunk)
    → (out : List IndexChunk) × (dedupe_chunk_ids chunks ≡ some out)
      × Distinct (chunk_ids out)
      × (map unlabelled out ≡ map unlabelled chunks)
unfolding dedupe_chunk_ids
dedupe_chunk_ids-Distinct chunks =
    let (out, found, distinct, apart, same) = dedupe_ids-some [] chunks in
    (out, found, distinct, same)
