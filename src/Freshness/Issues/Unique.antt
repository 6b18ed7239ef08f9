-- ===== src/Freshness/Issues/Unique.antt =====
-- `uniqueStrings`: every text that is not empty, once.
use gesetzeswache.Prelude.{
  ◌≡◌, ◌≢◌, refl, subst, ◌⊎◌, inl, inr, String, false, List, [], ◌∷◌, Memᴰ, ◌==◌, eq_iff, eq_refl,
  any, any_witness, Distinct, ◌∙◌, ◌↔◌, any-true_of_mem, Bool-cases,
}
use mathlib.Core.List.Memᴰ
use gesetzeswache.Freshness.Issues.{unique_from, unique_strings}

not-mem_of_unseen :
    (s : String) (seen : List String) → any (λ t. t == s) seen ≡ false → ¬ Memᴰ s seen
not-mem_of_unseen s seen e m = cc (any-true_of_mem (λ t. t == s) seen s m (eq_refl s), e)

-- One round: the text is skipped, or put out and marked as seen.
unique_from-cons :
    (seen : List String) (x : String) (xs : List String)
    → (((x ≡ "") ⊎ Memᴰ x seen) × (unique_from seen (x ∷ xs) ≡ unique_from seen xs))
      ⊎ ((x ≢ "") × (¬ Memᴰ x seen) × (unique_from seen (x ∷ xs) ≡ x ∷ unique_from (x ∷ seen) xs))
unfolding unique_from
unique_from-cons seen x xs = elim (Bool-cases (x == "")) [
  | inl e ↦ inl (inl ((eq_iff x "").0 e), rw e refl)
  | inr e ↦
      let filled : x ≢ "" = λ q. cc ((eq_iff x "").1 q, e) in
      elim (Bool-cases (any (λ t. t == x) seen)) [
        | inl old ↦
            let (t, m, same) = any_witness (λ t. t == x) seen old in
            inl (inr (subst (λ z. Memᴰ z seen) ((eq_iff t x).0 same) m), rw (e, old) refl)
        | inr new ↦ inr (filled, not-mem_of_unseen x seen new, rw (e, new) refl)
      ]
]

unique_from-nil : (seen : List String) → unique_from seen [] ≡ []
unfolding unique_from
unique_from-nil seen = refl

module _ (s : String) where
  -- What comes out went in, is not empty and was not seen.
  unique_from_sound :
      (seen xs : List String)
      → Memᴰ s (unique_from seen xs)
      → Memᴰ s xs × (s ≢ "") × (¬ Memᴰ s seen)
  unique_from_sound seen [] m = elim (rw (unique_from-nil seen) at m) [ ]
  unique_from_sound seen (x ∷ xs) m = elim (unique_from-cons seen x xs) [
    | inl (why, e) ↦
        let (n, ne, new) = unique_from_sound seen xs (rw e at m) in (Memᴰ.tail n, ne, new)
    | inr (filled, new, e) ↦ elim (Memᴰ.cases_cons (rw e at m)) [
      | inl q ↦ (Memᴰ.head q, rw q filled, rw q new)
      | inr m' ↦
          let (n, ne, old) = unique_from_sound (x ∷ seen) xs m' in
          (Memᴰ.tail n, ne, λ k. old (Memᴰ.tail k))
    ]
  ]

  -- What went in and is not empty comes out, unless it was seen.
  unique_from_complete :
      (seen xs : List String) → Memᴰ s xs → s ≢ "" → ¬ Memᴰ s seen → Memᴰ s (unique_from seen xs)
  unique_from_complete seen [] m ne new = elim m [ ]
  unique_from_complete seen (x ∷ xs) (Memᴰ.head q) ne new = elim (unique_from-cons seen x xs) [
    | inl (inl empty, e) ↦ absurd (ne (q ∙ empty))
    | inl (inr old, e) ↦ absurd (new (rw q old))
    | inr (filled, fresh, e) ↦ rw e (Memᴰ.head q)
  ]
  unique_from_complete seen (x ∷ xs) (Memᴰ.tail m) ne new = elim (unique_from-cons seen x xs) [
    | inl (why, e) ↦ rw e (unique_from_complete seen xs m ne new)
    | inr (filled, fresh, e) ↦ elim (Bool-cases (s == x)) [
      | inl same ↦ rw e (Memᴰ.head ((eq_iff s x).0 same))
      | inr other ↦ rw e (
          Memᴰ.tail (
            unique_from_complete (x ∷ seen) xs m ne (λ k. elim (Memᴰ.cases_cons k) [
              | inl q ↦ cc ((eq_iff s x).1 q, other)
              | inr old ↦ new old
            ])))
    ]
  ]

unique_from-Distinct : (seen xs : List String) → Distinct (unique_from seen xs)
unique_from-Distinct seen [] = unfold unique_from in tt
unique_from-Distinct seen (x ∷ xs) = elim (unique_from-cons seen x xs) [
  | inl (why, e) ↦ rw e (unique_from-Distinct seen xs)
  | inr (filled, new, e) ↦ rw e (
    λ m. (unique_from_sound x (x ∷ seen) xs m).2 (Memᴰ.head refl),
    unique_from-Distinct (x ∷ seen) xs,
  )
]

-- `uniqueStrings` keeps exactly the texts of the list that are not empty.
pub unique_strings-mem_iff :
    (s : String) (xs : List String) → Memᴰ s (unique_strings xs) ↔ (Memᴰ s xs × (s ≢ ""))
unfolding unique_strings
unique_strings-mem_iff s xs = (
  λ m. let (n, ne, _) = unique_from_sound s [] xs m in (n, ne),
  λ (m, ne). unique_from_complete s [] xs m ne (λ k. elim k [ ]),
)

-- `uniqueStrings` answers no text twice.
pub unique_strings-Distinct : (xs : List String) → Distinct (unique_strings xs)
unfolding unique_strings
unique_strings-Distinct xs = unique_from-Distinct [] xs
