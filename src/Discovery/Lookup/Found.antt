-- ===== src/Discovery/Lookup/Found.antt =====
-- What a lookup by a title finds.
use mathlib.Core.List.Memᴰ
use gesetzeswache.Prelude.{
  ◌≡◌, ◌⊎◌, refl, ◌∙◌, sym, ap, String, Bool, true, false, ◌||◌, ltb, List, [], ◌∷◌, Memᴰ,
  Bool-cases, inl, inr, arith,
}
use gesetzeswache.Text.Cut.{byte_len}
use gesetzeswache.Normalize.{key}
use gesetzeswache.Domain.{Law}
use gesetzeswache.Discovery.Parents.Unique.{keys_from_sound}
use gesetzeswache.Discovery.Lookup.{
  CatalogLookup, looks_like_verordnung, is_strong, is_weak, title_matches, by_title_phrase, or_ids,
}

-- The id of a statute of the list whose title passes a test for the phrase.
abbrev IsOf : (Law → Bool) → List Law → String → Type 0
IsOf test laws id =
    (law : Law) × Memᴰ law laws
    × (law.id ≡ id)
    × (looks_like_verordnung law ≡ false)
    × (test law ≡ true)

IsOf-tail :
    (test : Law → Bool) (law : Law) (laws : List Law) (id : String)
    → IsOf test laws id
    → IsOf test (law ∷ laws) id
IsOf-tail test law laws id (l, m, q, v, t) = (l, Memᴰ.tail m, q, v, t)

-- Both lists of the loop come from statutes, by their tests.
abbrev AreOf : (phrase : String) → List Law → List String × List String → Type 0
AreOf phrase laws (strong, weak) =
    ((id : String) → Memᴰ id strong → IsOf (is_strong phrase) laws id)
    × ((id : String) → Memᴰ id weak → IsOf (is_weak phrase) laws id)

AreOf-tail :
    (phrase : String) (law : Law) (laws : List Law) (p : List String × List String)
    → AreOf phrase laws p
    → AreOf phrase (law ∷ laws) p
AreOf-tail phrase law laws (strong, weak) (s, w) = (
  λ id m. IsOf-tail (is_strong phrase) law laws id (s id m),
  λ id m. IsOf-tail (is_weak phrase) law laws id (w id m),
)

IsOf-cons :
    (test : Law → Bool) (law : Law) (laws : List Law) (ids : List String)
    → looks_like_verordnung law ≡ false
    → test law ≡ true
    → ((id : String) → Memᴰ id ids → IsOf test (law ∷ laws) id)
    → (id : String) → Memᴰ id (law.id ∷ ids)
    → IsOf test (law ∷ laws) id
IsOf-cons test law laws ids v t h id m = elim (Memᴰ.cases_cons m) [
  | inl q ↦ (law, Memᴰ.head refl, sym q, v, t)
  | inr n ↦ h id n
]

or-false : (a b : Bool) → (a || b) ≡ false → b ≡ false
or-false a b h = ground arith

title_matches-AreOf :
    (phrase : String) (laws : List Law) → AreOf phrase laws (title_matches phrase laws)
unfolding title_matches
title_matches-AreOf phrase [] = (λ id m. elim m [ ], λ id m. elim m [ ])
title_matches-AreOf phrase (law ∷ laws) =
    let short = ltb (byte_len (key law.title)) 8 in
    let rest = title_matches phrase laws in
    let ih = AreOf-tail phrase law laws rest (title_matches-AreOf phrase laws) in
    elim (Bool-cases (short || looks_like_verordnung law)) [
      | inl skip ↦ rw skip ih
      | inr kept ↦
          let v = or-false short (looks_like_verordnung law) kept in
          elim (Bool-cases (is_strong phrase law)) [
            | inl s ↦ rw (kept, s) (IsOf-cons (is_strong phrase) law laws rest.0 v s ih.0, ih.1)
            | inr s ↦ elim (Bool-cases (is_weak phrase law)) [
              | inl w ↦ rw (kept, s, w) (ih.0, IsOf-cons (is_weak phrase) law laws rest.1 v w ih.1)
              | inr w ↦ rw (kept, s, w) ih
            ]
          ]
    ]

mem-or_ids : (xs ys : List String) (id : String) → Memᴰ id (or_ids xs ys) → Memᴰ id xs ⊎ Memᴰ id ys
mem-or_ids [] ys id m = inr m
mem-or_ids (x ∷ xs) ys id m = inl m

-- An id that `ByTitlePhrase` answers is the key of a law of the catalog that does not look like an
-- ordinance, and whose title stands for the phrase or holds it.
pub by_title_phrase-IsOf :
    (c : CatalogLookup) (phrase id : String)
    → Memᴰ id (by_title_phrase c phrase)
    → (law : Law) × Memᴰ law c.laws
      × (key law.id ≡ id)
      × (looks_like_verordnung law ≡ false)
      × ((is_strong phrase law || is_weak phrase law) ≡ true)
unfolding by_title_phrase
by_title_phrase-IsOf c phrase id m =
    let found = title_matches-AreOf phrase c.laws in
    elim (Bool-cases (ltb (byte_len (key phrase)) 12)) [
      | inl short ↦ elim (rw short at m) [ ]
      | inr long ↦ elim (mem-or_ids _ _ id (rw long at m)) [
        | inl n ↦
            let (has, new) = keys_from_sound [] (title_matches phrase c.laws).0 id n in
            let (ne, (x, mx, q)) = has in
            let (law, ml, i, v, t) = found.0 x mx in (law, ml, ap key i ∙ q, v, rw t refl)
        | inr n ↦
            let (has, new) = keys_from_sound [] (title_matches phrase c.laws).1 id n in
            let (ne, (x, mx, q)) = has in
            let (law, ml, i, v, t) = found.1 x mx in (law, ml, ap key i ∙ q, v, rw t (ground arith))
      ]
    ]
