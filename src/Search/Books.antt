-- ===== src/Search/Books.antt =====
-- The law that answers a query.
use mathlib.Core.List.Memᴰ
use gesetzeswache.Prelude.{
  ◌≡◌, ◌↔◌, ◌⊎◌, inl, inr, refl, sym, ap, ℕ, ◌≤◌, ◌<◌, String, Bool, true, false, ◌&&◌, Option,
  none, some, List, [], ◌∷◌, ◌++◌, ℤ, subst, mem-keep, keep-mem, List-cases, Memᴰ, Bool-cases,
  Option-cases, arith, keep, pos, negsuc, pos_part, eqb, eqb_iff, leb, if◌then◌else◌,
}
use gesetzeswache.Text.{trim_space, to_lower, has_prefix, atoi, Atoi}
use gesetzeswache.Text.Cut.{drop_text, trim_left_set}
use gesetzeswache.Domain.{Law}
use gesetzeswache.Normalize.Sgb.{parse_sgb_book_query}
use gesetzeswache.Normalize.Sgb.Roman.{parse_sgb_book_query_positive}
use gesetzeswache.Search.{
  Candidate, sgb_book_number, number_if, filter_sgb_book_candidates, by_hits, by_score, by_book,
  resolve_ranked,
}

-- What stands behind "sgb" and its underscores in the id of a law.
abbrev book_text : Law → String
book_text law = trim_left_set (drop_text 3 (to_lower (trim_space law.id))) "_"

-- A law is an SGB book by its abbreviation, or, where that names none, by its id.
abbrev pub IsBook : Law → ℕ → Type 0
IsBook law book =
    (parse_sgb_book_query law.abbreviation ≡ some book)
    ⊎ ((parse_sgb_book_query law.abbreviation ≡ none)
        × (has_prefix (to_lower (trim_space law.id)) "sgb" ≡ true)
        × ((atoi (book_text law)).ok ≡ true)
        × ((atoi (book_text law)).value ≡ pos book)
        × (book ≤ 20))

in_range :
    (m book : ℕ) (ok : Bool)
    → 0 < book
    → (if ok && (leb 1 m && leb m 20) then m else 0) ≡ book
    → (ok ≡ true) × (m ≡ book) × (book ≤ 20)
in_range m book ok lt e = ground arith

number_if_iff :
    (n : Atoi) (book : ℕ)
    → 0 < book
    → (number_if n ≡ book) ↔ ((n.ok ≡ true) × (n.value ≡ pos book) × (book ≤ 20))
number_if_iff n book lt = (by_number n.value n.ok, λ (ok, v, le). rw (ok, v) (ground arith))
  where
    by_number :
        (v : ℤ) (ok : Bool)
        → (if ok && (leb 1 (pos_part v) && leb (pos_part v) 20) then pos_part v else 0) ≡ book
        → (ok ≡ true) × (v ≡ pos book) × (book ≤ 20)
    by_number (pos m) ok e = let (o, same, le) = in_range m book ok lt e in (o, ap pos same, le)
    by_number (negsuc m) ok e = absurd (ground arith)

sgb_book_number_iff :
    (law : Law) (book : ℕ) → 0 < book → (sgb_book_number law ≡ book) ↔ IsBook law book
unfolding sgb_book_number
sgb_book_number_iff law book lt = elim (Option-cases (parse_sgb_book_query law.abbreviation)) [
  | inr (n, p) ↦
      rw p (λ e. inl (ap some e), λ k. elim k [ inl q ↦ cc q | inr (q, _, _, _, _) ↦ cc q ])
  | inl p ↦ elim (Bool-cases (has_prefix (to_lower (trim_space law.id)) "sgb")) [
    | inl h ↦
        let by_id = number_if_iff (atoi (book_text law)) book lt in
        rw (p, h)
          (
            λ e. let (ok, v, le) = by_id.0 e in inr (refl, refl, ok, v, le),
            λ k. elim k [ inl q ↦ cc q | inr (_, _, ok, v, le) ↦ by_id.1 (ok, v, le) ],
          )
    | inr h ↦
        rw (p, h)
          (λ e. absurd (ground arith), λ k. elim k [ inl q ↦ cc q | inr (_, q, _, _, _) ↦ cc q ])
  ]
]

module _ {F : Type 0} where
  -- The only candidate that satisfies `P`.
  abbrev pub IsOnly : (Candidate F → Type 0) → List (Candidate F) → Candidate F → Type 0
  IsOnly P all c =
      (before after : List (Candidate F)) × (all ≡ before ++ c ∷ after)
      × P c
      × ((d : Candidate F) → Memᴰ d before → ¬ P d)
      × ((d : Candidate F) → Memᴰ d after → ¬ P d)

  module _ (P : Candidate F → Type 0) (p : Candidate F → Bool)
      (p_iff : (c : Candidate F) → (p c ≡ true) ↔ P c) where
    keep-nil_iff :
        (all : List (Candidate F)) → (keep p all ≡ []) ↔ ((d : Candidate F) → Memᴰ d all → ¬ P d)
    keep-nil_iff all = (
      λ e d m h. elim (subst (λ l. Memᴰ d l) e (mem-keep p all d m ((p_iff d).1 h))) [ ],
      λ none_of. elim (List-cases (keep p all)) [
        | inl e ↦ e
        | inr (d, rest, e) ↦
            let (m, h) = keep-mem p all d (rw e (Memᴰ.head refl)) in
            absurd (none_of d m ((p_iff d).0 h))
      ],
    )

    fails : (d : Candidate F) → (¬ P d) → p d ≡ false
    fails d n = elim (Bool-cases (p d)) [ inl e ↦ absurd (n ((p_iff d).0 e)) | inr e ↦ e ]

    keep-only :
        (before after : List (Candidate F)) (c : Candidate F)
        → P c
        → ((d : Candidate F) → Memᴰ d before → ¬ P d)
        → ((d : Candidate F) → Memᴰ d after → ¬ P d)
        → keep p (before ++ c ∷ after) ≡ c ∷ []
    keep-only [] after c h nb na =
        let here = (p_iff c).1 h in let rest = (keep-nil_iff after).1 na in rw (here, rest) refl
    keep-only (x ∷ before) after c h nb na =
        let there = fails x (nb x (Memᴰ.head refl)) in
        rw there (keep-only before after c h (λ d m. nb d (Memᴰ.tail m)) na)

    IsOnly-kept :
        (all : List (Candidate F)) (c : Candidate F) → keep p all ≡ c ∷ [] → IsOnly P all c
    IsOnly-kept [] c e = cc e
    IsOnly-kept (d ∷ all) c e = elim (Bool-cases (p d)) [
      | inl h ↦
          let q : d ∷ keep p all ≡ c ∷ [] = rw h at e in
          let same : d ≡ c = cc q in
          let rest : keep p all ≡ [] = cc q in
          (
            [],
            all,
            ap (λ x. x ∷ all) same,
            subst P same ((p_iff d).0 h),
            λ x m. elim m [ ],
            (keep-nil_iff all).0 rest,
          )
      | inr h ↦
          let (before, after, q, hc, nb, na) = IsOnly-kept all c (rw h at e) in
          (
            d ∷ before,
            after,
            ap (λ l. d ∷ l) q,
            hc,
            λ x m k. elim (Memᴰ.cases_cons m) [
              | inl same ↦ cc (sym h, ap p (sym same), (p_iff x).1 k)
              | inr m' ↦ nb x m' k
            ],
            na,
          )
    ]

    keep-IsOnly_iff :
        (all : List (Candidate F)) (c : Candidate F) → (keep p all ≡ c ∷ []) ↔ IsOnly P all c
    keep-IsOnly_iff all c = (
      IsOnly-kept all c,
      λ (before, after, q, h, nb, na). rw q (keep-only before after c h nb na),
    )

  by_hits-best_iff :
      (all hits : List (Candidate F)) (c : Candidate F)
      → ((by_hits all hits).best ≡ some c) ↔ (hits ≡ c ∷ [])
  by_hits-best_iff all [] c = (λ e. cc, λ e. cc)
  by_hits-best_iff all (hit ∷ []) c =
      (λ e. let q : hit ≡ c = cc in ap (λ (h : Candidate F). h ∷ []) q, λ e. ap first_hit e)
    where
      first_hit : List (Candidate F) → Option (Candidate F)
      first_hit [] = none
      first_hit (h ∷ hs) = some h
  by_hits-best_iff all (hit ∷ next ∷ hits) c = (λ e. cc, λ e. cc)

  -- The law that a query is to be answered with: the only SGB book of its number, or, for a query that
  -- names no book, the first candidate, where its score reaches the threshold.
  abbrev pub IsAnswer : (reaches : F → Bool) → Option ℕ → List (Candidate F) → Candidate F → Type 0
  IsAnswer reaches (some book) all c = IsOnly (λ d. IsBook d.law book) all c
  IsAnswer reaches none all c =
      (more : List (Candidate F)) × (all ≡ c ∷ more) × (reaches c.score ≡ true)

  best_by_score_iff :
      (reaches : F → Bool) (all : List (Candidate F)) (c : Candidate F)
      → ((by_score reaches all).best ≡ some c) ↔ IsAnswer reaches none all c
  best_by_score_iff reaches [] c = (λ e. cc e, λ (more, q, r). cc q)
  best_by_score_iff reaches (d ∷ all) c = elim (Bool-cases (reaches d.score)) [
    | inl h ↦ rw h (
      λ e. let same : d ≡ c = cc e in (all, ap (λ x. x ∷ all) same, rw (← same) h),
      λ (more, q, r). let same : d ≡ c = cc q in ap some same,
    )
    | inr h ↦ rw h (
      λ e. cc e,
      λ (more, q, r). let same : d ≡ c = cc q in cc (sym h, ap (λ x. reaches x.score) same, r),
    )
  ]

  filter_sgb-IsOnly :
      (book : ℕ) (all : List (Candidate F)) (c : Candidate F)
      → 0 < book
      → (filter_sgb_book_candidates all book ≡ c ∷ []) ↔ IsOnly (λ d. IsBook d.law book) all c
  unfolding filter_sgb_book_candidates
  filter_sgb-IsOnly book all c lt =
      keep-IsOnly_iff (λ d. IsBook d.law book) (λ d. eqb (sgb_book_number d.law) book)
        (λ d.
          let by_test = eqb_iff (sgb_book_number d.law) book in
          let by_number = sgb_book_number_iff d.law book lt in
          (λ h. by_number.0 (by_test.0 h), λ k. by_test.1 (by_number.1 k)))
        all c

  best_by_book_iff :
      (reaches : F → Bool) (book : ℕ) (all : List (Candidate F)) (c : Candidate F)
      → 0 < book
      → ((by_book reaches (some book) all).best ≡ some c) ↔ IsAnswer reaches (some book) all c
  unfolding filter_sgb_book_candidates
  best_by_book_iff reaches book [] c lt =
      (λ e. cc e, λ o. cc ((filter_sgb-IsOnly book [] c lt).1 o))
  best_by_book_iff reaches book (d ∷ all) c lt =
      let hits = by_hits-best_iff (d ∷ all) (filter_sgb_book_candidates (d ∷ all) book) c in
      let only = filter_sgb-IsOnly book (d ∷ all) c lt in
      (λ e. only.0 (hits.0 e), λ o. hits.1 (only.1 o))

  -- On its sorted candidates, `Resolve` answers a query with a law exactly if that law is the only one among the candidates that
  -- is the SGB book the query names, by its abbreviation or else its id; or, where the query names
  -- no book, if that law is the first candidate and its score reaches the threshold.
  pub resolve_ranked-best_iff :
      (reaches : F → Bool) (query : String) (all : List (Candidate F)) (c : Candidate F)
      → ((resolve_ranked reaches query all).best ≡ some c)
        ↔ IsAnswer reaches (parse_sgb_book_query query) all c
  unfolding resolve_ranked
  resolve_ranked-best_iff reaches query all c = elim (Option-cases (parse_sgb_book_query query)) [
    | inl e ↦ rw e (best_by_score_iff reaches all c)
    | inr (book, e) ↦
        rw e (best_by_book_iff reaches book all c (parse_sgb_book_query_positive query book e))
  ]
