-- ===== src/Instruments/Load/Fit.antt =====
-- What every row of a loaded catalog has.
use mathlib.Core.List.Memᴰ
use gesetzeswache.Prelude.{
  ℕ, ◌≡◌, ◌≢◌, ◌⊎◌, inl, inr, refl, ◌∙◌, ap, String, Bool, true, false, not, ◌&&◌, ◌||◌, ◌==◌, List,
  [], ◌∷◌, ◌++◌, Memᴰ, arith, eq_iff, Bool-cases, if_either,
}
use gesetzeswache.Text.{trim_space, has_prefix, split_on}
use gesetzeswache.Instruments.Chain.{parse_date}
use gesetzeswache.GiiUrl.{valid_slug}
use gesetzeswache.Domain.{LinkedInstrument}
use gesetzeswache.Citation.Instruments.{parse_linked_instruments}
use gesetzeswache.Instruments.Load.{
  Line, bad, skipped, row, Catalog, no_refs, check_row, parse_line, append_row, is_none,
  parse_parts, seeded_row,
}

-- A row that the loader lets pass: a safe slug, a parent, and notes that cite the gazette.
pub record IsFit (li : LinkedInstrument) : Type 0 where
  pub safe_slug : valid_slug li.gii_slug ≡ true
  pub has_parent : li.parent_law_id ≢ ""
  pub cites : no_refs (parse_linked_instruments li.notes) ≡ false

abbrev pub LineFits : Line → Type 0
LineFits (bad e) = Unit
LineFits skipped = Unit
LineFits (row li) = IsFit li

-- Each row stands under its parent's key and is fit.
abbrev pub IsFitCatalog : Catalog → Type 0
IsFitCatalog c =
    (k : String) (rows : List LinkedInstrument) (li : LinkedInstrument)
    → Memᴰ (k, rows) c
    → Memᴰ li rows
    → IsFit li × (li.parent_law_id ≡ k)

not-false : (b : Bool) → not b ≡ false → b ≡ true
not-false b h = ground arith

parent-filled : (parent slug : String) → (parent == "" || slug == "") ≡ false → parent ≢ ""
parent-filled parent slug h = ground (arith, eq_iff parent "")

check_row-LineFits : (n : ℕ) (li : LinkedInstrument) → LineFits (check_row n li)
unfolding check_row
check_row-LineFits n li = elim (Bool-cases (not (valid_slug li.gii_slug))) [
  | inl e ↦ rw e tt
  | inr e ↦
      elim (Bool-cases (not (li.effective_from == "") && is_none (parse_date li.effective_from))) [
        | inl d ↦ rw (e, d) tt
        | inr d ↦ elim (Bool-cases (li.parent_law_id == "" || li.gii_slug == "")) [
          | inl p ↦ rw (e, d, p) tt
          | inr p ↦ elim (Bool-cases (no_refs (parse_linked_instruments li.notes))) [
            | inl u ↦ rw (e, d, p, u) tt
            | inr u ↦
                let fit : IsFit li = record {
                  safe_slug = not-false (valid_slug li.gii_slug) e;
                  has_parent = parent-filled li.parent_law_id li.gii_slug p;
                  cites = u;
                } in
                rw (e, d, p, u) fit
          ]
        ]
      ]
]

parse_parts-LineFits : (n : ℕ) (parts : List String) → LineFits (parse_parts n parts)
parse_parts-LineFits n [] = tt
parse_parts-LineFits n (parent ∷ []) = tt
parse_parts-LineFits n (parent ∷ kind ∷ []) = tt
parse_parts-LineFits n (parent ∷ kind ∷ slug ∷ more) =
    check_row-LineFits n (seeded_row parent kind slug more)

pub parse_line-LineFits : (n : ℕ) (text : String) → LineFits (parse_line n text)
parse_line-LineFits n text =
    let line = trim_space text in
    let by_parts = parse_parts-LineFits n (split_on b'\t' line) in
    unfold parse_line in if_either LineFits (line == "" || has_prefix line "#") tt by_parts

mem-snoc :
    (rows : List LinkedInstrument) (li x : LinkedInstrument)
    → Memᴰ x (rows ++ li ∷ [])
    → Memᴰ x rows ⊎ (x ≡ li)
mem-snoc [] li x m = elim (Memᴰ.cases_cons m) [ inl q ↦ inr q | inr n ↦ elim n [ ] ]
mem-snoc (y ∷ rows) li x m = elim (Memᴰ.cases_cons m) [
  | inl q ↦ inl (Memᴰ.head q)
  | inr n ↦ elim (mem-snoc rows li x n) [ inl k ↦ inl (Memᴰ.tail k) | inr q ↦ inr q ]
]

-- A row of a catalog after a row was appended.
abbrev IsOldOrNew : LinkedInstrument → Catalog → String → LinkedInstrument → Type 0
IsOldOrNew li c k x =
    ((rows : List LinkedInstrument) × Memᴰ (k, rows) c × Memᴰ x rows)
    ⊎ ((x ≡ li) × (k ≡ li.parent_law_id))

IsOldOrNew-tail :
    {li x : LinkedInstrument} {k : String} (e : String × List LinkedInstrument) (c : Catalog)
    → IsOldOrNew li c k x
    → IsOldOrNew li (e ∷ c) k x
IsOldOrNew-tail e c (inl (rows, m, n)) = inl (rows, Memᴰ.tail m, n)
IsOldOrNew-tail e c (inr q) = inr q

append_row-mem :
    (li : LinkedInstrument) (c : Catalog) (k : String) (rows : List LinkedInstrument)
    (x : LinkedInstrument)
    → Memᴰ (k, rows) (append_row li c)
    → Memᴰ x rows
    → IsOldOrNew li c k x
unfolding append_row
append_row-mem li [] k rows x m n = elim (Memᴰ.cases_cons m) [
  | inl q ↦
      let q₁ : rows ≡ li ∷ [] = ap (λ e. e.1) q in
      elim (Memᴰ.cases_cons (rw q₁ at n)) [
        | inl same ↦ inr (same, ap (λ e. e.0) q)
        | inr none_left ↦ elim none_left [ ]
      ]
  | inr none_left ↦ elim none_left [ ]
]
append_row-mem li ((j, old) ∷ more) k rows x m n = elim (Bool-cases (j == li.parent_law_id)) [
  | inl h ↦ elim (Memᴰ.cases_cons (rw h at m)) [
    | inl q ↦
        let q₀ : k ≡ j = ap (λ e. e.0) q in
        let q₁ : rows ≡ old ++ li ∷ [] = ap (λ e. e.1) q in
        elim (mem-snoc old li x (rw q₁ at n)) [
          | inl o ↦ inl (old, Memᴰ.head (ap (λ s. (s, old)) q₀), o)
          | inr same ↦ inr (same, q₀ ∙ (eq_iff j li.parent_law_id).0 h)
        ]
    | inr t ↦ inl (rows, Memᴰ.tail t, n)
  ]
  | inr h ↦ elim (Memᴰ.cases_cons (rw h at m)) [
    | inl q ↦ inl (rows, Memᴰ.head q, n)
    | inr t ↦ IsOldOrNew-tail (j, old) more (append_row-mem li more k rows x t n)
  ]
]

pub append_row-IsFitCatalog :
    (li : LinkedInstrument) (c : Catalog)
    → IsFit li
    → IsFitCatalog c
    → IsFitCatalog (append_row li c)
append_row-IsFitCatalog li c fit all k rows x m n = elim (append_row-mem li c k rows x m n) [
  | inl (old, m', n') ↦ all k old x m' n'
  | inr (same, q) ↦ rw (same, q) (fit, refl)
]
