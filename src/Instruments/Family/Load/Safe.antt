-- ===== src/Instruments/Family/Load/Safe.antt =====
-- The rows of a catalog of families.
use gesetzeswache.Prelude.{
  ℕ, suc, ◌≡◌, ◌⊎◌, inl, inr, refl, ap, subst, String, Bool, true, false, not, ◌==◌, Option, none,
  some, List, [], ◌∷◌, ◌||◌, Bool-cases, All, All-append, arith, if_either,
}
use gesetzeswache.Normalize.{key}
use gesetzeswache.Text.{trim_space, has_prefix, split_on}
use gesetzeswache.Citation.Instruments.{parse_linked_instruments}
use gesetzeswache.Instruments.Load.{no_refs}
use gesetzeswache.Instruments.Family.{FamilyRow, FamilyCatalog}
use gesetzeswache.Instruments.Family.Load.{
  FamilyError, Families, refused, families, FamilyLine, bad, skipped, row, re_safe_prefix,
  check_family, family_row, family_parts, family_line, append_family, load_families, from_opened,
  load_families_tsv,
}

-- A row that the loader lets pass: a prefix that is safe in a slug, a parent, and a citation.
pub record IsSafe (r : FamilyRow) : Type 0 where
  pub safe_prefix : re_safe_prefix r.slug_prefix ≡ true
  pub has_parent : (r.consumer_parent_id == "") ≡ false
  pub cites : no_refs (parse_linked_instruments r.notes) ≡ false

abbrev pub AreSafe : FamilyCatalog → Type 0
AreSafe c = All (λ e. All IsSafe e.1) c

abbrev LineIsSafe : FamilyLine → Type 0
LineIsSafe (bad e) = Unit
LineIsSafe skipped = Unit
LineIsSafe (row r) = IsSafe r

not-false : (b : Bool) → not b ≡ false → b ≡ true
not-false b h = ground arith

check_family-IsSafe : (n : ℕ) (r : FamilyRow) → LineIsSafe (check_family n r)
unfolding check_family
check_family-IsSafe n r = elim (Bool-cases (r.consumer_parent_id == "")) [
  | inl e ↦ rw e tt
  | inr e ↦ elim (Bool-cases (r.slug_prefix == "")) [
    | inl p ↦ rw (e, p) tt
    | inr p ↦ elim (Bool-cases (not (re_safe_prefix r.slug_prefix))) [
      | inl u ↦ rw (e, p, u) tt
      | inr u ↦ elim (Bool-cases (no_refs (parse_linked_instruments r.notes))) [
        | inl c ↦ rw (e, p, u, c) tt
        | inr c ↦
            let safe : IsSafe r = record {
              safe_prefix = not-false (re_safe_prefix r.slug_prefix) u;
              has_parent = e;
              cites = c;
            } in
            rw (e, p, u, c) safe
      ]
    ]
  ]
]

append_family-AreSafe :
    (r : FamilyRow) (c : FamilyCatalog) → IsSafe r → AreSafe c → AreSafe (append_family r c)
unfolding append_family
append_family-AreSafe r [] h safe = ((h, tt), tt)
append_family-AreSafe r ((k, rows) ∷ more) h (first, rest) =
    elim (Bool-cases (k == r.consumer_parent_id)) [
      | inl e ↦ rw e (All-append IsSafe rows (r ∷ []) first (h, tt), rest)
      | inr e ↦ rw e (first, append_family-AreSafe r more h rest)
    ]

FamilyLine-cases :
    (l : FamilyLine)
    → ((e : FamilyError) × (l ≡ bad e)) ⊎ ((l ≡ skipped) ⊎ ((r : FamilyRow) × (l ≡ row r)))
FamilyLine-cases (bad e) = inl (e, refl)
FamilyLine-cases skipped = inr (inl refl)
FamilyLine-cases (row r) = inr (inr (r, refl))

parts-IsSafe : (n : ℕ) (parts : List String) → LineIsSafe (family_parts n parts)
unfolding key trim_space
parts-IsSafe n (parent ∷ prefix ∷ hint ∷ notes ∷ more) =
    check_family-IsSafe n (family_row parent prefix hint notes)
parts-IsSafe n [] = tt
parts-IsSafe n (a ∷ []) = tt
parts-IsSafe n (a ∷ b ∷ []) = tt
parts-IsSafe n (a ∷ b ∷ c ∷ []) = tt

line-IsSafe : (n : ℕ) (text : String) → LineIsSafe (family_line n text)
line-IsSafe n text =
    let line = trim_space text in
    let by_parts = parts-IsSafe n (split_on b'\t' line) in
    unfold family_line in if_either LineIsSafe (line == "" || has_prefix line "#") tt by_parts

catalog_of : Families → FamilyCatalog
catalog_of (refused e) = []
catalog_of (families c) = c

AreSafe-same : (c r : FamilyCatalog) → AreSafe c → families c ≡ families r → AreSafe r
unfolding catalog_of
AreSafe-same c r safe e = let q : c ≡ r = ap catalog_of e in subst AreSafe q safe

load_families-AreSafe :
    (n : ℕ) (c : FamilyCatalog) (lines : List String) (scan_failed : Bool) (r : FamilyCatalog)
    → AreSafe c
    → load_families n c lines scan_failed ≡ families r
    → AreSafe r
unfolding load_families
load_families-AreSafe n c [] true r safe e = cc e
load_families-AreSafe n c [] false r safe e = AreSafe-same c r safe e
load_families-AreSafe n c (text ∷ lines) scan_failed r safe e =
    elim (FamilyLine-cases (family_line (suc n) text)) [
      | inl (why, q) ↦ cc (rw (load_families, q) at e)
      | inr (inl q) ↦
          load_families-AreSafe (suc n) c lines scan_failed r safe (rw (load_families, q) at e)
      | inr (inr (x, q)) ↦
          let fits : IsSafe x = rw q at (line-IsSafe (suc n) text) in
          load_families-AreSafe (suc n) (append_family x c) lines scan_failed r
            (append_family-AreSafe x c fits safe) (rw (load_families, q) at e)
    ]

opened-AreSafe :
    (opened : Option (List String × Bool)) (c : FamilyCatalog)
    → from_opened opened ≡ families c
    → AreSafe c
unfolding load_families
opened-AreSafe none c e = cc e
opened-AreSafe (some (lines, scan_failed)) c e = load_families-AreSafe 0 [] lines scan_failed c tt e

-- Each row of a catalog that `LoadFamiliesTSV` answers has a parent, a prefix of letters, digits and
-- underscores, and notes in which some citation is found.
pub load_families_tsv-AreSafe :
    (open_file : String → Option (List String × Bool)) (path : String) (c : FamilyCatalog)
    → load_families_tsv open_file path ≡ families c
    → AreSafe c
load_families_tsv-AreSafe open_file path c =
    unfold load_families_tsv in
    if_either (λ r. r ≡ families c → AreSafe c) (path == "") (AreSafe-same [] c tt)
      (opened-AreSafe (open_file path) c)
