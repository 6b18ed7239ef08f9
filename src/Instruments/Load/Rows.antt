-- ===== src/Instruments/Load/Rows.antt =====
-- The rows of a catalog that `LoadTSV` answers.
use gesetzeswache.Prelude.{
  ℕ, suc, ◌≡◌, ◌≢◌, ◌⊎◌, inl, inr, refl, ap, String, Bool, true, false, ◌||◌, ◌==◌, List, [], ◌∷◌,
  Memᴰ, arith, eq_iff, Bool-cases, any, any-false, Option, none, some, if_either,
}
use gesetzeswache.Domain.{LinkedInstrument}
use gesetzeswache.Instruments.Load.{
  LoadError, Line, bad, skipped, row, Loaded, failed, loaded, Catalog, parse_line, append_row,
  lacks_dates, finish, load_lines, load_opened, load_tsv,
}
use gesetzeswache.Instruments.Load.Fit.{
  IsFit, IsFitCatalog, LineFits, parse_line-LineFits, append_row-IsFitCatalog,
}

abbrev catalog_of : Loaded → Catalog
catalog_of (failed e) = []
catalog_of (loaded c) = c

-- A catalog that passed both the checks of its lines and the check of its parents.
abbrev IsSound : Catalog → Type 0
IsSound c = IsFitCatalog c × (any (λ e. lacks_dates e.1) c ≡ false)

IsSound-same : (c r : Catalog) → IsSound c → loaded c ≡ loaded r → IsSound r
IsSound-same c r s e = let q : c ≡ r = ap catalog_of e in rw (← q) s

finish-IsSound :
    (scan_failed : Bool) (c r : Catalog)
    → IsFitCatalog c
    → finish scan_failed c ≡ loaded r
    → IsSound r
unfolding finish
finish-IsSound true c r fit e = cc e
finish-IsSound false c r fit e = elim (Bool-cases (any (λ x. lacks_dates x.1) c)) [
  | inl h ↦ cc (rw h at e)
  | inr h ↦ IsSound-same c r (fit, h) (rw h at e)
]

Line-cases :
    (l : Line)
    → ((e : LoadError) × (l ≡ bad e)) ⊎ ((l ≡ skipped) ⊎ ((li : LinkedInstrument) × (l ≡ row li)))
Line-cases (bad e) = inl (e, refl)
Line-cases skipped = inr (inl refl)
Line-cases (row li) = inr (inr (li, refl))

load_lines-IsSound :
    (n : ℕ) (c : Catalog) (lines : List String) (scan_failed : Bool) (r : Catalog)
    → IsFitCatalog c
    → load_lines n c lines scan_failed ≡ loaded r
    → IsSound r
unfolding load_lines
load_lines-IsSound n c [] scan_failed r fit e = finish-IsSound scan_failed c r fit e
load_lines-IsSound n c (text ∷ lines) scan_failed r fit e =
    elim (Line-cases (parse_line (suc n) text)) [
      | inl (why, q) ↦ cc (rw (load_lines, q) at e)
      | inr (inl q) ↦ load_lines-IsSound (suc n) c lines scan_failed r fit (rw (load_lines, q) at e)
      | inr (inr (li, q)) ↦
          let fits : LineFits (row li) = rw q at (parse_line-LineFits (suc n) text) in
          load_lines-IsSound (suc n) (append_row li c) lines scan_failed r
            (append_row-IsFitCatalog li c fits fit) (rw (load_lines, q) at e)
    ]

none_fit : IsFitCatalog []
none_fit k rows li m n = elim m [ ]

load_opened-IsSound :
    (opened : Option (List String × Bool)) (c : Catalog) → load_opened opened ≡ loaded c → IsSound c
unfolding load_opened
load_opened-IsSound none c e = cc e
load_opened-IsSound (some (lines, scan_failed)) c e =
    load_lines-IsSound 0 [] lines scan_failed c none_fit e

load_tsv-IsSound :
    (open_file : String → Option (List String × Bool)) (path : String) (c : Catalog)
    → load_tsv open_file path ≡ loaded c
    → IsSound c
load_tsv-IsSound open_file path c =
    unfold load_tsv in
    if_either (λ r. r ≡ loaded c → IsSound c) (path == "") (IsSound-same [] c (none_fit, refl))
      (load_opened-IsSound (open_file path) c)

-- Each row of a catalog that `LoadTSV` answers stands under the key of its parent, which is not
-- empty, and has a valid slug and notes in which some citation is found.
pub load_tsv-IsFit :
    (open_file : String → Option (List String × Bool)) (path : String) (c : Catalog) (k : String)
    (rows : List LinkedInstrument) (li : LinkedInstrument)
    → load_tsv open_file path ≡ loaded c
    → Memᴰ (k, rows) c
    → Memᴰ li rows
    → IsFit li × (li.parent_law_id ≡ k)
load_tsv-IsFit open_file path c k rows li e m n =
    (load_tsv-IsSound open_file path c e).0 k rows li m n

-- In a catalog that `LoadTSV` answers, each row of a parent with at least two rows has a date and a
-- section.
pub load_tsv-dated :
    (open_file : String → Option (List String × Bool)) (path : String) (c : Catalog) (k : String)
    (a b : LinkedInstrument) (more : List LinkedInstrument) (li : LinkedInstrument)
    → load_tsv open_file path ≡ loaded c
    → Memᴰ (k, a ∷ b ∷ more) c
    → Memᴰ li (a ∷ b ∷ more)
    → (li.effective_from ≢ "") × (li.section_hint ≢ "")
load_tsv-dated open_file path c k a b more li e m n =
    let complete = (load_tsv-IsSound open_file path c e).1 in
    let none_lacks = any-false (λ x. lacks_dates x.1) c (k, a ∷ b ∷ more) complete m in
    both_filled li.effective_from li.section_hint (
      any-false (λ x. x.effective_from == "" || x.section_hint == "") (a ∷ b ∷ more) li none_lacks
        n)
  where
    both_filled : (s t : String) → (s == "" || t == "") ≡ false → (s ≢ "") × (t ≢ "")
    both_filled s t h = (ground (arith, eq_iff s ""), ground (arith, eq_iff t ""))
