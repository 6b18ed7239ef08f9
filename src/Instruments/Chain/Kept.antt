-- ===== src/Instruments/Chain/Kept.antt =====
-- What the annotation of a chain leaves as it was.
use gesetzeswache.Prelude.{
  ◌≡◌, refl, ◌∙◌, ap, ℕ, zero, suc, String, ◌==◌, List, [], ◌∷◌, Option, none, some, map, if_either,
}
use gesetzeswache.Time.{Instant}
use gesetzeswache.Instruments.Chain.{date_only, number_rows, group_keys}
use gesetzeswache.Domain.{LinkedInstrument}
use gesetzeswache.Instruments.Chain.{
  Row, set_status, write_at, annotate_group, annotate_groups, with_coverage, annotate_chain,
  coverage_section,
}

-- A row without its status and its coverage.
abbrev pub unlabelled : LinkedInstrument → LinkedInstrument
unlabelled li = record li { status = ""; coverage = "" }

unlabelled-set_status :
    (st : Option String) (li : LinkedInstrument) → unlabelled (set_status st li) ≡ unlabelled li
unlabelled-set_status none li = refl
unlabelled-set_status (some st) li = refl

unlabelled-write_at :
    (i : ℕ) (st : Option String) (out : List LinkedInstrument)
    → map unlabelled (write_at i st out) ≡ map unlabelled out
unlabelled-write_at i st [] = refl
unlabelled-write_at zero st (x ∷ xs) = ap (λ y. y ∷ map unlabelled xs) (unlabelled-set_status st x)
unlabelled-write_at (suc i) st (x ∷ xs) = ap (λ ys. unlabelled x ∷ ys) (unlabelled-write_at i st xs)

unlabelled-annotate_group :
    (as_of : ℕ) (rows : List Row) (out : List LinkedInstrument)
    → map unlabelled (annotate_group as_of rows out) ≡ map unlabelled out
unfolding annotate_group
unlabelled-annotate_group as_of [] out = refl
unlabelled-annotate_group as_of (r ∷ later) out =
    unlabelled-annotate_group as_of later _ ∙ unlabelled-write_at r.index _ out

unlabelled-annotate_groups :
    (as_of : ℕ) (rows : List Row) (keys : List String) (out : List LinkedInstrument)
    → map unlabelled (annotate_groups as_of rows keys out) ≡ map unlabelled out
unfolding annotate_groups
unlabelled-annotate_groups as_of rows [] out = refl
unlabelled-annotate_groups as_of rows (k ∷ keys) out =
    unlabelled-annotate_groups as_of rows keys _ ∙ unlabelled-annotate_group as_of _ out

unlabelled-with_coverage : (li : LinkedInstrument) → unlabelled (with_coverage li) ≡ unlabelled li
unlabelled-with_coverage li =
    if_either {on = record li { coverage = coverage_section }} {off = li}
      (λ x. unlabelled x ≡ unlabelled li) (li.coverage == "") refl refl

unlabelled-covered :
    (rows : List LinkedInstrument) → map unlabelled (map with_coverage rows) ≡ map unlabelled rows
unlabelled-covered [] = refl
unlabelled-covered (x ∷ xs) =
    ap (λ y. y ∷ map unlabelled (map with_coverage xs)) (unlabelled-with_coverage x)
    ∙ ap (λ ys. unlabelled x ∷ ys) (unlabelled-covered xs)

-- The annotation of a chain keeps the rows and their order, and of each row all but the status and
-- the coverage.
pub annotate_chain-unlabelled :
    (rows : List LinkedInstrument) (as_of : Instant)
    → map unlabelled (annotate_chain rows as_of) ≡ map unlabelled rows
unfolding annotate_chain
annotate_chain-unlabelled rows as_of =
    let numbered = number_rows 0 (map with_coverage rows) in
    unlabelled-annotate_groups (date_only as_of) numbered (group_keys [] numbered)
      (map with_coverage rows)
    ∙ unlabelled-covered rows
