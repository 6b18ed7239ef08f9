-- ===== src/Tests/Load.antt =====
-- A file of seeded instruments, read.
use mathlib.Core.List.Memᴰ
use gesetzeswache.Prelude.{◌≡◌, ◌≢◌, refl, String, true, false, Option, List, some, [], ◌∷◌}
use gesetzeswache.Text.{trim_space, has_prefix, contains, split_on, equal_fold}
use gesetzeswache.Text.Cut.{trim_left_set, trim_right_set}
use gesetzeswache.GiiUrl.{valid_slug}
use gesetzeswache.GiiUrl.Links.{slug_from_toc_link, zip_slug, slug_from_toc_link-IsValid}
use gesetzeswache.Citation.Instruments.{parse_linked_instruments}
use gesetzeswache.Domain.{LinkedInstrument}
use gesetzeswache.Instruments.Chain.{parse_date}
use gesetzeswache.Normalize.{key}
use gesetzeswache.Instruments.Load.{
  Catalog, loaded, failed, want_fields, no_citation, load_tsv, seeded_row,
}
use gesetzeswache.Instruments.Load.Fit.{IsFit}
use gesetzeswache.Instruments.Load.Rows.{load_tsv-IsFit, load_tsv-dated}

abbrev first_line : String
first_line = "XG\tchild\txv_1\tBGBl. 2024 I Nr. 10\t2024-01-01\t§ 1"

abbrev second_line : String
second_line = "XG\tchild\txv_2\tBGBl. 2025 I Nr. 20\t2025-01-01\t§ 1"

abbrev first_row : LinkedInstrument
first_row = seeded_row "XG" "child" "xv_1" ("BGBl. 2024 I Nr. 10" ∷ "2024-01-01" ∷ "§ 1" ∷ [])

abbrev second_row : LinkedInstrument
second_row = seeded_row "XG" "child" "xv_2" ("BGBl. 2025 I Nr. 20" ∷ "2025-01-01" ∷ "§ 1" ∷ [])

abbrev lines : List String
lines = "# seeded" ∷ first_line ∷ "" ∷ second_line ∷ []

abbrev rows : Catalog
rows = ("xg", first_row ∷ second_row ∷ []) ∷ []

two_rows : load_tsv (λ p. some (lines, false)) "seeds" ≡ loaded rows
unfolding load_tsv trim_space has_prefix valid_slug contains key parse_linked_instruments parse_date
two_rows = refl

short_line : load_tsv (λ p. some ("XG\tchild" ∷ [], false)) "seeds" ≡ failed (want_fields 1)
unfolding load_tsv trim_space has_prefix
short_line = refl

uncited_line :
    load_tsv (λ p. some ("" ∷ "XG\tchild\txv_1\tnone" ∷ [], false)) "seeds" ≡ failed (no_citation 2)
unfolding load_tsv trim_space has_prefix valid_slug contains key parse_linked_instruments
uncited_line = refl

load_tsv-IsFit_example : IsFit first_row × (first_row.parent_law_id ≡ "xg")
load_tsv-IsFit_example =
    load_tsv-IsFit (λ p. some (lines, false)) "seeds" rows "xg" (first_row ∷ second_row ∷ [])
      first_row two_rows (Memᴰ.head refl) (Memᴰ.head refl)

load_tsv-dated_example : (second_row.effective_from ≢ "") × (second_row.section_hint ≢ "")
load_tsv-dated_example =
    load_tsv-dated (λ p. some (lines, false)) "seeds" rows "xg" first_row second_row [] second_row
      two_rows (Memᴰ.head refl) (Memᴰ.tail (Memᴰ.head refl))

abbrev path_of : String → Option String
path_of link = some "/xg/xml.zip"

toc_slug : slug_from_toc_link path_of "http://example.org/xg/xml.zip" ≡ some "xg"
unfolding slug_from_toc_link zip_slug trim_left_set trim_right_set split_on valid_slug trim_space
    equal_fold contains has_prefix
toc_slug = refl

slug_from_toc_link-IsValid_example : valid_slug "xg" ≡ true
slug_from_toc_link-IsValid_example =
    slug_from_toc_link-IsValid path_of "http://example.org/xg/xml.zip" "xg" toc_slug
