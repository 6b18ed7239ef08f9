-- ===== src/Instruments/Load.antt =====
-- internal/instruments/load.go: the seeded instruments, one tab-separated line each.
pub mod Fit
pub mod Rows
use gesetzeswache.Prelude.{
  ℕ, zero, suc, String, Bool, true, false, not, ◌&&◌, ◌||◌, ◌==◌, Option, none, some, List, [], ◌∷◌,
  ◌++◌, any, if◌then◌else◌,
}
use gesetzeswache.Text.{trim_space, has_prefix, split_on}
use gesetzeswache.Normalize.{key}
use gesetzeswache.GiiUrl.{valid_slug}
use gesetzeswache.Domain.{InstrumentRef, LinkedInstrument}
use gesetzeswache.Citation.Instruments.{parse_linked_instruments}
use gesetzeswache.Instruments.Chain.{coverage_section, parse_date}

-- The errors of a line, and the one of a parent with several rows.
pub data LoadError : Type 0 where
  want_fields invalid_slug invalid_effective_from no_citation : (line : ℕ) → LoadError
  multi_row : LoadError
  scan_error : LoadError
  open_error : LoadError

-- `Catalog`: the rows of each parent, by its key.
abbrev pub Catalog : Type 0
Catalog = List (String × List LinkedInstrument)

pub data Loaded : Type 0 where
  failed : LoadError → Loaded
  loaded : Catalog → Loaded

-- What one line gives: an error, nothing, or a row.
pub data Line : Type 0 where
  bad : LoadError → Line
  skipped : Line
  row : LinkedInstrument → Line

-- `parts[3]` to `parts[5]`, trimmed, each "" if it is missing.
abbrev field_at : ℕ → List String → String
field_at n [] = ""
field_at zero (part ∷ parts) = trim_space part
field_at (suc n) (part ∷ parts) = field_at n parts

abbrev pub seeded_row : (parent kind slug : String) → (more : List String) → LinkedInstrument
seeded_row parent kind slug more = record {
  parent_law_id = key (trim_space parent);
  kind = trim_space kind;
  gii_slug = trim_space slug;
  notes = field_at 0 more;
  effective_from = field_at 1 more;
  section_hint = field_at 2 more;
  status = "";
  coverage = coverage_section;
  source = "";
  confidence = "";
  edge_type = "";
  resolve_ok = false;
  gii_url = "";
  law_id = "";
}

abbrev is_none : {A : Type 0} → Option A → Bool
is_none none = true
is_none (some a) = false

abbrev pub no_refs : List InstrumentRef → Bool
no_refs [] = true
no_refs (ref ∷ refs) = false

-- The checks of a row, in their order.
unfoldable pub check_row : ℕ → LinkedInstrument → Line
check_row line_no li =
    let no_date = is_none (parse_date li.effective_from) in
    let uncited = no_refs (parse_linked_instruments li.notes) in
    if not (valid_slug li.gii_slug)
    then bad (invalid_slug line_no)
    else if not (li.effective_from == "") && no_date
    then bad (invalid_effective_from line_no)
    else if li.parent_law_id == "" || li.gii_slug == ""
    then skipped
    else if uncited
    then bad (no_citation line_no)
    else row li

abbrev parse_parts : ℕ → List String → Line
parse_parts line_no (parent ∷ kind ∷ slug ∷ more) =
    check_row line_no (seeded_row parent kind slug more)
parse_parts line_no _ = bad (want_fields line_no)

unfoldable pub parse_line : ℕ → String → Line
unfolding check_row split_on
parse_line line_no text =
    let line = trim_space text in
    let parsed = parse_parts line_no (split_on b'\t' line) in
    if line == "" || has_prefix line "#" then skipped else parsed

-- `c.byParent[p] = append(c.byParent[p], li)`
unfoldable pub append_row : LinkedInstrument → Catalog → Catalog
append_row li [] = (li.parent_law_id, li ∷ []) ∷ []
append_row li ((k, rows) ∷ more) =
    let rest = append_row li more in
    if k == li.parent_law_id then (k, rows ++ li ∷ []) ∷ more else (k, rows) ∷ rest

-- The check of the parents with several rows; Go's map order decides only which one is named.
abbrev pub lacks_dates : List LinkedInstrument → Bool
lacks_dates [] = false
lacks_dates (li ∷ []) = false
lacks_dates rows = any (λ li. li.effective_from == "" || li.section_hint == "") rows

unfoldable pub finish : (scan_failed : Bool) → Catalog → Loaded
finish scan_failed c =
    if scan_failed
    then failed scan_error
    else if any (λ e. lacks_dates e.1) c
    then failed multi_row
    else loaded c

unfoldable pub load_lines : ℕ → Catalog → List String → (scan_failed : Bool) → Loaded
unfolding parse_line append_row finish
load_lines line_no c [] scan_failed = finish scan_failed c
load_lines line_no c (text ∷ lines) scan_failed = elim (parse_line (suc line_no) text) [
  | bad e ↦ failed e
  | skipped ↦ load_lines (suc line_no) c lines scan_failed
  | row li ↦ load_lines (suc line_no) (append_row li c) lines scan_failed
]

-- A file that was opened or not: its lines, and whether the scanner then failed.
unfoldable pub load_opened : Option (List String × Bool) → Loaded
unfolding load_lines
load_opened none = failed open_error
load_opened (some (lines, scan_failed)) = load_lines 0 [] lines scan_failed

-- `LoadTSV`, given what opening a path answers.
unfoldable pub load_tsv :
    (open_file : String → Option (List String × Bool)) (path : String) → Loaded
unfolding load_opened
load_tsv open_file path =
    let read = load_opened (open_file path) in if path == "" then loaded [] else read
