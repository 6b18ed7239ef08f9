-- ===== src/Instruments/Family/Load.antt =====
-- internal/instruments/family.go: `LoadFamiliesTSV`, one tab-separated line for each family.
pub mod Safe
use gesetzeswache.Prelude.{
  ℕ, suc, String, Bool, true, not, ◌&&◌, ◌||◌, ◌==◌, Option, none, some, List, [], ◌∷◌, ◌++◌,
  if◌then◌else◌,
}
use Prim.Native.Char.{code}
use gesetzeswache.Text.{trim_space, has_prefix, split_on}
use gesetzeswache.Normalize.{key}
use gesetzeswache.GiiUrl.{is_slug_start}
use gesetzeswache.Citation.Instruments.{parse_linked_instruments}
use gesetzeswache.Instruments.Load.{no_refs}
use gesetzeswache.Instruments.Family.{FamilyRow, FamilyCatalog}

pub data FamilyError : Type 0 where
  want_columns empty_parent empty_prefix unsafe_prefix uncited : (line : ℕ) → FamilyError
  scan_error open_error : FamilyError

pub data Families : Type 0 where
  refused : FamilyError → Families
  families : FamilyCatalog → Families

pub data FamilyLine : Type 0 where
  bad : FamilyError → FamilyLine
  skipped : FamilyLine
  row : FamilyRow → FamilyLine

abbrev all_prefix_runes : String → Bool
all_prefix_runes String.[] = true
all_prefix_runes (String.◌∷◌ c s) = is_slug_start (code c) && all_prefix_runes s

-- `reSafePrefix`: `^[a-zA-Z0-9_]+$`
unfoldable pub re_safe_prefix : String → Bool
re_safe_prefix s = not (s == "") && all_prefix_runes s

-- The checks of a row, in their order.
unfoldable pub check_family : ℕ → FamilyRow → FamilyLine
check_family line_no r =
    let cites_none = no_refs (parse_linked_instruments r.notes) in
    if r.consumer_parent_id == ""
    then bad (empty_parent line_no)
    else if r.slug_prefix == ""
    then bad (empty_prefix line_no)
    else if not (re_safe_prefix r.slug_prefix)
    then bad (unsafe_prefix line_no)
    else if cites_none
    then bad (uncited line_no)
    else row r

abbrev pub family_row : (parent prefix hint notes : String) → FamilyRow
unfolding key trim_space
family_row parent prefix hint notes = record {
  consumer_parent_id = key (trim_space parent);
  slug_prefix = trim_space prefix;
  section_hint = trim_space hint;
  notes = trim_space notes;
}

abbrev pub family_parts : ℕ → List String → FamilyLine
unfolding key trim_space
family_parts line_no (parent ∷ prefix ∷ hint ∷ notes ∷ more) =
    check_family line_no (family_row parent prefix hint notes)
family_parts line_no _ = bad (want_columns line_no)

unfoldable pub family_line : ℕ → String → FamilyLine
unfolding key trim_space split_on has_prefix
family_line line_no text =
    let line = trim_space text in
    let parsed = family_parts line_no (split_on b'\t' line) in
    if line == "" || has_prefix line "#" then skipped else parsed

-- `c.byParent[p] = append(c.byParent[p], row)`
unfoldable pub append_family : FamilyRow → FamilyCatalog → FamilyCatalog
append_family r [] = (r.consumer_parent_id, r ∷ []) ∷ []
append_family r ((k, rows) ∷ more) =
    let rest = append_family r more in
    if k == r.consumer_parent_id then (k, rows ++ r ∷ []) ∷ more else (k, rows) ∷ rest

unfoldable pub load_families : ℕ → FamilyCatalog → List String → (scan_failed : Bool) → Families
unfolding family_line append_family
load_families line_no c [] scan_failed = if scan_failed then refused scan_error else families c
load_families line_no c (text ∷ lines) scan_failed = elim (family_line (suc line_no) text) [
  | bad e ↦ refused e
  | skipped ↦ load_families (suc line_no) c lines scan_failed
  | row r ↦ load_families (suc line_no) (append_family r c) lines scan_failed
]

abbrev pub from_opened : Option (List String × Bool) → Families
unfolding load_families
from_opened none = refused open_error
from_opened (some (lines, scan_failed)) = load_families 0 [] lines scan_failed

-- `LoadFamiliesTSV`, given what opening a path answers.
unfoldable pub load_families_tsv :
    (open_file : String → Option (List String × Bool)) (path : String) → Families
unfolding load_families
load_families_tsv open_file path =
    let read = from_opened (open_file path) in if path == "" then families [] else read
