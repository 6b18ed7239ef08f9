-- ===== src/Instruments/Family.antt =====
-- internal/instruments/family.go: ordinances that are issued anew each year, by their slug's prefix.
pub mod Latest
pub mod Load
use Prim.Native.Char.{code}
use Prim.Native.String
use gesetzeswache.Prelude.{
  ℕ, zero, suc, String, Bool, true, false, not, ◌&&◌, ◌||◌, ◌==◌, Option, none, some, List, [], ◌∷◌,
  map, keep, eqb, leb, if◌then◌else◌, ℤ, pos, negsuc,
}
use gesetzeswache.Text.{Atoi, atoi, trim_space, has_prefix, after_prefix}
use gesetzeswache.Regex.{
  Regex, seq, group, at_end, literal, digit, times, Match, find_from, group_of,
}
use gesetzeswache.Normalize.{key}
use gesetzeswache.GiiUrl.{size, valid_slug}
use gesetzeswache.Domain.{Law, LinkedInstrument}
use gesetzeswache.Instruments.Chain.{coverage_section}

pub record FamilyRow : Type 0 where
  pub consumer_parent_id : String
  pub slug_prefix : String
  pub section_hint : String
  pub notes : String

-- `FamilyCatalog`: the rows of each parent, by its key.
abbrev pub FamilyCatalog : Type 0
FamilyCatalog = List (String × List FamilyRow)

abbrev rows_of : String → FamilyCatalog → List FamilyRow
rows_of k [] = []
rows_of k ((j, rows) ∷ more) = if j == k then rows else rows_of k more

unfoldable pub for_parent : Option FamilyCatalog → (law_id : String) → List FamilyRow
for_parent none law_id = []
for_parent (some c) law_id = rows_of (key law_id) c

-- `reYearSuffix`: `_(\d{4})$`
abbrev re_year_suffix : Regex
re_year_suffix = seq (literal "_") (seq (group 1 (times 4 digit)) at_end)

-- `strconv.Atoi` and the check of the range: a year of four digits.
abbrev year_value : ℤ → Bool → Option ℕ
year_value (pos n) ok = if ok && leb 1000 n && leb n 9999 then some n else none
year_value (negsuc n) ok = none

abbrev year_of : Atoi → Option ℕ
year_of a = year_value a.value a.ok

abbrev suffix_year : Option Match → Option ℕ
suffix_year none = none
suffix_year (some m) = year_of (atoi (group_of 1 m.groups))

abbrev or_else : Option ℕ → Option ℕ → Option ℕ
or_else none o = o
or_else (some y) o = some y

-- The suffix is tested by runes: one of four bytes that parses has four runes.
unfoldable pub year_from_prefix_path : (path prefix : String) → Option ℕ
unfolding find_from
year_from_prefix_path path prefix =
    let suffix = after_prefix path prefix in
    let direct = year_of (atoi suffix) in
    let by_suffix = suffix_year (find_from re_year_suffix none path) in
    if not (has_prefix path prefix)
    then none
    else if eqb (size suffix) 4
    then or_else direct by_suffix
    else by_suffix

-- The year of a law whose trimmed path is not empty.
unfoldable pub law_year : (prefix : String) → Law → Option ℕ
unfolding year_from_prefix_path
law_year prefix law =
    let year = year_from_prefix_path (trim_space law.gii_path) prefix in
    if trim_space law.gii_path == "" then none else year

-- `bestYear` and, with `ok`, `slug`.
pub record Best : Type 0 where
  pub year : ℕ
  pub slug : Option String

unfoldable pub better : Best → String → Option ℕ → Best
better best path none = best
better best path (some y) = if leb y best.year then best else record { year = y; slug = some path }

unfoldable pub latest_loop : (prefix : String) → Best → List Law → Best
unfolding better law_year
latest_loop prefix best [] = best
latest_loop prefix best (law ∷ laws) =
    latest_loop prefix (better best (trim_space law.gii_path) (law_year prefix law)) laws

unfoldable pub latest_slug_by_prefix : List Law → (prefix : String) → Option String
unfolding latest_loop
latest_slug_by_prefix laws prefix =
    let best = latest_loop prefix (record { year = 0; slug = none }) laws in
    if prefix == "" then none else best.slug

abbrev expanded : (parent : String) → FamilyRow → (slug : String) → LinkedInstrument
expanded parent row slug = record {
  parent_law_id = key parent;
  kind = "verordnung";
  gii_slug = slug;
  notes = row.notes;
  effective_from = "";
  section_hint = row.section_hint;
  status = "";
  coverage = coverage_section;
  source = "";
  confidence = "";
  edge_type = "";
  resolve_ok = false;
  gii_url = "";
  law_id = "";
}

abbrev expand_row :
    (parent : String) → FamilyRow → Option String → List LinkedInstrument → List LinkedInstrument
expand_row parent row none rest = rest
expand_row parent row (some slug) rest =
    if not (valid_slug slug) then rest else expanded parent row slug ∷ rest

unfoldable pub expand_rows : (parent : String) → List Law → List FamilyRow → List LinkedInstrument
unfolding latest_slug_by_prefix
expand_rows parent laws [] = []
expand_rows parent laws (row ∷ rows) =
    expand_row parent row (latest_slug_by_prefix laws row.slug_prefix)
      (expand_rows parent laws rows)

unfoldable pub expand_for_parent :
    Option FamilyCatalog → (parent_law_id : String) → List Law → List LinkedInstrument
unfolding expand_rows for_parent
expand_for_parent c parent_law_id laws = expand_rows parent_law_id laws (for_parent c parent_law_id)
