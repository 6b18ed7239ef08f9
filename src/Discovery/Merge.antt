-- ===== src/Discovery/Merge.antt =====
-- internal/discovery/merge.go and family_prefix.go: the seeded and the discovered instruments of a law.
pub mod Keys
pub mod Rows
pub mod Families
use Prim.Native.Char.{code}
use Prim.Native.String
use gesetzeswache.Prelude.{
  ℕ, String, Bool, true, false, not, ◌&&◌, ◌||◌, ◌==◌, List, [], ◌∷◌, ◌++◌, eqb, ltb, any, keep,
  map, if◌then◌else◌,
}
use gesetzeswache.Text.{has_prefix}
use gesetzeswache.Normalize.{key}
use gesetzeswache.Domain.{LinkedInstrument, DiscoveredEdge}

abbrev pub source_seeded : String
source_seeded = "seeded"

abbrev pub source_discovered : String
source_discovered = "discovered"

abbrev pub confidence_high : String
confidence_high = "high"

unfoldable pub edge_to_linked : DiscoveredEdge → LinkedInstrument
edge_to_linked e = record {
  parent_law_id = e.parent_law_id;
  kind = "verordnung";
  gii_slug = e.gii_slug;
  notes = e.notes;
  effective_from = e.effective_from;
  section_hint = e.section_hint;
  status = "";
  coverage = "";
  source = source_discovered;
  confidence = e.confidence;
  edge_type = e.edge_type;
  resolve_ok = false;
  gii_url = "";
  law_id = e.child_law_id;
}

infixl 65 ◌+++◌
abbrev ◌+++◌ : String → String → String
◌+++◌ = String.◌++◌

unfoldable pub link_key : (parent slug : String) → String
link_key parent slug = key parent +++ "|" +++ slug

abbrev pub key_of : LinkedInstrument → String
key_of li = link_key li.parent_law_id li.gii_slug

-- `byKey`, a map: its keys are distinct.
abbrev pub ByKey : Type 0
ByKey = List (String × LinkedInstrument)

unfoldable pub has_key : String → ByKey → Bool
has_key k entries = any (λ e. e.0 == k) entries

-- `byKey[k] = v`
unfoldable pub put : String → LinkedInstrument → ByKey → ByKey
put k v [] = (k, v) ∷ []
put k v ((j, w) ∷ entries) =
    let rest = put k v entries in if j == k then (k, v) ∷ entries else (j, w) ∷ rest

abbrev pub mark_seeded : LinkedInstrument → LinkedInstrument
mark_seeded li = record li { source = source_seeded }

abbrev pub mark_discovered : LinkedInstrument → LinkedInstrument
mark_discovered li = if li.source == "" then record li { source = source_discovered } else li

unfoldable pub add_seeded : List LinkedInstrument → ByKey → ByKey
unfolding put
add_seeded [] entries = entries
add_seeded (li ∷ more) entries = add_seeded more (put (key_of li) (mark_seeded li) entries)

-- One round of the loop over the discovered rows.
unfoldable pub add_one : LinkedInstrument → ByKey → ByKey
unfolding has_key put
add_one li entries =
    let added = put (key_of li) (mark_discovered li) entries in
    if not (li.confidence == confidence_high)
    then entries
    else if has_key (key_of li) entries
    then entries
    else added

unfoldable pub add_discovered : List LinkedInstrument → ByKey → ByKey
unfolding add_one
add_discovered [] entries = entries
add_discovered (li ∷ more) entries = add_discovered more (add_one li entries)

-- The order of `sort.Strings`: by bytes, which on UTF-8 is by code points.
unfoldable pub text_before : String → String → Bool
text_before s String.[] = false
text_before String.[] (String.◌∷◌ d t) = true
text_before (String.◌∷◌ c s) (String.◌∷◌ d t) =
    let rest = text_before s t in
    if ltb (code c) (code d) then true else eqb (code c) (code d) && rest

unfoldable pub insert_entry : String × LinkedInstrument → ByKey → ByKey
unfolding text_before
insert_entry e [] = e ∷ []
insert_entry e (x ∷ entries) =
    let rest = insert_entry e entries in if text_before x.0 e.0 then x ∷ rest else e ∷ x ∷ entries

unfoldable pub sort_entries : ByKey → ByKey
unfolding insert_entry
sort_entries [] = []
sort_entries (e ∷ entries) = insert_entry e (sort_entries entries)

unfoldable pub merge : (seeded discovered : List LinkedInstrument) → List LinkedInstrument
unfolding add_seeded add_discovered sort_entries
merge seeded discovered =
    map (λ e. e.1) (sort_entries (add_discovered discovered (add_seeded seeded [])))

unfoldable pub should_drop_discovered : String → (prefixes keep_slugs : List String) → Bool
should_drop_discovered slug [] keep_slugs = false
should_drop_discovered slug (prefix ∷ prefixes) keep_slugs =
    let rest = should_drop_discovered slug prefixes keep_slugs in
    if prefix == "" || not (has_prefix slug prefix)
    then rest
    else if any (λ k. k == slug) keep_slugs
    then false
    else true

unfoldable pub filter_discovered_by_family_prefixes :
    List LinkedInstrument → (prefixes keep_slugs : List String) → List LinkedInstrument
unfolding should_drop_discovered
filter_discovered_by_family_prefixes discovered prefixes keep_slugs =
    keep (λ li. not (should_drop_discovered li.gii_slug prefixes keep_slugs)) discovered
