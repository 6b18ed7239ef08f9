-- ===== src/Export/Chunks.antt =====
-- internal/export/index_chunk.go: the flat chunks of an index, their filter and their ids.
pub mod Assigned
use gesetzeswache.Prelude.{
  ℕ, zero, suc, String, Bool, true, false, not, ◌&&◌, ◌||◌, ◌==◌, Option, none, some, List, [], ◌∷◌,
  length, any, keep, if◌then◌else◌,
}
use gesetzeswache.Text.{trim_space, split_on, itoa, equal_fold}
use gesetzeswache.Text.Cut.{◌+++◌, join}
use gesetzeswache.Export.Stand.{words}

-- `Chunk` of internal/export/export.go, in the fields that an index takes.
pub record Chunk : Type 0 where
  pub unit_id : String
  pub law_id : String
  pub section_ref : String
  pub section_title : String
  pub text : String

pub record IndexChunk : Type 0 where
  pub chunk_id : String
  pub text : String
  pub law_id : String
  pub law_name : String
  pub instrument_kind : String
  pub section_ref : String
  pub section_name : String
  pub parent_law_id : String
  pub parent_section_hint : String

abbrev trimmed_parts : List String → List String
unfolding trim_space
trimmed_parts [] = []
trimmed_parts (p ∷ parts) =
    let rest = trimmed_parts parts in if trim_space p == "" then rest else trim_space p ∷ rest

-- `ParseSectionRefs`; nil and an empty list are one here, since every use asks for the length.
unfoldable pub parse_section_refs : String → List String
unfolding trim_space split_on
parse_section_refs raw =
    if trim_space raw == "" then [] else trimmed_parts (split_on b',' (trim_space raw))

-- `sectionRefKey`
unfoldable pub section_ref_key : String → String
unfolding trim_space join
section_ref_key s = join (words false (trim_space s)) ""

abbrev section_keys : List String → List String
unfolding section_ref_key
section_keys [] = []
section_keys (r ∷ refs) =
    let rest = section_keys refs in
    if section_ref_key r == "" then rest else section_ref_key r ∷ rest

abbrev has_key : (keys : List String) → String → Bool
has_key keys k = any (λ t. t == k) keys

abbrev matches_keys : IndexChunk → List String → Bool
unfolding section_ref_key
matches_keys c [] = true
matches_keys c (k ∷ keys) =
    has_key (k ∷ keys) (section_ref_key c.section_ref)
    || not (c.parent_section_hint == "")
      && has_key (k ∷ keys) (section_ref_key c.parent_section_hint)

-- `MatchSectionFilter`
unfoldable pub match_section_filter : IndexChunk → List String → Bool
unfolding section_ref_key
match_section_filter c refs = matches_keys c (section_keys refs)

-- `FilterIndexChunks`
unfoldable pub filter_index_chunks : List IndexChunk → List String → List IndexChunk
unfolding match_section_filter
filter_index_chunks chunks [] = chunks
filter_index_chunks chunks (r ∷ refs) = keep (λ c. match_section_filter c (r ∷ refs)) chunks

-- The loop over the suffixes; none where the fuel is not enough.
unfoldable pub free_id : (fuel n : ℕ) → (base : String) → (used : List String) → Option String
unfolding itoa
free_id zero n base used = none
free_id (suc fuel) n base used =
    let cand = base +++ "-" +++ itoa n in
    let next = free_id fuel (suc n) base used in
    if any (λ t. t == cand) used then next else some cand

-- The id of a chunk among those in use. One round more than there are ids finds a free one.
unfoldable pub assigned_id : (id : String) → (used : List String) → Option String
unfolding free_id
assigned_id id used =
    let suffixed = free_id (suc (length used)) 2 id used in
    if any (λ t. t == id) used then suffixed else some id

abbrev pub put_id : IndexChunk → String → Option (List IndexChunk) → Option (List IndexChunk)
put_id c id none = none
put_id c id (some chunks) = some (record c { chunk_id = id } ∷ chunks)

unfoldable pub dedupe_ids : (used : List String) → List IndexChunk → Option (List IndexChunk)
unfolding assigned_id
dedupe_ids used [] = some []
dedupe_ids used (c ∷ chunks) = elim (assigned_id c.chunk_id used) [
  | none ↦ none
  | some id ↦ put_id c id (dedupe_ids (id ∷ used) chunks)
]

-- `DedupeChunkIDs`
unfoldable pub dedupe_chunk_ids : List IndexChunk → Option (List IndexChunk)
unfolding dedupe_ids
dedupe_chunk_ids chunks = dedupe_ids [] chunks

-- `isIndexFormularyRef`
unfoldable pub is_index_formulary_ref : String → Bool
unfolding trim_space equal_fold
is_index_formulary_ref section_ref =
    any (λ label. equal_fold (trim_space section_ref) label)
      ("Eingangsformel" ∷ "Schlussformel" ∷ "Schlußformel" ∷ "Unterschrift" ∷ "Ausfertigungsvermerk"
        ∷ [])

-- `IsIndexableExportChunk`
unfoldable pub is_indexable_export_chunk : Chunk → Bool
unfolding is_index_formulary_ref
is_indexable_export_chunk c = not (is_index_formulary_ref c.section_ref)

-- `IndexChunkFromExport`
unfoldable pub index_chunk_from_export :
    Chunk → (law_name instrument_kind parent_law_id parent_section_hint : String) → IndexChunk
index_chunk_from_export c law_name instrument_kind parent_law_id parent_section_hint = record {
  chunk_id = c.unit_id;
  text = c.text;
  law_id = c.law_id;
  law_name = law_name;
  instrument_kind = instrument_kind;
  section_ref = c.section_ref;
  section_name = c.section_title;
  parent_law_id = parent_law_id;
  parent_section_hint = parent_section_hint;
}
