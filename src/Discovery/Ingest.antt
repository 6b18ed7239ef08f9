-- ===== src/Discovery/Ingest.antt =====
-- internal/discovery/ingest.go: `IngestLawXML`, the edges from a law to the statutes it is based on.
pub mod Edges
use gesetzeswache.Prelude.{
  ℕ, suc, ◌+◌, String, Bool, true, false, not, ◌&&◌, ◌||◌, ◌==◌, eqb, Option, none, some, List, [],
  ◌∷◌, ◌++◌, any, if◌then◌else◌,
}
use gesetzeswache.Text.{trim_space, itoa}
use gesetzeswache.Text.Cut.{◌+++◌, join}
use gesetzeswache.GiiUrl.{valid_slug}
use gesetzeswache.Xml.{Decoded, is_unsafe_xml}
use gesetzeswache.Export.Stand.{extract_stand_raw}
use gesetzeswache.Domain.{Law, StandCitation, DiscoveredEdge}
use gesetzeswache.Citation.Parse.{parse}
use gesetzeswache.Discovery.Merge.{confidence_high}
use gesetzeswache.Discovery.Books.{Ermaechtigung, section_hint_of}
use gesetzeswache.Discovery.Parents.{
  ParentLookup, resolve_parent, resolve_parent_from_child_title, score_confidence,
}
use gesetzeswache.Discovery.Preamble.{parse_ermaechtigung}
use gesetzeswache.Discovery.Fussnoten.{extract_preamble_text}

pub record BgblIndexEntry : Type 0 where
  pub teil : ℕ
  pub year : ℕ
  pub number : String
  pub gii_slug : String
  pub law_id : String

-- `IngestStore` over the states of a store: each write says whether it went through.
pub record IngestStore (S : Type 0) : Type 0 where
  pub upsert_bgbl_index : S → BgblIndexEntry → Bool × S
  pub upsert_discovered_link : S → DiscoveredEdge → Bool × S
  pub delete_discovered_by_slug : S → String → Bool × S

-- `formatFundstelleNotes`
unfoldable pub format_fundstelle_notes : (teil year : ℕ) → (number : String) → String
unfolding itoa
format_fundstelle_notes teil year number =
    let part = if eqb teil 2 then "II" else "I" in
    if eqb teil 0 || eqb year 0 || number == ""
    then ""
    else "BGBl. " +++ itoa year +++ " " +++ part +++ " Nr. " +++ number

-- `FundstelleFromXML`; none stands for `ok` false.
abbrev fundstelle_of : StandCitation → Option (ℕ × ℕ × String)
fundstelle_of c = if c.parse_ok then some (c.teil, c.year, c.number) else none

unfoldable pub fundstelle_from_xml : (String → Decoded) → (xml : String) → Option (ℕ × ℕ × String)
unfolding extract_stand_raw parse
fundstelle_from_xml decode xml =
    let raw = extract_stand_raw decode xml in
    if raw == "" then none else fundstelle_of (parse "" raw)

-- `parentAgg`
pub record ParentAgg : Type 0 where
  pub hints : List String
  pub raw : String

-- `byParent`, in the order of its writes.
abbrev pub ByParent : Type 0
ByParent = List (String × ParentAgg)

unfoldable pub add_hint : (h : String) → ParentAgg → ParentAgg
add_hint h agg =
    if h == "" || any (λ t. t == h) agg.hints
    then agg
    else record agg { hints = agg.hints ++ h ∷ [] }

-- The entry of a parent, made on its first reference, with one hint more.
unfoldable pub add_reference : (parent : String) → Ermaechtigung → ByParent → ByParent
unfolding add_hint section_hint_of
add_reference parent e [] =
    (parent, add_hint (section_hint_of e) (record { hints = []; raw = e.raw })) ∷ []
add_reference parent e ((p, agg) ∷ more) =
    let rest = add_reference parent e more in
    if p == parent then (p, add_hint (section_hint_of e) agg) ∷ more else (p, agg) ∷ rest

abbrev is_explicit : Ermaechtigung → Bool
unfolding trim_space
is_explicit e = not (trim_space e.law_title_phrase == "") || not (trim_space e.jurabk == "")

-- A resolved parent; `("", true)` does not count.
abbrev not_empty : Option String → Option String
not_empty none = none
not_empty (some id) = if id == "" then none else some id

-- The parent of a reference: only one with no name of its own is led back to the title.
unfoldable pub parent_of : ParentLookup → (title : String) → Ermaechtigung → Option String
unfolding resolve_parent resolve_parent_from_child_title trim_space
parent_of lookup title e = elim (not_empty (resolve_parent lookup e)) [
  | some id ↦ some id
  | none ↦ if is_explicit e then none else not_empty (resolve_parent_from_child_title lookup title)
]

abbrev add_found : Option String → Ermaechtigung → ByParent → ByParent
unfolding add_reference
add_found none e m = m
add_found (some parent) e m = add_reference parent e m

unfoldable pub aggregate :
    ParentLookup → (title : String) → List Ermaechtigung → ByParent → ByParent
unfolding parent_of add_reference
aggregate lookup title [] m = m
aggregate lookup title (e ∷ refs) m =
    aggregate lookup title refs (add_found (parent_of lookup title e) e m)

abbrev add_hints : List Ermaechtigung → ParentAgg → ParentAgg
unfolding add_hint section_hint_of
add_hints [] agg = agg
add_hints (e ∷ refs) agg = add_hints refs (add_hint (section_hint_of e) agg)

abbrev only_parent : Option String → List Ermaechtigung → ByParent
unfolding add_hint section_hint_of
only_parent none refs = []
only_parent (some parent) refs = (parent, add_hints refs (record { hints = []; raw = "" })) ∷ []

-- The parents of a law; where no reference has one and none names any, the title's.
abbrev or_title : ParentLookup → (title : String) → List Ermaechtigung → ByParent → ByParent
unfolding resolve_parent_from_child_title add_hint section_hint_of trim_space
or_title lookup title refs (entry ∷ more) = entry ∷ more
or_title lookup title refs [] =
    if any is_explicit refs
    then []
    else only_parent (not_empty (resolve_parent_from_child_title lookup title)) refs

unfoldable pub parents_of : ParentLookup → (title : String) → List Ermaechtigung → ByParent
unfolding aggregate resolve_parent_from_child_title add_hint section_hint_of trim_space
parents_of lookup title refs = or_title lookup title refs (aggregate lookup title refs [])

abbrev pub edge_of :
    Law → (notes section_hint confidence : String) → String × ParentAgg → DiscoveredEdge
edge_of law notes section_hint confidence (parent, agg) = record {
  parent_law_id = parent;
  gii_slug = law.gii_path;
  section_hint = section_hint;
  notes = if notes == "" then agg.raw else notes;
  edge_type = "ermaechtigung";
  confidence = confidence;
  effective_from = "";
  child_law_id = law.id;
}

-- The loop that makes the edges; only high confidence is kept.
unfoldable pub edges_of :
    Law → (fundstelle_ok : Bool) → (fund_notes : String) → ByParent → List DiscoveredEdge
unfolding score_confidence join
edges_of law ok notes [] = []
edges_of law ok notes (entry ∷ more) =
    let hint = join entry.1.hints "; " in
    let confidence = score_confidence true hint ok false in
    let rest = edges_of law ok notes more in
    if not (confidence == confidence_high)
    then rest
    else edge_of law notes hint confidence entry ∷ rest

pub data IngestError : Type 0 where
  invalid_gii_slug unsafe_xml store_failed : IngestError

-- The number of links that were written, and the error.
pub record Ingested : Type 0 where
  pub links : ℕ
  pub error : Option IngestError

abbrev pub failed : (links : ℕ) → IngestError → Ingested
failed n e = record { links = n; error = some e }

abbrev pub is_some : Option StandCitation → Bool
is_some none = false
is_some (some c) = true

abbrev pub fund_notes : Option StandCitation → String
unfolding format_fundstelle_notes
fund_notes none = ""
fund_notes (some c) = format_fundstelle_notes c.teil c.year c.number

-- The parents of a law by the references of its preamble.
unfoldable pub law_parents :
    (decode : String → Decoded) (lookup : ParentLookup) (law : Law) (xml : String) → ByParent
unfolding parents_of parse_ermaechtigung extract_preamble_text
law_parents decode lookup law xml =
    parents_of lookup law.title (parse_ermaechtigung (extract_preamble_text decode xml))

-- The edges of a law; `range` is the order in which Go ranges over the map.
unfoldable pub law_edges :
    (decode : String → Decoded) (lookup : ParentLookup) (range : ByParent → ByParent) (law : Law)
    (xml : String)
    → (found : Option StandCitation) → List DiscoveredEdge
unfolding edges_of law_parents format_fundstelle_notes
law_edges decode lookup range law xml found =
    edges_of law (is_some found) (fund_notes found) (range (law_parents decode lookup law xml))

-- The parsed Stand of the law, if there is one.
unfoldable pub parsed_stand :
    (decode : String → Decoded) → Law → (xml : String) → Option StandCitation
unfolding extract_stand_raw parse
parsed_stand decode law xml =
    let raw = extract_stand_raw decode xml in
    let c = parse law.id raw in if raw == "" then none else if c.parse_ok then some c else none

module _ {S : Type 0} (st : IngestStore S) where
  -- The loop over the edges.
  unfoldable pub persist : (links : ℕ) → List DiscoveredEdge → S → Ingested × S
  persist n [] s = (record { links = n; error = none }, s)
  persist n (edge ∷ edges) s =
      let (written, s') = st.upsert_discovered_link s edge in
      let rest = persist (suc n) edges s' in if written then rest else (failed n store_failed, s')

  -- Old edges go only where new ones come.
  unfoldable pub replace_edges : (slug : String) → List DiscoveredEdge → S → Ingested × S
  unfolding persist
  replace_edges slug [] s = (record { links = 0; error = none }, s)
  replace_edges slug (edge ∷ edges) s =
      let (deleted, s') = st.delete_discovered_by_slug s slug in
      let rest = persist 0 (edge ∷ edges) s' in
      if deleted then rest else (failed 0 store_failed, s')

  abbrev pub indexed : Law → Option StandCitation → S → Bool × S
  indexed law none s = (true, s)
  indexed law (some c) s = st.upsert_bgbl_index s (record {
    teil = c.teil;
    year = c.year;
    number = c.number;
    gii_slug = law.gii_path;
    law_id = law.id;
  })

  -- The guards, and what comes behind the write of the index.
  unfoldable pub guarded :
      (valid unsafe : Bool) (slug : String) (edges : List DiscoveredEdge) (written : Bool × S)
      (s : S)
      → Ingested × S
  guarded valid unsafe slug edges (written, s₁) s =
      let replaced = replace_edges slug edges s₁ in
      if not valid
      then (failed 0 invalid_gii_slug, s)
      else if unsafe
      then (failed 0 unsafe_xml, s)
      else if not written
      then (failed 0 store_failed, s₁)
      else replaced

  -- `IngestLawXML`
  unfoldable pub ingest_law_xml :
      (decode : String → Decoded) (lookup : ParentLookup) (range : ByParent → ByParent) (law : Law)
      (xml : String) (s : S)
      → Ingested × S
  ingest_law_xml decode lookup range law xml s =
      let found = parsed_stand decode law xml in
      guarded (valid_slug law.gii_path) (is_unsafe_xml xml) law.gii_path
        (law_edges decode lookup range law xml found) (indexed law found s) s
