-- ===== src/Service/Links.antt =====
-- internal/service/service.go: the store as the service reads it, and the instruments of a law.
use gesetzeswache.Prelude.{
  ℕ, String, Bool, true, false, not, ◌==◌, Option, none, some, List, [], ◌∷◌, ◌++◌, map, any,
  if◌then◌else◌,
}
use gesetzeswache.Text.{trim_space}
use gesetzeswache.Time.{Instant}
use gesetzeswache.Normalize.{key}
use gesetzeswache.Domain.{
  Law, LinkedInstrument, DiscoveredEdge, StandCitation, GazetteIssue, IssueLawLink, FreshnessRecord,
}
use gesetzeswache.Citation.Parse.{parse}
use gesetzeswache.Discovery.Merge.{edge_to_linked, merge, filter_discovered_by_family_prefixes}
use gesetzeswache.Instruments.Family.{FamilyCatalog, for_parent, expand_for_parent}
use gesetzeswache.Instruments.Ensure.{LawUpserter, ensure_law_from_slug}

-- The operations of the store over its states. Reads whose errors the service drops answer a value,
-- or none; the others also say whether they failed.
pub record StoreOps (S : Type 0) : Type 0 where
  pub laws : LawUpserter S
  pub list_laws : S → Option (List Law)
  pub get_stand : S → String → Option StandCitation
  pub upsert_stand : S → StandCitation → S
  pub get_issue : S → String → Option GazetteIssue
  pub get_meta : S → String → Option String
  pub get_meta_time : S → String → Instant
  -- the rows, and whether the read failed
  pub links_for_law : S → String → List IssueLawLink × Bool
  pub discovered_for_parent : S → String → Option (List DiscoveredEdge)
  pub lookup_bgbl_index : S → ℕ → ℕ → String → Option (String × String)
  pub put_freshness : S → FreshnessRecord → S

-- `Catalog`: the seeded rows of each parent, by its key.
abbrev pub Catalog : Type 0
Catalog = List (String × List LinkedInstrument)

abbrev seeded_rows : String → Catalog → List LinkedInstrument
seeded_rows k [] = []
seeded_rows k ((j, rows) ∷ more) = if j == k then rows else seeded_rows k more

unfoldable pub catalog_for_parent : Catalog → (law_id : String) → List LinkedInstrument
catalog_for_parent c law_id = seeded_rows (key law_id) c

-- The rows of a law and whether a read failed.
abbrev pub Linked : Type 0
Linked = List LinkedInstrument × Bool

abbrev pub without_families :
    Option FamilyCatalog
    → (law_id : String) → (expanded discovered : List LinkedInstrument) → List LinkedInstrument
without_families families law_id expanded discovered =
    filter_discovered_by_family_prefixes discovered
      (map (λ row. row.slug_prefix) (for_parent families law_id)) (map (λ li. li.gii_slug) expanded)

module _ {S : Type 0} (st : StoreOps S) where
  abbrev with_discovered :
      Option FamilyCatalog
      → (law_id : String) → (seeded expanded : List LinkedInstrument) → Option (List DiscoveredEdge)
      → Linked
  with_discovered families law_id seeded expanded none = (merge seeded [], true)
  with_discovered families law_id seeded expanded (some edges) =
      (merge seeded (without_families families law_id expanded (map edge_to_linked edges)), false)

  abbrev with_laws :
      Option FamilyCatalog
      → (law_id : String) → (seeded : List LinkedInstrument) → Option (List Law)
      → Option (List DiscoveredEdge)
      → Linked
  with_laws families law_id seeded none edges = (merge seeded [], true)
  with_laws families law_id seeded (some laws) edges =
      let expanded = expand_for_parent families law_id laws in
      with_discovered families law_id (seeded ++ expanded) expanded edges

  -- Without a families catalog the laws are not read.
  abbrev by_families :
      Option FamilyCatalog → (law_id : String) → (seeded : List LinkedInstrument) → S → Linked
  by_families none law_id seeded s =
      with_discovered none law_id seeded [] (st.discovered_for_parent s law_id)
  by_families (some families) law_id seeded s =
      with_laws (some families) law_id seeded (st.list_laws s) (st.discovered_for_parent s law_id)

  unfoldable pub linked_instruments_for :
      Catalog → Option FamilyCatalog → S → (law_id : String) → Linked
  unfolding merge filter_discovered_by_family_prefixes for_parent expand_for_parent edge_to_linked
      catalog_for_parent
  linked_instruments_for catalog families s law_id =
      by_families families law_id (catalog_for_parent catalog law_id) s

  -- `repairStandIfNeeded`
  unfoldable pub repair_stand_if_needed : S → (law_id : String) → StandCitation → StandCitation × S
  unfolding parse
  repair_stand_if_needed s law_id stand =
      let parsed = parse law_id stand.raw in
      if stand.parse_ok
      then (stand, s)
      else if trim_space stand.raw == ""
      then (stand, s)
      else if not parsed.parse_ok
      then (stand, s)
      else (parsed, st.upsert_stand s parsed)

  module _ (parse_base : String → Option (String → String)) (gii_base : String) where
    -- The loop over the rows; `ensured` are the slugs it has met.
    unfoldable pub ensure_stubs : (ensured : List String) → List LinkedInstrument → S → S
    unfolding ensure_law_from_slug
    ensure_stubs ensured [] s = s
    ensure_stubs ensured (li ∷ rows) s =
        let slug = trim_space li.gii_slug in
        let skipped = ensure_stubs ensured rows s in
        let made =
          ensure_stubs (slug ∷ ensured) rows
            ((ensure_law_from_slug st.laws parse_base gii_base s slug).1) in
        if slug == "" then skipped else if any (λ t. t == slug) ensured then skipped else made

    unfoldable pub ensure_linked_law_stubs : List LinkedInstrument → S → S
    unfolding ensure_stubs
    ensure_linked_law_stubs rows s = ensure_stubs [] rows s

    abbrev pointed : LinkedInstrument → Option (Law × Bool) → LinkedInstrument
    pointed li none = record li { resolve_ok = false }
    pointed li (some (law, neu)) = record li {
      law_id = law.id;
      gii_url = law.gii_url;
      resolve_ok = true;
    }

    unfoldable pub attach_linked_pointers : List LinkedInstrument → S → List LinkedInstrument × S
    unfolding ensure_law_from_slug
    attach_linked_pointers [] s = ([], s)
    attach_linked_pointers (li ∷ rows) s =
        let (law, s₁) = ensure_law_from_slug st.laws parse_base gii_base s li.gii_slug in
        let (more, s₂) = attach_linked_pointers rows s₁ in (pointed li law ∷ more, s₂)
