-- ===== src/Store/Ingested.antt =====
-- An ingest as a whole: internal/discovery/ingest.go over internal/store/discovery.go.
use gesetzeswache.Prelude.{
  ◌<◌, ◌≡◌, ◌≢◌, refl, subst, String, Bool, true, false, Option, none, some, List, [], Memᴰ, arith,
}
use gesetzeswache.GiiUrl.{valid_slug}
use gesetzeswache.Xml.{Decoded, is_unsafe_xml}
use gesetzeswache.Domain.{Law, DiscoveredEdge}
use gesetzeswache.Discovery.Parents.{ParentLookup}
use gesetzeswache.Discovery.Ingest.{
  ByParent, Ingested, replace_edges, ingest_law_xml, law_edges, parsed_stand, indexed, guarded,
  IngestStore,
}
use gesetzeswache.Discovery.Ingest.Edges.{IsConfirmed, law_edges-IsConfirmed}
use gesetzeswache.Store.Buckets.{Bbolt, BboltLaws, IsCodec, present}
use gesetzeswache.Store.Entities.{Db, Codecs}
use gesetzeswache.Store.Discovered.{discovered_key}
use gesetzeswache.Store.Operations.{ingest_store}
use gesetzeswache.Store.Rows.{edge_at}
use gesetzeswache.Store.Replaced.{replace_edges-edge_at, replace_edges-IsHeld, IsHeld}

some-ne_none : {A : Type 0} {a : A} → ◌≢◌ {A = Option A} (some a) none
some-ne_none h = cc h

-- An ingest without an error came as far as the edges.
guarded-ok :
    {S : Type 0} (st : IngestStore S) (valid unsafe : Bool) (slug : String)
    (edges : List DiscoveredEdge) (written : Bool × S) (s : S)
    → (guarded st valid unsafe slug edges written s).0.error ≡ none
    → (valid ≡ true)
      × (guarded st valid unsafe slug edges written s ≡ replace_edges st slug edges written.1)
unfolding guarded
guarded-ok st false unsafe slug edges (w, s₁) s ok = absurd (some-ne_none ok)
guarded-ok st true true slug edges (w, s₁) s ok = absurd (some-ne_none ok)
guarded-ok st true false slug edges (false, s₁) s ok = absurd (some-ne_none ok)
guarded-ok st true false slug edges (true, s₁) s ok = (refl, refl)

replace_edges-links :
    {S : Type 0} (st : IngestStore S) (slug : String) (s : S)
    → (replace_edges st slug [] s).0.links ≡ 0
unfolding replace_edges
replace_edges-links st slug s = refl

abbrev pub ingest :
    {B : Type 0} (bb : Bbolt B) (cs : Codecs) (commits : Db B → Bool) (decode : String → Decoded)
    (lookup : ParentLookup) (range : ByParent → ByParent) (law : Law) (xml : String)
    → Db B
    → Ingested × Db B
ingest bb cs commits = ingest_law_xml (ingest_store bb cs commits)

abbrev pub edges_of_law :
    (decode : String → Decoded) (lookup : ParentLookup) (range : ByParent → ByParent) (law : Law)
    (xml : String)
    → List DiscoveredEdge
edges_of_law decode lookup range law xml =
    law_edges decode lookup range law xml (parsed_stand decode law xml)

module _ {B : Type 0} (bb : Bbolt B) (laws : BboltLaws bb) (cs : Codecs) (codec : IsCodec cs.edge)
    (commits : Db B → Bool) (decode : String → Decoded) (lookup : ParentLookup)
    (range : ByParent → ByParent) (law : Law) (xml : String) where
  abbrev indexed_db : Db B → Db B
  indexed_db s = (indexed (ingest_store bb cs commits) law (parsed_stand decode law xml) s).1

  run-replaced :
      (s : Db B)
      → (ingest bb cs commits decode lookup range law xml s).0.error ≡ none
      → (valid_slug law.gii_path ≡ true)
        × (ingest bb cs commits decode lookup range law xml s
            ≡ replace_edges
                (ingest_store bb cs commits)
                law.gii_path
                (edges_of_law decode lookup range law xml)
                (indexed_db s))
  unfolding ingest_law_xml
  run-replaced s ok =
      guarded-ok (ingest_store bb cs commits) (valid_slug law.gii_path) (is_unsafe_xml xml)
        law.gii_path (edges_of_law decode lookup range law xml)
        (indexed (ingest_store bb cs commits) law (parsed_stand decode law xml) s) s ok

  -- After an ingest that went through and wrote links, each stored edge with the slug of the law is
  -- one that this ingest made: of high confidence, with a section, and behind a parsed Stand.
  pub ingest_law_xml-IsConfirmed :
      (s : Db B) (k : String) (e : DiscoveredEdge)
      → (ingest bb cs commits decode lookup range law xml s).0.error ≡ none
      → 0 < (ingest bb cs commits decode lookup range law xml s).0.links
      → edge_at bb laws cs commits (ingest bb cs commits decode lookup range law xml s).1 k
        ≡ present e
      → e.gii_slug ≡ law.gii_path
      → Memᴰ e (edges_of_law decode lookup range law xml) × IsConfirmed law true e
  ingest_law_xml-IsConfirmed s k e ok some_links held slug =
      let (valid, q) = run-replaced s ok in
      let links : 0 < (replaced s).0.links = subst (λ r. 0 < r.0.links) q some_links in
      let made : edges_of_law decode lookup range law xml ≢ [] = λ nothing.
        let none_made : (replaced s).0.links ≡ 0 =
          rw nothing
            (replace_edges-links (ingest_store bb cs commits) law.gii_path (indexed_db s)) in
        omega arith in
      let m =
        replace_edges-edge_at bb laws cs codec commits law.gii_path
          (edges_of_law decode lookup range law xml) (indexed_db s) k e valid made
          (subst (λ r. r.0.error ≡ none) q ok)
          (subst (λ r. edge_at bb laws cs commits r.1 k ≡ present e) q held) slug in
      let sound =
        law_edges-IsConfirmed decode lookup range law xml (parsed_stand decode law xml) e m in
      (m, subst (λ b. IsConfirmed law b e) sound.confirmed sound)
    where
      replaced : Db B → Ingested × Db B
      replaced s =
          replace_edges (ingest_store bb cs commits) law.gii_path
            (edges_of_law decode lookup range law xml) (indexed_db s)

  -- After an ingest that went through, each edge that it made has its key in the store.
  pub ingest_law_xml-IsHeld :
      (s : Db B) (e : DiscoveredEdge)
      → (ingest bb cs commits decode lookup range law xml s).0.error ≡ none
      → Memᴰ e (edges_of_law decode lookup range law xml)
      → IsHeld bb laws cs codec commits
          (ingest bb cs commits decode lookup range law xml s).1
          (discovered_key e.parent_law_id e.gii_slug)
  ingest_law_xml-IsHeld s e ok m =
      let (valid, q) = run-replaced s ok in
      rw q (
        replace_edges-IsHeld bb laws cs codec commits law.gii_path
          (edges_of_law decode lookup range law xml) (indexed_db s) e
          (subst (λ r. r.0.error ≡ none) q ok) m)
