-- ===== src/Tests/Ingested.antt =====
-- The ingest of an ordinance on care insurance.
use gesetzeswache.Prelude.{
  ◌≡◌, refl, String, true, false, ◌==◌, none, [], ◌∷◌, Memᴰ, arith, if◌then◌else◌,
}
use gesetzeswache.Xml.{is_unsafe_xml, start, end_of, char_data, Decoded}
use gesetzeswache.Discovery.Parents.{ParentLookup}
use gesetzeswache.Discovery.Ingest.{
  ByParent, ingest_law_xml, guarded, Ingested, law_edges, parsed_stand, replace_edges,
}
use gesetzeswache.Discovery.Ingest.Edges.{IsConfirmed}
use gesetzeswache.Text.{atoi, itoa, contains, has_prefix}
use gesetzeswache.GiiUrl.{valid_slug}
use gesetzeswache.Citation.Instruments.{teil_from, re_linked_instrument}
use gesetzeswache.Store.Buckets.{present, get_json}
use gesetzeswache.Store.Entities.{Db}
use gesetzeswache.Store.Operations.{ingest_store}
use gesetzeswache.Store.Discovered.{discovered_key}
use gesetzeswache.Store.Rows.{edge_at}
use gesetzeswache.Store.Replaced.{IsHeld}
use gesetzeswache.Store.Ingested.{
  ingest, edges_of_law, ingest_law_xml-IsConfirmed, ingest_law_xml-IsHeld,
}
use gesetzeswache.Tests.Buckets.{bucket, bucket-BboltLaws}
use gesetzeswache.Tests.Stored.{pbav, pbav_edge, codecs, always, fresh, Bucket, edge-IsCodec}

abbrev decode : String → Decoded
decode xml = record {
  tokens =
      start "norm"
      ∷ start "fundstelle"
      ∷ start "periodikum"
      ∷ char_data "BGBl I"
      ∷ end_of "periodikum"
      ∷ start "zitstelle"
      ∷ char_data "2024, Nr. 446"
      ∷ end_of "zitstelle"
      ∷ end_of "fundstelle"
      ∷ start "text"
      ∷ char_data
          "Auf Grund des § 55 Absatz 3 des Elften Buches Sozialgesetzbuch verordnet die Bundesregierung:"
      ∷ end_of "text"
      ∷ end_of "norm"
      ∷ [];
  failed = false;
}

abbrev lookup : ParentLookup
lookup = record {
  by_jurabk = λ j. if j == "SGB XI" then "SGB 11" ∷ [] else [];
  by_title_phrase = λ p. [];
}

abbrev in_order : ByParent → ByParent
in_order m = m

abbrev ingested : Ingested × Db Bucket
ingested = ingest bucket codecs always decode lookup in_order pbav "<norm/>" fresh

made : edges_of_law decode lookup in_order pbav "<norm/>" ≡ pbav_edge ∷ []
unfolding law_edges parsed_stand atoi teil_from re_linked_instrument
made = refl

went_through : ingested.0.error ≡ none
unfolding ingest_law_xml guarded valid_slug contains has_prefix is_unsafe_xml parsed_stand atoi
    teil_from re_linked_instrument ingest_store itoa replace_edges law_edges
went_through = refl

one_link : ingested.0.links ≡ 1
unfolding ingest_law_xml guarded valid_slug contains has_prefix is_unsafe_xml parsed_stand atoi
    teil_from re_linked_instrument ingest_store itoa replace_edges law_edges
one_link = refl

stored :
    edge_at bucket bucket-BboltLaws codecs always ingested.1 "sgb11|pbav_2024" ≡ present pbav_edge
unfolding ingest_law_xml guarded valid_slug contains has_prefix is_unsafe_xml parsed_stand atoi
    teil_from re_linked_instrument ingest_store itoa replace_edges law_edges get_json
stored = refl

ingest_law_xml-IsConfirmed_example :
    Memᴰ pbav_edge (edges_of_law decode lookup in_order pbav "<norm/>")
    × IsConfirmed pbav true pbav_edge
ingest_law_xml-IsConfirmed_example =
    ingest_law_xml-IsConfirmed bucket bucket-BboltLaws codecs edge-IsCodec always decode lookup
      in_order pbav "<norm/>" fresh "sgb11|pbav_2024" pbav_edge went_through
      (omega (arith, one_link)) stored refl

ingest_law_xml-IsHeld_example :
    IsHeld bucket bucket-BboltLaws codecs edge-IsCodec always ingested.1
      (discovered_key pbav_edge.parent_law_id pbav_edge.gii_slug)
ingest_law_xml-IsHeld_example =
    ingest_law_xml-IsHeld bucket bucket-BboltLaws codecs edge-IsCodec always decode lookup in_order
      pbav "<norm/>" fresh pbav_edge went_through (rw made (Memᴰ.head refl))
