-- ===== src/Tests/Stored.antt =====
-- A store with one law and one edge: an ordinance on care insurance, under the Social Code.
use gesetzeswache.Prelude.{
  ◌≡◌, ◌≢◌, ◌↔◌, ◌⊎◌, refl, String, Bool, true, false, ◌&&◌, ◌==◌, eq_iff, none, some, List, [],
  ◌∷◌, Memᴰ, arith,
}
use gesetzeswache.Text.{trim_space}
use gesetzeswache.Normalize.{key}
use gesetzeswache.Domain.{Law, DiscoveredEdge}
use gesetzeswache.Store.Buckets.{IsCodec, present}
use gesetzeswache.Store.Entities.{Db, Codecs, opened}
use gesetzeswache.Store.Discovered.{
  upsert_discovered_link, delete_discovered_by_slug, discovered_for_parent,
}
use gesetzeswache.Store.Rows.{edge_at, discovered_for_parent-mem_iff}
use gesetzeswache.Store.Deleted.{unless_slug, delete_discovered_by_slug-edge_at}
use gesetzeswache.Store.Maps.{add_law, set_laws, AreCodecs, apply_all, view, run_all, run_all-view}
use gesetzeswache.Tests.Buckets.{
  bucket, bucket-BboltLaws, only, only-IsCodec, nothing, nothing-IsCodec,
}

abbrev pub pbav : Law
pbav = record {
  id = "pbav2024";
  abbreviation = "PBAV";
  title = "Pflege-Beitragsanpassungsverordnung";
  gii_path = "pbav_2024";
  gii_url = "";
}

abbrev pub pbav_edge : DiscoveredEdge
pbav_edge = record {
  parent_law_id = "sgb11";
  gii_slug = "pbav_2024";
  section_hint = "§ 55";
  notes = "BGBl. 2024 I Nr. 446";
  edge_type = "ermaechtigung";
  confidence = "high";
  effective_from = "";
  child_law_id = "pbav2024";
}

abbrev is_pbav : Law → Bool
is_pbav l =
    "pbav2024" == l.id
    && ("PBAV" == l.abbreviation
        && ("Pflege-Beitragsanpassungsverordnung" == l.title
            && ("pbav_2024" == l.gii_path && "" == l.gii_url)))

abbrev is_pbav_edge : DiscoveredEdge → Bool
is_pbav_edge e =
    "sgb11" == e.parent_law_id
    && ("pbav_2024" == e.gii_slug
        && ("§ 55" == e.section_hint
            && ("BGBl. 2024 I Nr. 446" == e.notes
                && ("ermaechtigung" == e.edge_type
                    && ("high" == e.confidence
                        && ("" == e.effective_from && "pbav2024" == e.child_law_id))))))

both : (a b : Bool) → (a && b) ≡ true → (a ≡ true) × (b ≡ true)
both a b h = ground arith

same_law : (l : Law) → is_pbav l ≡ true → pbav ≡ l
same_law l h =
    let (a, h₁) = both _ _ h in
    let (b, h₂) = both _ _ h₁ in
    let (c, h₃) = both _ _ h₂ in
    let (d, e) = both _ _ h₃ in
    cc (
      (eq_iff _ l.id).0 a,
      (eq_iff _ l.abbreviation).0 b,
      (eq_iff _ l.title).0 c,
      (eq_iff _ l.gii_path).0 d,
      (eq_iff _ l.gii_url).0 e,
    )

same_edge : (x : DiscoveredEdge) → is_pbav_edge x ≡ true → pbav_edge ≡ x
same_edge x h =
    let (a, h₁) = both _ _ h in
    let (b, h₂) = both _ _ h₁ in
    let (c, h₃) = both _ _ h₂ in
    let (d, h₄) = both _ _ h₃ in
    let (e, h₅) = both _ _ h₄ in
    let (f, h₆) = both _ _ h₅ in
    let (g, i) = both _ _ h₆ in
    cc (
      (eq_iff _ x.parent_law_id).0 a,
      (eq_iff _ x.gii_slug).0 b,
      (eq_iff _ x.section_hint).0 c,
      (eq_iff _ x.notes).0 d,
      (eq_iff _ x.edge_type).0 e,
      (eq_iff _ x.confidence).0 f,
      (eq_iff _ x.effective_from).0 g,
      (eq_iff _ x.child_law_id).0 i,
    )

abbrev pub codecs : Codecs
codecs = record {
  law = only is_pbav pbav;
  variant = nothing;
  stand = nothing;
  issue = nothing;
  link = nothing;
  freshness = nothing;
  attempt = nothing;
  bgbl = record { encode = λ e. some ""; decode = λ text. none };
  edge = only is_pbav_edge pbav_edge;
  time = nothing;
}

codecs-AreCodecs : AreCodecs codecs
codecs-AreCodecs = record {
  law = only-IsCodec is_pbav pbav same_law;
  stand = nothing-IsCodec;
  issue = nothing-IsCodec;
  freshness = nothing-IsCodec;
}

abbrev pub Bucket : Type 0
Bucket = List (String × String)

abbrev pub always : Db Bucket → Bool
always s = true

abbrev pub fresh : Db Bucket
fresh = record {
  laws = [];
  variants = [];
  stand = [];
  issues = [];
  links = [];
  freshness = [];
  sync_meta = [];
  sync_log = [];
  bgbl_index = some [];
  discovered_links = some [];
}

fresh-opened : opened bucket ≡ fresh
unfolding opened
fresh-opened = refl

abbrev with_edge : Db Bucket
unfolding upsert_discovered_link
with_edge = (upsert_discovered_link bucket codecs always fresh pbav_edge).1

run_all-view_example :
    view bucket codecs always
      (run_all bucket codecs always (add_law pbav ∷ set_laws (pbav ∷ []) ∷ []) fresh).1
    ≡ apply_all
        (run_all bucket codecs always (add_law pbav ∷ set_laws (pbav ∷ []) ∷ []) fresh).0
        (view bucket codecs always fresh)
run_all-view_example =
    run_all-view bucket bucket-BboltLaws codecs codecs-AreCodecs always
      (add_law pbav ∷ set_laws (pbav ∷ []) ∷ []) fresh

both_done :
    (run_all bucket codecs always (add_law pbav ∷ set_laws (pbav ∷ []) ∷ []) fresh).0
    ≡ add_law pbav ∷ set_laws (pbav ∷ []) ∷ []
unfolding run_all
both_done = refl

parent_read : (discovered_for_parent bucket codecs always with_edge "SGB 11").1 ≡ false
unfolding discovered_for_parent upsert_discovered_link key
parent_read = refl

discovered_for_parent-mem_example :
    Memᴰ pbav_edge (discovered_for_parent bucket codecs always with_edge "SGB 11").0 ↔ (
      (k : String) × (edge_at bucket bucket-BboltLaws codecs always with_edge k ≡ present pbav_edge)
      × (key pbav_edge.parent_law_id ≡ key "SGB 11"))
discovered_for_parent-mem_example =
    discovered_for_parent-mem_iff bucket bucket-BboltLaws codecs always with_edge "SGB 11" pbav_edge
      parent_read

slug_deleted :
    delete_discovered_by_slug bucket codecs always with_edge " pbav_2024 "
    ≡ (true, (delete_discovered_by_slug bucket codecs always with_edge " pbav_2024 ").1)
unfolding delete_discovered_by_slug upsert_discovered_link
slug_deleted = refl

delete_discovered_by_slug-edge_example :
    ((trim_space " pbav_2024 " ≡ "")
      × ((delete_discovered_by_slug bucket codecs always with_edge " pbav_2024 ").1 ≡ with_edge))
    ⊎ ((trim_space " pbav_2024 " ≢ "")
        × (edge_at bucket bucket-BboltLaws codecs always
              (delete_discovered_by_slug bucket codecs always with_edge " pbav_2024 ").1
              "sgb11|pbav_2024"
            ≡ unless_slug
                (trim_space " pbav_2024 ")
                (edge_at bucket bucket-BboltLaws codecs always with_edge "sgb11|pbav_2024")))
delete_discovered_by_slug-edge_example =
    delete_discovered_by_slug-edge_at bucket bucket-BboltLaws codecs always with_edge
      (delete_discovered_by_slug bucket codecs always with_edge " pbav_2024 ").1 " pbav_2024 "
      "sgb11|pbav_2024" slug_deleted

pub edge-IsCodec : IsCodec codecs.edge
edge-IsCodec = only-IsCodec is_pbav_edge pbav_edge same_edge
