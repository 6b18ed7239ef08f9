-- ===== src/Store/Discovered.antt =====
-- internal/store/discovery.go: the index of gazette citations and the discovered edges.
use gesetzeswache.Prelude.{
  ℕ, String, Bool, true, ◌==◌, Option, none, some, List, [], ◌∷◌, length, if◌then◌else◌,
}
use gesetzeswache.Text.{trim_space}
use gesetzeswache.Text.Cut.{◌+++◌}
use gesetzeswache.Citation.{issue_id}
use gesetzeswache.Normalize.{key}
use gesetzeswache.Domain.{DiscoveredEdge}
use gesetzeswache.Discovery.Ingest.{BgblIndexEntry}
use gesetzeswache.Store.Buckets.{Bbolt, Codec, Got, absent, put_json, get_json, rows_where, update}
use gesetzeswache.Store.Entities.{Db, Codecs, with_bucket}

-- `bgblIndexKey` and `discoveredKey`
unfoldable pub bgbl_index_key : (teil year : ℕ) → (number : String) → String
unfolding issue_id
bgbl_index_key teil year number = issue_id teil year number

unfoldable pub discovered_key : (parent slug : String) → String
unfolding key
discovered_key parent slug = key parent +++ "|" +++ slug

module _ {B : Type 0} (bb : Bbolt B) (cs : Codecs) (commits : Db B → Bool) where
  abbrev pub or_new : Option B → B
  or_new none = bb.new
  or_new (some b) = b

  -- `ensureDiscoveryBuckets`
  unfoldable pub ensure_discovery_buckets : Db B → Db B
  ensure_discovery_buckets s = record s {
    bgbl_index = some (or_new s.bgbl_index);
    discovered_links = some (or_new s.discovered_links);
  }

  unfoldable pub upsert_bgbl_index : Db B → BgblIndexEntry → Bool × Db B
  unfolding put_json update ensure_discovery_buckets bgbl_index_key
  upsert_bgbl_index s e =
      let into = λ (b : B). record (ensure_discovery_buckets s) { bgbl_index = some b } in
      update commits
        (with_bucket into
          (put_json bb cs.bgbl (or_new s.bgbl_index) (bgbl_index_key e.teil e.year e.number) e))
        s

  abbrev pub get_in : {T : Type 0} → Codec T → Option B → (key : String) → Got T
  unfolding get_json
  get_in c none k = absent
  get_in c (some b) k = get_json bb c b k

  unfoldable pub lookup_bgbl_index : Db B → (teil year : ℕ) → (number : String) → Got BgblIndexEntry
  unfolding get_json bgbl_index_key
  lookup_bgbl_index s teil year number =
      get_in cs.bgbl s.bgbl_index (bgbl_index_key teil year number)

  unfoldable pub upsert_discovered_link : Db B → DiscoveredEdge → Bool × Db B
  unfolding put_json update ensure_discovery_buckets discovered_key
  upsert_discovered_link s e =
      let into = λ (b : B). record (ensure_discovery_buckets s) { discovered_links = some b } in
      update commits
        (with_bucket into (
          put_json bb cs.edge (or_new s.discovered_links)
            (discovered_key e.parent_law_id e.gii_slug) e))
        s

  -- The keys of the edges with a slug; none if an edge cannot be read.
  abbrev pub key_then :
      (slug k : String) → Option DiscoveredEdge → Option (List String) → Option (List String)
  key_then slug k none rest = none
  key_then slug k (some e) none = none
  key_then slug k (some e) (some ks) = some (if e.gii_slug == slug then k ∷ ks else ks)

  unfoldable pub keys_of_slug : (slug : String) → List (String × String) → Option (List String)
  keys_of_slug slug [] = some []
  keys_of_slug slug ((k, text) ∷ more) =
      key_then slug k (cs.edge.decode text) (keys_of_slug slug more)

  unfoldable pub delete_keys : List String → Option B → Option B
  delete_keys ks none = none
  delete_keys [] (some b) = some b
  delete_keys (k ∷ ks) (some b) = delete_keys ks (bb.delete b k)

  abbrev pub delete_found : Option (List String) → B → Option B
  unfolding delete_keys
  delete_found none b = none
  delete_found (some ks) b = delete_keys ks (some b)

  unfoldable pub delete_slug : (slug : String) → Option B → Db B → Bool × Db B
  unfolding keys_of_slug delete_keys update
  delete_slug slug none s = (true, s)
  delete_slug slug (some b) s =
      update commits
        (with_bucket (λ b'. record s { discovered_links = some b' })
          (delete_found (keys_of_slug slug (bb.entries b)) b))
        s

  -- `DeleteDiscoveredBySlug`; a transaction that writes nothing is taken to commit.
  unfoldable pub delete_discovered_by_slug : Db B → (slug : String) → Bool × Db B
  unfolding keys_of_slug delete_keys update trim_space delete_slug
  delete_discovered_by_slug s slug =
      let deleted = delete_slug (trim_space slug) s.discovered_links s in
      if trim_space slug == "" then (true, s) else deleted

  abbrev pub entries_in : Option B → List (String × String)
  entries_in none = []
  entries_in (some b) = bb.entries b

  unfoldable pub discovered_for_parent : Db B → (parent : String) → List DiscoveredEdge × Bool
  unfolding rows_where key
  discovered_for_parent s parent =
      rows_where cs.edge (λ e. key e.parent_law_id == key parent) (entries_in s.discovered_links)

  unfoldable pub clear_discovered_links : Db B → Bool × Db B
  unfolding update
  clear_discovered_links s = update commits (some (record s { discovered_links = some bb.new })) s

  unfoldable pub count_discovered_links : Db B → ℕ
  count_discovered_links s = length (entries_in s.discovered_links)

  unfoldable pub count_bgbl_index : Db B → ℕ
  count_bgbl_index s = length (entries_in s.bgbl_index)
