-- ===== src/Store/Entities.antt =====
-- internal/store/store.go: one bucket for each kind of entity.
use gesetzeswache.Prelude.{
  ℕ, suc, String, Bool, true, false, ◌==◌, Option, none, some, List, [], ◌∷◌, if◌then◌else◌,
}
use gesetzeswache.Text.{itoa}
use gesetzeswache.Text.Cut.{◌+++◌}
use gesetzeswache.Time.{Instant}
use gesetzeswache.Domain.{
  Law, LawVariant, DiscoveredEdge, StandCitation, GazetteIssue, IssueLawLink, FreshnessRecord,
  SyncAttempt, confirmed_current, confirmed_stale, uncertain,
}
use gesetzeswache.Discovery.Ingest.{BgblIndexEntry}
use gesetzeswache.Store.Buckets.{Bbolt, Codec, Got, put_json, get_json, rows_where, update}

-- The buckets of an open store. Those of the discovery are made on demand.
pub record Db (B : Type 0) : Type 0 where
  pub laws : B
  pub variants : B
  pub stand : B
  pub issues : B
  pub links : B
  pub freshness : B
  pub sync_meta : B
  pub sync_log : B
  pub bgbl_index : Option B
  pub discovered_links : Option B

-- JSON at each type; `time` is the layout RFC3339Nano.
pub record Codecs : Type 0 where
  pub law : Codec Law
  pub variant : Codec LawVariant
  pub stand : Codec StandCitation
  pub issue : Codec GazetteIssue
  pub link : Codec IssueLawLink
  pub freshness : Codec FreshnessRecord
  pub attempt : Codec SyncAttempt
  pub bgbl : Codec BgblIndexEntry
  pub edge : Codec DiscoveredEdge
  pub time : Codec Instant

-- `Open` of a database that has no buckets yet.
unfoldable pub opened : {B : Type 0} → Bbolt B → Db B
opened bb = record {
  laws = bb.new;
  variants = bb.new;
  stand = bb.new;
  issues = bb.new;
  links = bb.new;
  freshness = bb.new;
  sync_meta = bb.new;
  sync_log = bb.new;
  bgbl_index = some bb.new;
  discovered_links = some bb.new;
}

-- A bucket put back into the database, or the error.
abbrev pub with_bucket : {B : Type 0} → (B → Db B) → Option B → Option (Db B)
with_bucket into none = none
with_bucket into (some b) = some (into b)

module _ {B : Type 0} (bb : Bbolt B) (cs : Codecs) (commits : Db B → Bool) where
  unfoldable pub put_laws : List Law → Option B → Option B
  unfolding put_json
  put_laws laws none = none
  put_laws [] (some b) = some b
  put_laws (l ∷ laws) (some b) = put_laws laws (put_json bb cs.law b l.id l)

  unfoldable pub upsert_laws : List Law → Db B → Bool × Db B
  unfolding put_laws update
  upsert_laws laws s =
      update commits (with_bucket (λ b. record s { laws = b }) (put_laws laws (some s.laws))) s

  abbrev pub created : Bool × Db B → Option Bool × Db B
  created (true, s) = (some true, s)
  created (false, s) = (none, s)

  abbrev pub absent_then : Option String → Option Bool × Db B → Db B → Option Bool × Db B
  absent_then none made s = made
  absent_then (some text) made s = (some false, s)

  -- `UpsertLawIfAbsent`; a transaction that writes nothing is taken to commit.
  unfoldable pub upsert_law_if_absent : Db B → Law → Option Bool × Db B
  unfolding put_json update
  upsert_law_if_absent s law =
      absent_then (bb.get s.laws law.id)
        (created (
          update commits
            (with_bucket (λ b. record s { laws = b }) (put_json bb cs.law s.laws law.id law)) s))
        s

  unfoldable pub list_laws : Db B → List Law × Bool
  unfolding rows_where
  list_laws s = rows_where cs.law (λ l. true) (bb.entries s.laws)

  unfoldable pub get_law : Db B → (id : String) → Got Law
  unfolding get_json
  get_law s id = get_json bb cs.law s.laws id

  abbrev put_variants : (i : ℕ) → List LawVariant → Option B → Option B
  unfolding put_json itoa
  put_variants i vs none = none
  put_variants i [] (some b) = some b
  put_variants i (v ∷ vs) (some b) =
      put_variants (suc i) vs (put_json bb cs.variant b (itoa i +++ ":" +++ v.variant) v)

  unfoldable pub replace_variants : List LawVariant → Db B → Bool × Db B
  unfolding put_json update itoa
  replace_variants vs s =
      update commits
        (with_bucket (λ b. record s { variants = b }) (put_variants 0 vs (some bb.new))) s

  unfoldable pub list_variants : Db B → List LawVariant × Bool
  unfolding rows_where
  list_variants s = rows_where cs.variant (λ v. true) (bb.entries s.variants)

  unfoldable pub upsert_stand : StandCitation → Db B → Bool × Db B
  unfolding put_json update
  upsert_stand c s =
      update commits
        (with_bucket (λ b. record s { stand = b }) (put_json bb cs.stand s.stand c.law_id c)) s

  unfoldable pub get_stand : Db B → (law_id : String) → Got StandCitation
  unfolding get_json
  get_stand s law_id = get_json bb cs.stand s.stand law_id

  unfoldable pub upsert_issue : GazetteIssue → Db B → Bool × Db B
  unfolding put_json update
  upsert_issue iss s =
      update commits
        (with_bucket (λ b. record s { issues = b }) (put_json bb cs.issue s.issues iss.id iss)) s

  unfoldable pub get_issue : Db B → (id : String) → Got GazetteIssue
  unfolding get_json
  get_issue s id = get_json bb cs.issue s.issues id

  unfoldable pub list_issues : Db B → List GazetteIssue × Bool
  unfolding rows_where
  list_issues s = rows_where cs.issue (λ i. true) (bb.entries s.issues)

  abbrev pub link_id : IssueLawLink → String
  link_id link = link.issue_id +++ "|" +++ link.law_id

  unfoldable pub upsert_link : IssueLawLink → Db B → Bool × Db B
  unfolding put_json update
  upsert_link link s =
      update commits
        (with_bucket (λ b. record s { links = b })
          (put_json bb cs.link s.links (link_id link) link))
        s

  unfoldable pub links_for_law : Db B → (law_id : String) → List IssueLawLink × Bool
  unfolding rows_where
  links_for_law s law_id = rows_where cs.link (λ l. l.law_id == law_id) (bb.entries s.links)

  unfoldable pub list_links : Db B → List IssueLawLink × Bool
  unfolding rows_where
  list_links s = rows_where cs.link (λ l. true) (bb.entries s.links)

  unfoldable pub put_freshness : FreshnessRecord → Db B → Bool × Db B
  unfolding put_json update
  put_freshness r s =
      update commits
        (with_bucket (λ b. record s { freshness = b })
          (put_json bb cs.freshness s.freshness r.law_id r))
        s

  unfoldable pub get_freshness : Db B → (law_id : String) → Got FreshnessRecord
  unfolding get_json
  get_freshness s law_id = get_json bb cs.freshness s.freshness law_id

  unfoldable pub list_freshness_by_state : Db B → (state : String) → List FreshnessRecord × Bool
  unfolding rows_where
  list_freshness_by_state s state =
      rows_where cs.freshness (λ r. r.state == state) (bb.entries s.freshness)

  -- `out[state]++`; a state that has no count yet gets one.
  abbrev count_state : (state : String) → List (String × ℕ) → List (String × ℕ)
  count_state state [] = (state, 1) ∷ []
  count_state state ((t, n) ∷ counts) =
      let rest = count_state state counts in
      if t == state then (t, suc n) ∷ counts else (t, n) ∷ rest

  abbrev count_states : List FreshnessRecord → List (String × ℕ) → List (String × ℕ)
  count_states [] counts = counts
  count_states (r ∷ rows) counts = count_states rows (count_state r.state counts)

  unfoldable pub count_freshness_by_state : Db B → List (String × ℕ) × Bool
  unfolding rows_where
  count_freshness_by_state s =
      let (rows, failed) = rows_where cs.freshness (λ r. true) (bb.entries s.freshness) in
      (
        count_states rows ((confirmed_current, 0) ∷ (confirmed_stale, 0) ∷ (uncertain, 0) ∷ []),
        failed,
      )

  abbrev put_text : B → (key : String) → Option String → Option B
  put_text b key none = none
  put_text b key (some text) = bb.put b key text

  unfoldable pub set_meta_time : (key : String) → Instant → Db B → Bool × Db B
  unfolding update
  set_meta_time key t s =
      update commits
        (with_bucket (λ b. record s { sync_meta = b })
          (put_text s.sync_meta key (cs.time.encode t)))
        s

  unfoldable pub get_meta_time : Db B → (key : String) → Got Instant
  unfolding get_json
  get_meta_time s key = get_json bb cs.time s.sync_meta key

  unfoldable pub set_meta : (key val : String) → Db B → Bool × Db B
  unfolding update
  set_meta key val s =
      update commits (with_bucket (λ b. record s { sync_meta = b }) (bb.put s.sync_meta key val)) s

  unfoldable pub get_meta : Db B → (key : String) → Option String
  get_meta s key = bb.get s.sync_meta key

  abbrev logged : SyncAttempt → ℕ × B → Option B
  unfolding put_json itoa
  logged a (id, b) = put_json bb cs.attempt b (itoa id) (record a { id = itoa id })

  unfoldable pub append_sync_attempt : SyncAttempt → Db B → Bool × Db B
  unfolding put_json update itoa
  append_sync_attempt a s =
      update commits
        (with_bucket (λ b. record s { sync_log = b }) (logged a (bb.next_sequence s.sync_log))) s
