-- ===== src/Store/Operations.antt =====
-- The store as its clients take it: the service (internal/service/service.go), the stubs of laws
-- (internal/instruments/ensure.go) and the ingest (internal/discovery/ingest.go).
use gesetzeswache.Prelude.{String, Bool, true, false, Option, none, some, List}
use gesetzeswache.Time.{Instant}
use gesetzeswache.Discovery.Ingest.{IngestStore, BgblIndexEntry}
use gesetzeswache.Instruments.Ensure.{LawUpserter}
use gesetzeswache.Service.Links.{StoreOps}
use gesetzeswache.Store.Buckets.{Bbolt, Got, absent, present, broken}
use gesetzeswache.Store.Entities.{
  Db, Codecs, get_law, upsert_law_if_absent, list_laws, get_stand, upsert_stand, get_issue,
  get_meta, get_meta_time, links_for_law, put_freshness,
}
use gesetzeswache.Store.Discovered.{
  discovered_for_parent, lookup_bgbl_index, upsert_bgbl_index, upsert_discovered_link,
  delete_discovered_by_slug,
}

-- A read whose error is dropped.
abbrev pub found : {T : Type 0} → Got T → Option T
found (present x) = some x
found _ = none

-- A read whose error is kept: none for the error.
abbrev read : {T : Type 0} → Got T → Option (Option T)
read absent = some none
read (present x) = some (some x)
read broken = none

-- The zero time where there is none.
abbrev time_or_zero : Got Instant → Instant
time_or_zero (present t) = t
time_or_zero _ = 0

abbrev rows_or_error : {T : Type 0} → List T × Bool → Option (List T)
rows_or_error (rows, true) = none
rows_or_error (rows, false) = some rows

abbrev slug_and_law : Got BgblIndexEntry → Option (String × String)
slug_and_law (present e) = some (e.gii_slug, e.law_id)
slug_and_law _ = none

module _ {B : Type 0} (bb : Bbolt B) (cs : Codecs) (commits : Db B → Bool) where
  unfoldable pub ingest_store : IngestStore (Db B)
  unfolding upsert_bgbl_index upsert_discovered_link delete_discovered_by_slug
  ingest_store = record {
    upsert_bgbl_index = upsert_bgbl_index bb cs commits;
    upsert_discovered_link = upsert_discovered_link bb cs commits;
    delete_discovered_by_slug = delete_discovered_by_slug bb cs commits;
  }

  unfoldable pub law_upserter : LawUpserter (Db B)
  unfolding get_law upsert_law_if_absent
  law_upserter = record {
    get_law = λ s id. read (get_law bb cs commits s id);
    upsert_law_if_absent = upsert_law_if_absent bb cs commits;
  }

  unfoldable pub service_store : StoreOps (Db B)
  unfolding law_upserter list_laws get_stand upsert_stand get_issue get_meta get_meta_time
      links_for_law discovered_for_parent lookup_bgbl_index put_freshness
  service_store = record {
    laws = law_upserter;
    list_laws = λ s. rows_or_error (list_laws bb cs commits s);
    get_stand = λ s id. found (get_stand bb cs commits s id);
    upsert_stand = λ s c. (upsert_stand bb cs commits c s).1;
    get_issue = λ s id. found (get_issue bb cs commits s id);
    get_meta = get_meta bb cs commits;
    get_meta_time = λ s k. time_or_zero (get_meta_time bb cs commits s k);
    links_for_law = links_for_law bb cs commits;
    discovered_for_parent = λ s p. rows_or_error (discovered_for_parent bb cs commits s p);
    lookup_bgbl_index =
        λ s teil year number. slug_and_law (lookup_bgbl_index bb cs commits s teil year number);
    put_freshness = λ s r. (put_freshness bb cs commits r s).1;
  }
