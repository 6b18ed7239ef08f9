-- ===== src/Lib.antt =====
-- gesetzeswache watches German federal law: for each statute it keeps the Stand (the last amendment
-- that the published text reflects), the issues of the Federal Law Gazette (BGBl), and the
-- ordinances (Verordnungen) that amend a statute by reference. From these it decides whether the
-- text that it serves is confirmed current, confirmed stale or uncertain. This library models that
-- decision and what feeds it, from the parsing of a citation to the answer of the service.
--
-- How the parts interact. A Stand or an editorial note is parsed into citations (Citation). The
-- links of a law are merged from a seeded file (Instruments.Load), from families of yearly
-- ordinances and from discovered edges (Discovery, Instruments.Family). An ingest finds these
-- edges: from the XML of a law it takes the Stand (Export.Stand) and the preamble, resolves the
-- parent laws that the preamble names, and writes the edges into the store (Discovery.Ingest,
-- Store). Each link is annotated as past, current or future (Instruments.Chain). The citations of a
-- law and of its children form its evidence (Instruments.Evidence). Each operative citation is
-- matched to a child (Instruments.VrefResolve), and the child is itself evaluated
-- (Instruments.VrefProof). The verdict (Freshness.Eval) rests on all of it, the job Reconcile
-- writes it for every law (Sync.Reconcile), and the service (Service.Freshness) answers it for one
-- law, or for a bundle (Service.Bundle).
--
-- Files and code:
--   Domain                   internal/domain/types.go: records with the source's fields
--   Citation                 internal/citation/parse.go: Compare, parseIssueNum, IssueID
--   Citation.Instruments     the same file: ParseLinkedInstruments, teilFrom
--   Citation.Parse           the same file: Parse, attachDate
--   Normalize                internal/normalize/normalize.go: Key
--   Normalize.Sgb            internal/normalize/sgb.go, and AlternateKeys of normalize.go
--   Freshness.Evidence       internal/freshness/evidence.go
--   Freshness.Refs, .Issues  internal/freshness/eval.go: the tests on citations and issues
--   Freshness.Eval           the same file: Evaluate and the two paths of unresolvedInstrumentRefs
--   Freshness.Unresolved     internal/freshness/unresolved.go: CollectUnresolvedRefs
--   Instruments.Gesetz       internal/instruments/gesetz.go: FilterOperativeLinked
--   Instruments.Chain        internal/instruments/chain.go: AnnotateChain and the filters
--   Instruments.Load         internal/instruments/load.go: LoadTSV, over what opening a file gives
--   Instruments.Evidence     internal/instruments/evidence.go: CollectEvidence
--   Instruments.VrefResolve  internal/instruments/vref_resolve.go: ResolveOperativeVRefs
--   Instruments.VrefProof    internal/instruments/vref_proof.go: ProveVRefResolutions
--   Instruments.Family       internal/instruments/family.go: LatestSlugByPrefix, ExpandForParent,
--                            and in .Load LoadFamiliesTSV
--   Instruments.Ensure       internal/instruments/ensure.go: EnsureLawFromSlug
--   Discovery.Merge          internal/discovery/merge.go and family_prefix.go
--   Discovery.Books, .Parents  internal/discovery/parent_resolve.go and types.go: ResolveParent
--   Discovery.Titles, .Preamble  internal/discovery/ermaechtigung.go: ParseErmaechtigung
--   Discovery.Lookup         internal/discovery/ingest.go: ByJurabk, ByTitlePhrase
--   Discovery.Fussnoten      the same file: ExtractPreambleText
--   Discovery.Ingest         the same file: IngestLawXML
--   Xml, Export.Stand        internal/xmlsafe/xmlsafe.go, internal/export/stand_xml.go
--   Export.Ausfertigung      internal/export/ausfertigung_xml.go
--   Export.Chunks            internal/export/index_chunk.go
--   Search                   internal/search/engine.go: levenshtein and the answer of Resolve
--   Store.Buckets, .Entities internal/store/store.go
--   Store.Discovered         internal/store/discovery.go
--   Store.Operations         the store as the service, the stubs and the ingest take it
--   Store.Verdicts           the store as the job Reconcile takes it
--   GiiUrl, .Links           internal/giiurl/giiurl.go
--   Sync.Reconcile           internal/sync/orchestrator.go: Reconcile and heuristicLink
--   Service.Links            internal/service/service.go: linkedInstrumentsFor and what it needs
--   Service.Freshness        the same file: freshnessFor
--   Service.Bundle           internal/service/bundle.go: aggregateBundleFreshness
--   Service.Requests         internal/service/include.go, export_gate.go and query_limit.go
--   Prelude, Text, Regex, Time are what these share, with Go's strings, regexp and time functions.
--   Tests holds the theorems at concrete inputs.
--
-- How the code is modelled. A loop with flags is a recursion with the flags in a record; a map is
-- an association list, in the order of its keys where the source sorts them; a nil slice that
-- differs from an empty one is an Option. The service runs over the states of a store, whose
-- operations are a record (Service.Links.StoreOps): every write of freshnessFor passes the next
-- state on. A read whose error the source drops answers a value or none; one whose error it keeps
-- also says that it failed. The clock is an argument, once for the handler and once for Evaluate.
--
-- What stands outside the repository is a parameter. bbolt is a record of operations on a bucket
-- with laws on what is read after a write (Store.Buckets), an update either commits or leaves the
-- state as it was, and one that writes nothing is taken to commit. encoding/json and time's layout
-- are codecs of which a decoded text is what was encoded. encoding/xml is a function from a text to
-- its tokens, and to whether they ended in an error. The order in which Go ranges over the map of
-- parents is a function of the entries.
--
-- Bounds and fuel. A regular expression's star runs on the length of the text left, which is enough
-- because each round consumes a rune; strconv.Itoa runs on its number plus one. Case and letters
-- are Unicode's up to U+00FF, and white space is full. Years and parts are not negative. The issue
-- number of parseIssueNum wraps at 64 bits, and strconv.Atoi has its range errors. Times are
-- nanoseconds since the zero time, a difference saturates as in Go, and the theorems on ages take
-- an age below the longest duration. A date before year 1 is cut to the zero time.
--
-- Not modelled: the network and the feeds around sync (the job Reconcile takes the law that a
-- search finds for a title as an argument), the text export and its archives, search scores,
-- SHA-256 fingerprints, the refresh of the search index, metrics, logging, configuration and the
-- HTTP, MCP and command-line interfaces. net/url is a parameter of the functions of giiurl.
pub mod Prelude
pub mod Text
pub mod Regex
pub mod Xml
pub mod Export
pub mod Time
pub mod Domain
pub mod Citation
pub mod Normalize
pub mod Freshness
pub mod Instruments
pub mod Discovery
pub mod Store
pub mod Service
pub mod Sync
pub mod Search
pub mod GiiUrl
pub mod Tests
