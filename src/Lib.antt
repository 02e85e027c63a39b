-- ===== src/Lib.antt =====
-- A model of hirame's search API and indexer (apps/search-api), with the theorems that make it
-- correct. Paths that begin with internal/ are under apps/search-api.
--
-- The indexer keeps a database of documents in step with watched directories. A watcher reports
-- filesystem events and walks; the reconciler (internal/ingest/reconciler.go) writes what they say
-- to fs_observations and documents, and queues jobs; the processor (internal/ingest/processor.go)
-- hashes one file and installs its content as the document's current version. The search service
-- (internal/service) answers queries from the resulting index.
--
-- Prelude.antt and Prelude/: Go strings as lists of bytes, Boolean tests, list operations over the
-- native numbers, signed integers with the conversion of uint64 to int64, path/filepath.
-- Jobs.antt, Jobs/: internal/jobs/jobs.go. `Insertion` is what the enqueuer hands to River.
--   Jobs/Extract.antt: ExtractWorker of internal/jobs/workers.go.
-- Doctype.antt, Doctype/: internal/doctype/doctype.go.
-- Ingest/Types.antt, Ingest/Rows.antt: the structs of internal/ingest/store.go and the rows of
--   internal/store/migrations/0001_core_schema.sql. `Db` is the whole database.
-- Ingest/Tx.antt: transactions, PGStore.InTx. An action takes a connection, a state and the faults
--   still to come: each call of the environment consumes one, and a `true` makes it fail. A
--   statement that fails changes nothing; a transaction that fails restores the tables it began with.
--   What a sequence has given, an id or a scan epoch, is not taken back (`roll_back`).
-- Ingest/Tables/: the SQL statements (internal/store/queries), one function each, as the columns
--   that ingestion uses see them. Ingest/Queries.antt: the methods of pgTx over them.
-- Ingest/Mountpoints.antt, Ingest/Reconciler.antt: ApplyEvent and what it calls.
-- Ingest/Scan.antt: reconcileAll, reconcileRoot, observeScanned, drive, runOnce.
-- Ingest/Processor.antt: ProcessPath, promote, resolveDocument.
-- Ingest/Consistent.antt: the invariant of the tables, and that the statements keep it.
-- Ingest/Tx/Ensures.antt: total correctness of actions. Its rules compose as the code does; a
--   result says that the code returned, or that a call of the environment failed.
-- Ingest/Keeps.antt, Ingest/Watermark.antt, Ingest/Reconciler/, Ingest/Scan/, Ingest/Processor/: the
--   proofs, by the operation that they are about; the witnesses stand in Tests.antt of each part.
-- Service/: internal/service/token.go, search.go and imagespec.go. Service/Documents.antt: resolveRef
--   and loadDocument of service.go, document.go, and checkPage. Service/Rendering.antt: RenderPage of
--   render.go, over a stream that may refuse a frame.
-- Cache/Key.antt: internal/service/thumbnailkey.go. Cache/Tables.antt: thumbnail_cache and the
--   bucket, one function for each statement of internal/store/sqlcgen/thumbnails.sql.go and for Get,
--   Put and Delete of internal/objstore/objstore.go. Cache/Workers.antt: drainPending and the
--   workers of internal/jobs/cache_workers.go. Cache/Runs.antt: what an action leaves behind
--   whatever fails (`Leaves`), and what it returns where nothing does (`Returns`); a worker keeps an
--   error and goes on, so the rules of Ingest/Tx/Ensures.antt do not fit. Cache/Render.antt: codes,
--   renderError, and what a renderer does. Cache/Thumbnail.antt: fromCache, render and load of
--   internal/service/thumbnail.go, for a caller that waits; a follower in the singleflight group
--   gets the reply of its leader. Cache/Calls.antt: the calls of requests and workers as single
--   steps, so that a list of them is any interleaving. Cache/Drain/, Cache/Workers/,
--   Cache/Thumbnail/ and Cache/Calls/: the proofs.
--
-- The loops are structural: over the events of a subscription, the items of a scan, the paths of a
-- sweep. ProcessPath keeps its three attempts. The loop of snippetSegments runs on the length of the
-- text plus one, since each round drops a marker; the caller of the search in Service/Search/Paging
-- runs on the number of results plus one, since each page that has a successor brings a result.
-- The drain and the age pass loop until a batch is short; they run on fuel, and more rounds than
-- there are rows to take are enough (Cache/Drain/Progress, Cache/Workers/Age).
--
-- Parameters stand for what is not in the repository: Unicode case mapping, content sniffing, the
-- River client, what a timestamptz column keeps of a time, SHA-256, JSON, base64 and strconv, the
-- search index, the page renderer, Tika. What a bucket lists is an argument of the sweep, and a
-- file's hash one of ProcessPath. Times count nanoseconds.
--
-- Not modelled: processes, configuration, HTTP and gRPC plumbing, generated code but for the
-- statements; the thumbnail handler's parties, which cancel a render that nobody waits for; the
-- migrations. Concurrent transactions and workers are not interleaved but in Cache/Calls: each other
-- theorem is about one that runs alone. Statements outside a transaction that fail change nothing,
-- and neither does a call of the bucket that fails. The int32 columns page, width and height are
-- compared by their bits only and stand as natural numbers.
pub mod Prelude
pub mod Jobs
pub mod Doctype
pub mod Ingest
pub mod Cache
pub mod Service
