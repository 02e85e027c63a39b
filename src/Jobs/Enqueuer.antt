-- ===== src/Jobs/Enqueuer.antt =====
-- Enqueuer of jobs.go: what it hands to River, which inserts it on the caller's transaction.
use hirame.Prelude.{ℕ, Bool, Option, none, some, Bytes, if◌then◌else◌}
use hirame.Jobs.Args.{JobArgs, ingest_path, extract, invalidate_thumbnails, debounced, settled}

-- `bound` says whether a River client is attached.
pub record Enqueuer : Type 0 where
  pub bound : Bool
  pub debounce : ℕ

-- The arguments of client.InsertTx: `delay` is how long after now the job is scheduled.
pub record Insertion : Type 0 where
  pub args : JobArgs
  pub delay : Option ℕ

-- insert; `none` is ErrNotBound.
insert : Enqueuer → JobArgs → Option ℕ → Option Insertion
insert e args delay = if e.bound then some (record { args = args; delay = delay }) else none

-- IngestPath
unfoldable pub enqueue_ingest_path : Enqueuer → ℕ → Bytes → Bool → Option Insertion
unfolding insert
enqueue_ingest_path e mountpoint_id path immediate =
    if immediate
    then insert e (ingest_path mountpoint_id path settled) none
    else insert e (ingest_path mountpoint_id path debounced) (some e.debounce)

-- Extract
unfoldable pub enqueue_extract : Enqueuer → ℕ → Option Insertion
unfolding insert
enqueue_extract e content_version_id = insert e (extract content_version_id) none

-- InvalidateThumbnails
unfoldable pub enqueue_invalidate_thumbnails : Enqueuer → ℕ → ℕ → Option Insertion
unfolding insert
enqueue_invalidate_thumbnails e document_id superseded =
    insert e (invalidate_thumbnails document_id superseded) none
