-- ===== src/Ingest/Rows.antt =====
-- The tables that ingestion reads and writes (store/migrations/0001_core_schema.sql). Rows stand
-- in the order of insertion, so a scan in order is a scan by id.
use hirame.Prelude.{
  ℕ, ℤ, Bool, ◌&&◌, not, List, Option, none, some, Bytes, ◌==◌, bytes_eq, has_prefix,
}
use hirame.Jobs.Enqueuer.{Enqueuer, Insertion}
use hirame.Ingest.Types.{Observation, Document}

-- documents: `deleted` is `deleted_at IS NOT NULL`.
pub record DocumentRow : Type 0 where
  pub id : ℕ
  pub mountpoint_id : ℕ
  pub path : Bytes
  pub dev : ℕ
  pub ino : ℕ
  pub current_content_version_id : Option ℕ
  pub deleted : Bool

-- content_versions
pub record VersionRow : Type 0 where
  pub id : ℕ
  pub content_hash : Bytes
  pub size_bytes : ℕ

-- extracted_contents.status
pub data Status : Type 0 where
  status_pending status_succeeded status_failed : Status

-- extracted_contents, as far as ingestion touches it
pub record ExtractionRow : Type 0 where
  pub content_version_id : ℕ
  pub status : Status

-- The database. `next_document_id` and `next_version_id` are the identity sequences, `scan_epoch`
-- the last value of scan_epoch_seq, `jobs` what was inserted through River. A rollback takes back
-- no value of a sequence (Ingest/Tx.antt). An insert that conflicts or is refused draws an id in
-- PostgreSQL and none here, so the ids there may have more gaps.
pub record Db : Type 0 where
  pub watermark : ℤ
  pub scan_epoch : ℕ
  pub observations : List Observation
  pub documents : List DocumentRow
  pub next_document_id : ℕ
  pub versions : List VersionRow
  pub next_version_id : ℕ
  pub extractions : List ExtractionRow
  pub jobs : List Insertion

-- What the code reaches beside the tables: the enqueuer, and what a timestamptz column keeps of a
-- time.
pub record Env : Type 0 where
  pub enqueuer : Enqueuer
  pub column_time : ℕ → ℕ

-- derefID
unfoldable pub deref_id : Option ℕ → ℕ
deref_id none = 0
deref_id (some id) = id

-- toDocument
unfoldable pub to_document : DocumentRow → Document
unfolding deref_id
to_document row = record {
  id = row.id;
  mountpoint_id = row.mountpoint_id;
  path = row.path;
  dev = row.dev;
  ino = row.ino;
  current_content_version_id = deref_id row.current_content_version_id;
}

-- mountpoint_id = @mountpoint_id AND path = @path, on the two tables
abbrev pub observed_at : ℕ → Bytes → Observation → Bool
observed_at mountpoint_id path o = (o.mountpoint_id == mountpoint_id) && bytes_eq o.path path

abbrev pub observed_under : ℕ → Bytes → Observation → Bool
observed_under mountpoint_id prefix o =
    (o.mountpoint_id == mountpoint_id) && has_prefix o.path prefix

abbrev pub live_at : ℕ → Bytes → DocumentRow → Bool
live_at mountpoint_id path d =
    (d.mountpoint_id == mountpoint_id) && (bytes_eq d.path path && not d.deleted)

abbrev pub live_under : ℕ → Bytes → DocumentRow → Bool
live_under mountpoint_id prefix d =
    (d.mountpoint_id == mountpoint_id) && (has_prefix d.path prefix && not d.deleted)

-- The primary key of fs_observations, and the unique index documents_live_path.
abbrev pub same_key : Observation → Observation → Bool
same_key a b = observed_at a.mountpoint_id a.path b

abbrev pub same_live_path : DocumentRow → DocumentRow → Bool
same_live_path a b = not a.deleted && live_at a.mountpoint_id a.path b
