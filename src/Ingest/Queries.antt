-- ===== src/Ingest/Queries.antt =====
-- pgTx of apps/search-api/internal/ingest/pgstore.go: each method is one statement, or one insert
-- through the enqueuer.
use hirame.Prelude.{
  ℕ, ℤ, Bool, true, false, List, [], ◌∷◌, ◌++◌, map, Option, none, some, Bytes, ◌==◌, if◌then◌else◌,
}
use hirame.Jobs.Enqueuer.{
  Insertion, enqueue_ingest_path, enqueue_extract, enqueue_invalidate_thumbnails,
}
use hirame.Ingest.Types.{
  Observation, Document, Trigger, trigger_debounced, trigger_settled, not_bound,
}
use hirame.Ingest.Tx.{Result, ok, err, Tx, statement}
use hirame.Ingest.Rows.{Db, Env, DocumentRow, to_document, deref_id}
use hirame.Ingest.Tables.Observations as O
use hirame.Ingest.Tables.Documents as D
use hirame.Ingest.Tables.Versions as V

abbrev pub Action : Type 0 → Type 0
Action A = Tx Db A

-- The result of a statement, converted.
abbrev pub converted : {A B : Type 0} → (A → B) → Result A × Db → Result B × Db
converted f (ok a, s) = (ok (f a), s)
converted f (err e, s) = (err e, s)

-- documentOrMissing
abbrev pub document_or_missing : Option DocumentRow → Option Document
document_or_missing none = none
document_or_missing (some row) = some (to_document row)

unfoldable pub watermark : Action ℤ
watermark = statement (λ s. (ok s.watermark, s))

unfoldable pub set_watermark : ℤ → Action (Unit {0})
set_watermark seq = statement (O.set_watermark seq)

unfoldable pub next_scan_epoch : Action ℕ
next_scan_epoch = statement O.next_scan_epoch

unfoldable pub get_observation : ℕ → Bytes → Action (Option Observation)
get_observation mountpoint_id path = statement (O.get_observation mountpoint_id path)

unfoldable pub upsert_observation : Env → Observation → Action (Unit {0})
upsert_observation env o = statement (O.upsert_observation env o)

unfoldable pub delete_observation : ℕ → Bytes → Action (Unit {0})
delete_observation mountpoint_id path = statement (O.delete_observation mountpoint_id path)

unfoldable pub delete_observation_subtree : ℕ → Bytes → Action (Unit {0})
delete_observation_subtree mountpoint_id prefix =
    statement (O.delete_observation_subtree mountpoint_id prefix)

unfoldable pub move_observation_subtree : ℕ → Bytes → Bytes → Action (Unit {0})
move_observation_subtree mountpoint_id old_prefix new_prefix =
    statement (O.move_observation_subtree mountpoint_id old_prefix new_prefix)

unfoldable pub sweep_scan_epoch : ℕ → Bytes → Bytes → ℕ → Action (List Bytes)
sweep_scan_epoch mountpoint_id root root_prefix epoch =
    statement (O.sweep_scan_epoch mountpoint_id root root_prefix epoch)

unfoldable pub find_live_document_by_path : ℕ → Bytes → Action (Option Document)
find_live_document_by_path mountpoint_id path =
    statement (λ s. converted document_or_missing (D.find_live_by_path mountpoint_id path s))

unfoldable pub find_live_document_by_inode : ℕ → ℕ → ℕ → Action (Option Document)
find_live_document_by_inode mountpoint_id dev ino =
    statement (λ s. converted document_or_missing (D.find_live_by_inode mountpoint_id dev ino s))

unfoldable pub find_live_document_by_content : ℕ → Bytes → Action (Option Document)
find_live_document_by_content mountpoint_id hash =
    statement (λ s. converted document_or_missing (D.find_live_by_content mountpoint_id hash s))

unfoldable pub create_document : ℕ → Bytes → ℕ → ℕ → Action Document
create_document mountpoint_id path dev ino =
    statement (λ s. converted to_document (D.create_document mountpoint_id path dev ino s))

unfoldable pub move_document : ℕ → Bytes → ℕ → ℕ → Action (Unit {0})
move_document id path dev ino = statement (D.move_document id path dev ino)

-- The documents that the subtree statements return: what RETURNING does not name is zero.
abbrev pub moved_summary : ℕ → DocumentRow → Document
moved_summary mountpoint_id row = record {
  id = row.id;
  mountpoint_id = mountpoint_id;
  path = row.path;
  dev = 0;
  ino = 0;
  current_content_version_id = 0;
}

abbrev pub tombstone_summary : ℕ → DocumentRow → Document
tombstone_summary mountpoint_id row = record (moved_summary mountpoint_id row) {
  current_content_version_id = deref_id row.current_content_version_id;
}

unfoldable pub move_document_subtree : ℕ → Bytes → Bytes → Action (List Document)
move_document_subtree mountpoint_id old_prefix new_prefix = statement (λ s.
    converted (map (moved_summary mountpoint_id))
      (D.move_subtree mountpoint_id old_prefix new_prefix s))

unfoldable pub tombstone_document : ℕ → Action (Unit {0})
tombstone_document id = statement (D.tombstone_document id)

unfoldable pub tombstone_document_by_path : ℕ → Bytes → Action (Option Document)
tombstone_document_by_path mountpoint_id path =
    statement (λ s. converted document_or_missing (D.tombstone_by_path mountpoint_id path s))

unfoldable pub tombstone_document_subtree : ℕ → Bytes → Action (List Document)
tombstone_document_subtree mountpoint_id prefix = statement (λ s.
    converted (map (tombstone_summary mountpoint_id)) (D.tombstone_subtree mountpoint_id prefix s))

unfoldable pub upsert_content_version : Bytes → ℕ → Action ℕ
upsert_content_version hash size = statement (V.upsert_version hash size)

-- The sentinel 0 of the package becomes NULL.
abbrev pub expected_id : ℕ → Option ℕ
expected_id expected = if expected == 0 then none else some expected

unfoldable pub set_document_current_version : ℕ → ℕ → ℕ → Action Bool
set_document_current_version document_id expected version =
    statement (D.set_current_version document_id (expected_id expected) version)

unfoldable pub mark_extraction_pending : ℕ → Action (Unit {0})
mark_extraction_pending version = statement (V.mark_pending version)

-- Enqueuer.insert: the job is inserted on the transaction, unless no client is bound.
unfoldable pub inserted : Option Insertion → Db → Result (Unit {0}) × Db
inserted none s = (err not_bound, s)
inserted (some job) s = (ok tt, record s { jobs = s.jobs ++ job ∷ [] })

-- trigger == TriggerSettled
unfoldable pub is_settled : Trigger → Bool
is_settled trigger_settled = true
is_settled trigger_debounced = false

module _ (env : Env) where
  unfoldable pub enqueue_ingest : ℕ → Bytes → Trigger → Action (Unit {0})
  enqueue_ingest mountpoint_id path trigger =
      statement
        (inserted (enqueue_ingest_path env.enqueuer mountpoint_id path (is_settled trigger)))

  unfoldable pub enqueue_extraction : ℕ → Action (Unit {0})
  enqueue_extraction version = statement (inserted (enqueue_extract env.enqueuer version))

  unfoldable pub enqueue_invalidate : ℕ → ℕ → Action (Unit {0})
  enqueue_invalidate document_id superseded =
      statement (inserted (enqueue_invalidate_thumbnails env.enqueuer document_id superseded))
