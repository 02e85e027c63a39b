-- ===== src/Ingest/Tx/Rollback.antt =====
-- What a transaction that was rolled back leaves (PGStore.InTx on an error).
use hirame.Prelude.{◌≤◌, ◌≡◌, refl, arith}
use hirame.Ingest.Rows.{Db}
use hirame.Ingest.Tx.{roll_back}

-- The tables are as they were in `s`; the sequences are where they were or further on.
pub record RolledBack (s t : Db) : Type 0 where
  pub tables : t ≡ record s {
    scan_epoch = t.scan_epoch;
    next_document_id = t.next_document_id;
    next_version_id = t.next_version_id;
  }
  pub scan_epoch : s.scan_epoch ≤ t.scan_epoch
  pub next_document_id : s.next_document_id ≤ t.next_document_id
  pub next_version_id : s.next_version_id ≤ t.next_version_id

pub roll_back-RolledBack : (s t : Db) → RolledBack s (roll_back s t)
unfolding roll_back
roll_back-RolledBack s t = record {
  tables = refl;
  scan_epoch = omega arith;
  next_document_id = omega arith;
  next_version_id = omega arith;
}

-- A state that is the same was at most rolled back.
pub RolledBack-of_same : (s t : Db) → t ≡ s → RolledBack s t
RolledBack-of_same s t e = rw e (record {
  tables = refl;
  scan_epoch = omega arith;
  next_document_id = omega arith;
  next_version_id = omega arith;
})
