-- ===== src/Ingest/Consistent/Rollback.antt =====
-- Rolling a transaction back keeps the tables consistent: the sequences only go on.
use hirame.Prelude.{◌<◌, sym, subst, arith, All-weaken}
use hirame.Ingest.Rows.{Db}
use hirame.Ingest.Tx.Rollback.{RolledBack}
use hirame.Ingest.Consistent.{IsConsistent}

pub RolledBack-IsConsistent : (s t : Db) → RolledBack s t → IsConsistent s → IsConsistent t
RolledBack-IsConsistent s t b c = subst IsConsistent (sym b.tables) (record {
  paths = c.paths;
  ids = c.ids;
  fresh =
      All-weaken (λ d. d.id < s.next_document_id) (λ d. d.id < t.next_document_id)
        (λ d h. let k = b.next_document_id in omega arith) s.documents c.fresh;
  current = c.current;
  keys = c.keys;
  version_ids = c.version_ids;
  hashes = c.hashes;
  version_fresh =
      All-weaken (λ v. (0 < v.id) × (v.id < s.next_version_id))
        (λ v. (0 < v.id) × (v.id < t.next_version_id))
        (λ v h. let k = b.next_version_id in (h.0, ground (arith, h.1, k))) s.versions
        c.version_fresh;
  next_version = let k = b.next_version_id in let n = c.next_version in omega arith;
})
