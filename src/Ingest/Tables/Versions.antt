-- ===== src/Ingest/Tables/Versions.antt =====
-- store/queries/documents.sql: content_versions and extracted_contents.
use hirame.Prelude.{
  ℕ, ◌+◌, Bool, [], ◌∷◌, ◌++◌, none, some, Bytes, ◌==◌, bytes_eq, find?, update_where, has,
  if◌then◌else◌,
}
use hirame.Ingest.Tx.{Result, ok}
use hirame.Ingest.Rows.{Db, VersionRow, ExtractionRow, status_pending}

abbrev pub has_hash : Bytes → VersionRow → Bool
has_hash hash v = bytes_eq v.content_hash hash

-- UpsertContentVersion: INSERT … ON CONFLICT (content_hash) DO UPDATE SET size_bytes; the id.
-- Foreign keys are not modelled: each id that is written was just returned by a statement.
unfoldable pub upsert_version : Bytes → ℕ → Db → Result ℕ × Db
upsert_version hash size s = elim (find? (has_hash hash) s.versions) [
  | some v ↦ (
    ok v.id,
    record s {
      versions = update_where (has_hash hash) (λ w. record w { size_bytes = size }) s.versions;
    },
  )
  | none ↦
      let row : VersionRow = record {
        id = s.next_version_id;
        content_hash = hash;
        size_bytes = size;
      } in
      (
        ok s.next_version_id,
        record s { versions = s.versions ++ row ∷ []; next_version_id = s.next_version_id + 1 },
      )
]

abbrev pub extracts : ℕ → ExtractionRow → Bool
extracts version e = e.content_version_id == version

-- MarkExtractionPending: INSERT … ON CONFLICT DO NOTHING.
unfoldable pub mark_pending : ℕ → Db → Result (Unit {0}) × Db
mark_pending version s =
    let row : ExtractionRow = record { content_version_id = version; status = status_pending } in
    (
      ok tt,
      if has (extracts version) s.extractions
          then s
          else record s { extractions = s.extractions ++ row ∷ [] },
    )
