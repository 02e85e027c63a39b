-- ===== src/Ingest/Tables/Documents.antt =====
-- store/queries/documents.sql: documents.
use hirame.Prelude.{
  ℕ, ◌+◌, Bool, true, false, ◌&&◌, not, List, [], ◌∷◌, ◌++◌, map, Option, none, some, Bytes, ◌==◌,
  bytes_eq, find?, select, update_where, has, distinct, if◌then◌else◌,
}
use hirame.Ingest.Types.{unique_violation, no_rows}
use hirame.Ingest.Tx.{Result, ok, err}
use hirame.Ingest.Rows.{
  Db, DocumentRow, VersionRow, live_at, live_under, observed_at, same_live_path,
}
use hirame.Ingest.Tables.Observations.{repath}

-- FindLiveDocumentByPath
unfoldable pub find_live_by_path : ℕ → Bytes → Db → Result (Option DocumentRow) × Db
find_live_by_path mountpoint_id path s = (ok (find? (live_at mountpoint_id path) s.documents), s)

abbrev pub live_inode : ℕ → ℕ → ℕ → DocumentRow → Bool
live_inode mountpoint_id dev ino d =
    (d.mountpoint_id == mountpoint_id) && ((d.dev == dev) && ((d.ino == ino) && not d.deleted))

-- FindLiveDocumentByInode
unfoldable pub find_live_by_inode : ℕ → ℕ → ℕ → Db → Result (Option DocumentRow) × Db
find_live_by_inode mountpoint_id dev ino s =
    (ok (find? (live_inode mountpoint_id dev ino) s.documents), s)

-- The join on content_versions: the row's current version has the hash.
abbrev pub has_content : List VersionRow → Bytes → DocumentRow → Bool
has_content versions hash d = elim d.current_content_version_id [
  | none ↦ false
  | some v ↦ has (λ cv. (cv.id == v) && bytes_eq cv.content_hash hash) versions
]

-- FindLiveDocumentByContent: only documents whose own path is not observed.
abbrev pub live_content : Db → ℕ → Bytes → DocumentRow → Bool
live_content s mountpoint_id hash d =
    (d.mountpoint_id == mountpoint_id)
    && (has_content s.versions hash d
        && (not d.deleted && not (has (observed_at d.mountpoint_id d.path) s.observations)))

unfoldable pub find_live_by_content : ℕ → Bytes → Db → Result (Option DocumentRow) × Db
find_live_by_content mountpoint_id hash s =
    (ok (find? (live_content s mountpoint_id hash) s.documents), s)

-- A write of documents, which the unique index documents_live_path may refuse. The index is
-- tested on the table that the statement leaves.
unfoldable pub store_documents {ℓ} : {A : Type ℓ} → A → List DocumentRow → Db → Result A × Db
store_documents a rows s =
    if distinct same_live_path rows
    then (ok a, record s { documents = rows })
    else (err unique_violation, s)

abbrev pub new_document : ℕ → ℕ → Bytes → ℕ → ℕ → DocumentRow
new_document id mountpoint_id path dev ino = record {
  id = id;
  mountpoint_id = mountpoint_id;
  path = path;
  dev = dev;
  ino = ino;
  current_content_version_id = none;
  deleted = false;
}

-- CreateDocument
unfoldable pub create_document : ℕ → Bytes → ℕ → ℕ → Db → Result DocumentRow × Db
unfolding store_documents
create_document mountpoint_id path dev ino s =
    let row = new_document s.next_document_id mountpoint_id path dev ino in
    store_documents row (s.documents ++ row ∷ [])
      (record s { next_document_id = s.next_document_id + 1 })

abbrev pub has_id : ℕ → DocumentRow → Bool
has_id id d = d.id == id

-- MoveDocument, a `:one` statement.
unfoldable pub move_document : ℕ → Bytes → ℕ → ℕ → Db → Result (Unit {0}) × Db
unfolding store_documents
move_document id path dev ino s =
    if has (has_id id) s.documents
    then store_documents tt
        (update_where (has_id id) (λ d. record d { path = path; dev = dev; ino = ino }) s.documents)
        s
    else (err no_rows, s)

-- deleted_at = COALESCE(deleted_at, now())
abbrev pub tombstoned : DocumentRow → DocumentRow
tombstoned d = record d { deleted = true }

-- TombstoneDocument, a `:one` statement.
unfoldable pub tombstone_document : ℕ → Db → Result (Unit {0}) × Db
tombstone_document id s =
    if has (has_id id) s.documents
    then (ok tt, record s { documents = update_where (has_id id) tombstoned s.documents })
    else (err no_rows, s)

-- TombstoneDocumentByPath: the row as the statement leaves it.
unfoldable pub tombstone_by_path : ℕ → Bytes → Db → Result (Option DocumentRow) × Db
tombstone_by_path mountpoint_id path s =
    let at = live_at mountpoint_id path in
    (
      ok (elim (find? at s.documents) [ none ↦ none | some d ↦ some (tombstoned d) ]),
      record s { documents = update_where at tombstoned s.documents },
    )

-- TombstoneDocumentSubtree
unfoldable pub tombstone_subtree : ℕ → Bytes → Db → Result (List DocumentRow) × Db
tombstone_subtree mountpoint_id prefix s =
    let under = live_under mountpoint_id prefix in
    (
      ok (map tombstoned (select under s.documents)),
      record s { documents = update_where under tombstoned s.documents },
    )

abbrev pub repathed : Bytes → Bytes → DocumentRow → DocumentRow
repathed old_prefix new_prefix d = record d { path = repath old_prefix new_prefix d.path }

-- MoveDocumentSubtree
unfoldable pub move_subtree : ℕ → Bytes → Bytes → Db → Result (List DocumentRow) × Db
unfolding repath store_documents
move_subtree mountpoint_id old_prefix new_prefix s =
    let under = live_under mountpoint_id old_prefix in
    store_documents (map (repathed old_prefix new_prefix) (select under s.documents))
      (update_where under (repathed old_prefix new_prefix) s.documents) s

-- IS NOT DISTINCT FROM
unfoldable pub same_version : Option ℕ → Option ℕ → Bool
same_version none none = true
same_version none (some b) = false
same_version (some a) none = false
same_version (some a) (some b) = a == b

abbrev pub has_version : ℕ → Option ℕ → DocumentRow → Bool
has_version id expected d = (d.id == id) && same_version d.current_content_version_id expected

abbrev pub flipped : ℕ → DocumentRow → DocumentRow
flipped version d = record d { current_content_version_id = some version }

-- SetDocumentCurrentVersion: whether a row matched.
unfoldable pub set_current_version : ℕ → Option ℕ → ℕ → Db → Result Bool × Db
unfolding same_version
set_current_version id expected version s = (
  ok (has (has_version id expected) s.documents),
  record s { documents = update_where (has_version id expected) (flipped version) s.documents },
)
