-- ===== src/Ingest/Consistent.antt =====
-- What every state of the ingestion tables satisfies: their keys, the unique index on live paths,
-- and the identities that the sequences have handed out.
pub mod Documents
pub mod Observations
pub mod Versions
pub mod Moves
pub mod Rollback
use hirame.Prelude.{
  ℕ, ◌<◌, Bool, true, List, Option, none, some, ◌≡◌, ◌==◌, Bytes, bytes_eq, has, distinct, All,
}
use hirame.Ingest.Types.{Observation}
use hirame.Ingest.Rows.{Db, DocumentRow, VersionRow, same_live_path, same_key}

abbrev pub same_id : DocumentRow → DocumentRow → Bool
same_id a b = a.id == b.id

abbrev pub same_version_id : VersionRow → VersionRow → Bool
same_version_id a b = a.id == b.id

abbrev pub same_hash : VersionRow → VersionRow → Bool
same_hash a b = bytes_eq a.content_hash b.content_hash

-- A current version is a row of content_versions.
abbrev pub Refers : List VersionRow → Option ℕ → Type 0
Refers versions none = Unit
Refers versions (some v) = has (λ w. w.id == v) versions ≡ true

pub record IsConsistent (s : Db) : Type 0 where
  pub paths : distinct same_live_path s.documents ≡ true
  pub ids : distinct same_id s.documents ≡ true
  pub fresh : All (λ d. d.id < s.next_document_id) s.documents
  pub current : All (λ d. Refers s.versions d.current_content_version_id) s.documents
  pub keys : distinct same_key s.observations ≡ true
  pub version_ids : distinct same_version_id s.versions ≡ true
  pub hashes : distinct same_hash s.versions ≡ true
  pub version_fresh : All (λ v. (0 < v.id) × (v.id < s.next_version_id)) s.versions
  pub next_version : 0 < s.next_version_id
