-- ===== src/Ingest/Processor.antt =====
-- apps/search-api/internal/ingest/processor.go: one path brought up to date.
pub mod Takes
pub mod Resolve
pub mod Attempts
pub mod Promote
pub mod Outcome
use hirame.Prelude.{
  ℕ, zero, suc, Bool, true, false, ◌&&◌, ◌||◌, not, List, [], ◌∷◌, ◌++◌, Option, none, some, Bytes,
  ◌==◌, length, take, ltb, if◌then◌else◌,
}
use hirame.Doctype
use hirame.Doctype.{Filter, Text}
use hirame.Ingest.Types.{Observation, Document, Error, version_raced, document_changed}
use hirame.Ingest.Tx.{Result, ok, err, Conn, pure, raise, ping, ◌>>=◌, ◌>>◌, in_tx}
use hirame.Ingest.Rows.{Db, Env}
use hirame.Ingest.Queries.{
  Action, get_observation, find_live_document_by_path, find_live_document_by_inode,
  find_live_document_by_content, create_document, move_document, upsert_content_version,
  set_document_current_version, mark_extraction_pending, enqueue_extraction, enqueue_invalidate,
}

-- Processor, with what its store and its filter reach.
pub record Processor : Type 0 where
  pub env : Env
  pub text : Text
  pub filter : Filter

-- What hash reports of a file: fs.ErrNotExist, or the digest, the size and the leading bytes.
pub data Hashed : Type 0 where
  not_exist : Hashed
  hashed : Bytes → ℕ → Bytes → Hashed

-- sameFile
unfoldable pub same_file : Observation → Observation → Bool
same_file a b = if (a.ino == 0) || (b.ino == 0) then true else (a.dev == b.dev) && (a.ino == b.ino)

-- The first case of resolveDocument: the path's own document keeps its identity.
unfoldable pub adopt_inode : Bytes → Observation → Document → Action Document
adopt_inode path obs doc =
    if not (doc.dev == obs.dev) || not (doc.ino == obs.ino)
    then (do move_document doc.id path obs.dev obs.ino; pure doc)
    else pure doc

-- The second and third case of resolveDocument: a document that is found moves to the path.
unfoldable pub move_or : Bytes → Observation → Action Document → Option Document → Action Document
move_or path obs otherwise none = otherwise
move_or path obs otherwise (some doc) = do move_document doc.id path obs.dev obs.ino; pure doc

unfoldable pub resolve_by_content : ℕ → Bytes → Observation → Bytes → Action Document
unfolding move_or
resolve_by_content mountpoint_id path obs digest = do
  doc ← find_live_document_by_content mountpoint_id digest
  move_or path obs (create_document mountpoint_id path obs.dev obs.ino) doc

unfoldable pub resolve_by_inode : ℕ → Bytes → Observation → Bytes → Action Document
unfolding move_or resolve_by_content
resolve_by_inode mountpoint_id path obs digest =
    if obs.ino == 0 then resolve_by_content mountpoint_id path obs digest else (do
      doc ← find_live_document_by_inode mountpoint_id obs.dev obs.ino
      move_or path obs (resolve_by_content mountpoint_id path obs digest) doc)

unfoldable pub resolve_found : ℕ → Bytes → Observation → Bytes → Option Document → Action Document
unfolding adopt_inode resolve_by_inode
resolve_found mountpoint_id path obs digest (some doc) = adopt_inode path obs doc
resolve_found mountpoint_id path obs digest none = resolve_by_inode mountpoint_id path obs digest

-- resolveDocument
unfoldable pub resolve_document : ℕ → Bytes → Observation → Bytes → Action Document
unfolding resolve_found
resolve_document mountpoint_id path obs digest = do
  doc ← find_live_document_by_path mountpoint_id path
  resolve_found mountpoint_id path obs digest doc

module _ (p : Processor) where
  -- promote, once the compare-and-swap is made.
  unfoldable pub promoted : Document → ℕ → Bool → Action (Unit {0})
  promoted doc version false = raise version_raced
  promoted doc version true = do
    mark_extraction_pending version
    enqueue_extraction p.env version
    if doc.current_content_version_id == 0
        then pure tt
        else enqueue_invalidate p.env doc.id doc.current_content_version_id

  -- promote, once the version is known.
  unfoldable pub flip : Document → ℕ → Action (Unit {0})
  unfolding promoted
  flip doc version = if doc.current_content_version_id == version then pure tt else (do
    swapped ← set_document_current_version doc.id doc.current_content_version_id version
    promoted doc version swapped)

  -- promote, once the observation is read again.
  unfoldable pub promote_current :
      ℕ → Bytes → Observation → Bytes → ℕ → Option Observation → Action (Unit {0})
  unfolding resolve_document flip same_file
  promote_current mountpoint_id path observed digest size none = pure tt
  promote_current mountpoint_id path observed digest size (some current) =
      if current.is_dir || not (same_file observed current) then pure tt else (do
        doc ← resolve_document mountpoint_id path current digest
        version ← upsert_content_version digest size
        flip doc version)

  -- errors.Is(err, errVersionRaced): the caller tries again.
  abbrev pub settled : Result (Unit {0}) × Conn Db → Result Bool × Conn Db
  settled (ok _, c) = (ok true, c)
  settled (err version_raced, c) = (ok false, c)
  settled (err e, c) = (err e, c)

  -- promote
  unfoldable pub promote : ℕ → Bytes → Observation → Bytes → ℕ → Action Bool
  unfolding promote_current
  promote mountpoint_id path observed digest size c = settled (
      in_tx
        (do
          current ← get_observation mountpoint_id path
          promote_current mountpoint_id path observed digest size current)
        c)

  -- The attempts left of ProcessPath.
  unfoldable pub promote_attempts : ℕ → ℕ → Bytes → Observation → Bytes → ℕ → Action (Unit {0})
  promote_attempts zero mountpoint_id path observed digest size = raise document_changed
  promote_attempts (suc n) mountpoint_id path observed digest size = do
    done ← promote mountpoint_id path observed digest size
    if done then pure tt else promote_attempts n mountpoint_id path observed digest size

  -- ProcessPath, once the file is hashed.
  unfoldable pub process_hashed : ℕ → Bytes → Observation → Hashed → Action (Unit {0})
  unfolding promote_attempts
  process_hashed mountpoint_id path observed not_exist = pure tt
  process_hashed mountpoint_id path observed (hashed digest size head) =
      elim (Doctype.content_type p.text p.filter path head) [
        | none ↦ pure tt
        | some _ ↦ promote_attempts 3 mountpoint_id path observed digest size
      ]

  -- ProcessPath, once the observation is read; `file` is what hash will report.
  unfoldable pub process_observed : ℕ → Bytes → Hashed → Option Observation → Action (Unit {0})
  unfolding process_hashed
  process_observed mountpoint_id path file none = pure tt
  process_observed mountpoint_id path file (some observed) =
      if observed.is_dir || not (Doctype.allow_path p.text p.filter path)
      then pure tt
      else (do ping; process_hashed mountpoint_id path observed file)

  -- ProcessPath
  unfoldable pub process_path : ℕ → Bytes → Hashed → Action (Unit {0})
  unfolding process_observed
  process_path mountpoint_id path file = do
    observed ← in_tx (get_observation mountpoint_id path)
    process_observed mountpoint_id path file observed
