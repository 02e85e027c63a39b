-- ===== src/Ingest/Reconciler.antt =====
-- The event half of reconciler.go: one event of the watcher applied to the database.
pub mod Keeps
pub mod MoveFile
pub mod MoveDirectory
pub mod Events
pub mod Delete
pub mod Rename
use hirame.Prelude.{
  ℕ, ℤ, to_int64, leb_ℤ, Bool, true, false, ◌&&◌, ◌||◌, not, List, [], ◌∷◌, Option, none, some,
  Bytes, ◌==◌, if◌then◌else◌,
}
use hirame.Doctype
use hirame.Doctype.{Filter, Text}
use hirame.Ingest.Types.{Observation, Document, Trigger, trigger_debounced, trigger_settled}
use hirame.Ingest.Tx.{pure, ◌>>=◌, ◌>>◌, in_tx}
use hirame.Ingest.Rows.{Db, Env}
use hirame.Ingest.Mountpoints.{Mountpoint, subtree_prefix, mountpoint_for}
use hirame.Ingest.Queries.{
  Action, watermark, set_watermark, upsert_observation, delete_observation,
  delete_observation_subtree, move_observation_subtree, find_live_document_by_path, move_document,
  move_document_subtree, tombstone_document, tombstone_document_by_path, tombstone_document_subtree,
  enqueue_ingest, enqueue_invalidate,
}

-- overwatchv1.StatInfo; `mtime` is `none` when the message has none.
pub record StatInfo : Type 0 where
  pub size : ℕ
  pub mode : ℕ
  pub ino : ℕ
  pub dev : ℕ
  pub mtime : Option ℕ

-- overwatchv1.EventKind
pub data EventKind : Type 0 where
  kind_create kind_modify kind_close_write kind_attrib kind_delete kind_move kind_other : EventKind

-- overwatchv1.FileEvent
pub record FileEvent : Type 0 where
  pub seq : ℕ
  pub kind : EventKind
  pub path : Bytes
  pub old_path : Bytes
  pub is_dir : Bool
  pub stat : Option StatInfo

-- Reconciler, with what its store and its filter reach.
pub record Reconciler : Type 0 where
  pub mountpoints : List Mountpoint
  pub text : Text
  pub filter : Filter
  pub env : Env

-- observationOf
unfoldable pub observation_of : ℕ → Bytes → Option StatInfo → Bool → ℕ → Observation
observation_of mountpoint_id path none is_dir epoch = record {
  mountpoint_id = mountpoint_id;
  path = path;
  size = 0;
  mode = 0;
  mtime = none;
  ino = 0;
  dev = 0;
  is_dir = is_dir;
  seen_epoch = epoch;
}
observation_of mountpoint_id path (some stat) is_dir epoch = record {
  mountpoint_id = mountpoint_id;
  path = path;
  size = stat.size;
  mode = stat.mode;
  mtime = stat.mtime;
  ino = stat.ino;
  dev = stat.dev;
  is_dir = is_dir;
  seen_epoch = epoch;
}

-- statDev and statIno: the getters answer 0 on a missing message.
abbrev pub stat_dev : Option StatInfo → ℕ
stat_dev none = 0
stat_dev (some stat) = stat.dev

abbrev pub stat_ino : Option StatInfo → ℕ
stat_ino none = 0
stat_ino (some stat) = stat.ino

module _ (r : Reconciler) where
  abbrev pub resolve : Bytes → Option Mountpoint
  resolve path = mountpoint_for r.mountpoints path

  abbrev pub allowed : Bytes → Bool
  allowed path = Doctype.allow_path r.text r.filter path

  -- invalidate
  unfoldable pub invalidate : Document → Action (Unit {0})
  invalidate doc =
      if doc.current_content_version_id == 0
      then pure tt
      else enqueue_invalidate r.env doc.id doc.current_content_version_id

  -- invalidateAll
  unfoldable pub invalidate_all : List Document → Action (Unit {0})
  invalidate_all [] = pure tt
  invalidate_all (doc ∷ docs) = do invalidate doc; invalidate_all docs

  -- observeOnly
  unfoldable pub observe_only : Bytes → Option StatInfo → Bool → Action (Unit {0})
  observe_only path stat is_dir = elim (resolve path) [
    | none ↦ pure tt
    | some mp ↦ upsert_observation r.env (observation_of mp.id path stat is_dir 0)
  ]

  -- observe
  unfoldable pub observe : Bytes → Option StatInfo → Bool → Trigger → Action (Unit {0})
  observe path stat is_dir trigger = elim (resolve path) [
    | none ↦ pure tt
    | some mp ↦ (do
      observe_only path stat is_dir
      if is_dir || not (allowed path) then pure tt else enqueue_ingest r.env mp.id path trigger)
  ]

  -- The document branch of applyDelete.
  unfoldable pub invalidate_found : Option Document → Action (Unit {0})
  invalidate_found none = pure tt
  invalidate_found (some doc) = invalidate doc

  -- applyDelete
  unfoldable pub apply_delete : Bytes → Bool → Action (Unit {0})
  apply_delete path is_dir = elim (resolve path) [
    | none ↦ pure tt
    | some mp ↦ (do
      delete_observation mp.id path
      if is_dir
          then (do
            delete_observation_subtree mp.id (subtree_prefix path)
            docs ← tombstone_document_subtree mp.id (subtree_prefix path)
            invalidate_all docs)
          else (do doc ← tombstone_document_by_path mp.id path; invalidate_found doc))
  ]

  -- Of moveFile: the document at the destination of a rename is destroyed by it.
  unfoldable pub replace_existing : Document → Option Document → Action (Unit {0})
  replace_existing moved none = pure tt
  replace_existing moved (some existing) =
      if existing.id == moved.id
      then pure tt
      else (do tombstone_document existing.id; invalidate existing)

  -- The end of moveFile.
  unfoldable pub enqueue_allowed : ℕ → Bytes → Action (Unit {0})
  enqueue_allowed mountpoint_id path =
      if allowed path then enqueue_ingest r.env mountpoint_id path trigger_settled else pure tt

  -- moveFile, from the lookup of the source on.
  unfoldable pub move_found : ℕ → Bytes → Option StatInfo → Option Document → Action (Unit {0})
  move_found mountpoint_id new_path stat none = enqueue_allowed mountpoint_id new_path
  move_found mountpoint_id new_path stat (some moved) = do
    existing ← find_live_document_by_path mountpoint_id new_path
    replace_existing moved existing
    if allowed new_path
        then (do
          move_document moved.id new_path (stat_dev stat) (stat_ino stat)
          enqueue_allowed mountpoint_id new_path)
        else (do tombstone_document moved.id; invalidate moved)

  -- moveFile
  unfoldable pub move_file : ℕ → Bytes → Bytes → Option StatInfo → Action (Unit {0})
  move_file mountpoint_id old_path new_path stat = do
    delete_observation mountpoint_id old_path
    upsert_observation r.env (observation_of mountpoint_id new_path stat false 0)
    moved ← find_live_document_by_path mountpoint_id old_path
    move_found mountpoint_id new_path stat moved

  -- moveDirectory
  unfoldable pub move_directory : ℕ → Bytes → Bytes → Option StatInfo → Action (Unit {0})
  move_directory mountpoint_id old_path new_path stat = do
    delete_observation mountpoint_id new_path
    delete_observation_subtree mountpoint_id (subtree_prefix new_path)
    replaced ← tombstone_document_subtree mountpoint_id (subtree_prefix new_path)
    invalidate_all replaced
    move_observation_subtree mountpoint_id (subtree_prefix old_path) (subtree_prefix new_path)
    delete_observation mountpoint_id old_path
    upsert_observation r.env (observation_of mountpoint_id new_path stat true 0)
    docs ← move_document_subtree mountpoint_id (subtree_prefix old_path) (subtree_prefix new_path)
    pure tt

  -- applyMove, by the roots of its two ends.
  unfoldable pub move_between :
      FileEvent → Option Mountpoint → Option Mountpoint → Action (Unit {0})
  move_between ev (some old_mp) none = apply_delete ev.old_path ev.is_dir
  move_between ev none (some new_mp) = observe ev.path ev.stat ev.is_dir trigger_settled
  move_between ev none none = pure tt
  move_between ev (some old_mp) (some new_mp) =
      if old_mp.id == new_mp.id
      then (if ev.is_dir
          then move_directory new_mp.id ev.old_path ev.path ev.stat
          else move_file new_mp.id ev.old_path ev.path ev.stat)
      else (do
        apply_delete ev.old_path ev.is_dir
        observe ev.path ev.stat ev.is_dir trigger_settled)

  -- applyMove
  unfoldable pub apply_move : FileEvent → Action (Unit {0})
  apply_move ev = move_between ev (resolve ev.old_path) (resolve ev.path)

  -- applyKind
  unfoldable pub apply_kind : FileEvent → Action (Unit {0})
  apply_kind ev = elim ev.kind [
    | kind_create ↦ observe ev.path ev.stat ev.is_dir trigger_debounced
    | kind_modify ↦ observe ev.path ev.stat ev.is_dir trigger_debounced
    | kind_close_write ↦ observe ev.path ev.stat ev.is_dir trigger_settled
    | kind_attrib ↦ observe_only ev.path ev.stat ev.is_dir
    | kind_delete ↦ apply_delete ev.path ev.is_dir
    | kind_move ↦ apply_move ev
    | kind_other ↦ pure tt
  ]

  -- The body of ApplyEvent once the watermark is read.
  unfoldable pub apply_after : FileEvent → ℤ → Action (Unit {0})
  apply_after ev mark =
      if leb_ℤ (to_int64 ev.seq) mark
      then pure tt
      else (do apply_kind ev; set_watermark (to_int64 ev.seq))

  -- ApplyEvent
  unfoldable pub apply_event : FileEvent → Action (Unit {0})
  unfolding apply_after
  apply_event ev = in_tx (do mark ← watermark; apply_after ev mark)
