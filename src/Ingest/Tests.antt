-- ===== src/Ingest/Tests.antt =====
-- A small library with one indexed file, on which the theorems of ingestion apply.
use hirame.Prelude.{
  base, trim_prefix, ext, bytes_eq, has_prefix, trim_slash, Lacks, not, ◌/◌, ◌*◌, ℕ, pos, max_ℤ,
  Bool, true, false, List, [], ◌∷◌, none, some, ◌≡◌, ◌≢◌, ◌⊎◌, inl, inr, refl, Bytes, codes, find?,
  arith,
}
use hirame.Doctype.{Filter, Text}
use hirame.Ingest.Types.{Observation, fault}
use hirame.Ingest.Tx.{ok, err, calm}
use hirame.Ingest.Tx.Ensures.{Settles}
use hirame.Ingest.Rows.{Db, Env, DocumentRow, VersionRow, observed_at}
use hirame.Ingest.Mountpoints.{Mountpoint}
use hirame.Ingest.Reconciler.{Reconciler, StatInfo, FileEvent, kind_move, apply_event}
use hirame.Ingest.Reconciler.Events.{Applied, apply_event_outcome, apply_event_replayed}
use hirame.Ingest.Scan.{Watcher, reconcile_root, reconcile_all}
use hirame.Ingest.Scan.Root.{Rescanned}
use hirame.Ingest.Scan.Roots.{reconcile_root_outcome, reconcile_all_outcome}
use hirame.Ingest.Processor.{Processor, hashed, process_path}
use hirame.Ingest.Processor.Attempts.{Brought}
use hirame.Ingest.Processor.Outcome.{offered, process_path_outcome}
use hirame.Ingest.Mountpoints.{contains, mountpoint_for, subtree_prefix}
use hirame.Ingest.Mountpoints.Deepest.{Deepest, mountpoint_for_lem}
use hirame.Ingest.Reconciler.{kind_delete, kind_create}
use hirame.Ingest.Reconciler.Delete.{Gone, delete_directory_lem}
use hirame.Ingest.Scan.{Scanned, changed, same_time, scanned_observation}
use hirame.Ingest.Scan.Rescan.{changed-upsert}
use hirame.Ingest.Tables.Observations as O
use hirame.Ingest.Tables.Observations.{stored}
use hirame.Doctype.{allow_path, extension_of}
use hirame.Ingest.Tx.{in_tx}
use hirame.Ingest.Rows.{to_document}
use hirame.Ingest.Reconciler.{move_file, allowed}
use hirame.Ingest.Reconciler.Rename.{rename_keeps_document}
use hirame.Ingest.Processor.Takes.{Resolved}
use hirame.Ingest.Consistent.{IsConsistent}

abbrev env : Env
env = record { enqueuer = record { bound = true; debounce = 2 }; column_time = λ t. t }

abbrev text : Text
text = record {
  to_lower = λ s. s;
  trim_space = λ s. s;
  detect_content_type = λ s. codes "text/plain; charset=utf-8";
}

abbrev filter : Filter
filter = record { allowed = codes "txt" ∷ codes "pdf" ∷ [] }

abbrev root : Mountpoint
root = record { id = 1; root = codes "/doc" }

abbrev reconciler : Reconciler
reconciler = record { mountpoints = root ∷ []; text = text; filter = filter; env = env }

abbrev processor : Processor
processor = record { env = env; text = text; filter = filter }

abbrev path : Bytes
path = codes "/doc/a.txt"

abbrev digest : Bytes
digest = 7 ∷ 7 ∷ []

abbrev stat : StatInfo
stat = record { size = 3; mode = 420; ino = 9; dev = 1; mtime = some 100 }

abbrev observation : Observation
observation = record {
  mountpoint_id = 1;
  path = path;
  size = 3;
  mode = 420;
  mtime = some 100;
  ino = 9;
  dev = 1;
  is_dir = false;
  seen_epoch = 0;
}

abbrev document : DocumentRow
document = record {
  id = 1;
  mountpoint_id = 1;
  path = path;
  dev = 1;
  ino = 9;
  current_content_version_id = some 1;
  deleted = false;
}

abbrev version : VersionRow
version = record { id = 1; content_hash = digest; size_bytes = 3 }

-- One file, indexed, at watermark 4.
abbrev db : Db
db = record {
  watermark = pos 4;
  scan_epoch = 2;
  observations = observation ∷ [];
  documents = document ∷ [];
  next_document_id = 2;
  versions = version ∷ [];
  next_version_id = 2;
  extractions = [];
  jobs = [];
}

db-IsConsistent : IsConsistent db
db-IsConsistent = record {
  paths = refl;
  ids = refl;
  fresh = (omega arith, tt);
  current = (refl, tt);
  keys = refl;
  version_ids = refl;
  hashes = refl;
  version_fresh = ((omega arith, omega arith), tt);
  next_version = omega arith;
}

-- The file is renamed, as event 5; the event was applied already at 3.
abbrev renamed : ℕ → FileEvent
renamed seq = record {
  seq = seq;
  kind = kind_move;
  path = codes "/doc/b.txt";
  old_path = path;
  is_dir = false;
  stat = some stat;
}

-- A file is created, as event 5.
abbrev created : FileEvent
created = record {
  seq = 5;
  kind = kind_create;
  path = codes "/doc/c.txt";
  old_path = [];
  is_dir = false;
  stat = some stat;
}

abbrev watcher : Watcher
watcher = record {
  ring_head_seq = 9;
  scan = λ _. some (record { path = path; stat = some stat } ∷ []) ∷ none ∷ [];
}

apply_event_outcome_example :
    Settles
      (λ _ s. IsConsistent s × Applied (renamed 5) s)
      (calm db)
      (apply_event reconciler (renamed 5) (calm db))
apply_event_outcome_example =
    apply_event_outcome reconciler refl (renamed 5) (calm db) db-IsConsistent

first_applied : (apply_event reconciler created (calm db)).0 ≡ ok tt
first_applied = elim (apply_event_outcome reconciler refl created (calm db) db-IsConsistent) [
  | inl (_, e, _) ↦ e
  | inr (_, _, n) ↦ absurd (n refl)
]

apply_event_replayed_example :
    apply_event reconciler created (calm (apply_event reconciler created (calm db)).1.state)
    ≡ (ok tt, calm (apply_event reconciler created (calm db)).1.state)
apply_event_replayed_example =
    apply_event_replayed reconciler refl created (calm db) db-IsConsistent first_applied

reconcile_root_outcome_example :
    Settles
      (λ _ s. IsConsistent s × Rescanned reconciler watcher root db 3 s)
      (calm db)
      (reconcile_root reconciler watcher root (calm db))
reconcile_root_outcome_example =
    reconcile_root_outcome reconciler refl watcher root (calm db) db-IsConsistent

reconcile_all_outcome_example :
    (((reconcile_all reconciler watcher (pos 9) (calm db)).0 ≡ ok tt)
      × IsConsistent (reconcile_all reconciler watcher (pos 9) (calm db)).1.state
      × ((reconcile_all reconciler watcher (pos 9) (calm db)).1.state.watermark
          ≡ max_ℤ (pos 4) (pos 9)))
    ⊎ (((reconcile_all reconciler watcher (pos 9) (calm db)).0 ≡ err fault)
        × IsConsistent (reconcile_all reconciler watcher (pos 9) (calm db)).1.state
        × ((reconcile_all reconciler watcher (pos 9) (calm db)).1.state.watermark ≡ pos 4)
        × (◌≢◌ {A = List Bool} [] []))
reconcile_all_outcome_example =
    reconcile_all_outcome reconciler refl watcher (pos 9) (calm db) db-IsConsistent

process_path_outcome_example :
    Settles
      (λ _ t.
        Brought 1 path db
          (offered processor path
            (hashed (8 ∷ []) 4 (65 ∷ []))
            (find? (observed_at 1 path) db.observations))
          t)
      (calm db)
      (process_path processor 1 path (hashed (8 ∷ []) 4 (65 ∷ [])) (calm db))
process_path_outcome_example =
    process_path_outcome processor refl 1 path (hashed (8 ∷ []) 4 (65 ∷ [])) (calm db)
      db-IsConsistent

abbrev nested : List Mountpoint
nested = root ∷ record { id = 2; root = codes "/doc/x" } ∷ []

mountpoint_for_lem_example :
    ((mountpoint_for nested (codes "/doc/x/a") ≡ none)
      × Lacks (λ m. contains m (codes "/doc/x/a")) nested)
    ⊎ ((mp : Mountpoint) × (mountpoint_for nested (codes "/doc/x/a") ≡ some mp)
        × Deepest (codes "/doc/x/a") nested mp)
mountpoint_for_lem_example = mountpoint_for_lem nested (codes "/doc/x/a")

-- A directory of the root goes away, as event 6.
abbrev removed : FileEvent
removed = record {
  seq = 6;
  kind = kind_delete;
  path = codes "/doc/x";
  old_path = [];
  is_dir = true;
  stat = none;
}

delete_directory_lem_example :
    Settles (λ _. Gone 1 (codes "/doc/x")) (calm db) (apply_event reconciler removed (calm db))
unfolding mountpoint_for contains bytes_eq has_prefix subtree_prefix trim_slash
delete_directory_lem_example =
    delete_directory_lem reconciler refl removed root (calm db) refl refl refl refl

-- A column of whole microseconds.
abbrev microseconds : Env
microseconds = record { enqueuer = env.enqueuer; column_time = λ t. t / 1000 * 1000 }

abbrev scanned : Scanned
scanned = record { path = path; stat = some (record stat { mtime = some 1001 }) }

changed-upsert_example :
    changed
      (find?
        (observed_at 1 path)
        (O.upsert_observation microseconds
          (scanned_observation reconciler 1 scanned 1)
          db).1.observations)
      (scanned_observation reconciler 1 scanned 2)
    ≡ not (
        same_time
          (stored microseconds (scanned_observation reconciler 1 scanned 1)).mtime
          (scanned_observation reconciler 1 scanned 2).mtime)
changed-upsert_example = changed-upsert microseconds reconciler 1 scanned 1 2 db

allowed_new : allowed reconciler (codes "/doc/b.txt") ≡ true
unfolding allow_path extension_of has_prefix base bytes_eq trim_prefix ext
allowed_new = refl

rename_keeps_document_example :
    Settles
      (λ _. Resolved 1 (codes "/doc/b.txt") (to_document document))
      (calm db)
      (in_tx (move_file reconciler 1 path (codes "/doc/b.txt") (some stat)) (calm db))
unfolding bytes_eq
rename_keeps_document_example =
    rename_keeps_document reconciler refl 1 path (codes "/doc/b.txt") document (some stat)
      allowed_new (calm db) db-IsConsistent refl
