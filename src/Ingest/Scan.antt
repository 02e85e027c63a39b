-- ===== src/Ingest/Scan.antt =====
-- The rescan half of reconciler.go: one root, all roots, and the subscription that calls for it.
-- Each call of the watcher may fail, as each statement may.
pub mod Recorded
pub mod Batches
pub mod Gone
pub mod Root
pub mod Roots
pub mod Rescan
use hirame.Prelude.{
  ℕ, zero, suc, ◌+◌, ◌/◌, ◌%◌, ◌^◌, ℤ, pos, negsuc, to_int64, to_uint64, Bool, true, false, ◌&&◌,
  ◌||◌, not, List, [], ◌∷◌, Option, none, some, Bytes, ◌==◌, if◌then◌else◌,
}
use hirame.Ingest.Types.{Observation, Document, trigger_settled}
use hirame.Ingest.Tx.{pure, ping, ◌>>=◌, ◌>>◌, in_tx}
use hirame.Ingest.Mountpoints.{Mountpoint, subtree_prefix}
use hirame.Ingest.Queries.{
  Action, watermark, set_watermark, next_scan_epoch, get_observation, upsert_observation,
  sweep_scan_epoch, find_live_document_by_path, tombstone_document_by_path, enqueue_ingest,
}
use hirame.Ingest.Reconciler.{
  Reconciler, StatInfo, FileEvent, observation_of, resolve, allowed, invalidate_found, apply_event,
}

-- overwatchv1.Observation
pub record Scanned : Type 0 where
  pub path : Bytes
  pub stat : Option StatInfo

-- What one Recv of a scan stream brings before its end: a batch, or an item with none.
abbrev pub ScanItem : Type 0
ScanItem = Option (List Scanned)

-- The watcher at one moment: the head of its ring, and what a walk of a root brings.
pub record Watcher : Type 0 where
  pub ring_head_seq : ℕ
  pub scan : Bytes → List ScanItem

-- What one Recv of a subscription brings before its end: an event, or a gap with the watcher as it
-- is then. The stream ends with io.EOF or a cancellation, which both end `drive` cleanly.
pub data Item : Type 0 where
  item_event : FileEvent → Item
  item_gap : Watcher → Item

-- next.Mode&int64(fs.ModeDir) != 0, with fs.ModeDir = 1 << 31
unfoldable pub mode_is_dir : ℕ → Bool
mode_is_dir mode = (mode / 2 ^ 31) % 2 == 1

-- Time.Equal on two mtimes.
unfoldable pub same_time : Option ℕ → Option ℕ → Bool
same_time none none = true
same_time none (some b) = false
same_time (some a) none = false
same_time (some a) (some b) = a == b

-- changed, of observeScanned
unfoldable pub changed : Option Observation → Observation → Bool
unfolding same_time
changed none next = true
changed (some prior) next = not (prior.size == next.size) || not (same_time prior.mtime next.mtime)

module _ (r : Reconciler) where
  -- The observation that observeScanned records.
  unfoldable pub scanned_observation : ℕ → Scanned → ℕ → Observation
  unfolding observation_of mode_is_dir
  scanned_observation mountpoint_id obs epoch =
      let next = observation_of mountpoint_id obs.path obs.stat false epoch in
      record next { is_dir = mode_is_dir next.mode }

  -- The end of observeScanned: `changed` of the file is false.
  unfoldable pub enqueue_unless_document : ℕ → Bytes → Option Document → Action Bool
  enqueue_unless_document mountpoint_id path none = do
    enqueue_ingest r.env mountpoint_id path trigger_settled
    pure true
  enqueue_unless_document mountpoint_id path (some doc) = pure false

  -- observeScanned, once the observation is stored.
  unfoldable pub enqueue_scanned : ℕ → Bytes → Option Observation → Observation → Action Bool
  unfolding enqueue_unless_document
  enqueue_scanned mountpoint_id path prior next =
      if next.is_dir || not (allowed r path)
      then pure false
      else if changed prior next
      then (do enqueue_ingest r.env mountpoint_id path trigger_settled; pure true)
      else (do
        doc ← find_live_document_by_path mountpoint_id path
        enqueue_unless_document mountpoint_id path doc)

  -- observeScanned
  unfoldable pub observe_scanned : Scanned → ℕ → Action Bool
  unfolding enqueue_scanned scanned_observation
  observe_scanned obs epoch = elim (resolve r obs.path) [
    | none ↦ pure false
    | some mp ↦ (do
      prior ← get_observation mp.id obs.path
      upsert_observation r.env (scanned_observation mp.id obs epoch)
      enqueue_scanned mp.id obs.path prior (scanned_observation mp.id obs epoch))
  ]

  -- The batch loop of reconcileRoot. Its counters are only logged.
  unfoldable pub observe_batch : List Scanned → ℕ → Action (Unit {0})
  observe_batch [] epoch = pure tt
  observe_batch (obs ∷ rest) epoch = do
    enqueued ← observe_scanned obs epoch
    observe_batch rest epoch

  -- The receive loop of reconcileRoot; the last Recv answers io.EOF.
  unfoldable pub receive_scan : List ScanItem → ℕ → Action (Unit {0})
  receive_scan [] epoch = ping
  receive_scan (none ∷ items) epoch = do ping; receive_scan items epoch
  receive_scan (some batch ∷ items) epoch = do
    ping
    observe_batch batch epoch
    receive_scan items epoch

  -- The sweep loop of reconcileRoot.
  unfoldable pub tombstone_gone : ℕ → List Bytes → Action (Unit {0})
  tombstone_gone mountpoint_id [] = pure tt
  tombstone_gone mountpoint_id (path ∷ paths) = do
    doc ← tombstone_document_by_path mountpoint_id path
    invalidate_found r doc
    tombstone_gone mountpoint_id paths

  -- reconcileRoot; the first call is watcher.Scan.
  unfoldable pub reconcile_root : Watcher → Mountpoint → Action (Unit {0})
  reconcile_root w mp = do
    ping
    in_tx (do
      epoch ← next_scan_epoch
      receive_scan (w.scan mp.root) epoch
      gone ← sweep_scan_epoch mp.id mp.root (subtree_prefix mp.root) epoch
      tombstone_gone mp.id gone)

  -- The loop of reconcileAll over the mountpoints.
  unfoldable pub reconcile_roots : Watcher → List Mountpoint → Action (Unit {0})
  reconcile_roots w [] = pure tt
  reconcile_roots w (mp ∷ mps) = do reconcile_root w mp; reconcile_roots w mps

  -- reconcileAll
  unfoldable pub reconcile_all : Watcher → ℤ → Action (Unit {0})
  reconcile_all w head = do reconcile_roots w r.mountpoints; in_tx (set_watermark head)

  -- ringHead
  unfoldable pub ring_head : Watcher → Action ℤ
  ring_head w = do ping; pure (to_int64 w.ring_head_seq)

  -- drive
  unfoldable pub drive : List Item → Action (Unit {0})
  drive [] = ping
  drive (item_event ev ∷ items) = do ping; apply_event r ev; drive items
  drive (item_gap w ∷ items) = do ping; head ← ring_head w; reconcile_all w head; drive items

  -- Of runOnce: with a watermark of 0 every root is scanned first; the result is the sequence that
  -- the subscription goes on from.
  unfoldable pub bootstrap : Watcher → ℤ → Action ℤ
  bootstrap w (pos zero) = do head ← ring_head w; reconcile_all w head; pure head
  bootstrap w mark = pure mark

  -- runOnce. `subscribe` is what the subscription from a sequence number brings.
  unfoldable pub run_once : Watcher → (ℕ → List Item) → Action (Unit {0})
  run_once w subscribe = do
    mark ← in_tx watermark
    from ← bootstrap w mark
    ping
    drive (subscribe ((to_uint64 from + 1) % 2 ^ 64))
