-- ===== src/Ingest/Scan/Root.antt =====
-- The rescan of one root in its transaction (reconcileRoot): what it leaves in the tables.
use hirame.Prelude.{
  ℕ, true, List, ◌≡◌, ◌⊎◌, inl, inr, refl, sym, subst, Lacks, Lacks-reject, Option, none, some,
  Bytes, bytes_eq, bytes_eq_iff, All, All-weaken, All-has, has, reject,
}
use hirame.Ingest.Tx.{◌>>=◌, ◌>>◌}
use hirame.Ingest.Tx.Ensures.{Ensures, Ensures-statement, Ensures-bind, Ensures-weaken}
use hirame.Ingest.Rows.{Db}
use hirame.Ingest.Mountpoints.{Mountpoint, subtree_prefix}
use hirame.Ingest.Tables.Observations as O
use hirame.Ingest.Tables.Observations.{unseen}
use hirame.Ingest.Queries.{sweep_scan_epoch}
use hirame.Ingest.Reconciler.{Reconciler}
use hirame.Ingest.Scan.{Watcher, receive_scan, tombstone_gone}
use hirame.Ingest.Consistent.{IsConsistent}
use hirame.Ingest.Consistent.Observations.{others-IsConsistent, reject-IsConsistent}
use hirame.Ingest.Keeps.{Nothing}
use hirame.Ingest.Scan.Batches.{Scanning, SeenUnder, SeenItem, Ensures-receive_scan}
use hirame.Ingest.Scan.Gone.{Ensures-tombstone_gone}
use hirame.Ingest.Scan.Recorded.{
  in_root, Kept, Kept-sweep, has-seen_swept, has-upsert_row_other, observed_at-same_key,
}
use hirame.Ingest.Consistent.Observations.{upsert-IsConsistent}
use hirame.Ingest.Types.{Observation}
use hirame.Ingest.Rows.{same_key, live_at}
use hirame.Ingest.Tables.Observations.{stored}
use hirame.Ingest.Reconciler.{resolve}
use hirame.Ingest.Scan.{ScanItem}

-- No row of the root's mountpoint, at or under the root, is of another scan than this one.
abbrev pub Swept : Mountpoint → ℕ → Db → Type 0
Swept mp epoch s = Lacks (unseen mp.id mp.root (subtree_prefix mp.root) epoch) s.observations

-- No document is live at the path.
abbrev Deserted : ℕ → Bytes → Db → Type 0
Deserted mp path s = Lacks (live_at mp path) s.documents

-- The row is still there; or it was one of the root, and no document is live at its path.
abbrev pub KeptOrGone : Mountpoint → Db → Observation → Type 0
KeptOrGone mp s o =
    (has (same_key o) s.observations ≡ true) ⊎ ((in_root mp o ≡ true) × Deserted mp.id o.path s)

-- The rows are all still there.
abbrev pub Remembers : Db → Db → Type 0
Remembers before s = All (λ o. has (same_key o) s.observations ≡ true) before.observations

module _ (r : Reconciler) (w : Watcher) (mp : Mountpoint) (before : Db) (epoch : ℕ) where
  abbrev Reported : Db → Type 0
  Reported s = All (λ item. SeenItem r epoch item s.observations) (w.scan mp.root)

  -- What a rescan of the root leaves, from the tables before it.
  pub record Rescanned (s : Db) : Type 0 where
    pub reported : All (λ item. SeenItem r epoch item s.observations) (w.scan mp.root)
    pub swept : Swept mp epoch s
    pub accounted : All (KeptOrGone mp s) before.observations

  SeenUnder-sweep :
      (o : Option Mountpoint) (path : Bytes) (rows : List Observation)
      → SeenUnder r epoch o path rows
      → SeenUnder r epoch o path (reject (unseen mp.id mp.root (subtree_prefix mp.root) epoch) rows)
  SeenUnder-sweep none path rows h = tt
  SeenUnder-sweep (some m) path rows h = has-seen_swept mp.id mp.root _ m.id path epoch rows h

  SeenItem-sweep :
      (item : ScanItem) (rows : List Observation)
      → SeenItem r epoch item rows
      → SeenItem r epoch item (reject (unseen mp.id mp.root (subtree_prefix mp.root) epoch) rows)
  SeenItem-sweep none rows h = tt
  SeenItem-sweep (some batch) rows h =
      All-weaken _ _ (λ obs. SeenUnder-sweep (resolve r obs.path) obs.path rows) batch h

  Scanning-Remembers : Scanning r epoch (λ s. IsConsistent s × Remembers before s)
  unfolding O.upsert_observation
  Scanning-Remembers = record {
    jobs = λ s j p. (others-IsConsistent s _ _ _ j p.0, p.1);
    upserts = λ s o e p. (
      upsert-IsConsistent r.env o s p.0,
      All-weaken (λ k. has (same_key k) s.observations ≡ true) _
          (λ k.
            has-upsert_row_other (same_key k) (stored r.env o)
              (λ x. observed_at-same_key k.mountpoint_id k.path (stored r.env o) x) s.observations)
          before.observations p.1,
    );
  }

  -- The rows after a sweep that reported these paths.
  abbrev AfterSweep : List Bytes → Db → Type 0
  AfterSweep gone s =
      Reported s × Swept mp epoch s × All (λ o. Kept mp o s.observations gone) before.observations

  Ensures-sweep :
      Ensures
        (λ s. (IsConsistent s × Remembers before s) × Reported s)
        (sweep_scan_epoch mp.id mp.root (subtree_prefix mp.root) epoch)
        (λ gone s. IsConsistent s × AfterSweep gone s)
        Nothing
  unfolding sweep_scan_epoch O.sweep_scan_epoch
  Ensures-sweep =
      Ensures-statement _
        (λ s p. (
          _,
          refl,
          (
            reject-IsConsistent _ s p.0.0,
            (
              All-weaken _ _ (λ item. SeenItem-sweep item s.observations) (w.scan mp.root) p.1,
              Lacks-reject _ s.observations,
              All-weaken _ _ (λ o. Kept-sweep mp epoch o s.observations) before.observations p.0.1,
            ),
          ),
        ))
        (λ _ _. tt)

  gone_path :
      (s : Db) (o : Observation) (gone : List Bytes)
      → All (λ path. Deserted mp.id path s) gone
      → Kept mp o s.observations gone
      → KeptOrGone mp s o
  gone_path s o gone g (inl k) = inl k
  gone_path s o gone g (inr (i, h)) =
      let (path, e, lacks) = All-has (λ path. Deserted mp.id path s) (bytes_eq o.path) gone g h in
      inr (i, subst (λ q. Deserted mp.id q s) (sym ((bytes_eq_iff o.path path).0 e)) lacks)

  module _ (bound : r.env.enqueuer.bound ≡ true) where
    Ensures-gone :
        (gone : List Bytes)
        → Ensures
            (λ s. IsConsistent s × AfterSweep gone s)
            (tombstone_gone r mp.id gone)
            (λ _ s. IsConsistent s × Rescanned s)
            Nothing
    Ensures-gone gone =
        Ensures-weaken _ (λ s p. p)
          (λ _ s p. (
            p.0,
            record {
              reported = p.1.0.0;
              swept = p.1.0.1;
              accounted =
                  All-weaken _ _ (λ o. gone_path s o gone p.1.1) before.observations p.1.0.2;
            },
          ))
          (Ensures-tombstone_gone r bound mp.id gone (AfterSweep gone)
            (record { jobs = λ s j p. p; tombstones = λ s q p. p }))

    pub Ensures-scanned :
        Ensures
          (λ s. IsConsistent s × Remembers before s)
          (do
            receive_scan r (w.scan mp.root) epoch
            gone ← sweep_scan_epoch mp.id mp.root (subtree_prefix mp.root) epoch
            tombstone_gone r mp.id gone)
          (λ _ s. IsConsistent s × Rescanned s)
          Nothing
    Ensures-scanned =
        Ensures-bind (λ _ s. (IsConsistent s × Remembers before s) × Reported s)
          (Ensures-receive_scan r epoch bound (w.scan mp.root) _ Scanning-Remembers)
          (λ _. Ensures-bind AfterSweepOf Ensures-sweep Ensures-gone)
      where
        AfterSweepOf : List Bytes → Db → Type 0
        AfterSweepOf gone s = IsConsistent s × AfterSweep gone s
