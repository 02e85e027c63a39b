-- ===== src/Ingest/Scan/Roots.antt =====
-- The rescan of one root and of all roots: what it leaves behind, and what a failure leaves.
use hirame.Prelude.{
  ℕ, ◌+◌, ℤ, max_ℤ, true, List, [], ◌∷◌, ◌≡◌, ◌≢◌, ◌⊎◌, inl, inr, refl, ap, sym, subst, has, All,
  All-self, bytes_eq_refl, arith,
}
use hirame.Ingest.Types.{fault}
use hirame.Ingest.Tx.{ok, err, Conn, ◌>>=◌, ◌>>◌}
use hirame.Ingest.Tx.Ensures.{
  Ensures, Ensures-pure, Ensures-statement, Ensures-bind, Ensures-ping, Ensures-in_tx,
  Ensures-exact, Settles, Settles-of, Outcome-weaken, Outcome-cases,
}
use hirame.Ingest.Tx.{roll_back}
use hirame.Ingest.Tx.Rollback.{RolledBack, RolledBack-of_same, roll_back-RolledBack}
use hirame.Ingest.Rows.{Db}
use hirame.Ingest.Mountpoints.{Mountpoint, subtree_prefix}
use hirame.Ingest.Tables.Observations as O
use hirame.Ingest.Tables.Observations.{unseen}
use hirame.Ingest.Queries.{set_watermark, next_scan_epoch, sweep_scan_epoch}
use hirame.Ingest.Reconciler.{Reconciler}
use hirame.Ingest.Scan.{
  Watcher, receive_scan, tombstone_gone, reconcile_root, reconcile_roots, reconcile_all,
}
use hirame.Ingest.Consistent.{IsConsistent}
use hirame.Ingest.Consistent.Rollback.{RolledBack-IsConsistent}
use hirame.Ingest.Consistent.Observations.{others-IsConsistent}
use hirame.Ingest.Keeps.{Nothing}
use hirame.Ingest.Watermark.{Ensures-mark, FixesMark-reconcile_roots}
use hirame.Ingest.Scan.Root.{Remembers, Rescanned, Ensures-scanned}
use hirame.Ingest.Types.{Observation}
use hirame.Ingest.Rows.{same_key}

remembers : (rows : List Observation) → All (λ o. has (same_key o) rows ≡ true) rows
remembers rows = All-self same_key (λ o. ground (arith, bytes_eq_refl o.path)) rows

module _ (r : Reconciler) (bound : r.env.enqueuer.bound ≡ true) where
  Ensures-next_epoch :
      (before : Db)
      → IsConsistent before
      → Ensures
          (λ s. s ≡ before)
          next_scan_epoch
          (λ epoch s. (epoch ≡ before.scan_epoch + 1) × (IsConsistent s × Remembers before s))
          Nothing
  unfolding next_scan_epoch O.next_scan_epoch
  Ensures-next_epoch before c =
      Ensures-statement _
        (λ s e. (
          _,
          refl,
          (
            ap (λ t. t.scan_epoch + 1) e,
            (
              others-IsConsistent s _ _ _ _ (subst IsConsistent (sym e) c),
              subst (Remembers before) (sym e) (remembers before.observations),
            ),
          ),
        ))
        (λ _ _. tt)

  Ensures-epoch :
      (w : Watcher) (mp : Mountpoint) (before : Db) (n epoch : ℕ)
      → epoch ≡ n
      → Ensures
          (λ s. IsConsistent s × Remembers before s)
          (do
            receive_scan r (w.scan mp.root) epoch
            gone ← sweep_scan_epoch mp.id mp.root (subtree_prefix mp.root) epoch
            tombstone_gone r mp.id gone)
          (λ _ s. IsConsistent s × Rescanned r w mp before n s)
          Nothing
  Ensures-epoch w mp before n epoch e = rw (← e) (Ensures-scanned r w mp before epoch bound)

  Ensures-reconcile_root :
      (w : Watcher) (mp : Mountpoint) (s : Db)
      → IsConsistent s
      → Ensures
          (λ t. t ≡ s)
          (reconcile_root r w mp)
          (λ _ t. IsConsistent t × Rescanned r w mp s (s.scan_epoch + 1) t)
          (RolledBack s)
  unfolding reconcile_root
  Ensures-reconcile_root w mp s c =
      Ensures-bind (λ _ t. t ≡ s) (Ensures-ping _ (λ t e. RolledBack-of_same s t e))
        (λ _.
          Ensures-exact (λ t. t ≡ s) _ _ s
            (Ensures-bind _ (Ensures-next_epoch s c)
              (λ epoch. record { at = λ conn p. (Ensures-epoch w mp s _ epoch p.0).at conn p.1 }))
            refl)

  -- A rescan of one root, from consistent tables, with a River client bound. Either it returns with
  -- consistent tables, and then each path that the scan reported is recorded with the epoch that
  -- this scan drew, under the watched root that it belongs to, if any; every row of this root's
  -- mountpoint at or under the root has that epoch (a nested root has its own mountpoint); and
  -- every row of before is still there, or it was of this mountpoint, at or under the root, and no
  -- document of the mountpoint is live at its path. Or a call of the environment failed, and the
  -- tables are as they were, the sequences no lower.
  pub reconcile_root_outcome :
      (w : Watcher) (mp : Mountpoint) (c : Conn Db)
      → IsConsistent c.state
      → Settles
          (λ _ s. IsConsistent s × Rescanned r w mp c.state (c.state.scan_epoch + 1) s)
          c
          (reconcile_root r w mp c)
  reconcile_root_outcome w mp c k =
      Settles-of _ (reconcile_root r w mp) c (Ensures-reconcile_root w mp c.state k)

  Ensures-root :
      (w : Watcher) (mp : Mountpoint)
      → Ensures IsConsistent (reconcile_root r w mp) (λ _. IsConsistent) IsConsistent
  Ensures-root w mp = record {
    at = λ c k.
        Outcome-weaken (λ _ t. IsConsistent t × Rescanned r w mp c.state (c.state.scan_epoch + 1) t)
          _ (RolledBack c.state) IsConsistent (λ _ t p. p.0)
          (λ t b. RolledBack-IsConsistent c.state t b k) c.faults (reconcile_root r w mp c)
          ((Ensures-reconcile_root w mp c.state k).at c refl);
  }

  Ensures-roots :
      (w : Watcher) (mps : List Mountpoint)
      → Ensures IsConsistent (reconcile_roots r w mps) (λ _. IsConsistent) IsConsistent
  unfolding reconcile_roots
  Ensures-roots w [] = Ensures-pure tt (λ s c. c)
  Ensures-roots w (mp ∷ mps) =
      Ensures-bind (λ _. IsConsistent) (Ensures-root w mp) (λ _. Ensures-roots w mps)

  abbrev Marked : ℤ → Db → Type 0
  Marked mark s = IsConsistent s × (s.watermark ≡ mark)

  roll_back-Marked : (mark : ℤ) (s t : Db) → Marked mark s → Marked mark (roll_back s t)
  unfolding roll_back
  roll_back-Marked mark s t p = (RolledBack-IsConsistent s _ (roll_back-RolledBack s t) p.0, p.1)

  Ensures-set :
      (mark head : ℤ)
      → Ensures (Marked mark) (set_watermark head) (λ _. Marked (max_ℤ mark head)) Nothing
  unfolding set_watermark O.set_watermark
  Ensures-set mark head =
      Ensures-statement _
        (λ s p. (tt, refl, (others-IsConsistent s _ _ _ _ p.0, ap (λ m. max_ℤ m head) p.1)))
        (λ _ _. tt)

  pub Ensures-reconcile_all :
      (w : Watcher) (head mark : ℤ)
      → Ensures (Marked mark) (reconcile_all r w head) (λ _. Marked (max_ℤ mark head)) (Marked mark)
  unfolding reconcile_all
  Ensures-reconcile_all w head mark =
      Ensures-bind (λ _. Marked mark)
        (Ensures-mark mark (Ensures-roots w r.mountpoints)
          (FixesMark-reconcile_roots r w r.mountpoints))
        (λ _. Ensures-in_tx (Marked mark) (roll_back-Marked mark) (Ensures-set mark head))

  -- A rescan of every root, from consistent tables, with a River client bound: it returns with the
  -- watermark raised to the ring head, or a call failed, and then the watermark is what it was, so
  -- that the rescan is due again. The tables are consistent either way.
  pub reconcile_all_outcome :
      (w : Watcher) (head : ℤ) (c : Conn Db)
      → IsConsistent c.state
      → (((reconcile_all r w head c).0 ≡ ok tt)
          × IsConsistent (reconcile_all r w head c).1.state
          × ((reconcile_all r w head c).1.state.watermark ≡ max_ℤ c.state.watermark head))
        ⊎ (((reconcile_all r w head c).0 ≡ err fault)
            × IsConsistent (reconcile_all r w head c).1.state
            × ((reconcile_all r w head c).1.state.watermark ≡ c.state.watermark)
            × (c.faults ≢ []))
  reconcile_all_outcome w head c k =
      elim (Outcome-cases _ _ c.faults (reconcile_all r w head c)
        ((Ensures-reconcile_all w head c.state.watermark).at c (k, refl))) [
          | inl (a, e, q) ↦ inl (e, q.0, q.1)
          | inr (e, q, n) ↦ inr (e, q.0, q.1, n)
        ]
