-- ===== src/Ingest/Reconciler/Delete.antt =====
-- What a deleted directory leaves of the mountpoint that it resolves to: neither an observation at
-- or under it nor a live document under it.
use hirame.Prelude.{
  ℕ, ℤ, to_int64, leb_ℤ, true, false, some, ◌≡◌, refl, arith, Bytes, Lacks, Lacks-reject,
  All-select, All-update, All-of,
}
use hirame.Ingest.Tx.{Conn}
use hirame.Ingest.Tx.Ensures.{Ensures, Ensures-statement, Ensures-bind, Settles, in_tx-Settles}
use hirame.Ingest.Rows.{Db, observed_at, observed_under, live_under}
use hirame.Ingest.Mountpoints.{Mountpoint, subtree_prefix}
use hirame.Ingest.Tables.Observations as O
use hirame.Ingest.Tables.Documents as D
use hirame.Ingest.Tables.Documents.{tombstoned}
use hirame.Ingest.Queries.{
  watermark, set_watermark, delete_observation, delete_observation_subtree,
  tombstone_document_subtree,
}
use hirame.Ingest.Reconciler.{
  Reconciler, FileEvent, kind_delete, resolve, apply_delete, apply_kind, apply_after, apply_event,
}
use hirame.Ingest.Keeps.{Nothing}
use hirame.Ingest.Reconciler.Keeps.{Ensures-invalidate_all}

module _ (mp : ℕ) (path : Bytes) where
  abbrev pub Unobserved : Db → Type 0
  Unobserved s =
      Lacks (observed_at mp path) s.observations
      × Lacks (observed_under mp (subtree_prefix path)) s.observations

  -- Of the mountpoint nothing is observed at or under the path, and nothing under it is live.
  abbrev pub Gone : Db → Type 0
  Gone s = Unobserved s × Lacks (live_under mp (subtree_prefix path)) s.documents

  Ensures-delete_observation :
      Ensures
        (λ _. Unit {0})
        (delete_observation mp path)
        (λ _ s. Lacks (observed_at mp path) s.observations)
        Nothing
  unfolding delete_observation O.delete_observation
  Ensures-delete_observation =
      Ensures-statement _ (λ s _. (tt, refl, Lacks-reject _ s.observations)) (λ _ _. tt)

  Ensures-delete_subtree :
      Ensures
        (λ s. Lacks (observed_at mp path) s.observations)
        (delete_observation_subtree mp (subtree_prefix path))
        (λ _. Unobserved)
        Nothing
  unfolding delete_observation_subtree O.delete_observation_subtree
  Ensures-delete_subtree =
      Ensures-statement _
        (λ s h. (tt, refl, (All-select _ _ s.observations h, Lacks-reject _ s.observations)))
        (λ _ _. tt)

  Ensures-tombstone_subtree :
      Ensures Unobserved (tombstone_document_subtree mp (subtree_prefix path)) (λ _. Gone) Nothing
  unfolding tombstone_document_subtree D.tombstone_subtree
  Ensures-tombstone_subtree =
      Ensures-statement _
        (λ s h. (
          _,
          refl,
          (
            h,
            All-update {0, 0, 0} (λ _. Unit) _ (live_under mp (subtree_prefix path)) tombstoned
                (λ x _ _. ground arith) (λ x e _. e) s.documents
                (All-of (λ _. Unit) (λ _. tt) s.documents),
          ),
        ))
        (λ _ _. tt)

module _ (r : Reconciler) (bound : r.env.enqueuer.bound ≡ true) where
  Ensures-delete_directory :
      (path : Bytes) (mp : Mountpoint)
      → resolve r path ≡ some mp
      → Ensures (λ _. Unit {0}) (apply_delete r path true) (λ _. Gone mp.id path) Nothing
  unfolding apply_delete
  Ensures-delete_directory path mp e =
      rw (e, apply_delete)
        (Ensures-bind _ (Ensures-delete_observation mp.id path) (λ _.
          Ensures-bind _ (Ensures-delete_subtree mp.id path) (λ _.
            Ensures-bind _ (Ensures-tombstone_subtree mp.id path)
              (Ensures-invalidate_all r bound (Gone mp.id path) (λ s jobs h. h)))))

  module _ (ev : FileEvent) (mp : Mountpoint) where
    Ensures-set :
        (P : Db → Type 0)
        → ((s : Db) (mark : ℤ) → P s → P (record s { watermark = mark }))
        → (seq : ℤ) → Ensures P (set_watermark seq) (λ _. P) Nothing
    unfolding set_watermark O.set_watermark
    Ensures-set P free seq = Ensures-statement _ (λ s p. (tt, refl, free s _ p)) (λ _ _. tt)

    Ensures-delete_after :
        ev.kind ≡ kind_delete
        → ev.is_dir ≡ true
        → resolve r ev.path ≡ some mp
        → (mark : ℤ) → leb_ℤ (to_int64 ev.seq) mark ≡ false
        → Ensures (λ _. Unit {0}) (apply_after r ev mark) (λ _. Gone mp.id ev.path) Nothing
    unfolding apply_after apply_kind
    Ensures-delete_after k d e mark new =
        rw (new, k, d, apply_kind)
          (Ensures-bind _ (Ensures-delete_directory ev.path mp e)
            (λ _. Ensures-set (Gone mp.id ev.path) (λ s m h. h) _))

    Ensures-read :
        (mark : ℤ) → Ensures (λ s. s.watermark ≡ mark) watermark (λ m _. m ≡ mark) Nothing
    unfolding watermark
    Ensures-read mark = Ensures-statement _ (λ s e. (s.watermark, refl, e)) (λ _ _. tt)

    -- The deletion of a directory in a watched root, not applied before, with a River client bound:
    -- it returns with no row of that root's mountpoint observed at or under the directory, and no
    -- live document of the mountpoint under it, or a call of the environment failed, and the tables
    -- are as they were, the sequences no lower. Of the mountpoint of a root nested under the
    -- directory it says nothing.
    pub delete_directory_lem :
        (c : Conn Db)
        → ev.kind ≡ kind_delete
        → ev.is_dir ≡ true
        → resolve r ev.path ≡ some mp
        → leb_ℤ (to_int64 ev.seq) c.state.watermark ≡ false
        → Settles (λ _. Gone mp.id ev.path) c (apply_event r ev c)
    unfolding apply_event
    delete_directory_lem c k d e new =
        in_tx-Settles (λ s. s.watermark ≡ c.state.watermark) _ _ c
          (Ensures-bind (λ m _. m ≡ c.state.watermark) (Ensures-read c.state.watermark)
            (λ m. record { at = λ conn h. (Ensures-delete_after k d e m (rw h new)).at conn tt }))
          refl
