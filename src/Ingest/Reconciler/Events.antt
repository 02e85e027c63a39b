-- ===== src/Ingest/Reconciler/Events.antt =====
-- One event: what ApplyEvent leaves behind, and that a replayed event is dropped.
use hirame.Prelude.{
  ℤ, to_int64, leb_ℤ, leb-max_ℤ_right, true, Option, none, some, ◌≡◌, inl, inr, refl, ◌==◌,
}
use hirame.Ingest.Tx.{ok, Conn, calm, statement, in_tx}
use hirame.Ingest.Tx.Ensures.{
  Ensures, Ensures-pure, Ensures-statement, Ensures-bind, Ensures-if, Ensures-weaken, Settles,
  in_tx-Settles,
}
use hirame.Ingest.Rows.{Db}
use hirame.Ingest.Mountpoints.{Mountpoint}
use hirame.Ingest.Tables.Observations as O
use hirame.Ingest.Queries.{watermark, set_watermark}
use hirame.Ingest.Reconciler.{
  Reconciler, FileEvent, EventKind, kind_create, kind_modify, kind_close_write, kind_attrib,
  kind_delete, kind_move, kind_other, move_between, apply_move, apply_kind, apply_after,
  apply_event,
}
use hirame.Ingest.Consistent.{IsConsistent}
use hirame.Ingest.Consistent.Observations.{others-IsConsistent}
use hirame.Ingest.Keeps.{Keeps, Nothing, Keeps-pure, Keeps-bind, Keeps-if}
use hirame.Ingest.Reconciler.Keeps.{Keeps-observe_only, Keeps-observe, Keeps-apply_delete}
use hirame.Ingest.Reconciler.MoveFile.{Keeps-move_file}
use hirame.Ingest.Reconciler.MoveDirectory.{Keeps-move_directory}

-- The event with this sequence number is accounted for.
abbrev pub Applied : FileEvent → Db → Type 0
Applied ev s = leb_ℤ (to_int64 ev.seq) s.watermark ≡ true

module _ (r : Reconciler) (bound : r.env.enqueuer.bound ≡ true) where
  Keeps-move_between :
      (ev : FileEvent) (old new : Option Mountpoint) → Keeps (move_between r ev old new)
  unfolding move_between
  Keeps-move_between ev none none = Keeps-pure tt
  Keeps-move_between ev none (some new) = Keeps-observe r bound _ _ _ _
  Keeps-move_between ev (some old) none = Keeps-apply_delete r bound _ _
  Keeps-move_between ev (some old) (some new) =
      Keeps-if (old.id == new.id)
        (Keeps-if ev.is_dir (Keeps-move_directory r bound _ _ _ _)
          (Keeps-move_file r bound _ _ _ _))
        (Keeps-bind (Keeps-apply_delete r bound _ _) (λ _. Keeps-observe r bound _ _ _ _))

  Keeps-kind : (ev : FileEvent) (k : EventKind) → ev.kind ≡ k → Keeps (apply_kind r ev)
  unfolding apply_kind apply_move
  Keeps-kind ev kind_create e = rw (e, apply_kind) (Keeps-observe r bound _ _ _ _)
  Keeps-kind ev kind_modify e = rw (e, apply_kind) (Keeps-observe r bound _ _ _ _)
  Keeps-kind ev kind_close_write e = rw (e, apply_kind) (Keeps-observe r bound _ _ _ _)
  Keeps-kind ev kind_attrib e = rw (e, apply_kind) (Keeps-observe_only r bound _ _ _)
  Keeps-kind ev kind_delete e = rw (e, apply_kind) (Keeps-apply_delete r bound _ _)
  Keeps-kind ev kind_move e = rw (e, apply_kind) (Keeps-move_between ev _ _)
  Keeps-kind ev kind_other e = rw (e, apply_kind) (Keeps-pure tt)

  pub Keeps-apply_kind : (ev : FileEvent) → Keeps (apply_kind r ev)
  Keeps-apply_kind ev = Keeps-kind ev ev.kind refl

  Ensures-mark :
      (ev : FileEvent)
      → Ensures IsConsistent
          (set_watermark (to_int64 ev.seq))
          (λ _ s. IsConsistent s × Applied ev s)
          Nothing
  unfolding set_watermark O.set_watermark
  Ensures-mark ev =
      Ensures-statement _
        (λ s c. (tt, refl, (others-IsConsistent s _ _ _ _ c, leb-max_ℤ_right s.watermark _)))
        (λ _ _. tt)

  Ensures-apply_after :
      (ev : FileEvent) (mark : ℤ)
      → Ensures
          (λ s. IsConsistent s × (mark ≡ s.watermark))
          (apply_after r ev mark)
          (λ _ s. IsConsistent s × Applied ev s)
          Nothing
  unfolding apply_after
  Ensures-apply_after ev mark =
      Ensures-if (leb_ℤ (to_int64 ev.seq) mark)
        (λ old. Ensures-pure tt (λ s p. (p.0, rw (← p.1) old)))
        (λ new.
          Ensures-bind (λ _. IsConsistent)
            (Ensures-weaken _ (λ s p. p.0) (λ _ s c. c) (Keeps-apply_kind ev))
            (λ _. Ensures-mark ev))

  Ensures-watermark :
      Ensures IsConsistent watermark (λ mark s. IsConsistent s × (mark ≡ s.watermark)) Nothing
  unfolding watermark
  Ensures-watermark = Ensures-statement _ (λ s c. (s.watermark, refl, (c, refl))) (λ _ _. tt)

  -- ApplyEvent on consistent tables, whatever the event, with a River client bound: it returns with
  -- consistent tables and a watermark not below the event's sequence number, or a call of the
  -- environment failed, and the tables are as they were, the sequences no lower. No uniqueness
  -- constraint and no missing row makes it fail.
  pub apply_event_outcome :
      (ev : FileEvent) (c : Conn Db)
      → IsConsistent c.state
      → Settles (λ _ s. IsConsistent s × Applied ev s) c (apply_event r ev c)
  unfolding apply_event
  apply_event_outcome ev c k =
      in_tx-Settles IsConsistent _ _ c
        (Ensures-bind (λ mark s. IsConsistent s × (mark ≡ s.watermark)) Ensures-watermark
          (Ensures-apply_after ev))
        k

  apply_event_again :
      (ev : FileEvent) (s : Db) → Applied ev s → apply_event r ev (calm s) ≡ (ok tt, calm s)
  unfolding apply_event watermark in_tx statement
  apply_event_again ev s old = rw (old, apply_event)

  -- From consistent tables, with a River client bound: where ApplyEvent of an event returned,
  -- ApplyEvent of the same event again, while no call fails, returns and changes nothing.
  pub apply_event_replayed :
      (ev : FileEvent) (c : Conn Db)
      → IsConsistent c.state
      → (apply_event r ev c).0 ≡ ok tt
      → apply_event r ev (calm (apply_event r ev c).1.state)
        ≡ (ok tt, calm (apply_event r ev c).1.state)
  apply_event_replayed ev c k e = elim (apply_event_outcome ev c k) [
    | inl (_, _, q) ↦ apply_event_again ev (apply_event r ev c).1.state q.1
    | inr (f, _, _) ↦ absurd (cc)
  ]
