-- ===== src/Ingest/Scan/Gone.antt =====
-- The sweep loop of a rescan: no document stays live at a path that is gone.
use hirame.Prelude.{
  ℕ, Bool, true, List, [], ◌∷◌, Option, none, some, ◌≡◌, refl, Bytes, Lacks, All, All-of,
  All-update, update_where, arith,
}
use hirame.Ingest.Types.{Document}
use hirame.Ingest.Tx.Ensures.{
  Ensures, Ensures-pure, Ensures-statement, Ensures-bind, Ensures-weaken,
}
use hirame.Ingest.Rows.{Db, DocumentRow, live_at}
use hirame.Ingest.Tables.Documents as D
use hirame.Ingest.Tables.Documents.{tombstoned}
use hirame.Ingest.Queries.{tombstone_document_by_path}
use hirame.Ingest.Reconciler.{Reconciler, invalidate_found}
use hirame.Ingest.Scan.{tombstone_gone}
use hirame.Ingest.Consistent.{IsConsistent}
use hirame.Ingest.Consistent.Documents.{tombstone-IsConsistent}
use hirame.Ingest.Consistent.Observations.{others-IsConsistent}
use hirame.Ingest.Keeps.{Nothing, IgnoresJobs}
use hirame.Ingest.Reconciler.Keeps.{Ensures-invalidate}

module _ (r : Reconciler) (bound : r.env.enqueuer.bound ≡ true) where
  -- A claim that tombstones and jobs do not touch.
  pub record Stable (P : Db → Type 0) : Type 0 where
    pub jobs : IgnoresJobs P
    pub tombstones :
        (s : Db) (q : DocumentRow → Bool)
        → P s
        → P (record s { documents = update_where q tombstoned s.documents })

  module _ (mp : ℕ) where
    abbrev pub Gone : Bytes → Db → Type 0
    Gone path s = Lacks (live_at mp path) s.documents

    Ensures-tombstone :
        (P : Db → Type 0) (stable : Stable P) (path : Bytes)
        → Ensures
            (λ s. IsConsistent s × P s)
            (tombstone_document_by_path mp path)
            (λ _ s. IsConsistent s × (P s × Gone path s))
            Nothing
    unfolding tombstone_document_by_path D.tombstone_by_path
    Ensures-tombstone P stable path =
        Ensures-statement _
          (λ s p. (
            _,
            refl,
            (
              tombstone-IsConsistent (live_at mp path) s p.0,
              (
                stable.tombstones s (live_at mp path) p.1,
                All-update {0, 0, 0} (λ _. Unit) _ (live_at mp path) tombstoned
                    (λ x _ _. ground arith) (λ x e _. e) s.documents
                    (All-of (λ _. Unit) (λ _. tt) s.documents),
              ),
            ),
          ))
          (λ _ _. tt)

    Stable-and_Gone : (P : Db → Type 0) (path : Bytes) → Stable P → Stable (λ s. P s × Gone path s)
    Stable-and_Gone P path stable = record {
      jobs = λ s j p. (stable.jobs s j p.0, p.1);
      tombstones = λ s q p. (
        stable.tombstones s q p.0,
        All-update _ _ q tombstoned (λ x _ _. ground arith) (λ x _ h. h) s.documents p.1,
      );
    }

    Ensures-invalidate_found :
        (P : Db → Type 0)
        → Stable P
        → (o : Option Document)
        → Ensures
            (λ s. IsConsistent s × P s)
            (invalidate_found r o)
            (λ _ s. IsConsistent s × P s)
            Nothing
    unfolding invalidate_found
    Ensures-invalidate_found P stable none = Ensures-pure tt (λ s p. p)
    Ensures-invalidate_found P stable (some doc) =
        Ensures-invalidate r bound (λ s. IsConsistent s × P s)
          (λ s j p. (others-IsConsistent s _ _ _ j p.0, stable.jobs s j p.1)) doc

    -- No document is left live at a path that the sweep reported.
    pub Ensures-tombstone_gone :
        (paths : List Bytes) (P : Db → Type 0)
        → Stable P
        → Ensures
            (λ s. IsConsistent s × P s)
            (tombstone_gone r mp paths)
            (λ _ s. IsConsistent s × (P s × All (λ path. Gone path s) paths))
            Nothing
    unfolding tombstone_gone
    Ensures-tombstone_gone [] P stable = Ensures-pure tt (λ s p. (p.0, (p.1, tt)))
    Ensures-tombstone_gone (path ∷ paths) P stable =
        Ensures-bind (λ _ s. IsConsistent s × (P s × Gone path s)) (Ensures-tombstone P stable path)
          (λ doc.
            Ensures-bind (λ _ s. IsConsistent s × (P s × Gone path s))
              (Ensures-invalidate_found _ (Stable-and_Gone P path stable) doc)
              (λ _.
                Ensures-weaken _ (λ s p. p) (λ _ s p. (p.0, (p.1.0.0, (p.1.0.1, p.1.1))))
                  (Ensures-tombstone_gone paths (λ s. P s × Gone path s)
                    (Stable-and_Gone P path stable))))
