-- ===== src/Ingest/Scan/Batches.antt =====
-- The batches of a rescan: every step of one keeps the tables consistent, and leaves a row for each
-- path that the scan reported.
use hirame.Prelude.{
  ℕ, true, false, not, ◌||◌, List, [], ◌∷◌, Option, none, some, ◌≡◌, inl, inr, refl, arith, Bytes,
  bytes_eq_iff, Option-cases, has, All,
}
use hirame.Ingest.Types.{Observation, Document, trigger_settled}
use hirame.Ingest.Tx.Ensures.{
  Ensures, Ensures-pure, Ensures-statement, Ensures-bind, Ensures-if, Ensures-ping, Ensures-weaken,
}
use hirame.Ingest.Rows.{Db}
use hirame.Ingest.Mountpoints.{Mountpoint}
use hirame.Ingest.Tables.Observations as O
use hirame.Ingest.Tables.Observations.{stored}
use hirame.Ingest.Tables.Documents as D
use hirame.Ingest.Queries.{get_observation, upsert_observation, find_live_document_by_path}
use hirame.Ingest.Reconciler.{Reconciler, StatInfo, observation_of, resolve, allowed}
use hirame.Ingest.Scan.{
  Scanned, ScanItem, changed, scanned_observation, enqueue_unless_document, enqueue_scanned,
  observe_scanned, observe_batch, receive_scan,
}
use hirame.Ingest.Scan.Recorded.{
  seen_at, has-upsert_row, has-upsert_row_other, observed_at-same_key,
}
use hirame.Ingest.Keeps.{Nothing, IgnoresJobs, Ensures-enqueue_ingest}

module _ (r : Reconciler) (epoch : ℕ) where
  -- A claim that the upserts of this scan, and jobs, do not touch.
  pub record Scanning (P : Db → Type 0) : Type 0 where
    pub jobs : IgnoresJobs P
    pub upserts :
        (s : Db) (o : Observation)
        → o.seen_epoch ≡ epoch
        → P s
        → P (O.upsert_observation r.env o s).1

  -- The path is recorded as seen by this scan, under the root that it belongs to, if any.
  abbrev pub SeenUnder : Option Mountpoint → Bytes → List Observation → Type 0
  SeenUnder none path rows = Unit
  SeenUnder (some mp) path rows = has (seen_at mp.id path epoch) rows ≡ true

  abbrev pub Seen : Scanned → List Observation → Type 0
  Seen obs rows = SeenUnder (resolve r obs.path) obs.path rows

  abbrev pub SeenItem : ScanItem → List Observation → Type 0
  SeenItem none rows = Unit
  SeenItem (some batch) rows = All (λ obs. Seen obs rows) batch

  upsert-SeenUnder :
      (o : Option Mountpoint) (path : Bytes) (s : Db) (next : Observation)
      → next.seen_epoch ≡ epoch
      → SeenUnder o path s.observations
      → SeenUnder o path (O.upsert_observation r.env next s).1.observations
  unfolding O.upsert_observation stored
  upsert-SeenUnder none path s next e h = tt
  upsert-SeenUnder (some mp) path s next e h =
      has-upsert_row_other (seen_at mp.id path epoch) (stored r.env next)
        (λ x k q. ground (arith, e, observed_at-same_key mp.id path (stored r.env next) x k))
        s.observations h

  Scanning-and_Seen :
      (P : Db → Type 0) (obs : Scanned) → Scanning P → Scanning (λ s. P s × Seen obs s.observations)
  Scanning-and_Seen P obs scanning = record {
    jobs = λ s j p. (scanning.jobs s j p.0, p.1);
    upserts = λ s o e p.
        (scanning.upserts s o e p.0, upsert-SeenUnder (resolve r obs.path) obs.path s o e p.1);
  }

  module _ (bound : r.env.enqueuer.bound ≡ true) where
    Ensures-unless :
        (P : Db → Type 0)
        → IgnoresJobs P
        → (mp : ℕ) (path : Bytes) (o : Option Document)
        → Ensures P (enqueue_unless_document r mp path o) (λ _. P) Nothing
    unfolding enqueue_unless_document
    Ensures-unless P free mp path none =
        Ensures-bind (λ _. P) (Ensures-enqueue_ingest r.env bound P free mp path trigger_settled)
          (λ _. Ensures-pure true (λ s p. p))
    Ensures-unless P free mp path (some doc) = Ensures-pure false (λ s p. p)

    Ensures-enqueue_scanned :
        (P : Db → Type 0)
        → IgnoresJobs P
        → (mp : ℕ) (path : Bytes) (prior : Option Observation) (next : Observation)
        → Ensures P (enqueue_scanned r mp path prior next) (λ _. P) Nothing
    unfolding enqueue_scanned find_live_document_by_path D.find_live_by_path
    Ensures-enqueue_scanned P free mp path prior next =
        Ensures-if (next.is_dir || not (allowed r path)) (λ _. Ensures-pure false (λ s p. p))
          (λ _.
            Ensures-if (changed prior next)
              (λ _.
                Ensures-bind (λ _. P)
                  (Ensures-enqueue_ingest r.env bound P free mp path trigger_settled)
                  (λ _. Ensures-pure true (λ s p. p)))
              (λ _.
                Ensures-bind (λ _. P) (Ensures-statement _ (λ s p. (_, refl, p)) (λ _ _. tt))
                  (Ensures-unless P free mp path)))

    scanned_key :
        (mp : ℕ) (obs : Scanned)
        → ((scanned_observation r mp obs epoch).mountpoint_id ≡ mp)
          × ((scanned_observation r mp obs epoch).path ≡ obs.path)
          × ((scanned_observation r mp obs epoch).seen_epoch ≡ epoch)
    unfolding scanned_observation observation_of
    scanned_key mp obs = of_stat obs.stat
      where
        of_stat :
            (stat : Option StatInfo)
            → ((observation_of mp obs.path stat false epoch).mountpoint_id ≡ mp)
              × ((observation_of mp obs.path stat false epoch).path ≡ obs.path)
              × ((observation_of mp obs.path stat false epoch).seen_epoch ≡ epoch)
        of_stat none = (refl, refl, refl)
        of_stat (some stat) = (refl, refl, refl)

    Ensures-upsert :
        (P : Db → Type 0)
        → Scanning P
        → (mp : ℕ) (obs : Scanned)
        → Ensures P
            (upsert_observation r.env (scanned_observation r mp obs epoch))
            (λ _ s. P s × (has (seen_at mp obs.path epoch) s.observations ≡ true))
            Nothing
    unfolding upsert_observation O.upsert_observation stored
    Ensures-upsert P scanning mp obs =
        let (id, path, seen) = scanned_key mp obs in
        Ensures-statement _
          (λ s p. (
            tt,
            refl,
            (
              scanning.upserts s _ seen p,
              has-upsert_row (seen_at mp obs.path epoch)
                  (stored r.env (scanned_observation r mp obs epoch)) s.observations
                  (ground (
                    arith,
                    id,
                    seen,
                    bytes_eq_iff (scanned_observation r mp obs epoch).path obs.path,
                    path,
                  )),
            ),
          ))
          (λ _ _. tt)

    Ensures-observe_scanned :
        (P : Db → Type 0)
        → Scanning P
        → (obs : Scanned)
        → Ensures P (observe_scanned r obs epoch) (λ _ s. P s × Seen obs s.observations) Nothing
    unfolding observe_scanned get_observation O.get_observation
    Ensures-observe_scanned P scanning obs = elim (Option-cases (resolve r obs.path)) [
      | inl e ↦ rw (e, observe_scanned) (Ensures-pure false (λ s p. (p, tt)))
      | inr (mp, e) ↦
          rw (e, observe_scanned)
            (Ensures-bind (λ _. P) (Ensures-statement _ (λ s p. (_, refl, p)) (λ _ _. tt))
              (λ prior. Ensures-bind _ (Ensures-upsert P scanning mp.id obs) (λ _.
                Ensures-enqueue_scanned _ (λ s j p. (scanning.jobs s j p.0, p.1)) mp.id obs.path
                  prior _)))
    ]

    Ensures-observe_batch :
        (batch : List Scanned) (P : Db → Type 0)
        → Scanning P
        → Ensures P
            (observe_batch r batch epoch)
            (λ _ s. P s × All (λ obs. Seen obs s.observations) batch)
            Nothing
    unfolding observe_batch
    Ensures-observe_batch [] P scanning = Ensures-pure tt (λ s p. (p, tt))
    Ensures-observe_batch (obs ∷ rest) P scanning =
        Ensures-bind (λ _ s. P s × Seen obs s.observations) (Ensures-observe_scanned P scanning obs)
          (λ _.
            Ensures-weaken _ (λ s p. p) (λ _ s p. (p.0.0, (p.0.1, p.1)))
              (Ensures-observe_batch rest (λ s. P s × Seen obs s.observations)
                (Scanning-and_Seen P obs scanning)))

    Scanning-and_batch :
        (batch : List Scanned) (P : Db → Type 0)
        → Scanning P
        → Scanning (λ s. P s × All (λ obs. Seen obs s.observations) batch)
    Scanning-and_batch [] P scanning = record {
      jobs = λ s j p. (scanning.jobs s j p.0, tt);
      upserts = λ s o e p. (scanning.upserts s o e p.0, tt);
    }
    Scanning-and_batch (obs ∷ rest) P scanning =
        let both =
          Scanning-and_batch rest (λ s. P s × Seen obs s.observations)
            (Scanning-and_Seen P obs scanning) in
        record {
          jobs = λ s j p. let ((a, b), c) = both.jobs s j ((p.0, p.1.0), p.1.1) in (a, (b, c));
          upserts =
              λ s o e p. let ((a, b), c) = both.upserts s o e ((p.0, p.1.0), p.1.1) in (a, (b, c));
        }

    -- Every path that the scan reported under a watched root is recorded as seen by it.
    pub Ensures-receive_scan :
        (items : List ScanItem) (P : Db → Type 0)
        → Scanning P
        → Ensures P
            (receive_scan r items epoch)
            (λ _ s. P s × All (λ item. SeenItem item s.observations) items)
            Nothing
    unfolding receive_scan
    Ensures-receive_scan [] P scanning =
        Ensures-weaken _ (λ s p. p) (λ _ s p. (p, tt)) (Ensures-ping {P = P} _ (λ _ _. tt))
    Ensures-receive_scan (none ∷ items) P scanning =
        Ensures-bind (λ _. P) (Ensures-ping _ (λ _ _. tt))
          (λ _.
            Ensures-weaken _ (λ s p. p) (λ _ s p. (p.0, (tt, p.1)))
              (Ensures-receive_scan items P scanning))
    Ensures-receive_scan (some batch ∷ items) P scanning =
        Ensures-bind (λ _. P) (Ensures-ping _ (λ _ _. tt))
          (λ _. Ensures-bind _ (Ensures-observe_batch batch P scanning) (λ _.
            Ensures-weaken _ (λ s p. p) (λ _ s p. (p.0.0, (p.0.1, p.1)))
              (Ensures-receive_scan items _ (Scanning-and_batch batch P scanning))))
