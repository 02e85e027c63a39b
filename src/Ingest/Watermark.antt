-- ===== src/Ingest/Watermark.antt =====
-- Which actions leave the watermark as it is, whether they return or fail.
use hirame.Prelude.{
  ℕ, ℤ, Bool, true, false, List, [], ◌∷◌, Option, none, some, ◌≡◌, refl, ◌∙◌, ◌==◌, Bytes,
  Option-cases, inl, inr, if◌then◌else◌, not, ◌||◌,
}
use hirame.Jobs.Enqueuer.{Insertion}
use hirame.Ingest.Types.{Observation, Document, Trigger, trigger_settled}
use hirame.Ingest.Tx.{
  Result, ok, err, Conn, pure, statement, continue, settle, roll_back, ◌>>=◌, ◌>>◌, ping, in_tx,
}
use hirame.Ingest.Tx.Ensures.{Ensures, Outcome}
use hirame.Ingest.Rows.{Db}
use hirame.Ingest.Mountpoints.{Mountpoint}
use hirame.Ingest.Tables.Observations as O
use hirame.Ingest.Tables.Documents as D
use hirame.Ingest.Queries.{
  Action, next_scan_epoch, get_observation, upsert_observation, sweep_scan_epoch,
  find_live_document_by_path, tombstone_document_by_path, enqueue_ingest, enqueue_invalidate,
  inserted,
}
use hirame.Ingest.Reconciler.{Reconciler, resolve, allowed, invalidate, invalidate_found}
use hirame.Ingest.Scan.{
  Watcher, Scanned, ScanItem, enqueue_unless_document, enqueue_scanned, observe_scanned,
  observe_batch, receive_scan, tombstone_gone, reconcile_root, reconcile_roots, changed,
  scanned_observation,
}

pub record FixesMark {A : Type 0} (m : Action A) : Type 0 where
  pub at : (c : Conn Db) → (m c).1.state.watermark ≡ c.state.watermark

FixesMark-pure : {A : Type 0} (a : A) → FixesMark (pure a)
FixesMark-pure a = record { at = λ c. refl }

FixesMark-statement :
    {A : Type 0} (f : Db → Result A × Db)
    → ((s : Db) → (f s).1.watermark ≡ s.watermark)
    → FixesMark (statement f)
unfolding statement
FixesMark-statement f h = record { at = λ c. at c.state c.faults }
  where
    at :
        (s : Db) (fs : List Bool)
        → (statement f (record { state = s; faults = fs })).1.state.watermark ≡ s.watermark
    at s [] = h s
    at s (true ∷ fs) = refl
    at s (false ∷ fs) = h s

continue-mark :
    {A B : Type 0} (f : A → Action B)
    → ((a : A) → FixesMark (f a))
    → (r : Result A × Conn Db) → (continue r f).1.state.watermark ≡ r.1.state.watermark
continue-mark f h (ok a, c) = (h a).at c
continue-mark f h (err e, c) = refl

FixesMark-bind :
    {A B : Type 0} {m : Action A} {f : A → Action B}
    → FixesMark m
    → ((a : A) → FixesMark (f a))
    → FixesMark (m >>= f)
FixesMark-bind {m} {f} hm hf = record { at = λ c. continue-mark f hf (m c) ∙ hm.at c }

FixesMark-if :
    {A : Type 0} (b : Bool) {m n : Action A}
    → FixesMark m
    → FixesMark n
    → FixesMark (if b then m else n)
FixesMark-if true hm hn = hm
FixesMark-if false hm hn = hn

settle-mark :
    {A : Type 0} (s : Db) (r : Result A × Conn Db)
    → r.1.state.watermark ≡ s.watermark
    → (settle s r).1.state.watermark ≡ s.watermark
unfolding roll_back
settle-mark s (ok a, c) h = h
settle-mark s (err e, c) h = refl

FixesMark-ping : FixesMark ping
unfolding ping
FixesMark-ping = FixesMark-statement (λ s. (ok tt, s)) (λ s. refl)

FixesMark-in_tx : {A : Type 0} {m : Action A} → FixesMark m → FixesMark (in_tx m)
unfolding in_tx
FixesMark-in_tx {m} hm = record { at = λ c. settle-mark c.state _ (body.at c) }
  where
    body : FixesMark (do ping; a ← m; ping; pure a)
    body =
        FixesMark-bind FixesMark-ping
          (λ _. FixesMark-bind hm (λ a. FixesMark-bind FixesMark-ping (λ _. FixesMark-pure a)))

inserted-mark : (o : Option Insertion) (s : Db) → (inserted o s).1.watermark ≡ s.watermark
unfolding inserted
inserted-mark none s = refl
inserted-mark (some i) s = refl

module _ (r : Reconciler) where
  FixesMark-enqueue :
      (mp : ℕ) (path : Bytes) (t : Trigger) → FixesMark (enqueue_ingest r.env mp path t)
  unfolding enqueue_ingest
  FixesMark-enqueue mp path t = FixesMark-statement _ (inserted-mark _)

  FixesMark-invalidate_found : (o : Option Document) → FixesMark (invalidate_found r o)
  unfolding invalidate_found invalidate enqueue_invalidate
  FixesMark-invalidate_found none = FixesMark-pure tt
  FixesMark-invalidate_found (some doc) =
      FixesMark-if (doc.current_content_version_id == 0) (FixesMark-pure tt)
        (FixesMark-statement _ (inserted-mark _))

  FixesMark-unless :
      (mp : ℕ) (path : Bytes) (o : Option Document)
      → FixesMark (enqueue_unless_document r mp path o)
  unfolding enqueue_unless_document
  FixesMark-unless mp path none =
      FixesMark-bind (FixesMark-enqueue mp path trigger_settled) (λ _. FixesMark-pure true)
  FixesMark-unless mp path (some doc) = FixesMark-pure false

  FixesMark-enqueue_scanned :
      (mp : ℕ) (path : Bytes) (prior : Option Observation) (next : Observation)
      → FixesMark (enqueue_scanned r mp path prior next)
  unfolding enqueue_scanned find_live_document_by_path D.find_live_by_path
  FixesMark-enqueue_scanned mp path prior next =
      FixesMark-if (next.is_dir || not (allowed r path)) (FixesMark-pure false) (
        FixesMark-if (changed prior next)
          (FixesMark-bind (FixesMark-enqueue mp path trigger_settled) (λ _. FixesMark-pure true))
          (FixesMark-bind (FixesMark-statement _ (λ s. refl)) (FixesMark-unless mp path)))

  FixesMark-observe_scanned : (obs : Scanned) (epoch : ℕ) → FixesMark (observe_scanned r obs epoch)
  unfolding observe_scanned get_observation upsert_observation O.get_observation
      O.upsert_observation
  FixesMark-observe_scanned obs epoch = elim (Option-cases (resolve r obs.path)) [
    | inl e ↦ rw (e, observe_scanned) (FixesMark-pure false)
    | inr (mp, e) ↦
        rw (e, observe_scanned)
          (FixesMark-bind (FixesMark-statement _ (λ s. refl)) (λ prior.
            FixesMark-bind (FixesMark-statement _ (λ s. refl)) (λ _.
              FixesMark-enqueue_scanned mp.id obs.path prior
                (scanned_observation r mp.id obs epoch))))
  ]

  FixesMark-observe_batch :
      (batch : List Scanned) (epoch : ℕ) → FixesMark (observe_batch r batch epoch)
  unfolding observe_batch
  FixesMark-observe_batch [] epoch = FixesMark-pure tt
  FixesMark-observe_batch (obs ∷ rest) epoch =
      FixesMark-bind (FixesMark-observe_scanned obs epoch) (λ _. FixesMark-observe_batch rest epoch)

  FixesMark-receive_scan :
      (items : List ScanItem) (epoch : ℕ) → FixesMark (receive_scan r items epoch)
  unfolding receive_scan
  FixesMark-receive_scan [] epoch = FixesMark-ping
  FixesMark-receive_scan (none ∷ items) epoch =
      FixesMark-bind FixesMark-ping (λ _. FixesMark-receive_scan items epoch)
  FixesMark-receive_scan (some batch ∷ items) epoch = FixesMark-bind FixesMark-ping (λ _.
      FixesMark-bind (FixesMark-observe_batch batch epoch)
        (λ _. FixesMark-receive_scan items epoch))

  FixesMark-tombstone_gone : (mp : ℕ) (paths : List Bytes) → FixesMark (tombstone_gone r mp paths)
  unfolding tombstone_gone tombstone_document_by_path D.tombstone_by_path
  FixesMark-tombstone_gone mp [] = FixesMark-pure tt
  FixesMark-tombstone_gone mp (path ∷ paths) =
      FixesMark-bind (FixesMark-statement _ (λ s. refl)) (λ doc.
        FixesMark-bind (FixesMark-invalidate_found doc) (λ _. FixesMark-tombstone_gone mp paths))

  pub FixesMark-reconcile_root : (w : Watcher) (mp : Mountpoint) → FixesMark (reconcile_root r w mp)
  unfolding reconcile_root next_scan_epoch O.next_scan_epoch sweep_scan_epoch O.sweep_scan_epoch
  FixesMark-reconcile_root w mp = FixesMark-bind FixesMark-ping (λ _. FixesMark-in_tx (
      FixesMark-bind (FixesMark-statement _ (λ s. refl)) (λ epoch.
        FixesMark-bind (FixesMark-receive_scan (w.scan mp.root) epoch) (λ _.
          FixesMark-bind (FixesMark-statement _ (λ s. refl)) (FixesMark-tombstone_gone mp.id)))))

  -- The scans of the roots, finished or broken off, leave the watermark as it was.
  pub FixesMark-reconcile_roots :
      (w : Watcher) (mps : List Mountpoint) → FixesMark (reconcile_roots r w mps)
  unfolding reconcile_roots
  FixesMark-reconcile_roots w [] = FixesMark-pure tt
  FixesMark-reconcile_roots w (mp ∷ mps) =
      FixesMark-bind (FixesMark-reconcile_root w mp) (λ _. FixesMark-reconcile_roots w mps)

-- What an action ensures, with the watermark that it leaves alone.
pub Ensures-mark :
    {A : Type 0} {P : Db → Type 0} {Q : A → Db → Type 0} {E : Db → Type 0} {m : Action A} (w : ℤ)
    → Ensures P m Q E
    → FixesMark m
    → Ensures
        (λ s. P s × (s.watermark ≡ w))
        m
        (λ a s. Q a s × (s.watermark ≡ w))
        (λ s. E s × (s.watermark ≡ w))
Ensures-mark {A} {P} {Q} {E} {m} w h k = record {
  at = λ c p. go c.faults (m c) (k.at c ∙ p.1) (h.at c p.0);
}
  where
    go :
        (fs : List Bool) (r : Result A × Conn Db)
        → r.1.state.watermark ≡ w
        → Outcome Q E fs r
        → Outcome (λ a s. Q a s × (s.watermark ≡ w)) (λ s. E s × (s.watermark ≡ w)) fs r
    go fs (ok a, c) e (q, f) = ((q, e), f)
    go fs (err x, c) e (u, f, n) = ((u, e), f, n)
