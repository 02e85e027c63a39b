-- ===== src/Ingest/Reconciler/Rename.antt =====
-- A renamed file keeps its document.
use hirame.Prelude.{
  ℕ, Bool, true, false, List, [], ◌∷◌, Option, none, some, ◌≡◌, refl, subst, ◌==◌, Bytes, find?,
  find?-test, has_of_find?, update_where, arith,
}
use hirame.Ingest.Types.{Document, trigger_settled}
use hirame.Ingest.Tx.{ok, Conn, in_tx}
use hirame.Ingest.Tx.Ensures.{
  Ensures, Ensures-pure, Ensures-statement, Ensures-bind, Ensures-if, Settles, in_tx-Settles,
}
use hirame.Ingest.Rows.{Db, DocumentRow, live_at, to_document}
use hirame.Ingest.Types.{Observation}
use hirame.Ingest.Tables.Observations as O
use hirame.Ingest.Tables.Documents as D
use hirame.Ingest.Tables.Documents.{has_id, tombstoned}
use hirame.Ingest.Queries.{
  document_or_missing, tombstone_document, delete_observation, upsert_observation,
}
use hirame.Ingest.Reconciler.{
  Reconciler, StatInfo, allowed, replace_existing, enqueue_allowed, move_found, move_file,
}
use hirame.Ingest.Consistent.{IsConsistent}
use hirame.Ingest.Consistent.Observations.{reject-IsConsistent, upsert-IsConsistent}
use hirame.Ingest.Consistent.Moves.{Ready, Held-of_find?, Ready-of_self, Ready-of_replaced}
use hirame.Ingest.Keeps.{Nothing, IgnoresJobs, IsConsistent-IgnoresJobs, Ensures-enqueue_ingest}
use hirame.Ingest.Reconciler.Keeps.{Ensures-invalidate}
use hirame.Ingest.Reconciler.MoveFile.{
  Ensures-find_live_document_by_path, Looked, Looked-Ready-none, Looked-row,
}
use hirame.Ingest.Processor.Takes.{Takes, Resolved, read_id, Ensures-take}

find?-update_where :
    (q p : DocumentRow → Bool) (f : DocumentRow → DocumentRow) (xs : List DocumentRow)
    (a : DocumentRow)
    → ((x : DocumentRow) → q (f x) ≡ false)
    → find? q xs ≡ some a
    → p a ≡ false
    → find? q (update_where p f xs) ≡ some a
find?-update_where q p f [] a h e n = absurd (ground arith)
find?-update_where q p f (x ∷ xs) a h e n = ground (arith, h x, find?-update_where q p f xs a h)

module _ (r : Reconciler) (bound : r.env.enqueuer.bound ≡ true) (mp : ℕ) (old new : Bytes)
    (b : DocumentRow) where
  abbrev Source : Db → Type 0
  Source s = IsConsistent s × (find? (live_at mp old) s.documents ≡ some b)

  row_id : b.id ≡ (to_document b).id
  row_id = read_id (to_document b) b refl

  Source-Looked :
      (o : Option Document) (s : Db)
      → Source s × (o ≡ document_or_missing (find? (live_at mp new) s.documents))
      → Looked (to_document b).id mp new o s
  Source-Looked o s ((c, f), e) = (
    rw (← row_id) (
        Held-of_find? mp (live_at mp old) b s c f
          (ground (arith, find?-test (live_at mp old) s.documents b f))),
    e,
  )

  taken :
      (t : Db)
      → find? (live_at mp old) t.documents ≡ some b
      → Ready (to_document b).id mp new t
      → Takes mp new (to_document b) t
  taken t f ready =
      let l = find?-test (live_at mp old) t.documents b f in
      record {
        query = live_at mp old;
        row = b;
        found = f;
        read = refl;
        home = ground arith;
        live = ground arith;
        ready = ready;
      }

  abbrev Target : Option Document → Db → Type 0
  Target o s = Source s × (o ≡ document_or_missing (find? (live_at mp new) s.documents))

  Ensures-tombstone-Target :
      (doc : Document)
      → (doc.id == (to_document b).id) ≡ false
      → Ensures
          (Target (some doc))
          (tombstone_document doc.id)
          (λ _. Takes mp new (to_document b))
          Nothing
  unfolding tombstone_document D.tombstone_document
  Ensures-tombstone-Target doc other =
      Ensures-statement _
        (λ s p.
          let looked = Source-Looked (some doc) s p in
          let (d, f, same) = Looked-row (to_document b).id mp new s doc looked in
          rw (← same, has_of_find? (has_id d.id) _ s.documents d f (ground arith))
            (
              tt,
              refl,
              taken _
                  (find?-update_where (live_at mp old) (has_id d.id) tombstoned s.documents b
                    (λ x. ground arith) p.0.1 (ground (arith, row_id)))
                  (Ready-of_replaced (to_document b).id mp new s looked.0 d f (rw same other)),
            ))
        (λ _ _. tt)

  Takes-IgnoresJobs : IgnoresJobs (Takes mp new (to_document b))
  Takes-IgnoresJobs s jobs t = record {
    query = t.query;
    row = t.row;
    found = t.found;
    read = t.read;
    home = t.home;
    live = t.live;
    ready = record {
      consistent = IsConsistent-IgnoresJobs s jobs t.ready.consistent;
      may = t.ready.may;
      there = t.ready.there;
    };
  }

  Ensures-replace :
      (o : Option Document)
      → Ensures
          (Target o)
          (replace_existing r (to_document b) o)
          (λ _. Takes mp new (to_document b))
          Nothing
  unfolding replace_existing
  Ensures-replace none = Ensures-pure tt (λ s p.
      taken s p.0.1 (Looked-Ready-none (to_document b).id mp new s (Source-Looked none s p)))
  Ensures-replace (some doc) =
      Ensures-if (doc.id == (to_document b).id)
        (λ same. Ensures-pure tt (λ s p.
          let looked = Source-Looked (some doc) s p in
          let (d, f, e) = Looked-row (to_document b).id mp new s doc looked in
          taken s p.0.1 (Ready-of_self (to_document b).id mp new s looked.0 d f (ground arith))))
        (λ other.
          Ensures-bind (λ _. Takes mp new (to_document b)) (Ensures-tombstone-Target doc other)
            (λ _. Ensures-invalidate r bound _ Takes-IgnoresJobs doc))

  Resolved-IgnoresJobs : IgnoresJobs (Resolved mp new (to_document b))
  Resolved-IgnoresJobs s jobs h = (IsConsistent-IgnoresJobs s jobs h.0, h.1)

  module _ (stat : Option StatInfo) (ok_path : allowed r new ≡ true) where
    Ensures-found :
        Ensures Source
          (move_found r mp new stat (some (to_document b)))
          (λ _. Resolved mp new (to_document b))
          Nothing
    unfolding move_found enqueue_allowed
    Ensures-found = rw ok_path (
        Ensures-bind Target (Ensures-find_live_document_by_path Source mp new) (λ o.
          Ensures-bind (λ _. Takes mp new (to_document b)) (Ensures-replace o)
            (λ _.
              Ensures-bind (λ _. Resolved mp new (to_document b))
                (Ensures-take mp _ _ new (to_document b))
                (λ _.
                  Ensures-enqueue_ingest r.env bound _ Resolved-IgnoresJobs mp new
                    trigger_settled))))

    Ensures-looked :
        (o : Option Document)
        → Ensures
            (λ s. Source s × (o ≡ document_or_missing (find? (live_at mp old) s.documents)))
            (move_found r mp new stat o)
            (λ _. Resolved mp new (to_document b))
            Nothing
    Ensures-looked none = record { at = λ c p. absurd (ground arith) }
    Ensures-looked (some doc) = record {
      at = λ c p.
          let e : doc ≡ to_document b = ground arith in
          let found : Ensures Source (move_found r mp new stat (some doc))
              (λ _. Resolved mp new (to_document b)) Nothing =
            rw e Ensures-found in
          found.at c p.0;
    }

    Ensures-unobserved : Ensures Source (delete_observation mp old) (λ _. Source) Nothing
    unfolding delete_observation O.delete_observation
    Ensures-unobserved =
        Ensures-statement _ (λ s p. (tt, refl, (reject-IsConsistent _ s p.0, p.1))) (λ _ _. tt)

    upsert_ok : (o : Observation) (s : Db) → (O.upsert_observation r.env o s).0 ≡ ok tt
    unfolding O.upsert_observation
    upsert_ok o s = refl

    upsert_documents :
        (o : Observation) (s : Db) → s.documents ≡ (O.upsert_observation r.env o s).1.documents
    unfolding O.upsert_observation
    upsert_documents o s = refl

    Ensures-observed :
        (o : Observation) → Ensures Source (upsert_observation r.env o) (λ _. Source) Nothing
    unfolding upsert_observation
    Ensures-observed o =
        Ensures-statement _
          (λ s p. (
            tt,
            upsert_ok o s,
            (
              upsert-IsConsistent r.env o s p.0,
              subst (λ ds. find? (live_at mp old) ds ≡ some b) (upsert_documents o s) p.1,
            ),
          ))
          (λ _ _. tt)

    -- moveFile in a transaction, from consistent tables, with a River client bound and the new
    -- name allowed, where a document is live at the old path: it returns with consistent tables
    -- and that document, with its id and its current version, live at the new path; or a call of
    -- the environment failed, and the tables are as they were, the sequences no lower.
    pub rename_keeps_document :
        (c : Conn Db)
        → IsConsistent c.state
        → find? (live_at mp old) c.state.documents ≡ some b
        → Settles (λ _. Resolved mp new (to_document b)) c (in_tx (move_file r mp old new stat) c)
    unfolding move_file
    rename_keeps_document c k f =
        in_tx-Settles Source _ _ c
          (Ensures-bind (λ _. Source) Ensures-unobserved
            (λ _.
              Ensures-bind (λ _. Source) (Ensures-observed _)
                (λ _.
                  Ensures-bind _ (Ensures-find_live_document_by_path Source mp old)
                    Ensures-looked)))
          (k, f)
