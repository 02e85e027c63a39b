-- ===== src/Ingest/Reconciler/MoveFile.antt =====
-- moveFile keeps the tables consistent: the unique index refuses no rename.
use hirame.Prelude.{
  ℕ, true, false, Option, none, some, ◌≡◌, refl, ◌==◌, Bytes, find?, find?-test, has_of_find?,
  Option-cases, inl, inr, arith,
}
use hirame.Ingest.Types.{Document, trigger_settled}
use hirame.Ingest.Tx.Ensures.{
  Ensures, Ensures-pure, Ensures-statement, Ensures-bind, Ensures-if, Ensures-weaken,
}
use hirame.Ingest.Rows.{Db, DocumentRow, live_at, to_document}
use hirame.Ingest.Tables.Documents as D
use hirame.Ingest.Tables.Documents.{has_id, tombstoned}
use hirame.Ingest.Queries.{
  document_or_missing, find_live_document_by_path, move_document, tombstone_document,
}
use hirame.Ingest.Reconciler.{
  Reconciler, StatInfo, allowed, replace_existing, enqueue_allowed, move_found, move_file,
}
use hirame.Ingest.Consistent.{IsConsistent}
use hirame.Ingest.Consistent.Documents.{tombstone-IsConsistent, move-IsConsistent}
use hirame.Ingest.Consistent.Moves.{
  Held, Ready, Held-of_find?, Ready-of_absent, Ready-of_self, Ready-of_replaced,
}
use hirame.Ingest.Keeps.{
  Keeps, Nothing, IgnoresJobs, IsConsistent-IgnoresJobs, Keeps-pure, Keeps-bind, Keeps-if,
  Keeps-upsert_observation, Keeps-delete_observation,
}
use hirame.Ingest.Reconciler.Keeps.{Ensures-invalidate, Keeps-enqueue}

-- What the lookup by path answers.
pub Ensures-find_live_document_by_path :
    (P : Db → Type 0) (mp : ℕ) (path : Bytes)
    → Ensures P
        (find_live_document_by_path mp path)
        (λ o s. P s × (o ≡ document_or_missing (find? (live_at mp path) s.documents)))
        Nothing
unfolding find_live_document_by_path D.find_live_by_path
Ensures-find_live_document_by_path P mp path =
    Ensures-statement _ (λ s p. (_, refl, (p, refl))) (λ _ _. tt)

Ready-IgnoresJobs : (id mp : ℕ) (path : Bytes) → IgnoresJobs (Ready id mp path)
Ready-IgnoresJobs id mp path s jobs h = record {
  consistent = IsConsistent-IgnoresJobs s jobs h.consistent;
  may = h.may;
  there = h.there;
}

pub Ensures-move_document :
    (id mp dev ino : ℕ) (path : Bytes)
    → Ensures (Ready id mp path) (move_document id path dev ino) (λ _. IsConsistent) Nothing
unfolding move_document
Ensures-move_document id mp dev ino path =
    Ensures-statement _
      (λ s h.
        let (e, c) = move-IsConsistent id mp dev ino path s h.consistent h.may h.there in
        (tt, e, c))
      (λ _ _. tt)

Ensures-tombstone-Ready :
    (id mp : ℕ) (path : Bytes)
    → Ensures (Ready id mp path) (tombstone_document id) (λ _. IsConsistent) Nothing
unfolding tombstone_document D.tombstone_document
Ensures-tombstone-Ready id mp path =
    Ensures-statement _
      (λ s h. rw h.there (tt, refl, tombstone-IsConsistent (has_id id) s h.consistent)) (λ _ _. tt)

-- The state after the two lookups of moveFile.
abbrev pub Looked : ℕ → ℕ → Bytes → Option Document → Db → Type 0
Looked id mp path o s =
    Held id mp s × (o ≡ document_or_missing (find? (live_at mp path) s.documents))

pub Looked-Ready-none :
    (id mp : ℕ) (path : Bytes) (s : Db) → Looked id mp path none s → Ready id mp path s
Looked-Ready-none id mp path s (held, e) =
    elim (Option-cases (find? (live_at mp path) s.documents)) [
      | inl f ↦ Ready-of_absent id mp path s held f
      | inr (b, f) ↦ absurd (ground arith)
    ]

-- The document that was looked up is a row.
pub Looked-row :
    (id mp : ℕ) (path : Bytes) (s : Db) (doc : Document)
    → Looked id mp path (some doc) s
    → (b : DocumentRow) × (find? (live_at mp path) s.documents ≡ some b) × (b.id ≡ doc.id)
unfolding to_document
Looked-row id mp path s doc (held, e) = elim (Option-cases (find? (live_at mp path) s.documents)) [
  | inl f ↦ absurd (ground arith)
  | inr (b, f) ↦ (b, f, ground arith)
]

Ensures-tombstone_other :
    (id mp : ℕ) (path : Bytes) (doc : Document)
    → (doc.id == id) ≡ false
    → Ensures
        (Looked id mp path (some doc))
        (tombstone_document doc.id)
        (λ _. Ready id mp path)
        Nothing
unfolding tombstone_document D.tombstone_document
Ensures-tombstone_other id mp path doc other =
    Ensures-statement _
      (λ s l.
        let (b, f, same) = Looked-row id mp path s doc l in
        rw (← same, has_of_find? (has_id b.id) _ s.documents b f (ground arith))
          (tt, refl, Ready-of_replaced id mp path s l.0 b f (rw same other)))
      (λ _ _. tt)

module _ (r : Reconciler) (bound : r.env.enqueuer.bound ≡ true) where
  Ensures-replace_existing :
      (moved : Document) (mp : ℕ) (path : Bytes) (o : Option Document)
      → Ensures
          (Looked moved.id mp path o)
          (replace_existing r moved o)
          (λ _. Ready moved.id mp path)
          Nothing
  unfolding replace_existing
  Ensures-replace_existing moved mp path none = Ensures-pure tt (Looked-Ready-none moved.id mp path)
  Ensures-replace_existing moved mp path (some doc) =
      Ensures-if (doc.id == moved.id)
        (λ same. Ensures-pure tt λ s l.
          let (b, f, e) = Looked-row moved.id mp path s doc l in
          Ready-of_self moved.id mp path s l.0 b f (ground arith))
        (λ other.
          Ensures-bind (λ _. Ready moved.id mp path)
            (Ensures-tombstone_other moved.id mp path doc other)
            (λ _. Ensures-invalidate r bound _ (Ready-IgnoresJobs moved.id mp path) doc))

  Keeps-enqueue_allowed : (mp : ℕ) (path : Bytes) → Keeps (enqueue_allowed r mp path)
  unfolding enqueue_allowed
  Keeps-enqueue_allowed mp path =
      Keeps-if (allowed r path) (Keeps-enqueue r bound mp path trigger_settled) (Keeps-pure tt)

  abbrev Source : ℕ → Option Document → Db → Type 0
  Source mp none s = IsConsistent s
  Source mp (some doc) s = Held doc.id mp s

  Ensures-move_found :
      (mp : ℕ) (path : Bytes) (stat : Option StatInfo) (o : Option Document)
      → Ensures (Source mp o) (move_found r mp path stat o) (λ _. IsConsistent) Nothing
  unfolding move_found
  Ensures-move_found mp path stat none = Keeps-enqueue_allowed mp path
  Ensures-move_found mp path stat (some moved) =
      Ensures-bind (Looked moved.id mp path)
        (Ensures-find_live_document_by_path (Held moved.id mp) mp path)
        (λ existing.
          Ensures-bind (λ _. Ready moved.id mp path)
            (Ensures-replace_existing moved mp path existing)
            (λ _.
              Ensures-if (allowed r path)
                (λ _.
                  Ensures-bind (λ _. IsConsistent) (Ensures-move_document moved.id mp _ _ path)
                    (λ _. Keeps-enqueue_allowed mp path))
                (λ _.
                  Ensures-bind (λ _. IsConsistent) (Ensures-tombstone-Ready moved.id mp path)
                    (λ _. Ensures-invalidate r bound _ IsConsistent-IgnoresJobs moved))))

  found_Source :
      (mp : ℕ) (path : Bytes) (o : Option Document) (s : Db)
      → IsConsistent s × (o ≡ document_or_missing (find? (live_at mp path) s.documents))
      → Source mp o s
  unfolding to_document
  found_Source mp path none s (c, e) = c
  found_Source mp path (some doc) s (c, e) =
      elim (Option-cases (find? (live_at mp path) s.documents)) [
        | inl f ↦ absurd (ground arith)
        | inr (b, f) ↦
            let same : b.id ≡ doc.id = ground arith in
            rw (← same) (
              Held-of_find? mp _ b s c f
                (ground (arith, find?-test (live_at mp path) s.documents b f)))
      ]

  pub Keeps-move_file :
      (mp : ℕ) (old new : Bytes) (stat : Option StatInfo) → Keeps (move_file r mp old new stat)
  unfolding move_file
  Keeps-move_file mp old new stat = Keeps-bind (Keeps-delete_observation mp old) (λ _.
      Keeps-bind (Keeps-upsert_observation r.env _) (λ _.
        Ensures-bind (Source mp)
          (Ensures-weaken IsConsistent (λ s c. c) (found_Source mp old)
            (Ensures-find_live_document_by_path IsConsistent mp old))
          (Ensures-move_found mp new stat)))
