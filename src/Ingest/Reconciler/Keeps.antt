-- ===== src/Ingest/Reconciler/Keeps.antt =====
-- Applying any event keeps the tables consistent, and no uniqueness constraint refuses it.
use hirame.Prelude.{
  ℕ, Bool, true, ◌||◌, not, List, [], ◌∷◌, Option, none, some, ◌≡◌, ◌==◌, Bytes, Option-cases, inl,
  inr,
}
use hirame.Ingest.Types.{Document, Trigger}
use hirame.Ingest.Tx.Ensures.{Ensures, Ensures-pure, Ensures-bind, Ensures-if}
use hirame.Ingest.Rows.{Db}
use hirame.Ingest.Queries.{enqueue_ingest}
use hirame.Ingest.Reconciler.{
  Reconciler, StatInfo, resolve, allowed, invalidate, invalidate_all, observe_only, observe,
  invalidate_found, apply_delete,
}
use hirame.Ingest.Consistent.{IsConsistent}
use hirame.Ingest.Keeps.{
  Keeps, Nothing, IgnoresJobs, IsConsistent-IgnoresJobs, Ensures-enqueue_ingest,
  Ensures-enqueue_invalidate, Keeps-pure, Keeps-bind, Keeps-if, Keeps-upsert_observation,
  Keeps-delete_observation, Keeps-delete_observation_subtree, Keeps-tombstone_document_by_path,
  Keeps-tombstone_document_subtree,
}

module _ (r : Reconciler) (bound : r.env.enqueuer.bound ≡ true) where
  -- Invalidation only inserts jobs.
  pub Ensures-invalidate :
      (P : Db → Type 0)
      → IgnoresJobs P
      → (doc : Document) → Ensures P (invalidate r doc) (λ _. P) Nothing
  unfolding invalidate
  Ensures-invalidate P free doc =
      Ensures-if (doc.current_content_version_id == 0) (λ _. Ensures-pure tt (λ s p. p))
        (λ _. Ensures-enqueue_invalidate r.env bound P free doc.id doc.current_content_version_id)

  pub Ensures-invalidate_all :
      (P : Db → Type 0)
      → IgnoresJobs P
      → (docs : List Document) → Ensures P (invalidate_all r docs) (λ _. P) Nothing
  unfolding invalidate_all
  Ensures-invalidate_all P free [] = Ensures-pure tt (λ s p. p)
  Ensures-invalidate_all P free (doc ∷ docs) =
      Ensures-bind (λ _. P) (Ensures-invalidate P free doc)
        (λ _. Ensures-invalidate_all P free docs)

  pub Keeps-invalidate_found : (o : Option Document) → Keeps (invalidate_found r o)
  unfolding invalidate_found
  Keeps-invalidate_found none = Keeps-pure tt
  Keeps-invalidate_found (some doc) = Ensures-invalidate IsConsistent IsConsistent-IgnoresJobs doc

  pub Keeps-enqueue : (mp : ℕ) (path : Bytes) (t : Trigger) → Keeps (enqueue_ingest r.env mp path t)
  Keeps-enqueue = Ensures-enqueue_ingest r.env bound IsConsistent IsConsistent-IgnoresJobs

  pub Keeps-observe_only :
      (path : Bytes) (stat : Option StatInfo) (d : Bool) → Keeps (observe_only r path stat d)
  unfolding observe_only
  Keeps-observe_only path stat d = elim (Option-cases (resolve r path)) [
    | inl e ↦ rw (e, observe_only) (Keeps-pure tt)
    | inr (mp, e) ↦ rw (e, observe_only) (Keeps-upsert_observation r.env _)
  ]

  pub Keeps-observe :
      (path : Bytes) (stat : Option StatInfo) (d : Bool) (t : Trigger)
      → Keeps (observe r path stat d t)
  unfolding observe
  Keeps-observe path stat d t = elim (Option-cases (resolve r path)) [
    | inl e ↦ rw (e, observe) (Keeps-pure tt)
    | inr (mp, e) ↦
        rw (e, observe)
          (Keeps-bind (Keeps-observe_only path stat d) (λ _.
            Keeps-if (d || not (allowed r path)) (Keeps-pure tt) (Keeps-enqueue mp.id path t)))
  ]

  pub Keeps-apply_delete : (path : Bytes) (d : Bool) → Keeps (apply_delete r path d)
  unfolding apply_delete
  Keeps-apply_delete path d = elim (Option-cases (resolve r path)) [
    | inl e ↦ rw (e, apply_delete) (Keeps-pure tt)
    | inr (mp, e) ↦
        rw (e, apply_delete)
          (Keeps-bind (Keeps-delete_observation _ _) (λ _.
            Keeps-if d
              (Keeps-bind (Keeps-delete_observation_subtree _ _) (λ _.
                Keeps-bind (Keeps-tombstone_document_subtree _ _)
                  (Ensures-invalidate_all IsConsistent IsConsistent-IgnoresJobs)))
              (Keeps-bind (Keeps-tombstone_document_by_path _ _) Keeps-invalidate_found)))
  ]
