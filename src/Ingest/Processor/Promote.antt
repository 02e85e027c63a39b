-- ===== src/Ingest/Processor/Promote.antt =====
-- promote and ProcessPath: what they leave behind, and what a failure leaves.
use hirame.Prelude.{
  ℕ, ◌<◌, Bool, true, false, ◌&&◌, List, [], ◌∷◌, Option, some, ◌≡◌, inl, inr, refl, arith, ◌==◌,
  Bytes, find?, has, update_where, Option-cases, Bool-cases,
}
use hirame.Ingest.Types.{Document}
use hirame.Ingest.Tx.{ok}
use hirame.Ingest.Tx.Ensures.{
  Ensures, Ensures-pure, Ensures-statement, Ensures-bind, Ensures-if, Ensures-weaken,
}
use hirame.Ingest.Rows.{Db, DocumentRow, ExtractionRow, live_at}
use hirame.Ingest.Tables.Documents as D
use hirame.Ingest.Tables.Documents.{same_version, has_version, flipped}
use hirame.Ingest.Tables.Versions as V
use hirame.Ingest.Queries.{
  expected_id, upsert_content_version, set_document_current_version, mark_extraction_pending,
}
use hirame.Ingest.Consistent.{IsConsistent}
use hirame.Ingest.Consistent.Documents.{flip-IsConsistent}
use hirame.Ingest.Consistent.Observations.{others-IsConsistent}
use hirame.Ingest.Consistent.Versions.{has_version_row, upsert-IsConsistent}
use hirame.Ingest.Keeps.{
  Nothing, IsConsistent-IgnoresJobs, Ensures-enqueue_extraction, Ensures-enqueue_invalidate,
}
use hirame.Ingest.Processor.{Processor, promoted, flip}
use hirame.Ingest.Processor.Takes.{row_of, Resolved}

-- The tables hold a version with the digest, and a document live at the path whose current
-- version it is.
abbrev pub Serves : ℕ → Bytes → Bytes → Db → Type 0
Serves mp path digest s =
    (v : ℕ) × (has (has_version_row v digest) s.versions ≡ true)
    × (has (λ d. live_at mp path d && same_version d.current_content_version_id (some v))
          s.documents
        ≡ true)

-- A document was resolved, and its version stored.
abbrev pub Staged : ℕ → Bytes → Bytes → Document → ℕ → Db → Type 0
Staged mp path digest doc v s =
    Resolved mp path doc s × (0 < v) × (has (has_version_row v digest) s.versions ≡ true)

abbrev pub Done : ℕ → Bytes → Bytes → Db → Type 0
Done mp path digest s = IsConsistent s × Serves mp path digest s

has-weaken :
    {A : Type 0} (p q : A → Bool)
    → ((x : A) → p x ≡ true → q x ≡ true)
    → (xs : List A) → has p xs ≡ true
    → has q xs ≡ true
has-weaken p q h [] k = k
has-weaken p q h (x ∷ xs) k = ground (arith, h x, has-weaken p q h xs)

has-update_found :
    {A : Type 0} (p w q : A → Bool) (f : A → A)
    → ((x : A) → p x ≡ true → (w x ≡ true) × (q (f x) ≡ true))
    → (xs : List A) → has p xs ≡ true
    → has q (update_where w f xs) ≡ true
has-update_found p w q f h [] k = absurd (ground arith)
has-update_found p w q f h (x ∷ xs) k = ground (arith, h x, has-update_found p w q f h xs)

versions-upsert :
    (digest : Bytes) (size : ℕ) (s : Db)
    → (V.upsert_version digest size s).1.documents ≡ s.documents
unfolding V.upsert_version
versions-upsert digest size s = elim (Option-cases (find? (V.has_hash digest) s.versions)) [
  | inl e ↦ rw (e, V.upsert_version) refl
  | inr (v, e) ↦ rw (e, V.upsert_version) refl
]

pub Ensures-upsert :
    (mp : ℕ) (path digest : Bytes) (size : ℕ) (doc : Document)
    → Ensures
        (Resolved mp path doc)
        (upsert_content_version digest size)
        (λ v. Staged mp path digest doc v)
        Nothing
unfolding upsert_content_version
Ensures-upsert mp path digest size doc =
    Ensures-statement _
      (λ s r.
        let (v, e, pos, row, c) = upsert-IsConsistent digest size s r.0 in
        (v, e, ((c, rw (versions-upsert digest size s) r.1), pos, row)))
      (λ _ _. tt)

-- The version that the document was read with is the one to install.
Serves-of_current :
    (mp : ℕ) (path digest : Bytes) (doc : Document) (v : ℕ) (s : Db)
    → doc.current_content_version_id ≡ v
    → Staged mp path digest doc v s
    → Serves mp path digest s
Serves-of_current mp path digest doc v s e (r, pos, row) =
    (v, row, has-weaken (row_of mp path doc) _ (λ d h. ground (arith, e, pos)) s.documents r.1)

swap-found :
    (v : ℕ) (expected : Option ℕ) (s : Db) (id : ℕ)
    → has (has_version id expected) s.documents ≡ true
    → (D.set_current_version id expected v s).0 ≡ ok true
unfolding D.set_current_version
swap-found v expected s id h = rw h refl

flipped-current :
    (v : ℕ) (d : DocumentRow)
    → same_version (flipped v d).current_content_version_id (some v) ≡ true
unfolding same_version
flipped-current v d = ground arith

swap-Serves :
    (mp : ℕ) (path digest : Bytes) (doc : Document) (v : ℕ) (s : Db)
    → has (row_of mp path doc) s.documents ≡ true
    → has (has_version_row v digest) s.versions ≡ true
    → Serves mp path digest
        (D.set_current_version doc.id (expected_id doc.current_content_version_id) v s).1
unfolding D.set_current_version
swap-Serves mp path digest doc v s h row = (
  v,
  row,
  has-update_found (row_of mp path doc) _ _ (flipped v)
      (λ d k. (ground arith, rw (flipped-current v d) (ground arith))) s.documents h,
)

mark_pending-extractions :
    (v : ℕ) (s : Db) (P : Db → Type 0)
    → ((es : List ExtractionRow) → P (record s { extractions = es }))
    → P (V.mark_pending v s).1
unfolding V.mark_pending
mark_pending-extractions v s P h = elim (Bool-cases (has (V.extracts v) s.extractions)) [
  | inl e ↦ rw (e, V.mark_pending) (h s.extractions)
  | inr e ↦ rw (e, V.mark_pending) (h _)
]

mark_pending-ok : (v : ℕ) (s : Db) → (V.mark_pending v s).0 ≡ ok tt
unfolding V.mark_pending
mark_pending-ok v s = refl

Ensures-mark :
    (v : ℕ) (P : Db → Type 0)
    → ((s : Db) (es : List ExtractionRow) → P s → P (record s { extractions = es }))
    → Ensures P (mark_extraction_pending v) (λ _. P) Nothing
unfolding mark_extraction_pending
Ensures-mark v P free =
    Ensures-statement _
      (λ s h. (tt, mark_pending-ok v s, mark_pending-extractions v s P (λ es. free s es h)))
      (λ _ _. tt)

module _ (mp : ℕ) (path digest : Bytes) (doc : Document) (v : ℕ) where
  Ensures-swap :
      Ensures
        (Staged mp path digest doc v)
        (set_document_current_version doc.id doc.current_content_version_id v)
        (λ swapped s. (swapped ≡ true) × Done mp path digest s)
        Nothing
  unfolding set_document_current_version
  Ensures-swap =
      Ensures-statement _
        (λ s (r, pos, row).
          let expected = expected_id doc.current_content_version_id in
          let there =
            has-weaken (has_version_row v digest) (λ w. w.id == v) (λ w h. ground arith) s.versions
              row in
          (
            true,
            swap-found v expected s doc.id
                (has-weaken (row_of mp path doc) _ (λ d h. ground arith) s.documents r.1),
            (
              refl,
              (
                flip-IsConsistent doc.id v expected s r.0 there,
                swap-Serves mp path digest doc v s r.1 row,
              ),
            ),
          ))
        (λ _ _. tt)

  module _ (p : Processor) (bound : p.env.enqueuer.bound ≡ true) where
    Ensures-promoted :
        (swapped : Bool)
        → Ensures
            (λ s. (swapped ≡ true) × Done mp path digest s)
            (promoted p doc v swapped)
            (λ _. Done mp path digest)
            Nothing
    unfolding promoted
    Ensures-promoted false = record { at = λ c h. absurd (ground arith) }
    Ensures-promoted true =
        Ensures-bind (λ _. Done mp path digest)
          (Ensures-weaken _ (λ s h. h.1) (λ _ s h. h)
            (Ensures-mark v (Done mp path digest)
              (λ s es h. (others-IsConsistent s _ _ _ _ h.0, h.1))))
          (λ _.
            Ensures-bind (λ _. Done mp path digest)
              (Ensures-enqueue_extraction p.env bound (Done mp path digest)
                (λ s jobs h. (IsConsistent-IgnoresJobs s jobs h.0, h.1)) v)
              (λ _.
                Ensures-if (doc.current_content_version_id == 0) (λ _. Ensures-pure tt (λ s h. h))
                  (λ _.
                    Ensures-enqueue_invalidate p.env bound (Done mp path digest)
                      (λ s jobs h. (IsConsistent-IgnoresJobs s jobs h.0, h.1)) doc.id _)))

    pub Ensures-flip :
        Ensures (Staged mp path digest doc v) (flip p doc v) (λ _. Done mp path digest) Nothing
    unfolding flip
    Ensures-flip =
        Ensures-if (doc.current_content_version_id == v)
          (λ e.
            Ensures-pure tt
              (λ s h. (h.0.0, Serves-of_current mp path digest doc v s (ground arith) h)))
          (λ _.
            Ensures-bind (λ swapped s. (swapped ≡ true) × Done mp path digest s) Ensures-swap
              Ensures-promoted)
