-- ===== src/Cache/Drain/Safety.antt =====
-- What a drain leaves alone, whichever of its calls fail.
use hirame.Prelude.{
  ℕ, zero, suc, List, [], ◌∷◌, refl, arith, ltb, Option, none, some, select, All, All-of, take,
  sort_by, Bytes, All-take, All-sort_by, All-select_test, length,
}
use hirame.Ingest.Types.{Error}
use hirame.Ingest.Tx.{pure, statement, ◌>>=◌, ◌>>◌}
use hirame.Cache.Tables
use hirame.Cache.Tables.{Cache, Thumb, Object, is_pending, has_key, among, drained_before}
use hirame.Cache.Workers.{
  Action, attempt, delete_objects, purge, after_round, drain_pending, drain_batch,
}
use hirame.Cache.Runs.{
  Leaves, Either, Leaves-statement, Leaves-pure, Leaves-raise, Leaves-bind, Leaves-attempt,
  Leaves-if, Leaves-weaken, Leaves-given,
}
use hirame.Cache.Drain.{Drained, Due, HasIds, All-Due}
use hirame.Cache.Drain.Steps.{Gone, Absent, Drained-delete, Drained-purge, Absent-delete, Gone-cons}

module _ (s0 : Cache) where
  abbrev Emptied : List Bytes → Cache → Type 0
  Emptied keys s = Drained s0 s × Absent s0 keys s

  abbrev Listed : List Bytes → List ℕ × Option Error → Cache → Type 0
  Listed keys r s = Emptied keys s × Gone s0 r.0 s

  attempt-Leaves :
      (t : Thumb) (keys : List Bytes)
      → Due s0 t
      → Leaves
          (Emptied keys)
          (attempt (statement (Tables.delete_object t.object_key)))
          (Either (Emptied (t.object_key ∷ keys)) (Emptied keys))
          (Drained s0)
  unfolding Tables.delete_object
  attempt-Leaves t keys u = Leaves-attempt (Drained s0) (
      Leaves-statement _
        (λ s p. (tt, refl, (Drained-delete s0 t s u p.0, Absent-delete s0 t.object_key keys s p.1)))
        (λ s p. p))

  delete_objects-Leaves :
      (ts : List Thumb) (keys : List Bytes)
      → All (Due s0) ts
      → Leaves (Emptied keys) (delete_objects ts) (Listed keys) (Drained s0)
  unfolding delete_objects
  delete_objects-Leaves [] keys h =
      Leaves-pure _ (λ s p. (p, All-of _ (λ _ m. absurd (ground arith)) s0.rows))
  delete_objects-Leaves (t ∷ ts) keys (u, us) =
      Leaves-bind (Either (Emptied (t.object_key ∷ keys)) (Emptied keys)) (attempt-Leaves t keys u)
        (remaining (λ ks. delete_objects-Leaves ts ks us))
    where
      remaining :
          ((ks : List Bytes) → Leaves (Emptied ks) (delete_objects ts) (Listed ks) (Drained s0))
          → (failed : Option Error)
          → Leaves
              (Either (Emptied (t.object_key ∷ keys)) (Emptied keys) failed)
              (do
                rest ← delete_objects ts
                pure (elim failed [ none ↦ (t.id ∷ rest.0, rest.1) | some e ↦ (rest.0, some e) ]))
              (Listed keys)
              (Drained s0)
      remaining later none =
          Leaves-bind (Listed (t.object_key ∷ keys)) (later (t.object_key ∷ keys))
            (λ r. Leaves-pure _ (λ s p. ((p.0.0, p.0.1.1), Gone-cons s0 t r.0 s u p.0.1.0 p.1)))
      remaining later (some e) =
          Leaves-bind (Listed keys) (later keys) (λ r. Leaves-pure _ (λ s p. p))

  purge-Leaves :
      (ids : List ℕ)
      → Leaves (λ s. Drained s0 s × Gone s0 ids s) (purge ids) (λ _. Drained s0) (Drained s0)
  unfolding purge Tables.purge_thumbnails
  purge-Leaves [] = Leaves-pure _ (λ s p. p.0)
  purge-Leaves (id ∷ ids) =
      Leaves-statement _ (λ s p. (tt, refl, Drained-purge s0 (id ∷ ids) s p.1 p.0)) (λ s p. p.0)

  after_round-Leaves :
      (again : Action (Unit {0})) (batch : List Thumb) (failed : Option Error)
      → Leaves (Drained s0) again (λ _. Drained s0) (Drained s0)
      → Leaves (Drained s0) (after_round again batch failed) (λ _. Drained s0) (Drained s0)
  after_round-Leaves again batch none h =
      Leaves-if (ltb (length batch) drain_batch) (λ _. Leaves-pure _ (λ s d. d)) (λ _. h)
  after_round-Leaves again batch (some e) h = Leaves-raise e (λ s d. d)

  -- The rows that a round works on.
  All-listed :
      HasIds s0
      → (s : Cache) → Drained s0 s
      → All (Due s0) (take drain_batch (sort_by drained_before (select is_pending s.rows)))
  All-listed ids s d = All-take _ drain_batch _ (
      All-sort_by drained_before _ _
        (All-select_test (Due s0) is_pending s.rows (All-Due s0 ids s d)))

  pub drain_pending-Leaves :
      HasIds s0 → (n : ℕ) → Leaves (Drained s0) (drain_pending n) (λ _. Drained s0) (Drained s0)
  unfolding drain_pending Tables.pending_delete_thumbnails
  drain_pending-Leaves ids zero = Leaves-pure tt (λ s d. d)
  drain_pending-Leaves ids (suc n) =
      Leaves-bind (λ batch s. Drained s0 s × All (Due s0) batch) listing
        (round (drain_pending-Leaves ids n))
    where
      listing :
          Leaves
            (Drained s0)
            (statement (Tables.pending_delete_thumbnails drain_batch))
            (λ batch s. Drained s0 s × All (Due s0) batch)
            (Drained s0)
      listing = Leaves-statement _ (λ s d. (_, refl, (d, All-listed ids s d))) (λ s d. d)

      round :
          Leaves (Drained s0) (drain_pending n) (λ _. Drained s0) (Drained s0)
          → (batch : List Thumb)
          → Leaves
              (λ s. Drained s0 s × All (Due s0) batch)
              (elim batch [
                | [] ↦ pure tt
                | t ∷ ts ↦ (do
                  done ← delete_objects (t ∷ ts)
                  purge done.0
                  after_round (drain_pending n) (t ∷ ts) done.1)
              ])
              (λ _. Drained s0)
              (Drained s0)
      round again [] = Leaves-pure tt (λ s p. p.0)
      round again (t ∷ ts) = Leaves-given (All (Due s0) (t ∷ ts)) (λ due.
          Leaves-bind (Listed [])
            (Leaves-weaken (Drained s0) (λ s d. (d, tt)) (λ _ _ q. q)
              (delete_objects-Leaves (t ∷ ts) [] due))
            (λ done.
              Leaves-bind (λ _. Drained s0)
                (Leaves-weaken _ (λ s p. (p.0.0, p.1)) (λ _ _ q. q) (purge-Leaves done.0))
                (λ _. after_round-Leaves _ (t ∷ ts) done.1 again)))
