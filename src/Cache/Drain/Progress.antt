-- ===== src/Cache/Drain/Progress.antt =====
-- What a drain gets done where no call fails: every withdrawn row goes.
use hirame.Prelude.{
  ℕ, zero, suc, ◌<◌, Bool, true, false, ◌&&◌, not, List, [], ◌∷◌, ◌≡◌, refl, sym, ap, arith, ◌==◌,
  ltb, Option, none, some, has, select, reject, All-weaken, take, sort_by, Bool-cases, inl, inr,
  length, ◌∙◌, All-selected, Lacks-select, has-sort_by, has-take, take-short, has_of_select,
  has-weaken, All-of, select-all, Bytes, select-select, length-select-lt,
}
use hirame.Ingest.Types.{Error}
use hirame.Ingest.Tx.{pure, statement, ◌>>=◌, ◌>>◌}
use hirame.Cache.Tables
use hirame.Cache.Tables.{Cache, Thumb, is_pending, among, drained_before}
use hirame.Cache.Workers.{
  ids_of, attempt, delete_objects, purge, after_round, drain_pending, drain_batch,
}
use hirame.Cache.Runs.{
  Returns, Returns-statement, Returns-pure, Returns-bind, Returns-attempt, Returns-if,
  Returns-weaken, Returns-given,
}

abbrev due_rows : List Thumb → List Thumb
due_rows rows = take drain_batch (sort_by drained_before (select is_pending rows))

abbrev worked_off : List Thumb → Thumb → Bool
worked_off batch t = among (ids_of batch) t && is_pending t

pub among-ids_of : (t : Thumb) (ts : List Thumb) → among (ids_of ts) t ≡ has (λ b. b.id == t.id) ts
among-ids_of t [] = refl
among-ids_of t (x ∷ xs) = ground (arith, among-ids_of t xs)

second : (a b : Bool) → (a && b) ≡ true → b ≡ true
second a b h = ground arith

chosen : (p r : Bool) → (p && r) ≡ true → (p && not (not (r && p) && p)) ≡ true
chosen p r h = ground arith

module _ (rows : List Thumb) where
  -- A round that did not fill its batch leaves no withdrawn row.
  last_round :
      ltb (length (due_rows rows)) drain_batch ≡ true
      → has is_pending (reject (worked_off (due_rows rows)) rows) ≡ false
  last_round h = Lacks-select _ is_pending rows (
      All-weaken _ _
        (λ x found e. elim (Bool-cases (is_pending x)) [
          | inl p ↦
              let a : among (ids_of (due_rows rows)) x ≡ true =
                among-ids_of x (due_rows rows)
                ∙ (ap (has (λ b. b.id == x.id)) (take-short drain_batch _ h)
                    ∙ (has-sort_by drained_before (λ b. b.id == x.id) (select is_pending rows)
                        ∙ found p)) in
              absurd (ground arith)
          | inr p ↦ p
        ])
        rows (All-selected (λ x b. b.id == x.id) is_pending (λ x. ground arith) rows))

  -- A round has less to do for the next.
  shorter :
      (t : Thumb) (ts : List Thumb)
      → due_rows rows ≡ t ∷ ts
      → length (select is_pending (reject (worked_off (t ∷ ts)) rows))
        < length (select is_pending rows)
  shorter t ts e =
      let r : Thumb → Bool = among (ids_of (t ∷ ts)) in
      let head : has r (due_rows rows) ≡ true = rw e (ground arith) in
      let sorted : has r (sort_by drained_before (select is_pending rows)) ≡ true =
        has-take r drain_batch _ head in
      let found : has r (select is_pending rows) ≡ true =
        sym (has-sort_by drained_before r (select is_pending rows)) ∙ sorted in
      rw (select-select is_pending (λ x. not (worked_off (t ∷ ts) x)) rows) (
        length-select-lt _ is_pending rows
          (λ x. second (not (worked_off (t ∷ ts) x)) (is_pending x))
          (has-weaken _ _ rows (All-of _ (λ x. chosen (is_pending x) (r x)) rows)
            (has_of_select is_pending r rows found)))

attempt-Returns :
    (key : Bytes) (rows : List Thumb)
    → Returns
        (λ s. s.rows ≡ rows)
        (attempt (statement (Tables.delete_object key)))
        (λ e s. (e ≡ none) × (s.rows ≡ rows))
unfolding Tables.delete_object
attempt-Returns key rows = Returns-attempt (Returns-statement _ (λ s p. (tt, refl, p)))

abbrev Deleted : List Thumb → List Thumb → List ℕ × Option Error → Cache → Type 0
Deleted rows ts r s = (s.rows ≡ rows) × (r ≡ (ids_of ts, none))

-- Every object of a batch is deleted, and its row is to be purged.
delete_objects-Returns :
    (rows ts : List Thumb) → Returns (λ s. s.rows ≡ rows) (delete_objects ts) (Deleted rows ts)
unfolding delete_objects
delete_objects-Returns rows [] = Returns-pure _ (λ s p. (p, refl))
delete_objects-Returns rows (t ∷ ts) =
    Returns-bind _ (attempt-Returns t.object_key rows) (remaining (delete_objects-Returns rows ts))
  where
    remaining :
        Returns (λ s. s.rows ≡ rows) (delete_objects ts) (Deleted rows ts)
        → (failed : Option Error)
        → Returns
            (λ s. (failed ≡ none) × (s.rows ≡ rows))
            (do
              rest ← delete_objects ts
              pure (elim failed [ none ↦ (t.id ∷ rest.0, rest.1) | some e ↦ (rest.0, some e) ]))
            (Deleted rows (t ∷ ts))
    remaining h none =
        Returns-bind (Deleted rows ts) (Returns-weaken _ (λ s p. p.1) (λ _ _ q. q) h) (λ r.
          Returns-pure _ (λ s q. (q.0, ap (λ (x : List ℕ × Option Error). (t.id ∷ x.0, x.1)) q.1)))
    remaining h (some e) = record { at = λ s p. absurd (ground (arith, p.0)) }

module _ (rows : List Thumb) where
  purge-Returns :
      (id : ℕ) (ids : List ℕ)
      → Returns
          (λ s. s.rows ≡ rows)
          (purge (id ∷ ids))
          (λ _ s. s.rows ≡ reject (λ t. among (id ∷ ids) t && is_pending t) rows)
  unfolding purge Tables.purge_thumbnails
  purge-Returns id ids = Returns-statement _ (λ s p. (tt, refl, ap (reject _) p))

abbrev pub Finished : Unit {0} → Cache → Type 0
Finished _ s = has is_pending s.rows ≡ false

abbrev pub Left : ℕ → Cache → Type 0
Left n s = length (select is_pending s.rows) < n

has_of_empty : (rows : List Thumb) → due_rows rows ≡ [] → has is_pending rows ≡ false
has_of_empty rows e = rw (sym (select-all rows)) at (rw e at (last_round rows (rw e refl)))

-- A round, with the rounds after it.
round-Returns :
    (n : ℕ) (rows : List Thumb)
    → length (select is_pending rows) < suc n
    → Returns (Left n) (drain_pending n) Finished
    → (batch : List Thumb) → due_rows rows ≡ batch
    → Returns
        (λ s. s.rows ≡ rows)
        (elim batch [
          | [] ↦ pure tt
          | t ∷ ts ↦ (do
            done ← delete_objects (t ∷ ts)
            purge done.0
            after_round (drain_pending n) (t ∷ ts) done.1)
        ])
        Finished
round-Returns n rows m again [] e = Returns-pure tt (λ s p. rw p (has_of_empty rows e))
round-Returns n rows m again (t ∷ ts) e =
    Returns-bind (Deleted rows (t ∷ ts)) (delete_objects-Returns rows (t ∷ ts)) (λ r.
      Returns-given (r ≡ (ids_of (t ∷ ts), none)) (λ q. rw q (
        Returns-bind (λ _ s. s.rows ≡ reject (worked_off (t ∷ ts)) rows)
          (purge-Returns rows t.id (ids_of ts))
          (λ _.
            Returns-if (ltb (length (t ∷ ts)) drain_batch)
              (λ l. Returns-pure tt (λ s p. rw p (rw e at (last_round rows (rw e l)))))
              (λ l.
                Returns-weaken _ (λ s p. rw p (ground (arith, shorter rows t ts e, m))) (λ _ _ q. q)
                  again)))))

pub drain_pending-Returns : (n : ℕ) → Returns (Left n) (drain_pending n) Finished
unfolding drain_pending statement Tables.pending_delete_thumbnails
drain_pending-Returns zero = record { at = λ s p. absurd (ground (arith, p)) }
drain_pending-Returns (suc n) = record {
  at = λ s p. (round-Returns n s.rows p (drain_pending-Returns n) (due_rows s.rows) refl).at s refl;
}
