-- ===== src/Cache/Drain/Steps.antt =====
-- The statements of a drain: deleting the object of a withdrawn row, and purging rows.
use hirame.Prelude.{
  ℕ, true, false, ◌&&◌, not, List, ◌∷◌, ◌≡◌, sym, arith, ◌==◌, inl, inr, has, reject, All,
  All-weaken, All-zip, Bool-cases, Bytes, select-select, has-select-false, has-reject,
}
use hirame.Cache.Tables.{Cache, Thumb, is_pending, has_key, among}
use hirame.Cache.Drain.{Drained, Due}

module _ (s0 : Cache) where
  -- No object of these rows is left.
  abbrev pub Gone : List ℕ → Cache → Type 0
  Gone ids s = All (λ t. among ids t ≡ true → has (has_key t.object_key) s.objects ≡ false) s0.rows

  abbrev pub Absent : List Bytes → Cache → Type 0
  Absent keys s = All (λ k. has (has_key k) s.objects ≡ false) keys

  abbrev deleting : Bytes → Cache → Cache
  deleting k s = record s { objects = reject (has_key k) s.objects }

  pub Drained-delete :
      (t : Thumb) (s : Cache) → Due s0 t → Drained s0 s → Drained s0 (deleting t.object_key s)
  Drained-delete t s u d = record {
    kept = d.kept;
    held = λ o. d.held o && not (has_key t.object_key o);
    rows = d.rows;
    objects = rw (d.objects) (select-select (λ o. not (has_key t.object_key o)) d.held s0.objects);
    purged =
        All-weaken _ _
          (λ x h. elim h [ inl k ↦ inl k | inr l ↦ inr (l.0, has-select-false _ _ s.objects l.1) ])
          s0.rows d.purged;
    deleted =
        All-weaken _ _
          (λ o h. elim h [
            | inl k ↦ (elim (Bool-cases (has_key t.object_key o)) [
              | inl e ↦ inr (u.owner o e)
              | inr e ↦ inl (ground arith)
            ])
            | inr l ↦ inr l
          ])
          s0.objects d.deleted;
    documents = d.documents;
  }

  pub Absent-delete :
      (k : Bytes) (keys : List Bytes) (s : Cache) → Absent keys s → Absent (k ∷ keys) (deleting k s)
  Absent-delete k keys s h =
      (has-reject _ s.objects, All-weaken _ _ (λ l e. has-select-false _ _ s.objects e) keys h)

  pub Gone-cons :
      (t : Thumb) (ids : List ℕ) (s : Cache)
      → Due s0 t
      → has (has_key t.object_key) s.objects ≡ false
      → Gone ids s
      → Gone (t.id ∷ ids) s
  Gone-cons t ids s u a g =
      All-zip _ _ _
        (λ x o h m. elim (Bool-cases (t.id == x.id)) [
          | inl e ↦ rw (sym (o e)) a
          | inr e ↦ h (ground arith)
        ])
        s0.rows u.only g

  pub Drained-purge :
      (ids : List ℕ) (s : Cache)
      → Gone ids s
      → Drained s0 s
      → Drained s0 (record s { rows = reject (λ t. among ids t && is_pending t) s.rows })
  Drained-purge ids s g d = record {
    kept = λ t. d.kept t && not (among ids t && is_pending t);
    held = d.held;
    rows = rw (d.rows) (select-select (λ t. not (among ids t && is_pending t)) d.kept s0.rows);
    objects = d.objects;
    purged =
        All-zip _ _ _
          (λ x h a. elim h [
            | inl k ↦ (elim (Bool-cases (among ids x && is_pending x)) [
              | inl e ↦ inr (ground arith, a (ground arith))
              | inr e ↦ inl (ground arith)
            ])
            | inr l ↦ inr l
          ])
          s0.rows d.purged g;
    deleted = d.deleted;
    documents = d.documents;
  }
