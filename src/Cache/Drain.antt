-- ===== src/Cache/Drain.antt =====
-- drainPending: what a drain may take away, and what it has to leave.
pub mod Steps
pub mod Safety
pub mod Progress
pub mod Complete
use hirame.Prelude.{
  ℕ, Bool, true, false, ◌&&◌, List, [], ◌∷◌, ◌≡◌, refl, arith, ◌==◌, ◌⊎◌, inl, inr, has, distinct,
  select, All, All-of, select-all, All-weaken, All-zip, All-select, All-found, All-unique,
  Bool-cases,
}
use hirame.Cache.Tables.{Cache, Thumb, Object, is_pending, has_key}

abbrev pub same_id : Thumb → Thumb → Bool
same_id a b = a.id == b.id

-- The primary key of thumbnail_cache.
abbrev pub HasIds : Cache → Type 0
HasIds s = distinct same_id s.rows ≡ true

module _ (s0 : Cache) where
  -- A withdrawn row accounts for the object.
  abbrev pub withdrawn_owner : Object → Bool
  withdrawn_owner o = has (λ t. is_pending t && has_key t.object_key o) s0.rows

  abbrev pub Lost : Cache → Thumb → Type 0
  Lost s t = (is_pending t ≡ true) × (has (has_key t.object_key) s.objects ≡ false)

  -- From `s0` to `s` no row went but a withdrawn one whose object is gone, and no object but one
  -- of a withdrawn row.
  pub record Drained (s : Cache) : Type 0 where
    pub kept : Thumb → Bool
    pub held : Object → Bool
    pub rows : s.rows ≡ select kept s0.rows
    pub objects : s.objects ≡ select held s0.objects
    pub purged : All (λ t. (kept t ≡ true) ⊎ Lost s t) s0.rows
    pub deleted : All (λ o. (held o ≡ true) ⊎ (withdrawn_owner o ≡ true)) s0.objects
    pub documents : s.documents ≡ s0.documents

  -- A row that a drain may work on.
  pub record Due (t : Thumb) : Type 0 where
    pub pending : is_pending t ≡ true
    pub owner : (o : Object) → has_key t.object_key o ≡ true → withdrawn_owner o ≡ true
    pub only : All (λ x. same_id t x ≡ true → t ≡ x) s0.rows

  pub Drained-refl : Drained s0
  Drained-refl = record {
    kept = λ _. true;
    held = λ _. true;
    rows = select-all s0.rows;
    objects = select-all s0.objects;
    purged = All-of _ (λ _. inl refl) s0.rows;
    deleted = All-of _ (λ _. inl refl) s0.objects;
    documents = refl;
  }

  -- The withdrawn rows that a drain finds.
  pub All-Due : HasIds s0 → (s : Cache) → Drained s → All (λ t. is_pending t ≡ true → Due t) s.rows
  All-Due ids s d = rw (d.rows) (
      All-select _ d.kept s0.rows (
        All-zip _ _ _
          (λ t f u p. record {
            pending = p;
            owner = λ o k. f (λ x. is_pending x && has_key x.object_key o) (ground arith);
            only = u;
          })
          s0.rows (All-found s0.rows) (All-unique same_id (λ x y e. ground arith) s0.rows ids)))
