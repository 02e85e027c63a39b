-- ===== src/Cache/Drain/Complete.antt =====
-- The drain as a whole.
use hirame.Prelude.{
  ℕ, ◌<◌, Bool, true, false, List, [], ◌∷◌, ◌≡◌, arith, has, select, All, All-zip, length,
  Bool-cases, inl, inr, ◌⊎◌, ◌∙◌, select-same,
}
use hirame.Ingest.Tx.{Conn, calm}
use hirame.Cache.Tables.{Cache, Thumb, is_pending, is_live, has_key}
use hirame.Cache.Workers.{drain_pending}
use hirame.Cache.Runs.{Returned, Returns-weaken}
use hirame.Cache.Runs.Compare.{Leaves-state, Returns-with}
use hirame.Cache.Drain.{Drained, HasIds, Drained-refl}
use hirame.Cache.Drain.Safety.{drain_pending-Leaves}
use hirame.Cache.Drain.Progress.{Left, drain_pending-Returns}

-- A drain, whichever of its calls fail, removes no row but withdrawn ones whose objects are gone
-- from the bucket, and no object but those of withdrawn rows. Rows have distinct ids.
pub drain_pending-Drained :
    (fuel : ℕ) (c : Conn Cache) → HasIds c.state → Drained c.state (drain_pending fuel c).1.state
drain_pending-Drained fuel c ids =
    Leaves-state (Drained c.state) (Drained c.state) (drain_pending fuel) c
      (drain_pending-Leaves c.state ids fuel) (Drained-refl c.state)

-- The rows that are not withdrawn are left, and no object of the others.
pub record Cleared (s t : Cache) : Type 0 where
  pub rows : t.rows ≡ select is_live s.rows
  pub gone : All (λ r. is_pending r ≡ true → has (has_key r.object_key) t.objects ≡ false) s.rows

-- A selection without withdrawn rows was made of live ones.
all_live :
    (kept : Thumb → Bool) (rows : List Thumb)
    → has is_pending (select kept rows) ≡ false
    → All (λ t. kept t ≡ true → is_live t ≡ true) rows
all_live kept [] h = tt
all_live kept (t ∷ ts) h = elim (Bool-cases (kept t)) [
  | inl e ↦ let k = rw e at h in ((λ _. ground arith), all_live kept ts (ground arith))
  | inr e ↦ let k = rw e at h in ((λ m. absurd (ground arith)), all_live kept ts k)
]

Cleared-of_Drained : (s t : Cache) → Drained s t → has is_pending t.rows ≡ false → Cleared s t
Cleared-of_Drained s t d f = record {
  rows = d.rows ∙ select-same d.kept is_live s.rows (All-zip _ _ _ exact s.rows d.purged live);
  gone =
      All-zip _ _ _ (λ x p l w. elim p [ inl k ↦ absurd (ground (arith, l k)) | inr q ↦ q.1 ])
        s.rows d.purged live;
}
  where
    live : All (λ x. d.kept x ≡ true → is_live x ≡ true) s.rows
    live = all_live d.kept s.rows (rw (d.rows) at f)

    exact :
        (x : Thumb)
        → (d.kept x ≡ true)
          ⊎ ((is_pending x ≡ true) × (has (has_key x.object_key) t.objects ≡ false))
        → (d.kept x ≡ true → is_live x ≡ true)
        → d.kept x ≡ is_live x
    exact x (inl k) l = ground (arith, l k)
    exact x (inr q) l = elim (Bool-cases (d.kept x)) [
      | inl e ↦ ground (arith, l e)
      | inr e ↦ ground (arith, q.0)
    ]

-- Where no call fails, a drain with more rounds of fuel than there are withdrawn rows returns; the
-- rows left are the live ones, in their order, and every withdrawn row's object is gone.
pub drain_pending-Cleared :
    (fuel : ℕ) (s : Cache)
    → HasIds s
    → length (select is_pending s.rows) < fuel
    → Returned (λ _. Cleared s) (drain_pending fuel (calm s))
drain_pending-Cleared fuel s ids h =
    (Returns-weaken (λ t. Left fuel t × Drained s t) (λ t p. p)
        (λ _ t q. Cleared-of_Drained s t q.1 q.0)
        (Returns-with (drain_pending fuel) (drain_pending-Leaves s ids fuel)
          (drain_pending-Returns fuel))).at
      s (h, Drained-refl s)
