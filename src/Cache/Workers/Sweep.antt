-- ===== src/Cache/Workers/Sweep.antt =====
-- CacheSweepWorker.
use hirame.Prelude.{ℕ, ◌-◌, List, ◌≡◌, refl, sym, subst, ap, ◌∙◌, ◌⊎◌, inl, inr, select}
use hirame.Ingest.Tx.{Conn}
use hirame.Cache.Tables
use hirame.Cache.Tables.{Cache, Object, is_live, is_stale, withdraw}
use hirame.Cache.Workers.{sweep_cache, sweep_orphans, drain_pending, orphan_grace}
use hirame.Cache.Workers.Withdraw.{Without, live-Drained, Without-withdraw, HasIds-withdraw}
use hirame.Cache.Workers.Intact.{
  Intact, HasKeys, Keeps, Intact-Drained, HasKeys-withdraw, sweep_orphans-Leaves,
}
use hirame.Cache.Runs.{Leaves, After, Leaves-statement, Leaves-bind, Leaves-weaken}
use hirame.Cache.Runs.Compare.{Leaves-errors, Leaves-from}
use hirame.Cache.Drain.{Drained, Drained-refl, HasIds}
use hirame.Cache.Drain.Safety.{drain_pending-Leaves}

-- The rows that no live document shows are no longer served; the others are, with their objects.
pub record Swept (s0 s : Cache) : Type 0 where
  pub served : Without (is_stale s0) s0 s
  pub intact : Intact s0 s

module _ (s0 : Cache) (ids : HasIds s0) (keys : HasKeys s0) where
  abbrev marked : Cache
  marked = withdraw (is_stale s0) s0

  Swept-of : (mid s : Cache) → Drained marked mid → Keeps marked mid.rows s → Swept s0 s
  Swept-of mid s d k = record {
    served =
        ap (select is_live) k.0 ∙ (live-Drained marked mid d ∙ Without-withdraw (is_stale s0) s0);
    intact = k.1;
  }

  orphans :
      (cutoff : ℕ) (pages : List (List Object))
      → Leaves
          (Drained marked)
          (sweep_orphans cutoff pages)
          (λ _. Swept s0)
          (λ s. (s ≡ s0) ⊎ Swept s0 s)
  orphans cutoff pages = Leaves-from (λ mid d.
      Leaves-errors (λ s k. inr (Swept-of mid s d k))
        (Leaves-weaken (λ t. t ≡ mid)
          (λ t e.
            subst (Keeps marked mid.rows) (sym e)
              (refl, Intact-Drained marked mid (HasKeys-withdraw (is_stale s0) s0 keys) d))
          (λ _ s k. Swept-of mid s d k) (sweep_orphans-Leaves marked mid.rows cutoff pages)))

  drained :
      (fuel : ℕ)
      → Leaves
          (λ s. s ≡ marked)
          (drain_pending fuel)
          (λ _. Drained marked)
          (λ s. (s ≡ s0) ⊎ Swept s0 s)
  drained fuel =
      Leaves-errors
        (λ s d. inr (
          Swept-of s s d
            (refl, Intact-Drained marked s (HasKeys-withdraw (is_stale s0) s0 keys) d)))
        (Leaves-weaken (λ s. s ≡ marked)
          (λ s e. subst (Drained marked) (sym e) (Drained-refl marked)) (λ _ _ d. d)
          (drain_pending-Leaves marked (HasIds-withdraw (is_stale s0) s0 ids) fuel))

  sweep_cache-Leaves :
      (fuel now : ℕ) (pages : List (List Object))
      → Leaves
          (λ s. s ≡ s0)
          (sweep_cache fuel now pages)
          (λ _. Swept s0)
          (λ s. (s ≡ s0) ⊎ Swept s0 s)
  unfolding sweep_cache Tables.mark_stale
  sweep_cache-Leaves fuel now pages =
      Leaves-bind (λ _ s. s ≡ marked)
        (Leaves-statement _ (λ s e. (tt, refl, ap (λ x. withdraw (is_stale x) x) e)) (λ s e. inl e))
        (λ _.
          Leaves-bind (λ _. Drained marked) (drained fuel)
            (λ _. orphans (now - orphan_grace) pages))

-- The sweep returns nil with exactly the stale rows withdrawn from the live ones, and with every
-- object of a live row as it was; or it fails, and has either done no more than that or changed
-- nothing. Rows have distinct ids and distinct object keys; the listing brings any pages.
pub sweep_cache-Swept :
    (fuel now : ℕ) (pages : List (List Object)) (c : Conn Cache)
    → HasIds c.state
    → HasKeys c.state
    → After
        (λ _. Swept c.state)
        (λ s. (s ≡ c.state) ⊎ Swept c.state s)
        (sweep_cache fuel now pages c)
sweep_cache-Swept fuel now pages c ids keys =
    (sweep_cache-Leaves c.state ids keys fuel now pages).at c refl
