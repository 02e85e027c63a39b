-- ===== src/Cache/Workers/Eviction.antt =====
-- EvictionMaintenanceWorker, where no call fails.
use hirame.Prelude.{
  ℕ, suc, ◌-◌, ◌≤◌, ◌<◌, false, ◌&&◌, not, List, [], ◌∷◌, ◌≡◌, refl, sym, ap, ◌∙◌, arith, Option,
  none, some, has, select, length, length-select-le,
}
use hirame.Ingest.Types.{Error}
use hirame.Ingest.Tx.{calm, statement, pure, raise, ◌>>=◌}
use hirame.Cache.Tables
use hirame.Cache.Tables.{Cache, Thumb, is_live, is_pending, sum_bytes}
use hirame.Cache.Workers.{
  maintain_eviction, mark_by_age, mark_by_quota, drain_and_total, drain_pending, attempt,
}
use hirame.Cache.Workers.Age.{expired, expired_live, NoneExpired, mark_aged-exact}
use hirame.Cache.Workers.Quota.{Trimmed, over_quota, mark_by_quota-Returned}
use hirame.Cache.Runs.{
  Returns, Returned, Returns-attempt, Returns-bind, Returns-statement, Returns-pure,
}
use hirame.Cache.Drain.{HasIds}
use hirame.Cache.Drain.Complete.{Cleared, drain_pending-Cleared}

-- The rows fit the quota, none is expired, and none is withdrawn.
pub record Maintained (cutoff max : ℕ) (s : Cache) : Type 0 where
  pub fits : sum_bytes s.rows ≤ max
  pub young : has (expired cutoff) s.rows ≡ false
  pub served : has is_pending s.rows ≡ false

-- Between the passes: what the drain at the end still needs.
abbrev AfterAge : ℕ → ℕ → Cache → Type 0
AfterAge cutoff fuel s = HasIds s × (NoneExpired cutoff s × (length s.rows < fuel))

abbrev AfterQuota : ℕ → ℕ → ℕ → Cache → Type 0
AfterQuota cutoff max fuel s = AfterAge cutoff fuel s × (sum_bytes (select is_live s.rows) ≤ max)

has-expired_live :
    (cutoff : ℕ) (ts : List Thumb)
    → has (expired cutoff) (select is_live ts) ≡ has (expired_live cutoff) ts
has-expired_live cutoff [] = refl
has-expired_live cutoff (x ∷ xs) = ground (arith, has-expired_live cutoff xs)

none_fresh :
    (cutoff : ℕ) (ts : List Thumb)
    → has (expired cutoff) (select (λ x. is_live x && not (expired cutoff x)) ts) ≡ false
none_fresh cutoff [] = refl
none_fresh cutoff (x ∷ xs) = ground (arith, none_fresh cutoff xs)

none_expired :
    (cutoff max : ℕ) (s t : Cache) → NoneExpired cutoff s → Trimmed max s t → NoneExpired cutoff t
none_expired cutoff max s t n d =
    sym (has-expired_live cutoff t.rows) ∙ (ap (has (expired cutoff)) d.exact ∙ still s.rows n)
  where
    still :
        (ts : List Thumb)
        → has (expired_live cutoff) ts ≡ false
        → has (expired cutoff) (select (λ x. is_live x && not (over_quota max s.rows x)) ts) ≡ false
    still [] h = refl
    still (x ∷ xs) h = ground (arith, still xs)

Maintained-of :
    (cutoff max : ℕ) (s t : Cache)
    → NoneExpired cutoff s
    → sum_bytes (select is_live s.rows) ≤ max
    → Cleared s t
    → Maintained cutoff max t
Maintained-of cutoff max s t n f c = record {
  fits = rw (c.rows) f;
  young = rw (c.rows) (has-expired_live cutoff s.rows ∙ n);
  served = rw (c.rows) (unwithdrawn s.rows);
}
  where
    unwithdrawn : (ts : List Thumb) → has is_pending (select is_live ts) ≡ false
    unwithdrawn [] = refl
    unwithdrawn (x ∷ xs) = ground (arith, unwithdrawn xs)

module _ (fuel now : ℕ) (s0 : Cache) where
  age_pass :
      (age : ℕ)
      → HasIds s0
      → length s0.rows < fuel
      → Returns (λ s. s ≡ s0) (mark_by_age fuel now (suc age)) (λ _. AfterAge (now - suc age) fuel)
  unfolding mark_by_age
  age_pass age ids h = record {
    at = λ s p.
        let k : length (select (expired_live (now - suc age)) s0.rows) < fuel =
          let le = length-select-le (expired_live (now - suc age)) s0.rows in
          omega (arith, le, h) in
        let (a, t, e, (q, w)) = mark_aged-exact (now - suc age) fuel s0 ids k in
        (a, t, rw p e, (q.ids, (none_left t w, rw (q.size) h)));
  }
    where
      none_left :
          (t : Cache)
          → select is_live t.rows
            ≡ select (λ x. is_live x && not (expired (now - suc age) x)) s0.rows
          → NoneExpired (now - suc age) t
      none_left t w =
          sym (has-expired_live (now - suc age) t.rows)
          ∙ (ap (has (expired (now - suc age))) w ∙ none_fresh (now - suc age) s0.rows)

  quota_pass :
      (cutoff max : ℕ)
      → 0 < max
      → Returns (AfterAge cutoff fuel) (mark_by_quota max) (λ _. AfterQuota cutoff max fuel)
  quota_pass cutoff max h = record {
    at = λ s p.
        let (a, t, e, q) = mark_by_quota-Returned max s h p.0 in
        (a, t, e, ((q.ids, (none_expired cutoff max s t p.1.0 q, rw (q.size) p.1.1)), q.fits));
  }

  last_pass :
      (cutoff max : ℕ)
      → Returns (AfterQuota cutoff max fuel) (drain_and_total fuel) (λ _. Maintained cutoff max)
  unfolding drain_and_total Tables.total_thumbnail_bytes
  last_pass cutoff max =
      Returns-bind (λ d s. (d ≡ none) × Maintained cutoff max s) (Returns-attempt drained) totalled
    where
      drained :
          Returns (AfterQuota cutoff max fuel) (drain_pending fuel) (λ _. Maintained cutoff max)
      drained = record {
        at = λ s p.
            let le = length-select-le is_pending s.rows in
            let k : length (select is_pending s.rows) < fuel =
              let m = p.0.1.1 in omega (arith, le, m) in
            let (a, t, e, c) = drain_pending-Cleared fuel s p.0.0 k in
            (a, t, e, Maintained-of cutoff max s t p.0.1.0 p.1 c);
      }

      totalled :
          (d : Option Error)
          → Returns
              (λ s. (d ≡ none) × Maintained cutoff max s)
              (elim d [
                | none ↦ (do total ← statement Tables.total_thumbnail_bytes; pure tt)
                | some e ↦ (do
                  total ← attempt (do sum ← statement Tables.total_thumbnail_bytes; pure tt)
                  raise e)
              ])
              (λ _. Maintained cutoff max)
      totalled none =
          Returns-bind (λ _. Maintained cutoff max) (Returns-statement _ (λ s p. (_, refl, p.1)))
            (λ _. Returns-pure tt (λ s m. m))
      totalled (some e) = record { at = λ s p. absurd (ground (arith, p.0)) }

-- With both limits set, where no call fails and the rounds of fuel are more than the rows, the
-- maintenance job returns nil; then the rows left together fit the quota, none was created before
-- the age limit, and none is withdrawn. Rows have distinct ids.
pub maintain_eviction-Maintained :
    (fuel now age max : ℕ) (s : Cache)
    → HasIds s
    → length s.rows < fuel
    → Returned
        (λ _. Maintained (now - suc age) (suc max))
        (maintain_eviction fuel now (suc age) (suc max) (calm s))
unfolding maintain_eviction
maintain_eviction-Maintained fuel now age max s ids h =
    (Returns-bind (λ _. AfterAge (now - suc age) fuel) (age_pass fuel now s age ids h)
        (λ _.
          Returns-bind (λ _. AfterQuota (now - suc age) (suc max) fuel)
            (quota_pass fuel now s (now - suc age) (suc max) (ground arith))
            (λ _. last_pass fuel now s (now - suc age) (suc max)))).at
      s refl
