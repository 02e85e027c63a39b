-- ===== src/Cache/Workers.antt =====
-- cache_workers.go: the three workers that take thumbnails out of the cache.
pub mod Withdraw
pub mod Invalidate
pub mod Candidates
pub mod Quota
pub mod Age
pub mod Eviction
pub mod Intact
pub mod Sweep
pub mod Orphans
use hirame.Prelude.{
  ℕ, zero, suc, ◌+◌, ◌-◌, Bool, true, false, ◌&&◌, not, List, [], ◌∷◌, ◌++◌, map, Option, none,
  some, Bytes, ◌==◌, ltb, bytes_eq, has, length, reject, if◌then◌else◌,
}
use hirame.Ingest.Types.{Error}
use hirame.Ingest.Tx.{Result, ok, err, Conn, Tx, pure, raise, statement, ping, ◌>>=◌, ◌>>◌}
use hirame.Cache.Tables
use hirame.Cache.Tables.{Cache, Thumb, Object}

abbrev pub Action : Type 0 → Type 0
Action A = Tx Cache A

-- evictionBatch, drainBatch and orphanGrace (an hour, in nanoseconds)
abbrev pub eviction_batch : ℕ
eviction_batch = 500

abbrev pub drain_batch : ℕ
drain_batch = 500

abbrev pub orphan_grace : ℕ
orphan_grace = 3600000000000

abbrev pub ids_of : List Thumb → List ℕ
ids_of = map (λ (t : Thumb). t.id)

-- A call whose error is looked at: `some e` is the error.
abbrev pub observed : Result (Unit {0}) × Conn Cache → Result (Option Error) × Conn Cache
observed (ok _, c) = (ok none, c)
observed (err e, c) = (ok (some e), c)

unfoldable pub attempt : Action (Unit {0}) → Action (Option Error)
attempt m c = observed (m c)

-- The loop over a batch: what is to be purged, and the first error.
unfoldable pub delete_objects : List Thumb → Action (List ℕ × Option Error)
unfolding attempt
delete_objects [] = pure ([], none)
delete_objects (t ∷ ts) = do
  failed ← attempt (statement (Tables.delete_object t.object_key))
  rest ← delete_objects ts
  pure (elim failed [ none ↦ (t.id ∷ rest.0, rest.1) | some e ↦ (rest.0, some e) ])

-- len(purge) > 0
unfoldable pub purge : List ℕ → Action (Unit {0})
purge [] = pure tt
purge (id ∷ ids) = statement (Tables.purge_thumbnails (id ∷ ids))

-- The tests at the end of a round of drainPending.
abbrev pub after_round : Action (Unit {0}) → List Thumb → Option Error → Action (Unit {0})
after_round again batch (some e) = raise e
after_round again batch none = if ltb (length batch) drain_batch then pure tt else again

-- drainPending, on fuel. Its counters are only logged.
unfoldable pub drain_pending : ℕ → Action (Unit {0})
unfolding delete_objects purge
drain_pending zero = pure tt
drain_pending (suc n) = do
  batch ← statement (Tables.pending_delete_thumbnails drain_batch)
  elim batch [
    | [] ↦ pure tt
    | t ∷ ts ↦ (do
      done ← delete_objects (t ∷ ts)
      purge done.0
      after_round (drain_pending n) (t ∷ ts) done.1)
  ]

-- InvalidateThumbnailsWorker.Work
unfoldable pub invalidate_thumbnails : ℕ → ℕ → Action (Unit {0})
unfolding drain_pending
invalidate_thumbnails fuel superseded = do
  statement (Tables.mark_stale_version superseded)
  drain_pending fuel

-- mark
unfoldable pub mark : List Thumb → Action (Unit {0})
mark candidates = statement (Tables.mark_pending_delete (ids_of candidates))

-- The loop of markByAge, on fuel.
unfoldable pub mark_aged : ℕ → ℕ → Action (Unit {0})
unfolding mark
mark_aged zero cutoff = pure tt
mark_aged (suc n) cutoff = do
  candidates ← statement (Tables.candidates_by_age cutoff eviction_batch)
  elim candidates [
    | [] ↦ pure tt
    | t ∷ ts ↦ (do
      mark (t ∷ ts)
      if ltb (length (t ∷ ts)) eviction_batch then pure tt else mark_aged n cutoff)
  ]

-- markByAge; `now` is time.Now(), and a limit of 0 is disabled.
unfoldable pub mark_by_age : ℕ → ℕ → ℕ → Action (Unit {0})
unfolding mark_aged
mark_by_age fuel now zero = pure tt
mark_by_age fuel now (suc age) = mark_aged fuel (now - suc age)

-- markByQuota
unfoldable pub mark_by_quota : ℕ → Action (Unit {0})
unfolding mark
mark_by_quota zero = pure tt
mark_by_quota (suc max) = do
  candidates ← statement (Tables.candidates_by_quota (suc max))
  elim candidates [ [] ↦ pure tt | t ∷ ts ↦ mark (t ∷ ts) ]

-- EvictionMaintenanceWorker.Work, from the drain on: the drain's error comes first.
unfoldable pub drain_and_total : ℕ → Action (Unit {0})
unfolding drain_pending attempt
drain_and_total fuel = do
  drained ← attempt (drain_pending fuel)
  elim drained [
    | none ↦ (do total ← statement Tables.total_thumbnail_bytes; pure tt)
    | some e ↦ (do
      total ← attempt (do sum ← statement Tables.total_thumbnail_bytes; pure tt)
      raise e)
  ]

-- EvictionMaintenanceWorker.Work
unfoldable pub maintain_eviction : ℕ → ℕ → ℕ → ℕ → Action (Unit {0})
unfolding mark_by_age mark_by_quota drain_and_total
maintain_eviction fuel now max_age max_bytes = do
  mark_by_age fuel now max_age
  mark_by_quota max_bytes
  drain_and_total fuel

-- The candidates of a page of the listing: those not modified after the cutoff.
abbrev pub settled_keys : ℕ → List Object → List Bytes
settled_keys cutoff [] = []
settled_keys cutoff (o ∷ page) =
    let rest = settled_keys cutoff page in if ltb cutoff o.last_modified then rest else o.key ∷ rest

-- The deletions of a page: the candidates that accounting does not know.
unfoldable pub delete_unknown : List Bytes → List Bytes → Action (Unit {0})
delete_unknown known [] = pure tt
delete_unknown known (key ∷ keys) = do
  if has (bytes_eq key) known then pure tt else statement (Tables.delete_object key)
  delete_unknown known keys

-- The callback of sweepOrphans.
unfoldable pub sweep_page : List Bytes → Action (Unit {0})
unfolding delete_unknown
sweep_page [] = pure tt
sweep_page (key ∷ keys) = do
  known ← statement (Tables.referenced_keys (key ∷ keys))
  delete_unknown known (key ∷ keys)

-- sweepOrphans; `pages` is what the listing brings, one call of the bucket each.
unfoldable pub sweep_orphans : ℕ → List (List Object) → Action (Unit {0})
unfolding sweep_page
sweep_orphans cutoff [] = pure tt
sweep_orphans cutoff (page ∷ pages) = do
  ping
  sweep_page (settled_keys cutoff page)
  sweep_orphans cutoff pages

-- CacheSweepWorker.Work
unfoldable pub sweep_cache : ℕ → ℕ → List (List Object) → Action (Unit {0})
unfolding drain_pending sweep_orphans
sweep_cache fuel now pages = do
  statement Tables.mark_stale
  drain_pending fuel
  sweep_orphans (now - orphan_grace) pages
