-- ===== src/Cache/Tests.antt =====
-- A cache of three rows, on which the theorems of the cache apply: one withdrawn, one that a
-- document shows, and one of a version that no document shows.
use hirame.Prelude.{
  ℕ, List, Bytes, has, ◌*◌, ◌-◌, bytes_eq, true, false, [], ◌∷◌, ◌≡◌, ◌⊎◌, refl, arith, codes,
  Option, none, some,
}
use hirame.Ingest.Tx.{Conn, ok, calm, statement, ping}
use hirame.Ingest.Types.{Observation}
use hirame.Ingest.Rows.{DocumentRow}
use hirame.Cache.Key.{Entry, digits, decimal, object_key}
use hirame.Cache.Key.Injective.{Names, object_key-injective}
use hirame.Cache.Tables
use hirame.Cache.Tables.{is_live, Cache, Thumb, Object}
use hirame.Cache.Render.{PageRequest, RenderOutcome, rendered, answer}
use hirame.Cache.Thumbnail.{
  load, render_missed, render, render_source, publish, record_row, from_cache, fetch, serve, tried,
}
use hirame.Cache.Thumbnail.Load.{Replied, load-Replied, from_cache-load}
use hirame.Cache.Calls.{
  Call, store, record_thumbnail, withdraw_ids, remove, purge_ids, run_call, run_calls, Shows,
}
use hirame.Cache.Calls.Faithful.{from_cache-Shows}
use hirame.Cache.Workers.{
  attempt, drain_pending, invalidate_thumbnails, mark_by_quota, mark_by_age, maintain_eviction,
  sweep_cache, sweep_orphans,
}
use hirame.Cache.Workers.Withdraw.{Without}
use hirame.Cache.Workers.Invalidate.{superseded, invalidate_thumbnails-Without}
use hirame.Cache.Workers.Quota.{Trimmed, mark_by_quota-Trimmed}
use hirame.Cache.Workers.Age.{Aged, mark_by_age-Aged}
use hirame.Cache.Workers.Eviction.{Maintained, maintain_eviction-Maintained}
use hirame.Cache.Workers.Sweep.{Swept, sweep_cache-Swept}
use hirame.Cache.Workers.Orphans.{Accounted, sweep_orphans-Accounted}
use hirame.Cache.Runs.{After, Returned}
use hirame.Cache.Drain.{Drained}
use hirame.Cache.Drain.Complete.{Cleared, drain_pending-Drained, drain_pending-Cleared}

abbrev thumb : ℕ → ℕ → Option ℕ → Thumb
thumb id version pending = record {
  id = id;
  content_version_id = version;
  page = 1;
  width = 256;
  height = 256;
  format = codes "webp";
  object_key = id ∷ [];
  size_bytes = 10 * id;
  created_at = 100 * id;
  last_access_at = 100 * id;
  pending_delete_at = pending;
}

abbrev shown : DocumentRow
shown = record {
  id = 1;
  mountpoint_id = 1;
  path = codes "/a";
  dev = 0;
  ino = 0;
  current_content_version_id = some 8;
  deleted = false;
}

abbrev seen : Observation
seen = record {
  mountpoint_id = 1;
  path = codes "/a";
  size = 7;
  mode = 0;
  mtime = none;
  ino = 0;
  dev = 0;
  is_dir = false;
  seen_epoch = 1;
}

abbrev object : ℕ → Object
object id = record { key = id ∷ []; body = codes "RIFF"; last_modified = id }

-- The object with key 4 has no row.
abbrev cache : Cache
cache = record {
  rows = thumb 1 7 (some 5) ∷ thumb 2 8 none ∷ thumb 3 7 none ∷ [];
  next_id = 4;
  objects = object 1 ∷ object 2 ∷ object 3 ∷ object 4 ∷ [];
  documents = shown ∷ [];
  observations = seen ∷ [];
  now = 1000;
}

-- The third call fails.
abbrev unlucky : Conn Cache
unlucky = record { state = cache; faults = false ∷ false ∷ true ∷ [] }

drain_pending-Drained_example : Drained cache (drain_pending 3 unlucky).1.state
drain_pending-Drained_example = drain_pending-Drained 3 unlucky refl

drain_pending-Cleared_example : Returned (λ _. Cleared cache) (drain_pending 3 (calm cache))
drain_pending-Cleared_example = drain_pending-Cleared 3 cache refl (omega arith)

invalidate_thumbnails-Without_example :
    After
      (λ _. Without (superseded 7 cache) cache)
      (λ s. (s ≡ cache) ⊎ Without (superseded 7 cache) cache s)
      (invalidate_thumbnails 3 7 unlucky)
invalidate_thumbnails-Without_example = invalidate_thumbnails-Without 3 7 unlucky refl

mark_by_quota-Trimmed_example :
    After (λ _. Trimmed 25 cache) (λ s. s ≡ cache) (mark_by_quota 25 unlucky)
mark_by_quota-Trimmed_example = mark_by_quota-Trimmed 25 unlucky (omega arith) refl

mark_by_age-Aged_example : Aged (1000 - 750) cache (mark_by_age 3 1000 750 unlucky).1.state
mark_by_age-Aged_example = mark_by_age-Aged 3 1000 750 unlucky refl

maintain_eviction-Maintained_example :
    Returned (λ _. Maintained (1000 - 750) 35) (maintain_eviction 4 1000 750 35 (calm cache))
maintain_eviction-Maintained_example =
    maintain_eviction-Maintained 4 1000 749 34 cache refl (omega arith)

sweep_cache-Swept_example :
    After
      (λ _. Swept cache)
      (λ s. (s ≡ cache) ⊎ Swept cache s)
      (sweep_cache 3 1000 ((object 2 ∷ object 4 ∷ []) ∷ []) unlucky)
unfolding bytes_eq
sweep_cache-Swept_example =
    sweep_cache-Swept 3 1000 ((object 2 ∷ object 4 ∷ []) ∷ []) unlucky refl refl

sweep_orphans-Accounted_example :
    Returned
      (λ _ t. (t.rows ≡ cache.rows) × Accounted 3 t)
      (sweep_orphans 3 ((object 1 ∷ object 2 ∷ []) ∷ (object 3 ∷ object 4 ∷ []) ∷ []) (calm cache))
sweep_orphans-Accounted_example =
    sweep_orphans-Accounted 3 ((object 1 ∷ object 2 ∷ []) ∷ (object 3 ∷ object 4 ∷ []) ∷ []) cache
      refl

abbrev entry : Entry
entry = record {
  content_version_id = 7;
  content_hash = codes "ab";
  page = 1;
  width = 256;
  height = 256;
  format = codes "webp";
}

-- The same content, under another version.
abbrev renumbered : Entry
renumbered = record entry { content_version_id = 8 }

object_key-injective_example : Names entry renumbered
unfolding object_key
object_key-injective_example = object_key-injective entry renumbered refl refl refl

-- A renderer that hands on two slices.
abbrev render_page : PageRequest → RenderOutcome
render_page request = rendered (codes "RI" ∷ codes "FF" ∷ [])

load-Replied_example :
    After (Replied renumbered cache.rows) (λ _. ⊥) (load render_page 1 renumbered unlucky)
load-Replied_example = load-Replied render_page 1 renumbered unlucky

from_cache-load_example :
    (from_cache renumbered (calm (load render_page 1 renumbered (calm cache)).1.state)).0
    ≡ ok (answer (some (codes "RIFF")))
unfolding bytes_eq object_key decimal digits load render_missed render render_source publish
    record_row from_cache fetch serve tried attempt statement ping Tables.get_thumbnail
    Tables.get_object Tables.touch_thumbnail Tables.find_document_source_path Tables.put_object
    Tables.upsert_thumbnail Tables.store_rows
from_cache-load_example = from_cache-load render_page 1 renumbered (calm cache) (codes "RIFF") refl

abbrev bare : Cache
bare = record cache { rows = []; objects = [] }

-- A rendering is published, withdrawn and listed by a drain; then a request renders it again, and
-- the drain goes on.
abbrev calls : List Call
calls =
    store renumbered (codes "RIFF")
    ∷ record_thumbnail renumbered 4
    ∷ withdraw_ids (4 ∷ [])
    ∷ store renumbered (codes "RIFF")
    ∷ record_thumbnail renumbered 4
    ∷ []

abbrev hash_of : ℕ → Bytes
hash_of version = codes "ab"

abbrev Shown : Bytes → ℕ → ℕ → ℕ → Bytes → Bytes → Type 0
Shown hash page width height format image = image ≡ codes "RIFF"

from_cache-Shows_example : Shows hash_of Shown renumbered (codes "RIFF")
unfolding bytes_eq object_key decimal digits from_cache fetch serve tried attempt statement run_call
    Tables.get_thumbnail Tables.get_object Tables.touch_thumbnail Tables.put_object
    Tables.upsert_thumbnail Tables.store_rows Tables.mark_pending_delete
from_cache-Shows_example =
    from_cache-Shows hash_of Shown calls bare refl refl
      (((refl, refl), refl), ((refl, refl), (tt, (((refl, refl), refl), ((refl, refl), tt)))))
      renumbered (codes "RIFF") (refl, refl) refl

-- The drain goes on with the object that it had listed, and purges nothing: a row stays live
-- without its object.
late_delete :
    let s = run_calls calls bare in
    let t = run_calls (remove (object_key renumbered) ∷ purge_ids (4 ∷ []) ∷ []) s in
    (has is_live t.rows ≡ true) × (t.objects ≡ [])
unfolding bytes_eq object_key decimal digits run_call Tables.put_object Tables.upsert_thumbnail
    Tables.store_rows Tables.mark_pending_delete Tables.delete_object Tables.purge_thumbnails
late_delete = (refl, refl)
