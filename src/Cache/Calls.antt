-- ===== src/Cache/Calls.antt =====
-- The calls that requests and workers make on the rows and the bucket, in any order: each call is a
-- step of its own, so a list of them is an interleaving of any number of requests and workers.
pub mod Faithful
use hirame.Prelude.{ℕ, List, [], ◌∷◌, ◌≡◌, Bool, true, Bytes, All}
use hirame.Ingest.Types.{Observation}
use hirame.Ingest.Rows.{DocumentRow}
use hirame.Cache.Key.{Entry, object_key}
use hirame.Cache.Key.Injective.{lacks}
use hirame.Cache.Tables
use hirame.Cache.Tables.{Cache}

pub data Call : Type 0 where
  -- render: Put, then UpsertThumbnail
  store : Entry → Bytes → Call
  record_thumbnail : Entry → ℕ → Call
  -- fromCache
  touch : ℕ → Call
  -- the workers
  withdraw_ids : List ℕ → Call
  withdraw_stale : Call
  withdraw_version : ℕ → Call
  remove : Bytes → Call
  purge_ids : List ℕ → Call
  -- ingestion, and time
  elsewhere : List DocumentRow → List Observation → ℕ → Call

unfoldable pub run_call : Call → Cache → Cache
run_call (store e image) s = (Tables.put_object (object_key e) image s).1
run_call (record_thumbnail e size) s = (Tables.upsert_thumbnail e (object_key e) size s).1
run_call (touch id) s = (Tables.touch_thumbnail id s).1
run_call (withdraw_ids ids) s = (Tables.mark_pending_delete ids s).1
run_call withdraw_stale s = (Tables.mark_stale s).1
run_call (withdraw_version version) s = (Tables.mark_stale_version version s).1
run_call (remove key) s = (Tables.delete_object key s).1
run_call (purge_ids ids) s = (Tables.purge_thumbnails ids s).1
run_call (elsewhere documents observations now) s = record s {
  documents = documents;
  observations = observations;
  now = now;
}

abbrev pub run_calls : List Call → Cache → Cache
run_calls [] s = s
run_calls (call ∷ calls) s = run_calls calls (run_call call s)

module _ (hash_of : ℕ → Bytes) (Shown : Bytes → ℕ → ℕ → ℕ → Bytes → Bytes → Type 0) where
  -- The entry names the hash of its version, in hexadecimal digits.
  abbrev pub IsEntry : Entry → Type 0
  IsEntry e = (e.content_hash ≡ hash_of e.content_version_id) × (lacks 47 e.content_hash ≡ true)

  -- `Shown` says which images show a page of a content at a size and in a format.
  abbrev pub Shows : Entry → Bytes → Type 0
  Shows e image = Shown e.content_hash e.page e.width e.height e.format image

  -- What render stores for an entry shows it.
  abbrev pub IsSound : Call → Type 0
  IsSound (store e image) = IsEntry e × Shows e image
  IsSound (record_thumbnail e size) = IsEntry e
  IsSound (touch id) = Unit
  IsSound (withdraw_ids ids) = Unit
  IsSound withdraw_stale = Unit
  IsSound (withdraw_version version) = Unit
  IsSound (remove key) = Unit
  IsSound (purge_ids ids) = Unit
  IsSound (elsewhere documents observations now) = Unit
