-- ===== src/Cache/Tables.antt =====
-- store/queries/thumbnails.sql and the bucket of objstore: the state that the cache is kept in.
use hirame.Prelude.{
  ℕ, ◌+◌, Bool, true, false, ◌&&◌, ◌||◌, not, List, [], ◌∷◌, ◌++◌, map, Option, none, some, Bytes,
  ◌==◌, ltb, bytes_eq, find?, select, reject, update_where, has, distinct, take, sort_by,
  if◌then◌else◌,
}
use hirame.Ingest.Types.{Observation, unique_violation}
use hirame.Ingest.Tx.{Result, ok, err}
use hirame.Ingest.Rows.{DocumentRow}
use hirame.Cache.Key.{Entry}

-- thumbnail_cache. Page, width and height are the bit patterns of int32 columns, which the code
-- compares only for equality.
pub record Thumb : Type 0 where
  pub id : ℕ
  pub content_version_id : ℕ
  pub page : ℕ
  pub width : ℕ
  pub height : ℕ
  pub format : Bytes
  pub object_key : Bytes
  pub size_bytes : ℕ
  pub created_at : ℕ
  pub last_access_at : ℕ
  pub pending_delete_at : Option ℕ

-- An object of the bucket.
pub record Object : Type 0 where
  pub key : Bytes
  pub body : Bytes
  pub last_modified : ℕ

-- The rows with their identity sequence, the bucket, the tables that say which file a document is,
-- and the clock.
pub record Cache : Type 0 where
  pub rows : List Thumb
  pub next_id : ℕ
  pub objects : List Object
  pub documents : List DocumentRow
  pub observations : List Observation
  pub now : ℕ

-- pending_delete_at IS NOT NULL
abbrev pub is_pending : Thumb → Bool
is_pending t = elim t.pending_delete_at [ none ↦ false | some at ↦ true ]

abbrev pub is_live : Thumb → Bool
is_live t = not (is_pending t)

-- The unique key of thumbnail_cache.
abbrev pub is_of : Entry → Thumb → Bool
is_of e t =
    (t.content_version_id == e.content_version_id)
    && ((t.page == e.page)
        && ((t.width == e.width) && ((t.height == e.height) && bytes_eq t.format e.format)))

-- id = ANY(ids)
abbrev pub among : List ℕ → Thumb → Bool
among ids t = has (λ id. id == t.id) ids

-- d.current_content_version_id = version AND d.deleted_at IS NULL
abbrev pub shows : ℕ → DocumentRow → Bool
shows version d =
    not d.deleted && elim d.current_content_version_id [ none ↦ false | some v ↦ v == version ]

abbrev pub is_stale : Cache → Thumb → Bool
is_stale s t = is_live t && not (has (shows t.content_version_id) s.documents)

-- COALESCE(pending_delete_at, now())
abbrev pub withdrawn : ℕ → Thumb → Thumb
withdrawn now t = record t {
  pending_delete_at = elim t.pending_delete_at [ none ↦ some now | some at ↦ some at ];
}

abbrev pub withdraw : (Thumb → Bool) → Cache → Cache
withdraw p s = record s { rows = update_where p (withdrawn s.now) s.rows }

-- GetThumbnail
unfoldable pub get_thumbnail : Entry → Cache → Result (Option Thumb) × Cache
get_thumbnail e s = (ok (find? (λ t. is_of e t && is_live t) s.rows), s)

-- TouchThumbnail
unfoldable pub touch_thumbnail : ℕ → Cache → Result (Unit {0}) × Cache
touch_thumbnail id s = (
  ok tt,
  record s {
    rows = update_where (λ t. t.id == id) (λ t. record t { last_access_at = s.now }) s.rows;
  },
)

abbrev pub published : Bytes → ℕ → ℕ → Thumb → Thumb
published key size now t = record t {
  object_key = key;
  size_bytes = size;
  last_access_at = now;
  pending_delete_at = none;
}

abbrev pub new_thumb : ℕ → Entry → Bytes → ℕ → ℕ → Thumb
new_thumb id e key size now = record {
  id = id;
  content_version_id = e.content_version_id;
  page = e.page;
  width = e.width;
  height = e.height;
  format = e.format;
  object_key = key;
  size_bytes = size;
  created_at = now;
  last_access_at = now;
  pending_delete_at = none;
}

abbrev pub same_object_key : Thumb → Thumb → Bool
same_object_key a b = bytes_eq a.object_key b.object_key

-- A write of rows, which the unique constraint on object_key may refuse.
unfoldable pub store_rows : List Thumb → ℕ → Cache → Result (Unit {0}) × Cache
store_rows rows next_id s =
    if distinct same_object_key rows
    then (ok tt, record s { rows = rows; next_id = next_id })
    else (err unique_violation, s)

-- UpsertThumbnail
unfoldable pub upsert_thumbnail : Entry → Bytes → ℕ → Cache → Result (Unit {0}) × Cache
unfolding store_rows
upsert_thumbnail e key size s =
    if has (is_of e) s.rows
    then store_rows (update_where (is_of e) (published key size s.now) s.rows) s.next_id s
    else store_rows (s.rows ++ new_thumb s.next_id e key size s.now ∷ []) (s.next_id + 1) s

abbrev pub sum_bytes : List Thumb → ℕ
sum_bytes [] = 0
sum_bytes (t ∷ ts) = t.size_bytes + sum_bytes ts

-- TotalThumbnailBytes
unfoldable pub total_thumbnail_bytes : Cache → Result ℕ × Cache
total_thumbnail_bytes s = (ok (sum_bytes s.rows), s)

-- MarkThumbnailsPendingDelete
unfoldable pub mark_pending_delete : List ℕ → Cache → Result (Unit {0}) × Cache
mark_pending_delete ids s = (ok tt, withdraw (among ids) s)

-- ORDER BY a timestamp, then the id
abbrev pub no_later : ℕ → ℕ → ℕ → ℕ → Bool
no_later at id at' id' = ltb at at' || ((at == at') && not (ltb id' id))

abbrev pub pending_since : Thumb → ℕ
pending_since t = elim t.pending_delete_at [ none ↦ 0 | some at ↦ at ]

abbrev pub drained_before : Thumb → Thumb → Bool
drained_before a b = no_later (pending_since a) a.id (pending_since b) b.id

-- PendingDeleteThumbnails
unfoldable pub pending_delete_thumbnails : ℕ → Cache → Result (List Thumb) × Cache
pending_delete_thumbnails limit s =
    (ok (take limit (sort_by drained_before (select is_pending s.rows))), s)

-- PurgeThumbnails
unfoldable pub purge_thumbnails : List ℕ → Cache → Result (Unit {0}) × Cache
purge_thumbnails ids s =
    (ok tt, record s { rows = reject (λ t. among ids t && is_pending t) s.rows })

abbrev pub created_before : Thumb → Thumb → Bool
created_before a b = not (ltb b.created_at a.created_at)

-- ThumbnailEvictionCandidatesByAge
unfoldable pub candidates_by_age : ℕ → ℕ → Cache → Result (List Thumb) × Cache
candidates_by_age older_than limit s = (
  ok (
      take limit
        (sort_by created_before (select (λ t. ltb t.created_at older_than && is_live t) s.rows))),
  s,
)

-- (t2.last_access_at, t2.id) >= (t.last_access_at, t.id)
abbrev pub used_since : Thumb → Thumb → Bool
used_since t t2 = no_later t.last_access_at t.id t2.last_access_at t2.id

abbrev pub running_bytes : List Thumb → Thumb → ℕ
running_bytes rows t = sum_bytes (select (λ t2. used_since t t2 && is_live t2) rows)

-- ThumbnailEvictionCandidatesByQuota
unfoldable pub candidates_by_quota : ℕ → Cache → Result (List Thumb) × Cache
candidates_by_quota max_bytes s = (
  ok (
      sort_by used_since
        (select (λ t. is_live t && ltb max_bytes (running_bytes s.rows t)) s.rows)),
  s,
)

-- MarkStaleThumbnailsPendingDelete
unfoldable pub mark_stale : Cache → Result (Unit {0}) × Cache
mark_stale s = (ok tt, withdraw (is_stale s) s)

-- MarkThumbnailsPendingDeleteForStaleContentVersion
unfoldable pub mark_stale_version : ℕ → Cache → Result (Unit {0}) × Cache
mark_stale_version version s =
    (ok tt, withdraw (λ t. (t.content_version_id == version) && is_stale s t) s)

-- ReferencedThumbnailObjectKeys
unfoldable pub referenced_keys : List Bytes → Cache → Result (List Bytes) × Cache
referenced_keys keys s =
    (ok (map (λ t. t.object_key) (select (λ t. has (bytes_eq t.object_key) keys) s.rows)), s)

abbrev pub has_key : Bytes → Object → Bool
has_key key o = bytes_eq o.key key

-- Store.Get; `none` is ErrNoSuchKey.
unfoldable pub get_object : Bytes → Cache → Result (Option Bytes) × Cache
get_object key s =
    (ok (elim (find? (has_key key) s.objects) [ none ↦ none | some o ↦ some o.body ]), s)

-- Store.Put
unfoldable pub put_object : Bytes → Bytes → Cache → Result (Unit {0}) × Cache
put_object key body s = (
  ok tt,
  record s {
    objects =
        record { key = key; body = body; last_modified = s.now } ∷ reject (has_key key) s.objects;
  },
)

-- Store.Delete, which a missing key does not make fail.
unfoldable pub delete_object : Bytes → Cache → Result (Unit {0}) × Cache
delete_object key s = (ok tt, record s { objects = reject (has_key key) s.objects })

-- d.id = id AND d.current_content_version_id = version AND d.deleted_at IS NULL, with the join
abbrev pub is_source : ℕ → ℕ → List Observation → DocumentRow → Bool
is_source id version observations d =
    ((d.id == id) && shows version d)
    && has (λ o. (o.mountpoint_id == d.mountpoint_id) && bytes_eq o.path d.path) observations

-- FindDocumentSourcePath; the size is not used.
unfoldable pub find_document_source_path : ℕ → ℕ → Cache → Result (Option Bytes) × Cache
find_document_source_path id version s = (
  ok (elim (find? (is_source id version s.observations) s.documents) [
    | none ↦ none
    | some d ↦ some d.path
  ]),
  s,
)
