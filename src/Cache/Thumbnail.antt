-- ===== src/Cache/Thumbnail.antt =====
-- service/thumbnail.go: one request for a thumbnail, from the cache or rendered. Errors are codes,
-- and a call that fails is looked at where it is made.
pub mod Rules
pub mod Available
pub mod Lookup
pub mod Load
use hirame.Prelude.{ℕ, List, [], ◌∷◌, ◌++◌, Option, none, some, Bytes, length}
use hirame.Ingest.Types.{Error}
use hirame.Ingest.Tx.{Result, ok, err, Conn, pure, statement, ping, ◌>>=◌, ◌>>◌}
use hirame.Cache.Key.{Entry, object_key}
use hirame.Cache.Tables
use hirame.Cache.Tables.{Cache, Thumb}
use hirame.Cache.Workers.{Action, attempt}
use hirame.Cache.Render.{
  Code, canceled, internal, unavailable, failed_precondition, Reply, answer, refuse, PageRequest,
  RenderOutcome, rendered, failed, render_error,
}

abbrev pub tried_result : {A : Type 0} → Result A × Conn Cache → Result (Option A) × Conn Cache
tried_result (ok a, c) = (ok (some a), c)
tried_result (err e, c) = (ok none, c)

-- A query whose error is looked at: `none` is an error other than that of no row.
unfoldable pub tried : {A : Type 0} → Action A → Action (Option A)
tried m c = tried_result (m c)

-- The end of fromCache: an error of the touch is only logged.
unfoldable pub serve : Thumb → Bytes → Action (Reply (Option Bytes))
unfolding attempt
serve t image = do
  touched ← attempt (statement (Tables.touch_thumbnail t.id))
  pure (answer (some image))

-- The object of a row; `none` in a reply is a miss.
unfoldable pub fetch : Thumb → Action (Reply (Option Bytes))
unfolding tried serve
fetch t = do
  image ← tried (statement (Tables.get_object t.object_key))
  elim image [
    | none ↦ pure (refuse unavailable)
    | some found ↦ (elim found [ none ↦ pure (answer none) | some body ↦ serve t body ])
  ]

-- fromCache
unfoldable pub from_cache : Entry → Action (Reply (Option Bytes))
unfolding tried fetch
from_cache e = do
  row ← tried (statement (Tables.get_thumbnail e))
  elim row [
    | none ↦ pure (refuse internal)
    | some found ↦ (elim found [ none ↦ pure (answer none) | some t ↦ fetch t ])
  ]

-- The row, once the object is stored.
unfoldable pub record_row : Entry → Bytes → Action (Reply Bytes)
unfolding attempt
record_row e image = do
  recorded ← attempt (statement (Tables.upsert_thumbnail e (object_key e) (length image)))
  elim recorded [ none ↦ pure (answer image) | some _ ↦ pure (refuse unavailable) ]

-- The end of render: object first, row second.
unfoldable pub publish : Entry → Bytes → Action (Reply Bytes)
unfolding attempt record_row
publish e [] = pure (refuse internal)
publish e (b ∷ image) = do
  stored ← attempt (statement (Tables.put_object (object_key e) (b ∷ image)))
  elim stored [ none ↦ record_row e (b ∷ image) | some _ ↦ pure (refuse unavailable) ]

abbrev pub joined : List Bytes → Bytes
joined [] = []
joined (chunk ∷ chunks) = chunk ++ joined chunks

abbrev pub page_request : Entry → Bytes → PageRequest
page_request e path = record {
  source_path = path;
  page = e.page;
  format = e.format;
  max_width = e.width;
  max_height = e.height;
}

abbrev pub publish_rendered : Entry → RenderOutcome → Action (Reply Bytes)
publish_rendered e (rendered chunks) = publish e (joined chunks)
publish_rendered e (failed failure) = pure (refuse (render_error failure))

module _ (render_page : PageRequest → RenderOutcome) where
  -- sourcePath, and what follows it in render
  unfoldable pub render_source : ℕ → Entry → Action (Reply Bytes)
  unfolding tried publish
  render_source document_id e = do
    source ← tried (statement (Tables.find_document_source_path document_id e.content_version_id))
    elim source [
      | none ↦ pure (refuse internal)
      | some found ↦ (elim found [
        | none ↦ pure (refuse failed_precondition)
        | some path ↦ publish_rendered e (render_page (page_request e path))
      ])
    ]

  -- render: the slot of the limit is a call that may fail.
  unfoldable pub render : ℕ → Entry → Action (Reply Bytes)
  unfolding attempt render_source
  render document_id e = do
    slot ← attempt ping
    elim slot [ none ↦ render_source document_id e | some _ ↦ pure (refuse canceled) ]

  -- The function that load runs in the singleflight group.
  unfoldable pub render_missed : ℕ → Entry → Action (Reply Bytes)
  unfolding from_cache render
  render_missed document_id e = do
    again ← from_cache e
    elim again [
      | refuse code ↦ pure (refuse code)
      | answer found ↦ (elim found [
        | none ↦ render document_id e
        | some image ↦ pure (answer image)
      ])
    ]

  -- load, of a caller that waits
  unfoldable pub load : ℕ → Entry → Action (Reply Bytes)
  unfolding from_cache render_missed
  load document_id e = do
    cached ← from_cache e
    elim cached [
      | refuse code ↦ pure (refuse code)
      | answer found ↦ (elim found [
        | none ↦ render_missed document_id e
        | some image ↦ pure (answer image)
      ])
    ]
