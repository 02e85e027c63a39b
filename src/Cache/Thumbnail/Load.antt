-- ===== src/Cache/Thumbnail/Load.antt =====
-- load: an answer is in the cache afterwards, and a refusal has published nothing.
use hirame.Prelude.{
  ℕ, List, [], ◌∷◌, ◌≡◌, refl, ap, ◌∙◌, Option, none, some, Bytes, length, has, distinct,
}
use hirame.Ingest.Types.{Error}
use hirame.Ingest.Tx.{ok, Conn, calm, ping, pure}
use hirame.Cache.Key.{Entry, object_key}
use hirame.Cache.Tables
use hirame.Cache.Tables.{
  Cache, Thumb, has_key, is_of, store_rows, published, new_thumb, same_object_key,
}
use hirame.Cache.Workers.{Action}
use hirame.Cache.Render.{
  canceled, failed_precondition, internal, unavailable, Reply, answer, refuse, PageRequest,
  RenderOutcome, rendered, failed,
}
use hirame.Cache.Thumbnail.{
  from_cache, record_row, publish, publish_rendered, page_request, render_source, render,
  render_missed, load, joined,
}
use hirame.Cache.Thumbnail.Rules.{Known, Leaves-step, Leaves-tried, Post, Post-if, After-ok}
use hirame.Cache.Thumbnail.Available.{
  Available, HasRow, body_at, row-published, row-new, body_at-head,
}
use hirame.Cache.Thumbnail.Lookup.{Never, Looked, from_cache-Leaves, from_cache-Available}
use hirame.Cache.Runs.{
  After, Either, Leaves, Leaves-pure, Leaves-bind, Leaves-attempt, Leaves-statement,
}

module _ (e : Entry) (rows0 : List Thumb) where
  abbrev Unchanged : Cache → Type 0
  Unchanged s = s.rows ≡ rows0

  -- What a request leaves.
  abbrev pub Replied : Reply Bytes → Cache → Type 0
  Replied (refuse code) s = Unchanged s
  Replied (answer image) s = Available e image s

  -- The object is stored under the key of the entry.
  abbrev Stored : Bytes → Cache → Type 0
  Stored image s = Unchanged s × (body_at (object_key e) s.objects ≡ some image)

  store_rows-Post :
      (image : Bytes) (s : Cache) (rows : List Thumb) (next_id : ℕ)
      → Stored image s
      → HasRow e (object_key e) rows
      → Post (λ _. Available e image) Unchanged (store_rows rows next_id s)
  unfolding store_rows
  store_rows-Post image s rows next_id h (t, f, k) =
      Post-if (λ _. Available e image) Unchanged (distinct same_object_key rows) _ _
        (λ _. record { row = t; found = f; stored = ap (λ key. body_at key s.objects) k ∙ h.1 })
        (λ _. h.0)

  upsert-Post :
      (image : Bytes) (s : Cache)
      → Stored image s
      → Post
          (λ _. Available e image)
          Unchanged
          (Tables.upsert_thumbnail e (object_key e) (length image) s)
  unfolding Tables.upsert_thumbnail
  upsert-Post image s h =
      Post-if (λ _. Available e image) Unchanged (has (is_of e) s.rows) _ _
        (λ k.
          store_rows-Post image s _ s.next_id h
            (row-published e (object_key e) (length image) s.now s.rows k))
        (λ k.
          store_rows-Post image s _ _ h
            (row-new e s.next_id (object_key e) (length image) s.now s.rows k))

  record_row-Leaves : (image : Bytes) → Leaves (Stored image) (record_row e image) Replied Never
  unfolding record_row
  record_row-Leaves image =
      Leaves-bind (Either (Available e image) Unchanged)
        (Leaves-attempt Never
          (Leaves-step (λ _. Available e image) Unchanged _ (upsert-Post image) (λ s h. h.0)))
        recorded
    where
      recorded :
          (o : Option Error)
          → Leaves
              (Either (Available e image) Unchanged o)
              (elim o [ none ↦ pure (answer image) | some _ ↦ pure (refuse unavailable) ])
              Replied
              Never
      recorded none = Leaves-pure _ (λ s a. a)
      recorded (some x) = Leaves-pure _ (λ s u. u)

  publish-Leaves : (image : Bytes) → Leaves Unchanged (publish e image) Replied Never
  unfolding publish Tables.put_object
  publish-Leaves [] = Leaves-pure _ (λ s u. u)
  publish-Leaves (b ∷ image) =
      Leaves-bind (Either (Stored (b ∷ image)) Unchanged)
        (Leaves-attempt Never (
          Leaves-statement _
            (λ s u. (tt, refl, (u, body_at-head (object_key e) (b ∷ image) s.now _))) (λ s u. u)))
        stored
    where
      stored :
          (o : Option Error)
          → Leaves
              (Either (Stored (b ∷ image)) Unchanged o)
              (elim o [ none ↦ record_row e (b ∷ image) | some _ ↦ pure (refuse unavailable) ])
              Replied
              Never
      stored none = record_row-Leaves (b ∷ image)
      stored (some x) = Leaves-pure _ (λ s u. u)

  publish_rendered-Leaves :
      (r : RenderOutcome) → Leaves Unchanged (publish_rendered e r) Replied Never
  publish_rendered-Leaves (rendered chunks) = publish-Leaves (joined chunks)
  publish_rendered-Leaves (failed failure) = Leaves-pure _ (λ s u. u)

  module _ (render_page : PageRequest → RenderOutcome) (document_id : ℕ) where
    render_source-Leaves : Leaves Unchanged (render_source render_page document_id e) Replied Never
    unfolding render_source Tables.find_document_source_path
    render_source-Leaves =
        Leaves-bind (Known (λ _. Unchanged) Unchanged)
          (Leaves-tried (λ _. Unchanged) Unchanged Never
            (Leaves-statement _ (λ s u. (_, refl, u)) (λ s u. u)))
          sourced
      where
        sourced :
            (o : Option (Option Bytes))
            → Leaves
                (Known (λ _. Unchanged) Unchanged o)
                (elim o [
                  | none ↦ pure (refuse internal)
                  | some found ↦ (elim found [
                    | none ↦ pure (refuse failed_precondition)
                    | some path ↦ publish_rendered e (render_page (page_request e path))
                  ])
                ])
                Replied
                Never
        sourced none = Leaves-pure _ (λ s u. u)
        sourced (some none) = Leaves-pure _ (λ s u. u)
        sourced (some (some path)) = publish_rendered-Leaves (render_page (page_request e path))

    render-Leaves : Leaves Unchanged (render render_page document_id e) Replied Never
    unfolding render ping
    render-Leaves =
        Leaves-bind (Either Unchanged Unchanged)
          (Leaves-attempt Never (Leaves-statement _ (λ s u. (tt, refl, u)) (λ s u. u))) slotted
      where
        slotted :
            (o : Option Error)
            → Leaves
                (Either Unchanged Unchanged o)
                (elim o [
                  | none ↦ render_source render_page document_id e
                  | some _ ↦ pure (refuse canceled)
                ])
                Replied
                Never
        slotted none = render_source-Leaves
        slotted (some x) = Leaves-pure _ (λ s u. u)

    -- After a look at the cache: what a miss leads to.
    missed_or_found :
        (missed : Action (Reply Bytes))
        → Leaves Unchanged missed Replied Never
        → (r : Reply (Option Bytes))
        → Leaves
            (Looked e rows0 r)
            (elim r [
              | refuse code ↦ pure (refuse code)
              | answer found ↦ (elim found [ none ↦ missed | some image ↦ pure (answer image) ])
            ])
            Replied
            Never
    missed_or_found missed h (refuse code) = Leaves-pure _ (λ s u. u)
    missed_or_found missed h (answer none) = h
    missed_or_found missed h (answer (some image)) = Leaves-pure _ (λ s a. a)

    pub load-Leaves : Leaves Unchanged (load render_page document_id e) Replied Never
    unfolding load render_missed
    load-Leaves = Leaves-bind (Looked e rows0) (from_cache-Leaves e rows0) (
        missed_or_found (render_missed render_page document_id e) (
          Leaves-bind (Looked e rows0) (from_cache-Leaves e rows0)
            (missed_or_found (render render_page document_id e) render-Leaves)))

-- A request for a thumbnail, whichever calls fail, gives an answer or a code, and no other error.
-- After an answer the entry has a live row whose object is the image answered; after a code no row
-- has changed.
pub load-Replied :
    (render_page : PageRequest → RenderOutcome) (document_id : ℕ) (e : Entry) (c : Conn Cache)
    → After (Replied e c.state.rows) (λ _. ⊥) (load render_page document_id e c)
load-Replied render_page document_id e c =
    (load-Leaves e c.state.rows render_page document_id).at c refl

-- A thumbnail that a request was answered with is what the cache answers next, where that look
-- into it does not fail.
pub from_cache-load :
    (render_page : PageRequest → RenderOutcome) (document_id : ℕ) (e : Entry) (c : Conn Cache)
    (image : Bytes)
    → (load render_page document_id e c).0 ≡ ok (answer image)
    → (from_cache e (calm (load render_page document_id e c).1.state)).0 ≡ ok (answer (some image))
from_cache-load render_page document_id e c image h =
    from_cache-Available e image (load render_page document_id e c).1.state (
      After-ok (Replied e c.state.rows) (λ _. ⊥) (load render_page document_id e c) (answer image)
        (load-Replied render_page document_id e c) h)
