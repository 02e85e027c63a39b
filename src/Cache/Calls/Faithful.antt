-- ===== src/Cache/Calls/Faithful.antt =====
-- Whatever the order of the calls, what the cache serves shows the entry that was asked for.
use hirame.Prelude.{
  ℕ, Bool, true, ◌&&◌, not, List, [], ◌∷◌, ◌≡◌, refl, sym, ap, subst, ◌∙◌, arith, ◌==◌, Option,
  none, some, Bytes, bytes_eq_iff, bytes_eq_refl, All, All-append, All-select, All-update,
  All-find?, find?, find?-test, has, distinct, update_where, Bool-cases, inl, inr,
}
use hirame.Ingest.Tx.{ok, calm}
use hirame.Cache.Key.{Entry, object_key}
use hirame.Cache.Key.Injective.{Names, object_key-injective}
use hirame.Cache.Tables
use hirame.Cache.Tables.{
  Cache, Thumb, Object, is_of, is_live, is_stale, among, withdrawn, has_key, published, new_thumb,
  same_object_key, store_rows,
}
use hirame.Cache.Render.{answer}
use hirame.Cache.Thumbnail.{from_cache}
use hirame.Cache.Thumbnail.Lookup.{Available-from_cache}
use hirame.Cache.Thumbnail.Available.{Available, body_at, answers}
use hirame.Cache.Calls.{
  Call, store, record_thumbnail, touch, withdraw_ids, withdraw_stale, withdraw_version, remove,
  purge_ids, elsewhere, run_call, run_calls, IsEntry, IsSound, Shows,
}

object_at :
    (key : Bytes) (objects : List Object) (image : Bytes)
    → body_at key objects ≡ some image
    → (o : Object) × (find? (has_key key) objects ≡ some o) × (o.body ≡ image)
object_at key objects image h = with_object (find? (has_key key) objects) refl h
  where
    with_object :
        (r : Option Object)
        → find? (has_key key) objects ≡ r
        → (elim r [ none ↦ none | some o ↦ some o.body ]) ≡ some image
        → (o : Object) × (find? (has_key key) objects ≡ some o) × (o.body ≡ image)
    with_object none e h = absurd (ground (arith, h))
    with_object (some o) e h = (o, e, ground (arith, h))

module _ (hash_of : ℕ → Bytes) (Shown : Bytes → ℕ → ℕ → ℕ → Bytes → Bytes → Type 0) where
  -- A row is filed under the key of its entry.
  pub record Filed (t : Thumb) : Type 0 where
    pub entry : Entry
    pub valid : IsEntry hash_of Shown entry
    pub own : is_of entry t ≡ true
    pub filed : t.object_key ≡ object_key entry

  -- An object shows the entry that its key names.
  pub record Genuine (o : Object) : Type 0 where
    pub entry : Entry
    pub valid : IsEntry hash_of Shown entry
    pub named : o.key ≡ object_key entry
    pub shows : Shows hash_of Shown entry o.body

  pub record Faithful (s : Cache) : Type 0 where
    pub rows : All Filed s.rows
    pub objects : All Genuine s.objects

  Faithful-store_rows :
      (rows : List Thumb) (next_id : ℕ) (s : Cache)
      → All Filed rows
      → Faithful s
      → Faithful (store_rows rows next_id s).1
  unfolding store_rows
  Faithful-store_rows rows next_id s h f = elim (Bool-cases (distinct same_object_key rows)) [
    | inl k ↦ rw k (record { rows = h; objects = f.objects })
    | inr k ↦ rw k f
  ]

  Faithful-upsert :
      (e : Entry) (size : ℕ) (s : Cache)
      → IsEntry hash_of Shown e
      → Faithful s
      → Faithful (Tables.upsert_thumbnail e (object_key e) size s).1
  unfolding Tables.upsert_thumbnail
  Faithful-upsert e size s i f = elim (Bool-cases (has (is_of e) s.rows)) [
    | inl k ↦ rw k (
        Faithful-store_rows _ s.next_id s
          (All-update Filed Filed (is_of e) (published (object_key e) size s.now)
            (λ x p _. record { entry = e; valid = i; own = p; filed = refl }) (λ x _ h. h) s.rows
            f.rows)
          f)
    | inr k ↦ rw k (
        Faithful-store_rows _ _ s
          (All-append Filed s.rows _ f.rows (
            record {
              entry = e;
              valid = i;
              own = ground (arith, bytes_eq_refl e.format);
              filed = refl;
            },
            tt,
          ))
          f)
  ]

  Faithful-rows :
      (p : Thumb → Bool) (g : Thumb → Thumb) (s : Cache)
      → ((e : Entry) (t : Thumb) → is_of e (g t) ≡ is_of e t)
      → ((t : Thumb) → (g t).object_key ≡ t.object_key)
      → Faithful s
      → Faithful (record s { rows = update_where p g s.rows })
  Faithful-rows p g s h k f = record {
    rows =
        All-update Filed Filed p g
          (λ x _ d. record {
            entry = d.entry;
            valid = d.valid;
            own = h d.entry x ∙ d.own;
            filed = k x ∙ d.filed;
          })
          (λ x _ d. d) s.rows f.rows;
    objects = f.objects;
  }

  Faithful-run_call :
      (call : Call) (s : Cache)
      → IsSound hash_of Shown call
      → Faithful s
      → Faithful (run_call call s)
  unfolding run_call Tables.put_object Tables.touch_thumbnail Tables.mark_pending_delete
      Tables.mark_stale Tables.mark_stale_version Tables.delete_object Tables.purge_thumbnails
  Faithful-run_call (store e image) s h f = record {
    rows = f.rows;
    objects = (
      record { entry = e; valid = h.0; named = refl; shows = h.1 },
      All-select Genuine (λ o. not (has_key (object_key e) o)) s.objects f.objects,
    );
  }
  Faithful-run_call (record_thumbnail e size) s h f = Faithful-upsert e size s h f
  Faithful-run_call (touch id) s h f =
      Faithful-rows (λ t. t.id == id) (λ t. record t { last_access_at = s.now }) s (λ e t. refl)
        (λ t. refl) f
  Faithful-run_call (withdraw_ids ids) s h f =
      Faithful-rows (among ids) (withdrawn s.now) s (λ e t. refl) (λ t. refl) f
  Faithful-run_call withdraw_stale s h f =
      Faithful-rows (is_stale s) (withdrawn s.now) s (λ e t. refl) (λ t. refl) f
  Faithful-run_call (withdraw_version version) s h f =
      Faithful-rows (λ t. (t.content_version_id == version) && is_stale s t) (withdrawn s.now) s
        (λ e t. refl) (λ t. refl) f
  Faithful-run_call (remove key) s h f = record {
    rows = f.rows;
    objects = All-select Genuine (λ o. not (has_key key o)) s.objects f.objects;
  }
  Faithful-run_call (purge_ids ids) s h f = record {
    rows = All-select Filed _ s.rows f.rows;
    objects = f.objects;
  }
  Faithful-run_call (elsewhere documents observations now) s h f = record {
    rows = f.rows;
    objects = f.objects;
  }

  Faithful-run_calls :
      (calls : List Call) (s : Cache)
      → All (IsSound hash_of Shown) calls
      → Faithful s
      → Faithful (run_calls calls s)
  Faithful-run_calls [] s h f = f
  Faithful-run_calls (call ∷ calls) s (h, hs) f =
      Faithful-run_calls calls (run_call call s) hs (Faithful-run_call call s h f)

  -- Two entries of one row have the same names.
  Names-row :
      (a b : Entry) (t : Thumb)
      → IsEntry hash_of Shown a
      → IsEntry hash_of Shown b
      → is_of a t ≡ true
      → is_of b t ≡ true
      → Names a b
  Names-row a b t ha hb p q = record {
    content_hash = ha.0 ∙ (ap hash_of same_version ∙ sym hb.0);
    page = ground arith;
    width = ground arith;
    height = ground arith;
    format =
        sym ((bytes_eq_iff t.format a.format).0 (ground arith))
        ∙ (bytes_eq_iff t.format b.format).0 (ground arith);
  }
    where
      same_version : a.content_version_id ≡ b.content_version_id
      same_version = ground arith

  Shows-Names :
      (a b : Entry) (image : Bytes)
      → Names a b
      → Shows hash_of Shown a image
      → Shows hash_of Shown b image
  Shows-Names a b image n h =
      subst (λ x. Shown b.content_hash b.page b.width b.height x image) n.format
        (subst (λ x. Shown b.content_hash b.page b.width x a.format image) n.height
          (subst (λ x. Shown b.content_hash b.page x a.height a.format image) n.width
            (subst (λ x. Shown b.content_hash x a.width a.height a.format image) n.page
              (subst (λ x. Shown x a.page a.width a.height a.format image) n.content_hash h))))

  Shows-Available :
      (e : Entry) (image : Bytes) (s : Cache)
      → IsEntry hash_of Shown e
      → Faithful s
      → Available e image s
      → Shows hash_of Shown e image
  Shows-Available e image s i f a =
      let (o, found, body) = object_at a.row.object_key s.objects image a.stored in
      let g = All-find? Genuine (has_key a.row.object_key) s.objects o f.objects found in
      let r = All-find? Filed (answers e) s.rows a.row f.rows a.found in
      let own : answers e a.row ≡ true = find?-test (answers e) s.rows a.row a.found in
      let key : o.key ≡ a.row.object_key =
        (bytes_eq_iff o.key a.row.object_key).0
          (find?-test (has_key a.row.object_key) s.objects o found) in
      let n =
        object_key-injective g.entry r.entry g.valid.1 r.valid.1 (sym g.named ∙ (key ∙ r.filed)) in
      subst (Shows hash_of Shown e) body (
        Shows-Names r.entry e o.body (Names-row r.entry e a.row r.valid i r.own (ground arith))
          (Shows-Names g.entry r.entry o.body n g.shows))

  empty-Faithful : (s : Cache) → s.rows ≡ [] → s.objects ≡ [] → Faithful s
  empty-Faithful s r o = record { rows = rw r tt; objects = rw o tt }

-- From an empty cache on, whatever calls requests and workers have made and in whatever order: an
-- image that the cache answers for an entry shows the page of that entry's content, at its size and
-- in its format. Every stored object was a rendering of the entry whose key it got, and hashes are
-- those of their versions and have no slash.
pub from_cache-Shows :
    (hash_of : ℕ → Bytes) (Shown : Bytes → ℕ → ℕ → ℕ → Bytes → Bytes → Type 0) (calls : List Call)
    (s : Cache)
    → s.rows ≡ []
    → s.objects ≡ []
    → All (IsSound hash_of Shown) calls
    → (e : Entry) (image : Bytes) → IsEntry hash_of Shown e
    → (from_cache e (calm (run_calls calls s))).0 ≡ ok (answer (some image))
    → Shows hash_of Shown e image
from_cache-Shows hash_of Shown calls s r o sound e image i h =
    Shows-Available hash_of Shown e image (run_calls calls s) i
      (Faithful-run_calls hash_of Shown calls s sound (empty-Faithful hash_of Shown s r o))
      (Available-from_cache e image (run_calls calls s) h)
