-- ===== src/Cache/Thumbnail/Lookup.antt =====
-- fromCache: what it answers is in the cache, and a miss changes no row.
use hirame.Prelude.{List, ◌≡◌, refl, sym, ap, ◌∙◌, arith, ◌==◌, Option, none, some, Bytes}
use hirame.Ingest.Types.{Error}
use hirame.Ingest.Tx.{ok, calm, statement, pure}
use hirame.Cache.Key.{Entry}
use hirame.Cache.Tables
use hirame.Cache.Tables.{
  Cache, Thumb, has_key, is_of, store_rows, published, new_thumb, same_object_key,
}
use hirame.Cache.Workers.{attempt}
use hirame.Cache.Render.{internal, unavailable, Reply, answer, refuse}
use hirame.Cache.Thumbnail.{from_cache, fetch, serve, tried}
use hirame.Cache.Thumbnail.Rules.{Known, Leaves-tried}
use hirame.Cache.Thumbnail.Available.{Available, row_of, body_at, row-touched}
use hirame.Cache.Runs.{
  Either, Leaves, Leaves-pure, Leaves-bind, Leaves-attempt, Leaves-statement, Leaves-weaken,
}

abbrev pub Never : Cache → Type 0
Never _ = ⊥

module _ (e : Entry) (rows0 : List Thumb) where
  abbrev Unchanged : Cache → Type 0
  Unchanged s = s.rows ≡ rows0

  -- What fromCache leaves.
  abbrev pub Looked : Reply (Option Bytes) → Cache → Type 0
  Looked (refuse code) s = Unchanged s
  Looked (answer none) s = Unchanged s
  Looked (answer (some image)) s = Available e image s

  Available-touched :
      (t : Thumb) (image : Bytes) (s : Cache)
      → Available e image s
      → Available e image (Tables.touch_thumbnail t.id s).1
  unfolding Tables.touch_thumbnail
  Available-touched t image s a =
      let (r, f, k) = row-touched e (λ x. x.id == t.id) s.now s.rows a.row a.found in
      record { row = r; found = f; stored = ap (λ key. body_at key s.objects) k ∙ a.stored }

  serve-Leaves :
      (t : Thumb) (image : Bytes) → Leaves (Available e image) (serve t image) Looked Never
  unfolding serve Tables.touch_thumbnail
  serve-Leaves t image =
      Leaves-bind (Either (Available e image) (Available e image))
        (Leaves-attempt Never
          (Leaves-statement _ (λ s a. (tt, refl, Available-touched t image s a)) (λ s a. a)))
        touched
    where
      touched :
          (o : Option Error)
          → Leaves
              (Either (Available e image) (Available e image) o)
              (pure (answer (some image)))
              Looked
              Never
      touched none = Leaves-pure _ (λ s a. a)
      touched (some x) = Leaves-pure _ (λ s a. a)

  -- The row that was found, with the rows as they were.
  abbrev Row : Thumb → Cache → Type 0
  Row t s = Unchanged s × (row_of e s.rows ≡ some t)

  fetch-Leaves : (t : Thumb) → Leaves (Row t) (fetch t) Looked Never
  unfolding fetch Tables.get_object
  fetch-Leaves t =
      Leaves-bind (Known (λ o s. Row t s × (o ≡ body_at t.object_key s.objects)) (Row t))
        (Leaves-tried (λ o s. Row t s × (o ≡ body_at t.object_key s.objects)) (Row t) Never
          (Leaves-statement _ (λ s r. (_, refl, (r, refl))) (λ s r. r)))
        found
    where
      found :
          (o : Option (Option Bytes))
          → Leaves
              (Known (λ o s. Row t s × (o ≡ body_at t.object_key s.objects)) (Row t) o)
              (elim o [
                | none ↦ pure (refuse unavailable)
                | some body ↦ (elim body [ none ↦ pure (answer none) | some image ↦ serve t image ])
              ])
              Looked
              Never
      found none = Leaves-pure _ (λ s r. r.0)
      found (some none) = Leaves-pure _ (λ s r. r.0.0)
      found (some (some image)) =
          Leaves-weaken _ (λ s r. record { row = t; found = r.0.1; stored = sym r.1 }) (λ _ _ q. q)
            (serve-Leaves t image)

  pub from_cache-Leaves : Leaves Unchanged (from_cache e) Looked Never
  unfolding from_cache Tables.get_thumbnail
  from_cache-Leaves =
      Leaves-bind (Known (λ o s. Unchanged s × (o ≡ row_of e s.rows)) Unchanged)
        (Leaves-tried (λ o s. Unchanged s × (o ≡ row_of e s.rows)) Unchanged Never
          (Leaves-statement _ (λ s r. (_, refl, (r, refl))) (λ s r. r)))
        found
    where
      found :
          (o : Option (Option Thumb))
          → Leaves
              (Known (λ o s. Unchanged s × (o ≡ row_of e s.rows)) Unchanged o)
              (elim o [
                | none ↦ pure (refuse internal)
                | some row ↦ (elim row [ none ↦ pure (answer none) | some t ↦ fetch t ])
              ])
              Looked
              Never
      found none = Leaves-pure _ (λ s r. r)
      found (some none) = Leaves-pure _ (λ s r. r.0)
      found (some (some t)) = Leaves-weaken _ (λ s r. (r.0, sym r.1)) (λ _ _ q. q) (fetch-Leaves t)

-- An entry that is available is answered.
pub from_cache-Available :
    (e : Entry) (image : Bytes) (s : Cache)
    → Available e image s
    → (from_cache e (calm s)).0 ≡ ok (answer (some image))
unfolding from_cache fetch serve tried attempt statement Tables.get_thumbnail Tables.get_object
    Tables.touch_thumbnail
from_cache-Available e image s a = rw (a.found, a.stored) refl

-- What the cache answers is available.
pub Available-from_cache :
    (e : Entry) (image : Bytes) (s : Cache)
    → (from_cache e (calm s)).0 ≡ ok (answer (some image))
    → Available e image s
unfolding from_cache fetch serve tried attempt statement Tables.get_thumbnail Tables.get_object
    Tables.touch_thumbnail
Available-from_cache e image s h = with_row (row_of e s.rows) refl
  where
    with_body :
        (t : Thumb)
        → row_of e s.rows ≡ some t
        → (b : Option Bytes) → body_at t.object_key s.objects ≡ b
        → Available e image s
    with_body t f none q = let k = rw (f, q) at h in absurd (ground (arith, k))
    with_body t f (some b) q =
        let k = rw (f, q) at h in
        let same : b ≡ image = ground (arith, k) in
        record { row = t; found = f; stored = q ∙ ap some same }

    with_row : (r : Option Thumb) → row_of e s.rows ≡ r → Available e image s
    with_row none f = let k = rw f at h in absurd (ground (arith, k))
    with_row (some t) f = with_body t f (body_at t.object_key s.objects) refl
