-- ===== src/Cache/Thumbnail/Available.antt =====
-- An entry that the cache answers: its row is live and its object is there.
use hirame.Prelude.{
  ℕ, Bool, true, false, ◌&&◌, List, [], ◌∷◌, ◌++◌, ◌≡◌, refl, arith, Option, none, some, Bytes,
  bytes_eq_refl, find?, find?-update, has, update_where, Bool-cases, inl, inr, if◌then◌else◌,
}
use hirame.Cache.Key.{Entry}
use hirame.Cache.Tables.{Cache, Thumb, Object, is_of, is_live, has_key, published, new_thumb}

abbrev pub answers : Entry → Thumb → Bool
answers e t = is_of e t && is_live t

-- GetThumbnail's row
abbrev pub row_of : Entry → List Thumb → Option Thumb
row_of e rows = find? (answers e) rows

-- The bytes under a key
abbrev pub body_at : Bytes → List Object → Option Bytes
body_at key objects = elim (find? (has_key key) objects) [ none ↦ none | some o ↦ some o.body ]

pub record Available (e : Entry) (image : Bytes) (s : Cache) : Type 0 where
  pub row : Thumb
  pub found : row_of e s.rows ≡ some row
  pub stored : body_at row.object_key s.objects ≡ some image

-- A row under its key
abbrev pub HasRow : Entry → Bytes → List Thumb → Type 0
HasRow e key rows = (t : Thumb) × (row_of e rows ≡ some t) × (t.object_key ≡ key)

answers-published :
    (e : Entry) (key : Bytes) (size now : ℕ) (t : Thumb)
    → answers e (published key size now t) ≡ is_of e t
answers-published e key size now t = ground arith

pub row-published :
    (e : Entry) (key : Bytes) (size now : ℕ) (rows : List Thumb)
    → has (is_of e) rows ≡ true
    → HasRow e key (update_where (is_of e) (published key size now) rows)
row-published e key size now [] h = absurd (ground arith)
row-published e key size now (t ∷ ts) h = elim (Bool-cases (is_of e t)) [
  | inl k ↦ (published key size now t, rw (k, answers-published e key size now t, k) refl, refl)
  | inr k ↦
      let (r, f, q) = row-published e key size now ts (ground arith) in
      (r, rw (k) (ground (arith, k, f)), q)
]

is_of-new :
    (e : Entry) (id : ℕ) (key : Bytes) (size now : ℕ)
    → answers e (new_thumb id e key size now) ≡ true
is_of-new e id key size now = ground (arith, bytes_eq_refl e.format)

pub row-new :
    (e : Entry) (id : ℕ) (key : Bytes) (size now : ℕ) (rows : List Thumb)
    → has (is_of e) rows ≡ false
    → HasRow e key (rows ++ new_thumb id e key size now ∷ [])
row-new e id key size now [] h =
    (new_thumb id e key size now, rw (is_of-new e id key size now) refl, refl)
row-new e id key size now (t ∷ ts) h =
    let (r, f, q) = row-new e id key size now ts (ground arith) in (r, ground (arith, f), q)

pub body_at-head :
    (key body : Bytes) (at : ℕ) (objects : List Object)
    → body_at key (record { key = key; body = body; last_modified = at } ∷ objects) ≡ some body
body_at-head key body at objects = ground (arith, bytes_eq_refl key)

-- A touched row is still found.
pub row-touched :
    (e : Entry) (p : Thumb → Bool) (now : ℕ) (rows : List Thumb) (t : Thumb)
    → row_of e rows ≡ some t
    → HasRow e t.object_key (update_where p (λ x. record x { last_access_at = now }) rows)
row-touched e p now rows t h = (
  (if p t then record t { last_access_at = now } else t),
  find?-update (answers e) p (λ x. record x { last_access_at = now }) (λ x. refl) rows t h,
  same_key (p t),
)
  where
    same_key :
        (b : Bool) → (if b then record t { last_access_at = now } else t).object_key ≡ t.object_key
    same_key true = refl
    same_key false = refl
