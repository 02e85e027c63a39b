-- ===== src/Ingest/Consistent/Versions.antt =====
-- The statements on content_versions keep the tables consistent, and the id that
-- UpsertContentVersion returns is a row with the hash.
use hirame.Prelude.{
  ℕ, ◌+◌, ◌<◌, Bool, true, false, ◌&&◌, List, [], ◌∷◌, ◌++◌, Option, none, some, ◌≡◌, refl, arith,
  ◌==◌, Bytes, bytes_eq, bytes_eq_refl, find?, update_where, has, All-of, All-update, All-append,
  All-weaken, All-find?, distinct-map, distinct-append, has_of_find?, has-update_where, find?-test,
  Lacks-of_find?, Option-cases, inl, inr,
}
use hirame.Ingest.Tx.{ok}
use hirame.Ingest.Rows.{Db, VersionRow}
use hirame.Ingest.Tables.Versions as V
use hirame.Ingest.Tables.Versions.{has_hash}
use hirame.Ingest.Consistent.{IsConsistent, Refers, same_version_id, same_hash}

-- A row of content_versions with an id and a hash.
abbrev pub has_version_row : ℕ → Bytes → VersionRow → Bool
has_version_row id hash v = (v.id == id) && bytes_eq v.content_hash hash

abbrev resized : ℕ → VersionRow → VersionRow
resized size v = record v { size_bytes = size }

has-append :
    (q : VersionRow → Bool) (vs ws : List VersionRow) → has q vs ≡ true → has q (vs ++ ws) ≡ true
has-append q [] ws h = ground arith
has-append q (v ∷ vs) ws h = ground (arith, has-append q vs ws)

has-append_last :
    (q : VersionRow → Bool) (vs : List VersionRow) (w : VersionRow)
    → q w ≡ true
    → has q (vs ++ w ∷ []) ≡ true
has-append_last q [] w h = ground arith
has-append_last q (v ∷ vs) w h = ground (arith, has-append_last q vs w h)

Refers-of :
    (vs ws : List VersionRow)
    → ((v : ℕ) → has (λ w. w.id == v) vs ≡ true → has (λ w. w.id == v) ws ≡ true)
    → (o : Option ℕ) → Refers vs o
    → Refers ws o
Refers-of vs ws h none r = tt
Refers-of vs ws h (some v) r = h v r

abbrev Any : VersionRow → Type 0
Any _ = Unit

-- The row is there: its hash is known, and the size is written again.
upsert_old-IsConsistent :
    (hash : Bytes) (size : ℕ) (s : Db)
    → IsConsistent s
    → IsConsistent (record s { versions = update_where (has_hash hash) (resized size) s.versions })
upsert_old-IsConsistent hash size s c = record {
  paths = c.paths;
  ids = c.ids;
  fresh = c.fresh;
  current =
      All-weaken _ _
        (λ d.
          Refers-of s.versions _
            (λ v h.
              rw
                (has-update_where (λ w. w.id == v) (has_hash hash) (resized size) (λ _. refl)
                  s.versions)
                h)
            d.current_content_version_id)
        s.documents c.current;
  keys = c.keys;
  version_ids =
      distinct-map Any same_version_id same_version_id _ (λ x y _ _ h. ground arith) s.versions
        (All-of Any (λ _. tt) s.versions) c.version_ids;
  hashes =
      distinct-map Any same_hash same_hash _ (λ x y _ _ h. ground arith) s.versions
        (All-of Any (λ _. tt) s.versions) c.hashes;
  version_fresh =
      All-update _ _ (has_hash hash) (resized size) (λ x _ h. h) (λ x _ h. h) s.versions
        c.version_fresh;
  next_version = c.next_version;
}

-- No row has the hash.
upsert_new-IsConsistent :
    (hash : Bytes) (size : ℕ) (s : Db)
    → IsConsistent s
    → find? (has_hash hash) s.versions ≡ none
    → IsConsistent (record s {
      versions =
          s.versions
          ++ record { id = s.next_version_id; content_hash = hash; size_bytes = size } ∷ [];
      next_version_id = s.next_version_id + 1;
    })
upsert_new-IsConsistent hash size s c absent = record {
  paths = c.paths;
  ids = c.ids;
  fresh = c.fresh;
  current =
      All-weaken _ _
        (λ d.
          Refers-of s.versions _ (λ v. has-append (λ w. w.id == v) s.versions _)
            d.current_content_version_id)
        s.documents c.current;
  keys = c.keys;
  version_ids =
      distinct-append same_version_id s.versions row
        (All-weaken _ (λ x. same_version_id x row ≡ false) (λ x h. ground arith) s.versions
          c.version_fresh)
        c.version_ids;
  hashes =
      distinct-append same_hash s.versions row
        (All-weaken _ (λ x. same_hash x row ≡ false) (λ x h. h) s.versions
          (Lacks-of_find? (has_hash hash) s.versions absent))
        c.hashes;
  version_fresh =
      All-append _ s.versions (row ∷ [])
        (All-weaken _ _ (λ x h. omega arith) s.versions c.version_fresh) (omega arith, tt);
  next_version = omega arith;
}
  where
    row : VersionRow
    row = record { id = s.next_version_id; content_hash = hash; size_bytes = size }

-- UpsertContentVersion returns the positive id of a row with the hash.
pub upsert-IsConsistent :
    (hash : Bytes) (size : ℕ) (s : Db)
    → IsConsistent s
    → (v : ℕ) × ((V.upsert_version hash size s).0 ≡ ok v)
      × (0 < v)
      × (has (has_version_row v hash) (V.upsert_version hash size s).1.versions ≡ true)
      × IsConsistent (V.upsert_version hash size s).1
unfolding V.upsert_version
upsert-IsConsistent hash size s c = elim (Option-cases (find? (has_hash hash) s.versions)) [
  | inl e ↦ (
    s.next_version_id,
    rw (e, V.upsert_version) refl,
    c.next_version,
    rw (e, V.upsert_version) (has-append_last _ s.versions _ (ground (arith, bytes_eq_refl hash))),
    rw (e, V.upsert_version) (upsert_new-IsConsistent hash size s c e),
  )
  | inr (v, e) ↦ (
    v.id,
    rw (e, V.upsert_version) refl,
    (All-find? _ (has_hash hash) s.versions v c.version_fresh e).0,
    rw (e, V.upsert_version)
        (rw
          (has-update_where (has_version_row v.id hash) (has_hash hash) (resized size) (λ _. refl)
            s.versions)
          (has_of_find? _ (has_hash hash) s.versions v e
            (ground (arith, find?-test (has_hash hash) s.versions v e)))),
    rw (e, V.upsert_version) (upsert_old-IsConsistent hash size s c),
  )
]
