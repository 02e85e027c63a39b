-- ===== src/Ingest/Consistent/Documents.antt =====
-- The statements on documents keep the tables consistent, and the unique index refuses none of
-- them where the code issues them.
use hirame.Prelude.{
  ℕ, ◌<◌, Bool, true, false, ◌||◌, List, [], ◌∷◌, ◌++◌, map, Option, none, ◌≡◌, refl, arith, ◌==◌,
  Bytes, bytes_eq, bytes_eq_iff, bytes_eq-append, bytes_eq_sym, bytes_eq_refl, has_prefix,
  has_prefix-append, prefix-append-drop, find?, select, update_where, has, distinct, All, All-of,
  All-append, All-update, All-weaken, distinct-map, distinct-or, distinct-append, Lacks-of_find?,
  if◌then◌else◌,
}
use hirame.Ingest.Tx.{ok}
use hirame.Ingest.Rows.{Db, DocumentRow, same_live_path, live_at, live_under}
use hirame.Ingest.Tables.Observations.{repath}
use hirame.Ingest.Tables.Documents as D
use hirame.Ingest.Tables.Documents.{
  tombstoned, has_id, new_document, repathed, flipped, has_version,
}
use hirame.Ingest.Consistent.{IsConsistent, same_id, Refers}

-- New documents, with the identities of the old ones.
with_documents :
    (s : Db) (docs : List DocumentRow)
    → IsConsistent s
    → distinct same_live_path docs ≡ true
    → distinct same_id docs ≡ true
    → All (λ d. d.id < s.next_document_id) docs
    → All (λ d. Refers s.versions d.current_content_version_id) docs
    → IsConsistent (record s { documents = docs })
with_documents s docs c p i f r = record {
  paths = p;
  ids = i;
  fresh = f;
  current = r;
  keys = c.keys;
  version_ids = c.version_ids;
  hashes = c.hashes;
  version_fresh = c.version_fresh;
  next_version = c.next_version;
}

abbrev Any : DocumentRow → Type 0
Any _ = Unit

-- Tombstoning any rows.
pub tombstone-IsConsistent :
    (p : DocumentRow → Bool) (s : Db)
    → IsConsistent s
    → IsConsistent (record s { documents = update_where p tombstoned s.documents })
tombstone-IsConsistent p s c =
    with_documents s _ c
      (distinct-map Any same_live_path same_live_path _ (λ x y _ _ h. ground arith) s.documents
        (All-of Any (λ _. tt) s.documents) c.paths)
      (distinct-map Any same_id same_id _ (λ x y _ _ h. ground arith) s.documents
        (All-of Any (λ _. tt) s.documents) c.ids)
      (All-update _ _ p tombstoned (λ x _ h. h) (λ x _ h. h) s.documents c.fresh)
      (All-update _ _ p tombstoned (λ x _ h. h) (λ x _ h. h) s.documents c.current)

-- A row may move to a path where no other row is live, in its own mountpoint.
abbrev pub MayMove : ℕ → ℕ → Bytes → DocumentRow → Type 0
MayMove id mountpoint_id path d =
    ((d.id == id) ≡ true → d.mountpoint_id ≡ mountpoint_id)
    × ((d.id == id) ≡ false → live_at mountpoint_id path d ≡ false)

move_reflects :
    (id mountpoint_id dev ino : ℕ) (path : Bytes) (x y : DocumentRow)
    → MayMove id mountpoint_id path x
    → MayMove id mountpoint_id path y
    → same_live_path
        (if has_id id x then record x { path = path; dev = dev; ino = ino } else x)
        (if has_id id y then record y { path = path; dev = dev; ino = ino } else y)
      ≡ true
    → (same_id x y || same_live_path x y) ≡ true
move_reflects id mountpoint_id dev ino path x y mx my h =
    ground (arith, mx.0, mx.1, my.0, my.1, bytes_eq_sym path x.path)

move-paths :
    (id mountpoint_id dev ino : ℕ) (path : Bytes) (docs : List DocumentRow)
    → All (MayMove id mountpoint_id path) docs
    → distinct same_live_path docs ≡ true
    → distinct same_id docs ≡ true
    → distinct same_live_path
        (update_where (has_id id) (λ d. record d { path = path; dev = dev; ino = ino }) docs)
      ≡ true
move-paths id mountpoint_id dev ino path docs may p i =
    distinct-map (MayMove id mountpoint_id path) (λ x y. same_id x y || same_live_path x y)
      same_live_path _ (move_reflects id mountpoint_id dev ino path) docs may
      (distinct-or same_id same_live_path docs i p)

-- MoveDocument of a row that is there to a path that it may take.
pub move-IsConsistent :
    (id mountpoint_id dev ino : ℕ) (path : Bytes) (s : Db)
    → IsConsistent s
    → All (MayMove id mountpoint_id path) s.documents
    → has (has_id id) s.documents ≡ true
    → ((D.move_document id path dev ino s).0 ≡ ok tt)
      × IsConsistent (D.move_document id path dev ino s).1
unfolding D.move_document
move-IsConsistent id mountpoint_id dev ino path s c may there =
    let p = move-paths id mountpoint_id dev ino path s.documents may c.paths c.ids in
    rw (there, p)
      (
        refl,
        with_documents s _ c p
            (distinct-map Any same_id same_id _ (λ x y _ _ h. ground arith) s.documents
              (All-of Any (λ _. tt) s.documents) c.ids)
            (All-update _ _ (has_id id) _ (λ x _ h. h) (λ x _ h. h) s.documents c.fresh)
            (All-update _ _ (has_id id) _ (λ x _ h. h) (λ x _ h. h) s.documents c.current),
      )

-- CreateDocument where no live row has the path.
pub create-IsConsistent :
    (mountpoint_id dev ino : ℕ) (path : Bytes) (s : Db)
    → IsConsistent s
    → find? (live_at mountpoint_id path) s.documents ≡ none
    → ((D.create_document mountpoint_id path dev ino s).0
        ≡ ok (new_document s.next_document_id mountpoint_id path dev ino))
      × IsConsistent (D.create_document mountpoint_id path dev ino s).1
unfolding D.create_document
create-IsConsistent mountpoint_id dev ino path s c absent =
    let row = new_document s.next_document_id mountpoint_id path dev ino in
    let p : distinct same_live_path (s.documents ++ row ∷ []) ≡ true =
      distinct-append same_live_path s.documents row
        (All-weaken _ (λ x. same_live_path x row ≡ false)
          (λ x h. ground (arith, bytes_eq_sym path x.path)) s.documents
          (Lacks-of_find? _ s.documents absent))
        c.paths in
    rw p (
      refl,
      record {
        paths = p;
        ids =
            distinct-append same_id s.documents row
              (All-weaken _ (λ x. same_id x row ≡ false) (λ x h. ground arith) s.documents c.fresh)
              c.ids;
        fresh =
            All-append _ s.documents (row ∷ [])
              (All-weaken _ _ (λ x h. omega arith) s.documents c.fresh) (omega arith, tt);
        current = All-append _ s.documents (row ∷ []) c.current (tt, tt);
        keys = c.keys;
        version_ids = c.version_ids;
        hashes = c.hashes;
        version_fresh = c.version_fresh;
        next_version = c.next_version;
      },
    )

-- SetDocumentCurrentVersion to a version that is there.
pub flip-IsConsistent :
    (id version : ℕ) (expected : Option ℕ) (s : Db)
    → IsConsistent s
    → has (λ w. w.id == version) s.versions ≡ true
    → IsConsistent (D.set_current_version id expected version s).1
unfolding D.set_current_version
flip-IsConsistent id version expected s c there =
    with_documents s _ c
      (distinct-map Any same_live_path same_live_path _ (λ x y _ _ h. ground arith) s.documents
        (All-of Any (λ _. tt) s.documents) c.paths)
      (distinct-map Any same_id same_id _ (λ x y _ _ h. ground arith) s.documents
        (All-of Any (λ _. tt) s.documents) c.ids)
      (All-update _ _ (has_version id expected) (flipped version) (λ x _ h. h) (λ x _ h. h)
        s.documents c.fresh)
      (All-update _ _ (has_version id expected) (flipped version) (λ x _ h. there) (λ x _ h. h)
        s.documents c.current)

pub repath-bytes_eq :
    (old new a b : Bytes)
    → has_prefix a old ≡ true
    → has_prefix b old ≡ true
    → bytes_eq (repath old new a) (repath old new b) ≡ true
    → bytes_eq a b ≡ true
unfolding repath
repath-bytes_eq old new a b ha hb h =
    let same = (bytes_eq_iff _ _).0 (rw (bytes_eq-append new) at h) in
    rw (← prefix-append-drop a old ha, ← prefix-append-drop b old hb, same) (bytes_eq_refl _)

pub repath-has_prefix : (old new a : Bytes) → has_prefix (repath old new a) new ≡ true
unfolding repath
repath-has_prefix old new a = has_prefix-append new _

repath_reflects :
    (mountpoint_id : ℕ) (old new : Bytes) (x y : DocumentRow)
    → live_under mountpoint_id new x ≡ false
    → live_under mountpoint_id new y ≡ false
    → same_live_path
        (if live_under mountpoint_id old x then repathed old new x else x)
        (if live_under mountpoint_id old y then repathed old new y else y)
      ≡ true
    → same_live_path x y ≡ true
repath_reflects mountpoint_id old new x y hx hy h = ground (
  arith,
  repath-bytes_eq old new y.path x.path,
  repath-has_prefix old new x.path,
  repath-has_prefix old new y.path,
  bytes_eq_iff y.path (repath old new x.path),
  bytes_eq_iff (repath old new y.path) x.path,
)

-- MoveDocumentSubtree where no live row stands under the new prefix.
pub repath-IsConsistent :
    (mountpoint_id : ℕ) (old new : Bytes) (s : Db)
    → IsConsistent s
    → All (λ d. live_under mountpoint_id new d ≡ false) s.documents
    → ((D.move_subtree mountpoint_id old new s).0
        ≡ ok (map (repathed old new) (select (live_under mountpoint_id old) s.documents)))
      × IsConsistent (D.move_subtree mountpoint_id old new s).1
unfolding D.move_subtree
repath-IsConsistent mountpoint_id old new s c free =
    let under = live_under mountpoint_id old in
    let p : distinct same_live_path (update_where under (repathed old new) s.documents) ≡ true =
      distinct-map (λ d. live_under mountpoint_id new d ≡ false) same_live_path same_live_path _
        (repath_reflects mountpoint_id old new) s.documents free c.paths in
    rw p (
      refl,
      with_documents s _ c p
          (distinct-map Any same_id same_id _ (λ x y _ _ h. ground arith) s.documents
            (All-of Any (λ _. tt) s.documents) c.ids)
          (All-update _ _ under (repathed old new) (λ x _ h. h) (λ x _ h. h) s.documents c.fresh)
          (All-update _ _ under (repathed old new) (λ x _ h. h) (λ x _ h. h) s.documents c.current),
    )
