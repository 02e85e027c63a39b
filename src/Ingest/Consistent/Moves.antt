-- ===== src/Ingest/Consistent/Moves.antt =====
-- When a document may move to a path: what the lookups before MoveDocument establish.
use hirame.Prelude.{
  ℕ, Bool, true, false, none, some, ◌≡◌, refl, ap, arith, ◌==◌, Bytes, bytes_eq_iff, find?,
  find?-test, has, has_of_find?, has-update_where, All, All-zip, All-weaken, All-update, only_row,
  update_where, Lacks-of_find?, Bool-cases, inl, inr,
}
use hirame.Ingest.Rows.{Db, DocumentRow, live_at, same_live_path}
use hirame.Ingest.Tables.Documents.{has_id, tombstoned}
use hirame.Ingest.Consistent.{IsConsistent, same_id}
use hirame.Ingest.Consistent.Documents.{MayMove, tombstone-IsConsistent}

-- The row with an id is there, in a mountpoint.
pub record Held (id mountpoint_id : ℕ) (s : Db) : Type 0 where
  pub consistent : IsConsistent s
  pub home : All (λ d. has_id id d ≡ true → d.mountpoint_id ≡ mountpoint_id) s.documents
  pub there : has (has_id id) s.documents ≡ true

-- The row with an id is there, and no other row is live at the path.
pub record Ready (id mountpoint_id : ℕ) (path : Bytes) (s : Db) : Type 0 where
  pub consistent : IsConsistent s
  pub may : All (MayMove id mountpoint_id path) s.documents
  pub there : has (has_id id) s.documents ≡ true

clash_of_live :
    (mountpoint_id : ℕ) (path : Bytes) (a x : DocumentRow)
    → live_at mountpoint_id path a ≡ true
    → live_at mountpoint_id path x ≡ true
    → same_live_path a x ≡ true
clash_of_live mountpoint_id path a x h k =
    ground (arith, bytes_eq_iff a.path path, bytes_eq_iff x.path path, bytes_eq_iff x.path a.path)

clash_flip : (x y : DocumentRow) → same_live_path x y ≡ true → same_live_path y x ≡ true
clash_flip x y h = ground (arith, bytes_eq_iff y.path x.path, bytes_eq_iff x.path y.path)

-- A row that some lookup found, in its mountpoint.
pub Held-of_find? :
    (mountpoint_id : ℕ) (q : DocumentRow → Bool) (a : DocumentRow) (s : Db)
    → IsConsistent s
    → find? q s.documents ≡ some a
    → a.mountpoint_id ≡ mountpoint_id
    → Held a.id mountpoint_id s
Held-of_find? mountpoint_id q a s c e m = record {
  consistent = c;
  home =
      All-weaken _ _ (λ d only h. cc (m, only (ground arith))) s.documents
        (only_row same_id (λ x y h. ground arith) q s.documents a c.ids e);
  there = has_of_find? (has_id a.id) q s.documents a e (ground arith);
}

module _ (id mountpoint_id : ℕ) (path : Bytes) (s : Db) (held : Held id mountpoint_id s) where
  pub Ready-of_absent :
      find? (live_at mountpoint_id path) s.documents ≡ none → Ready id mountpoint_id path s
  Ready-of_absent e = record {
    consistent = held.consistent;
    may =
        All-zip _ _ (MayMove id mountpoint_id path) (λ d h n. (h, λ _. n)) s.documents held.home
          (Lacks-of_find? (live_at mountpoint_id path) s.documents e);
    there = held.there;
  }

  module _ (b : DocumentRow) (e : find? (live_at mountpoint_id path) s.documents ≡ some b) where
    -- Whatever row is live at the path is `b`.
    only_live : All (λ d. live_at mountpoint_id path d ≡ true → d ≡ b) s.documents
    only_live =
        All-weaken _ _
          (λ d only h. only (clash_of_live mountpoint_id path b d (find?-test _ s.documents b e) h))
          s.documents (only_row same_live_path clash_flip _ s.documents b held.consistent.paths e)

    -- The row itself is live at the path.
    pub Ready-of_self : b.id ≡ id → Ready id mountpoint_id path s
    Ready-of_self same = record {
      consistent = held.consistent;
      may =
          All-zip _ _ (MayMove id mountpoint_id path)
            (λ d h only. (
              h,
              λ n. elim (Bool-cases (live_at mountpoint_id path d)) [
                | inl l ↦
                    let i : d.id ≡ b.id = ap (λ (x : DocumentRow). x.id) (only l) in ground arith
                | inr l ↦ l
              ],
            ))
            s.documents held.home only_live;
      there = held.there;
    }

    -- Another row was live at the path, and is a tombstone now.
    pub Ready-of_replaced :
        (b.id == id) ≡ false
        → Ready id mountpoint_id path
            (record s { documents = update_where (has_id b.id) tombstoned s.documents })
    Ready-of_replaced other = record {
      consistent = tombstone-IsConsistent (has_id b.id) s held.consistent;
      may =
          All-update _ (MayMove id mountpoint_id path) (has_id b.id) tombstoned
            (λ d h k. (k.0, λ _. ground arith))
            (λ d h k. (
              k.0,
              λ n. elim (Bool-cases (live_at mountpoint_id path d)) [
                | inl l ↦
                    let i : d.id ≡ b.id = ap (λ (x : DocumentRow). x.id) (k.1 l) in ground arith
                | inr l ↦ l
              ],
            ))
            s.documents
            (All-zip _ _
              (λ d.
                (has_id id d ≡ true → d.mountpoint_id ≡ mountpoint_id)
                × (live_at mountpoint_id path d ≡ true → d ≡ b))
              (λ d h k. (h, k)) s.documents held.home only_live);
      there =
          rw (has-update_where (has_id id) (has_id b.id) tombstoned (λ _. refl) s.documents)
            held.there;
    }
