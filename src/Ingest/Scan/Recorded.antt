-- ===== src/Ingest/Scan/Recorded.antt =====
-- What the rows of fs_observations keep of a scan: upserts lose no row, and a sweep drops only the
-- rows that it reports.
use hirame.Prelude.{
  ℕ, Bool, true, ◌&&◌, ◌||◌, List, [], ◌∷◌, map, ◌≡◌, ◌⊎◌, inl, inr, refl, arith, Bytes, bytes_eq,
  bytes_eq_iff, bytes_eq_refl, has_prefix, ◌==◌, has, has-append, select, reject, update_where,
  Bool-cases,
}
use hirame.Ingest.Types.{Observation}
use hirame.Ingest.Rows.{observed_at, same_key}
use hirame.Ingest.Mountpoints.{Mountpoint, subtree_prefix}
use hirame.Ingest.Tables.Observations.{upsert_row, unseen}

-- The row of a path that this scan has seen.
abbrev pub seen_at : ℕ → Bytes → ℕ → Observation → Bool
seen_at mp path epoch o = observed_at mp path o && (o.seen_epoch == epoch)

-- The row is recorded under the mountpoint of the root, at or under the root.
abbrev pub in_root : Mountpoint → Observation → Bool
in_root mp o =
    (o.mountpoint_id == mp.id)
    && (bytes_eq o.path mp.root || has_prefix o.path (subtree_prefix mp.root))

has-replace :
    (q : Observation → Bool) (o : Observation) (rows : List Observation)
    → has (same_key o) rows ≡ true
    → q o ≡ true
    → has q (update_where (same_key o) (λ _. o) rows) ≡ true
has-replace q o [] h k = h
has-replace q o (x ∷ xs) h k = elim (Bool-cases (same_key o x)) [
  | inl e ↦ rw (e, k) refl
  | inr e ↦ let rest = has-replace q o xs (rw e at h) k in ground (arith, rest)
]

-- An upserted row is there.
pub has-upsert_row :
    (q : Observation → Bool) (o : Observation) (rows : List Observation)
    → q o ≡ true
    → has q (upsert_row o rows) ≡ true
unfolding upsert_row
has-upsert_row q o rows k = elim (Bool-cases (has (same_key o) rows)) [
  | inl e ↦ rw e (has-replace q o rows e k)
  | inr e ↦ rw e (ground (arith, has-append q rows o))
]

has-replaced :
    (q : Observation → Bool) (o : Observation)
    → ((x : Observation) → same_key o x ≡ true → q x ≡ true → q o ≡ true)
    → (rows : List Observation) → has q rows ≡ true
    → has q (update_where (same_key o) (λ _. o) rows) ≡ true
has-replaced q o keeps [] h = h
has-replaced q o keeps (x ∷ xs) h = elim (Bool-cases (same_key o x)) [
  | inl e ↦ rw e (ground (arith, keeps x e, has-replaced q o keeps xs))
  | inr e ↦ rw e (ground (arith, has-replaced q o keeps xs))
]

-- An upsert loses no row that a test of key and epoch finds.
pub has-upsert_row_other :
    (q : Observation → Bool) (o : Observation)
    → ((x : Observation) → same_key o x ≡ true → q x ≡ true → q o ≡ true)
    → (rows : List Observation) → has q rows ≡ true
    → has q (upsert_row o rows) ≡ true
unfolding upsert_row
has-upsert_row_other q o keeps rows h = elim (Bool-cases (has (same_key o) rows)) [
  | inl e ↦ rw e (has-replaced q o keeps rows h)
  | inr e ↦ rw e (ground (arith, has-append q rows o))
]

-- Two rows with the key of a third one.
pub observed_at-same_key :
    (mp : ℕ) (path : Bytes) (o x : Observation)
    → same_key o x ≡ true
    → observed_at mp path x ≡ true
    → observed_at mp path o ≡ true
observed_at-same_key mp path o x h k =
    ground (arith, bytes_eq_iff x.path o.path, bytes_eq_iff x.path path, bytes_eq_iff o.path path)

-- What this scan has seen stays when the sweep drops what it has not.
pub has-seen_swept :
    (id : ℕ) (root prefix : Bytes) (mp : ℕ) (path : Bytes) (epoch : ℕ) (rows : List Observation)
    → has (seen_at mp path epoch) rows ≡ true
    → has (seen_at mp path epoch) (reject (unseen id root prefix epoch) rows) ≡ true
has-seen_swept id root prefix mp path epoch [] h = h
has-seen_swept id root prefix mp path epoch (x ∷ xs) h =
    let rest = has-seen_swept id root prefix mp path epoch xs in
    elim (Bool-cases (unseen id root prefix epoch x)) [
      | inl e ↦ rw e (rest (ground arith))
      | inr e ↦ rw e (ground (arith, rest))
    ]

-- A row is still there after the sweep, or it is one of the root and its path is reported.
abbrev pub Kept : Mountpoint → Observation → List Observation → List Bytes → Type 0
Kept mp o rows gone =
    (has (same_key o) rows ≡ true) ⊎ ((in_root mp o ≡ true) × (has (bytes_eq o.path) gone ≡ true))

swept_row :
    (mp : Mountpoint) (epoch : ℕ) (o x : Observation)
    → same_key o x ≡ true
    → unseen mp.id mp.root (subtree_prefix mp.root) epoch x ≡ true
    → (in_root mp o ≡ true) × (bytes_eq o.path x.path ≡ true)
swept_row mp epoch o x h k =
    let e : x.path ≡ o.path = ground (arith, bytes_eq_iff x.path o.path) in
    (rw (← e) (ground arith), rw (← e) (bytes_eq_refl x.path))

pub Kept-sweep :
    (mp : Mountpoint) (epoch : ℕ) (o : Observation) (rows : List Observation)
    → has (same_key o) rows ≡ true
    → let gone = unseen mp.id mp.root (subtree_prefix mp.root) epoch in
      Kept mp o (reject gone rows) (map (λ x. x.path) (select gone rows))
Kept-sweep mp epoch o [] h = inl h
Kept-sweep mp epoch o (x ∷ xs) h =
    elim (Bool-cases (unseen mp.id mp.root (subtree_prefix mp.root) epoch x)) [
      | inl u ↦ elim (Bool-cases (same_key o x)) [
        | inl e ↦ let (i, b) = swept_row mp epoch o x e u in rw u (inr (i, ground (arith, b)))
        | inr e ↦ rw u (kept_dropped _ _ (Kept-sweep mp epoch o xs (rw e at h)))
      ]
      | inr u ↦ elim (Bool-cases (same_key o x)) [
        | inl e ↦ rw u (inl (ground (arith, e)))
        | inr e ↦ rw u (kept_more _ _ (Kept-sweep mp epoch o xs (rw e at h)))
      ]
    ]
  where
    kept_dropped :
        (rows : List Observation) (gone : List Bytes)
        → Kept mp o rows gone
        → Kept mp o rows (x.path ∷ gone)
    kept_dropped rows gone (inl k) = inl k
    kept_dropped rows gone (inr (i, k)) = inr (i, ground arith)

    kept_more :
        (rows : List Observation) (gone : List Bytes)
        → Kept mp o rows gone
        → Kept mp o (x ∷ rows) gone
    kept_more rows gone (inl k) = inl (ground arith)
    kept_more rows gone (inr k) = inr k
