-- ===== src/Cache/Workers/Intact.antt =====
-- sweepOrphans: no object that a live row needs is removed, whatever fails.
use hirame.Prelude.{
  ℕ, Bool, true, false, ◌&&◌, List, [], ◌∷◌, ◌≡◌, refl, sym, subst, ap, ◌∙◌, arith, ◌⊎◌, inl, inr,
  has, distinct, select, reject, All, Lacks, has_of_Lacks, All-of, All-weaken, All-zip, All-found,
  All-select, All-unique, distinct-map, map, Bytes, bytes_eq, bytes_eq_iff, bytes_eq_sym,
  select-reject, select-select, select-same, Bool-cases, if◌then◌else◌,
}
use hirame.Ingest.Tx.{ping}
use hirame.Cache.Tables
use hirame.Cache.Tables.{
  Cache, Thumb, Object, is_pending, is_live, is_stale, has_key, same_object_key, withdraw,
  withdrawn,
}
use hirame.Cache.Workers.{delete_unknown, sweep_page, sweep_orphans, settled_keys}
use hirame.Cache.Runs.{Leaves, Leaves-statement, Leaves-pure, Leaves-bind, Leaves-if, Leaves-given}
use hirame.Cache.Drain.{Drained, withdrawn_owner}

-- The bucket holds, under the key of each live row, what it held before.
abbrev pub Intact : Cache → Cache → Type 0
Intact s0 s =
    All
      (λ t.
        is_live t ≡ true
        → select (has_key t.object_key) s.objects ≡ select (has_key t.object_key) s0.objects)
      s.rows

-- The unique constraint on object_key.
abbrev pub HasKeys : Cache → Type 0
HasKeys s = distinct same_object_key s.rows ≡ true

other_key :
    (j k : Bytes) (o : Object) → bytes_eq j k ≡ false → has_key j o ≡ true → has_key k o ≡ false
other_key j k o n h = ap (λ x. bytes_eq x k) ((bytes_eq_iff o.key j).0 h) ∙ n

not_both :
    (j k : Bytes) (o : Object) → bytes_eq j k ≡ false → has_key k o ≡ true → has_key j o ≡ false
not_both j k o n h = elim (Bool-cases (has_key j o)) [
  | inl e ↦ absurd (ground (arith, other_key j k o n e))
  | inr e ↦ e
]

-- A bucket loses the objects of a key that no row has.
Intact-delete :
    (k : Bytes) (s0 s : Cache)
    → Lacks (λ (t : Thumb). bytes_eq t.object_key k) s.rows
    → Intact s0 s
    → Intact s0 (record s { objects = reject (has_key k) s.objects })
Intact-delete k s0 s n h =
    All-zip _ _ _
      (λ t d i l.
        select-reject (has_key k) (has_key t.object_key) (λ o. not_both t.object_key k o d)
          s.objects
        ∙ i l)
      s.rows n h

abbrev known_of : List Bytes → List Thumb → List Bytes
known_of keys rows =
    map (λ (t : Thumb). t.object_key) (select (λ t. has (bytes_eq t.object_key) keys) rows)

-- What ReferencedThumbnailObjectKeys leaves out of its answer is no row's key.
answered :
    (keys : List Bytes) (rows : List Thumb)
    → All
        (λ k.
          has (bytes_eq k) (known_of keys rows) ≡ false
          → Lacks (λ (t : Thumb). bytes_eq t.object_key k) rows)
        keys
answered keys rows = All-weaken _ _ (λ k f n. unlisted k rows f n) keys (All-found keys)
  where
    unlisted :
        (k : Bytes) (ts : List Thumb)
        → ((q : Bytes → Bool) → q k ≡ true → has q keys ≡ true)
        → has (bytes_eq k) (known_of keys ts) ≡ false
        → Lacks (λ (t : Thumb). bytes_eq t.object_key k) ts
    unlisted k [] f n = tt
    unlisted k (t ∷ ts) f n = elim (Bool-cases (bytes_eq t.object_key k)) [
      | inl e ↦ absurd (ground (arith, f (bytes_eq t.object_key) e, bytes_eq_sym t.object_key k))
      | inr e ↦ (e, unlisted k ts f (ground arith))
    ]

module _ (s0 : Cache) (rows : List Thumb) where
  abbrev pub Keeps : Cache → Type 0
  Keeps s = (s.rows ≡ rows) × Intact s0 s

  -- The keys that accounting was asked about and does not know are no row's.
  abbrev Asked : List Bytes → List Bytes → Type 0
  Asked known =
      All
        (λ k. has (bytes_eq k) known ≡ false → Lacks (λ (t : Thumb). bytes_eq t.object_key k) rows)

  delete_unknown-Leaves :
      (known keys : List Bytes)
      → Asked known keys
      → Leaves Keeps (delete_unknown known keys) (λ _. Keeps) Keeps
  unfolding delete_unknown Tables.delete_object
  delete_unknown-Leaves known [] h = Leaves-pure tt (λ s k. k)
  delete_unknown-Leaves known (key ∷ keys) (h, hs) =
      Leaves-bind (λ _. Keeps)
        (Leaves-if (has (bytes_eq key) known) (λ _. Leaves-pure tt (λ s k. k))
          (λ e.
            Leaves-statement _
              (λ s k. (tt, refl, (k.0, Intact-delete key s0 s (rw (k.0) (h e)) k.1))) (λ s k. k)))
        (λ _. delete_unknown-Leaves known keys hs)

  sweep_page-Leaves : (keys : List Bytes) → Leaves Keeps (sweep_page keys) (λ _. Keeps) Keeps
  unfolding sweep_page Tables.referenced_keys
  sweep_page-Leaves [] = Leaves-pure tt (λ s k. k)
  sweep_page-Leaves (key ∷ keys) =
      Leaves-bind (λ known s. Keeps s × Asked known (key ∷ keys))
        (Leaves-statement _
          (λ s k. (
            _,
            refl,
            (
              k,
              subst (λ r. Asked (known_of (key ∷ keys) r) (key ∷ keys)) (sym k.0)
                  (answered (key ∷ keys) rows),
            ),
          ))
          (λ s k. k))
        (λ known.
          Leaves-given (Asked known (key ∷ keys)) (delete_unknown-Leaves known (key ∷ keys)))

  pub sweep_orphans-Leaves :
      (cutoff : ℕ) (pages : List (List Object))
      → Leaves Keeps (sweep_orphans cutoff pages) (λ _. Keeps) Keeps
  unfolding sweep_orphans ping
  sweep_orphans-Leaves cutoff [] = Leaves-pure tt (λ s k. k)
  sweep_orphans-Leaves cutoff (page ∷ pages) =
      Leaves-bind (λ _. Keeps) (Leaves-statement _ (λ s k. (tt, refl, k)) (λ s k. k))
        (λ _.
          Leaves-bind (λ _. Keeps) (sweep_page-Leaves (settled_keys cutoff page))
            (λ _. sweep_orphans-Leaves cutoff pages))

-- Keys stay distinct, since withdrawing changes none.
pub HasKeys-withdraw : (p : Thumb → Bool) (s : Cache) → HasKeys s → HasKeys (withdraw p s)
HasKeys-withdraw p s h =
    distinct-map (λ _. Unit {0}) same_object_key same_object_key
      (λ t. if p t then withdrawn s.now t else t) (λ x y _ _ e. rw (same_key-if p s.now x y) at e)
      s.rows (All-of _ (λ _. tt) s.rows) h
  where
    same_key-if :
        (p : Thumb → Bool) (now : ℕ) (x y : Thumb)
        → same_object_key (if p x then withdrawn now x else x) (if p y then withdrawn now y else y)
          ≡ same_object_key x y
    same_key-if p now x y = ground arith

-- A live row's objects have no withdrawn owner.
unowned :
    (s : Cache) (t : Thumb) (o : Object)
    → All (λ y. same_object_key t y ≡ true → t ≡ y) s.rows
    → is_live t ≡ true
    → has_key t.object_key o ≡ true
    → withdrawn_owner s o ≡ false
unowned s t o only l h = has_of_Lacks _ s.rows (All-weaken _ _ (λ x u. free x u) s.rows only)
  where
    free :
        (x : Thumb)
        → (same_object_key t x ≡ true → t ≡ x)
        → (is_pending x && has_key x.object_key o) ≡ false
    free x u = elim (Bool-cases (is_pending x && has_key x.object_key o)) [
      | inl e ↦
          let k : o.key ≡ t.object_key = (bytes_eq_iff o.key t.object_key).0 h in
          let q : same_object_key t x ≡ true =
            ap (λ y. bytes_eq y x.object_key) (sym k) ∙ ground arith in
          let w : is_pending t ≡ true = ap is_pending (u q) ∙ ground arith in absurd (ground arith)
      | inr e ↦ e
    ]

pub Intact-Drained : (s t : Cache) → HasKeys s → Drained s t → Intact s t
Intact-Drained s t keys d = rw (d.rows) (
    All-select _ d.kept s.rows (
      All-weaken _ _ (λ x only l. spared x only l) s.rows
        (All-unique same_object_key (λ x y e. bytes_eq_sym x.object_key y.object_key e) s.rows
          keys)))
  where
    spared :
        (x : Thumb)
        → All (λ y. same_object_key x y ≡ true → x ≡ y) s.rows
        → is_live x ≡ true
        → select (has_key x.object_key) t.objects ≡ select (has_key x.object_key) s.objects
    spared x only l =
        ap (select (has_key x.object_key)) d.objects
        ∙ (select-select (has_key x.object_key) d.held s.objects
            ∙ select-same _ _ s.objects
                (All-weaken _ _ (λ o h. held_back x o only l h) s.objects d.deleted))
      where
        held_back :
            (x : Thumb) (o : Object)
            → All (λ y. same_object_key x y ≡ true → x ≡ y) s.rows
            → is_live x ≡ true
            → (d.held o ≡ true) ⊎ (withdrawn_owner s o ≡ true)
            → (d.held o && has_key x.object_key o) ≡ has_key x.object_key o
        held_back x o only l (inl e) = ground (arith, e)
        held_back x o only l (inr w) = elim (Bool-cases (has_key x.object_key o)) [
          | inl h ↦ absurd (ground (arith, w, unowned s x o only l h))
          | inr h ↦ ground (arith, h)
        ]
