-- ===== src/Cache/Workers/Orphans.antt =====
-- sweepOrphans: what is left in the bucket where no call fails.
use hirame.Prelude.{
  ℕ, Bool, true, false, ◌&&◌, not, List, [], ◌∷◌, ◌++◌, ◌≡◌, refl, sym, subst, arith, ltb, ◌⊎◌, inl,
  inr, has, select, reject, All, All-of, All-append, All-weaken, All-zip, All-select, All-found,
  select-all, select-select, map, Bytes, bytes_eq, bytes_eq_refl, bytes_eq_sym, has-reject,
  has-select-false, Bool-cases,
}
use hirame.Ingest.Tx.{calm, ping}
use hirame.Cache.Tables
use hirame.Cache.Tables.{Cache, Thumb, Object, has_key}
use hirame.Cache.Workers.{delete_unknown, sweep_page, sweep_orphans, settled_keys}
use hirame.Cache.Runs.{
  Returns, Returned, Returns-statement, Returns-pure, Returns-bind, Returns-if, Returns-weaken,
  Returns-given,
}

-- A row has the key.
abbrev pub referenced : List Thumb → Bytes → Bool
referenced rows k = has (λ t. bytes_eq t.object_key k) rows

abbrev pub every : List (List Object) → List Object
every [] = []
every (page ∷ pages) = page ++ every pages

known_is_referenced :
    (k : Bytes) (keys : List Bytes) (rows : List Thumb)
    → has
        (bytes_eq k)
        (map (λ (t : Thumb). t.object_key) (select (λ t. has (bytes_eq t.object_key) keys) rows))
      ≡ true
    → referenced rows k ≡ true
known_is_referenced k keys [] h = absurd (ground arith)
known_is_referenced k keys (t ∷ ts) h = elim (Bool-cases (bytes_eq t.object_key k)) [
  | inl e ↦ ground (arith, e)
  | inr e ↦ ground (arith, e, known_is_referenced k keys ts, bytes_eq_sym k t.object_key)
]

module _ (s0 : Cache) where
  -- The key is in no object any more, or a row has it.
  abbrev Settled : Cache → Bytes → Type 0
  Settled s k = (has (has_key k) s.objects ≡ false) ⊎ (referenced s0.rows k ≡ true)

  abbrev Fewer : Cache → Type 0
  Fewer s = (held : Object → Bool) × (s.objects ≡ select held s0.objects)

  abbrev Cleaned : List Bytes → Cache → Type 0
  Cleaned ks s = (s.rows ≡ s0.rows) × (Fewer s × All (Settled s) ks)

  Cleaned-delete :
      (k : Bytes) (ks : List Bytes) (s : Cache)
      → Cleaned ks s
      → Cleaned (k ∷ ks) (record s { objects = reject (has_key k) s.objects })
  Cleaned-delete k ks s (r, ((held, e), a)) = (
    r,
    (
      (
        (λ o. held o && not (has_key k o)),
        rw e (select-select (λ o. not (has_key k o)) held s0.objects),
      ),
      (
        inl (has-reject (has_key k) s.objects),
        All-weaken _ _
            (λ j h. elim h [ inl g ↦ inl (has-select-false _ _ s.objects g) | inr g ↦ inr g ]) ks a,
      ),
    ),
  )

  abbrev Answer : List Bytes → List Bytes → Type 0
  Answer known = All (λ k. has (bytes_eq k) known ≡ true → referenced s0.rows k ≡ true)

  abbrev both : List Bytes → List Bytes → List Bytes
  both [] done = done
  both (k ∷ ks) done = both ks (k ∷ done)

  delete_unknown-Returns :
      (known keys done : List Bytes)
      → Answer known keys
      → Returns (Cleaned done) (delete_unknown known keys) (λ _. Cleaned (both keys done))
  unfolding delete_unknown Tables.delete_object
  delete_unknown-Returns known [] done h = Returns-pure tt (λ s c. c)
  delete_unknown-Returns known (key ∷ keys) done (h, hs) =
      Returns-bind (λ _. Cleaned (key ∷ done))
        (Returns-if (has (bytes_eq key) known)
          (λ e. Returns-pure tt (λ s c. (c.0, (c.1.0, (inr (h e), c.1.1)))))
          (λ _. Returns-statement _ (λ s c. (tt, refl, Cleaned-delete key done s c))))
        (λ _. delete_unknown-Returns known keys (key ∷ done) hs)

  sweep_page-Returns :
      (keys done : List Bytes)
      → Returns (Cleaned done) (sweep_page keys) (λ _. Cleaned (both keys done))
  unfolding sweep_page Tables.referenced_keys
  sweep_page-Returns [] done = Returns-pure tt (λ s c. c)
  sweep_page-Returns (key ∷ keys) done =
      Returns-bind (λ known s. Cleaned done s × Answer known (key ∷ keys))
        (Returns-statement _ (λ s c. (
          _,
          refl,
          (
            c,
            All-of _
                (λ k e.
                  subst (λ r. referenced r k ≡ true) c.0
                    (known_is_referenced k (key ∷ keys) s.rows e))
                (key ∷ keys),
          ),
        )))
        (λ known.
          Returns-given (Answer known (key ∷ keys))
            (delete_unknown-Returns known (key ∷ keys) done))

  abbrev checked : ℕ → List (List Object) → List Bytes → List Bytes
  checked cutoff [] done = done
  checked cutoff (page ∷ pages) done = checked cutoff pages (both (settled_keys cutoff page) done)

  sweep_orphans-Returns :
      (cutoff : ℕ) (pages : List (List Object)) (done : List Bytes)
      → Returns
          (Cleaned done)
          (sweep_orphans cutoff pages)
          (λ _. Cleaned (checked cutoff pages done))
  unfolding sweep_orphans ping
  sweep_orphans-Returns cutoff [] done = Returns-pure tt (λ s c. c)
  sweep_orphans-Returns cutoff (page ∷ pages) done =
      Returns-bind (λ _. Cleaned done) (Returns-statement _ (λ s c. (tt, refl, c)))
        (λ _.
          Returns-bind (λ _. Cleaned (both (settled_keys cutoff page) done))
            (sweep_page-Returns (settled_keys cutoff page) done)
            (λ _. sweep_orphans-Returns cutoff pages (both (settled_keys cutoff page) done)))

  module _ (P : Bytes → Type 0) where
    All-both : (ks done : List Bytes) → All P (both ks done) → All P ks × All P done
    All-both [] done a = (tt, a)
    All-both (k ∷ ks) done a = let b = All-both ks (k ∷ done) a in ((b.1.0, b.0), b.1.1)

    All-settled_keys :
        (cutoff : ℕ) (page : List Object)
        → All P (settled_keys cutoff page)
        → All (λ o. (ltb cutoff o.last_modified ≡ true) ⊎ P o.key) page
    All-settled_keys cutoff [] a = tt
    All-settled_keys cutoff (o ∷ page) a = elim (Bool-cases (ltb cutoff o.last_modified)) [
      | inl e ↦
          let b : All P (settled_keys cutoff page) = rw e at a in
          (inl e, All-settled_keys cutoff page b)
      | inr e ↦
          let b : All P (o.key ∷ settled_keys cutoff page) = rw e at a in
          (inr b.0, All-settled_keys cutoff page b.1)
    ]

    All-checked :
        (cutoff : ℕ) (pages : List (List Object)) (done : List Bytes)
        → All P (checked cutoff pages done)
        → All (λ o. (ltb cutoff o.last_modified ≡ true) ⊎ P o.key) (every pages) × All P done
    All-checked cutoff [] done a = (tt, a)
    All-checked cutoff (page ∷ pages) done a =
        let (later, b) = All-checked cutoff pages (both (settled_keys cutoff page) done) a in
        let (c, d) = All-both (settled_keys cutoff page) done b in
        (All-append _ page (every pages) (All-settled_keys cutoff page c) later, d)

-- Every object is younger than the cutoff or has a row.
abbrev pub Accounted : ℕ → Cache → Type 0
Accounted cutoff s =
    All (λ o. (ltb cutoff o.last_modified ≡ true) ⊎ (referenced s.rows o.key ≡ true)) s.objects

Accounted-of_Cleaned :
    (cutoff : ℕ) (pages : List (List Object)) (s t : Cache)
    → every pages ≡ s.objects
    → Cleaned s (checked s cutoff pages []) t
    → Accounted cutoff t
Accounted-of_Cleaned cutoff pages s t e (r, ((held, h), a)) =
    let (seen, _) = All-checked s (Settled s t) cutoff pages [] a in
    let left : All (λ o. (ltb cutoff o.last_modified ≡ true) ⊎ Settled s t o.key) t.objects =
      subst (All _) (sym h) (All-select _ held s.objects (rw e at seen)) in
    All-zip _ _ _ (λ o f k. accounted o f k) t.objects (All-found t.objects) left
  where
    accounted :
        (o : Object)
        → ((q : Object → Bool) → q o ≡ true → has q t.objects ≡ true)
        → (ltb cutoff o.last_modified ≡ true) ⊎ Settled s t o.key
        → (ltb cutoff o.last_modified ≡ true) ⊎ (referenced t.rows o.key ≡ true)
    accounted o f (inl y) = inl y
    accounted o f (inr (inl g)) =
        absurd (ground (arith, g, f (has_key o.key) (bytes_eq_refl o.key)))
    accounted o f (inr (inr k)) = inr (rw r k)

-- Where no call fails and the listing brings the objects of the bucket, page by page, the orphan
-- pass returns with the rows as they were, and each object left is younger than the cutoff or has
-- an accounting row.
pub sweep_orphans-Accounted :
    (cutoff : ℕ) (pages : List (List Object)) (s : Cache)
    → every pages ≡ s.objects
    → Returned (λ _ t. (t.rows ≡ s.rows) × Accounted cutoff t) (sweep_orphans cutoff pages (calm s))
sweep_orphans-Accounted cutoff pages s e =
    (Returns-weaken (Cleaned s []) (λ t c. c)
        (λ _ t c. (c.0, Accounted-of_Cleaned cutoff pages s t e c))
        (sweep_orphans-Returns s cutoff pages [])).at
      s (refl, (((λ _. true), select-all s.objects), tt))
