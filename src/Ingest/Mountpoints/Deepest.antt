-- ===== src/Ingest/Mountpoints/Deepest.antt =====
-- mountpointFor: the deepest root that contains the path.
use hirame.Prelude.{
  ◌≤◌, ◌<◌, true, false, List, [], ◌∷◌, ◌++◌, ap, none, some, ◌≡◌, ◌⊎◌, inl, inr, refl, arith,
  Bytes, Bool-cases, All, Lacks, length, ltb,
}
use hirame.Ingest.Mountpoints.{Mountpoint, contains, deeper, deepest, mountpoint_for}

-- A root does not contain the path, or it is less deep than `best`.
abbrev pub Shallower : Bytes → Mountpoint → Mountpoint → Type 0
Shallower path best m = (contains m path ≡ false) ⊎ (length m.root < length best.root)

-- A root does not contain the path, or it is no deeper than `best`.
abbrev pub Covers : Bytes → Mountpoint → Mountpoint → Type 0
Covers path best m = (contains m path ≡ false) ⊎ (length m.root ≤ length best.root)

deeper-new :
    (m : Mountpoint) (b : Mountpoint)
    → ltb (length b.root) (length m.root) ≡ true
    → deeper (some b) m ≡ some m
unfolding deeper
deeper-new m b e = rw (e, deeper) refl

deeper-old :
    (m : Mountpoint) (b : Mountpoint)
    → ltb (length b.root) (length m.root) ≡ false
    → deeper (some b) m ≡ some b
unfolding deeper
deeper-old m b e = rw (e, deeper) refl

-- `mp` is the first of the roots that contain the path with the longest name.
pub record Deepest (path : Bytes) (mps : List Mountpoint) (mp : Mountpoint) : Type 0 where
  pub before : List Mountpoint
  pub after : List Mountpoint
  pub listed : mps ≡ before ++ mp ∷ after
  pub contained : contains mp path ≡ true
  pub shallower : All (Shallower path mp) before
  pub covers : All (Covers path mp) after

module _ (path : Bytes) where
  Deepest-head :
      (m : Mountpoint) (mps : List Mountpoint)
      → contains m path ≡ true
      → All (Covers path m) mps
      → Deepest path (m ∷ mps) m
  Deepest-head m mps n a = record {
    before = [];
    after = mps;
    listed = refl;
    contained = n;
    shallower = tt;
    covers = a;
  }

  Deepest-cons :
      (m : Mountpoint) (mps : List Mountpoint) (mp : Mountpoint)
      → Shallower path mp m
      → Deepest path mps mp
      → Deepest path (m ∷ mps) mp
  Deepest-cons m mps mp l d = record {
    before = m ∷ d.before;
    after = d.after;
    listed = ap (λ ms. m ∷ ms) d.listed;
    contained = d.contained;
    shallower = (l, d.shallower);
    covers = d.covers;
  }

  -- The loop goes on from a root that contains the path.
  deepest-from :
      (b : Mountpoint) (mps : List Mountpoint)
      → contains b path ≡ true
      → ((deepest path (some b) mps ≡ some b) × All (Covers path b) mps)
        ⊎ ((mp : Mountpoint) × (deepest path (some b) mps ≡ some mp)
            × (length b.root < length mp.root)
            × Deepest path mps mp)
  unfolding deepest
  deepest-from b [] c = inl (refl, tt)
  deepest-from b (m ∷ mps) c = elim (Bool-cases (contains m path)) [
    | inr n ↦ elim (deepest-from b mps c) [
      | inl (e, a) ↦ rw (n, deepest) (inl (e, (inl refl, a)))
      | inr (mp, e, l, d) ↦ rw (n, deepest) (inr (mp, e, l, Deepest-cons m mps mp (inl n) d))
    ]
    | inl n ↦ elim (Bool-cases (ltb (length b.root) (length m.root))) [
      | inl t ↦ elim (deepest-from m mps n) [
        | inl (e, a) ↦
            rw (n, deeper-new m b t, deepest) (inr (m, e, ground arith, Deepest-head m mps n a))
        | inr (mp, e, l, d) ↦
            rw (n, deeper-new m b t, deepest)
              (inr (mp, e, ground arith, Deepest-cons m mps mp (inr l) d))
      ]
      | inr t ↦ elim (deepest-from b mps c) [
        | inl (e, a) ↦ rw (n, deeper-old m b t, deepest) (inl (e, (inr (ground arith), a)))
        | inr (mp, e, l, d) ↦
            rw (n, deeper-old m b t, deepest)
              (inr (mp, e, l, Deepest-cons m mps mp (inr (ground arith)) d))
      ]
    ]
  ]

-- mountpointFor finds no root exactly where none of the roots contains the path; else it finds the
-- first of those with the longest name among the roots that contain the path.
pub mountpoint_for_lem :
    (mps : List Mountpoint) (path : Bytes)
    → ((mountpoint_for mps path ≡ none) × Lacks (λ m. contains m path) mps)
      ⊎ ((mp : Mountpoint) × (mountpoint_for mps path ≡ some mp) × Deepest path mps mp)
unfolding mountpoint_for deepest deeper
mountpoint_for_lem [] path = inl (refl, tt)
mountpoint_for_lem (m ∷ mps) path = elim (Bool-cases (contains m path)) [
  | inl n ↦ elim (deepest-from path m mps n) [
    | inl (e, a) ↦ rw (n, deepest) (inr (m, e, Deepest-head path m mps n a))
    | inr (mp, e, l, d) ↦ rw (n, deepest) (inr (mp, e, Deepest-cons path m mps mp (inr l) d))
  ]
  | inr n ↦ elim (mountpoint_for_lem mps path) [
    | inl (e, k) ↦ rw (n, deepest) (inl (e, (refl, k)))
    | inr (mp, e, d) ↦ rw (n, deepest) (inr (mp, e, Deepest-cons path m mps mp (inl n) d))
  ]
]
