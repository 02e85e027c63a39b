-- ===== src/Cache/Workers/Age.antt =====
-- markByAge: the expired rows are withdrawn, batch by batch.
use hirame.Prelude.{
  ℕ, zero, suc, ◌-◌, ◌<◌, Bool, true, false, ◌&&◌, not, List, [], ◌∷◌, ◌≡◌, refl, sym, ap, subst,
  ◌∙◌, arith, ltb, inl, inr, has, select, All, All-weaken, Lacks-of_has, select-same,
  has-select_self, has-select_none, has-of_and, update_where, length, Bool-cases, if◌then◌else◌,
}
use hirame.Ingest.Tx.{Conn, calm, statement, pure, ◌>>◌}
use hirame.Cache.Tables
use hirame.Cache.Tables.{
  Cache, Thumb, is_pending, is_live, among, withdraw, withdrawn, created_before,
}
use hirame.Cache.Workers.{ids_of, mark, mark_aged, mark_by_age, eviction_batch}
use hirame.Cache.Workers.Candidates.{batch, All-batch, has-last, length-batch}
use hirame.Cache.Workers.Withdraw.{Without, HasIds-withdraw, live-withdrawn, length-withdraw}
use hirame.Cache.Runs.{
  Leaves, Returns, Leaves-statement, Leaves-pure, Leaves-bind, Leaves-if, Leaves-given,
  Returns-statement, Returns-pure, Returns-if, Returns-weaken, Returns-bind, Returned,
}
use hirame.Cache.Runs.Compare.{Leaves-from, Returns-with, Leaves-state}
use hirame.Cache.Drain.{HasIds}

module _ (cutoff : ℕ) where
  abbrev pub expired : Thumb → Bool
  expired t = ltb t.created_at cutoff

  abbrev pub expired_live : Thumb → Bool
  expired_live t = expired t && is_live t

  abbrev pub fresh : Thumb → Bool
  fresh t = is_live t && not (expired t)

  -- From `s0` to `s` no live row went but expired ones.
  pub record Aged (s0 s : Cache) : Type 0 where
    pub spared : select fresh s.rows ≡ select fresh s0.rows
    pub ids : HasIds s
    pub size : length s.rows ≡ length s0.rows

  fresh-update :
      (p : Thumb → Bool) (now : ℕ) (rows : List Thumb)
      → All (λ t. p t ≡ true → expired_live t ≡ true) rows
      → select fresh (update_where p (withdrawn now) rows) ≡ select fresh rows
  fresh-update p now [] h = refl
  fresh-update p now (t ∷ ts) (h, hs) = elim (Bool-cases (p t)) [
    | inl e ↦ let k = h e in rw (e, live-withdrawn now t, fresh-update p now ts hs) (ground arith)
    | inr e ↦ ground (arith, e, fresh-update p now ts hs)
  ]

  expired-update :
      (p : Thumb → Bool) (now : ℕ) (rows : List Thumb)
      → select expired_live (update_where p (withdrawn now) rows)
        ≡ select (λ t. expired_live t && not (p t)) rows
  expired-update p now [] = refl
  expired-update p now (t ∷ ts) = elim (Bool-cases (p t)) [
    | inl e ↦ rw (e, live-withdrawn now t, expired-update p now ts) (ground arith)
    | inr e ↦ ground (arith, e, expired-update p now ts)
  ]

  abbrev expired_batch : List Thumb → List Thumb
  expired_batch rows = batch created_before expired_live rows eviction_batch

  Aged-withdraw :
      (s0 s : Cache) → Aged s0 s → Aged s0 (withdraw (among (ids_of (expired_batch s.rows))) s)
  Aged-withdraw s0 s a = record {
    spared =
        fresh-update _ s.now s.rows
          (All-batch created_before expired_live s.rows eviction_batch a.ids)
        ∙ a.spared;
    ids = HasIds-withdraw _ s a.ids;
    size = length-withdraw _ s ∙ a.size;
  }

  -- The state after a batch of candidates was marked, or the same state where there was none.
  abbrev Marked : Cache → Cache → Type 0
  Marked s0 s =
      (mid : Cache) × Aged s0 mid × (s ≡ withdraw (among (ids_of (expired_batch mid.rows))) mid)

  mark-Leaves :
      (s0 mid : Cache) (t : Thumb) (ts : List Thumb)
      → Aged s0 mid
      → t ∷ ts ≡ expired_batch mid.rows
      → Leaves (λ s. s ≡ mid) (mark (t ∷ ts)) (λ _. Aged s0) (Aged s0)
  unfolding mark Tables.mark_pending_delete
  mark-Leaves s0 mid t ts a e =
      Leaves-statement _
        (λ s p. (
          tt,
          refl,
          subst (Aged s0)
              (sym (
                ap (withdraw (among (ids_of (t ∷ ts)))) p
                ∙ ap (λ b. withdraw (among (ids_of b)) mid) e))
              (Aged-withdraw s0 mid a),
        ))
        (λ s p. subst (Aged s0) (sym p) a)

  round-Leaves :
      (s0 mid : Cache) (n : ℕ)
      → Leaves (Aged s0) (mark_aged n cutoff) (λ _. Aged s0) (Aged s0)
      → Aged s0 mid
      → (found : List Thumb) → found ≡ expired_batch mid.rows
      → Leaves
          (λ s. s ≡ mid)
          (elim found [
            | [] ↦ pure tt
            | t ∷ ts ↦ (do
              mark (t ∷ ts)
              if ltb (length (t ∷ ts)) eviction_batch then pure tt else mark_aged n cutoff)
          ])
          (λ _. Aged s0)
          (Aged s0)
  round-Leaves s0 mid n again a [] e = Leaves-pure tt (λ s p. subst (Aged s0) (sym p) a)
  round-Leaves s0 mid n again a (t ∷ ts) e =
      Leaves-bind (λ _. Aged s0) (mark-Leaves s0 mid t ts a e)
        (λ _.
          Leaves-if (ltb (length (t ∷ ts)) eviction_batch) (λ _. Leaves-pure tt (λ s a. a))
            (λ _. again))

  pub mark_aged-Leaves :
      (s0 : Cache) (n : ℕ) → Leaves (Aged s0) (mark_aged n cutoff) (λ _. Aged s0) (Aged s0)
  unfolding mark_aged Tables.candidates_by_age
  mark_aged-Leaves s0 zero = Leaves-pure tt (λ s a. a)
  mark_aged-Leaves s0 (suc n) = Leaves-from (λ mid a.
      Leaves-bind (λ found s. (s ≡ mid) × (found ≡ expired_batch mid.rows))
        (Leaves-statement _ (λ s e. (_, refl, (e, ap (λ (x : Cache). expired_batch x.rows) e)))
          (λ s e. subst (Aged s0) (sym e) a))
        (λ found.
          Leaves-given (found ≡ expired_batch mid.rows)
            (round-Leaves s0 mid n (mark_aged-Leaves s0 n) a found)))

  abbrev Fewer : ℕ → Cache → Type 0
  Fewer n s = HasIds s × (length (select expired_live s.rows) < n)

  abbrev pub NoneExpired : Cache → Type 0
  NoneExpired s = has expired_live s.rows ≡ false

  mark-Returns :
      (rows : List Thumb) (t : Thumb) (ts : List Thumb)
      → Returns
          (λ s. HasIds s × (s.rows ≡ rows))
          (mark (t ∷ ts))
          (λ _ s.
            HasIds s
            × (select expired_live s.rows
                ≡ select (λ x. expired_live x && not (among (ids_of (t ∷ ts)) x)) rows))
  unfolding mark Tables.mark_pending_delete
  mark-Returns rows t ts = Returns-statement _ (λ s p. (
    tt,
    refl,
    (
      HasIds-withdraw _ s p.0,
      expired-update _ s.now s.rows
          ∙ ap (select (λ x. expired_live x && not (among (ids_of (t ∷ ts)) x))) p.1,
    ),
  ))

  none_of_batch : (rows : List Thumb) → expired_batch rows ≡ [] → has expired_live rows ≡ false
  none_of_batch rows e =
      has-of_and expired_live rows
        (rw e at (has-last created_before expired_live rows eviction_batch (rw e refl)))

  round-Returns :
      (s0 : Cache) (n : ℕ)
      → Fewer (suc n) s0
      → Returns (Fewer n) (mark_aged n cutoff) (λ _. NoneExpired)
      → (found : List Thumb) → expired_batch s0.rows ≡ found
      → Returns
          (λ s. s ≡ s0)
          (elim found [
            | [] ↦ pure tt
            | t ∷ ts ↦ (do
              mark (t ∷ ts)
              if ltb (length (t ∷ ts)) eviction_batch then pure tt else mark_aged n cutoff)
          ])
          (λ _. NoneExpired)
  round-Returns s0 n f again [] e = Returns-pure tt (λ s p. rw p (none_of_batch s0.rows e))
  round-Returns s0 n f again (t ∷ ts) e =
      Returns-bind
        (λ _ s.
          HasIds s
          × (select expired_live s.rows
              ≡ select (λ x. expired_live x && not (among (ids_of (t ∷ ts)) x)) s0.rows))
        (Returns-weaken (λ s. s ≡ s0) (λ s p. rw p (f.0, refl)) (λ _ _ q. q)
          (mark-Returns s0.rows t ts))
        (λ _.
          Returns-if (ltb (length (t ∷ ts)) eviction_batch)
            (λ l. Returns-pure tt (λ s p.
              sym (has-select_self expired_live s.rows)
              ∙ (ap (has expired_live) p.1
                  ∙ has-select_none expired_live _ s0.rows (
                      rw e at
                        (has-last created_before expired_live s0.rows eviction_batch (rw e l))))))
            (λ _. Returns-weaken _ (λ s p. (p.0, fewer s p.1)) (λ _ _ q. q) again))
    where
      fewer :
          (s : Cache)
          → select expired_live s.rows
            ≡ select (λ x. expired_live x && not (among (ids_of (t ∷ ts)) x)) s0.rows
          → length (select expired_live s.rows) < n
      fewer s q = rw q (
          let k = length-batch created_before expired_live s0.rows eviction_batch t ts e in
          omega (arith, k, f.1))

  pub mark_aged-Returns : (n : ℕ) → Returns (Fewer n) (mark_aged n cutoff) (λ _. NoneExpired)
  unfolding mark_aged statement Tables.candidates_by_age
  mark_aged-Returns zero = record { at = λ s p. absurd (ground (arith, p.1)) }
  mark_aged-Returns (suc n) = record {
    at = λ s p. (round-Returns s n p (mark_aged-Returns n) (expired_batch s.rows) refl).at s refl;
  }

  exact : (s0 s : Cache) → Aged s0 s → NoneExpired s → Without expired s0 s
  exact s0 s a n =
      select-same is_live fresh s.rows (
        All-weaken _ _ (λ t h. unexpired (is_live t) (expired t) h) s.rows
          (Lacks-of_has expired_live s.rows n))
      ∙ a.spared
    where
      unexpired : (l e : Bool) → (e && l) ≡ false → l ≡ (l && not e)
      unexpired l e h = ground arith

  pub mark_aged-exact :
      (n : ℕ) (s : Cache)
      → HasIds s
      → length (select expired_live s.rows) < n
      → Returned (λ _ t. Aged s t × Without expired s t) (mark_aged n cutoff (calm s))
  mark_aged-exact n s ids h =
      (Returns-weaken (λ t. Fewer n t × Aged s t) (λ t p. p) (λ _ t q. (q.1, exact s t q.1 q.0))
          (Returns-with (mark_aged n cutoff) (mark_aged-Leaves s n) (mark_aged-Returns n))).at
        s ((ids, h), record { spared = refl; ids = ids; size = refl })

-- Whichever call fails, the age pass withdraws no live row but such that are older than the
-- limit: the others are as they were. Rows have distinct ids.
pub mark_by_age-Aged :
    (fuel now age : ℕ) (c : Conn Cache)
    → HasIds c.state
    → Aged (now - age) c.state (mark_by_age fuel now age c).1.state
unfolding mark_by_age
mark_by_age-Aged fuel now zero c ids = record { spared = refl; ids = ids; size = refl }
mark_by_age-Aged fuel now (suc age) c ids =
    Leaves-state _ (Aged (now - suc age) c.state) (mark_aged fuel (now - suc age)) c
      (mark_aged-Leaves (now - suc age) c.state fuel)
      (record { spared = refl; ids = ids; size = refl })
