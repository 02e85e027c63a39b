-- ===== src/Cache/Workers/Quota.antt =====
-- markByQuota: what stays fits the quota.
use hirame.Prelude.{
  ℕ, zero, suc, ◌≤◌, ◌<◌, Bool, true, false, ◌&&◌, not, List, [], ◌∷◌, ◌≡◌, refl, sym, ap, ◌∙◌,
  arith, ltb, ◌⊎◌, inl, inr, select, All, All-of, All-weaken, All-of_select, select-same, sort_by,
  length, All-select_test, Bool-cases, subst,
}
use hirame.Ingest.Tx.{calm, Conn, statement, pure}
use hirame.Cache.Tables
use hirame.Cache.Tables.{
  Cache, Thumb, is_live, among, withdraw, used_since, running_bytes, sum_bytes,
}
use hirame.Cache.Workers.{ids_of, mark, mark_by_quota}
use hirame.Cache.Workers.Candidates.{candidates, All-among_iff}
use hirame.Cache.Workers.Withdraw.{
  Without, Without-withdraw, HasIds-withdraw, length-withdraw, withdraw-same,
}
use hirame.Cache.Runs.{
  Returned, Returns, Returns-pure, Returns-statement, Returns-bind, Leaves, After, Leaves-statement,
  Leaves-pure, Leaves-bind,
}
use hirame.Cache.Drain.{HasIds}

sum-select :
    (p q : Thumb → Bool) (ts : List Thumb)
    → All (λ t. p t ≡ true → q t ≡ true) ts
    → sum_bytes (select p ts) ≤ sum_bytes (select q ts)
sum-select p q [] h = ground arith
sum-select p q (t ∷ ts) (h, hs) = ground (arith, h, sum-select p q ts hs)

used_since_trans :
    (a b c : Thumb) → used_since a b ≡ true → used_since b c ≡ true → used_since a c ≡ true
used_since_trans a b c h k = ground arith

used_since_total : (a b : Thumb) → used_since a b ≡ false → used_since b a ≡ true
used_since_total a b h = ground arith

-- Of some rows one was used least recently.
least_used :
    (P : Thumb → Type 0) (ts : List Thumb)
    → All P ts
    → (ts ≡ []) ⊎ ((m : Thumb) × P m × All (λ t. used_since m t ≡ true) ts)
least_used P [] h = inl refl
least_used P (t ∷ ts) (h, hs) = elim (least_used P ts hs) [
  | inl e ↦ inr (t, h, (ground arith, rw e tt))
  | inr (m, p, us) ↦ elim (Bool-cases (used_since m t)) [
    | inl u ↦ inr (m, p, (u, us))
    | inr u ↦ inr (
      t,
      h,
      (
        ground arith,
        All-weaken _ _ (λ x v. used_since_trans t m x (used_since_total m t u) v) ts us,
      ),
    )
  ]
]

-- A row that is over the quota, counted with the live rows used since.
abbrev pub over_quota : ℕ → List Thumb → Thumb → Bool
over_quota max rows t = ltb max (running_bytes rows t)

-- The live rows that are not over the quota fit it together.
within_quota :
    (max : ℕ) (rows : List Thumb)
    → sum_bytes (select (λ t. is_live t && not (over_quota max rows t)) rows) ≤ max
within_quota max rows =
    let keep : Thumb → Bool = λ t. is_live t && not (over_quota max rows t) in
    elim (least_used (λ t. running_bytes rows t ≤ max) (select keep rows)
      (All-select_test _ keep rows (All-of _ (λ t k. ground arith) rows))) [
        | inl e ↦ rw e (ground arith)
        | inr (m, p, us) ↦
            let h =
              sum-select keep (λ t. used_since m t && is_live t) rows
                (All-weaken _ _ (λ t u k. ground (arith, u k)) rows
                  (All-of_select _ keep rows us)) in
            omega (arith, h, p)
      ]

-- What a quota pass leaves.
pub record Trimmed (max : ℕ) (s0 s : Cache) : Type 0 where
  pub exact : Without (over_quota max s0.rows) s0 s
  pub fits : sum_bytes (select is_live s.rows) ≤ max
  pub ids : HasIds s
  pub size : length s.rows ≡ length s0.rows

abbrev marked_over : ℕ → Cache → Cache
marked_over max s = withdraw (λ t. is_live t && over_quota max s.rows t) s

Trimmed-marked : (max : ℕ) (s : Cache) → HasIds s → Trimmed max s (marked_over max s)
Trimmed-marked max s ids =
    let e : Without (over_quota max s.rows) s (marked_over max s) =
      Without-withdraw (λ t. is_live t && over_quota max s.rows t) s
      ∙ select-same _ _ s.rows
          (All-of _ (λ t. same_test (is_live t) (over_quota max s.rows t)) s.rows) in
    record {
      exact = e;
      fits = rw e (within_quota max s.rows);
      ids = HasIds-withdraw _ s ids;
      size = length-withdraw _ s;
    }
  where
    same_test : (a b : Bool) → (a && not (a && b)) ≡ (a && not b)
    same_test a b = ground arith

-- Where there is no candidate nothing is over the quota.
Trimmed-unmarked :
    (max : ℕ) (s : Cache)
    → HasIds s
    → sort_by used_since (select (λ t. is_live t && over_quota max s.rows t) s.rows) ≡ []
    → Trimmed max s s
Trimmed-unmarked max s ids e =
    let none_chosen =
      All-among_iff used_since (λ t. is_live t && over_quota max s.rows t) s.rows ids in
    let x : Without (over_quota max s.rows) s s = select-same _ _ s.rows (
      All-weaken _ _ (λ t h. unchosen (is_live t) (over_quota max s.rows t) (rw e at h)) s.rows
        none_chosen) in
    record { exact = x; fits = rw x (within_quota max s.rows); ids = ids; size = refl }
  where
    unchosen : (a b : Bool) → false ≡ (a && b) → a ≡ (a && not b)
    unchosen a b h = ground arith

abbrev over : ℕ → Cache → List Thumb
over max s = candidates used_since (λ t. is_live t && over_quota max s.rows t) s.rows

listing :
    (max : ℕ) (s0 : Cache)
    → Leaves
        (λ s. s ≡ s0)
        (statement (Tables.candidates_by_quota max))
        (λ batch s. (s ≡ s0) × (batch ≡ over max s0))
        (λ s. s ≡ s0)
unfolding Tables.candidates_by_quota
listing max s0 = Leaves-statement _ (λ s e. (_, refl, (e, ap (over max) e))) (λ s e. e)

trimming :
    (max : ℕ) (s0 : Cache)
    → HasIds s0
    → (batch : List Thumb)
    → Leaves
        (λ s. (s ≡ s0) × (batch ≡ over max s0))
        (elim batch [ [] ↦ pure tt | t ∷ ts ↦ mark (t ∷ ts) ])
        (λ _. Trimmed max s0)
        (λ s. s ≡ s0)
unfolding mark Tables.mark_pending_delete
trimming max s0 ids [] = Leaves-pure tt (λ s p. rw (p.0) (Trimmed-unmarked max s0 ids (sym p.1)))
trimming max s0 ids (t ∷ ts) =
    Leaves-statement _
      (λ s p. (tt, refl, subst (Trimmed max s0) (sym (marked s p)) (Trimmed-marked max s0 ids)))
      (λ s p. p.0)
  where
    marked :
        (s : Cache)
        → (s ≡ s0) × ((t ∷ ts) ≡ over max s0)
        → withdraw (among (ids_of (t ∷ ts))) s ≡ marked_over max s0
    marked s p =
        ap (withdraw (among (ids_of (t ∷ ts)))) p.0
        ∙ (ap (λ b. withdraw (among (ids_of b)) s0) p.1
            ∙ withdraw-same _ _ s0
                (All-among_iff used_since (λ t. is_live t && over_quota max s0.rows t) s0.rows ids))

-- The quota pass, when it returns, has withdrawn exactly the live rows that are over the quota
-- together with the live rows used since, and the live rows fit the quota; on an error it has
-- changed nothing. The quota is positive, and rows have distinct ids.
pub mark_by_quota-Trimmed :
    (max : ℕ) (c : Conn Cache)
    → 0 < max
    → HasIds c.state
    → After (λ _. Trimmed max c.state) (λ s. s ≡ c.state) (mark_by_quota max c)
unfolding mark_by_quota
mark_by_quota-Trimmed zero c h ids = absurd (ground arith)
mark_by_quota-Trimmed (suc m) c h ids =
    let l =
      Leaves-bind (λ batch s. (s ≡ c.state) × (batch ≡ over (suc m) c.state))
        (listing (suc m) c.state) (trimming (suc m) c.state ids) in
    l.at c refl

marking :
    (batch : List Thumb)
    → Returns
        (λ _. Unit {0})
        (elim batch [ [] ↦ pure tt | t ∷ ts ↦ mark (t ∷ ts) ])
        (λ _ _. Unit {0})
unfolding mark Tables.mark_pending_delete
marking [] = Returns-pure tt (λ s p. p)
marking (t ∷ ts) = Returns-statement _ (λ s p. (tt, refl, p))

returning : (max : ℕ) → Returns (λ _. Unit {0}) (mark_by_quota max) (λ _ _. Unit {0})
unfolding mark_by_quota Tables.candidates_by_quota
returning zero = Returns-pure tt (λ s p. p)
returning (suc m) =
    Returns-bind (λ _ _. Unit {0}) (Returns-statement _ (λ s p. (_, refl, p))) marking

-- Where no call fails the quota pass returns.
pub mark_by_quota-Returned :
    (max : ℕ) (s : Cache)
    → 0 < max
    → HasIds s
    → Returned (λ _. Trimmed max s) (mark_by_quota max (calm s))
mark_by_quota-Returned max s h ids =
    let (a, t, e, _) = (returning max).at s tt in
    let x : After (λ _. Trimmed max s) (λ t. t ≡ s) (mark_by_quota max (calm s)) =
      mark_by_quota-Trimmed max (calm s) h ids in
    (a, t, e, rw e at x)
