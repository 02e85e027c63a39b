-- ===== src/Cache/Workers/Withdraw.antt =====
-- Withdrawing rows, and the live rows that are left.
use hirame.Prelude.{
  ℕ, suc, length, subst, Bool, false, ◌&&◌, not, List, [], ◌∷◌, ◌≡◌, refl, sym, ap, ◌∙◌, arith, ◌⊎◌,
  inl, inr, select, All, All-of, All-weaken, update_where, update-same, distinct-map, select-select,
  select-same, Bool-cases, if◌then◌else◌,
}
use hirame.Ingest.Tx.{Result, ok, statement, ◌>>◌}
use hirame.Cache.Tables.{Cache, Thumb, is_live, withdraw, withdrawn}
use hirame.Cache.Workers.{drain_pending}
use hirame.Cache.Runs.{Leaves, Leaves-statement, Leaves-bind, Leaves-weaken}
use hirame.Cache.Runs.Compare.{Leaves-errors}
use hirame.Cache.Drain.{Drained, HasIds, Drained-refl, same_id}
use hirame.Cache.Drain.Safety.{drain_pending-Leaves}

-- The live rows of `s` are those of `s0` without the ones that `p` chose.
abbrev pub Without : (Thumb → Bool) → Cache → Cache → Type 0
Without p s0 s = select is_live s.rows ≡ select (λ t. is_live t && not (p t)) s0.rows

same_id-if :
    (p : Thumb → Bool) (now : ℕ) (x y : Thumb)
    → same_id (if p x then withdrawn now x else x) (if p y then withdrawn now y else y)
      ≡ same_id x y
same_id-if p now x y = ground arith

pub HasIds-withdraw : (p : Thumb → Bool) (s : Cache) → HasIds s → HasIds (withdraw p s)
HasIds-withdraw p s h =
    distinct-map (λ _. Unit {0}) same_id same_id (λ t. if p t then withdrawn s.now t else t)
      (λ x y _ _ e. rw (same_id-if p s.now x y) at e) s.rows (All-of _ (λ _. tt) s.rows) h

pub withdraw-same :
    (p q : Thumb → Bool) (s : Cache) → All (λ t. p t ≡ q t) s.rows → withdraw p s ≡ withdraw q s
withdraw-same p q s h =
    ap (λ (rows : List Thumb). record s { rows = rows })
      (update-same p q (withdrawn s.now) s.rows h)

pub live-withdrawn : (now : ℕ) (t : Thumb) → is_live (withdrawn now t) ≡ false
live-withdrawn now t = ground arith

pub length-withdraw : (p : Thumb → Bool) (s : Cache) → length (withdraw p s).rows ≡ length s.rows
length-withdraw p s = length-update s.rows
  where
    length-update : (ts : List Thumb) → length (update_where p (withdrawn s.now) ts) ≡ length ts
    length-update [] = refl
    length-update (t ∷ ts) = ap suc (length-update ts)

live-update :
    (p : Thumb → Bool) (now : ℕ) (rows : List Thumb)
    → select is_live (update_where p (withdrawn now) rows)
      ≡ select (λ t. is_live t && not (p t)) rows
live-update p now [] = refl
live-update p now (t ∷ ts) = elim (Bool-cases (p t)) [
  | inl e ↦ rw (e, live-withdrawn now t, live-update p now ts) (ground arith)
  | inr e ↦ ground (arith, e, live-update p now ts)
]

pub Without-withdraw : (p : Thumb → Bool) (s : Cache) → Without p s (withdraw p s)
Without-withdraw p s = live-update p s.now s.rows

pub live-Drained : (s t : Cache) → Drained s t → select is_live t.rows ≡ select is_live s.rows
live-Drained s t d =
    ap (select is_live) d.rows
    ∙ (select-select is_live d.kept s.rows
        ∙ select-same _ is_live s.rows (
            All-weaken _ _
              (λ x h. elim h [ inl k ↦ ground (arith, k) | inr l ↦ ground (arith, l.0) ]) s.rows
              d.purged))

-- A statement that withdraws rows, and a drain after it.
pub withdraw-drain-Leaves :
    (p : Thumb → Bool) (f : Cache → Result (Unit {0}) × Cache) (fuel : ℕ) (s0 : Cache)
    → f s0 ≡ (ok tt, withdraw p s0)
    → HasIds s0
    → Leaves
        (λ s. s ≡ s0)
        (do statement f; drain_pending fuel)
        (λ _. Without p s0)
        (λ s. (s ≡ s0) ⊎ Without p s0 s)
withdraw-drain-Leaves p f fuel s0 e ids =
    Leaves-bind (λ _ s. s ≡ withdraw p s0)
      (Leaves-statement f
        (λ s q. (
          tt,
          ap (λ x. (f x).0) q ∙ ap (λ (r : Result (Unit {0}) × Cache). r.0) e,
          ap (λ x. (f x).1) q ∙ ap (λ (r : Result (Unit {0}) × Cache). r.1) e,
        ))
        (λ s q. inl q))
      (λ _.
        Leaves-errors (λ s d. inr (after s d))
          (Leaves-weaken (λ s. s ≡ withdraw p s0)
            (λ s q. subst (Drained (withdraw p s0)) (sym q) (Drained-refl _)) (λ _ s d. after s d)
            (drain_pending-Leaves (withdraw p s0) (HasIds-withdraw p s0 ids) fuel)))
  where
    after : (s : Cache) → Drained (withdraw p s0) s → Without p s0 s
    after s d = live-Drained (withdraw p s0) s d ∙ Without-withdraw p s0
