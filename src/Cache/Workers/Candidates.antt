-- ===== src/Cache/Workers/Candidates.antt =====
-- The rows that a list of candidates' ids chooses are the candidates.
use hirame.Prelude.{
  ℕ, ◌<◌, ltb, not, take, length, take-short, has-take, has-weaken, has_of_Lacks, length-select-lt,
  All-of, Bool, true, false, ◌&&◌, List, ◌∷◌, ◌≡◌, sym, ap, ◌∙◌, arith, ◌==◌, inl, inr, has, select,
  All, All-weaken, All-zip, All-has, distinct, All-unique, All-selected, has_of_select, has-sort_by,
  sort_by, Bool-cases,
}
use hirame.Cache.Tables.{Thumb, among}
use hirame.Cache.Workers.{ids_of}
use hirame.Cache.Drain.{same_id}
use hirame.Cache.Drain.Progress.{among-ids_of}

module _ (le : Thumb → Thumb → Bool) (chosen : Thumb → Bool) (rows : List Thumb) where
  abbrev pub candidates : List Thumb
  candidates = sort_by le (select chosen rows)

  among-candidates :
      (t : Thumb) → among (ids_of candidates) t ≡ has (λ b. b.id == t.id) (select chosen rows)
  among-candidates t =
      among-ids_of t candidates ∙ has-sort_by le (λ b. b.id == t.id) (select chosen rows)

  -- Every candidate is among the ids.
  pub All-among : All (λ t. chosen t ≡ true → among (ids_of candidates) t ≡ true) rows
  All-among =
      All-weaken _ _ (λ t h c. among-candidates t ∙ h c) rows
        (All-selected (λ t b. b.id == t.id) chosen (λ t. ground arith) rows)

  -- With distinct ids, only the candidates are.
  pub All-among_iff :
      distinct same_id rows ≡ true → All (λ t. among (ids_of candidates) t ≡ chosen t) rows
  All-among_iff ids =
      All-zip _ _ _
        (λ t h only. elim (Bool-cases (chosen t)) [
          | inl c ↦ h c ∙ sym c
          | inr c ↦ (elim (Bool-cases (among (ids_of candidates) t)) [
            | inl a ↦ absurd (refuted t c only (sym (among-candidates t) ∙ a))
            | inr a ↦ a ∙ sym c
          ])
        ])
        rows All-among (All-unique same_id (λ x y e. ground arith) rows ids)
    where
      refuted :
          (t : Thumb)
          → chosen t ≡ false
          → All (λ x. same_id t x ≡ true → t ≡ x) rows
          → has (λ b. b.id == t.id) (select chosen rows) ≡ true
          → ⊥
      refuted t c only h =
          let (x, e, k) =
            All-has _ (λ x. chosen x && (x.id == t.id)) rows only
              (has_of_select chosen (λ b. b.id == t.id) rows h) in
          let p : t ≡ x = k (ground arith) in
          let q : chosen x ≡ true = ground arith in ground (arith, ap chosen p)

  -- A batch takes the first candidates.
  module _ (limit : ℕ) where
    abbrev pub batch : List Thumb
    batch = take limit candidates

    -- With distinct ids, only candidates are in a batch.
    pub All-batch :
        distinct same_id rows ≡ true
        → All (λ t. among (ids_of batch) t ≡ true → chosen t ≡ true) rows
    All-batch ids =
        All-weaken _ _
          (λ t e h.
            sym e
            ∙ (among-ids_of t candidates
                ∙ has-take (λ b. b.id == t.id) limit candidates (sym (among-ids_of t batch) ∙ h)))
          rows (All-among_iff ids)

    -- A batch that is not full has every candidate.
    pub has-last :
        ltb (length batch) limit ≡ true
        → has (λ t. chosen t && not (among (ids_of batch) t)) rows ≡ false
    has-last h = has_of_Lacks _ rows (
        All-weaken _ _
          (λ t f.
            left_out (chosen t) _
              (λ c. ap (λ b. among (ids_of b) t) (take-short limit candidates h) ∙ f c))
          rows All-among)
      where
        left_out : (c a : Bool) → (c ≡ true → a ≡ true) → (c && not a) ≡ false
        left_out c a h = ground (arith, h)

    -- A batch leaves fewer candidates.
    pub length-batch :
        (t : Thumb) (ts : List Thumb)
        → batch ≡ t ∷ ts
        → length (select (λ x. chosen x && not (among (ids_of (t ∷ ts)) x)) rows)
          < length (select chosen rows)
    length-batch t ts e =
        let r : Thumb → Bool = among (ids_of (t ∷ ts)) in
        let head : has r batch ≡ true = rw e (ground arith) in
        let found : has r (select chosen rows) ≡ true =
          sym (has-sort_by le r (select chosen rows)) ∙ has-take r limit candidates head in
        length-select-lt _ chosen rows (λ x. first (chosen x) (not (r x)))
          (has-weaken _ _ rows (All-of _ (λ x. taken (chosen x) (r x)) rows)
            (has_of_select chosen r rows found))
      where
        first : (a b : Bool) → (a && b) ≡ true → a ≡ true
        first a b h = ground arith

        taken : (c r : Bool) → (c && r) ≡ true → (c && not (c && not r)) ≡ true
        taken c r h = ground arith
