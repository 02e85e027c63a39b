-- ===== src/Jobs/Extract/Outcome.antt =====
-- ExtractWorker.Work (internal/jobs/workers.go): how a job ends, why, and what its row says then.
use hirame.Prelude.{
  ℕ, Bool, true, false, List, [], ◌∷◌, ◌++◌, Option, none, some, ◌≡◌, refl, ap, ◌∙◌, arith, ◌⊎◌,
  ◌<◌, inl, inr, Bytes, find?, has, update_where, Bool-cases, if◌then◌else◌,
}
use hirame.Jobs.Extract.{
  Cause, Got, got, lost, Extractor, ExtractedContent, Extraction, failed, of_version, succeeded_row,
  failed_row, failed_with, upsert_extraction, mark_extraction_failed, Failures, Finish, finished,
  call_failed, settle_failure, extracted, fail, store_extraction, too_big, work, store_failed,
  too_large, permanent_failure, not_exist, other_cause, status_error, job_cancelled, job_failed,
}

module _ (version : ℕ) where
  abbrev row_of : List ExtractedContent → Option ExtractedContent
  row_of rows = find? (of_version version) rows

  -- The version has a row with `P`.
  abbrev Row : (ExtractedContent → Type 0) → List ExtractedContent → Type 0
  Row P rows = (r : ExtractedContent) × (row_of rows ≡ some r) × P r

  module _ (g : ExtractedContent → ExtractedContent) (new : ExtractedContent)
      (P : ExtractedContent → Type 0)
      (keeps : (r : ExtractedContent)
        → of_version version r ≡ true
        → of_version version (g r) ≡ true)
      (changed : (r : ExtractedContent) → P (g r)) (own : of_version version new ≡ true)
      (fresh : P new) where
    updated :
        (rows : List ExtractedContent)
        → has (of_version version) rows ≡ true
        → Row P (update_where (of_version version) g rows)
    updated [] h = absurd (ground arith)
    updated (x ∷ xs) h = elim (Bool-cases (of_version version x)) [
      | inl e ↦ (g x, rw (e, keeps x e) refl, changed x)
      | inr e ↦ let (r, f, p) = updated xs (rw e at h) in (r, rw (e, e) f, p)
    ]

    appended :
        (rows : List ExtractedContent)
        → has (of_version version) rows ≡ false
        → Row P (rows ++ new ∷ [])
    appended [] h = (new, rw own refl, fresh)
    appended (x ∷ xs) h = elim (Bool-cases (of_version version x)) [
      | inl e ↦ absurd (ground arith)
      | inr e ↦ let (r, f, p) = appended xs (rw e at h) in (r, rw e f, p)
    ]

    written :
        (rows : List ExtractedContent)
        → Row P (
            if has (of_version version) rows
            then update_where (of_version version) g rows
            else rows ++ new ∷ [])
    written rows = elim (Bool-cases (has (of_version version) rows)) [
      | inl e ↦ rw e (updated rows e)
      | inr e ↦ rw e (appended rows e)
    ]

  -- The row is as the extraction said.
  abbrev pub Succeeded : Extraction → List ExtractedContent → Type 0
  Succeeded x rows = row_of rows ≡ some (succeeded_row version x)

  -- The row says that the extraction failed, and why.
  abbrev pub Failed : Cause → List ExtractedContent → Type 0
  Failed cause = Row (λ r. (r.status ≡ failed) × (r.error ≡ some cause))

  upsert-Succeeded :
      (x : Extraction) (rows : List ExtractedContent)
      → Succeeded x (upsert_extraction version x rows)
  unfolding upsert_extraction
  upsert-Succeeded x rows =
      let (r, f, p) =
        written (λ _. succeeded_row version x) (succeeded_row version x)
          (λ r. r ≡ succeeded_row version x) (λ _ _. ground arith) (λ _. refl) (ground arith) refl
          rows in
      f ∙ ap some p

  mark-Failed :
      (cause : Cause) (rows : List ExtractedContent)
      → Failed cause (mark_extraction_failed version cause rows)
  unfolding mark_extraction_failed
  mark-Failed cause rows =
      written (failed_with cause) (failed_row version cause)
        (λ r. (r.status ≡ failed) × (r.error ≡ some cause)) (λ _ e. e) (λ _. (refl, refl))
        (ground arith) (refl, refl) rows

-- The causes that a retry cannot mend: the errors that the worker itself calls permanent, a file
-- over the limit, a file that is not there, and an answer of Tika that calls itself permanent.
abbrev pub Permanent : Cause → Type 0
Permanent cause =
    (cause ≡ permanent_failure)
    ⊎ ((cause ≡ too_large) ⊎ ((cause ≡ not_exist) ⊎ (cause ≡ status_error true)))

-- Where a job that `fail` has recorded goes.
data Settled (cause : Cause) : Finish → Type 0 where
  settled_cancelled : Permanent cause → Settled cause (job_cancelled cause)
  settled_retried : ¬ Permanent cause → Settled cause (job_failed cause)

settle-Settled : (cause : Cause) → Settled cause (settle_failure cause)
settle-Settled permanent_failure = settled_cancelled (inl refl)
settle-Settled too_large = settled_cancelled (inr (inl refl))
settle-Settled not_exist = settled_cancelled (inr (inr (inl refl)))
settle-Settled store_failed = settled_retried (λ h. ground arith)
settle-Settled other_cause = settled_retried (λ h. ground arith)
settle-Settled (status_error true) = settled_cancelled (inr (inr (inr refl)))
settle-Settled (status_error false) = settled_retried (λ h. ground arith)

module _ (x : Extractor) (f : Failures) (version : ℕ) (source : Option (Bytes × ℕ))
    (rows : List ExtractedContent) where
  -- The file is over the limit; a limit of 0 is none.
  abbrev pub Oversize : Bytes × ℕ → Type 0
  Oversize found = (0 < x.max_bytes) × (x.max_bytes < found.1)

  -- What stops the extraction of a file that was found.
  pub data Reason (found : Bytes × ℕ) : Cause → Type 0 where
    reason_size : Oversize found → Reason found too_large
    reason_lost :
        (cause : Cause) → ¬ Oversize found → extracted x found.0 ≡ lost cause → Reason found cause
    reason_upsert :
        (extraction : Extraction)
        → ¬ Oversize found
        → extracted x found.0 ≡ got extraction
        → f.upsert ≡ true
        → Reason found store_failed

  -- How a job may end, and what its row is then.
  pub data Ending : Finish × List ExtractedContent → Type 0 where
    ending_unread : f.find_path ≡ true → Ending (call_failed, rows)
    ending_gone : f.find_path ≡ false → source ≡ none → Ending (finished, rows)
    ending_stored :
        (found : Bytes × ℕ) (extraction : Extraction) (rows' : List ExtractedContent)
        → source ≡ some found
        → ¬ Oversize found
        → extracted x found.0 ≡ got extraction
        → f.upsert ≡ false
        → Succeeded version extraction rows'
        → Ending (finished, rows')
    ending_cancelled :
        (found : Bytes × ℕ) (cause : Cause) (rows' : List ExtractedContent)
        → source ≡ some found
        → Reason found cause
        → Permanent cause
        → Failed version cause rows'
        → Ending (job_cancelled cause, rows')
    ending_retried :
        (found : Bytes × ℕ) (cause : Cause) (rows' : List ExtractedContent)
        → source ≡ some found
        → Reason found cause
        → ¬ Permanent cause
        → Failed version cause rows'
        → Ending (job_failed cause, rows')
    ending_unmarked :
        (found : Bytes × ℕ) (cause : Cause)
        → source ≡ some found
        → Reason found cause
        → f.mark ≡ true
        → Ending (call_failed, rows)

  Ending-of_Settled :
      (found : Bytes × ℕ) (cause : Cause) (rows' : List ExtractedContent)
      → source ≡ some found
      → Reason found cause
      → Failed version cause rows'
      → (how : Finish) → Settled cause how
      → Ending (how, rows')
  Ending-of_Settled found cause rows' s why h how (settled_cancelled p) =
      ending_cancelled found cause rows' s why p h
  Ending-of_Settled found cause rows' s why h how (settled_retried p) =
      ending_retried found cause rows' s why p h

  fail-Ending :
      (found : Bytes × ℕ) (cause : Cause)
      → source ≡ some found
      → Reason found cause
      → Ending (fail x f version cause rows)
  unfolding fail
  fail-Ending found cause s why = by_mark f.mark refl
    where
      by_mark :
          (b : Bool)
          → f.mark ≡ b
          → Ending (
              if b
              then (call_failed, rows)
              else (settle_failure cause, mark_extraction_failed version cause rows))
      by_mark true e = ending_unmarked found cause s why e
      by_mark false e =
          Ending-of_Settled found cause _ s why (mark-Failed version cause rows)
            (settle_failure cause) (settle-Settled cause)

  store-Ending :
      (found : Bytes × ℕ) (g : Got Extraction)
      → source ≡ some found
      → ¬ Oversize found
      → extracted x found.0 ≡ g
      → Ending (store_extraction x f version g rows)
  store-Ending found (lost cause) s small e = fail-Ending found cause s (reason_lost cause small e)
  store-Ending found (got extraction) s small e = by_upsert f.upsert refl
    where
      by_upsert :
          (b : Bool)
          → f.upsert ≡ b
          → Ending (
              if b
              then fail x f version store_failed rows
              else (finished, upsert_extraction version extraction rows))
      by_upsert true u = fail-Ending found store_failed s (reason_upsert extraction small e u)
      by_upsert false u =
          ending_stored found extraction _ s small e u (upsert-Succeeded version extraction rows)

  with_size :
      (found : Bytes × ℕ) (b : Bool)
      → too_big x found.1 ≡ b
      → source ≡ some found
      → Ending (
          if b
          then fail x f version too_large rows
          else store_extraction x f version (extracted x found.0) rows)
  with_size found true e s = fail-Ending found too_large s (reason_size (ground arith))
  with_size found false e s =
      store-Ending found (extracted x found.0) s (λ h. absurd (ground arith)) refl

  with_source :
      (o : Option (Bytes × ℕ))
      → f.find_path ≡ false
      → source ≡ o
      → Ending (elim o [
        | none ↦ (finished, rows)
        | some found ↦
            (if too_big x found.1
              then fail x f version too_large rows
              else store_extraction x f version (extracted x found.0) rows)
      ])
  with_source none n s = ending_gone n s
  with_source (some found) n s = with_size found (too_big x found.1) refl s

-- How an extraction job ends, and what its row is then. Where the query for the path fails, the job
-- fails and nothing is written; where it finds no row, the job returns nil and nothing is written.
-- Else, where the file is within the limit, the extraction succeeds and its upsert too, the job
-- returns nil and the row holds what was extracted. Else there is a cause, too large, what the
-- extraction was lost to, or the refused upsert: the row says that the extraction failed for it,
-- and the job is cancelled where the cause is a permanent one, and otherwise fails with it to be
-- retried; or the query that records the failure fails, the job fails and nothing is written.
pub work-Ending :
    (x : Extractor) (f : Failures) (version : ℕ) (source : Option (Bytes × ℕ))
    (rows : List ExtractedContent)
    → Ending x f version source rows (work x f version source rows)
unfolding work
work-Ending x f version source rows = by_find f.find_path refl
  where
    by_find :
        (b : Bool)
        → f.find_path ≡ b
        → Ending x f version source rows (
            if b then (call_failed, rows) else elim source [
              | none ↦ (finished, rows)
              | some found ↦
                  (if too_big x found.1
                    then fail x f version too_large rows
                    else store_extraction x f version (extracted x found.0) rows)
            ])
    by_find true e = ending_unread e
    by_find false e = with_source x f version source rows source e refl
