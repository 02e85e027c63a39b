-- ===== src/Jobs/Extract.antt =====
-- internal/jobs/workers.go: ExtractWorker, which stores the text of a content version or why there
-- is none. Each query runs at most once in a job, and the environment says of each whether it
-- fails.
pub mod Outcome
mod Tests
use hirame.Prelude.{
  ℕ, Bool, true, false, ◌&&◌, not, List, [], ◌∷◌, ◌++◌, Option, none, some, Bytes, codes, bytes_eq,
  ◌==◌, ltb, find?, has, update_where, if◌then◌else◌,
}

-- What isPermanent tells apart of the causes of a failure; `status_error` says whether it is
-- permanent.
pub data Cause : Type 0 where
  permanent_failure too_large not_exist store_failed other_cause : Cause
  status_error : Bool → Cause

-- isPermanent
abbrev pub is_permanent : Cause → Bool
is_permanent permanent_failure = true
is_permanent too_large = true
is_permanent not_exist = true
is_permanent store_failed = false
is_permanent other_cause = false
is_permanent (status_error permanent) = permanent

pub data Got {ℓ} (A : Type ℓ) : Type ℓ where
  got : A → Got A
  lost : Cause → Got A

-- tika.Metadata
pub record Metadata : Type 0 where
  pub raw : Bytes
  pub content_type : Bytes

-- The opener, the filter, Tika and the normaliser; a limit of 0 is none.
pub record Extractor : Type 0 where
  pub max_bytes : ℕ
  pub read_head : Bytes → Got Bytes
  pub content_type : Bytes → Bytes → Option Bytes
  pub text : Bytes → Bytes → Got Bytes
  pub meta : Bytes → Bytes → Got Metadata
  pub normalize_text : Bytes → Bytes

pub data ExtractionStatus : Type 0 where
  pending succeeded failed : ExtractionStatus

-- extracted_contents, less its times; an error is known by its cause.
pub record ExtractedContent : Type 0 where
  pub content_version_id : ℕ
  pub status : ExtractionStatus
  pub text_normalized : Bytes
  pub metadata : Bytes
  pub content_type : Option Bytes
  pub error : Option Cause

-- What stands in a row for a successful extraction.
pub record Extraction : Type 0 where
  pub text_normalized : Bytes
  pub metadata : Bytes
  pub content_type : Bytes

abbrev pub of_version : ℕ → ExtractedContent → Bool
of_version version row = row.content_version_id == version

abbrev pub succeeded_row : ℕ → Extraction → ExtractedContent
succeeded_row version x = record {
  content_version_id = version;
  status = succeeded;
  text_normalized = x.text_normalized;
  metadata = x.metadata;
  content_type = some x.content_type;
  error = none;
}

-- UpsertExtraction, as the worker calls it
unfoldable pub upsert_extraction : ℕ → Extraction → List ExtractedContent → List ExtractedContent
upsert_extraction version x rows =
    if has (of_version version) rows
    then update_where (of_version version) (λ _. succeeded_row version x) rows
    else rows ++ succeeded_row version x ∷ []

abbrev pub failed_row : ℕ → Cause → ExtractedContent
failed_row version cause = record {
  content_version_id = version;
  status = failed;
  text_normalized = [];
  metadata = codes "{}";
  content_type = none;
  error = some cause;
}

abbrev pub failed_with : Cause → ExtractedContent → ExtractedContent
failed_with cause row = record row { status = failed; error = some cause }

-- MarkExtractionFailed
unfoldable pub mark_extraction_failed : ℕ → Cause → List ExtractedContent → List ExtractedContent
mark_extraction_failed version cause rows =
    if has (of_version version) rows
    then update_where (of_version version) (failed_with cause) rows
    else rows ++ failed_row version cause ∷ []

-- Which of the queries of a job fail.
pub record Failures : Type 0 where
  pub find_path : Bool
  pub upsert : Bool
  pub mark : Bool

-- How a job ends: nil, cancelled, an error to retry, or the error of a query.
pub data Finish : Type 0 where
  finished call_failed : Finish
  job_cancelled job_failed : Cause → Finish

abbrev pub settle_failure : Cause → Finish
settle_failure cause = if is_permanent cause then job_cancelled cause else job_failed cause

module _ (x : Extractor) where
  abbrev stored_metadata : Bytes → Bytes
  stored_metadata raw = if bytes_eq raw [] then codes "{}" else raw

  abbrev stored_type : Bytes → Bytes → Bytes
  stored_type sniffed declared = if bytes_eq declared [] then sniffed else declared

  abbrev with_meta : Bytes → Bytes → Got Metadata → Got Extraction
  with_meta sniffed text (lost cause) = lost cause
  with_meta sniffed text (got meta) = got (record {
    text_normalized = x.normalize_text text;
    metadata = stored_metadata meta.raw;
    content_type = stored_type sniffed meta.content_type;
  })

  abbrev with_text : Bytes → Bytes → Got Bytes → Got Extraction
  with_text path sniffed (lost cause) = lost cause
  with_text path sniffed (got text) = with_meta sniffed text (x.meta path sniffed)

  abbrev with_type : Bytes → Option Bytes → Got Extraction
  with_type path none = lost permanent_failure
  with_type path (some sniffed) = with_text path sniffed (x.text path sniffed)

  abbrev with_head : Bytes → Got Bytes → Got Extraction
  with_head path (lost cause) = lost cause
  with_head path (got head) = with_type path (x.content_type path head)

  -- extract, up to its query
  unfoldable pub extracted : Bytes → Got Extraction
  extracted path = with_head path (x.read_head path)

  -- fail
  unfoldable pub fail :
      Failures → ℕ → Cause → List ExtractedContent → Finish × List ExtractedContent
  unfolding mark_extraction_failed
  fail f version cause rows =
      if f.mark
      then (call_failed, rows)
      else (settle_failure cause, mark_extraction_failed version cause rows)

  -- The end of extract, and what Work makes of its error.
  abbrev pub store_extraction :
      Failures → ℕ → Got Extraction → List ExtractedContent → Finish × List ExtractedContent
  store_extraction f version (lost cause) rows = fail f version cause rows
  store_extraction f version (got extraction) rows =
      if f.upsert
      then fail f version store_failed rows
      else (finished, upsert_extraction version extraction rows)

  abbrev pub too_big : ℕ → Bool
  too_big size = ltb 0 x.max_bytes && ltb x.max_bytes size

  -- ExtractWorker.Work; `source` is the row of FindPathForContentVersion, its path and size.
  unfoldable pub work :
      Failures → ℕ → Option (Bytes × ℕ) → List ExtractedContent → Finish × List ExtractedContent
  unfolding extracted fail upsert_extraction
  work f version source rows = if f.find_path then (call_failed, rows) else elim source [
    | none ↦ (finished, rows)
    | some found ↦
        (if too_big found.1
          then fail f version too_large rows
          else store_extraction f version (extracted found.0) rows)
  ]
