-- ===== src/Jobs/Extract/Tests.antt =====
-- A version whose text is taken, and whose row the database refuses.
use hirame.Prelude.{true, false, [], ◌∷◌, none, some, codes}
use hirame.Jobs.Extract.{Extractor, got, ExtractedContent, pending, Failures, work}
use hirame.Jobs.Extract.Outcome.{Ending, work-Ending}

abbrev extractor : Extractor
extractor = record {
  max_bytes = 100;
  read_head = λ path. got (codes "%PDF");
  content_type = λ path head. some (codes "application/pdf");
  text = λ path sniffed. got (codes "text");
  meta = λ path sniffed. got (record { raw = []; content_type = [] });
  normalize_text = λ s. s;
}

abbrev unlucky : Failures
unlucky = record { find_path = false; upsert = true; mark = false }

abbrev row : ExtractedContent
row = record {
  content_version_id = 8;
  status = pending;
  text_normalized = [];
  metadata = codes "{}";
  content_type = none;
  error = none;
}

work-Ending_example :
    Ending extractor unlucky 8
      (some (codes "/m/a.pdf", 7))
      (row ∷ [])
      (work extractor unlucky 8 (some (codes "/m/a.pdf", 7)) (row ∷ []))
work-Ending_example = work-Ending extractor unlucky 8 (some (codes "/m/a.pdf", 7)) (row ∷ [])
