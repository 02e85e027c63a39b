-- ===== src/Service/Rendering/Tests.antt =====
-- One document of two pages, on which the theorems of references and rendering apply.
use hirame.Prelude.{
  ℕ, zero, suc, ℤ, pos, negsuc, true, false, [], ◌∷◌, ◌≡◌, refl, Option, none, some, codes,
  bytes_eq, if◌then◌else◌,
}
use hirame.Cache.Render.{unavailable, answer, refuse, failed_precondition, PageRequest}
use hirame.Service.ImageSpec.{unspecified}
use hirame.Service.Documents.{
  Library, scalar, text, GetDocumentRow, Lookup, found_row, no_row, Ref, load_document, resolve_ref,
  get_document, document_message,
}
use hirame.Service.Documents.Refs.{reports, resolve_ref-get_document}
use hirame.Service.Rendering.{
  RenderPageRequest, Stream, Script, SourceLookup, found_source, render_page,
}
use hirame.Service.Rendering.Frames.{Rendered, render_page-Streamed}

abbrev lib : Library
lib = record {
  parse_int = λ s. if bytes_eq s (codes "1") then some (pos 1) else none;
  format_int = λ z. codes "1";
  parse_uint = λ s. if bytes_eq s (codes "2") then some 2 else none;
  to_uint32 = λ n. n;
  trim_space = λ s. s;
  unmarshal = λ raw. some (scalar (text raw));
  unmarshal_fields = λ metadata. some ((codes "Page-Count", metadata) ∷ []);
}

abbrev row : GetDocumentRow
row = record {
  id = pos 1;
  mountpoint_id = pos 1;
  path = codes "/m/a.pdf";
  current_content_version_id = some 8;
  deleted = false;
  root_path = codes "/m";
  content_hash = some (codes "ab");
  size_bytes = some (pos 7);
  extraction_status = some (codes "succeeded");
  content_type = some (codes "application/pdf");
  metadata = codes "2";
  has_extracted_text = true;
  extraction_error = none;
}

abbrev get_row : ℤ → Lookup
get_row (pos (suc zero)) = found_row row
get_row (pos n) = no_row
get_row (negsuc n) = no_row

abbrev stale : Ref
stale = record { document_id = codes "1"; content_version_id = codes "cd" }

abbrev current : Ref
current = record { document_id = codes "1"; content_version_id = codes "ab" }

resolve_ref-get_document_example :
    (found : GetDocumentRow) × (document_message lib get_row found
      ≡ document_message lib get_row row)
    × (resolve_ref lib get_row stale ≡ (
        if reports (document_message lib get_row row) stale.content_version_id
        then answer found
        else refuse failed_precondition))
unfolding bytes_eq get_document load_document
resolve_ref-get_document_example =
    resolve_ref-get_document lib get_row stale (document_message lib get_row row) refl refl refl

abbrev renderer : PageRequest → Script
renderer request = record { chunks = codes "RI" ∷ codes "FF" ∷ []; ending = none }

abbrev get_source : ℤ → Option ℕ → SourceLookup
get_source id version = found_source (codes "/m/a.pdf")

abbrev request : RenderPageRequest
request = record {
  ref = current;
  page_number = 2;
  format = unspecified;
  max_size = record { width = 0; height = 0 };
}

-- The client goes away after two frames.
abbrev stream : Stream
stream = record { sent = []; refusals = none ∷ none ∷ some unavailable ∷ [] }

render_page-Streamed_example :
    Rendered lib get_row get_source true renderer request stream
      (render_page lib get_row get_source true renderer request stream)
render_page-Streamed_example =
    render_page-Streamed lib get_row get_source true renderer request stream
