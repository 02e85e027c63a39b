-- ===== src/Service/Rendering.antt =====
-- render.go: RenderPage, which streams a page without keeping it.
pub mod Checks
pub mod Frames
mod Tests
use hirame.Prelude.{
  ℕ, ℤ, Bool, true, false, List, [], ◌∷◌, ◌++◌, if◌then◌else◌, Option, none, some, Bytes,
}
use hirame.Cache.Render.{
  Code, Reply, answer, refuse, canceled, internal, invalid_argument, failed_precondition,
  PageRequest, RenderFailure, connect_failure, render_error,
}
use hirame.Service.ImageSpec.{ImageFormat, Format, ImageSize, png, resolve_format, render_bounds}
use hirame.Service.Documents.{Library, GetDocumentRow, Lookup, Ref, resolve_ref, check_page}

-- RenderPageRequest
pub record RenderPageRequest : Type 0 where
  pub ref : Ref
  pub page_number : ℕ
  pub format : ImageFormat
  pub max_size : ImageSize

-- RenderPageInfo and the chunks of RenderPageResponse
pub record Info : Type 0 where
  pub ref : Ref
  pub page_number : ℕ
  pub format : ImageFormat
  pub size : ImageSize

pub data Frame : Type 0 where
  info : Info → Frame
  chunk : Bytes → Frame

-- The response stream: the frames that were sent, and what the next sends come to; past the end
-- of the list they succeed.
pub record Stream : Type 0 where
  pub sent : List Frame
  pub refusals : List (Option Code)

-- What a renderer hands on, and the error that it ends with, if any.
pub record Script : Type 0 where
  pub chunks : List Bytes
  pub ending : Option RenderFailure

-- FindDocumentSourcePath: a path, ErrNoRows, or another error
pub data SourceLookup : Type 0 where
  found_source : Bytes → SourceLookup
  no_source source_failed : SourceLookup

abbrev pub deliver : Frame → List Frame → List (Option Code) → Option Code × Stream
deliver f sent [] = (none, record { sent = sent ++ f ∷ []; refusals = [] })
deliver f sent (none ∷ rs) = (none, record { sent = sent ++ f ∷ []; refusals = rs })
deliver f sent (some code ∷ rs) = (some code, record { sent = sent; refusals = rs })

-- stream.Send
unfoldable pub send : Frame → Stream → Option Code × Stream
send f st = deliver f st.sent st.refusals

abbrev pub ended : Option RenderFailure → Reply (Unit {0})
ended none = answer tt
ended (some failure) = refuse (render_error failure)

-- The renderer's run with the callback that sends: an error of the callback ends it.
unfoldable pub forward : List Bytes → Option RenderFailure → Stream → Reply (Unit {0}) × Stream
unfolding send
forward [] ending st = (ended ending, st)
forward (body ∷ chunks) ending st =
    let out = send (chunk body) st in
    let rest = forward chunks ending out.1 in
    elim out.0 [ some code ↦ (refuse (render_error (connect_failure code)), out.1) | none ↦ rest ]

-- currentRef
unfoldable pub current_ref : Library → GetDocumentRow → Ref
current_ref lib row = record {
  document_id = lib.format_int row.id;
  content_version_id = elim row.content_hash [ none ↦ [] | some hash ↦ hash ];
}

abbrev sourced : SourceLookup → Reply Bytes
sourced (found_source path) = answer path
sourced no_source = refuse failed_precondition
sourced source_failed = refuse internal

module _ (lib : Library) (get_row : ℤ → Lookup) (get_source : ℤ → Option ℕ → SourceLookup)
    (acquired : Bool) (renderer : PageRequest → Script) where
  -- sourcePath
  unfoldable pub source_path : GetDocumentRow → Reply Bytes
  source_path row = sourced (get_source row.id row.current_content_version_id)

  abbrev pub info_frame : RenderPageRequest → GetDocumentRow → Format → Frame
  info_frame req row format = info (record {
    ref = current_ref lib row;
    page_number = req.page_number;
    format = format.proto;
    size = render_bounds req.max_size;
  })

  abbrev pub script_of : RenderPageRequest → Format → Bytes → Script
  script_of req format path = renderer (record {
    source_path = path;
    page = req.page_number;
    format = format.name;
    max_width = (render_bounds req.max_size).width;
    max_height = (render_bounds req.max_size).height;
  })

  -- RenderPage, from the info frame on
  unfoldable pub stream_page :
      RenderPageRequest → GetDocumentRow → Format → Bytes → Stream → Reply (Unit {0}) × Stream
  unfolding send forward
  stream_page req row format path st =
      let out = send (info_frame req row format) st in
      let script = script_of req format path in
      elim out.0 [
        | some code ↦ (refuse code, out.1)
        | none ↦
            (if acquired
              then forward script.chunks script.ending out.1
              else (refuse canceled, out.1))
      ]

  -- The checks of RenderPage: the row, the format and the source that it streams.
  unfoldable pub checked : RenderPageRequest → Reply (GetDocumentRow × (Format × Bytes))
  unfolding resolve_ref check_page resolve_format source_path
  checked req = elim (resolve_ref lib get_row req.ref) [
    | refuse code ↦ refuse code
    | answer row ↦ (elim (check_page lib req.page_number row) [
      | refuse code ↦ refuse code
      | answer _ ↦ (elim (resolve_format req.format png) [
        | none ↦ refuse invalid_argument
        | some format ↦ (elim (source_path row) [
          | refuse code ↦ refuse code
          | answer path ↦ answer (row, (format, path))
        ])
      ])
    ])
  ]

  -- RenderPage
  unfoldable pub render_page : RenderPageRequest → Stream → Reply (Unit {0}) × Stream
  unfolding checked stream_page
  render_page req st = elim (checked req) [
    | refuse code ↦ (refuse code, st)
    | answer found ↦ stream_page req found.0 found.1.0 found.1.1 st
  ]
