-- ===== src/Doctype/Tables.antt =====
-- The tables of doctype.go.
use hirame.Prelude.{List, [], ◌∷◌, map, Bytes, codes}

-- DefaultExtensions
unfoldable pub default_extensions : List Bytes
default_extensions = map codes (
    "pdf" ∷ "doc" ∷ "docx" ∷ "xls" ∷ "xlsx" ∷ "ppt" ∷ "pptx" ∷ "odt" ∷ "ods" ∷ "odp" ∷ "rtf"
    ∷ "epub" ∷ "txt" ∷ "md" ∷ "markdown" ∷ "csv" ∷ "tsv" ∷ "json" ∷ "xml" ∷ "html" ∷ "htm" ∷ "xhtml"
    ∷ "eml" ∷ "msg" ∷ [])

-- extensionTypes
unfoldable pub extension_types : List (Bytes × Bytes)
extension_types =
    (codes "pdf", codes "application/pdf")
    ∷ (codes "doc", codes "application/msword")
    ∷ (
      codes "docx",
      codes "application/vnd.openxmlformats-officedocument.wordprocessingml.document",
    )
    ∷ (codes "xls", codes "application/vnd.ms-excel")
    ∷ (codes "xlsx", codes "application/vnd.openxmlformats-officedocument.spreadsheetml.sheet")
    ∷ (codes "ppt", codes "application/vnd.ms-powerpoint")
    ∷ (
      codes "pptx",
      codes "application/vnd.openxmlformats-officedocument.presentationml.presentation",
    )
    ∷ (codes "odt", codes "application/vnd.oasis.opendocument.text")
    ∷ (codes "ods", codes "application/vnd.oasis.opendocument.spreadsheet")
    ∷ (codes "odp", codes "application/vnd.oasis.opendocument.presentation")
    ∷ (codes "rtf", codes "application/rtf")
    ∷ (codes "epub", codes "application/epub+zip")
    ∷ (codes "txt", codes "text/plain")
    ∷ (codes "md", codes "text/markdown")
    ∷ (codes "markdown", codes "text/markdown")
    ∷ (codes "csv", codes "text/csv")
    ∷ (codes "tsv", codes "text/tab-separated-values")
    ∷ (codes "json", codes "application/json")
    ∷ (codes "xml", codes "application/xml")
    ∷ (codes "html", codes "text/html")
    ∷ (codes "htm", codes "text/html")
    ∷ (codes "xhtml", codes "application/xhtml+xml")
    ∷ (codes "eml", codes "message/rfc822")
    ∷ (codes "msg", codes "application/vnd.ms-outlook")
    ∷ []

-- textLike
unfoldable pub text_like : List Bytes
text_like =
    map codes
      ("txt" ∷ "md" ∷ "markdown" ∷ "csv" ∷ "tsv" ∷ "json" ∷ "xml" ∷ "html" ∷ "htm" ∷ "xhtml" ∷ [])
