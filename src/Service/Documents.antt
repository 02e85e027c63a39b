-- ===== src/Service/Documents.antt =====
-- service.go and document.go: from a reference to a document's row, and what is told of a document.
pub mod Refs
use hirame.Prelude.{
  ℕ, zero, suc, ℤ, pos, negsuc, Bool, true, false, ◌&&◌, ◌||◌, not, List, [], ◌∷◌, Option, none,
  some, Bytes, codes, bytes_eq, has_prefix, ltb, ◌==◌, base, find?, if◌then◌else◌,
}
use hirame.Cache.Render.{
  Code, Reply, answer, refuse, invalid_argument, not_found, internal, failed_precondition,
  out_of_range,
}
use hirame.Service.Search.{relative_path, before_semicolon}

-- What json.Unmarshal makes of a value. A number is known by its integer part, rounded down.
pub data Scalar : Type 0 where
  number : ℤ → Scalar
  text : Bytes → Scalar
  other_value : Scalar

pub data Json : Type 0 where
  scalar : Scalar → Json
  array : List Scalar → Json

-- strconv, strings and encoding/json; `to_uint32` converts a float64 that is at least 1.
pub record Library : Type 0 where
  pub parse_int : Bytes → Option ℤ
  pub format_int : ℤ → Bytes
  pub parse_uint : Bytes → Option ℕ
  pub to_uint32 : ℕ → ℕ
  pub trim_space : Bytes → Bytes
  pub unmarshal : Bytes → Option Json
  pub unmarshal_fields : Bytes → Option (List (Bytes × Bytes))

-- GetDocumentRow, less its times and the inode, which no handler reads
pub record GetDocumentRow : Type 0 where
  pub id : ℤ
  pub mountpoint_id : ℤ
  pub path : Bytes
  pub current_content_version_id : Option ℕ
  pub deleted : Bool
  pub root_path : Bytes
  pub content_hash : Option Bytes
  pub size_bytes : Option ℤ
  pub extraction_status : Option Bytes
  pub content_type : Option Bytes
  pub metadata : Bytes
  pub has_extracted_text : Bool
  pub extraction_error : Option Bytes

-- DocumentStore.GetDocument: a row, ErrNoRows, or another error
pub data Lookup : Type 0 where
  found_row : GetDocumentRow → Lookup
  no_row query_failed : Lookup

-- hiramev1.DocumentRef; a missing one has empty fields.
pub record Ref : Type 0 where
  pub document_id : Bytes
  pub content_version_id : Bytes

pub data ExtractionState : Type 0 where
  state_unspecified state_pending state_succeeded state_failed : ExtractionState

-- hiramev1.ContentVersion and Document, less their times
pub record ContentVersion : Type 0 where
  pub content_version_id : Bytes
  pub media_type : Bytes
  pub page_count : ℕ
  pub extraction_state : ExtractionState
  pub has_extracted_text : Bool
  pub size_bytes : ℕ
  pub extraction_error : Bytes

pub record Document : Type 0 where
  pub document_id : Bytes
  pub mountpoint_id : Bytes
  pub relative_path : Bytes
  pub file_name : Bytes
  pub deleted : Bool
  pub current_version : Option ContentVersion

-- extractionState
unfoldable pub extraction_state : Option Bytes → ExtractionState
extraction_state none = state_unspecified
extraction_state (some status) =
    if bytes_eq status (codes "pending")
    then state_pending
    else if bytes_eq status (codes "succeeded")
    then state_succeeded
    else if bytes_eq status (codes "failed")
    then state_failed
    else state_unspecified

module _ (lib : Library) where
  abbrev scalar_number : Scalar → ℕ
  scalar_number (number (negsuc n)) = 0
  scalar_number (number (pos zero)) = 0
  scalar_number (number (pos (suc n))) = lib.to_uint32 (suc n)
  scalar_number (text s) = elim (lib.parse_uint (lib.trim_space s)) [ none ↦ 0 | some n ↦ n ]
  scalar_number other_value = 0

  abbrev json_number : Json → ℕ
  json_number (scalar v) = scalar_number v
  json_number (array []) = 0
  json_number (array (v ∷ vs)) = scalar_number v

  -- firstNumber
  unfoldable pub first_number : Bytes → ℕ
  first_number raw = elim (lib.unmarshal raw) [ none ↦ 0 | some v ↦ json_number v ]

  -- The loop of pageCountOf over the keys that may hold a count.
  unfoldable pub counted : List (Bytes × Bytes) → List Bytes → ℕ
  unfolding first_number
  counted fields [] = 0
  counted fields (key ∷ keys) =
      let rest = counted fields keys in
      elim (find? (λ field. bytes_eq field.0 key) fields) [
        | none ↦ rest
        | some field ↦ if ltb 0 (first_number field.1) then first_number field.1 else rest
      ]

  abbrev count_keys : List Bytes
  count_keys = codes "xmpTPg:NPages" ∷ codes "meta:page-count" ∷ codes "Page-Count" ∷ []

  -- pageCountOf
  unfoldable pub page_count_of : Bytes → Bytes → ℕ
  unfolding counted
  page_count_of metadata media_type =
      if has_prefix media_type (codes "image/")
      then 1
      else if bytes_eq metadata []
      then 0
      else elim (lib.unmarshal_fields metadata) [
        | none ↦ 0
        | some fields ↦ counted fields count_keys
      ]

  -- mediaTypeOf
  unfoldable pub row_media_type : GetDocumentRow → Bytes
  row_media_type row = elim row.content_type [
    | none ↦ []
    | some t ↦ lib.trim_space (before_semicolon t)
  ]

  -- checkPage
  unfoldable pub check_page : ℕ → GetDocumentRow → Reply (Unit {0})
  unfolding page_count_of row_media_type
  check_page zero row = refuse invalid_argument
  check_page (suc page) row =
      let count = page_count_of row.metadata (row_media_type row) in
      if ltb 0 count && ltb count (suc page) then refuse out_of_range else answer tt

  abbrev looked_up : Lookup → Reply GetDocumentRow
  looked_up (found_row row) = answer row
  looked_up no_row = refuse not_found
  looked_up query_failed = refuse internal

  module _ (get_row : ℤ → Lookup) where
    -- loadDocument
    unfoldable pub load_document : Bytes → Reply GetDocumentRow
    load_document document_id = elim (lib.parse_int document_id) [
      | none ↦ refuse not_found
      | some id ↦ looked_up (get_row id)
    ]

    -- The checks of resolveRef on the row.
    abbrev pub check_row : Bytes → GetDocumentRow → Reply GetDocumentRow
    check_row version row = elim row.content_hash [
      | none ↦ refuse failed_precondition
      | some hash ↦
          if row.deleted || not (bytes_eq hash version)
          then refuse failed_precondition
          else answer row
    ]

    -- resolveRef
    unfoldable pub resolve_ref : Ref → Reply GetDocumentRow
    unfolding load_document
    resolve_ref ref =
        if bytes_eq ref.document_id [] || bytes_eq ref.content_version_id []
        then refuse invalid_argument
        else elim (load_document ref.document_id) [
          | refuse code ↦ refuse code
          | answer row ↦ check_row ref.content_version_id row
        ]

    -- contentVersionMessage
    unfoldable pub content_version_message : GetDocumentRow → Bytes → ContentVersion
    unfolding page_count_of row_media_type extraction_state
    content_version_message row hash = record {
      content_version_id = hash;
      media_type = row_media_type row;
      page_count = page_count_of row.metadata (row_media_type row);
      extraction_state = extraction_state row.extraction_status;
      has_extracted_text = row.has_extracted_text;
      size_bytes = elim row.size_bytes [ none ↦ 0 | some z ↦ elim z [ pos n ↦ n | negsuc n ↦ 0 ] ];
      extraction_error = elim (extraction_state row.extraction_status) [
        | state_unspecified ↦ []
        | state_pending ↦ []
        | state_succeeded ↦ []
        | state_failed ↦ (elim row.extraction_error [ none ↦ [] | some message ↦ message ])
      ];
    }

    -- documentMessage
    unfoldable pub document_message : GetDocumentRow → Document
    unfolding content_version_message relative_path base
    document_message row = record {
      document_id = lib.format_int row.id;
      mountpoint_id = lib.format_int row.mountpoint_id;
      relative_path = relative_path row.root_path row.path;
      file_name = base row.path;
      deleted = row.deleted;
      current_version = elim row.content_hash [
        | none ↦ none
        | some hash ↦ if row.deleted then none else some (content_version_message row hash)
      ];
    }

    -- GetDocument
    unfoldable pub get_document : Bytes → Reply Document
    unfolding load_document document_message
    get_document document_id = elim (load_document document_id) [
      | refuse code ↦ refuse code
      | answer row ↦ answer (document_message row)
    ]
