-- ===== src/Service/Documents/Refs.antt =====
-- GetDocument and resolveRef agree: the reference that a document is reported with is the one that
-- is accepted.
use hirame.Prelude.{
  ℤ, [], Bool, true, false, Option, none, some, ◌≡◌, refl, ap, ◌∙◌, arith, Bytes, bytes_eq,
  if◌then◌else◌,
}
use hirame.Cache.Render.{Reply, answer, refuse, failed_precondition}
use hirame.Service.Documents.{
  Library, GetDocumentRow, Lookup, Ref, Document, load_document, resolve_ref, check_row,
  get_document, document_message, content_version_message,
}

-- The document is reported with this version as its current one.
abbrev pub reports : Document → Bytes → Bool
reports doc version = elim doc.current_version [
  | none ↦ false
  | some v ↦ bytes_eq v.content_version_id version
]

module _ (lib : Library) (get_row : ℤ → Lookup) where
  check_row-reports :
      (version : Bytes) (row : GetDocumentRow)
      → check_row lib get_row version row ≡ (
          if reports (document_message lib get_row row) version
          then answer row
          else refuse failed_precondition)
  unfolding document_message content_version_message
  check_row-reports version row = by_hash row.content_hash row.deleted
    where
      by_hash :
          (content_hash : Option Bytes) (deleted : Bool)
          → check_row lib get_row version
              (record row { content_hash = content_hash; deleted = deleted })
            ≡ (if reports
                  (document_message lib get_row
                    (record row { content_hash = content_hash; deleted = deleted }))
                  version
                then answer (record row { content_hash = content_hash; deleted = deleted })
                else refuse failed_precondition)
      by_hash none deleted = refl
      by_hash (some hash) true = refl
      by_hash (some hash) false = ground arith

-- Of a document that GetDocument answers with, a reference with a version that is not empty is
-- resolved to the row that the answer was made of, where that version is the one it reports as
-- current, and is refused with FAILED_PRECONDITION otherwise. The id of a document is not empty.
pub resolve_ref-get_document :
    (lib : Library) (get_row : ℤ → Lookup) (ref : Ref) (doc : Document)
    → bytes_eq ref.document_id [] ≡ false
    → bytes_eq ref.content_version_id [] ≡ false
    → get_document lib get_row ref.document_id ≡ answer doc
    → (row : GetDocumentRow) × (document_message lib get_row row ≡ doc)
      × (resolve_ref lib get_row ref
          ≡ (if reports doc ref.content_version_id then answer row else refuse failed_precondition))
unfolding resolve_ref get_document
resolve_ref-get_document lib get_row ref doc hi hv h =
    loaded (load_document lib get_row ref.document_id) refl
  where
    loaded :
        (r : Reply GetDocumentRow)
        → load_document lib get_row ref.document_id ≡ r
        → (row : GetDocumentRow) × (document_message lib get_row row ≡ doc)
          × (resolve_ref lib get_row ref ≡ (
              if reports doc ref.content_version_id
              then answer row
              else refuse failed_precondition))
    loaded (refuse code) e = let k = rw (e, get_document) at h in absurd (ground (arith, k))
    loaded (answer row) e =
        let k = rw (e, get_document) at h in
        let same : document_message lib get_row row ≡ doc = ground (arith, k) in
        (
          row,
          same,
          rw (hi, hv, e, resolve_ref)
              (check_row-reports lib get_row ref.content_version_id row
                ∙ ap
                    (λ d.
                      if reports d ref.content_version_id
                      then answer row
                      else refuse failed_precondition)
                    same),
        )
