-- ===== src/Service/Rendering/Checks.antt =====
-- The checks of RenderPage (render.go), and what fails where it streams nothing.
use hirame.Prelude.{
  ℕ, zero, suc, ◌≤◌, ◌<◌, ℤ, Bool, false, ◌≡◌, refl, ◌⊎◌, inl, inr, Option, none, some, Bytes,
  arith, ltb, ◌&&◌, Bool-cases, Option-cases,
}
use hirame.Cache.Render.{
  Code, invalid_argument, out_of_range, failed_precondition, internal, Reply, answer, refuse,
  PageRequest,
}
use hirame.Service.ImageSpec.{Format, png, resolve_format}
use hirame.Service.Documents.{
  Library, GetDocumentRow, Lookup, page_count_of, row_media_type, check_page, resolve_ref,
}
use hirame.Service.Rendering.{
  RenderPageRequest, Script, SourceLookup, found_source, no_source, source_failed, source_path,
  checked,
}

abbrev past : ℕ → ℕ → Bool
past count n = ltb 0 count && ltb count n

in_pages : (count n : ℕ) → past count n ≡ false → (count ≡ 0) ⊎ (n ≤ count)
in_pages zero n e = inl refl
in_pages (suc count) n e = inr (ground arith)

Reply-cases :
    {A : Type 0} (r : Reply A) → ((code : Code) × (r ≡ refuse code)) ⊎ ((a : A) × (r ≡ answer a))
Reply-cases (answer a) = inr (a, refl)
Reply-cases (refuse code) = inl (code, refl)

SourceLookup-cases :
    (o : SourceLookup)
    → (o ≡ no_source) ⊎ ((o ≡ source_failed) ⊎ ((path : Bytes) × (o ≡ found_source path)))
SourceLookup-cases no_source = inl refl
SourceLookup-cases source_failed = inr (inl refl)
SourceLookup-cases (found_source path) = inr (inr (path, refl))

module _ (lib : Library) (get_row : ℤ → Lookup) (get_source : ℤ → Option ℕ → SourceLookup)
    (acquired : Bool) (renderer : PageRequest → Script) (req : RenderPageRequest) where
  -- The pages that the row has, or 0 where it does not say.
  abbrev pages : GetDocumentRow → ℕ
  pages row = page_count_of lib row.metadata (row_media_type lib row)

  -- The page is one of the row's, as far as it says how many it has.
  abbrev pub InRange : GetDocumentRow → Type 0
  InRange row = (0 < req.page_number) × ((pages row ≡ 0) ⊎ (req.page_number ≤ pages row))

  -- What RenderPage streams from.
  pub record Accepted (row : GetDocumentRow) (format : Format) (path : Bytes) : Type 0 where
    pub resolved : resolve_ref lib get_row req.ref ≡ answer row
    pub in_range : InRange row
    pub known : resolve_format req.format png ≡ some format
    pub source : get_source row.id row.current_content_version_id ≡ found_source path

  -- Why RenderPage streams nothing.
  pub data Rejected : Code → Type 0 where
    rejected_ref : (code : Code) → resolve_ref lib get_row req.ref ≡ refuse code → Rejected code
    rejected_zero :
        (row : GetDocumentRow)
        → resolve_ref lib get_row req.ref ≡ answer row
        → req.page_number ≡ 0
        → Rejected invalid_argument
    rejected_past :
        (row : GetDocumentRow)
        → resolve_ref lib get_row req.ref ≡ answer row
        → 0 < pages row
        → pages row < req.page_number
        → Rejected out_of_range
    rejected_format :
        (row : GetDocumentRow)
        → resolve_ref lib get_row req.ref ≡ answer row
        → InRange row
        → resolve_format req.format png ≡ none
        → Rejected invalid_argument
    rejected_source :
        (row : GetDocumentRow)
        → resolve_ref lib get_row req.ref ≡ answer row
        → InRange row
        → get_source row.id row.current_content_version_id ≡ no_source
        → Rejected failed_precondition
    rejected_query :
        (row : GetDocumentRow)
        → resolve_ref lib get_row req.ref ≡ answer row
        → InRange row
        → get_source row.id row.current_content_version_id ≡ source_failed
        → Rejected internal

  -- checkPage refuses a page that is not one of the row's.
  abbrev PageChecked : GetDocumentRow → ℕ → Reply (Unit {0}) → Type 0
  PageChecked row n r =
      ((r ≡ refuse invalid_argument) × (n ≡ 0))
      ⊎ (((r ≡ refuse out_of_range) × (0 < pages row) × (pages row < n))
          ⊎ ((r ≡ answer tt) × (0 < n) × ((pages row ≡ 0) ⊎ (n ≤ pages row))))

  check_page-cases : (row : GetDocumentRow) (n : ℕ) → PageChecked row n (check_page lib n row)
  unfolding check_page
  check_page-cases row zero = inl (refl, refl)
  check_page-cases row (suc n) = elim (Bool-cases (past (pages row) (suc n))) [
    | inl e ↦ inr (inl (rw e refl, ground arith, ground arith))
    | inr e ↦ inr (inr (rw e refl, ground arith, in_pages (pages row) (suc n) e))
  ]

  abbrev Verdict : Reply (GetDocumentRow × (Format × Bytes)) → Type 0
  Verdict r =
      ((code : Code) × (r ≡ refuse code) × Rejected code)
      ⊎ ((row : GetDocumentRow) × (format : Format) × (path : Bytes) × (r
            ≡ answer (row, (format, path)))
          × Accepted row format path)

  pub checked-Verdict : Verdict (checked lib get_row get_source acquired renderer req)
  unfolding checked source_path
  checked-Verdict = elim (Reply-cases (resolve_ref lib get_row req.ref)) [
    | inl (code, e) ↦ inl (code, rw (e, checked) refl, rejected_ref code e)
    | inr (row, e) ↦ elim (check_page-cases row req.page_number) [
      | inl (k, z) ↦ inl (invalid_argument, rw (e, k, checked) refl, rejected_zero row e z)
      | inr (inl (k, a, b)) ↦ inl (out_of_range, rw (e, k, checked) refl, rejected_past row e a b)
      | inr (inr (k, a, b)) ↦ elim (Option-cases (resolve_format req.format png)) [
        | inl n ↦ inl (invalid_argument, rw (e, k, n, checked) refl, rejected_format row e (a, b) n)
        | inr (format, n) ↦
            elim (SourceLookup-cases (get_source row.id row.current_content_version_id)) [
              | inl h ↦ inl (
                failed_precondition,
                rw (e, k, n, h, checked, source_path) refl,
                rejected_source row e (a, b) h,
              )
              | inr (inl h) ↦ inl (
                internal,
                rw (e, k, n, h, checked, source_path) refl,
                rejected_query row e (a, b) h,
              )
              | inr (inr (path, h)) ↦ inr (
                row,
                format,
                path,
                rw (e, k, n, h, checked, source_path) refl,
                record { resolved = e; in_range = (a, b); known = n; source = h },
              )
            ]
      ]
    ]
  ]
