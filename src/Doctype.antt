-- ===== src/Doctype.antt =====
-- Which watched files become documents: apps/search-api/internal/doctype/doctype.go.
pub mod Tables
use hirame.Prelude.{
  Bool, true, false, ◌&&◌, ◌||◌, not, List, [], ◌∷◌, map, Option, none, some, Bytes, codes,
  bytes_eq, has_prefix, trim_prefix, base, ext, find?, reject, has, if◌then◌else◌,
}
use hirame.Doctype.Tables.{default_extensions, extension_types, text_like}

-- What the filter uses of other packages: strings.ToLower and strings.TrimSpace over Unicode, and
-- http.DetectContentType.
pub record Text : Type 0 where
  pub to_lower : Bytes → Bytes
  pub trim_space : Bytes → Bytes
  pub detect_content_type : Bytes → Bytes

pub record Filter : Type 0 where
  pub allowed : List Bytes

module _ (text : Text) where
  normal : Bytes → Bytes
  normal e = text.to_lower (trim_prefix (text.trim_space e) (codes "."))

  -- NewFilter
  unfoldable pub new_filter : List Bytes → Filter
  unfolding normal
  new_filter [] = record { allowed = reject (bytes_eq []) (map normal default_extensions) }
  new_filter (e ∷ es) = record { allowed = reject (bytes_eq []) (map normal (e ∷ es)) }

  -- extensionOf
  unfoldable pub extension_of : Bytes → Bytes
  extension_of name = text.to_lower (trim_prefix (ext name) (codes "."))

  -- isBinary
  unfoldable pub is_binary : Bytes → Bool
  is_binary head = bytes_eq (text.detect_content_type head) (codes "application/octet-stream")

  module _ (filter : Filter) where
    -- Filter.AllowPath
    unfoldable pub allow_path : Bytes → Bool
    unfolding extension_of
    allow_path path =
        if has_prefix (base path) (codes ".") || has_prefix (base path) (codes "~$")
        then false
        else has (bytes_eq (extension_of (base path))) filter.allowed

    -- Filter.ContentType, once the path is allowed
    unfoldable pub declared_type : Bytes → Bytes → Option Bytes
    declared_type e head = elim (find? (λ t. bytes_eq t.0 e) extension_types) [
      | some t ↦ some t.1
      | none ↦ elim head [ [] ↦ some [] | c ∷ cs ↦ some (text.detect_content_type (c ∷ cs)) ]
    ]

    -- Filter.ContentType: `none` is the result `"", false`.
    unfoldable pub content_type : Bytes → Bytes → Option Bytes
    unfolding allow_path declared_type is_binary
    content_type path head =
        let e = extension_of (base path) in
        if not (allow_path path)
        then none
        else if has (bytes_eq e) text_like && (not (bytes_eq head []) && is_binary head)
        then none
        else declared_type e head
