-- ===== src/Service/Snippets.antt =====
-- snippetSegments of search.go: a highlighted excerpt split at its markers.
pub mod Bounds
pub mod MarkUp
use hirame.Prelude.{
  ℕ, zero, suc, ◌+◌, ◌-◌, Bool, true, false, List, [], ◌∷◌, ◌++◌, Option, none, some, Bytes, codes,
  bytes_eq, has_prefix, length, take, drop, if◌then◌else◌,
}

-- hiramev1.SnippetSegment
pub record Segment : Type 0 where
  pub text : Bytes
  pub highlighted : Bool

-- highlightOpen and highlightClose
abbrev pub highlight_open : Bytes
highlight_open = codes "<b>"

abbrev pub highlight_close : Bytes
highlight_close = codes "</b>"

abbrev pub next_index : Option ℕ → Option ℕ
next_index none = none
next_index (some i) = some (suc i)

-- strings.Index; `none` is -1.
unfoldable pub index_of : Bytes → Bytes → Option ℕ
index_of [] sub = if has_prefix [] sub then some 0 else none
index_of (c ∷ s) sub =
    let later = index_of s sub in if has_prefix (c ∷ s) sub then some 0 else next_index later

-- s[from:to]
abbrev pub slice : ℕ → ℕ → Bytes → Bytes
slice from to s = take (to - from) (drop from s)

-- What appendText appends.
abbrev pub append_text : Bytes → Bool → List Segment
append_text [] highlighted = []
append_text (c ∷ s) highlighted = record { text = c ∷ s; highlighted = highlighted } ∷ []

-- The loop. Each round drops a marker at least, so the length of the text is fuel enough.
unfoldable pub segments_from : ℕ → Bytes → List Segment
unfolding index_of
segments_from zero rest = append_text rest false
segments_from (suc n) rest = elim (index_of rest highlight_open) [
  | none ↦ append_text rest false
  | some opening ↦ elim (index_of (drop opening rest) highlight_close) [
    | none ↦ append_text rest false
    | some closing ↦
        append_text (take opening rest) false
        ++ (append_text (slice (opening + length highlight_open) (closing + opening) rest) true
            ++ segments_from n (drop (closing + opening + length highlight_close) rest))
  ]
]

-- segments == nil
abbrev pub or_whole : Bytes → List Segment → List Segment
or_whole snippet [] = record { text = snippet; highlighted = false } ∷ []
or_whole snippet (segment ∷ segments) = segment ∷ segments

-- snippetSegments
unfoldable pub snippet_segments : Bytes → List Segment
unfolding segments_from
snippet_segments snippet = or_whole snippet (segments_from (suc (length snippet)) snippet)
