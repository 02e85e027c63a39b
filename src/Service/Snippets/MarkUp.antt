-- ===== src/Service/Snippets/MarkUp.antt =====
-- An excerpt that was marked up, and its segments.
use hirame.Prelude.{Bool, true, false, List, [], ◌∷◌, ◌++◌, ◌≡◌, Bytes, ◌==◌, ◌&&◌}
use hirame.Service.Snippets.{Segment, highlight_open, highlight_close, append_text}

-- A text without `<`.
abbrev pub bare : Bytes → Bool
bare [] = true
bare (c ∷ s) = elim (c == 60) [ true ↦ false | false ↦ bare s ]

-- An excerpt: texts, each followed by a highlighted one, and the text after the last.
pub data Excerpt : Type 0 where
  last : Bytes → Excerpt
  then_highlight : Bytes → Bytes → Excerpt → Excerpt

-- The excerpt as the index marks it up.
unfoldable pub mark_up : Excerpt → Bytes
mark_up (last text) = text
mark_up (then_highlight text term rest) =
    text ++ (highlight_open ++ (term ++ (highlight_close ++ mark_up rest)))

-- Its texts that are not empty, in order.
unfoldable pub segments_of : Excerpt → List Segment
segments_of (last text) = append_text text false
segments_of (then_highlight text term rest) =
    append_text text false ++ (append_text term true ++ segments_of rest)

abbrev pub all_bare : Excerpt → Bool
all_bare (last text) = bare text
all_bare (then_highlight text term rest) = bare text && (bare term && all_bare rest)

module _ (text term rest : Bytes) (ht : bare text ≡ true) (hm : bare term ≡ true) where
  abbrev marked : Bytes
  marked = highlight_open ++ (term ++ (highlight_close ++ rest))
