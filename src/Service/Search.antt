-- ===== src/Service/Search.antt =====
-- search.go: one page of a search.
pub mod Paging
use hirame.Prelude.{
  ℕ, ◌+◌, ◌-◌, ◌%◌, ◌^◌, ℤ, pos, negsuc, min, Bool, true, false, ◌&&◌, not, List, [], ◌∷◌, ◌++◌,
  map, Option, none, some, Bytes, codes, bytes_eq, has_prefix, base, length, take, drop, ltb, ◌==◌,
  if◌then◌else◌,
}
use hirame.Service.Snippets.{Segment, snippet_segments}
use hirame.Service.Tokens.{
  Codec, Decoded, not_issued, different_query, out_of_range, offset, decode_page_token,
  encode_page_token,
}

-- sqlcgen.SearchDocumentsRow, as far as a hit uses it; `score` is the bits of the float.
pub record Row : Type 0 where
  pub document_id : ℕ
  pub content_hash : Bytes
  pub root_path : Bytes
  pub path : Bytes
  pub content_type : Option Bytes
  pub score : ℕ
  pub snippet : Bytes

-- What the service reaches: the two queries of SearchStore, store.NormalizeText,
-- strings.TrimSpace, strconv.FormatInt in base 10, and the token's codec. `none` is an error.
pub record Env : Type 0 where
  pub search_documents : Bytes → ℤ → ℤ → Option (List Row)
  pub count_search_documents : Bytes → Option ℤ
  pub normalize_text : Bytes → Bytes
  pub trim_space : Bytes → Bytes
  pub format_int : ℕ → Bytes
  pub codec : Codec

pub record Request : Type 0 where
  pub query : Bytes
  pub page_token : Bytes
  pub page_size : ℕ
  pub max_snippets : ℕ

pub record Hit : Type 0 where
  pub document_id : Bytes
  pub content_version_id : Bytes
  pub file_name : Bytes
  pub relative_path : Bytes
  pub media_type : Bytes
  pub score : ℕ
  pub snippets : List (List Segment)

pub record Response : Type 0 where
  pub hits : List Hit
  pub estimated_total_hits : ℕ
  pub next_page_token : Bytes

-- The results of the handler: two kinds of INVALID_ARGUMENT, INTERNAL, and a response.
pub data Answer : Type 0 where
  query_required : Answer
  bad_token : Decoded → Answer
  internal : Answer
  response : Response → Answer

-- int32(x)
unfoldable pub to_int32 : ℕ → ℤ
to_int32 x = let low = x % 2 ^ 32 in if ltb low (2 ^ 31) then pos low else negsuc (2 ^ 32 - 1 - low)

-- resolvePageSize
unfoldable pub resolve_page_size : ℕ → ℕ
resolve_page_size requested = if requested == 0 then 20 else min requested 100

-- snippetBudget
unfoldable pub snippet_budget : ℕ → ℕ
snippet_budget requested = if requested == 0 then 1 else min requested 1

-- relativePath, of service.go
unfoldable pub relative_path : Bytes → Bytes → Bytes
relative_path root absolute =
    if bytes_eq absolute root
    then base absolute
    else if has_prefix absolute (root ++ codes "/")
    then drop (length root + 1) absolute
    else absolute

-- What stands before the first `;`, or everything.
unfoldable pub before_semicolon : Bytes → Bytes
before_semicolon [] = []
before_semicolon (c ∷ s) = let rest = before_semicolon s in if c == 59 then [] else c ∷ rest

-- max(total, 0), as a uint64
unfoldable pub estimated : ℤ → ℕ
estimated (pos n) = n
estimated (negsuc n) = 0

module _ (env : Env) where
  -- mediaTypeOf, of service.go
  unfoldable pub media_type_of : Option Bytes → Bytes
  unfolding before_semicolon
  media_type_of none = []
  media_type_of (some content_type) = env.trim_space (before_semicolon content_type)

  -- searchHit
  unfoldable pub search_hit : ℕ → Row → Hit
  unfolding snippet_budget relative_path media_type_of
  search_hit max_snippets row = record {
    document_id = env.format_int row.document_id;
    content_version_id = row.content_hash;
    file_name = base row.path;
    relative_path = relative_path row.root_path row.path;
    media_type = media_type_of row.content_type;
    score = row.score;
    snippets =
        if ltb 0 (snippet_budget max_snippets) && not (bytes_eq row.snippet [])
        then snippet_segments row.snippet ∷ []
        else [];
  }

  -- The page of the rows that were read.
  unfoldable pub page_of : ℕ → List Row → List Row
  page_of size rows = if ltb size (length rows) then take size rows else rows

  -- The token of the next page, or none.
  unfoldable pub next_token : Bytes → ℕ → ℕ → List Row → Bytes
  unfolding page_of
  next_token query at size rows =
      if ltb size (length rows)
      then encode_page_token env.codec query (pos (at + length (page_of size rows)))
      else []

  unfoldable pub respond : Bytes → ℕ → ℕ → ℕ → List Row → ℤ → Response
  unfolding page_of next_token estimated
  respond query at size max_snippets rows total = record {
    hits = map (search_hit max_snippets) (page_of size rows);
    estimated_total_hits = estimated total;
    next_page_token = next_token query at size rows;
  }

  -- Search, once the rows are read
  unfoldable pub counted : Bytes → ℕ → ℕ → ℕ → Option (List Row) → Answer
  unfolding respond
  counted query at size max_snippets none = internal
  counted query at size max_snippets (some rows) = elim (env.count_search_documents query) [
    | none ↦ internal
    | some total ↦ response (respond query at size max_snippets rows total)
  ]

  -- Search, once the token is read
  unfoldable pub search_from : Bytes → ℕ → ℕ → Decoded → Answer
  unfolding counted to_int32
  search_from query size max_snippets not_issued = bad_token not_issued
  search_from query size max_snippets different_query = bad_token different_query
  search_from query size max_snippets out_of_range = bad_token out_of_range
  search_from query size max_snippets (offset at) =
      counted query at size max_snippets
        (env.search_documents query (to_int32 at) (to_int32 (size + 1)))

  -- Search
  unfoldable pub search : Request → Answer
  unfolding search_from resolve_page_size
  search msg =
      let query = env.normalize_text msg.query in
      if bytes_eq (env.trim_space query) []
      then query_required
      else search_from query (resolve_page_size msg.page_size) msg.max_snippets
          (decode_page_token env.codec msg.page_token query)
