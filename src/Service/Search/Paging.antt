-- ===== src/Service/Search/Paging.antt =====
-- Following the tokens of a search brings every result once, in order.
use hirame.Prelude.{
  take-take, drop-drop, append-take-drop, length-take, length-drop, take-all, map-append, ℕ, zero,
  suc, ◌+◌, ◌-◌, ◌≤◌, ◌<◌, ℤ, pos, min, true, false, List, [], ◌∷◌, ◌++◌, map, Option, none, some,
  ◌≡◌, ◌≢◌, inl, inr, refl, subst, arith, Bytes, bytes_eq, length, take, drop, ltb, Bool-cases,
}
use hirame.Service.Tokens.{
  Codec, IsCodec, offset, max_page_offset, decode_page_token, encode_page_token,
  decode_page_token-encode_page_token,
}
use hirame.Service.Search.{
  Env, Row, Hit, Request, Response, query_required, bad_token, internal, response, search_hit,
  page_of, next_token, respond, counted, search_from, search, to_int32, resolve_page_size,
}

-- The documented behaviour of the two queries while the index is at rest: OFFSET and LIMIT of one
-- ranking, and a count.
pub record IsRanking (env : Env) (query : Bytes) (ranked : List Row) : Type 0 where
  pub page :
      (at limit : ℕ)
      → env.search_documents query (pos at) (pos limit) ≡ some (take limit (drop at ranked))
  pub total : ℤ
  pub count : env.count_search_documents query ≡ some total

-- A caller that asks for every page: with no token first, then with the token of the last page,
-- until a page has none.
unfoldable pub collect : Env → ℕ → Request → Bytes → Option (List Hit)
collect env zero msg token = none
collect env (suc n) msg token = elim (search env (record msg { page_token = token })) [
  | query_required ↦ none
  | bad_token why ↦ none
  | internal ↦ none
  | response r ↦ elim r.next_page_token [
    | [] ↦ some r.hits
    | c ∷ next ↦ elim (collect env n msg (c ∷ next)) [
      | none ↦ none
      | some hits ↦ some (r.hits ++ hits)
    ]
  ]
]

to_int32-small : (n : ℕ) → n ≤ max_page_offset → to_int32 n ≡ pos n
unfolding to_int32
to_int32-small n h = ground arith

resolve_page_size-bounds : (n : ℕ) → (0 < resolve_page_size n) × (resolve_page_size n ≤ 100)
unfolding resolve_page_size
resolve_page_size-bounds n = (ground arith, ground arith)

collect-last :
    (env : Env) (n : ℕ) (msg : Request) (token : Bytes) (r : Response)
    → search env (record msg { page_token = token }) ≡ response r
    → r.next_page_token ≡ []
    → collect env (suc n) msg token ≡ some r.hits
unfolding collect
collect-last env n msg token r e k = rw (e, k, collect) refl

collect-next :
    (env : Env) (n : ℕ) (msg : Request) (token next : Bytes) (r : Response) (hits : List Hit)
    → search env (record msg { page_token = token }) ≡ response r
    → r.next_page_token ≡ next
    → next ≢ []
    → collect env n msg next ≡ some hits
    → collect env (suc n) msg token ≡ some (r.hits ++ hits)
unfolding collect
collect-next env n msg token [] r hits e k ne h = absurd (ne refl)
collect-next env n msg token (c ∷ next) r hits e k ne h = rw (e, k, collect, h) refl

encode_some :
    (codec : Codec) (query : Bytes) (z : ℤ) → IsCodec codec → encode_page_token codec query z ≢ []
unfolding encode_page_token
encode_some codec query z lawful e = lawful.marshal_some _ (lawful.encode_empty _ e)

module _ (env : Env) (msg : Request) (ranked : List Row) (lawful : IsCodec env.codec)
    (ranking : IsRanking env (env.normalize_text msg.query) ranked)
    (asked : bytes_eq (env.trim_space (env.normalize_text msg.query)) [] ≡ false)
    (small : length ranked ≤ max_page_offset) where
  abbrev query : Bytes
  query = env.normalize_text msg.query

  abbrev size : ℕ
  size = resolve_page_size msg.page_size

  -- One page, from a token of an offset.
  search-page :
      (token : Bytes) (at : ℕ)
      → at ≤ max_page_offset
      → decode_page_token env.codec token query ≡ offset at
      → search env (record msg { page_token = token })
        ≡ response (
            respond env query at size msg.max_snippets
              (take (size + 1) (drop at ranked))
              ranking.total)
  unfolding search search_from counted
  search-page token at h e =
      let b = resolve_page_size-bounds msg.page_size in
      rw
        (
          asked,
          e,
          search_from,
          to_int32-small at h,
          to_int32-small (resolve_page_size msg.page_size + 1) (omega arith),
          ranking.page at (resolve_page_size msg.page_size + 1),
          counted,
          ranking.count,
        )
        refl

  rows-length :
      (at : ℕ) → length (take (size + 1) (drop at ranked)) ≡ min (size + 1) (length ranked - at)
  rows-length at = rw (length-take (size + 1) (drop at ranked), length-drop at ranked) refl

  -- A page that is not the last.
  more :
      (at : ℕ)
      → at + size < length ranked
      → (page_of env size (take (size + 1) (drop at ranked)) ≡ take size (drop at ranked))
        × (next_token env query at size (take (size + 1) (drop at ranked))
            ≡ encode_page_token env.codec query (pos (at + size)))
  unfolding page_of next_token
  more at h =
      let l = rows-length at in
      let t : ltb size (length (take (size + 1) (drop at ranked))) ≡ true = ground arith in
      let k : length (take size (drop at ranked)) ≡ size =
        rw (length-take size (drop at ranked), length-drop at ranked) (omega arith) in
      let s = take-take size (size + 1) (drop at ranked) (omega arith) in
      rw (t, s, k, next_token) (refl, refl)

  -- The last page.
  final :
      (at : ℕ)
      → length ranked ≤ at + size
      → (page_of env size (take (size + 1) (drop at ranked)) ≡ drop at ranked)
        × (next_token env query at size (take (size + 1) (drop at ranked)) ≡ [])
  unfolding page_of next_token
  final at h =
      let l = rows-length at in
      let t : ltb size (length (take (size + 1) (drop at ranked))) ≡ false = ground arith in
      let a : take (size + 1) (drop at ranked) ≡ drop at ranked =
        take-all (size + 1) (drop at ranked) (rw (length-drop at ranked) (omega arith)) in
      rw (t, next_token) (a, refl)

  decode_next :
      (at : ℕ)
      → at ≤ max_page_offset
      → decode_page_token env.codec (encode_page_token env.codec query (pos at)) query ≡ offset at
  decode_next at h = elim (decode_page_token-encode_page_token env.codec lawful query query at h) [
    | inl (same, e) ↦ e
    | inr (other, e) ↦ absurd (other refl)
  ]

  collect-from :
      (n at : ℕ) (token : Bytes)
      → at ≤ length ranked
      → length ranked - at < n
      → decode_page_token env.codec token query ≡ offset at
      → collect env n msg token ≡ some (map (search_hit env msg.max_snippets) (drop at ranked))
  unfolding respond
  collect-from zero at token h k e = absurd (omega arith)
  collect-from (suc n) at token h k e =
      let step = search-page token at (omega arith) e in
      elim (Bool-cases (ltb (at + size) (length ranked))) [
        | inr last ↦
            let f = final at (ground arith) in
            subst
              (λ rows.
                collect env (suc n) msg token ≡ some (map (search_hit env msg.max_snippets) rows))
              f.0 (collect-last env n msg token _ step f.1)
        | inl next ↦
            let f = more at (ground arith) in
            let b = resolve_page_size-bounds msg.page_size in
            let l : at + size < length ranked = ground arith in
            let later =
              collect-from n (at + size) (encode_page_token env.codec query (pos (at + size)))
                (omega arith) (omega arith) (decode_next (at + size) (omega arith)) in
            let whole =
              collect-next env n msg token _ _ _ step f.1 (encode_some env.codec query _ lawful)
                later in
            let hit = search_hit env msg.max_snippets in
            let joined : (map hit (page_of env size (take (size + 1) (drop at ranked)))
                  ++ map hit (drop (at + size) ranked))
                ≡ map hit (drop at ranked) =
              rw
                (
                  f.0,
                  ← drop-drop at size ranked,
                  ← map-append hit (take size (drop at ranked)) (drop size (drop at ranked)),
                  append-take-drop size (drop at ranked),
                )
                refl in
            subst (λ hits. collect env (suc n) msg token ≡ some hits) joined whole
      ]

-- While the index is at rest and ranks at most 2^30 documents, a caller that follows the page
-- tokens of a query that is not blank, from none, gets every hit once and in order, whatever the
-- page size, in at most one page more than there are hits.
pub collect_every_hit :
    (env : Env) (msg : Request) (ranked : List Row)
    → IsCodec env.codec
    → IsRanking env (env.normalize_text msg.query) ranked
    → bytes_eq (env.trim_space (env.normalize_text msg.query)) [] ≡ false
    → length ranked ≤ max_page_offset
    → collect env (length ranked + 1) msg [] ≡ some (map (search_hit env msg.max_snippets) ranked)
unfolding decode_page_token
collect_every_hit env msg ranked lawful ranking asked small =
    collect-from env msg ranked lawful ranking asked small (length ranked + 1) 0 [] (omega arith)
      (omega arith) refl
