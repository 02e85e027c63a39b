-- ===== src/Service/Tests.antt =====
-- A ranking of three documents and a simple codec, on which the theorems of the service apply.
use hirame.Prelude.{
  ℕ, zero, suc, bytes_eq, ◌+◌, ◌≤◌, ◌<◌, ◌%◌, min, ℤ, pos, negsuc, Bool, List, [], ◌∷◌, map, Option,
  none, some, ◌≡◌, ◌≢◌, ◌⊎◌, refl, arith, Bytes, codes, take, drop,
}
use hirame.Service.Snippets.{Segment, segments_from}
use hirame.Service.Snippets.Bounds.{segments_from-fuel}
use hirame.Service.Snippets.MarkUp.{Excerpt, last, then_highlight}
use hirame.Service.ImageSpec.{
  quantize_thumbnail_axis, thumbnail_bounds, quantize_thumbnail_axis-bounds,
  thumbnail_bounds_idempotent,
}
use hirame.Service.Tokens.{
  PageToken, Codec, IsCodec, different_query, offset, encode_page_token, decode_page_token,
  decode_page_token-encode_page_token, decode_page_token-bounds,
}
use hirame.Service.Search.{Env, Row, Request, search_hit}
use hirame.Service.Search.Paging.{IsRanking, collect, collect_every_hit}

abbrev marshal : PageToken → Bytes
marshal token = elim token.offset [ pos n ↦ 0 ∷ n ∷ token.query | negsuc n ↦ 1 ∷ n ∷ token.query ]

abbrev unmarshal : Bytes → Option PageToken
unmarshal [] = none
unmarshal (s ∷ []) = none
unmarshal (zero ∷ n ∷ query) = some (record { query = query; offset = pos n })
unmarshal (suc s ∷ n ∷ query) = some (record { query = query; offset = negsuc n })

abbrev decode_string : Bytes → Option Bytes
decode_string [] = none
decode_string (c ∷ body) = some body

abbrev codec : Codec
codec = record {
  query_digest = λ query. query;
  marshal = marshal;
  unmarshal = unmarshal;
  encode_to_string = λ body. 65 ∷ body;
  decode_string = decode_string;
}

marshal_lawful :
    (query : Bytes) (z : ℤ)
    → unmarshal (marshal (record { query = query; offset = z }))
      ≡ some (record { query = query; offset = z })
marshal_lawful query (pos n) = refl
marshal_lawful query (negsuc n) = refl

marshal_nonempty : (query : Bytes) (z : ℤ) → marshal (record { query = query; offset = z }) ≢ []
marshal_nonempty query (pos n) e = ground arith
marshal_nonempty query (negsuc n) e = ground arith

codec-IsCodec : IsCodec codec
codec-IsCodec = record {
  unmarshal_marshal = marshal_lawful;
  decode_encode = λ body. refl;
  encode_empty = λ body e. absurd (ground arith);
  marshal_some = λ token. marshal_nonempty token.query token.offset;
}

abbrev row : ℕ → Row
row n = record {
  document_id = n;
  content_hash = 7 ∷ [];
  root_path = codes "/doc";
  path = codes "/doc/a.txt";
  content_type = some (codes "text/plain; charset=UTF-8");
  score = 1;
  snippet = codes "a <b>term</b> here";
}

abbrev ranked : List Row
ranked = row 1 ∷ row 2 ∷ row 3 ∷ []

abbrev search_rows : ℤ → ℤ → Option (List Row)
search_rows (pos at) (pos limit) = some (take limit (drop at ranked))
search_rows (pos at) (negsuc n) = none
search_rows (negsuc n) limit = none

abbrev env : Env
env = record {
  search_documents = λ query. search_rows;
  count_search_documents = λ query. some (pos 3);
  normalize_text = λ s. s;
  trim_space = λ s. s;
  format_int = λ n. n ∷ [];
  codec = codec;
}

abbrev request : Request
request = record { query = codes "term"; page_token = []; page_size = 2; max_snippets = 0 }

ranking : IsRanking env (codes "term") ranked
ranking = record { page = λ at limit. refl; total = pos 3; count = refl }

collect_every_hit_example : collect env 4 request [] ≡ some (map (search_hit env 0) ranked)
unfolding bytes_eq
collect_every_hit_example =
    collect_every_hit env request ranked codec-IsCodec ranking refl (omega arith)

tokens_round_trip_example :
    ((codes "term" ≡ codes "term")
      × (decode_page_token codec (encode_page_token codec (codes "term") (pos 20)) (codes "term")
          ≡ offset 20))
    ⊎ ((codes "term" ≢ codes "term")
        × (decode_page_token codec (encode_page_token codec (codes "term") (pos 20)) (codes "term")
            ≡ different_query))
tokens_round_trip_example =
    decode_page_token-encode_page_token codec codec-IsCodec (codes "term") (codes "term") 20
      (omega arith)

token_accepted : decode_page_token codec (65 ∷ 0 ∷ 40 ∷ 9 ∷ []) (9 ∷ []) ≡ offset 40
unfolding decode_page_token bytes_eq
token_accepted = refl

decode_page_token-bounds_example : 40 ≤ 1073741824
decode_page_token-bounds_example =
    decode_page_token-bounds codec (65 ∷ 0 ∷ 40 ∷ 9 ∷ []) (9 ∷ []) 40 token_accepted

segments_from-fuel_example :
    segments_from 19 (codes "a <b>term</b> here") ≡ segments_from 40 (codes "a <b>term</b> here")
segments_from-fuel_example =
    segments_from-fuel 19 40 (codes "a <b>term</b> here") (omega arith) (omega arith)

abbrev excerpt : Excerpt
excerpt = then_highlight (codes "a ") (codes "term") (last (codes " here"))

abbrev segment : Bytes → Bool → Segment
segment text highlighted = record { text = text; highlighted = highlighted }

abbrev requested : ℕ
requested = 200

quantize_thumbnail_axis-bounds_example :
    (0 < quantize_thumbnail_axis requested)
    × (quantize_thumbnail_axis requested ≤ 1024)
    × (quantize_thumbnail_axis requested % 64 ≡ 0)
    × (min requested 1024 ≤ quantize_thumbnail_axis requested)
    × ((requested ≡ 0) ⊎ (quantize_thumbnail_axis requested < requested + 64))
quantize_thumbnail_axis-bounds_example = quantize_thumbnail_axis-bounds requested

thumbnail_bounds_idempotent_example :
    thumbnail_bounds (thumbnail_bounds (record { width = 200; height = 0 }))
    ≡ thumbnail_bounds (record { width = 200; height = 0 })
thumbnail_bounds_idempotent_example =
    thumbnail_bounds_idempotent (record { width = 200; height = 0 })
