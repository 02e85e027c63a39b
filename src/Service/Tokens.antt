-- ===== src/Service/Tokens.antt =====
-- token.go: the cursor of a search.
use hirame.Prelude.{
  ℕ, ◌≤◌, ◌^◌, ℤ, pos, negsuc, not, [], ◌∷◌, Option, none, some, ◌≡◌, ◌≢◌, ◌⊎◌, inl, inr, refl,
  arith, Bytes, bytes_eq, bytes_eq_iff, ltb, if◌then◌else◌, Bool-cases,
}

-- pageToken
pub record PageToken : Type 0 where
  pub query : Bytes
  pub offset : ℤ

-- What the code uses of crypto/sha256 with encoding/hex, of encoding/json and of encoding/base64:
-- `query_digest` is queryDigest, the others are Marshal and Unmarshal of a pageToken, and
-- RawURLEncoding.
pub record Codec : Type 0 where
  pub query_digest : Bytes → Bytes
  pub marshal : PageToken → Bytes
  pub unmarshal : Bytes → Option PageToken
  pub encode_to_string : Bytes → Bytes
  pub decode_string : Bytes → Option Bytes

-- What the packages document: decoding gives back what was encoded, a token's digest being
-- hexadecimal digits, and nothing but the empty
-- text is encoded as one; a pageToken is not marshalled as an empty text.
pub record IsCodec (codec : Codec) : Type 0 where
  pub unmarshal_marshal :
      (query : Bytes) (n : ℤ)
      → codec.unmarshal (codec.marshal (record { query = codec.query_digest query; offset = n }))
        ≡ some (record { query = codec.query_digest query; offset = n })
  pub decode_encode : (body : Bytes) → codec.decode_string (codec.encode_to_string body) ≡ some body
  pub encode_empty : (body : Bytes) → codec.encode_to_string body ≡ [] → body ≡ []
  pub marshal_some : (token : PageToken) → codec.marshal token ≢ []

-- The three refusals, each INVALID_ARGUMENT, and the offset.
pub data Decoded : Type 0 where
  not_issued different_query out_of_range : Decoded
  offset : ℕ → Decoded

-- maxPageOffset
abbrev pub max_page_offset : ℕ
max_page_offset = 2 ^ 30

-- The check of the offset.
unfoldable pub check_offset : ℤ → Decoded
check_offset (negsuc n) = out_of_range
check_offset (pos n) = if ltb max_page_offset n then out_of_range else offset n

module _ (codec : Codec) where
  -- encodePageToken
  unfoldable pub encode_page_token : Bytes → ℤ → Bytes
  encode_page_token query n =
      codec.encode_to_string
        (codec.marshal (record { query = codec.query_digest query; offset = n }))

  -- decodePageToken, once the token is unmarshalled
  unfoldable pub check_token : Bytes → Option PageToken → Decoded
  unfolding check_offset
  check_token query none = not_issued
  check_token query (some token) =
      if not (bytes_eq token.query (codec.query_digest query))
      then different_query
      else check_offset token.offset

  -- decodePageToken, once the token is decoded
  unfoldable pub read_body : Bytes → Option Bytes → Decoded
  unfolding check_token
  read_body query none = not_issued
  read_body query (some body) = check_token query (codec.unmarshal body)

  -- decodePageToken
  unfoldable pub decode_page_token : Bytes → Bytes → Decoded
  unfolding read_body
  decode_page_token [] query = offset 0
  decode_page_token (c ∷ token) query = read_body query (codec.decode_string (c ∷ token))

module _ (codec : Codec) (lawful : IsCodec codec) where
  decode_some :
      (token query : Bytes)
      → token ≢ []
      → decode_page_token codec token query ≡ read_body codec query (codec.decode_string token)
  unfolding decode_page_token
  decode_some [] query h = absurd (h refl)
  decode_some (c ∷ token) query h = refl

  decode-encode :
      (issued query : Bytes) (n : ℤ)
      → decode_page_token codec (encode_page_token codec issued n) query
        ≡ check_token codec query (some (record { query = codec.query_digest issued; offset = n }))
  unfolding encode_page_token read_body
  decode-encode issued query n =
      let token : PageToken = record { query = codec.query_digest issued; offset = n } in
      rw
        (
          decode_some (codec.encode_to_string (codec.marshal token)) query
              (λ e. lawful.marshal_some token (lawful.encode_empty _ e)),
          lawful.decode_encode (codec.marshal token),
          read_body,
          lawful.unmarshal_marshal issued n,
        )
        refl

  -- A token that was issued for a query at an offset in range is accepted with that offset, and
  -- for a query with another digest it is refused as that of a different query.
  pub decode_page_token-encode_page_token :
      (issued query : Bytes) (n : ℕ)
      → n ≤ max_page_offset
      → ((codec.query_digest issued ≡ codec.query_digest query)
          × (decode_page_token codec (encode_page_token codec issued (pos n)) query ≡ offset n))
        ⊎ ((codec.query_digest issued ≢ codec.query_digest query)
            × (decode_page_token codec (encode_page_token codec issued (pos n)) query
                ≡ different_query))
  unfolding check_token check_offset
  decode_page_token-encode_page_token issued query n h =
      elim (Bool-cases (bytes_eq (codec.query_digest issued) (codec.query_digest query))) [
        | inl e ↦ inl (
          (bytes_eq_iff _ _).0 e,
          rw (decode-encode issued query (pos n), e, check_token) (ground arith),
        )
        | inr e ↦ inr (
          (λ k. absurd (
              ground (arith, bytes_eq_iff (codec.query_digest issued) (codec.query_digest query)))),
          rw (decode-encode issued query (pos n), e, check_token) refl,
        )
      ]

check_offset-bounds : (z : ℤ) (n : ℕ) → check_offset z ≡ offset n → n ≤ max_page_offset
unfolding check_offset
check_offset-bounds (negsuc m) n h = absurd (ground arith)
check_offset-bounds (pos m) n h = ground arith

module _ (codec : Codec) (query : Bytes) (n : ℕ) where
  check_token-bounds :
      (o : Option PageToken) → check_token codec query o ≡ offset n → n ≤ max_page_offset
  unfolding check_token
  check_token-bounds none h = absurd (ground arith)
  check_token-bounds (some token) h =
      elim (Bool-cases (bytes_eq token.query (codec.query_digest query))) [
        | inl e ↦ check_offset-bounds token.offset n (rw e at h)
        | inr e ↦ let k : different_query ≡ offset n = rw e at h in absurd (ground arith)
      ]

  read_body-bounds : (o : Option Bytes) → read_body codec query o ≡ offset n → n ≤ max_page_offset
  unfolding read_body
  read_body-bounds none h = absurd (ground arith)
  read_body-bounds (some body) h = check_token-bounds (codec.unmarshal body) h

-- Whatever the token: an offset that is accepted is in range, so the int32 of the query holds it.
pub decode_page_token-bounds :
    (codec : Codec) (token query : Bytes) (n : ℕ)
    → decode_page_token codec token query ≡ offset n
    → n ≤ max_page_offset
unfolding decode_page_token
decode_page_token-bounds codec [] query n h = ground arith
decode_page_token-bounds codec (c ∷ token) query n h = read_body-bounds codec query n _ h
