-- ===== src/Cache/Key.antt =====
-- thumbnailkey.go: what addresses a stored thumbnail.
pub mod Decimal
pub mod Injective
use hirame.Prelude.{
  ℕ, zero, suc, ◌+◌, ◌/◌, ◌%◌, List, [], ◌∷◌, ◌++◌, Bytes, codes, ltb, if◌then◌else◌,
}

-- The digits of %d, on fuel: n + 1 is enough.
unfoldable pub digits : ℕ → ℕ → Bytes
digits zero n = []
digits (suc fuel) n =
    let rest = digits fuel (n / 10) in
    if ltb n 10 then (48 + n) ∷ [] else rest ++ (48 + n % 10) ∷ []

-- %d of an unsigned number
unfoldable pub decimal : ℕ → Bytes
unfolding digits
decimal n = digits (suc n) n

-- entry; `format` is the name of its format
pub record Entry : Type 0 where
  pub content_version_id : ℕ
  pub content_hash : Bytes
  pub page : ℕ
  pub width : ℕ
  pub height : ℕ
  pub format : Bytes

-- objectKey
unfoldable pub object_key : Entry → Bytes
unfolding decimal
object_key e =
    codes "thumbnails/"
    ++ (e.content_hash
        ++ (codes "/p"
            ++ (decimal e.page
                ++ (codes "/"
                    ++ (decimal e.width
                        ++ (codes "x" ++ (decimal e.height ++ (codes "." ++ e.format))))))))
