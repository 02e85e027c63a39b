-- ===== src/Service/Snippets/Bounds.antt =====
-- The slices of snippetSegments stay in range, and its loop ends.
use hirame.Prelude.{
  length-drop, ℕ, zero, suc, ◌+◌, ◌≤◌, ◌<◌, true, [], ◌∷◌, some, ◌≡◌, inl, inr, refl, arith, Bytes,
  has_prefix, length, drop, Option-cases,
}
use hirame.Service.Snippets.{highlight_open, highlight_close, index_of, segments_from}

-- What strings.Index finds stands there.
pub index_of-has_prefix :
    (s sub : Bytes) (i : ℕ) → index_of s sub ≡ some i → has_prefix (drop i s) sub ≡ true
unfolding index_of
index_of-has_prefix [] sub i h = ground arith
index_of-has_prefix (c ∷ s) sub zero h = ground arith
index_of-has_prefix (c ∷ s) sub (suc i) h = ground (arith, index_of-has_prefix s sub i)

prefix-length : (s p : Bytes) → has_prefix s p ≡ true → length p ≤ length s
unfolding has_prefix
prefix-length s [] h = ground arith
prefix-length [] (p ∷ ps) h = ground arith
prefix-length (c ∷ s) (p ∷ ps) h = ground (arith, prefix-length s ps)

pub index_of-length : (s sub : Bytes) (i : ℕ) → index_of s sub ≡ some i → i + length sub ≤ length s
unfolding index_of
index_of-length [] sub i h = ground (arith, prefix-length [] sub)
index_of-length (c ∷ s) sub zero h = ground (arith, prefix-length (c ∷ s) sub)
index_of-length (c ∷ s) sub (suc i) h = ground (arith, index_of-length s sub i)

-- An opening marker is no closing one.
after_open :
    (s : Bytes) (k : ℕ)
    → has_prefix s highlight_open ≡ true
    → index_of s highlight_close ≡ some k
    → 3 ≤ k
unfolding index_of has_prefix
after_open [] k h e = ground arith
after_open (a ∷ []) k h e = ground arith
after_open (a ∷ b ∷ []) k h e = ground arith
after_open (a ∷ b ∷ c ∷ s) k h e = ground arith

-- Where a closing marker follows an opening one, the bounds of their slices are in order and in
-- range, and the text after both is shorter.
snippet_bounds :
    (rest : Bytes) (opening closing : ℕ)
    → index_of rest highlight_open ≡ some opening
    → index_of (drop opening rest) highlight_close ≡ some closing
    → (opening + length highlight_open ≤ closing + opening)
      × (closing + opening + length highlight_close ≤ length rest)
      × (length (drop (closing + opening + length highlight_close) rest) < length rest)
snippet_bounds rest opening closing e f =
    let h =
      after_open (drop opening rest) closing (index_of-has_prefix rest highlight_open opening e)
        f in
    let l = index_of-length (drop opening rest) highlight_close closing f in
    let d = length-drop opening rest in
    (
      ground (arith, h),
      ground (arith, l, d),
      ground (arith, l, d, length-drop (closing + opening + length highlight_close) rest),
    )

-- Fuel beyond the length of the text changes nothing.
pub segments_from-fuel :
    (n m : ℕ) (rest : Bytes)
    → length rest < n
    → length rest < m
    → segments_from n rest ≡ segments_from m rest
unfolding segments_from
segments_from-fuel zero m rest h k = absurd (omega arith)
segments_from-fuel (suc n) zero rest h k = absurd (omega arith)
segments_from-fuel (suc n) (suc m) rest h k = elim (Option-cases (index_of rest highlight_open)) [
  | inl e ↦ rw (e, segments_from) refl
  | inr (o, e) ↦ elim (Option-cases (index_of (drop o rest) highlight_close)) [
    | inl f ↦ rw (e, f, segments_from) refl
    | inr (c, f) ↦
        let b = snippet_bounds rest o c e f in
        let next =
          segments_from-fuel n m (drop (c + o + length highlight_close) rest) (omega arith)
            (omega arith) in
        rw (e, f, next, segments_from) refl
  ]
]
