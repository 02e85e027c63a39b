-- ===== src/Service/ImageSpec.antt =====
-- imagespec.go: the format and the size bounds of an image.
use hirame.Prelude.{
  ℕ, ◌+◌, ◌-◌, ◌*◌, ◌/◌, ◌%◌, ◌^◌, ◌≤◌, ◌<◌, min, Option, none, some, ◌≡◌, ◌⊎◌, inl, inr, refl,
  arith, ◌==◌, ltb, Bytes, codes, if◌then◌else◌, Bool-cases, not,
}

-- hiramev1.ImageFormat; the wire may carry a number that names no format.
pub data ImageFormat : Type 0 where
  unspecified png jpeg webp avif : ImageFormat
  unknown : ℕ → ImageFormat

-- imageFormat, less the renderer's own name for it
pub record Format : Type 0 where
  pub proto : ImageFormat
  pub name : Bytes
  pub media_type : Bytes

-- imageFormats
unfoldable pub image_formats : ImageFormat → Option Format
image_formats unspecified = none
image_formats png =
    some (record { proto = png; name = codes "png"; media_type = codes "image/png" })
image_formats jpeg =
    some (record { proto = jpeg; name = codes "jpeg"; media_type = codes "image/jpeg" })
image_formats webp =
    some (record { proto = webp; name = codes "webp"; media_type = codes "image/webp" })
image_formats avif =
    some (record { proto = avif; name = codes "avif"; media_type = codes "image/avif" })
image_formats (unknown n) = none

-- requested, or fallback where it is unspecified
unfoldable pub or_fallback : ImageFormat → ImageFormat → ImageFormat
or_fallback unspecified fallback = fallback
or_fallback png fallback = png
or_fallback jpeg fallback = jpeg
or_fallback webp fallback = webp
or_fallback avif fallback = avif
or_fallback (unknown n) fallback = unknown n

-- resolveFormat; `none` is INVALID_ARGUMENT.
unfoldable pub resolve_format : ImageFormat → ImageFormat → Option Format
unfolding image_formats or_fallback
resolve_format requested fallback = image_formats (or_fallback requested fallback)

-- hiramev1.ImageSize: two uint32, which are 0 on a missing message.
pub record ImageSize : Type 0 where
  pub width : ℕ
  pub height : ℕ

-- The constants of the file.
abbrev pub default_render_pixels : ℕ
default_render_pixels = 2048

abbrev pub max_render_pixels : ℕ
max_render_pixels = 5000

abbrev pub default_thumbnail_pixels : ℕ
default_thumbnail_pixels = 192

abbrev pub thumbnail_quantum : ℕ
thumbnail_quantum = 64

abbrev pub max_thumbnail_pixels : ℕ
max_thumbnail_pixels = 1024

-- boundRenderAxis
unfoldable pub bound_render_axis : ℕ → ℕ
bound_render_axis value = if value == 0 then default_render_pixels else min value max_render_pixels

-- renderBounds
unfoldable pub render_bounds : ImageSize → ImageSize
unfolding bound_render_axis
render_bounds size = record {
  width = bound_render_axis size.width;
  height = bound_render_axis size.height;
}

-- quantizeThumbnailAxis, in the arithmetic of uint32
unfoldable pub quantize_thumbnail_axis : ℕ → ℕ
quantize_thumbnail_axis value =
    if value == 0
    then default_thumbnail_pixels
    else if not (ltb value max_thumbnail_pixels)
    then max_thumbnail_pixels
    else ((value + thumbnail_quantum - 1) % 2 ^ 32 / thumbnail_quantum * thumbnail_quantum) % 2 ^ 32

-- thumbnailBounds
unfoldable pub thumbnail_bounds : ImageSize → ImageSize
unfolding quantize_thumbnail_axis
thumbnail_bounds size = record {
  width = quantize_thumbnail_axis size.width;
  height = quantize_thumbnail_axis size.height;
}

rounded :
    (value : ℕ)
    → 0 < value
    → value < 1024
    → let r = ((value + 64 - 1) % 2 ^ 32 / 64 * 64) % 2 ^ 32 in
      (0 < r) × (r ≤ 1024) × (r % 64 ≡ 0) × (min value 1024 ≤ r) × ((value ≡ 0) ⊎ (r < value + 64))
rounded value h k = (omega arith, omega arith, omega arith, omega arith, inr (omega arith))

-- Whatever the request, a thumbnail axis is a positive multiple of 64 of at most 1024, so there are
-- 16 of them; it is no smaller than the request where that is at most 1024, and less than 64
-- larger where there is a request.
pub quantize_thumbnail_axis-bounds :
    (value : ℕ)
    → (0 < quantize_thumbnail_axis value)
      × (quantize_thumbnail_axis value ≤ 1024)
      × (quantize_thumbnail_axis value % 64 ≡ 0)
      × (min value 1024 ≤ quantize_thumbnail_axis value)
      × ((value ≡ 0) ⊎ (quantize_thumbnail_axis value < value + 64))
unfolding quantize_thumbnail_axis
quantize_thumbnail_axis-bounds value = elim (Bool-cases (value == 0)) [
  | inl z ↦
      rw (z, quantize_thumbnail_axis)
        (omega arith, omega arith, refl, ground arith, inl (ground arith))
  | inr z ↦ elim (Bool-cases (ltb value 1024)) [
    | inl s ↦ rw (z, s, quantize_thumbnail_axis) (rounded value (ground arith) (ground arith))
    | inr s ↦
        rw (z, s, quantize_thumbnail_axis)
          (omega arith, omega arith, refl, ground arith, inr (ground arith))
  ]
]

quantized :
    (value : ℕ) → 0 < value → value ≤ 1024 → value % 64 ≡ 0 → quantize_thumbnail_axis value ≡ value
unfolding quantize_thumbnail_axis
quantized value h k m = ground arith

quantize_idempotent :
    (value : ℕ)
    → quantize_thumbnail_axis (quantize_thumbnail_axis value) ≡ quantize_thumbnail_axis value
quantize_idempotent value =
    let b = quantize_thumbnail_axis-bounds value in
    quantized (quantize_thumbnail_axis value) b.0 b.1 b.2

-- A thumbnail size that was quantized stays as it is.
pub thumbnail_bounds_idempotent :
    (size : ImageSize) → thumbnail_bounds (thumbnail_bounds size) ≡ thumbnail_bounds size
unfolding thumbnail_bounds
thumbnail_bounds_idempotent size =
    rw (quantize_idempotent size.width, quantize_idempotent size.height) refl

-- Whatever the request, a render axis is positive and at most 5000, and no more than a request.
pub bound_render_axis-bounds :
    (value : ℕ)
    → (0 < bound_render_axis value)
      × (bound_render_axis value ≤ 5000)
      × ((value ≡ 0) ⊎ (bound_render_axis value ≤ value))
unfolding bound_render_axis
bound_render_axis-bounds value = (ground arith, ground arith, ground arith)
