-- ===== src/Prelude/Int.antt =====
-- int64 values that the code orders, as integers; `negsuc n` is -(n + 1).
use Prim.Native.Nat.{ℕ, ◌-◌, ◌^◌, ◌<◌}
use mathlib.Core.Path.{◌≡◌}
use mathlib.Core.Bool.{Bool, true, false}
use native.Mathlib.Omega.{arith}
use hirame.Prelude.Tests.{ltb, leb, if◌then◌else◌}

pub data ℤ : Type 0 where
  pos : ℕ → ℤ
  negsuc : ℕ → ℤ

-- int64(x) of a uint64.
abbrev pub to_int64 : ℕ → ℤ
to_int64 x = if ltb x (2 ^ 63) then pos x else negsuc (2 ^ 64 - 1 - x)

-- uint64(z) of an int64.
abbrev pub to_uint64 : ℤ → ℕ
to_uint64 (pos n) = n
to_uint64 (negsuc n) = 2 ^ 64 - 1 - n

-- a <= b
abbrev pub leb_ℤ : ℤ → ℤ → Bool
leb_ℤ (pos a) (pos b) = leb a b
leb_ℤ (pos a) (negsuc b) = false
leb_ℤ (negsuc a) (pos b) = true
leb_ℤ (negsuc a) (negsuc b) = leb b a

-- GREATEST(a, b), and max.
abbrev pub max_ℤ : ℤ → ℤ → ℤ
max_ℤ a b = if leb_ℤ a b then b else a

pub leb-max_ℤ_right : (a b : ℤ) → leb_ℤ b (max_ℤ a b) ≡ true
leb-max_ℤ_right a b = ground arith

pub max_ℤ_of_leb : (a b : ℤ) → leb_ℤ b a ≡ true → max_ℤ a b ≡ a
max_ℤ_of_leb a b h = ground arith

-- A sequence number that fits an int64 keeps its value.
pub to_int64_of_lt : (x : ℕ) → x < 2 ^ 63 → to_int64 x ≡ pos x
to_int64_of_lt x h = ground arith
