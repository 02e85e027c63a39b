-- ===== src/Cache/Key/Decimal.antt =====
-- Decimal digits: the number is read back from them.
use hirame.Prelude.{
  ℕ, zero, suc, ◌+◌, ◌-◌, ◌*◌, ◌/◌, ◌%◌, ◌≤◌, ◌<◌, Bool, true, ◌&&◌, [], ◌∷◌, ◌++◌, ◌≡◌, refl, ap,
  arith, Bytes, ltb, leb, Bool-cases, inl, inr,
}
use hirame.Cache.Key.{digits, decimal}

-- The number that digits stand for, after those read so far.
abbrev pub value : ℕ → Bytes → ℕ
value seen [] = seen
value seen (c ∷ s) = value (10 * seen + (c - 48)) s

value-append :
    (seen : ℕ) (s : Bytes) (c : ℕ) → value seen (s ++ c ∷ []) ≡ 10 * value seen s + (c - 48)
value-append seen [] c = refl
value-append seen (d ∷ s) c = value-append (10 * seen + (d - 48)) s c

value-digits : (fuel n : ℕ) → n < fuel → value 0 (digits fuel n) ≡ n
unfolding digits
value-digits zero n h = absurd (omega arith)
value-digits (suc fuel) n h = elim (Bool-cases (ltb n 10)) [
  | inl e ↦ rw (e, digits) (omega arith)
  | inr e ↦
      rw (e, digits, value-append 0 (digits fuel (n / 10)) (48 + n % 10))
        (let r = value-digits fuel (n / 10) (ground arith) in omega (arith, r))
]

-- Different numbers are written differently.
pub decimal-injective : (m n : ℕ) → decimal m ≡ decimal n → m ≡ n
unfolding decimal
decimal-injective m n h =
    let e = ap (value 0) h in
    omega (arith, value-digits (suc m) m (omega arith), value-digits (suc n) n (omega arith), e)

abbrev pub all_digits : Bytes → Bool
all_digits [] = true
all_digits (c ∷ s) = leb 48 c && (leb c 57 && all_digits s)

all_digits-append :
    (s : Bytes) (c : ℕ) → all_digits s ≡ true → 48 ≤ c → c ≤ 57 → all_digits (s ++ c ∷ []) ≡ true
all_digits-append [] c h k l = ground arith
all_digits-append (d ∷ s) c h k l = ground (arith, all_digits-append s c)

digits-digits : (fuel n : ℕ) → all_digits (digits fuel n) ≡ true
unfolding digits
digits-digits zero n = refl
digits-digits (suc fuel) n = elim (Bool-cases (ltb n 10)) [
  | inl e ↦ rw (e, digits) (ground arith)
  | inr e ↦
      rw (e, digits)
        (all_digits-append (digits fuel (n / 10)) (48 + n % 10) (digits-digits fuel (n / 10))
          (omega arith) (omega arith))
]

pub decimal-digits : (n : ℕ) → all_digits (decimal n) ≡ true
unfolding decimal
decimal-digits n = digits-digits (suc n) n
