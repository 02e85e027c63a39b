-- ===== src/Prelude/Sort.antt =====
-- ORDER BY: a stable insertion sort, and what it keeps.
use Prim.Native.Nat.{ℕ, zero, suc}
use mathlib.Core.Path.{◌≡◌, refl, ap}
use mathlib.Core.Bool.{Bool, true, ◌||◌}
use mathlib.Core.Logic.{inl, inr}
use mathlib.Core.List.{List, [], ◌∷◌}
use native.Mathlib.Omega.{arith}
use hirame.Prelude.Tests.{if◌then◌else◌, Bool-cases, ltb}
use hirame.Prelude.Lists.{has, All, take, length}

module _ {ℓ} {A : Type ℓ} (le : A → A → Bool) where
  abbrev pub insert_by : A → List A → List A
  insert_by a [] = a ∷ []
  insert_by a (x ∷ xs) = let rest = insert_by a xs in if le a x then a ∷ x ∷ xs else x ∷ rest

  abbrev pub sort_by : List A → List A
  sort_by [] = []
  sort_by (x ∷ xs) = insert_by x (sort_by xs)

  All-insert_by {κ} :
      (P : A → Type κ) (a : A) (xs : List A) → P a → All P xs → All P (insert_by a xs)
  All-insert_by P a [] h hs = (h, tt)
  All-insert_by P a (x ∷ xs) h (hx, hs) = elim (Bool-cases (le a x)) [
    | inl e ↦ rw e (h, (hx, hs))
    | inr e ↦ rw e (hx, All-insert_by P a xs h hs)
  ]

  pub All-sort_by {κ} : (P : A → Type κ) (xs : List A) → All P xs → All P (sort_by xs)
  All-sort_by P [] h = tt
  All-sort_by P (x ∷ xs) (h, hs) = All-insert_by P x (sort_by xs) h (All-sort_by P xs hs)

  has-insert_by : (p : A → Bool) (a : A) (xs : List A) → has p (insert_by a xs) ≡ (p a || has p xs)
  has-insert_by p a [] = refl
  has-insert_by p a (x ∷ xs) = ground (arith, has-insert_by p a xs)

  pub has-sort_by : (p : A → Bool) (xs : List A) → has p (sort_by xs) ≡ has p xs
  has-sort_by p [] = refl
  has-sort_by p (x ∷ xs) = ground (arith, has-insert_by p x (sort_by xs), has-sort_by p xs)

module _ {ℓ} {A : Type ℓ} where
  pub All-take {κ} : (P : A → Type κ) (n : ℕ) (xs : List A) → All P xs → All P (take n xs)
  All-take P zero xs h = tt
  All-take P (suc n) [] h = tt
  All-take P (suc n) (x ∷ xs) (h, hs) = (h, All-take P n xs hs)

  pub take-short : (n : ℕ) (xs : List A) → ltb (length (take n xs)) n ≡ true → take n xs ≡ xs
  take-short zero xs h = absurd (ground arith)
  take-short (suc n) [] h = refl
  take-short (suc n) (x ∷ xs) h = ap (◌∷◌ x) (take-short n xs (ground arith))

  pub has-take : (p : A → Bool) (n : ℕ) (xs : List A) → has p (take n xs) ≡ true → has p xs ≡ true
  has-take p zero xs h = absurd (ground arith)
  has-take p (suc n) [] h = h
  has-take p (suc n) (x ∷ xs) h = ground (arith, has-take p n xs)
