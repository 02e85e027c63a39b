-- ===== src/Prelude/Unique.antt =====
-- Uniqueness constraints kept by the table operations.
use mathlib.Core.Bool.{Bool, true, false, ◌||◌}
use mathlib.Core.List.{List, [], ◌∷◌, ◌++◌, map}
use mathlib.Core.Option.{none, some}
use mathlib.Core.Logic.{inl, inr}
use mathlib.Core.Path.{◌≡◌, refl, subst}
use native.Mathlib.Omega.{arith}
use hirame.Prelude.Tests.{Bool-cases}
use hirame.Prelude.Lists.{find?, select, reject, update_where, has, distinct, All}

module _ {ℓ} {A : Type ℓ} where
  -- A test that no row of the list passes, row by row.
  abbrev pub Lacks : (A → Bool) → List A → Type 0
  Lacks p = All (λ x. p x ≡ false)

  pub Lacks-of_has : (p : A → Bool) (xs : List A) → has p xs ≡ false → Lacks p xs
  Lacks-of_has p [] h = tt
  Lacks-of_has p (x ∷ xs) h = (ground arith, Lacks-of_has p xs (ground arith))

  pub Lacks-of_find? : (p : A → Bool) (xs : List A) → find? p xs ≡ none → Lacks p xs
  Lacks-of_find? p [] h = tt
  Lacks-of_find? p (x ∷ xs) h = (ground arith, Lacks-of_find? p xs (ground arith))

  pub has_of_Lacks : (p : A → Bool) (xs : List A) → Lacks p xs → has p xs ≡ false
  has_of_Lacks p [] h = refl
  has_of_Lacks p (x ∷ xs) (h, hs) = ground (arith, has_of_Lacks p xs hs)

  pub find?-has : (p : A → Bool) (xs : List A) (a : A) → find? p xs ≡ some a → has p xs ≡ true
  find?-has p [] a h = ground arith
  find?-has p (x ∷ xs) a h = ground (arith, find?-has p xs a)

  pub find?-test : (p : A → Bool) (xs : List A) (a : A) → find? p xs ≡ some a → p a ≡ true
  find?-test p [] a h = ground arith
  find?-test p (x ∷ xs) a h = ground (arith, find?-test p xs a)

  pub All-find? {κ} :
      (P : A → Type κ) (p : A → Bool) (xs : List A) (a : A) → All P xs → find? p xs ≡ some a → P a
  All-find? P p [] a _ h = absurd (ground arith)
  All-find? P p (x ∷ xs) a (hx, hs) h = elim (Bool-cases (p x)) [
    | inl e ↦ let q : x ≡ a = ground arith in subst P q hx
    | inr e ↦ All-find? P p xs a hs (rw e at h)
  ]

  pub All-select {κ} :
      (P : A → Type κ) (p : A → Bool) (xs : List A) → All P xs → All P (select p xs)
  All-select P p [] h = tt
  All-select P p (x ∷ xs) (hx, hs) = elim (Bool-cases (p x)) [
    | inl e ↦ rw e (hx, All-select P p xs hs)
    | inr e ↦ rw e (All-select P p xs hs)
  ]

  has-select : (c p : A → Bool) (xs : List A) → has c (select p xs) ≡ true → has c xs ≡ true
  has-select c p [] h = h
  has-select c p (x ∷ xs) h = ground (arith, has-select c p xs)

  pub distinct-select :
      (c : A → A → Bool) (p : A → Bool) (xs : List A)
      → distinct c xs ≡ true
      → distinct c (select p xs) ≡ true
  distinct-select c p [] h = h
  distinct-select c p (x ∷ xs) h = ground (arith, distinct-select c p xs, has-select (c x) p xs)

module _ {ℓ} {A B : Type ℓ} where
  pub All-map {κ} :
      (P : B → Type κ) (Q : A → Type κ) (f : A → B)
      → ((x : A) → Q x → P (f x))
      → (xs : List A) → All Q xs
      → All P (map f xs)
  All-map P Q f h [] _ = tt
  All-map P Q f h (x ∷ xs) (q, qs) = (h x q, All-map P Q f h xs qs)

  module _ {κ} (P : A → Type κ) (c : A → A → Bool) (d : B → B → Bool) (f : A → B)
      (reflects : (x y : A) → P x → P y → d (f x) (f y) ≡ true → c x y ≡ true) where
    has-map :
        (x : A) (xs : List A)
        → P x
        → All P xs
        → has (d (f x)) (map f xs) ≡ true
        → has (c x) xs ≡ true
    has-map x [] p ps h = h
    has-map x (y ∷ ys) p (q, qs) h = ground (arith, reflects x y p q, has-map x ys p qs)

    -- A change of every row keeps uniqueness, if rows that clash afterwards clashed before.
    pub distinct-map :
        (xs : List A) → All P xs → distinct c xs ≡ true → distinct d (map f xs) ≡ true
    distinct-map [] ps h = h
    distinct-map (x ∷ xs) (p, ps) h = ground (arith, has-map x xs p ps, distinct-map xs ps)

module _ {ℓ} {A : Type ℓ} where
  pub has-append : (p : A → Bool) (xs : List A) (y : A) → has p (xs ++ y ∷ []) ≡ (has p xs || p y)
  has-append p [] y = ground arith
  has-append p (x ∷ xs) y = ground (arith, has-append p xs y)

  -- A new row keeps uniqueness, if no row clashes with it.
  pub distinct-append :
      (c : A → A → Bool) (xs : List A) (y : A)
      → All (λ x. c x y ≡ false) xs
      → distinct c xs ≡ true
      → distinct c (xs ++ y ∷ []) ≡ true
  distinct-append c [] y _ h = refl
  distinct-append c (x ∷ xs) y (n, ns) h =
      ground (arith, has-append (c x) xs y, distinct-append c xs y ns)

module _ {ℓ} {A : Type ℓ} where
  pub has_of_find? :
      (p q : A → Bool) (xs : List A) (a : A) → find? q xs ≡ some a → p a ≡ true → has p xs ≡ true
  has_of_find? p q [] a h e = ground arith
  has_of_find? p q (x ∷ xs) a h e = ground (arith, has_of_find? p q xs a)

  pub All-weaken {κ μ} :
      (P : A → Type κ) (Q : A → Type μ)
      → ((x : A) → P x → Q x)
      → (xs : List A) → All P xs
      → All Q xs
  All-weaken P Q h [] _ = tt
  All-weaken P Q h (x ∷ xs) (p, ps) = (h x p, All-weaken P Q h xs ps)

  -- Under a uniqueness constraint the row that was found is the only one that clashes with it.
  pub only_row :
      (c : A → A → Bool)
      → ((x y : A) → c x y ≡ true → c y x ≡ true)
      → (q : A → Bool) (xs : List A) (a : A) → distinct c xs ≡ true
      → find? q xs ≡ some a
      → All (λ x. c a x ≡ true → x ≡ a) xs
  only_row c flip q [] a d h = tt
  only_row c flip q (x ∷ xs) a d h = elim (Bool-cases (q x)) [
    | inl e ↦
        let s : x ≡ a = ground arith in
        (
          λ _. s,
          All-weaken (λ y. c x y ≡ false) _ (λ y n m. absurd (ground arith)) xs
              (Lacks-of_has (c x) xs (ground arith)),
        )
    | inr e ↦
        let h' : find? q xs ≡ some a = rw e at h in
        (
          λ m. absurd (ground (arith, flip a x m, has_of_find? (c x) q xs a h')),
          only_row c flip q xs a (ground arith) h',
        )
  ]

  pub All-update {κ μ} :
      (P : A → Type κ) (Q : A → Type μ) (p : A → Bool) (f : A → A)
      → ((x : A) → p x ≡ true → P x → Q (f x))
      → ((x : A) → p x ≡ false → P x → Q x)
      → (xs : List A) → All P xs
      → All Q (update_where p f xs)
  All-update P Q p f h k [] _ = tt
  All-update P Q p f h k (x ∷ xs) (px, ps) = elim (Bool-cases (p x)) [
    | inl e ↦ (rw e (h x e px), All-update P Q p f h k xs ps)
    | inr e ↦ (rw e (k x e px), All-update P Q p f h k xs ps)
  ]

module _ {ℓ} {A : Type ℓ} (c d : A → A → Bool) where
  has-or : (x : A) (ys : List A) → has (λ y. c x y || d x y) ys ≡ (has (c x) ys || has (d x) ys)
  has-or x [] = refl
  has-or x (y ∷ ys) = ground (arith, has-or x ys)

  -- Two constraints together.
  pub distinct-or :
      (xs : List A)
      → distinct c xs ≡ true
      → distinct d xs ≡ true
      → distinct (λ x y. c x y || d x y) xs ≡ true
  distinct-or [] h k = refl
  distinct-or (x ∷ xs) h k = ground (arith, has-or x xs, distinct-or xs)

module _ {ℓ} {A : Type ℓ} where
  pub All-zip {κ μ ν} :
      (P : A → Type κ) (Q : A → Type μ) (R : A → Type ν)
      → ((x : A) → P x → Q x → R x)
      → (xs : List A) → All P xs
      → All Q xs
      → All R xs
  All-zip P Q R h [] _ _ = tt
  All-zip P Q R h (x ∷ xs) (p, ps) (q, qs) = (h x p q, All-zip P Q R h xs ps qs)

  pub has-update_where :
      (q p : A → Bool) (f : A → A)
      → ((x : A) → q (f x) ≡ q x)
      → (xs : List A) → has q (update_where p f xs) ≡ has q xs
  has-update_where q p f h [] = refl
  has-update_where q p f h (x ∷ xs) = ground (arith, h x, has-update_where q p f h xs)

  -- No row passes the test that chose the rows which were dropped.
  pub Lacks-reject : (p : A → Bool) (xs : List A) → Lacks p (reject p xs)
  Lacks-reject p [] = tt
  Lacks-reject p (x ∷ xs) = elim (Bool-cases (p x)) [
    | inl e ↦ rw e (Lacks-reject p xs)
    | inr e ↦ rw e (e, Lacks-reject p xs)
  ]
