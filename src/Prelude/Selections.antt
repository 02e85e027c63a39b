-- ===== src/Prelude/Selections.antt =====
-- Rows that are selected, and what is known of those that are left.
use Prim.Native.Nat.{◌≤◌, ◌<◌}
use mathlib.Core.Path.{subst, ◌≡◌, refl}
use mathlib.Core.Logic.{inl, inr}
use mathlib.Core.Bool.{Bool, true, false, ◌&&◌, not}
use mathlib.Core.List.{List, [], ◌∷◌}
use native.Mathlib.Omega.{arith}
use hirame.Prelude.Tests.{if◌then◌else◌, Bool-cases}
use mathlib.Core.Option.{some}
use hirame.Prelude.Lists.{find?, update_where, has, distinct, select, reject, All, length}
use hirame.Prelude.Unique.{Lacks-of_has, All-weaken, All-zip}

module _ {ℓ} {A : Type ℓ} where
  pub select-select :
      (p q : A → Bool) (xs : List A) → select p (select q xs) ≡ select (λ x. q x && p x) xs
  select-select p q [] = refl
  select-select p q (x ∷ xs) = ground (arith, select-select p q xs)

  -- What is taken away is not selected.
  pub select-reject :
      (p q : A → Bool)
      → ((x : A) → p x ≡ true → q x ≡ false)
      → (xs : List A) → select q (reject p xs) ≡ select q xs
  select-reject p q h [] = refl
  select-reject p q h (x ∷ xs) = ground (arith, h x, select-reject p q h xs)

  pub has-select-false :
      (p q : A → Bool) (xs : List A) → has p xs ≡ false → has p (select q xs) ≡ false
  has-select-false p q [] h = refl
  has-select-false p q (x ∷ xs) h = ground (arith, has-select-false p q xs)

  pub has-reject : (p : A → Bool) (xs : List A) → has p (reject p xs) ≡ false
  has-reject p [] = refl
  has-reject p (x ∷ xs) = ground (arith, has-reject p xs)

  -- The rows that a test accepts, with what the test tells of them.
  pub All-select_test {κ} :
      (P : A → Type κ) (p : A → Bool) (xs : List A)
      → All (λ x. p x ≡ true → P x) xs
      → All P (select p xs)
  All-select_test P p [] h = tt
  All-select_test P p (x ∷ xs) (h, hs) = elim (Bool-cases (p x)) [
    | inl e ↦ rw e (h e, All-select_test P p xs hs)
    | inr e ↦ rw e (All-select_test P p xs hs)
  ]

  pub All-has {κ} :
      (P : A → Type κ) (p : A → Bool) (xs : List A)
      → All P xs
      → has p xs ≡ true
      → (x : A) × (p x ≡ true) × P x
  All-has P p [] h e = absurd (ground arith)
  All-has P p (x ∷ xs) (h, hs) e = elim (Bool-cases (p x)) [
    | inl k ↦ (x, k, h)
    | inr k ↦ All-has P p xs hs (rw k at e)
  ]

  -- Every row is found by a test that accepts itself.
  pub All-self :
      (p : A → A → Bool)
      → ((x : A) → p x x ≡ true)
      → (xs : List A) → All (λ x. has (p x) xs ≡ true) xs
  All-self p r [] = tt
  All-self p r (x ∷ xs) = (
    ground (arith, r x),
    All-weaken (λ y. has (p y) xs ≡ true) (λ y. has (p y) (x ∷ xs) ≡ true) (λ y h. ground arith) xs
        (All-self p r xs),
  )

  -- Where every row passes the test or fails a second one, and the selection has none that passes
  -- the first and fails the second, the second test selects it.
  pub select-same :
      (p q : A → Bool) (xs : List A) → All (λ x. p x ≡ q x) xs → select p xs ≡ select q xs
  select-same p q [] h = refl
  select-same p q (x ∷ xs) h = ground (arith, h.0, select-same p q xs h.1)

  pub length-select-le : (p : A → Bool) (xs : List A) → length (select p xs) ≤ length xs
  length-select-le p [] = ground arith
  length-select-le p (x ∷ xs) = ground (arith, length-select-le p xs)

  -- A test that drops a row makes the selection shorter.
  pub length-select-lt :
      (p q : A → Bool) (xs : List A)
      → ((x : A) → p x ≡ true → q x ≡ true)
      → has (λ x. q x && not (p x)) xs ≡ true
      → length (select p xs) < length (select q xs)
  length-select-lt p q [] h k = absurd (ground arith)
  length-select-lt p q (x ∷ xs) h k =
      ground (arith, h x, length-select-lt p q xs h, length-select-mono xs)
    where
      length-select-mono : (ys : List A) → length (select p ys) ≤ length (select q ys)
      length-select-mono [] = ground arith
      length-select-mono (y ∷ ys) = ground (arith, h y, length-select-mono ys)

-- One row for each value of a key.
pub All-unique {ℓ} :
    {A : Type ℓ} (c : A → A → Bool)
    → ((x y : A) → c x y ≡ true → c y x ≡ true)
    → (xs : List A) → distinct c xs ≡ true
    → All (λ x. All (λ y. c x y ≡ true → x ≡ y) xs) xs
All-unique c flip [] d = tt
All-unique {A = A} c flip (x ∷ xs) d =
    let lacks = Lacks-of_has (c x) xs (ground arith) in
    (
      ((λ _. refl), All-weaken (λ y. c x y ≡ false) _ (λ y n m. absurd (ground arith)) xs lacks),
      All-zip (λ y. c x y ≡ false) (λ y. All (λ z. c y z ≡ true → y ≡ z) xs) _
          (λ y n h. ((λ m. absurd (ground (arith, flip y x m))), h)) xs lacks
          (All-unique c flip xs (ground arith)),
    )

module _ {ℓ} {A : Type ℓ} where
  -- Each selected row is among the selected ones.
  pub All-selected :
      (c : A → A → Bool) (p : A → Bool)
      → ((x : A) → c x x ≡ true)
      → (xs : List A) → All (λ x. p x ≡ true → has (c x) (select p xs) ≡ true) xs
  All-selected c p r [] = tt
  All-selected c p r (x ∷ xs) = (
    (λ h. ground (arith, r x)),
    All-weaken (λ y. p y ≡ true → has (c y) (select p xs) ≡ true) _ (λ y h k. ground (arith, h k))
        xs (All-selected c p r xs),
  )

  pub has-weaken :
      (p q : A → Bool) (xs : List A)
      → All (λ x. p x ≡ true → q x ≡ true) xs
      → has p xs ≡ true
      → has q xs ≡ true
  has-weaken p q [] h k = k
  has-weaken p q (x ∷ xs) (h, hs) k = ground (arith, h, has-weaken p q xs hs)

  pub Lacks-select :
      (p q : A → Bool) (xs : List A)
      → All (λ x. p x ≡ true → q x ≡ false) xs
      → has q (select p xs) ≡ false
  Lacks-select p q [] h = refl
  Lacks-select p q (x ∷ xs) (h, hs) = ground (arith, h, Lacks-select p q xs hs)

  -- Each row is found by the tests that it passes.
  pub All-found : (xs : List A) → All (λ x. (q : A → Bool) → q x ≡ true → has q xs ≡ true) xs
  All-found [] = tt
  All-found (x ∷ xs) =
      ((λ q h. ground arith), All-weaken _ _ (λ y h q k. ground (arith, h q k)) xs (All-found xs))

  pub has_of_select :
      (p q : A → Bool) (xs : List A) → has q (select p xs) ≡ true → has (λ x. p x && q x) xs ≡ true
  has_of_select p q [] h = h
  has_of_select p q (x ∷ xs) h = ground (arith, has_of_select p q xs)

  pub select-all : (xs : List A) → xs ≡ select (λ _. true) xs
  select-all [] = refl
  select-all (x ∷ xs) = ground (arith, select-all xs)

  pub All-of_select {κ} :
      (P : A → Type κ) (p : A → Bool) (xs : List A)
      → All P (select p xs)
      → All (λ x. p x ≡ true → P x) xs
  All-of_select P p [] h = tt
  All-of_select P p (x ∷ xs) h = elim (Bool-cases (p x)) [
    | inl e ↦ let k : All P (x ∷ select p xs) = rw e at h in ((λ _. k.0), All-of_select P p xs k.1)
    | inr e ↦
        let k : All P (select p xs) = rw e at h in
        ((λ m. absurd (ground arith)), All-of_select P p xs k)
  ]

  pub update-same :
      (p q : A → Bool) (f : A → A) (xs : List A)
      → All (λ x. p x ≡ q x) xs
      → update_where p f xs ≡ update_where q f xs
  update-same p q f [] h = refl
  update-same p q f (x ∷ xs) (h, hs) = ground (arith, h, update-same p q f xs hs)

  pub has-select_self : (p : A → Bool) (xs : List A) → has p (select p xs) ≡ has p xs
  has-select_self p [] = refl
  has-select_self p (x ∷ xs) = ground (arith, has-select_self p xs)

  pub has-select_none :
      (p q : A → Bool) (xs : List A) → has q xs ≡ false → has p (select q xs) ≡ false
  has-select_none p q [] h = refl
  has-select_none p q (x ∷ xs) h = ground (arith, has-select_none p q xs)

  pub has-of_and :
      (p : A → Bool) (xs : List A) → has (λ x. p x && true) xs ≡ false → has p xs ≡ false
  has-of_and p [] h = h
  has-of_and p (x ∷ xs) h = ground (arith, has-of_and p xs)

  -- A change that keeps what is looked for is found changed.
  pub find?-update :
      (p q : A → Bool) (f : A → A)
      → ((x : A) → p (f x) ≡ p x)
      → (xs : List A) (a : A) → find? p xs ≡ some a
      → find? p (update_where q f xs) ≡ some (if q a then f a else a)
  find?-update p q f h [] a e = absurd (ground arith)
  find?-update p q f h (x ∷ xs) a e = elim (Bool-cases (p x)) [
    | inl k ↦
        let s : x ≡ a = ground arith in
        subst (λ y. find? p (update_where q f (x ∷ xs)) ≡ some (if q y then f y else y)) s
          (ground (arith, h x))
    | inr k ↦ ground (arith, h x, find?-update p q f h xs a (rw k at e))
  ]
