-- ===== src/Cache/Key/Injective.antt =====
-- Entries with one object key are one entry.
use hirame.Prelude.{
  drop, ℕ, Bool, true, false, ◌&&◌, not, [], ◌∷◌, ◌++◌, ◌≡◌, refl, ap, arith, Bytes, ◌==◌, leb,
  if◌then◌else◌,
}
use hirame.Cache.Key.{Entry, decimal, object_key}
use hirame.Cache.Key.Decimal.{all_digits, decimal-digits, decimal-injective}

abbrev pub lacks : ℕ → Bytes → Bool
lacks c [] = true
lacks c (d ∷ s) = not (d == c) && lacks c s

lacks-digits :
    (c : ℕ) (s : Bytes) → (leb 48 c && leb c 57) ≡ false → all_digits s ≡ true → lacks c s ≡ true
lacks-digits c [] h k = refl
lacks-digits c (d ∷ s) h k = ground (arith, lacks-digits c s h)

-- The text before the first `c`, and the text after it.
abbrev before : ℕ → Bytes → Bytes
before c [] = []
before c (d ∷ s) = let rest = before c s in if d == c then [] else d ∷ rest

abbrev after : ℕ → Bytes → Bytes
after c [] = []
after c (d ∷ s) = let rest = after c s in if d == c then s else rest

before-append : (c : ℕ) (s t : Bytes) → lacks c s ≡ true → before c (s ++ c ∷ t) ≡ s
before-append c [] t h = ground arith
before-append c (d ∷ s) t h = ground (arith, before-append c s t)

after-append : (c : ℕ) (s t : Bytes) → lacks c s ≡ true → after c (s ++ c ∷ t) ≡ t
after-append c [] t h = ground arith
after-append c (d ∷ s) t h = ground (arith, after-append c s t)

-- Two texts that are cut at one mark have the same parts.
same_cut :
    (c : ℕ) (a b s t : Bytes)
    → lacks c a ≡ true
    → lacks c b ≡ true
    → (a ++ c ∷ s) ≡ (b ++ c ∷ t)
    → (a ≡ b) × (s ≡ t)
same_cut c a b s t ha hb h =
    let e = ap (before c) h in
    let f = ap (after c) h in
    (
      rw (before-append c a s ha, before-append c b t hb) at e,
      rw (after-append c a s ha, after-append c b t hb) at f,
    )

same_number :
    (c m n : ℕ) (s t : Bytes)
    → (leb 48 c && leb c 57) ≡ false
    → (decimal m ++ c ∷ s) ≡ (decimal n ++ c ∷ t)
    → (m ≡ n) × (s ≡ t)
same_number c m n s t d h =
    let (e, f) =
      same_cut c (decimal m) (decimal n) s t (lacks-digits c _ d (decimal-digits m))
        (lacks-digits c _ d (decimal-digits n)) h in
    (decimal-injective m n e, f)

-- What an object key names of its entry: all but the version's id.
pub record Names (a b : Entry) : Type 0 where
  pub content_hash : a.content_hash ≡ b.content_hash
  pub page : a.page ≡ b.page
  pub width : a.width ≡ b.width
  pub height : a.height ≡ b.height
  pub format : a.format ≡ b.format

-- Two entries whose hashes have no slash, as hexadecimal digits have none, have one object key
-- only if hash, page, size and format are the same.
pub object_key-injective :
    (a b : Entry)
    → lacks 47 a.content_hash ≡ true
    → lacks 47 b.content_hash ≡ true
    → object_key a ≡ object_key b
    → Names a b
unfolding object_key
object_key-injective a b ha hb h =
    let (hash, p) = same_cut 47 a.content_hash b.content_hash _ _ ha hb (ap (drop 11) h) in
    let (page, s) = same_number 47 a.page b.page _ _ refl (ap (drop 1) p) in
    let (width, x) = same_number 120 a.width b.width _ _ refl s in
    let (height, f) = same_number 46 a.height b.height _ _ refl x in
    record { content_hash = hash; page = page; width = width; height = height; format = f }
