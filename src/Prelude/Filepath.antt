-- ===== src/Prelude/Filepath.antt =====
-- What the code uses of path/filepath and of package strings on file names.
use mathlib.Core.Bool.{◌&&◌, not}
use mathlib.Core.List.{[], ◌∷◌}
use mathlib.Core.Path.{◌≡◌, refl}
use Prim.Native.Nat.{ℕ}
use hirame.Prelude.Tests.{◌==◌, if◌then◌else◌}
use hirame.Prelude.Lists.{length, drop, has}
use hirame.Prelude.Strings.{Bytes, codes, has_prefix}

-- strings.TrimPrefix
unfoldable pub trim_prefix : Bytes → Bytes → Bytes
trim_prefix s prefix = if has_prefix s prefix then drop (length prefix) s else s

-- Every trailing `c` is dropped.
unfoldable pub trim_right : ℕ → Bytes → Bytes
trim_right c [] = []
trim_right c (x ∷ xs) =
    let rest = trim_right c xs in
    elim rest [ [] ↦ if x == c then [] else x ∷ [] | y ∷ ys ↦ x ∷ y ∷ ys ]

-- What follows the last `c`.
unfoldable pub after_last : ℕ → Bytes → Bytes
after_last c [] = []
after_last c (x ∷ xs) =
    let rest = after_last c xs in
    if has (λ y. y == c) (x ∷ xs) then (if has (λ y. y == c) xs then rest else xs) else x ∷ xs

-- path.Base and filepath.Base
unfoldable pub base : Bytes → Bytes
unfolding trim_right after_last
base [] = codes "."
base (c ∷ s) = elim (after_last b'/' (trim_right b'/' (c ∷ s))) [ [] ↦ codes "/" | x ∷ xs ↦ x ∷ xs ]

-- filepath.Ext: from the last dot of the last element, or empty.
unfoldable pub ext : Bytes → Bytes
ext [] = []
ext (c ∷ s) = elim (ext s) [
  | [] ↦ if (c == b'.') && not (has (λ y. y == b'/') s) then c ∷ s else []
  | x ∷ xs ↦ x ∷ xs
]

-- strings.TrimSuffix(s, "/")
unfoldable pub trim_slash : Bytes → Bytes
trim_slash [] = []
trim_slash (c ∷ []) = if c == b'/' then [] else c ∷ []
trim_slash (c ∷ d ∷ s) = c ∷ trim_slash (d ∷ s)

base_runs : base (codes "/docs/a.b/Report.PDF") ≡ codes "Report.PDF"
unfolding base has_prefix
base_runs = refl

base_trailing : base (codes "/docs/") ≡ codes "docs"
unfolding base
base_trailing = refl

ext_runs : ext (codes "Report.tar.PDF") ≡ codes ".PDF"
unfolding ext
ext_runs = refl
