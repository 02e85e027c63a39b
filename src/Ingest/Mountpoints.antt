-- ===== src/Ingest/Mountpoints.antt =====
-- Watched roots (reconciler.go): which of them a path belongs to.
pub mod Deepest
use hirame.Prelude.{
  ℕ, Bool, ◌||◌, List, [], ◌∷◌, ◌++◌, Option, none, some, Bytes, codes, bytes_eq, has_prefix,
  trim_slash, ltb, length, if◌then◌else◌,
}

-- Mountpoint
pub record Mountpoint : Type 0 where
  pub id : ℕ
  pub root : Bytes

-- subtreePrefix
unfoldable pub subtree_prefix : Bytes → Bytes
subtree_prefix dir = trim_slash dir ++ codes "/"

-- path == mp.Root || strings.HasPrefix(path, subtreePrefix(mp.Root))
unfoldable pub contains : Mountpoint → Bytes → Bool
contains mp path = bytes_eq path mp.root || has_prefix path (subtree_prefix mp.root)

-- !found || len(mp.Root) > len(best.Root)
unfoldable pub deeper : Option Mountpoint → Mountpoint → Option Mountpoint
deeper none mp = some mp
deeper (some best) mp = if ltb (length best.root) (length mp.root) then some mp else some best

-- The loop of mountpointFor; `best` is `best, found`.
unfoldable pub deepest : Bytes → Option Mountpoint → List Mountpoint → Option Mountpoint
deepest path best [] = best
deepest path best (mp ∷ mps) = deepest path (if contains mp path then deeper best mp else best) mps

-- mountpointFor
unfoldable pub mountpoint_for : List Mountpoint → Bytes → Option Mountpoint
unfolding deepest contains deeper
mountpoint_for mps path = deepest path none mps
