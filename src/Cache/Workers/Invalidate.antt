-- ===== src/Cache/Workers/Invalidate.antt =====
-- InvalidateThumbnailsWorker: a superseded version's thumbnails are no longer served.
use hirame.Prelude.{ℕ, Bool, ◌&&◌, ◌==◌, ◌≡◌, refl, ◌⊎◌}
use hirame.Ingest.Tx.{Conn}
use hirame.Cache.Tables
use hirame.Cache.Tables.{Cache, Thumb, is_stale}
use hirame.Cache.Workers.{invalidate_thumbnails}
use hirame.Cache.Runs.{After}
use hirame.Cache.Drain.{HasIds}
use hirame.Cache.Workers.Withdraw.{Without, withdraw-drain-Leaves}

-- The rows of a version that no live document shows.
abbrev pub superseded : ℕ → Cache → Thumb → Bool
superseded version s t = (t.content_version_id == version) && is_stale s t

-- The invalidation job returns nil and leaves, of the live rows, all but those of the superseded
-- version that no live document shows; or it fails, and has either done the same or changed
-- nothing. Rows have distinct ids.
pub invalidate_thumbnails-Without :
    (fuel version : ℕ) (c : Conn Cache)
    → HasIds c.state
    → After
        (λ _. Without (superseded version c.state) c.state)
        (λ s. (s ≡ c.state) ⊎ Without (superseded version c.state) c.state s)
        (invalidate_thumbnails fuel version c)
unfolding invalidate_thumbnails Tables.mark_stale_version
invalidate_thumbnails-Without fuel version c ids =
    let l =
      withdraw-drain-Leaves (superseded version c.state) (Tables.mark_stale_version version) fuel
        c.state refl ids in
    l.at c refl
