-- ===== src/Ingest/Tables/Observations.antt =====
-- store/queries/filesystem.sql: the watermark, scan epochs and fs_observations.
use hirame.Prelude.{
  ℕ, ◌+◌, ℤ, max_ℤ, Bool, ◌&&◌, ◌||◌, not, List, [], ◌∷◌, ◌++◌, map, Option, none, some, Bytes,
  ◌==◌, bytes_eq, has_prefix, length, drop, find?, select, reject, update_where, has, distinct,
  if◌then◌else◌,
}
use hirame.Ingest.Types.{Observation, unique_violation}
use hirame.Ingest.Tx.{Result, ok, err}
use hirame.Ingest.Rows.{Db, Env, observed_at, observed_under, same_key}

-- SetWatermark
unfoldable pub set_watermark : ℤ → Db → Result (Unit {0}) × Db
set_watermark seq s = (ok tt, record s { watermark = max_ℤ s.watermark seq })

-- NextScanEpoch
unfoldable pub next_scan_epoch : Db → Result ℕ × Db
next_scan_epoch s = (ok (s.scan_epoch + 1), record s { scan_epoch = s.scan_epoch + 1 })

-- GetObservation
unfoldable pub get_observation : ℕ → Bytes → Db → Result (Option Observation) × Db
get_observation mountpoint_id path s =
    (ok (find? (observed_at mountpoint_id path) s.observations), s)

-- UpsertObservation: INSERT … ON CONFLICT (mountpoint_id, path) DO UPDATE.
unfoldable pub upsert_row : Observation → List Observation → List Observation
upsert_row o rows =
    if has (same_key o) rows then update_where (same_key o) (λ _. o) rows else rows ++ o ∷ []

-- What the row holds of an observation: the mtime as the column keeps it.
unfoldable pub stored : Env → Observation → Observation
stored env o = record o { mtime = elim o.mtime [ none ↦ none | some t ↦ some (env.column_time t) ] }

unfoldable pub upsert_observation : Env → Observation → Db → Result (Unit {0}) × Db
unfolding upsert_row stored
upsert_observation env o s =
    (ok tt, record s { observations = upsert_row (stored env o) s.observations })

-- DeleteObservation
unfoldable pub delete_observation : ℕ → Bytes → Db → Result (Unit {0}) × Db
delete_observation mountpoint_id path s =
    (ok tt, record s { observations = reject (observed_at mountpoint_id path) s.observations })

-- DeleteObservationSubtree; its rows are dropped by the caller.
unfoldable pub delete_observation_subtree : ℕ → Bytes → Db → Result (Unit {0}) × Db
delete_observation_subtree mountpoint_id prefix s =
    (ok tt, record s { observations = reject (observed_under mountpoint_id prefix) s.observations })

-- @new_prefix || substr(path, length(@old_prefix) + 1)
unfoldable pub repath : Bytes → Bytes → Bytes → Bytes
repath old_prefix new_prefix path = new_prefix ++ drop (length old_prefix) path

-- MoveObservationSubtree, which the primary key may refuse. The key is tested on the table that
-- the statement leaves.
unfoldable pub move_observation_subtree : ℕ → Bytes → Bytes → Db → Result (Unit {0}) × Db
unfolding repath
move_observation_subtree mountpoint_id old_prefix new_prefix s =
    let rows =
      update_where (observed_under mountpoint_id old_prefix)
        (λ o. record o { path = repath old_prefix new_prefix o.path }) s.observations in
    if distinct same_key rows
    then (ok tt, record s { observations = rows })
    else (err unique_violation, s)

-- The rows of SweepScanEpoch: at or under a root, with another epoch than the current one.
abbrev pub unseen : ℕ → Bytes → Bytes → ℕ → Observation → Bool
unseen mountpoint_id root root_prefix epoch o =
    (o.mountpoint_id == mountpoint_id)
    && ((bytes_eq o.path root || has_prefix o.path root_prefix) && not (o.seen_epoch == epoch))

-- SweepScanEpoch
unfoldable pub sweep_scan_epoch : ℕ → Bytes → Bytes → ℕ → Db → Result (List Bytes) × Db
sweep_scan_epoch mountpoint_id root root_prefix epoch s =
    let gone = unseen mountpoint_id root root_prefix epoch in
    (
      ok (map (λ o. o.path) (select gone s.observations)),
      record s { observations = reject gone s.observations },
    )
