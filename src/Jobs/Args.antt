-- ===== src/Jobs/Args.antt =====
-- The jobs, and the options with which each is inserted (jobs.go).
use hirame.Prelude.{ℕ, Bool, true, false, List, [], ◌∷◌, Bytes}

-- The two values of IngestPathArgs.Trigger.
pub data Trigger : Type 0 where
  debounced settled : Trigger

-- IngestPathArgs, ExtractArgs, InvalidateThumbnailsArgs, EvictionMaintenanceArgs, CacheSweepArgs.
pub data JobArgs : Type 0 where
  ingest_path : ℕ → Bytes → Trigger → JobArgs
  extract : ℕ → JobArgs
  invalidate_thumbnails : ℕ → ℕ → JobArgs
  eviction_maintenance : JobArgs
  cache_sweep : JobArgs

pub data Queue : Type 0 where
  queue_default queue_extract : Queue

-- The states of rivertype.JobState.
pub data JobState : Type 0 where
  available cancelled completed discarded pending retryable running scheduled : JobState

-- river.InsertOpts, as far as the InsertOpts methods fill it in.
pub record InsertOpts : Type 0 where
  pub queue : Queue
  pub max_attempts : ℕ
  pub by_args : Bool
  pub by_state : List JobState

-- stillOutstanding
abbrev pub still_outstanding : List JobState
still_outstanding = available ∷ pending ∷ retryable ∷ running ∷ scheduled ∷ []

-- The InsertOpts methods of the five argument types.
unfoldable pub insert_opts : JobArgs → InsertOpts
insert_opts (ingest_path mountpoint_id path trigger) = record {
  queue = queue_default;
  max_attempts = 5;
  by_args = true;
  by_state = still_outstanding;
}
insert_opts (extract content_version_id) = record {
  queue = queue_extract;
  max_attempts = 5;
  by_args = true;
  by_state = still_outstanding;
}
insert_opts (invalidate_thumbnails document_id superseded) = record {
  queue = queue_default;
  max_attempts = 10;
  by_args = true;
  by_state = still_outstanding;
}
insert_opts eviction_maintenance = record {
  queue = queue_default;
  max_attempts = 3;
  by_args = false;
  by_state = still_outstanding;
}
insert_opts cache_sweep = record {
  queue = queue_default;
  max_attempts = 3;
  by_args = false;
  by_state = still_outstanding;
}
