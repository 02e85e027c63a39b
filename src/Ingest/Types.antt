-- ===== src/Ingest/Types.antt =====
-- The values of apps/search-api/internal/ingest/store.go. Int64 columns that the code compares
-- only for equality are natural numbers: their bit patterns.
use hirame.Prelude.{ℕ, Bool, Option, Bytes}

-- Observation: `mtime` counts nanoseconds, and `none` is the zero time.Time.
pub record Observation : Type 0 where
  pub mountpoint_id : ℕ
  pub path : Bytes
  pub size : ℕ
  pub mode : ℕ
  pub mtime : Option ℕ
  pub ino : ℕ
  pub dev : ℕ
  pub is_dir : Bool
  pub seen_epoch : ℕ

-- Document: `current_content_version_id` is 0 when there is none.
pub record Document : Type 0 where
  pub id : ℕ
  pub mountpoint_id : ℕ
  pub path : Bytes
  pub dev : ℕ
  pub ino : ℕ
  pub current_content_version_id : ℕ

pub data Trigger : Type 0 where
  trigger_debounced trigger_settled : Trigger

-- What a failed call reports: a statement or a file read of the environment, a uniqueness
-- constraint, a `:one` statement without a row, ErrNotBound, a lost compare-and-swap, an exhausted
-- retry.
pub data Error : Type 0 where
  fault unique_violation no_rows not_bound version_raced document_changed : Error
