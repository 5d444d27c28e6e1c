-- ===== src/Store.antt =====
-- internal/state/sqlite.go: the database of observations and decision checkpoints. A table is the list
-- of its rows, and an SQL statement is a function on it. What the database and the context answer
-- is given beforehand; a transaction that fails leaves the tables as they were.
pub mod Ids
pub mod Checkpoints
pub mod History
pub mod Cache
use egressfox.Observation.{unix_epoch}
use egressfox.Base.{ℕ, if◌then◌else◌, ltb, ◌^◌, ◌+◌, ◌-◌}

pub data StoreError : Type 0 where
  was_cancelled timed_out : StoreError
  decision_state decision_encode decision_stage decision_scope decision_load decision_corrupt :
      StoreError
  commit_begin commit_mismatch commit_replace commit_promote commit_failed : StoreError
  recover_begin recover_replace recover_promote recover_discard recover_commit : StoreError
  evaluation_time history_key history_begin history_insert history_commit : StoreError
  retention_age retention_checkpoints retention_key retention_global : StoreError
  query_window query query_scan corrupt_row query_rows summary : StoreError

-- The state of a context.
pub data ContextState : Type 0 where
  live cancelled expired : ContextState

-- contextCode
abbrev pub context_code : ContextState → StoreError → StoreError
context_code live fallback = fallback
context_code cancelled fallback = was_cancelled
context_code expired fallback = timed_out

-- time.Unix(0, n) of an int64 that is given by its bits.
unfoldable pub unix_time : ℕ → ℕ
unix_time w = if ltb w (2 ^ 63) then unix_epoch + w else unix_epoch + w - 2 ^ 64
