-- ===== src/Store/History.antt =====
-- The observations of internal/state/sqlite.go: Append with its pruning, Load and Summarize. A column
-- of nanoseconds is the int64 that time.UnixNano gives.
pub mod Rows
pub mod Pruning
pub mod Times
pub mod Loading
pub mod Restoring
use egressfox.Observation.Summary.{summarize, SummaryError, Summary}
use egressfox.Base.Sort.{sort}
use egressfox.Store.Checkpoints.{CheckpointRow}
use egressfox.Observation.{Observation, new, Params, zero_time}
use egressfox.Base.Bytes.{Bytes, eq_bytes}
use egressfox.Observation.Keys.{Key, ModelError}
use egressfox.Store.{
  ContextState, StoreError, corrupt_row, evaluation_time, history_key, context_code, query_window,
  retention_age, history_begin, query, retention_checkpoints, history_insert, query_scan,
  retention_key, retention_global, history_commit, query_rows, summary,
}
use egressfox.Store.History.Rows.{
  insert_or_ignore, KeyFields, persistence_fields, delete_older, HistoryRow, delete_old_checkpoints,
  fields_equal, delete_beyond, unix_nano, cutoff, time_of, older, row_of,
}
use egressfox.Base.{
  ℕ, ℤ, Bool, List, Result, leb_ℤ, err, Option, ◌>>◌, pos, ok, some, fail_if, ◌&&◌, not, ◌∷◌, none,
  pos_part, ◌%◌, ◌>>=◌, ◌||◌, true, ltb, [], keep_if, ◌+◌, neg_part, ◌-◌,
}

pub record Retention : Type 0 where
  pub max_age : ℤ
  pub max_per_key : ℤ
  pub max_rows : ℤ

-- Retention.valid, which Open asks for.
unfoldable pub retention_valid : Retention → Bool
retention_valid r =
    leb_ℤ (pos 60000000000) r.max_age
    && leb_ℤ r.max_age (pos 31536000000000000)
    && leb_ℤ (pos 1) r.max_per_key
    && leb_ℤ r.max_per_key (pos 10000)
    && leb_ℤ (pos 1) r.max_rows
    && leb_ℤ r.max_rows (pos 1000000)

-- What the calls of Append answer.
pub record AppendCalls : Type 0 where
  pub context : ContextState
  pub begins : Bool
  pub inserts : Bool
  pub prunes_age : Bool
  pub prunes_checkpoints : Bool
  pub prunes_key : Bool
  pub prunes_all : Bool
  pub commits : Bool

pub record Tables : Type 0 where
  pub observations : List HistoryRow
  pub checkpoints : List CheckpointRow

-- The tables that an operation leaves: a failure rolls back.
abbrev pub settled_tables :
    Tables → Result StoreError Tables → Result StoreError (Unit {0}) × Tables
settled_tables tables (err e) = (err e, tables)
settled_tables tables (ok new) = (ok tt, new)

-- prune
unfoldable pub prune : AppendCalls → Retention → KeyFields → ℕ → Tables → Result StoreError Tables
unfolding delete_older delete_old_checkpoints delete_beyond fields_equal cutoff
prune calls retention fields now tables = do
  let aged = delete_older (cutoff retention.max_age now) tables.observations
  let fresh = delete_old_checkpoints (cutoff retention.max_age now) tables.checkpoints
  let keyed =
      delete_beyond (pos_part retention.max_per_key) (λ row. fields_equal row.fields fields) aged
  let all = delete_beyond (pos_part retention.max_rows) (λ row. true) keyed
  fail_if (not calls.prunes_age) (context_code calls.context retention_age)
  fail_if (not calls.prunes_checkpoints) (context_code calls.context retention_checkpoints)
  fail_if (not calls.prunes_key) (context_code calls.context retention_key)
  fail_if (not calls.prunes_all) (context_code calls.context retention_global)
  ok (record { observations = all; checkpoints = fresh })

abbrev pub fields_or_fault : StoreError → Option KeyFields → Result StoreError KeyFields
fields_or_fault fault none = err fault
fields_or_fault fault (some fields) = ok fields

unfoldable pub append_tables :
    AppendCalls → Retention → Observation → ℕ → Tables → Result StoreError Tables
unfolding insert_or_ignore persistence_fields prune
append_tables calls retention value now tables = do
  fail_if (zero_time now) evaluation_time
  fields ← fields_or_fault history_key (persistence_fields value.key)
  fail_if (not calls.begins) (context_code calls.context history_begin)
  fail_if (not calls.inserts) (context_code calls.context history_insert)
  pruned ←
      prune calls retention fields now (record tables {
        observations = insert_or_ignore (row_of fields value) tables.observations;
      })
  fail_if (not calls.commits) (context_code calls.context history_commit)
  ok pruned

-- Append
unfoldable pub append :
    AppendCalls → Retention → Observation → ℕ → Tables → Result StoreError (Unit {0}) × Tables
unfolding append_tables
append calls retention value now tables =
    settled_tables tables (append_tables calls retention value now tables)

-- What the calls of Load answer, with the scan of the row of each sample.
pub record LoadCalls : Type 0 where
  pub context : ContextState
  pub queries : Bool
  pub scans : Bytes → Bool
  pub ends : Bool

abbrev pub params_of : Key → HistoryRow → Params
params_of key row = record {
  key = key;
  started_at = time_of row.started_at;
  completed_at = time_of row.completed_at;
  duration = row.duration;
  outcome = row.outcome % 256;
  status_code = row.status_code;
}

abbrev pub checked_row : Bytes → Result ModelError Observation → Result StoreError Observation
checked_row sample (err e) = err corrupt_row
checked_row sample (ok value) =
    fail_if (not (eq_bytes sample value.sample_id)) corrupt_row >> ok value

-- The loop over the rows.
unfoldable pub restore_rows :
    (Bytes → Bytes) → (Bytes → Bool) → Key → List HistoryRow → Result StoreError (List Observation)
unfolding eq_bytes new
restore_rows sha256 scans key [] = ok []
restore_rows sha256 scans key (row ∷ rows) = do
  let rest = restore_rows sha256 scans key rows
  fail_if (not (scans row.sample_id)) query_scan
  value ← checked_row row.sample_id (new sha256 (params_of key row))
  values ← rest
  ok (value ∷ values)

abbrev pub in_query : KeyFields → ℤ → ℤ → HistoryRow → Bool
in_query fields from through row =
    fields_equal row.fields fields && leb_ℤ from row.completed_at && leb_ℤ row.completed_at through

-- Load
unfoldable pub load :
    (Bytes → Bytes)
    → LoadCalls
    → Key
    → ℕ
    → ℕ
    → List HistoryRow
    → Result StoreError (List Observation)
unfolding persistence_fields fields_equal unix_nano restore_rows older
load sha256 calls key from through rows = do
  fail_if (zero_time from || zero_time through || ltb through from) query_window
  fields ← fields_or_fault history_key (persistence_fields key)
  fail_if (not calls.queries) (context_code calls.context query)
  values ←
      restore_rows sha256 calls.scans key
        (sort older (keep_if (in_query fields (unix_nano from) (unix_nano through)) rows))
  fail_if (not calls.ends) (context_code calls.context query_rows)
  ok values

abbrev pub summarized : Result SummaryError Summary → Result StoreError Summary
summarized (ok value) = ok value
summarized (err fault) = err summary

-- Summarize
unfoldable pub summarize_history :
    (Bytes → Bytes) → LoadCalls → Key → ℕ → ℤ → ℤ → List HistoryRow → Result StoreError Summary
unfolding load summarize
summarize_history sha256 calls key now window freshness rows = do
  values ← load sha256 calls key (now + neg_part window - pos_part window) now rows
  summarized (summarize key values now window freshness)
