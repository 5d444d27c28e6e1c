-- ===== src/Store/Checkpoints.antt =====
-- The decision checkpoints of internal/state/sqlite.go: StageDecision, CommitDecision, RecoverDecision
-- and the payload that they store. JSON is the interface `Json`.
pub mod Payload
pub mod Decoding
pub mod Rows
pub mod Refinement
pub mod Simulation
pub mod Trace
pub mod Roundtrip
pub mod Restoring
pub mod Crash
use egressfox.Observation.{zero_time, unix_nano_word}
use egressfox.Endpoint.{is_empty}
use egressfox.Selection.{state_valid, safe_scope, State}
use egressfox.Artifact.Receipts.{Encoding}
use egressfox.Store.Checkpoints.Payload.{Json, Stored, encode_checkpoint}
use egressfox.Store.Checkpoints.Decoding.{DecodeError, decode_checkpoint}
use egressfox.Store.{
  ContextState, StoreError, decision_corrupt, context_code, decision_encode, decision_scope,
  decision_load, commit_begin, recover_begin, decision_state, commit_mismatch, decision_stage,
  commit_replace, recover_commit, commit_promote, commit_failed, recover_replace, recover_promote,
  recover_discard,
}
use egressfox.Base.Bytes.{Bytes, eq_bytes}
use egressfox.Base.{
  ℕ, List, Bool, Option, ◌∷◌, Result, ◌&&◌, none, not, ◌==◌, false, err, ok, fail_if, ◌>>◌, some,
  ◌||◌, ltb, length, ◌>>=◌, if◌then◌else◌, [],
}

abbrev pub slot_committed : ℕ
slot_committed = 0

abbrev pub slot_pending : ℕ
slot_pending = 1

-- A row of selection_checkpoints.
pub record CheckpointRow : Type 0 where
  pub scope : Bytes
  pub slot : ℕ
  pub payload : Bytes
  pub updated_at : ℕ

-- What the calls of an operation answer.
pub record Calls : Type 0 where
  pub context : ContextState
  pub begins : Bool
  pub first_query : Bool
  pub deletes : Bool
  pub promotes : Bool
  pub second_query : Bool
  pub commits : Bool

abbrev pub at_slot : Bytes → ℕ → CheckpointRow → Bool
at_slot scope slot row = eq_bytes row.scope scope && row.slot == slot

-- SELECT payload … WHERE scope_id=? AND slot=?
unfoldable pub payload_at : Bytes → ℕ → List CheckpointRow → Option Bytes
unfolding eq_bytes
payload_at scope slot [] = none
payload_at scope slot (row ∷ rows) =
    if at_slot scope slot row then some row.payload else payload_at scope slot rows

-- DELETE … WHERE scope_id=? AND slot=?
unfoldable pub delete_slot : Bytes → ℕ → List CheckpointRow → List CheckpointRow
unfolding eq_bytes
delete_slot scope slot [] = []
delete_slot scope slot (row ∷ rows) =
    let rest = delete_slot scope slot rows in if at_slot scope slot row then rest else row ∷ rest

-- UPDATE … SET slot=0 WHERE scope_id=? AND slot=1
unfoldable pub promote : Bytes → List CheckpointRow → List CheckpointRow
unfolding eq_bytes
promote scope [] = []
promote scope (row ∷ rows) =
    (if at_slot scope slot_pending row then record row { slot = slot_committed } else row)
    ∷ promote scope rows

-- INSERT … ON CONFLICT(scope_id, slot) DO UPDATE
unfoldable pub upsert : CheckpointRow → List CheckpointRow → List CheckpointRow
unfolding delete_slot
upsert row rows = row ∷ delete_slot row.scope row.slot rows

-- Receipt.Equal
unfoldable pub receipt_equal : Bytes → Bytes → Bool
unfolding eq_bytes
receipt_equal a b = not (is_empty a) && eq_bytes a b

abbrev pub holds_receipt : Bytes → Option Stored → Bool
holds_receipt current none = false
holds_receipt current (some stored) = receipt_equal stored.receipt current

-- The rows that an operation leaves: a failure rolls back.
abbrev pub settled :
    {A : Type 0}
    → List CheckpointRow
    → Result StoreError (A × List CheckpointRow)
    → Result StoreError A × List CheckpointRow
settled rows (err e) = (err e, rows)
settled rows (ok (a, new)) = (ok a, new)

module _ (json : Json) (encoding : Encoding) where
  abbrev pub decoded : Result DecodeError Stored → Result StoreError (Option Stored)
  decoded (err e) = err decision_corrupt
  decoded (ok stored) = ok (some stored)

  abbrev pub loaded : Option Bytes → Result StoreError (Option Stored)
  loaded none = ok none
  loaded (some payload) = decoded (decode_checkpoint json encoding payload)

  -- loadCheckpoint
  unfoldable pub load_checkpoint :
      ContextState → Bool → Bytes → ℕ → List CheckpointRow → Result StoreError (Option Stored)
  unfolding payload_at
  load_checkpoint context works scope slot rows =
      fail_if (not works) (context_code context decision_load)
      >> loaded (payload_at scope slot rows)

  abbrev pub encoded_or_fault : Option Bytes → Result StoreError Bytes
  encoded_or_fault none = err decision_encode
  encoded_or_fault (some payload) =
      fail_if (ltb 4194304 (length payload)) decision_encode >> ok payload

  -- StageDecision; the database refuses an empty payload.
  unfoldable pub stage_rows :
      Calls
      → State
      → Bytes
      → ℕ
      → List CheckpointRow
      → Result StoreError (Unit {0} × List CheckpointRow)
  unfolding upsert state_valid encode_checkpoint
  stage_rows calls value receipt now rows = do
    fail_if (not (state_valid value) || zero_time now) decision_state
    payload ← encoded_or_fault (encode_checkpoint json value receipt)
    fail_if (not calls.deletes || is_empty payload) (context_code calls.context decision_stage)
    ok (
      tt,
      upsert
          (record {
            scope = value.scope;
            slot = slot_pending;
            payload = payload;
            updated_at = unix_nano_word now;
          })
          rows,
    )

  unfoldable pub stage_decision :
      Calls
      → State
      → Bytes
      → ℕ
      → List CheckpointRow
      → Result StoreError (Unit {0}) × List CheckpointRow
  unfolding stage_rows
  stage_decision calls value receipt now rows =
      settled rows (stage_rows calls value receipt now rows)

  abbrev pub is_published : Bytes → Result StoreError (Option Stored) → Bool
  is_published current (err e) = false
  is_published current (ok found) = holds_receipt current found

  -- CommitDecision
  unfoldable pub commit_rows :
      Calls → Bytes → Bytes → List CheckpointRow → Result StoreError (Unit {0} × List CheckpointRow)
  unfolding load_checkpoint delete_slot promote receipt_equal
  commit_rows calls scope current rows = do
    fail_if (not calls.begins) (context_code calls.context commit_begin)
    fail_if
        (not (
          is_published current
            (load_checkpoint calls.context calls.first_query scope slot_pending rows)))
        commit_mismatch
    fail_if (not calls.deletes) (context_code calls.context commit_replace)
    fail_if (not calls.promotes) (context_code calls.context commit_promote)
    fail_if (not calls.commits) (context_code calls.context commit_failed)
    ok (tt, promote scope (delete_slot scope slot_committed rows))

  unfoldable pub commit_decision :
      Calls → Bytes → Bytes → List CheckpointRow → Result StoreError (Unit {0}) × List CheckpointRow
  unfolding commit_rows
  commit_decision calls scope current rows = settled rows (commit_rows calls scope current rows)

  -- The current receipt, or none where nothing is published.
  abbrev pub matches_current : Option Bytes → Option Stored → Bool
  matches_current none found = false
  matches_current (some current) found = holds_receipt current found

  -- A pending checkpoint is promoted or discarded.
  abbrev pub resolve :
      Calls
      → Bytes
      → Option Bytes
      → Option Stored
      → List CheckpointRow
      → Result StoreError (List CheckpointRow)
  resolve calls scope current none rows = ok rows
  resolve calls scope current (some pending) rows =
      if matches_current current (some pending)
      then (fail_if (not calls.deletes) recover_replace
          >> fail_if (not calls.promotes) recover_promote
          >> ok (promote scope (delete_slot scope slot_committed rows)))
      else (fail_if (not calls.deletes) recover_discard >> ok (delete_slot scope slot_pending rows))

  abbrev pub recovered : Option Bytes → Option Stored → Option State
  recovered current none = none
  recovered current (some stored) =
      if matches_current current (some stored) then some stored.state else none

  -- RecoverDecision
  unfoldable pub recover_rows :
      Calls
      → Bytes
      → Option Bytes
      → List CheckpointRow
      → Result StoreError (Option State × List CheckpointRow)
  unfolding load_checkpoint delete_slot promote receipt_equal safe_scope
  recover_rows calls scope current rows = do
    fail_if (not (safe_scope scope)) decision_scope
    fail_if (not calls.begins) (context_code calls.context recover_begin)
    pending ← load_checkpoint calls.context calls.first_query scope slot_pending rows
    resolved ← resolve calls scope current pending rows
    committed ← load_checkpoint calls.context calls.second_query scope slot_committed resolved
    fail_if (not calls.commits) (context_code calls.context recover_commit)
    ok (recovered current committed, resolved)

  unfoldable pub recover_decision :
      Calls
      → Bytes
      → Option Bytes
      → List CheckpointRow
      → Result StoreError (Option State) × List CheckpointRow
  unfolding recover_rows
  recover_decision calls scope current rows = settled rows (recover_rows calls scope current rows)
