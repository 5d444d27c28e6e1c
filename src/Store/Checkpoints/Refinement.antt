-- ===== src/Store/Checkpoints/Refinement.antt =====
-- The abstract view of the checkpoints of internal/state/sqlite.go: two slots for each scope, and the
-- changes that an operation may make to those of its own scope.
use egressfox.Store.Checkpoints.Rows.{payload_at-delete_slot, payload_at-promote, payload_at-upsert}
use egressfox.Store.Checkpoints.{
  CheckpointRow, payload_at, Stored, stage_decision, promote, delete_slot, slot_committed,
  decode_checkpoint, commit_decision, slot_pending, encode_checkpoint, recover_decision, upsert,
  receipt_equal, Calls,
}
use egressfox.Artifact.Receipts.{Encoding}
use egressfox.Store.Checkpoints.Payload.{Json}
use egressfox.Selection.{State, state_valid}
use egressfox.Base.Bytes.{Bytes, eq_bytes}
use egressfox.Base.{
  ℕ, Option, List, some, none, ◌≡◌, Bool-cases, true, arith, if◌then◌else◌, ok, inl, inr,
}

pub record Slots : Type 0 where
  pub committed : Option Bytes
  pub pending : Option Bytes

abbrev pub slots_of : List CheckpointRow → Bytes → Slots
slots_of rows scope = record {
  committed = payload_at scope slot_committed rows;
  pending = payload_at scope slot_pending rows;
}

pub data Change : Type 0 where
  stay : Change
  put_pending : Bytes → Change
  take_over : Change
  discard : Change

abbrev pub changed : Change → Slots → Slots
changed stay slots = slots
changed (put_pending payload) slots = record { committed = slots.committed; pending = some payload }
changed take_over slots = record { committed = slots.pending; pending = none }
changed discard slots = record { committed = slots.committed; pending = none }

pub data Operation : Type 0 where
  stage : State → Bytes → ℕ → Operation
  commit : Bytes → Bytes → Operation
  recover : Bytes → Option Bytes → Operation

abbrev pub scope_of : Operation → Bytes
scope_of (stage value receipt now) = value.scope
scope_of (commit scope current) = scope
scope_of (recover scope current) = scope

-- The receipt that the caller found published.
abbrev pub published_by : Operation → Option Bytes
published_by (stage value receipt now) = none
published_by (commit scope current) = some current
published_by (recover scope current) = current

module _ (json : Json) (encoding : Encoding) where
  -- The pending payload decodes to a checkpoint with the published receipt.
  abbrev pub IsCurrent : Option Bytes → Option Bytes → Type 0
  IsCurrent none pending = ⊥
  IsCurrent (some current) none = ⊥
  IsCurrent (some current) (some payload) =
      (stored : Stored) × (decode_checkpoint json encoding payload ≡ ok stored)
      × (receipt_equal stored.receipt current ≡ true)

  abbrev pub Allowed : Operation → Slots → Change → Type 0
  Allowed op slots stay = Unit {0}
  Allowed (stage value receipt now) slots (put_pending payload) =
      (state_valid value ≡ true) × (encode_checkpoint json value receipt ≡ some payload)
  Allowed (commit scope current) slots (put_pending payload) = ⊥
  Allowed (recover scope current) slots (put_pending payload) = ⊥
  Allowed op slots take_over = IsCurrent (published_by op) slots.pending
  Allowed (stage value receipt now) slots discard = ⊥
  Allowed (commit scope current) slots discard = ⊥
  Allowed (recover scope current) slots discard = ¬ IsCurrent current slots.pending

  unfoldable pub run : Calls → Operation → List CheckpointRow → List CheckpointRow
  unfolding stage_decision commit_decision recover_decision
  run calls (stage value receipt now) rows =
      (stage_decision json encoding calls value receipt now rows).1
  run calls (commit scope current) rows = (commit_decision json encoding calls scope current rows).1
  run calls (recover scope current) rows =
      (recover_decision json encoding calls scope current rows).1

  abbrev pub Refines : Operation → List CheckpointRow → List CheckpointRow → Type 0
  Refines op rows new =
      (change : Change) × Allowed op (slots_of rows (scope_of op)) change
      × ((scope : Bytes)
          → slots_of new scope ≡ (
              if eq_bytes (scope_of op) scope
              then changed change (slots_of rows scope)
              else slots_of rows scope))

  pub stays : (op : Operation) (rows : List CheckpointRow) → Refines op rows rows
  stays op rows = (
    stay,
    tt,
    λ scope. elim (Bool-cases (eq_bytes (scope_of op) scope)) [ inl e ↦ rw e | inr e ↦ rw e ],
  )

  Slots-ext : (a b : Slots) → a.committed ≡ b.committed → a.pending ≡ b.pending → a ≡ b
  Slots-ext a b h k = ground (arith, h, k)

  pub upserted :
      (op : Operation) (row : CheckpointRow) (rows : List CheckpointRow)
      → row.scope ≡ scope_of op
      → row.slot ≡ slot_pending
      → (scope : Bytes)
      → slots_of (upsert row rows) scope ≡ (
          if eq_bytes (scope_of op) scope
          then changed (put_pending row.payload) (slots_of rows scope)
          else slots_of rows scope)
  upserted op row rows same pending scope = ground (
    arith,
    payload_at-upsert scope slot_committed row rows,
    payload_at-upsert scope slot_pending row rows,
    same,
    pending,
  )

  pub promoted :
      (own : Bytes) (rows : List CheckpointRow) (scope : Bytes)
      → slots_of (promote own (delete_slot own slot_committed rows)) scope ≡ (
          if eq_bytes own scope
          then changed take_over (slots_of rows scope)
          else slots_of rows scope)
  promoted own rows scope = ground (
    arith,
    payload_at-promote scope own slot_committed rows,
    payload_at-promote scope own slot_pending rows,
  )

  pub discarded :
      (own : Bytes) (rows : List CheckpointRow) (scope : Bytes)
      → slots_of (delete_slot own slot_pending rows) scope ≡ (
          if eq_bytes own scope then changed discard (slots_of rows scope) else slots_of rows scope)
  discarded own rows scope = ground (
    arith,
    payload_at-delete_slot scope own slot_committed slot_pending rows,
    payload_at-delete_slot scope own slot_pending slot_pending rows,
  )
