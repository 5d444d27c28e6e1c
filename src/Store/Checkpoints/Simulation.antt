-- ===== src/Store/Checkpoints/Simulation.antt =====
-- Every operation on checkpoints of internal/state/sqlite.go is an allowed change of the two slots
-- of its scope.
use egressfox.Store.Checkpoints.Refinement.{
  Operation, Refines, stage, stays, commit, IsCurrent, put_pending, upserted, take_over, promoted,
  run, recover, discard, discarded,
}
use egressfox.Artifact.Receipts.{Encoding}
use egressfox.Store.Checkpoints.{
  CheckpointRow, stage_decision, StoreError, Calls, settled, State, Bytes, stage_rows,
  load_checkpoint, commit_decision, encoded_or_fault, ContextState, commit_rows, state_valid,
  Stored, slot_pending, zero_time, holds_receipt, matches_current, context_code, decision_state,
  commit_begin, encode_checkpoint, is_published, is_empty, payload_at, commit_mismatch,
  decision_stage, commit_replace, unix_nano_word, commit_promote, upsert, decode_checkpoint,
  commit_failed, promote, delete_slot, slot_committed, resolve, recover_decision, recover_rows,
  recover_discard, safe_scope, decision_scope, recover_begin, recover_commit, receipt_equal,
}
use egressfox.Store.Checkpoints.Payload.{Json}
use egressfox.Base.{
  ℕ, List, Result, ◌≡◌, ◌⊎◌, subst, ok, err, inl, inr, sym, refl, >>-eq-ok, >>=-eq-ok, Option, not,
  some, Bool, arith, ◌||◌, none, true, false, Option-cases, Result-cases, Bool-cases,
}

settled-cases :
    {A : Type 0} (rows : List CheckpointRow) (r : Result StoreError (A × List CheckpointRow))
    → ((settled rows r).1 ≡ rows)
      ⊎ ((a : A) × (new : List CheckpointRow) × (r ≡ ok (a, new)) × ((settled rows r).1 ≡ new))
settled-cases rows (err e) = inl refl
settled-cases rows (ok (a, new)) = inr (a, new, refl, refl)

module _ (json : Json) (encoding : Encoding) where
  move :
      (op : Operation) (rows new last : List CheckpointRow)
      → new ≡ last
      → Refines json encoding op rows new
      → Refines json encoding op rows last
  move op rows new last e h = subst (Refines json encoding op rows) e h

  refined :
      {A : Type 0} (op : Operation) (rows : List CheckpointRow)
      (r : Result StoreError (A × List CheckpointRow))
      → ((a : A) (new : List CheckpointRow) → r ≡ ok (a, new) → Refines json encoding op rows new)
      → Refines json encoding op rows (settled rows r).1
  refined op rows r each = elim (settled-cases rows r) [
    | inl same ↦ subst (Refines json encoding op rows) (sym same) (stays json encoding op rows)
    | inr (a, new, h, e) ↦ subst (Refines json encoding op rows) (sym e) (each a new h)
  ]

  encoded_or_fault-ok :
      (o : Option Bytes) (payload : Bytes)
      → encoded_or_fault json encoding o ≡ ok payload
      → o ≡ some payload
  encoded_or_fault-ok none payload h = cc
  encoded_or_fault-ok (some encoded) payload h = ground arith

  stage_decision-Refines :
      (calls : Calls) (value : State) (receipt : Bytes) (now : ℕ) (rows : List CheckpointRow)
      → Refines json encoding
          (stage value receipt now)
          rows
          (stage_decision json encoding calls value receipt now rows).1
  unfolding stage_decision stage_rows
  stage_decision-Refines calls value receipt now rows =
      refined (stage value receipt now) rows (stage_rows json encoding calls value receipt now rows)
        λ done new h.
          let (valid, h1) =
            >>-eq-ok (not (state_valid value) || zero_time now) decision_state _ h in
          let (payload, encoded, h2) =
            >>=-eq-ok (encoded_or_fault json encoding (encode_checkpoint json value receipt)) _
              h1 in
          let (works, h3) =
            >>-eq-ok (not calls.deletes || is_empty payload)
              (context_code calls.context decision_stage) _ h2 in
          let row : CheckpointRow = record {
            scope = value.scope;
            slot = slot_pending;
            payload = payload;
            updated_at = unix_nano_word now;
          } in
          let last : upsert row rows ≡ new = ground arith in
          subst (Refines json encoding (stage value receipt now) rows) last (
            put_pending payload,
            (
              ground arith,
              encoded_or_fault-ok (encode_checkpoint json value receipt) payload encoded,
            ),
            upserted json encoding (stage value receipt now) row rows refl refl,
          )

  -- The query of a slot, when its checkpoint has the published receipt.
  load-IsCurrent :
      (context : ContextState) (works : Bool) (scope : Bytes) (current : Bytes)
      (rows : List CheckpointRow) (found : Option Stored)
      → load_checkpoint json encoding context works scope slot_pending rows ≡ ok found
      → holds_receipt current found ≡ true
      → IsCurrent json encoding (some current) (payload_at scope slot_pending rows)
  unfolding load_checkpoint
  load-IsCurrent context works scope current rows found h e =
      elim (Option-cases (payload_at scope slot_pending rows)) [
        | inl absent ↦ absurd (ground arith)
        | inr (payload, present) ↦ elim (Result-cases (decode_checkpoint json encoding payload)) [
          | inr (fault, broken) ↦ absurd (ground arith)
          | inl (stored, whole) ↦ rw present (stored, whole, ground arith)
        ]
      ]

  -- And when it has not.
  load-not-IsCurrent :
      (context : ContextState) (works : Bool) (scope : Bytes) (current : Option Bytes)
      (rows : List CheckpointRow) (found : Option Stored)
      → load_checkpoint json encoding context works scope slot_pending rows ≡ ok found
      → matches_current json encoding current found ≡ false
      → ¬ IsCurrent json encoding current (payload_at scope slot_pending rows)
  unfolding load_checkpoint
  load-not-IsCurrent context works scope none rows found h e is = is
  load-not-IsCurrent context works scope (some current) rows found h e is =
      elim (Option-cases (payload_at scope slot_pending rows)) [
        | inl absent ↦ subst (IsCurrent json encoding (some current)) absent is
        | inr (payload, present) ↦
            let (stored, whole, same) = subst (IsCurrent json encoding (some current)) present is in
            ground (arith, present, whole, same)
      ]

  commit_decision-Refines :
      (calls : Calls) (scope current : Bytes) (rows : List CheckpointRow)
      → Refines json encoding
          (commit scope current)
          rows
          (commit_decision json encoding calls scope current rows).1
  unfolding commit_decision commit_rows
  commit_decision-Refines calls scope current rows =
      refined (commit scope current) rows (commit_rows json encoding calls scope current rows)
        λ done new h.
          let query =
            load_checkpoint json encoding calls.context calls.first_query scope slot_pending rows in
          let (begun, h1) =
            >>-eq-ok (not calls.begins) (context_code calls.context commit_begin) _ h in
          let (published, h2) =
            >>-eq-ok (not (is_published json encoding current query)) commit_mismatch _ h1 in
          let (deleted, h3) =
            >>-eq-ok (not calls.deletes) (context_code calls.context commit_replace) _ h2 in
          let (taken, h4) =
            >>-eq-ok (not calls.promotes) (context_code calls.context commit_promote) _ h3 in
          let (kept, h5) =
            >>-eq-ok (not calls.commits) (context_code calls.context commit_failed) _ h4 in
          let last : promote scope (delete_slot scope slot_committed rows) ≡ new = ground arith in
          let current_one : IsCurrent json encoding (some current)
              (payload_at scope slot_pending rows) =
            elim (Result-cases query) [
              | inr (fault, broken) ↦ absurd (ground arith)
              | inl (found, whole) ↦
                  load-IsCurrent calls.context calls.first_query scope current rows found whole
                    (ground arith)
            ] in
          subst (Refines json encoding (commit scope current) rows) last
            (take_over, current_one, promoted json encoding scope rows)

  resolve-Refines :
      (calls : Calls) (scope : Bytes) (current : Option Bytes) (rows new : List CheckpointRow)
      (found : Option Stored)
      → load_checkpoint json encoding calls.context calls.first_query scope slot_pending rows
        ≡ ok found
      → resolve json encoding calls scope current found rows ≡ ok new
      → Refines json encoding (recover scope current) rows new
  resolve-Refines calls scope current rows new none loaded h =
      let same : rows ≡ new = ground arith in
      subst (Refines json encoding (recover scope current) rows) same
        (stays json encoding (recover scope current) rows)
  resolve-Refines calls scope none rows new (some pending) loaded h =
      let (deleted, h1) = >>-eq-ok (not calls.deletes) recover_discard _ h in
      let last : delete_slot scope slot_pending rows ≡ new = ground arith in
      subst (Refines json encoding (recover scope none) rows) last
        (discard, (λ is. is), discarded json encoding scope rows)
  resolve-Refines calls scope (some current) rows new (some pending) loaded h =
      elim (Bool-cases (receipt_equal pending.receipt current)) [
        | inl e ↦
            let last : promote scope (delete_slot scope slot_committed rows) ≡ new = ground arith in
            subst (Refines json encoding (recover scope (some current)) rows) last (
              take_over,
              load-IsCurrent calls.context calls.first_query scope current rows (some pending)
                  loaded e,
              promoted json encoding scope rows,
            )
        | inr e ↦
            let last : delete_slot scope slot_pending rows ≡ new = ground arith in
            subst (Refines json encoding (recover scope (some current)) rows) last (
              discard,
              load-not-IsCurrent calls.context calls.first_query scope (some current) rows
                  (some pending) loaded e,
              discarded json encoding scope rows,
            )
      ]

  recover_decision-Refines :
      (calls : Calls) (scope : Bytes) (current : Option Bytes) (rows : List CheckpointRow)
      → Refines json encoding
          (recover scope current)
          rows
          (recover_decision json encoding calls scope current rows).1
  unfolding recover_decision recover_rows
  recover_decision-Refines calls scope current rows =
      refined (recover scope current) rows (recover_rows json encoding calls scope current rows)
        λ value new h.
          let (safe, h1) = >>-eq-ok (not (safe_scope scope)) decision_scope _ h in
          let (begun, h2) =
            >>-eq-ok (not calls.begins) (context_code calls.context recover_begin) _ h1 in
          let (pending, loaded, h3) =
            >>=-eq-ok
              (load_checkpoint json encoding calls.context calls.first_query scope slot_pending
                rows)
              _ h2 in
          let (resolved, settled, h4) =
            >>=-eq-ok (resolve json encoding calls scope current pending rows) _ h3 in
          let (committed, found, h5) =
            >>=-eq-ok
              (load_checkpoint json encoding calls.context calls.second_query scope slot_committed
                resolved)
              _ h4 in
          let (kept, h6) =
            >>-eq-ok (not calls.commits) (context_code calls.context recover_commit) _ h5 in
          let last : resolved ≡ new = ground arith in
          subst (Refines json encoding (recover scope current) rows) last
            (resolve-Refines calls scope current rows resolved pending loaded settled)

  -- Whatever the database answers, each of StageDecision, CommitDecision and RecoverDecision changes
  -- only the two slots of its own scope, and those only by one allowed change: a stage puts the
  -- encoding of a valid state into the pending slot; a commit or a recovery moves the pending
  -- payload to the committed slot when it decodes to a checkpoint with the published receipt; and a
  -- recovery drops the pending payload when it does not.
  pub run-Refines :
      (calls : Calls) (op : Operation) (rows : List CheckpointRow)
      → Refines json encoding op rows (run json encoding calls op rows)
  unfolding run
  run-Refines calls (stage value receipt now) rows =
      stage_decision-Refines calls value receipt now rows
  run-Refines calls (commit scope current) rows = commit_decision-Refines calls scope current rows
  run-Refines calls (recover scope current) rows = recover_decision-Refines calls scope current rows
