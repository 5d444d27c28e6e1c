-- ===== src/Store/Checkpoints/Crash.antt =====
-- A crash between StageDecision and CommitDecision of internal/state/sqlite.go, and the recovery
-- after it.
use egressfox.Base.Bytes.{eq_bytes_refl}
use egressfox.Store.Checkpoints.Rows.{payload_at-upsert, payload_at-promote, payload_at-delete_slot}
use egressfox.Store.Checkpoints.Restoring.{IsStorable, decode_checkpoint-encode_checkpoint}
use egressfox.Store.Checkpoints.{
  CheckpointRow, State, StoreError, Bytes, settled, decode_checkpoint, Calls, payload_at,
  stage_rows, slot_pending, slot_committed, state_valid, zero_time, decision_state,
  encoded_or_fault, encode_checkpoint, is_empty, context_code, decision_stage, unix_nano_word,
  upsert, load_checkpoint, receipt_equal, ContextState, Stored, promote, delete_slot, resolve,
  recovered, recover_rows, stage_decision, safe_scope, recover_decision, decision_scope,
  recover_begin, recover_commit,
}
use egressfox.Artifact.Receipts.{Encoding}
use egressfox.Store.Checkpoints.Payload.{Json}
use egressfox.Base.{
  ℕ, List, Result, ◌≡◌, ok, err, arith, >>-eq-ok, some, not, ◌||◌, >>=-eq-ok, false, Option, subst,
  Bool, ◌<◌, length, none, ◌∷◌, ◌≤◌, true, [], ◌⊎◌, inr, Bool-cases, inl, ◌∙◌, refl, sym, ap,
}

settled-ok :
    {A : Type 0} (rows : List CheckpointRow) (r : Result StoreError (A × List CheckpointRow))
    (a : A)
    → (settled rows r).0 ≡ ok a
    → r ≡ ok (a, (settled rows r).1)
settled-ok rows (err e) a h = cc
settled-ok rows (ok (b, new)) a h = ground arith

-- The row that StageDecision writes.
abbrev staged_row : State → Bytes → ℕ → CheckpointRow
staged_row value payload now = record {
  scope = value.scope;
  slot = slot_pending;
  payload = payload;
  updated_at = unix_nano_word now;
}

not_empty : (payload : Bytes) → is_empty payload ≡ false → 0 < length payload
not_empty [] h = cc
not_empty (b ∷ bs) h = omega arith

module _ (json : Json) (encoding : Encoding) where
  encoded_or_fault-small :
      (o : Option Bytes) (payload : Bytes)
      → encoded_or_fault json encoding o ≡ ok payload
      → (o ≡ some payload) × (length payload ≤ 4194304)
  encoded_or_fault-small none payload h = cc
  encoded_or_fault-small (some encoded) payload h = ground arith

module _ (json : Json) (encoding : Encoding) (value : State) (receipt : Bytes)
    (s : IsStorable encoding value receipt) where
  -- A pending payload of this state.
  abbrev IsStaged : List CheckpointRow → List CheckpointRow → Type 0
  IsStaged rows staged =
      (payload : Bytes) × (decode_checkpoint json encoding payload
        ≡ ok (record { state = value; receipt = receipt }))
      × (payload_at value.scope slot_pending staged ≡ some payload)
      × (payload_at value.scope slot_committed staged ≡ payload_at value.scope slot_committed rows)

  upserted-IsStaged :
      (payload : Bytes) (now : ℕ) (rows : List CheckpointRow)
      → decode_checkpoint json encoding payload ≡ ok (record { state = value; receipt = receipt })
      → IsStaged rows (upsert (staged_row value payload now) rows)
  upserted-IsStaged payload now rows h = (
    payload,
    h,
    ground (
      arith,
      payload_at-upsert value.scope slot_pending (staged_row value payload now) rows,
      eq_bytes_refl value.scope,
    ),
    ground
        (arith, payload_at-upsert value.scope slot_committed (staged_row value payload now) rows),
  )

  stage_rows-IsStaged :
      (calls : Calls) (now : ℕ) (rows new : List CheckpointRow)
      → stage_rows json encoding calls value receipt now rows ≡ ok (tt, new)
      → IsStaged rows new
  unfolding stage_rows
  stage_rows-IsStaged calls now rows new h =
      let (valid, h1) = >>-eq-ok (not (state_valid value) || zero_time now) decision_state _ h in
      let (payload, encoded, h2) =
        >>=-eq-ok (encoded_or_fault json encoding (encode_checkpoint json value receipt)) _ h1 in
      let (works, h3) =
        >>-eq-ok (not calls.deletes || is_empty payload) (context_code calls.context decision_stage)
          _ h2 in
      let last : upsert (staged_row value payload now) rows ≡ new = ground arith in
      let (is_encoded, small) =
        encoded_or_fault-small json encoding (encode_checkpoint json value receipt) payload
          encoded in
      subst (IsStaged rows) last (
        upserted-IsStaged payload now rows (
          decode_checkpoint-encode_checkpoint json encoding value receipt payload s is_encoded
            (not_empty payload (ground (arith, works))) small))

  load_staged :
      (context : ContextState) (works : Bool) (slot : ℕ) (rows : List CheckpointRow)
      (payload : Bytes) (found : Option Stored)
      → decode_checkpoint json encoding payload ≡ ok (record { state = value; receipt = receipt })
      → payload_at value.scope slot rows ≡ some payload
      → load_checkpoint json encoding context works value.scope slot rows ≡ ok found
      → found ≡ some (record { state = value; receipt = receipt })
  unfolding load_checkpoint
  load_staged context works slot rows payload found decodes present h =
      ground (arith, decodes, present)

  -- What a recovery makes of the rows, where the published receipt is that of the staged decision,
  -- and where it is not.
  abbrev pub Recovered : Bool → List CheckpointRow → Option State → List CheckpointRow → Type 0
  Recovered true rows found new =
      (found ≡ some value) × (payload_at value.scope slot_pending new ≡ none)
  Recovered false rows found new =
      (payload_at value.scope slot_committed new ≡ payload_at value.scope slot_committed rows)
      × (payload_at value.scope slot_pending new ≡ none)

  pub matches_published : Option Bytes → Bool
  unfolding receipt_equal
  matches_published none = false
  matches_published (some current) = receipt_equal receipt current

  resolved_true :
      (rows staged : List CheckpointRow) (payload : Bytes)
      → payload_at value.scope slot_pending staged ≡ some payload
      → let new = promote value.scope (delete_slot value.scope slot_committed staged) in
        (payload_at value.scope slot_committed new ≡ some payload)
        × (payload_at value.scope slot_pending new ≡ none)
  resolved_true rows staged payload h = (
    ground (
      arith,
      payload_at-promote value.scope value.scope slot_committed staged,
      eq_bytes_refl value.scope,
    ),
    ground (
      arith,
      payload_at-promote value.scope value.scope slot_pending staged,
      eq_bytes_refl value.scope,
    ),
  )

  resolved_false :
      (rows staged : List CheckpointRow)
      → let new = delete_slot value.scope slot_pending staged in
        (payload_at value.scope slot_committed new ≡ payload_at value.scope slot_committed staged)
        × (payload_at value.scope slot_pending new ≡ none)
  resolved_false rows staged = (
    ground (
      arith,
      payload_at-delete_slot value.scope value.scope slot_committed slot_pending staged,
      eq_bytes_refl value.scope,
    ),
    ground (
      arith,
      payload_at-delete_slot value.scope value.scope slot_pending slot_pending staged,
      eq_bytes_refl value.scope,
    ),
  )

  -- The pending checkpoint that a recovery finds is resolved by the published receipt.
  resolve-cases :
      (calls : Calls) (current : Option Bytes) (staged resolved : List CheckpointRow)
      → resolve json encoding calls value.scope current
          (some (record { state = value; receipt = receipt }))
          staged
        ≡ ok resolved
      → ((matches_published current ≡ true)
          × (promote value.scope (delete_slot value.scope slot_committed staged) ≡ resolved))
        ⊎ ((matches_published current ≡ false)
            × (delete_slot value.scope slot_pending staged ≡ resolved))
  unfolding matches_published
  resolve-cases calls none staged resolved h = inr (refl, ground arith)
  resolve-cases calls (some current) staged resolved h =
      elim (Bool-cases (receipt_equal receipt current)) [
        | inl e ↦ inl (e, ground arith)
        | inr e ↦ inr (e, ground arith)
      ]

  recovered_staged :
      (current : Option Bytes)
      → matches_published current ≡ true
      → recovered json encoding current (some (record { state = value; receipt = receipt }))
        ≡ some value
  unfolding matches_published
  recovered_staged none h = cc
  recovered_staged (some current) h = rw h

  recover_rows-Recovered :
      (calls : Calls) (current : Option Bytes) (rows staged new : List CheckpointRow)
      (found : Option State)
      → IsStaged rows staged
      → recover_rows json encoding calls value.scope current staged ≡ ok (found, new)
      → Recovered (matches_published current) rows found new
  unfolding recover_rows
  recover_rows-Recovered calls current rows staged new found (payload, decodes, present, kept) h =
      let (safe, h1) = >>-eq-ok (not (safe_scope value.scope)) decision_scope _ h in
      let (begun, h2) =
        >>-eq-ok (not calls.begins) (context_code calls.context recover_begin) _ h1 in
      let (pending, loaded, h3) =
        >>=-eq-ok
          (load_checkpoint json encoding calls.context calls.first_query value.scope slot_pending
            staged)
          _ h2 in
      let is_pending =
        load_staged calls.context calls.first_query slot_pending staged payload pending decodes
          present loaded in
      let (resolved, settles, h4) =
        >>=-eq-ok (resolve json encoding calls value.scope current pending staged) _ h3 in
      let (committed, found_one, h5) =
        >>=-eq-ok
          (load_checkpoint json encoding calls.context calls.second_query value.scope slot_committed
            resolved)
          _ h4 in
      let (lasts, h6) =
        >>-eq-ok (not calls.commits) (context_code calls.context recover_commit) _ h5 in
      let same_rows : resolved ≡ new = ground arith in
      let same_state : recovered json encoding current committed ≡ found = ground arith in
      let settled_one =
        subst (λ p. resolve json encoding calls value.scope current p staged ≡ ok resolved)
          is_pending settles in
      elim (resolve-cases calls current staged resolved settled_one) [
        | inl (matching, e) ↦
            let (at_committed, at_pending) =
              subst
                (λ r.
                  (payload_at value.scope slot_committed r ≡ some payload)
                  × (payload_at value.scope slot_pending r ≡ none))
                (e ∙ same_rows) (resolved_true rows staged payload present) in
            let is_committed =
              load_staged calls.context calls.second_query slot_committed resolved payload committed
                decodes
                (subst (λ r. payload_at value.scope slot_committed r ≡ some payload) (sym same_rows)
                  at_committed)
                found_one in
            let back : found ≡ some value =
              sym same_state
              ∙ (ap (recovered json encoding current) is_committed
                  ∙ recovered_staged current matching) in
            subst (λ b. Recovered b rows found new) (sym matching) (back, at_pending)
        | inr (other, e) ↦
            let (at_committed, at_pending) =
              subst
                (λ r.
                  (payload_at value.scope slot_committed r
                    ≡ payload_at value.scope slot_committed staged)
                  × (payload_at value.scope slot_pending r ≡ none))
                (e ∙ same_rows) (resolved_false rows staged) in
            subst (λ b. Recovered b rows found new) (sym other) (at_committed ∙ kept, at_pending)
      ]

  -- A decision that was staged and not committed before a crash is resolved by what the publisher
  -- holds: when a recovery succeeds, then if the published receipt is the staged one, it returns the
  -- staged state; otherwise, it leaves the committed checkpoint as it was before the stage; and in
  -- both cases nothing is pending. The state has to be one that the payload can hold.
  pub stage_decision-recover_decision :
      (calls later : Calls) (now : ℕ) (current : Option Bytes) (rows : List CheckpointRow)
      (found : Option State)
      → (stage_decision json encoding calls value receipt now rows).0 ≡ ok tt
      → let staged = (stage_decision json encoding calls value receipt now rows).1 in
        let last = recover_decision json encoding later value.scope current staged in
        last.0 ≡ ok found → Recovered (matches_published current) rows found last.1
  unfolding stage_decision recover_decision
  stage_decision-recover_decision calls later now current rows found h k =
      let first = stage_rows json encoding calls value receipt now rows in
      let staged = (settled rows first).1 in
      recover_rows-Recovered later current rows staged _ found
        (stage_rows-IsStaged calls now rows staged (settled-ok rows first tt h))
        (settled-ok staged (recover_rows json encoding later value.scope current staged) found k)
