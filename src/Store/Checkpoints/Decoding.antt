-- ===== src/Store/Checkpoints/Decoding.antt =====
-- decodeCheckpoint and restoreConnection of internal/state/sqlite.go.
use egressfox.Endpoint.{is_empty}
use egressfox.Selection.{Context, Member, context_valid, Cooldown, state_valid, State}
use egressfox.Base.Bytes.{Bytes}
use egressfox.Observation.Keys.{safe_id, TargetRef, restore_connection_ref, ConnectionRef}
use egressfox.Store.{unix_time}
use egressfox.Artifact.Receipts.{Encoding, restore_receipt}
use egressfox.Store.Ids.{parse_id, restore_revision}
use egressfox.Store.Checkpoints.Payload.{
  CheckpointPayload, Json, CheckpointMember, CheckpointCooldown, Stored,
}
use egressfox.Base.{
  Result, ok, List, Bool, Option, err, fail_if, not, ◌>>◌, ◌∷◌, length, some, ◌>>=◌, ◌==◌, ◌||◌,
  none, ltb, [],
}

pub data DecodeError : Type 0 where
  invalid_checkpoint invalid_reference invalid_context invalid_time invalid_member : DecodeError
  invalid_cooldown invalid_state invalid_receipt : DecodeError

abbrev pub as_decode_error {ℓ κ} :
    {E : Type ℓ} {A : Type κ} → DecodeError → Result E A → Result DecodeError A
as_decode_error fault (ok value) = ok value
as_decode_error fault (err e) = err fault

-- restoreConnection
unfoldable pub restore_connection : DecodeError → Bytes → Bytes → Result DecodeError ConnectionRef
unfolding parse_id restore_revision restore_connection_ref
restore_connection fault raw_id raw_revision = do
  id ← as_decode_error fault (parse_id raw_id)
  revision ← as_decode_error fault (restore_revision raw_revision)
  as_decode_error fault (restore_connection_ref id revision)

-- The loops of decodeCheckpoint.
unfoldable pub decode_members : List CheckpointMember → Result DecodeError (List Member)
unfolding restore_connection unix_time
decode_members [] = ok []
decode_members (m ∷ ms) =
    let rest = decode_members ms in
    restore_connection invalid_member m.endpoint_id m.connection_revision >>= λ connection.
    (fail_if (m.selected_at == 0) invalid_member
      >> (rest >>= λ members.
          ok (record { connection = connection; selected_at = unix_time m.selected_at } ∷ members)))

unfoldable pub decode_cooldowns : List CheckpointCooldown → Result DecodeError (List Cooldown)
unfolding restore_connection unix_time
decode_cooldowns [] = ok []
decode_cooldowns (c ∷ cs) =
    let rest = decode_cooldowns cs in
    restore_connection invalid_cooldown c.endpoint_id c.connection_revision >>= λ connection.
    (fail_if (c.until == 0) invalid_cooldown
      >> (rest >>= λ cooldowns.
          ok (record { connection = connection; until = unix_time c.until } ∷ cooldowns)))

-- NewTargetID, RestoreTargetRef and NewVantageID
abbrev pub restore_target : CheckpointPayload → Result DecodeError TargetRef
restore_target p = do
  fail_if (not (safe_id p.target_id)) invalid_reference
  revision ← as_decode_error invalid_reference (restore_revision p.target_revision)
  ok (record { id = p.target_id; revision = revision })

abbrev pub restore_context : CheckpointPayload → TargetRef → Result DecodeError Context
restore_context p target =
    let context : Context = record {
      target = target;
      vantage = p.vantage;
      kind = p.kind;
      profile = p.profile;
    } in
    fail_if (not (safe_id p.vantage)) invalid_reference
    >> (fail_if (not (context_valid context)) invalid_context >> ok context)

abbrev pub restored_state : CheckpointPayload → Context → List Member → List Cooldown → State
restored_state p context members cooldowns = record {
  scope = p.scope;
  context = context;
  policy_fingerprint = p.policy_fingerprint;
  evaluated_at = unix_time p.evaluated_at;
  members = members;
  cooldowns = cooldowns;
}

abbrev pub too_large : CheckpointPayload → Bool
too_large p =
    not (length p.policy_fingerprint == 32)
    || ltb 10000 (length p.members)
    || ltb 10000 (length p.cooldowns)

-- decodeCheckpoint behind the JSON.
unfoldable pub restore_payload : Encoding → CheckpointPayload → Result DecodeError Stored
unfolding safe_id restore_revision context_valid unix_time decode_members decode_cooldowns
    state_valid restore_receipt
restore_payload encoding p = do
  fail_if (too_large p) invalid_checkpoint
  target ← restore_target p
  context ← restore_context p target
  fail_if (p.evaluated_at == 0) invalid_time
  members ← decode_members p.members
  cooldowns ← decode_cooldowns p.cooldowns
  fail_if (not (state_valid (restored_state p context members cooldowns))) invalid_state
  receipt ← as_decode_error invalid_receipt (restore_receipt encoding p.receipt)
  ok (record { state = restored_state p context members cooldowns; receipt = receipt })

abbrev pub restored : Encoding → Option CheckpointPayload → Result DecodeError Stored
restored encoding none = err invalid_checkpoint
restored encoding (some p) = restore_payload encoding p

-- decodeCheckpoint
unfoldable pub decode_checkpoint : Json → Encoding → Bytes → Result DecodeError Stored
unfolding restore_payload
decode_checkpoint json encoding encoded = do
  fail_if (is_empty encoded || ltb 4194304 (length encoded)) invalid_checkpoint
  restored encoding (json.unmarshal encoded)
