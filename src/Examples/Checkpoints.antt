-- ===== src/Examples/Checkpoints.antt =====
-- Checkpoints of one state, with a JSON that knows its payload.
use egressfox.Observation.{unix_nano_word}
use egressfox.Store.Checkpoints.Simulation.{run-Refines}
use egressfox.Store.Checkpoints.Crash.{
  Recovered, matches_published, stage_decision-recover_decision,
}
use egressfox.Store.Checkpoints.Decoding.{decode_checkpoint}
use egressfox.Endpoint.{is_empty, id_string, revision_equal}
use egressfox.Store.Checkpoints.{
  Calls, CheckpointRow, stage_decision, recover_decision, stage_rows, commit_decision, recover_rows,
  commit_rows, load_checkpoint, upsert, payload_at, delete_slot, promote, receipt_equal,
}
use egressfox.Store.Ids.{parse_id}
use egressfox.Base.Bytes.{Bytes, ascii, eq_bytes, eq_bytes_sound}
use egressfox.Selection.{Context, State, state_valid, safe_scope, contains_key, ref_key, all_zero}
use egressfox.Publish.{}
use egressfox.Artifact.{profile_equal, Profile, safe_validator_id, all_safe}
use egressfox.Store.Checkpoints.Restoring.{IsStorable, decode_checkpoint-encode_checkpoint}
use egressfox.Store.Checkpoints.Payload.{
  Json, CheckpointPayload, CheckpointMember, CheckpointCooldown, HasAscii, encode_checkpoint,
  payload_of, encode_members, encode_cooldowns,
}
use egressfox.Observation.Keys.{ConnectionRef, safe_id, connection_equal, supported_profile}
use egressfox.Base.{
  List, ◌∷◌, Bool, ◌≡◌, Option, if◌then◌else◌, true, arith, some, ◌-◌, [], false, none, ok, refl,
  ◌&&◌, ap, Bool-cases, ◌==◌, inr, inl, subst, sym,
}
use egressfox.Artifact.Receipts.{restore_receipt, new_candidate}
use egressfox.Examples.Receipts.{digest_32, test_encoding}
use egressfox.Examples.Samples.{test_now, test_context}
use egressfox.Store.{live}
use egressfox.Store.Checkpoints.Refinement.{stage, commit, Operation, Refines, run, slots_of}
use egressfox.Store.Checkpoints.Trace.{start, later, Ran, Explained, Ran-Explained}

abbrev pub stored_connection : ConnectionRef
stored_connection = record {
  id = ascii "ef1_abcdefghijklmnopqrstuvwxyz234567abcdefghijklmnopqrst";
  revision = some digest_32;
}

abbrev pub stored_context : Context
stored_context = record test_context {
  target = record { id = ascii "web"; revision = some digest_32 };
}

abbrev stored_state : State
stored_state = record {
  scope = ascii "pool/a";
  context = stored_context;
  policy_fingerprint = digest_32;
  evaluated_at = test_now;
  members = record { connection = stored_connection; selected_at = test_now - 60000000000 } ∷ [];
  cooldowns = [];
}

abbrev receipt : Bytes
receipt = 123 ∷ []

abbrev member_payload : CheckpointMember
member_payload = record {
  endpoint_id = stored_connection.id;
  connection_revision = digest_32;
  selected_at = 3540000000000;
}

abbrev payload : CheckpointPayload
payload = record {
  scope = stored_state.scope;
  target_id = ascii "web";
  target_revision = digest_32;
  vantage = stored_context.vantage;
  kind = stored_context.kind;
  profile = stored_context.profile;
  policy_fingerprint = digest_32;
  evaluated_at = 3600000000000;
  members = member_payload ∷ [];
  cooldowns = [];
  receipt = receipt;
}

abbrev is_member : CheckpointMember → Bool
is_member m =
    eq_bytes m.endpoint_id member_payload.endpoint_id
    && eq_bytes m.connection_revision member_payload.connection_revision
    && m.selected_at == member_payload.selected_at

is_member_sound : (m : CheckpointMember) → is_member m ≡ true → m ≡ member_payload
is_member_sound m h = ground (
  arith,
  eq_bytes_sound m.endpoint_id member_payload.endpoint_id,
  eq_bytes_sound m.connection_revision member_payload.connection_revision,
)

abbrev is_one : List CheckpointMember → Bool
is_one [] = false
is_one (m ∷ []) = is_member m
is_one (m ∷ k ∷ ms) = false

is_one_sound : (ms : List CheckpointMember) → is_one ms ≡ true → ms ≡ member_payload ∷ []
is_one_sound [] h = cc
is_one_sound (m ∷ []) h = ap (λ k. k ∷ []) (is_member_sound m h)
is_one_sound (m ∷ k ∷ ms) h = cc

is_empty_sound : (cs : List CheckpointCooldown) → is_empty cs ≡ true → cs ≡ []
is_empty_sound [] h = refl
is_empty_sound (c ∷ cs) h = cc

profile_equal_sound : (p q : Profile) → profile_equal p q ≡ true → p ≡ q
unfolding profile_equal
profile_equal_sound p q h = ground (
  arith,
  eq_bytes_sound p.version q.version,
  eq_bytes_sound p.renderer_schema q.renderer_schema,
  eq_bytes_sound p.media_type q.media_type,
)

abbrev is_payload : CheckpointPayload → Bool
is_payload p =
    eq_bytes p.scope payload.scope
    && eq_bytes p.target_id payload.target_id
    && eq_bytes p.target_revision payload.target_revision
    && eq_bytes p.vantage payload.vantage
    && p.kind == payload.kind
    && profile_equal p.profile payload.profile
    && eq_bytes p.policy_fingerprint payload.policy_fingerprint
    && p.evaluated_at == payload.evaluated_at
    && is_one p.members
    && is_empty p.cooldowns
    && eq_bytes p.receipt payload.receipt

is_payload_sound : (p : CheckpointPayload) → is_payload p ≡ true → p ≡ payload
is_payload_sound p h = ground (
  arith,
  eq_bytes_sound p.scope payload.scope,
  eq_bytes_sound p.target_id payload.target_id,
  eq_bytes_sound p.target_revision payload.target_revision,
  eq_bytes_sound p.vantage payload.vantage,
  profile_equal_sound p.profile payload.profile,
  eq_bytes_sound p.policy_fingerprint payload.policy_fingerprint,
  is_one_sound p.members,
  is_empty_sound p.cooldowns,
  eq_bytes_sound p.receipt payload.receipt,
)

abbrev unmarshal : Bytes → Option CheckpointPayload
unmarshal [] = none
unmarshal (b ∷ bs) = some payload

unmarshal-marshal :
    (p : CheckpointPayload) (encoded : Bytes)
    → HasAscii p
    → (if is_payload p then some (9 ∷ []) else none) ≡ some encoded
    → unmarshal encoded ≡ some p
unmarshal-marshal p encoded texts h = elim (Bool-cases (is_payload p)) [
  | inr e ↦ absurd (ground arith)
  | inl e ↦
      let one : 9 ∷ [] ≡ encoded = ground arith in
      subst (λ b. unmarshal b ≡ some p) one (ap some (sym (is_payload_sound p e)))
]

abbrev test_json : Json
test_json = record {
  marshal = λ p. if is_payload p then some (9 ∷ []) else none;
  unmarshal = unmarshal;
  unmarshal-marshal = unmarshal-marshal;
}

abbrev working : Calls
working = record {
  context = live;
  begins = true;
  first_query = true;
  deletes = true;
  promotes = true;
  second_query = true;
  commits = true;
}

id_parses : parse_id stored_connection.id ≡ ok stored_connection.id
unfolding parse_id
id_parses = refl

state_valid_stored : state_valid stored_state ≡ true
unfolding state_valid safe_scope all_safe profile_equal eq_bytes connection_equal contains_key
    ref_key id_string revision_equal supported_profile all_zero
state_valid_stored = refl

receipt_restores : restore_receipt test_encoding receipt ≡ ok receipt
unfolding safe_validator_id eq_bytes restore_receipt new_candidate
receipt_restores = refl

target_safe : safe_id stored_context.target.id ≡ true
unfolding safe_id
target_safe = refl

vantage_safe : safe_id stored_context.vantage ≡ true
unfolding safe_id
vantage_safe = refl

stored_IsStorable : IsStorable test_encoding stored_state receipt
stored_IsStorable = record {
  valid = state_valid_stored;
  fingerprint = refl;
  target = target_safe;
  target_digest = (digest_32, refl, refl);
  vantage = vantage_safe;
  evaluated = omega arith;
  few = omega arith;
  members = (((id_parses, omega arith, (digest_32, refl, refl)), omega arith), tt);
  cooldowns = tt;
  has_receipt = receipt_restores;
}

encodes : encode_checkpoint test_json stored_state receipt ≡ some (9 ∷ [])
unfolding encode_checkpoint payload_of encode_members encode_cooldowns unix_nano_word id_string
    eq_bytes profile_equal
encodes = refl

decode_checkpoint-encode_checkpoint_example :
    decode_checkpoint test_json test_encoding (9 ∷ [])
    ≡ ok (record { state = stored_state; receipt = receipt })
decode_checkpoint-encode_checkpoint_example =
    decode_checkpoint-encode_checkpoint test_json test_encoding stored_state receipt (9 ∷ [])
      stored_IsStorable encodes (omega arith) (omega arith)

decodes :
    decode_checkpoint test_json test_encoding (9 ∷ [])
    ≡ ok (record { state = stored_state; receipt = receipt })
decodes =
    decode_checkpoint-encode_checkpoint test_json test_encoding stored_state receipt (9 ∷ [])
      stored_IsStorable encodes (omega arith) (omega arith)

abbrev pending_row : CheckpointRow
pending_row = record {
  scope = stored_state.scope;
  slot = 1;
  payload = 9 ∷ [];
  updated_at = 3600000000000;
}

is_staged :
    stage_decision test_json test_encoding working stored_state receipt test_now []
    ≡ (ok tt, pending_row ∷ [])
unfolding stage_decision stage_rows unix_nano_word upsert delete_slot encode_checkpoint payload_of
    encode_members encode_cooldowns id_string eq_bytes profile_equal
is_staged = rw state_valid_stored refl

abbrev stages : Operation
stages = stage stored_state receipt test_now

abbrev commits : Operation
commits = commit stored_state.scope receipt

run-Refines_example :
    Refines test_json test_encoding commits
      (pending_row ∷ [])
      (run test_json test_encoding working commits (pending_row ∷ []))
run-Refines_example = run-Refines test_json test_encoding working commits (pending_row ∷ [])

staged_rows : run test_json test_encoding working stages [] ≡ pending_row ∷ []
unfolding run
staged_rows = ap (λ r. r.1) is_staged

after_commit :
    run test_json test_encoding working commits (pending_row ∷ [])
    ≡ record pending_row { slot = 0 } ∷ []
unfolding run commit_decision commit_rows load_checkpoint payload_at promote delete_slot eq_bytes
    receipt_equal
after_commit = rw (run, decodes) refl

ran_both :
    Ran test_json test_encoding (commits ∷ stages ∷ []) (record pending_row { slot = 0 } ∷ [])
ran_both =
    later working commits (record pending_row { slot = 0 } ∷ [])
      (later working stages (pending_row ∷ []) start staged_rows) after_commit

Ran-Explained_example :
    Explained test_json test_encoding
      (commits ∷ stages ∷ [])
      stored_state.scope
      (slots_of (record pending_row { slot = 0 } ∷ []) stored_state.scope)
Ran-Explained_example = Ran-Explained test_json test_encoding ran_both stored_state.scope

stage_works :
    (stage_decision test_json test_encoding working stored_state receipt test_now []).0 ≡ ok tt
stage_works = ap (λ r. r.0) is_staged

recover_works :
    (recover_decision test_json test_encoding working stored_state.scope
      (some receipt)
      (stage_decision test_json test_encoding working stored_state receipt test_now []).1).0
    ≡ ok (some stored_state)
unfolding recover_decision recover_rows load_checkpoint payload_at promote delete_slot eq_bytes
    receipt_equal safe_scope all_safe
recover_works = rw (is_staged, decodes, decodes) refl

stage_decision-recover_decision_example :
    Recovered test_json test_encoding stored_state receipt stored_IsStorable
      (matches_published test_json test_encoding stored_state receipt stored_IsStorable
        (some receipt))
      []
      (some stored_state)
      (recover_decision test_json test_encoding working stored_state.scope
        (some receipt)
        (stage_decision test_json test_encoding working stored_state receipt test_now []).1).1
stage_decision-recover_decision_example =
    stage_decision-recover_decision test_json test_encoding stored_state receipt stored_IsStorable
      working working test_now (some receipt) [] (some stored_state) stage_works recover_works
