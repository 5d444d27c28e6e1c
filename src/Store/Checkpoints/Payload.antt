-- ===== src/Store/Checkpoints/Payload.antt =====
-- The payload of a checkpoint in internal/state/sqlite.go: encodeCheckpoint.
use egressfox.Artifact.{Profile}
use egressfox.Observation.{unix_nano_word}
use egressfox.Base.Bytes.{Bytes}
use egressfox.Selection.{State, Member, Cooldown}
use egressfox.Endpoint.{Revision, id_string, is_empty}
use egressfox.Base.{
  ℕ, All, Option, ◌<◌, ◌≡◌, List, [], some, ◌∷◌, ◌||◌, none, if◌then◌else◌, is_none,
}

pub record CheckpointMember : Type 0 where
  pub endpoint_id : Bytes
  pub connection_revision : Bytes
  pub selected_at : ℕ

pub record CheckpointCooldown : Type 0 where
  pub endpoint_id : Bytes
  pub connection_revision : Bytes
  pub until : ℕ

-- A time is the bits of its int64 count of nanoseconds.
pub record CheckpointPayload : Type 0 where
  pub scope : Bytes
  pub target_id : Bytes
  pub target_revision : Bytes
  pub vantage : Bytes
  pub kind : ℕ
  pub profile : Profile
  pub policy_fingerprint : Bytes
  pub evaluated_at : ℕ
  pub members : List CheckpointMember
  pub cooldowns : List CheckpointCooldown
  pub receipt : Bytes

-- JSON keeps ASCII texts; byte slices travel in base64.
abbrev pub IsAscii : Bytes → Type 0
IsAscii value = All (λ b. b < 128) value

abbrev pub HasAscii : CheckpointPayload → Type 0
HasAscii p =
    IsAscii p.scope
    × IsAscii p.target_id
    × IsAscii p.vantage
    × IsAscii p.profile.version
    × IsAscii p.profile.renderer_schema
    × IsAscii p.profile.media_type
    × All (λ (m : CheckpointMember). IsAscii m.endpoint_id) p.members
    × All (λ (c : CheckpointCooldown). IsAscii c.endpoint_id) p.cooldowns

pub record Json : Type 0 where
  pub marshal : CheckpointPayload → Option Bytes
  pub unmarshal : Bytes → Option CheckpointPayload
  pub unmarshal-marshal :
      (p : CheckpointPayload) (encoded : Bytes)
      → HasAscii p
      → marshal p ≡ some encoded
      → unmarshal encoded ≡ some p

-- What a checkpoint holds.
pub record Stored : Type 0 where
  pub state : State
  pub receipt : Bytes

abbrev pub member_of : Member → Bytes → CheckpointMember
member_of m revision = record {
  endpoint_id = id_string m.connection.id;
  connection_revision = revision;
  selected_at = unix_nano_word m.selected_at;
}

abbrev pub cooldown_of : Cooldown → Bytes → CheckpointCooldown
cooldown_of c revision = record {
  endpoint_id = id_string c.connection.id;
  connection_revision = revision;
  until = unix_nano_word c.until;
}

abbrev pub cons_some {ℓ} : {A : Type ℓ} → A → Option (List A) → Option (List A)
cons_some a none = none
cons_some a (some rest) = some (a ∷ rest)

-- The loops of encodeCheckpoint; a nil revision fails.
unfoldable pub encode_members : List Member → Option (List CheckpointMember)
unfolding id_string unix_nano_word
encode_members [] = some []
encode_members (m ∷ ms) =
    let rest = encode_members ms in
    elim m.connection.revision [
      | none ↦ none
      | some revision ↦ cons_some (member_of m revision) rest
    ]

unfoldable pub encode_cooldowns : List Cooldown → Option (List CheckpointCooldown)
unfolding id_string unix_nano_word
encode_cooldowns [] = some []
encode_cooldowns (c ∷ cs) =
    let rest = encode_cooldowns cs in
    elim c.connection.revision [
      | none ↦ none
      | some revision ↦ cons_some (cooldown_of c revision) rest
    ]

abbrev pub revision_bytes : Revision → Bytes
revision_bytes none = []
revision_bytes (some digest) = digest

abbrev pub joined :
    State
    → Bytes
    → Option (List CheckpointMember)
    → Option (List CheckpointCooldown)
    → Option CheckpointPayload
joined value receipt none cooldowns = none
joined value receipt (some members) none = none
joined value receipt (some members) (some cooldowns) = some (record {
  scope = value.scope;
  target_id = value.context.target.id;
  target_revision = revision_bytes value.context.target.revision;
  vantage = value.context.vantage;
  kind = value.context.kind;
  profile = value.context.profile;
  policy_fingerprint = value.policy_fingerprint;
  evaluated_at = unix_nano_word value.evaluated_at;
  members = members;
  cooldowns = cooldowns;
  receipt = receipt;
})

-- What encodeCheckpoint marshals.
unfoldable pub payload_of : State → Bytes → Option CheckpointPayload
unfolding encode_members encode_cooldowns unix_nano_word
payload_of value receipt =
    if is_none value.context.target.revision || is_empty receipt
    then none
    else joined value receipt (encode_members value.members) (encode_cooldowns value.cooldowns)

unfoldable pub encode_checkpoint : Json → State → Bytes → Option Bytes
unfolding payload_of
encode_checkpoint json value receipt = elim (payload_of value receipt) [
  | none ↦ none
  | some payload ↦ json.marshal payload
]
