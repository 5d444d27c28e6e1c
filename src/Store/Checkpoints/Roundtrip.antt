-- ===== src/Store/Checkpoints/Roundtrip.antt =====
-- decodeCheckpoint undoes encodeCheckpoint of internal/state/sqlite.go.
use egressfox.Selection.{Cooldown, Member}
use egressfox.Store.Checkpoints.Payload.{
  IsAscii, member_of, cooldown_of, encode_members, CheckpointMember, CheckpointCooldown,
  encode_cooldowns,
}
use egressfox.Base.Bytes.{eq_bytes, Bytes}
use egressfox.Endpoint.{id_string, invalid_endpoint_id}
use egressfox.Observation.{unix_nano_word, unix_epoch}
use egressfox.Store.Checkpoints.Decoding.{
  restore_connection, DecodeError, decode_members, invalid_member, decode_cooldowns,
  invalid_cooldown,
}
use egressfox.Observation.Keys.{ConnectionRef, restore_connection_ref, is_invalid_connection}
use egressfox.Store.{unix_time}
use egressfox.Store.Ids.{parse_id, restore_revision}
use egressfox.Base.{
  ℕ, ◌≤◌, ◌≡◌, ◌==◌, arith, false, ok, ◌+◌, ◌^◌, ◌<◌, some, ◌≢◌, length, ◌∷◌, [], List, All, ap,
  Option-cases, suc, inl, inr, refl, subst,
}

-- An int64 of nanoseconds that is not zero.
abbrev pub IsStorableTime : ℕ → Type 0
IsStorableTime t = (unix_epoch ≤ t + 2 ^ 63) × (t < unix_epoch + 2 ^ 63) × (t ≢ unix_epoch)

pub unix_time-unix_nano_word : (t : ℕ) → IsStorableTime t → unix_time (unix_nano_word t) ≡ t
unfolding unix_time unix_nano_word
unix_time-unix_nano_word t h = ground arith

pub unix_nano_word-ne-zero : (t : ℕ) → IsStorableTime t → (unix_nano_word t == 0) ≡ false
unfolding unix_nano_word
unix_nano_word-ne-zero t h = ground arith

abbrev pub IsStorableConnection : ConnectionRef → Type 0
IsStorableConnection c =
    (parse_id c.id ≡ ok c.id)
    × IsAscii c.id
    × ((digest : Bytes) × (c.revision ≡ some digest) × (length digest ≡ 32))

valid_id :
    (id : Bytes) (v : Bytes)
    → parse_id id ≡ ok v
    → (id_string id ≡ id) × (eq_bytes (id_string id) invalid_endpoint_id ≡ false)
unfolding parse_id id_string eq_bytes
valid_id [] v h = cc
valid_id (a ∷ []) v h = cc
valid_id (a ∷ b ∷ []) v h = cc
valid_id (a ∷ b ∷ c ∷ []) v h = cc
valid_id (a ∷ b ∷ c ∷ d ∷ rest) v h = ground arith

restore_connection-stored :
    (fault : DecodeError) (c : ConnectionRef) (digest : Bytes)
    → parse_id c.id ≡ ok c.id
    → c.revision ≡ some digest
    → length digest ≡ 32
    → restore_connection fault (id_string c.id) digest ≡ ok c
unfolding restore_connection restore_revision restore_connection_ref is_invalid_connection
restore_connection-stored fault c digest h r n =
    let (plain, valid) = valid_id c.id c.id h in ground (arith, plain, valid)

abbrev pub IsStorableMember : Member → Type 0
IsStorableMember m = IsStorableConnection m.connection × IsStorableTime m.selected_at

abbrev pub IsStorableCooldown : Cooldown → Type 0
IsStorableCooldown c = IsStorableConnection c.connection × IsStorableTime c.until

abbrev pub MembersBack : List Member → List CheckpointMember → Type 0
MembersBack ms out =
    (decode_members out ≡ ok ms)
    × (length out ≡ length ms)
    × All (λ (m : CheckpointMember). IsAscii m.endpoint_id) out

MembersBack-cons :
    (m : Member) (ms : List Member) (out : List CheckpointMember) (digest : Bytes)
    → IsStorableMember m
    → m.connection.revision ≡ some digest
    → length digest ≡ 32
    → MembersBack ms out
    → MembersBack (m ∷ ms) (member_of m digest ∷ out)
unfolding decode_members
MembersBack-cons m ms out digest h r n back =
    let (parses, ascii_id, stored) = h.0 in
    let (plain, valid) = valid_id m.connection.id m.connection.id parses in
    let restored = restore_connection-stored invalid_member m.connection digest parses r n in
    (
      simp
          (
            restored,
            unix_nano_word-ne-zero m.selected_at h.1,
            back.0,
            unix_time-unix_nano_word m.selected_at h.1,
          )
          refl,
      ap suc back.1,
      (rw plain ascii_id, back.2),
    )

pub encode_members-back :
    (ms : List Member) (out : List CheckpointMember)
    → All IsStorableMember ms
    → encode_members ms ≡ some out
    → MembersBack ms out
unfolding encode_members decode_members
encode_members-back [] out h e =
    let same : [] ≡ out = ground arith in subst (MembersBack []) same (refl, refl, tt)
encode_members-back (m ∷ ms) out h e =
    let (digest, r, n) = h.0.0.2 in
    elim (Option-cases (encode_members ms)) [
      | inl f ↦ absurd (ground arith)
      | inr (rest, f) ↦
          let made : member_of m digest ∷ rest ≡ out = ground arith in
          subst (MembersBack (m ∷ ms)) made
            (MembersBack-cons m ms rest digest h.0 r n (encode_members-back ms rest h.1 f))
    ]

abbrev pub CooldownsBack : List Cooldown → List CheckpointCooldown → Type 0
CooldownsBack cs out =
    (decode_cooldowns out ≡ ok cs)
    × (length out ≡ length cs)
    × All (λ (c : CheckpointCooldown). IsAscii c.endpoint_id) out

CooldownsBack-cons :
    (c : Cooldown) (cs : List Cooldown) (out : List CheckpointCooldown) (digest : Bytes)
    → IsStorableCooldown c
    → c.connection.revision ≡ some digest
    → length digest ≡ 32
    → CooldownsBack cs out
    → CooldownsBack (c ∷ cs) (cooldown_of c digest ∷ out)
unfolding decode_cooldowns
CooldownsBack-cons c cs out digest h r n back =
    let (parses, ascii_id, stored) = h.0 in
    let (plain, valid) = valid_id c.connection.id c.connection.id parses in
    let restored = restore_connection-stored invalid_cooldown c.connection digest parses r n in
    (
      simp
          (
            restored,
            unix_nano_word-ne-zero c.until h.1,
            back.0,
            unix_time-unix_nano_word c.until h.1,
          )
          refl,
      ap suc back.1,
      (rw plain ascii_id, back.2),
    )

pub encode_cooldowns-back :
    (cs : List Cooldown) (out : List CheckpointCooldown)
    → All IsStorableCooldown cs
    → encode_cooldowns cs ≡ some out
    → CooldownsBack cs out
unfolding encode_cooldowns decode_cooldowns
encode_cooldowns-back [] out h e =
    let same : [] ≡ out = ground arith in subst (CooldownsBack []) same (refl, refl, tt)
encode_cooldowns-back (c ∷ cs) out h e =
    let (digest, r, n) = h.0.0.2 in
    elim (Option-cases (encode_cooldowns cs)) [
      | inl f ↦ absurd (ground arith)
      | inr (rest, f) ↦
          let made : cooldown_of c digest ∷ rest ≡ out = ground arith in
          subst (CooldownsBack (c ∷ cs)) made
            (CooldownsBack-cons c cs rest digest h.0 r n (encode_cooldowns-back cs rest h.1 f))
    ]
