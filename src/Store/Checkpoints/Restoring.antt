-- ===== src/Store/Checkpoints/Restoring.antt =====
-- A checkpoint of internal/state/sqlite.go is restored as it was stored.
use egressfox.Endpoint.{is_empty}
use egressfox.Store.Ids.{restore_revision}
use egressfox.Observation.{unix_nano_word}
use egressfox.Store.Checkpoints.Decoding.{
  decode_checkpoint, restore_context, restore_payload, restore_target, decode_members,
  decode_cooldowns, too_large, restored_state, DecodeError,
}
use egressfox.Store.Checkpoints.Roundtrip.{
  IsStorableTime, IsStorableMember, IsStorableCooldown, unix_time-unix_nano_word,
  unix_nano_word-ne-zero, encode_members-back, encode_cooldowns-back,
}
use egressfox.Base.Bytes.{Bytes, eq_bytes_sound}
use egressfox.Store.Checkpoints.Payload.{
  IsAscii, payload_of, encode_checkpoint, CheckpointMember, CheckpointPayload, CheckpointCooldown,
  Json, encode_members, encode_cooldowns, Stored, HasAscii,
}
use egressfox.Observation.Keys.{supported_profile, safe_id}
use egressfox.Artifact.Receipts.{Encoding, restore_receipt}
use egressfox.Selection.{safe_scope, State, state_valid, context_valid}
use egressfox.Artifact.{Profile, all_safe, profile_equal, mihomo_11931, sing_box_1141}
use egressfox.Base.{
  ◌≡◌, true, ◌∷◌, arith, Bool-cases, length, some, [], inl, subst, ◌≤◌, sym, All, inr, ok, List,
  ◌<◌, Option-cases, false, refl, Result, ap, ◌||◌, ltb,
}

all_safe-IsAscii : (value : Bytes) → all_safe value ≡ true → IsAscii value
unfolding all_safe
all_safe-IsAscii [] h = tt
all_safe-IsAscii (b ∷ bs) h = (ground arith, all_safe-IsAscii bs (ground arith))

safe_id-IsAscii : (value : Bytes) → safe_id value ≡ true → IsAscii value
unfolding safe_id
safe_id-IsAscii value h = all_safe-IsAscii value (ground arith)

safe_scope-IsAscii : (value : Bytes) → safe_scope value ≡ true → IsAscii value
unfolding safe_scope
safe_scope-IsAscii value h = all_safe-IsAscii value (ground arith)

abbrev ProfileAscii : Profile → Type 0
ProfileAscii p = IsAscii p.version × IsAscii p.renderer_schema × IsAscii p.media_type

profile_equal-eq : (p q : Profile) → profile_equal p q ≡ true → p ≡ q
unfolding profile_equal
profile_equal-eq p q h = ground (
  arith,
  eq_bytes_sound p.version q.version,
  eq_bytes_sound p.renderer_schema q.renderer_schema,
  eq_bytes_sound p.media_type q.media_type,
)

supported_profile-ProfileAscii : (p : Profile) → supported_profile p ≡ true → ProfileAscii p
unfolding supported_profile
supported_profile-ProfileAscii p h = elim (Bool-cases (profile_equal p mihomo_11931)) [
  | inl e ↦ subst ProfileAscii (sym (profile_equal-eq p mihomo_11931 e)) (omega arith)
  | inr e ↦
      let other : profile_equal p sing_box_1141 ≡ true = ground arith in
      subst ProfileAscii (sym (profile_equal-eq p sing_box_1141 other)) (omega arith)
]

-- The states that the payload can hold.
pub record IsStorable (encoding : Encoding) (value : State) (receipt : Bytes) : Type 0 where
  pub valid : state_valid value ≡ true
  pub fingerprint : length value.policy_fingerprint ≡ 32
  pub target : safe_id value.context.target.id ≡ true
  pub target_digest :
      (digest : Bytes) × (value.context.target.revision ≡ some digest) × (length digest ≡ 32)
  pub vantage : safe_id value.context.vantage ≡ true
  pub evaluated : IsStorableTime value.evaluated_at
  pub few : (length value.members ≤ 10000) × (length value.cooldowns ≤ 10000)
  pub members : All IsStorableMember value.members
  pub cooldowns : All IsStorableCooldown value.cooldowns
  pub has_receipt : restore_receipt encoding receipt ≡ ok receipt

scope_safe : (value : State) → state_valid value ≡ true → safe_scope value.scope ≡ true
unfolding state_valid
scope_safe value h = ground arith

profile_ascii : (value : State) → state_valid value ≡ true → ProfileAscii value.context.profile
unfolding state_valid context_valid
profile_ascii value h = supported_profile-ProfileAscii value.context.profile (ground arith)

-- The payload with encoded members and cooldowns.
abbrev full :
    State → Bytes → Bytes → List CheckpointMember → List CheckpointCooldown → CheckpointPayload
full value receipt digest members cooldowns = record {
  scope = value.scope;
  target_id = value.context.target.id;
  target_revision = digest;
  vantage = value.context.vantage;
  kind = value.context.kind;
  profile = value.context.profile;
  policy_fingerprint = value.policy_fingerprint;
  evaluated_at = unix_nano_word value.evaluated_at;
  members = members;
  cooldowns = cooldowns;
  receipt = receipt;
}

payload_of-full :
    (value : State) (receipt digest : Bytes) (p : CheckpointPayload)
    → value.context.target.revision ≡ some digest
    → payload_of value receipt ≡ some p
    → (members : List CheckpointMember) × (cooldowns : List CheckpointCooldown) × (encode_members
          value.members
        ≡ some members)
      × (encode_cooldowns value.cooldowns ≡ some cooldowns)
      × (full value receipt digest members cooldowns ≡ p)
unfolding payload_of
payload_of-full value receipt digest p r h = elim (Option-cases (encode_members value.members)) [
  | inl e ↦ absurd (ground arith)
  | inr (members, e) ↦ elim (Option-cases (encode_cooldowns value.cooldowns)) [
    | inl f ↦ absurd (ground arith)
    | inr (cooldowns, f) ↦ (members, cooldowns, e, f, ground arith)
  ]
]

module _ (encoding : Encoding) (value : State) (receipt digest : Bytes)
    (s : IsStorable encoding value receipt) (r : value.context.target.revision ≡ some digest)
    (n : length digest ≡ 32) (members : List CheckpointMember)
    (cooldowns : List CheckpointCooldown) where
  abbrev p : CheckpointPayload
  p = full value receipt digest members cooldowns

  target_back : restore_target p ≡ ok value.context.target
  unfolding restore_revision
  target_back = ground (arith, s.target)

  context_back : restore_context p value.context.target ≡ ok value.context
  unfolding state_valid
  context_back = ground (arith, s.valid, s.vantage)

  restore_full :
      decode_members members ≡ ok value.members
      → length members ≡ length value.members
      → decode_cooldowns cooldowns ≡ ok value.cooldowns
      → length cooldowns ≡ length value.cooldowns
      → restore_payload encoding p ≡ ok (record { state = value; receipt = receipt })
  unfolding restore_payload
  restore_full m a c b =
      let small : too_large p ≡ false = ground (arith, s.fingerprint, s.few) in
      let whole : restored_state p value.context value.members value.cooldowns ≡ value =
        ground (arith, unix_time-unix_nano_word value.evaluated_at s.evaluated) in
      let valid : state_valid (restored_state p value.context value.members value.cooldowns)
          ≡ true =
        subst (λ v. state_valid v ≡ true) (sym whole) s.valid in
      let result : State → Result DecodeError Stored =
        λ v. ok (record { state = v; receipt = receipt }) in
      simp
        (
          small,
          target_back,
          context_back,
          unix_nano_word-ne-zero value.evaluated_at s.evaluated,
          m,
          c,
          valid,
          s.has_receipt,
        )
        (ap result whole)

-- A checkpoint of a valid state is decoded to the state and the receipt that were encoded, where the
-- times fit an int64 of nanoseconds and are not the Unix epoch, the identifiers are those that the
-- constructors admit and ASCII, the digests have 32 bytes, there are at most 10000 members and
-- cooldowns, the receipt restores to itself, and the payload has at most 4 MiB.
pub decode_checkpoint-encode_checkpoint :
    (json : Json) (encoding : Encoding) (value : State) (receipt encoded : Bytes)
    → IsStorable encoding value receipt
    → encode_checkpoint json value receipt ≡ some encoded
    → 0 < length encoded
    → length encoded ≤ 4194304
    → decode_checkpoint json encoding encoded ≡ ok (record { state = value; receipt = receipt })
unfolding encode_checkpoint decode_checkpoint
decode_checkpoint-encode_checkpoint json encoding value receipt encoded s h nonempty small =
    let (digest, r, n) = s.target_digest in
    elim (Option-cases (payload_of value receipt)) [
      | inl e ↦ absurd (ground arith)
      | inr (payload, e) ↦
          let (members, cooldowns, f, g, made) = payload_of-full value receipt digest payload r e in
          let m = encode_members-back value.members members s.members f in
          let c = encode_cooldowns-back value.cooldowns cooldowns s.cooldowns g in
          let ascii_texts : HasAscii (full value receipt digest members cooldowns) = (
            safe_scope-IsAscii value.scope (scope_safe value s.valid),
            safe_id-IsAscii value.context.target.id s.target,
            safe_id-IsAscii value.context.vantage s.vantage,
            (profile_ascii value s.valid).0,
            (profile_ascii value s.valid).1,
            (profile_ascii value s.valid).2,
            m.2,
            c.2,
          ) in
          let read =
            json.unmarshal-marshal payload encoded (subst HasAscii made ascii_texts)
              (ground arith) in
          let restored_full =
            restore_full encoding value receipt digest s r n members cooldowns m.0 m.1 c.0 c.1 in
          let back =
            subst
              (λ q. restore_payload encoding q ≡ ok (record { state = value; receipt = receipt }))
              made restored_full in
          let no_fault : (is_empty encoded || ltb 4194304 (length encoded)) ≡ false =
            ground arith in
          simp (no_fault, read, back) refl
    ]
