-- ===== src/Artifact/Receipts.antt =====
-- Candidates, validation and receipts of internal/artifact/artifact.go. JSON and SHA-256 are the
-- interface `Encoding`, with what the code relies on as its laws.
pub mod Matching
use egressfox.Artifact.{engine_mihomo, safe_validator_id, Profile, engine_sing_box, ascii, eq_bytes}
use egressfox.Base.Bytes.{Bytes, big_endian}
use egressfox.Base.{
  ℕ, zero, suc, ◌+◌, ◌-◌, ◌*◌, ◌≤◌, ◌<◌, ◌≡◌, refl, sym, ap, subst, ◌∙◌, ◌⊎◌, inl, inr, Bool, true,
  false, not, ◌&&◌, ◌||◌, Option, none, some, List, [], ◌∷◌, ◌++◌, map, arith, ltb, leb, ◌==◌,
  if◌then◌else◌, if_rule, Bool-cases, Option-cases, is_none, length, All, Result, ok, err,
  Result-cases, fail_if, ◌>>=◌, ◌>>◌, ◌%◌, ◌^◌,
}

pub record ReceiptData : Type 0 where
  pub engine : ℕ
  pub version : Bytes
  pub renderer_schema : Bytes
  pub media_type : Bytes
  pub generation : Bytes
  pub validator_id : Bytes

pub data ArtifactError : Type 0 where
  invalid_metadata no_checker check_failed invalid_evidence invalid_receipt : ArtifactError
  invalid_artifact : ArtifactError

pub record Candidate : Type 0 where
  pub profile : Profile
  pub content : Bytes

abbrev pub engine_unknown : ℕ → Bool
engine_unknown e = not (e == engine_mihomo || e == engine_sing_box)

abbrev pub is_blank : Bytes → Bool
is_blank [] = true
is_blank (b ∷ bs) = false

unfoldable pub new_candidate : Profile → Bytes → Result ArtifactError Candidate
new_candidate profile content = do
  fail_if
      (engine_unknown profile.engine
        || is_blank profile.version
        || is_blank profile.renderer_schema
        || is_blank profile.media_type
        || is_blank content)
      invalid_metadata
  ok (record { profile = profile; content = content })

-- writeString
unfoldable pub sized_string : Bytes → Bytes
sized_string value = big_endian 4 (length value % 2 ^ 32) ++ value

unfoldable pub generation_input : Candidate → Bytes
generation_input c =
    ascii "egressfox.artifact/v1"
    ++ (c.profile.engine % 256)
      ∷ (sized_string c.profile.version
          ++ (sized_string c.profile.renderer_schema
              ++ (sized_string c.profile.media_type ++ c.content)))

pub record Validated : Type 0 where
  pub candidate : Candidate
  pub generation : Bytes
  pub validator_id : Bytes

abbrev pub profile_of : ReceiptData → Profile
profile_of d = record {
  engine = d.engine;
  version = d.version;
  renderer_schema = d.renderer_schema;
  media_type = d.media_type;
}

-- JSON keeps ASCII strings as they are.
abbrev pub HasText : Profile → Type 0
HasText p =
    All (λ b. b < 128) p.version
    × All (λ b. b < 128) p.renderer_schema
    × All (λ b. b < 128) p.media_type

pub record Encoding : Type 0 where
  pub marshal : ReceiptData → Option Bytes
  pub unmarshal : Bytes → Option ReceiptData
  pub sha256 : Bytes → Bytes
  pub unmarshal-marshal :
      (data_value : ReceiptData) (encoded : Bytes)
      → HasText (profile_of data_value)
      → safe_validator_id data_value.validator_id ≡ true
      → marshal data_value ≡ some encoded
      → unmarshal encoded ≡ some data_value
  pub length-sha256 : (b : Bytes) → length (sha256 b) ≡ 32

module _ (encoding : Encoding) where
  open encoding use {marshal, unmarshal, sha256}

  unfoldable pub generation_of : Candidate → Bytes
  generation_of c = sha256 (generation_input c)

  abbrev pub checked : Candidate → Option Bytes → Result ArtifactError Validated
  checked c none = err check_failed
  checked c (some validator_id) =
      fail_if (not (safe_validator_id validator_id)) invalid_evidence
      >> ok (record { candidate = c; generation = generation_of c; validator_id = validator_id })

  -- Validate; a checker returns the validator's id or fails.
  unfoldable pub validate :
      Candidate → Option (Candidate → Option Bytes) → Result ArtifactError Validated
  validate c none = err no_checker
  validate c (some checker) = checked c (checker c)

  abbrev pub data_of : Validated → ReceiptData
  data_of v = record {
    engine = v.candidate.profile.engine;
    version = v.candidate.profile.version;
    renderer_schema = v.candidate.profile.renderer_schema;
    media_type = v.candidate.profile.media_type;
    generation = v.generation;
    validator_id = v.validator_id;
  }

  abbrev pub marshalled : ArtifactError → ReceiptData → Result ArtifactError Bytes
  marshalled e d = elim (marshal d) [ none ↦ err e | some encoded ↦ ok encoded ]

  -- Validated.ProtectedReceipt
  unfoldable pub protected_receipt : Validated → Result ArtifactError Bytes
  protected_receipt v =
      fail_if (is_blank v.candidate.content || not (safe_validator_id v.validator_id))
        invalid_artifact
      >> marshalled invalid_artifact (data_of v)

  abbrev pub data_invalid : ReceiptData → Bool
  data_invalid d = not (length d.generation == 32) || not (safe_validator_id d.validator_id)

  abbrev pub refused : {A : Type 0} → Result ArtifactError A → Bool
  refused (ok a) = false
  refused (err e) = true

  abbrev pub restored : Option ReceiptData → Result ArtifactError Bytes
  restored none = err invalid_receipt
  restored (some d) =
      fail_if (data_invalid d) invalid_receipt
      >> fail_if (refused (new_candidate (profile_of d) (1 ∷ []))) invalid_receipt
      >> marshalled invalid_receipt d

  -- RestoreReceipt
  unfoldable pub restore_receipt : Bytes → Result ArtifactError Bytes
  restore_receipt encoded = restored (unmarshal encoded)

  -- Validated.Receipt
  unfoldable pub receipt_of : Validated → Result ArtifactError Bytes
  receipt_of v = protected_receipt v >>= λ encoded. restore_receipt encoded

  abbrev pub same_generation : ReceiptData → Result ArtifactError Candidate → Option Profile
  same_generation d (ok c) =
      if eq_bytes (generation_of c) d.generation then some (profile_of d) else none
  same_generation d (err e) = none

  abbrev pub matching : Bytes → Option ReceiptData → Option Profile
  matching content none = none
  matching content (some d) =
      if data_invalid d then none else same_generation d (new_candidate (profile_of d) content)

  -- MatchesProtectedReceipt
  unfoldable pub matches_protected_receipt : Bytes → Bytes → Option Profile
  matches_protected_receipt content encoded = matching content (unmarshal encoded)
