-- ===== src/Examples/Receipts.antt =====
-- Receipts at concrete inputs, with an encoding that knows one receipt.
use egressfox.Artifact.Receipts.Matching.{
  matches_protected_receipt-protected_receipt, matches_protected_receipt_sound,
}
use egressfox.Artifact.{mihomo_11931, safe_validator_id}
use egressfox.Base.Bytes.{ascii, Bytes, eq_bytes, eq_bytes_sound}
use egressfox.Base.{
  ◌≡◌, refl, sym, ap, subst, inl, inr, Bool, true, ◌&&◌, Option, none, some, [], ◌∷◌, arith, ◌==◌,
  if◌then◌else◌, Bool-cases, ok, ltb, All, ◌<◌,
}
use egressfox.Artifact.Receipts.{
  Candidate, Validated, validate, ReceiptData, Encoding, new_candidate, protected_receipt,
  matches_protected_receipt, profile_of, generation_of, HasText,
}

abbrev pub digest_32 : Bytes
digest_32 =
    1 ∷ 2 ∷ 3 ∷ 4 ∷ 5 ∷ 6 ∷ 7 ∷ 8 ∷ 9 ∷ 10 ∷ 11 ∷ 12 ∷ 13 ∷ 14 ∷ 15 ∷ 16 ∷ 17 ∷ 18 ∷ 19 ∷ 20 ∷ 21
    ∷ 22 ∷ 23 ∷ 24 ∷ 25 ∷ 26 ∷ 27 ∷ 28 ∷ 29 ∷ 30 ∷ 31 ∷ 32 ∷ []

abbrev known : ReceiptData
known = record {
  engine = 1;
  version = mihomo_11931.version;
  renderer_schema = mihomo_11931.renderer_schema;
  media_type = mihomo_11931.media_type;
  generation = digest_32;
  validator_id = ascii "native";
}

abbrev is_known : ReceiptData → Bool
is_known d =
    d.engine == known.engine
    && eq_bytes d.version known.version
    && eq_bytes d.renderer_schema known.renderer_schema
    && eq_bytes d.media_type known.media_type
    && eq_bytes d.generation known.generation
    && eq_bytes d.validator_id known.validator_id

known_sound : (d : ReceiptData) → is_known d ≡ true → d ≡ known
known_sound d h = ground (
  arith,
  eq_bytes_sound d.version known.version,
  eq_bytes_sound d.renderer_schema known.renderer_schema,
  eq_bytes_sound d.media_type known.media_type,
  eq_bytes_sound d.generation known.generation,
  eq_bytes_sound d.validator_id known.validator_id,
)

abbrev decode_known : Bytes → Option ReceiptData
decode_known [] = none
decode_known (b ∷ bs) = some known

pub decode_encode :
    (d : ReceiptData) (encoded : Bytes)
    → HasText (profile_of d)
    → safe_validator_id d.validator_id ≡ true
    → (if is_known d then some (123 ∷ []) else none) ≡ some encoded
    → decode_known encoded ≡ some d
decode_encode d encoded text safe h = elim (Bool-cases (is_known d)) [
  | inr e ↦ absurd (ground arith)
  | inl e ↦
      let one : 123 ∷ [] ≡ encoded = ground arith in
      subst (λ b. decode_known b ≡ some d) one (ap some (sym (known_sound d e)))
]

abbrev pub test_encoding : Encoding
test_encoding = record {
  marshal = λ d. if is_known d then some (123 ∷ []) else none;
  unmarshal = decode_known;
  sha256 = λ b. digest_32;
  unmarshal-marshal = decode_encode;
  length-sha256 = λ b. refl;
}

abbrev all_ascii : Bytes → Bool
all_ascii [] = true
all_ascii (b ∷ bs) = ltb b 128 && all_ascii bs

all_ascii_sound : (bs : Bytes) → all_ascii bs ≡ true → All (λ b. b < 128) bs
all_ascii_sound [] h = tt
all_ascii_sound (b ∷ bs) h = (ground arith, all_ascii_sound bs (ground arith))

mihomo_text : HasText mihomo_11931
mihomo_text = (
  all_ascii_sound mihomo_11931.version refl,
  all_ascii_sound mihomo_11931.renderer_schema refl,
  all_ascii_sound mihomo_11931.media_type refl,
)

abbrev small_candidate : Candidate
small_candidate = record { profile = mihomo_11931; content = 7 ∷ [] }

abbrev native_checker : Option (Candidate → Option Bytes)
native_checker = some (λ c. some (ascii "native"))

abbrev small_artifact : Validated
small_artifact = record {
  candidate = small_candidate;
  generation = digest_32;
  validator_id = ascii "native";
}

is_candidate : new_candidate mihomo_11931 (7 ∷ []) ≡ ok small_candidate
unfolding new_candidate
is_candidate = refl

is_validated : validate test_encoding small_candidate native_checker ≡ ok small_artifact
unfolding validate safe_validator_id generation_of
is_validated = refl

has_receipt : protected_receipt test_encoding small_artifact ≡ ok (123 ∷ [])
unfolding protected_receipt safe_validator_id eq_bytes
has_receipt = refl

matches_protected_receipt-protected_receipt_example :
    matches_protected_receipt test_encoding (7 ∷ []) (123 ∷ []) ≡ some mihomo_11931
matches_protected_receipt-protected_receipt_example =
    matches_protected_receipt-protected_receipt test_encoding mihomo_11931 (7 ∷ []) small_candidate
      native_checker small_artifact (123 ∷ []) mihomo_text is_candidate is_validated has_receipt

matches_small : matches_protected_receipt test_encoding (7 ∷ []) (123 ∷ []) ≡ some mihomo_11931
matches_small =
    matches_protected_receipt-protected_receipt test_encoding mihomo_11931 (7 ∷ []) small_candidate
      native_checker small_artifact (123 ∷ []) mihomo_text is_candidate is_validated has_receipt

matches_protected_receipt_sound_example :
    (d : ReceiptData) × (decode_known (123 ∷ []) ≡ some d)
    × (mihomo_11931 ≡ profile_of d)
    × (d.generation ≡ generation_of test_encoding small_candidate)
    × (safe_validator_id d.validator_id ≡ true)
matches_protected_receipt_sound_example =
    matches_protected_receipt_sound test_encoding (7 ∷ []) (123 ∷ []) mihomo_11931 matches_small
