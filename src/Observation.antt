-- ===== src/Observation.antt =====
-- internal/observation/model.go: validated observations.
-- A time is the number of nanoseconds since Go's zero time, a duration a number of nanoseconds;
-- a duration or status that the code checks for a sign is an integer. `sha256` is crypto/sha256.
pub mod Keys
pub mod Valid
pub mod Summary
use egressfox.Base.{
  ℕ, ◌+◌, ◌-◌, ◌*◌, ◌%◌, ◌^◌, Bool, not, ◌||◌, Option, none, some, List, [], ◌∷◌, ◌++◌, ltb, leb,
  ◌==◌, ℤ, pos, pos_part, ltb_ℤ, length, Result, ok, err, fail_if, ◌>>=◌, ◌>>◌, if◌then◌else◌,
}
use egressfox.Base.Bytes.{Bytes, ascii, big_endian}
use egressfox.Endpoint.{Revision, id_string}
use Keys.{
  Key, ModelError, invalid_key, invalid_timing, invalid_outcome, invalid_status, unexpected_status,
  new_key,
}

abbrev pub outcome_success : ℕ
outcome_success = 1

abbrev pub outcome_timeout : ℕ
outcome_timeout = 2

abbrev pub outcome_unexpected_response : ℕ
outcome_unexpected_response = 5

abbrev pub outcome_response_too_large : ℕ
outcome_response_too_large = 6

-- Two minutes.
abbrev pub max_duration : ℕ
max_duration = 120000000000

pub record Params : Type 0 where
  pub key : Key
  pub started_at : ℕ
  pub completed_at : ℕ
  pub duration : ℤ
  pub outcome : ℕ
  pub status_code : ℤ

pub record Observation : Type 0 where
  pub key : Key
  pub started_at : ℕ
  pub completed_at : ℕ
  pub duration : ℕ
  pub outcome : ℕ
  pub status_code : ℕ
  pub sample_id : Bytes

unfoldable pub successful : Observation → Bool
successful value = value.outcome == outcome_success

-- Nanoseconds from Go's zero time to the Unix epoch.
abbrev pub unix_epoch : ℕ
unix_epoch = 62135596800 * 1000000000

-- uint64(t.UnixNano()), which wraps.
unfoldable pub unix_nano_word : ℕ → ℕ
unix_nano_word t = (t + 2 ^ 66 - unix_epoch) % 2 ^ 64

unfoldable pub digest_string : Bytes → Bytes
unfolding big_endian
digest_string value = big_endian 4 (length value % 2 ^ 32) ++ value

abbrev pub revealed : Revision → Bytes
revealed none = []
revealed (some digest) = digest

-- The bytes that observationDigest hashes.
unfoldable pub digest_input : Key → ℕ → ℕ → ℕ → ℕ → ℕ → Bytes
unfolding digest_string unix_nano_word
digest_input key started completed duration outcome status =
    ascii "egressfox.observation/v1"
    ++ (digest_string (id_string key.connection.id)
        ++ (revealed key.connection.revision
            ++ (digest_string key.target.id
                ++ (revealed key.target.revision
                    ++ (digest_string key.vantage
                        ++ ((key.kind % 256) ∷ (key.profile.engine % 256) ∷ (outcome % 256) ∷ []
                            ++ (digest_string key.profile.version
                                ++ (digest_string key.profile.renderer_schema
                                    ++ (big_endian 8 (unix_nano_word started)
                                        ++ (big_endian 8 (unix_nano_word completed)
                                            ++ (big_endian 8 duration
                                                ++ big_endian 8 status)))))))))))

abbrev pub zero_time : ℕ → Bool
zero_time t = t == 0

unfoldable pub timing_invalid : Params → Bool
timing_invalid p =
    zero_time p.started_at
    || zero_time p.completed_at
    || ltb p.completed_at p.started_at
    || ltb_ℤ p.duration (pos 0)
    || ltb_ℤ (pos max_duration) p.duration

unfoldable pub outcome_invalid : Params → Bool
outcome_invalid p = ltb p.outcome outcome_success || ltb outcome_response_too_large p.outcome

unfoldable pub has_status : Params → Bool
has_status p = p.outcome == outcome_success || p.outcome == outcome_unexpected_response

unfoldable pub status_invalid : Params → Bool
status_invalid p = ltb_ℤ p.status_code (pos 100) || ltb_ℤ (pos 599) p.status_code

abbrev pub is_zero : ℤ → Bool
is_zero (pos n) = n == 0
is_zero (ℤ.negsuc n) = Bool.false

-- New.
unfoldable pub new : (Bytes → Bytes) → Params → Result ModelError Observation
unfolding timing_invalid outcome_invalid has_status status_invalid
new sha256 p = do
  key ← new_key p.key.connection p.key.target p.key.vantage p.key.kind p.key.profile
  fail_if (timing_invalid p) invalid_timing
  fail_if (outcome_invalid p) invalid_outcome
  if has_status p
      then fail_if (status_invalid p) invalid_status
      else fail_if (not (is_zero p.status_code)) unexpected_status
  ok (record {
    key = key;
    started_at = p.started_at;
    completed_at = p.completed_at;
    duration = pos_part p.duration;
    outcome = p.outcome;
    status_code = pos_part p.status_code;
    sample_id = sha256 (
        digest_input key p.started_at p.completed_at (pos_part p.duration) p.outcome
          (pos_part p.status_code));
  })
