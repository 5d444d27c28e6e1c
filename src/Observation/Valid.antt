-- ===== src/Observation/Valid.antt =====
-- What New of internal/observation/model.go admits.
use egressfox.Base.{
  ℕ, ◌≤◌, ◌<◌, ◌≡◌, Bool, true, false, arith, pos, ◌==◌, ok, >>=-eq-ok, if◌then◌else◌,
}
use egressfox.Base.Bytes.{Bytes}
use egressfox.Observation.Keys.{Key, new_key}
use egressfox.Observation.{
  Params, Observation, new, digest_input, max_duration, outcome_success, outcome_response_too_large,
  outcome_unexpected_response,
}

-- A status is there exactly with the outcomes of a response.
abbrev pub StatusFits : Bool → ℕ → Type 0
StatusFits true status = (100 ≤ status) × (status ≤ 599)
StatusFits false status = status ≡ 0

abbrev pub carries_status : ℕ → Bool
carries_status outcome =
    if outcome == outcome_success then true else outcome == outcome_unexpected_response

pub record IsValid (sha256 : Bytes → Bytes) (v : Observation) : Type 0 where
  pub started : 0 < v.started_at
  pub ordered : v.started_at ≤ v.completed_at
  pub bounded : v.duration ≤ max_duration
  pub known_outcome : (outcome_success ≤ v.outcome) × (v.outcome ≤ outcome_response_too_large)
  pub status_fits : StatusFits (carries_status v.outcome) v.status_code
  pub key_valid :
      new_key v.key.connection v.key.target v.key.vantage v.key.kind v.key.profile ≡ ok v.key
  pub identified :
      v.sample_id
      ≡ sha256 (digest_input v.key v.started_at v.completed_at v.duration v.outcome v.status_code)

new_key-eq :
    (k : Key) (k' : Key) → new_key k.connection k.target k.vantage k.kind k.profile ≡ ok k' → k' ≡ k
unfolding new_key
new_key-eq k k' h = ground arith

-- The fields of an observation as parameters of New.
abbrev pub restored_params : Observation → Params
restored_params v = record {
  key = v.key;
  started_at = v.started_at;
  completed_at = v.completed_at;
  duration = pos v.duration;
  outcome = v.outcome;
  status_code = pos v.status_code;
}

-- New admits only observations that are timed in order within two minutes, have a known outcome,
-- a status exactly with a response, a valid key, and the digest of their fields as sample id.
pub new-IsValid :
    (sha256 : Bytes → Bytes) (p : Params) (v : Observation) → new sha256 p ≡ ok v → IsValid sha256 v
unfolding new
new-IsValid sha256 p v h =
    let (key, made, rest) =
      >>=-eq-ok (new_key p.key.connection p.key.target p.key.vantage p.key.kind p.key.profile) _
        h in
    ground (arith, new_key-eq p.key key made)

-- New of the fields of a valid observation gives this observation.
pub new-restored_params :
    (sha256 : Bytes → Bytes) (v : Observation)
    → IsValid sha256 v
    → new sha256 (restored_params v) ≡ ok v
unfolding new
new-restored_params sha256 v h = rw h.key_valid (ground arith)
