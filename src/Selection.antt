-- ===== src/Selection.antt =====
-- internal/selection/selection.go: policies, contexts, states and decisions.
-- Counts are numbers; the fields of a policy are Go integers, so they have a sign until `validate`.
pub mod Confidence
pub mod Evaluate
pub mod Rank
pub mod Select
pub mod Replay
use egressfox.Base.{
  ℕ, ◌^◌, Bool, true, false, not, ◌&&◌, ◌||◌, Option, none, some, List, [], ◌∷◌, ◌++◌, leb, ltb,
  ◌==◌, ℤ, pos, ltb_ℤ, leb_ℤ, word64, length, Result, ok, err, fail_if, ◌>>=◌, ◌>>◌, is_none,
  if◌then◌else◌,
}
use egressfox.Base.Bytes.{Bytes, ascii, eq_bytes, big_endian}
use egressfox.Artifact.{Profile, profile_equal, all_safe}
use egressfox.Endpoint.{Record, id_string, invalid_endpoint_id, is_empty}
use egressfox.Observation.{revealed, zero_time}
use egressfox.Observation.Keys.{
  ConnectionRef, TargetRef, Key, kind_http_get, supported_profile, target_equal,
}
use egressfox.Observation.Summary.{Summary}

abbrev pub strategy_static : ℕ
strategy_static = 1

abbrev pub strategy_lowest_latency : ℕ
strategy_lowest_latency = 2

abbrev pub strategy_adaptive : ℕ
strategy_adaptive = 3

pub record Policy : Type 0 where
  pub strategy : ℕ
  pub top_n : ℤ
  pub evidence_window : ℤ
  pub freshness : ℤ
  pub min_samples : ℤ
  pub min_success_permille : ℤ
  pub failure_streak : ℤ
  pub recovery_successes : ℤ
  pub residence : ℤ
  pub cooldown : ℤ
  pub required_improvement_permille : ℤ

abbrev pub default_policy : ℕ → Policy
default_policy strategy = record {
  strategy = strategy;
  top_n = pos 1;
  evidence_window = pos 1800000000000;
  freshness = pos 300000000000;
  min_samples = pos 3;
  min_success_permille = pos 600;
  failure_streak = pos 2;
  recovery_successes = pos 3;
  residence = pos 600000000000;
  cooldown = pos 900000000000;
  required_improvement_permille = pos 100;
}

pub data SelectError : Type 0 where
  invalid_strategy invalid_bounds unsafe_scope_or_time stale_evaluation : SelectError
  duplicate_candidates invalid_identity : SelectError

-- low ≤ value ≤ high.
abbrev pub outside : ℕ → ℕ → ℤ → Bool
outside low high value = ltb_ℤ value (pos low) || ltb_ℤ (pos high) value

unfoldable pub bounds_invalid : Policy → Bool
bounds_invalid p =
    outside 1 10000 p.top_n
    || outside 1 512 p.min_samples
    || outside 1 1000 p.min_success_permille
    || outside 1 512 p.failure_streak
    || outside 1 512 p.recovery_successes
    || outside 1 2592000000000000 p.evidence_window
    || leb_ℤ p.freshness (pos 0)
    || ltb_ℤ p.evidence_window p.freshness
    || outside 0 604800000000000 p.residence
    || outside 0 2592000000000000 p.cooldown
    || outside 0 999 p.required_improvement_permille

-- Policy.Validate.
unfoldable pub validate : Policy → Result SelectError (Unit {0})
validate p =
    fail_if (ltb p.strategy strategy_static || ltb strategy_adaptive p.strategy) invalid_strategy
    >> fail_if (bounds_invalid p) invalid_bounds

pub record Context : Type 0 where
  pub target : TargetRef
  pub vantage : Bytes
  pub kind : ℕ
  pub profile : Profile

-- Whether NewContext accepts the four dimensions.
unfoldable pub context_valid : Context → Bool
context_valid c =
    not (is_empty c.target.id)
    && not (is_empty c.vantage)
    && c.kind == kind_http_get
    && supported_profile c.profile
    && not (is_none c.target.revision)

-- Context.Matches.
unfoldable pub matches : Context → Key → Bool
matches c key =
    target_equal c.target key.target
    && eq_bytes c.vantage key.vantage
    && c.kind == key.kind
    && profile_equal c.profile key.profile

-- contextsEqual
unfoldable pub contexts_equal : Context → Context → Bool
contexts_equal a b =
    target_equal a.target b.target
    && eq_bytes a.vantage b.vantage
    && a.kind == b.kind
    && profile_equal a.profile b.profile

pub record Candidate : Type 0 where
  pub endpoint : Record
  pub evidence : Option Summary

pub record Member : Type 0 where
  pub connection : ConnectionRef
  pub selected_at : ℕ

pub record Cooldown : Type 0 where
  pub connection : ConnectionRef
  pub until : ℕ

pub record State : Type 0 where
  pub scope : Bytes
  pub context : Context
  pub policy_fingerprint : Bytes
  pub evaluated_at : ℕ
  pub members : List Member
  pub cooldowns : List Cooldown

-- refKey: the map key of a reference.
unfoldable pub ref_key : ConnectionRef → Bytes
unfolding id_string
ref_key ref = id_string ref.id ++ revealed ref.revision

unfoldable pub contains_key : Bytes → List Bytes → Bool
unfolding eq_bytes
contains_key k [] = false
contains_key k (j ∷ js) = eq_bytes j k || contains_key k js

-- safeScope
unfoldable pub safe_scope : Bytes → Bool
safe_scope value = leb 1 (length value) && leb (length value) 128 && all_safe value

unfoldable pub all_zero : Bytes → Bool
all_zero [] = true
all_zero (b ∷ bs) = b == 0 && all_zero bs

-- The loops of State.Validate, with the keys that they have seen.
unfoldable pub members_valid : List Bytes → List Member → Bool
unfolding contains_key
members_valid seen [] = true
members_valid seen (m ∷ ms) =
    not (zero_time m.selected_at)
    && not (eq_bytes (id_string m.connection.id) invalid_endpoint_id)
    && not (is_none m.connection.revision)
    && not (contains_key (ref_key m.connection) seen)
    && members_valid (ref_key m.connection ∷ seen) ms

unfoldable pub cooldowns_valid : List Bytes → List Cooldown → Bool
unfolding contains_key
cooldowns_valid seen [] = true
cooldowns_valid seen (c ∷ cs) =
    not (zero_time c.until)
    && not (is_none c.connection.revision)
    && not (contains_key (ref_key c.connection) seen)
    && cooldowns_valid (ref_key c.connection ∷ seen) cs

-- State.Validate.
unfoldable pub state_valid : State → Bool
unfolding safe_scope context_valid members_valid cooldowns_valid
state_valid s =
    safe_scope s.scope
    && context_valid s.context
    && not (all_zero s.policy_fingerprint)
    && not (zero_time s.evaluated_at)
    && members_valid [] s.members
    && cooldowns_valid [] s.cooldowns

-- PutUint64 of an int64.
unfoldable pub policy_field : ℤ → Bytes
unfolding big_endian word64
policy_field z = big_endian 8 (word64 z)

-- The bytes that policyFingerprint hashes.
unfoldable pub fingerprint_input : Policy → Bytes
unfolding policy_field
fingerprint_input p =
    ascii "adaptive/v1"
    ++ (big_endian 8 p.strategy
        ++ (policy_field p.top_n
            ++ (policy_field p.evidence_window
                ++ (policy_field p.freshness
                    ++ (policy_field p.min_samples
                        ++ (policy_field p.min_success_permille
                            ++ (policy_field p.failure_streak
                                ++ (policy_field p.recovery_successes
                                    ++ (policy_field p.residence
                                        ++ (policy_field p.cooldown
                                            ++ policy_field
                                                p.required_improvement_permille))))))))))

pub data Reason : Type 0 where
  eligible missing_evidence wrong_context wrong_revision stale insufficient_samples : Reason
  unreliable failure_streak no_successful_latency cooldown recovery : Reason

pub record Explanation : Type 0 where
  pub connection : ConnectionRef
  pub endpoint_id : Bytes
  pub reason : Reason
  pub samples : ℕ
  pub successes : ℕ
  pub success_permille : ℕ
  pub mean_success_duration : ℕ
  pub confidence_ppm : ℤ
  pub adaptive_cost_nanos : ℤ
  pub incumbent : Bool
  pub residence_active : Bool

pub data Transition : Type 0 where
  initial unchanged optimized emergency context_reset no_eligible : Transition

pub record Decision : Type 0 where
  pub selected : List Record
  pub explanations : List Explanation
  pub next : State
  pub changed : Bool
  pub degraded : Bool
  pub transition : Transition
  pub eligible : ℕ
  pub requested : ℤ

pub record Ranked : Type 0 where
  pub candidate : Candidate
  pub ref : ConnectionRef
  pub explanation : Explanation

-- A decision's equality of reasons is decidable.
pub Reason-discrete : Discrete Reason
Reason-discrete = hlevel
