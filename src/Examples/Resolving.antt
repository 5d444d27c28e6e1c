-- ===== src/Examples/Resolving.antt =====
-- Retries and profiles at concrete inputs.
-- The first fetch meets a busy server, the second succeeds.
use egressfox.Selection.{contains_key}
use egressfox.Operator.Profiles.Resolution.{IsNamed, resolve_profile_sound}
use egressfox.Base.Bytes.{Bytes, eq_bytes, ascii}
use egressfox.Source.Retry.{retry_fetch, FetchError, Surroundings, failed, retry_from, retryable}
use egressfox.Source.Retry.Bounds.{Bounded, Fetched, retry_fetch_outcome}
use egressfox.Operator.Profiles.{
  resolve_profile, SelectionSpec, ProxyPool, TargetProfile, ProbeSpec, resolved_name, default_name,
  valid_profile_name, name_refused, fields_refused,
}
use egressfox.Base.{
  ℕ, zero, suc, ◌≡◌, refl, ◌⊎◌, true, false, none, some, [], ◌∷◌, Result, ok, err, pos,
}

abbrev fetches : ℕ → Result FetchError ℕ
fetches (suc zero) = err (failed (ascii "http_status") (pos 503) (pos 0))
fetches _ = ok 42

abbrev busy_once : Surroundings ℕ
busy_once = record {
  fetch = fetches;
  cancelled_after = λ n. false;
  cancelled_waiting = λ n. false;
  delay = none;
  jitter = λ n. 7;
}

second_succeeds : (retry_fetch busy_once).0 ≡ ok 42
unfolding retry_fetch retry_from retryable
second_succeeds = refl

retry_fetch_outcome_example :
    Bounded busy_once 2 (retry_fetch busy_once)
    × ((r : ℕ) → (retry_fetch busy_once).0 ≡ ok r → Fetched busy_once 2 1 r)
retry_fetch_outcome_example = retry_fetch_outcome busy_once

abbrev probe_of : Bytes → ProbeSpec ℕ ℕ
probe_of secret = record { target_secret_name = secret; target_secret_key = ascii "url"; other = 0 }

abbrev selection_of : ℕ → SelectionSpec ℕ ℕ
selection_of n = record { top_n = pos n; strategy = ascii "Static"; other = 0 }

abbrev web_profile : TargetProfile ℕ ℕ
web_profile = record {
  name = ascii "web";
  probe = probe_of (ascii "web-target");
  selection = selection_of 2;
}

abbrev pair_of : TargetProfile ℕ ℕ → ProbeSpec ℕ ℕ × SelectionSpec ℕ ℕ
pair_of q = (q.probe, q.selection)

abbrev web_pair : ProbeSpec ℕ ℕ × SelectionSpec ℕ ℕ
web_pair = pair_of web_profile

abbrev pool_of_two : ProxyPool ℕ ℕ
pool_of_two = record {
  profiles =
      record {
        name = ascii "mail";
        probe = probe_of (ascii "mail-target");
        selection = selection_of 3;
      }
      ∷ web_profile
      ∷ [];
  probe = probe_of (ascii "target");
  selection = selection_of 1;
}

abbrev pool_pair : ProbeSpec ℕ ℕ × SelectionSpec ℕ ℕ
pool_pair = (pool_of_two.probe, pool_of_two.selection)

web_resolves : resolve_profile (some pool_of_two) (ascii "web") ≡ ok web_pair
unfolding resolve_profile eq_bytes valid_profile_name name_refused contains_key fields_refused
web_resolves = refl

resolve_profile_sound_example :
    ((eq_bytes (resolved_name (ascii "web")) default_name ≡ true) × (web_pair ≡ pool_pair))
    ⊎ ((q : TargetProfile ℕ ℕ) × IsNamed pool_of_two.profiles (resolved_name (ascii "web")) q
        × (eq_bytes q.name default_name ≡ false)
        × (web_pair ≡ pair_of q))
resolve_profile_sound_example =
    resolve_profile_sound pool_of_two (ascii "web") web_pair web_resolves

is_named_web : resolved_name (ascii "web") ≡ ascii "web"
unfolding eq_bytes
is_named_web = refl
