-- ===== src/Source/Retry.antt =====
-- internal/source/retry.go. Waits are nanoseconds; the waits that were made are returned beside the
-- result.
pub mod Bounds
use egressfox.Base.Bytes.{eq_bytes, Bytes, ascii}
use egressfox.Base.{
  ℕ, zero, suc, ◌+◌, ◌-◌, ◌*◌, ◌≤◌, ◌<◌, ◌≡◌, refl, sym, ap, subst, ◌∙◌, ◌⊎◌, inl, inr, Bool, true,
  false, not, ◌&&◌, ◌||◌, Option, none, some, List, [], ◌∷◌, ◌++◌, map, arith, ltb, leb, ◌==◌,
  if◌then◌else◌, if_rule, Bool-cases, Option-cases, is_none, length, All, Result, ok, err,
  Result-cases, ℤ, ltb_ℤ, pos, eq_ℤ, ◌^◌, leb_ℤ,
}

pub data FetchError : Type 0 where
  failed : (code : Bytes) (status : ℤ) (retry_after : ℤ) → FetchError
  other_error : FetchError
  -- ctx.Err()
  cancelled : FetchError

abbrev pub is_code : Bytes → Bytes → Bool
is_code code name = eq_bytes code name

unfoldable pub retryable : FetchError → Bool
unfolding eq_bytes
retryable (failed code status retry_after) =
    is_code code (ascii "timeout")
    || is_code code (ascii "request")
    || is_code code (ascii "resolve")
    || (is_code code (ascii "http_status")
        && (eq_ℤ status (pos 429) || (leb_ℤ (pos 500) status && leb_ℤ status (pos 599))))
retryable other_error = false
retryable cancelled = false

abbrev pub max_wait : ℕ
max_wait = 2000000000

-- What surrounds the loop, by the number of the attempt: the fetches, the context after a fetch and
-- during a wait, the delay function if there is one, and the random part of the default delay.
pub record Surroundings (R : Type 0) : Type 0 where
  pub fetch : ℕ → Result FetchError R
  pub cancelled_after : ℕ → Bool
  pub cancelled_waiting : ℕ → Bool
  pub delay : Option (ℕ → ℤ)
  pub jitter : ℕ → ℕ

abbrev pub asked_delay : FetchError → ℤ → ℤ
asked_delay (failed code status retry_after) wait =
    if ltb_ℤ wait retry_after then retry_after else wait
asked_delay other_error wait = wait
asked_delay cancelled wait = wait

abbrev pub clamp_wait : ℤ → ℤ
clamp_wait wait =
    let at_least = if ltb_ℤ wait (pos 0) then pos 0 else wait in
    if ltb_ℤ (pos max_wait) at_least then pos max_wait else at_least

module _ {R : Type 0} (around : Surroundings R) where
  abbrev pub own_delay : Option (ℕ → ℤ) → ℕ → ℤ
  own_delay none attempt = pos (2 ^ (attempt - 1) * 200000000 + around.jitter attempt)
  own_delay (some delay) attempt = delay attempt

  unfoldable pub wait_after : FetchError → ℕ → ℤ
  wait_after e attempt = clamp_wait (asked_delay e (own_delay around.delay attempt))

  abbrev pub add_wait : ℤ → Result FetchError R × List ℤ → Result FetchError R × List ℤ
  add_wait wait (r, waits) = (r, wait ∷ waits)

  -- The body of the loop after a fetch, given the rest of the loop.
  abbrev pub after_fetch :
      Bool → ℕ → Result FetchError R → Result FetchError R × List ℤ → Result FetchError R × List ℤ
  after_fetch is_last attempt (ok r) rest = (ok r, [])
  after_fetch is_last attempt (err e) rest =
      if not (retryable e) || is_last || around.cancelled_after attempt
      then (err e, [])
      else add_wait (wait_after e attempt)
          (if around.cancelled_waiting attempt then (err cancelled, []) else rest)

  -- The loop, with the number of attempts that are left after this one.
  unfoldable pub retry_from : ℕ → ℕ → Result FetchError R × List ℤ
  retry_from zero attempt = after_fetch true attempt (around.fetch attempt) (err cancelled, [])
  retry_from (suc left) attempt =
      after_fetch false attempt (around.fetch attempt) (retry_from left (attempt + 1))

  -- RetryFetch
  unfoldable pub retry_fetch : Result FetchError R × List ℤ
  retry_fetch = retry_from 2 1
