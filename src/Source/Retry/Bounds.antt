-- ===== src/Source/Retry/Bounds.antt =====
-- The attempts and the waits of internal/source/retry.go.
use egressfox.Source.Retry.{
  Surroundings, clamp_wait, FetchError, wait_after, retry_from, max_wait, retryable, asked_delay,
  after_fetch, cancelled, retry_fetch, own_delay,
}
use egressfox.Base.{
  ℕ, zero, suc, ◌+◌, ◌≤◌, ◌≡◌, refl, subst, ◌∙◌, inl, inr, Bool, true, false, not, ◌||◌, List, [],
  arith, ltb, if◌then◌else◌, Bool-cases, length, All, Result, ok, err, Result-cases, ℤ, pos, negsuc,
}

abbrev pub IsWait : ℤ → Type 0
IsWait wait = (n : ℕ) × (wait ≡ pos n) × (n ≤ max_wait)

module _ {R : Type 0} (around : Surroundings R) where
  clamp_wait-IsWait : (wait : ℤ) → IsWait (clamp_wait wait)
  clamp_wait-IsWait (pos n) = elim (Bool-cases (ltb max_wait n)) [
    | inl e ↦ (max_wait, ground arith, omega arith)
    | inr e ↦ (n, ground arith, ground arith)
  ]
  clamp_wait-IsWait (negsuc n) = (0, ground arith, omega arith)

  -- The attempts before this one failed in a way that may be retried.
  abbrev pub Retried : ℕ → ℕ → Type 0
  Retried first zero = Unit {0}
  Retried first (suc n) =
      ((e : FetchError) × (around.fetch first ≡ err e) × (retryable e ≡ true))
      × Retried (first + 1) n

  -- A result comes from an attempt; those before it were retried.
  pub record Fetched (left first : ℕ) (r : R) : Type 0 where
    pub count : ℕ
    pub in_range : count ≤ left
    pub its_fetch : around.fetch (first + count) ≡ ok r
    pub others : Retried first count

  wait_after-IsWait : (e : FetchError) (attempt : ℕ) → IsWait (wait_after around e attempt)
  unfolding wait_after
  wait_after-IsWait e attempt =
      clamp_wait-IsWait (asked_delay e (own_delay around around.delay attempt))

  abbrev pub Bounded : ℕ → Result FetchError R × List ℤ → Type 0
  Bounded n run = All IsWait run.1 × (length run.1 ≤ n)

  after_fetch-Bounded :
      (attempt n : ℕ) (answer : Result FetchError R) (rest : Result FetchError R × List ℤ)
      → Bounded n rest
      → Bounded (suc n) (after_fetch around false attempt answer rest)
  after_fetch-Bounded attempt n (ok r) rest h = (tt, omega arith)
  after_fetch-Bounded attempt n (err e) rest h =
      elim (Bool-cases (not (retryable e) || false || around.cancelled_after attempt)) [
        | inl stop ↦ rw stop (tt, omega arith)
        | inr go_on ↦ elim (Bool-cases (around.cancelled_waiting attempt)) [
          | inl c ↦ rw (go_on, c) ((wait_after-IsWait e attempt, tt), omega arith)
          | inr c ↦ rw (go_on, c) ((wait_after-IsWait e attempt, h.0), omega (arith, h.1))
        ]
      ]

  last_fetch-Bounded :
      (attempt : ℕ) (answer : Result FetchError R) (rest : Result FetchError R × List ℤ)
      → Bounded 0 (after_fetch around true attempt answer rest)
  last_fetch-Bounded attempt (ok r) rest = (tt, omega arith)
  last_fetch-Bounded attempt (err e) rest = elim (Bool-cases (retryable e)) [
    | inl k ↦ rw k (tt, omega arith)
    | inr k ↦ rw k (tt, omega arith)
  ]

  retry_from-Bounded : (left attempt : ℕ) → Bounded left (retry_from around left attempt)
  unfolding retry_from
  retry_from-Bounded zero attempt =
      last_fetch-Bounded attempt (around.fetch attempt) (err cancelled, [])
  retry_from-Bounded (suc left) attempt =
      after_fetch-Bounded attempt left (around.fetch attempt) (retry_from around left (attempt + 1))
        (retry_from-Bounded left (attempt + 1))

  stopped :
      (stop : Bool) (e : FetchError) (rest : Result FetchError R × List ℤ) (r : R)
      → (if stop then (err e, []) else rest).0 ≡ ok r
      → (stop ≡ false) × (rest.0 ≡ ok r)
  stopped true e rest r h = cc
  stopped false e rest r h = (refl, h)

  here : (left attempt : ℕ) (r : R) → around.fetch attempt ≡ ok r → Fetched left attempt r
  here left attempt r e = record {
    count = 0;
    in_range = omega arith;
    its_fetch = subst (λ n. around.fetch n ≡ ok r) (omega arith) e;
    others = tt;
  }

  later :
      (left attempt : ℕ) (r : R) (e : FetchError)
      → around.fetch attempt ≡ err e
      → retryable e ≡ true
      → Fetched left (attempt + 1) r
      → Fetched (suc left) attempt r
  later left attempt r e failure again f = record {
    count = suc f.count;
    in_range = omega (arith, f.in_range);
    its_fetch = subst (λ n. around.fetch n ≡ ok r) (omega arith) f.its_fetch;
    others = ((e, failure, again), f.others);
  }

  in_time :
      (attempt : ℕ) (rest : Result FetchError R × List ℤ) (r : R)
      → (if around.cancelled_waiting attempt then (err cancelled, []) else rest).0 ≡ ok r
      → rest.0 ≡ ok r
  in_time attempt rest r h = (stopped (around.cancelled_waiting attempt) cancelled rest r h).1

  retry_from-Fetched :
      (left attempt : ℕ) (r : R)
      → (retry_from around left attempt).0 ≡ ok r
      → Fetched left attempt r
  unfolding retry_from
  retry_from-Fetched zero attempt r h = elim (Result-cases (around.fetch attempt)) [
    | inl (x, e) ↦
        here zero attempt r
          (e ∙ subst (λ a. (after_fetch around true attempt a (err cancelled, [])).0 ≡ ok r) e h)
    | inr (e, failure) ↦ absurd (
        never_ok e
          (subst (λ a. (after_fetch around true attempt a (err cancelled, [])).0 ≡ ok r) failure h))
  ]
    where
      never_ok :
          (e : FetchError)
          → ¬ ((after_fetch around true attempt (err e) (err cancelled, [])).0 ≡ ok r)
      never_ok e k = ground arith
  retry_from-Fetched (suc left) attempt r h = elim (Result-cases (around.fetch attempt)) [
    | inl (x, e) ↦ here (suc left) attempt r (
        e
        ∙ subst
            (λ a.
              (after_fetch around false attempt a (retry_from around left (attempt + 1))).0 ≡ ok r)
            e h)
    | inr (e, failure) ↦
        let on_error =
          subst
            (λ a.
              (after_fetch around false attempt a (retry_from around left (attempt + 1))).0 ≡ ok r)
            failure h in
        let split =
          stopped (not (retryable e) || false || around.cancelled_after attempt) e _ r on_error in
        let again : retryable e ≡ true = ground (arith, split.0) in
        later left attempt r e failure again (
          retry_from-Fetched left (attempt + 1) r
            (in_time attempt (retry_from around left (attempt + 1)) r split.1))
  ]

  -- RetryFetch waits at most twice, and every wait is between zero and two seconds.
  pub retry_fetch-Bounded : Bounded 2 (retry_fetch around)
  unfolding retry_fetch
  retry_fetch-Bounded = retry_from-Bounded 2 1

  -- When RetryFetch returns a result, it is that of one of at most three attempts, and every attempt
  -- before it failed with a transient error.
  pub retry_fetch-Fetched : (r : R) → (retry_fetch around).0 ≡ ok r → Fetched 2 1 r
  unfolding retry_fetch
  retry_fetch-Fetched r h = retry_from-Fetched 2 1 r h

  -- RetryFetch waits at most twice, each time between zero and two seconds; and when it returns a
  -- result, it is that of one of at most three attempts, before which every attempt failed with a
  -- transient error.
  pub retry_fetch_outcome :
      Bounded 2 (retry_fetch around) × ((r : R) → (retry_fetch around).0 ≡ ok r → Fetched 2 1 r)
  retry_fetch_outcome = (retry_fetch-Bounded, retry_fetch-Fetched)
