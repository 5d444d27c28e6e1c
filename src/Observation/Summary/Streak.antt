-- ===== src/Observation/Summary/Streak.antt =====
-- The streak counters of internal/observation/summary.go against their meaning.
use egressfox.Base.{ℕ, suc, ◌+◌, ◌≡◌, refl, Bool, not, List, [], ◌∷◌, arith, length, if◌then◌else◌}
use egressfox.Observation.{Observation, successful}
use egressfox.Observation.Summary.{streak, no_streak}

-- The values before the first that fails the test.
abbrev pub take_while : (Observation → Bool) → List Observation → List Observation
take_while p [] = []
take_while p (v ∷ vs) = let rest = take_while p vs in if p v then v ∷ rest else []

abbrev pub failed : Observation → Bool
failed v = not (successful v)

streak_successes :
    (vs : List Observation) (n : ℕ)
    → streak vs (record { successes = suc n; failures = 0 })
      ≡ record { successes = suc n + length (take_while successful vs); failures = 0 }
unfolding streak
streak_successes [] n = ground arith
streak_successes (v ∷ vs) n = ground (arith, streak_successes vs (suc n))

streak_failures :
    (vs : List Observation) (n : ℕ)
    → streak vs (record { successes = 0; failures = suc n })
      ≡ record { successes = 0; failures = suc n + length (take_while failed vs) }
unfolding streak
streak_failures [] n = ground arith
streak_failures (v ∷ vs) n = ground (arith, streak_failures vs (suc n))

-- From the latest value back, the counters are the lengths of the run of successes and of the run
-- of failures with which the list begins.
pub streak-runs :
    (vs : List Observation)
    → streak vs no_streak ≡ record {
      successes = length (take_while successful vs);
      failures = length (take_while failed vs);
    }
unfolding streak
streak-runs [] = refl
streak-runs (v ∷ vs) = ground (arith, streak_successes vs 0, streak_failures vs 0)
