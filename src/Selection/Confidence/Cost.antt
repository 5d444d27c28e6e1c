-- ===== src/Selection/Confidence/Cost.antt =====
-- riskCost of internal/selection/selection.go has no overflow on the values it is called with.
use native.Mathlib.Nat.{div-add-mod, mod-lt}
use egressfox.Base.{
  ℕ, ◌+◌, ◌-◌, ◌*◌, ◌/◌, ◌%◌, ◌^◌, ◌≤◌, ◌<◌, ◌≡◌, arith, pos, wrap_int64, word64, quotient,
}
use egressfox.Observation.{max_duration}
use egressfox.Selection.Confidence.{risk_cost}

wrap_int64-small : (n : ℕ) → n < 2 ^ 63 → wrap_int64 n ≡ pos n
unfolding wrap_int64
wrap_int64-small n h = ground arith

wrapped_sum :
    (v c : ℕ) → 1 ≤ c → v + c < 2 ^ 63 → wrap_int64 (v + c + (2 ^ 64 - 1)) ≡ pos (v + c - 1)
unfolding wrap_int64
wrapped_sum v c h k = ground arith

word64-small : (n : ℕ) → n < 2 ^ 64 → word64 (pos n) ≡ n
unfolding word64
word64-small n h = ground arith

risk_cost_quotient :
    (duration confidence : ℕ)
    → 0 < duration
    → duration ≤ max_duration
    → 0 < confidence
    → confidence ≤ 1000000
    → risk_cost duration (pos confidence) ≡ pos ((duration * 1000000 + confidence - 1) / confidence)
unfolding risk_cost quotient
risk_cost_quotient d c h k p q =
    let product = wrap_int64-small (d * 1000000) (omega arith) in
    let value = word64-small (d * 1000000) (omega arith) in
    let divisor = word64-small c (omega arith) in
    let total = wrapped_sum (d * 1000000) c (omega arith) (omega arith) in
    ground (arith, product, value, divisor, total)

-- For a positive duration of at most two minutes and a confidence of 1 to 1000000 millionths, the
-- cost is the quotient of the duration and the confidence, rounded up to whole nanoseconds.
pub risk_cost_rounds_up :
    (duration confidence : ℕ)
    → 0 < duration
    → duration ≤ max_duration
    → 0 < confidence
    → confidence ≤ 1000000
    → (cost : ℕ) × (risk_cost duration (pos confidence) ≡ pos cost)
      × (duration * 1000000 ≤ cost * confidence)
      × (cost * confidence < duration * 1000000 + confidence)
risk_cost_rounds_up d c h k p q = (
  (d * 1000000 + c - 1) / c,
  risk_cost_quotient d c h k p q,
  omega (arith, exact, small),
  omega (arith, exact, small),
)
  where
    n : ℕ
    n = d * 1000000 + c - 1

    exact : c * (n / c) + n % c ≡ n
    exact = div-add-mod n c

    small : n % c < c
    small = mod-lt n p
