-- ===== src/Selection/Confidence.antt =====
-- wilsonLowerPPM and riskCost of internal/selection/selection.go. Go's float64 and crypto/sha256 are
-- the interface `Platform`.
pub mod Cost
use egressfox.Base.{
  ℕ, ◌+◌, ◌-◌, ◌*◌, ◌%◌, ◌^◌, Bool, ◌||◌, ltb, ◌==◌, ℤ, pos, negsuc, leb_ℤ, pos_part, wrap_int64,
  word64, quotient, if◌then◌else◌,
}
use egressfox.Base.Bytes.{Bytes}

pub record Platform : Type 1 where
  pub Float : Type 0
  pub of_nat : ℕ → Float
  pub add : Float → Float → Float
  pub sub : Float → Float → Float
  pub mul : Float → Float → Float
  pub div : Float → Float → Float
  pub sqrt : Float → Float
  pub less : Float → Float → Bool
  -- int64(math.Round(x))
  pub round_int64 : Float → ℤ
  pub sha256 : Bytes → Bytes

module _ (platform : Platform) where
  open platform use {Float, of_nat, add, sub, mul, div, sqrt, less, round_int64}

  -- The constant 1.96.
  abbrev pub z_score : Float
  z_score = div (of_nat 196) (of_nat 100)

  abbrev pub clamp_zero : Float → Float
  clamp_zero x = if less x (of_nat 0) then of_nat 0 else x

  -- The float expression, in the source's order of operations.
  unfoldable pub wilson_lower : ℕ → ℕ → Float
  wilson_lower successes samples =
      let n = of_nat samples in
      let p = div (of_nat successes) (of_nat samples) in
      let z2 = mul z_score z_score in
      let spread =
        sqrt (add (div (mul p (sub (of_nat 1) p)) n) (div z2 (mul (mul (of_nat 4) n) n))) in
      let centre = add p (div z2 (mul (of_nat 2) n)) in
      div (sub centre (mul z_score spread)) (add (of_nat 1) (div z2 n))

  unfoldable pub wilson_lower_ppm : ℕ → ℕ → ℤ
  unfolding wilson_lower
  wilson_lower_ppm successes samples =
      if samples == 0 || ltb samples successes
      then pos 0
      else round_int64 (mul (clamp_zero (wilson_lower successes samples)) (of_nat 1000000))

abbrev pub max_int64 : ℤ
max_int64 = pos (2 ^ 63 - 1)

-- riskCost: the product and the sum wrap, and the division truncates.
unfoldable pub risk_cost : ℕ → ℤ → ℤ
risk_cost duration confidence =
    if duration == 0 || leb_ℤ confidence (pos 0)
    then max_int64
    else let value = wrap_int64 (duration * 1000000) in
      quotient (wrap_int64 (word64 value + word64 confidence + (2 ^ 64 - 1))) (pos_part confidence)
