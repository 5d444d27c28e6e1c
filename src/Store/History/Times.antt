-- ===== src/Store/History/Times.antt =====
-- Times of rows in internal/state/sqlite.go, where an int64 of nanoseconds can hold them.
use egressfox.Store.History.Rows.{unix_nano, time_of}
use egressfox.Observation.{unix_epoch}
use egressfox.Base.{
  ℕ, leb_ℤ, ltb_ℤ, ◌≤◌, wrap_int64, ◌≡◌, ◌+◌, pos_part, arith, leb, ltb, ◌^◌, neg_part, ◌<◌,
}

abbrev pub InRange : ℕ → Type 0
InRange t = (unix_epoch ≤ t + 2 ^ 63) × (t < unix_epoch + 2 ^ 63)

pub unix_nano_parts :
    (t : ℕ) → InRange t → pos_part (unix_nano t) + unix_epoch ≡ t + neg_part (unix_nano t)
unfolding unix_nano wrap_int64
unix_nano_parts t h = ground arith

pub time_of-unix_nano : (t : ℕ) → InRange t → time_of (unix_nano t) ≡ t
time_of-unix_nano t h = omega (arith, unix_nano_parts t h)

pub leb_ℤ-unix_nano :
    (a b : ℕ) → InRange a → InRange b → leb_ℤ (unix_nano a) (unix_nano b) ≡ leb a b
leb_ℤ-unix_nano a b h k = ground (arith, unix_nano_parts a h, unix_nano_parts b k)

pub ltb_ℤ-unix_nano :
    (a b : ℕ) → InRange a → InRange b → ltb_ℤ (unix_nano a) (unix_nano b) ≡ ltb a b
ltb_ℤ-unix_nano a b h k = ground (arith, unix_nano_parts a h, unix_nano_parts b k)
