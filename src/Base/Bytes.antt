-- ===== src/Base/Bytes.antt =====
-- Go strings and byte slices as lists of byte values, with Go's lexicographic comparison.
use egressfox.Base.Tests.{ltb, ◌==◌, if◌then◌else◌}
use Prim.Native.Nat.{ℕ, zero, suc, ◌/◌, ◌%◌, ◌^◌}
use Prim.Native.Char.{code}
use Prim.Native.String.{String}
use mathlib.Core.Path.{◌≡◌, refl}
use mathlib.Core.Bool.{Bool, true, false, ◌&&◌}
use mathlib.Core.List.{List, [], ◌∷◌}
use native.Mathlib.Omega.{arith}

abbrev pub Bytes : Type 0
Bytes = List ℕ

-- The bytes of an ASCII literal.
abbrev pub ascii : String → Bytes
ascii String.[] = []
ascii (String.◌∷◌ c s) = code c ∷ ascii s

-- The sign of strings.Compare and bytes.Compare.
pub data Sign : Type 0 where
  below same above : Sign

unfoldable pub compare_byte : ℕ → ℕ → Sign
compare_byte a b = if ltb a b then below else if ltb b a then above else same

-- The first sign that is not `same`.
abbrev pub then_sign : Sign → Sign → Sign
then_sign below s = below
then_sign same s = s
then_sign above s = above

unfoldable pub compare_bytes : Bytes → Bytes → Sign
unfolding compare_byte
compare_bytes [] [] = same
compare_bytes [] (b ∷ bs) = below
compare_bytes (a ∷ as') [] = above
compare_bytes (a ∷ as') (b ∷ bs) = then_sign (compare_byte a b) (compare_bytes as' bs)

abbrev pub is_below : Sign → Bool
is_below below = true
is_below same = false
is_below above = false

abbrev pub is_same : Sign → Bool
is_same below = false
is_same same = true
is_same above = false

unfoldable pub eq_bytes : Bytes → Bytes → Bool
eq_bytes [] [] = true
eq_bytes [] (b ∷ bs) = false
eq_bytes (a ∷ as') [] = false
eq_bytes (a ∷ as') (b ∷ bs) = a == b && eq_bytes as' bs

pub eq_bytes_refl : (a : Bytes) → eq_bytes a a ≡ true
unfolding eq_bytes
eq_bytes_refl [] = refl
eq_bytes_refl (a ∷ as') = ground (arith, eq_bytes_refl as')

pub eq_bytes_sound : (a b : Bytes) → eq_bytes a b ≡ true → a ≡ b
unfolding eq_bytes
eq_bytes_sound [] [] h = refl
eq_bytes_sound [] (b ∷ bs) h = cc
eq_bytes_sound (a ∷ as') [] h = cc
eq_bytes_sound (a ∷ as') (b ∷ bs) h = ground (arith, eq_bytes_sound as' bs)

pub compare_bytes_refl : (a : Bytes) → compare_bytes a a ≡ same
unfolding compare_bytes
compare_bytes_refl [] = refl
compare_bytes_refl (a ∷ as') = ground (arith, compare_bytes_refl as')

pub compare_bytes_same : (a b : Bytes) → compare_bytes a b ≡ same → a ≡ b
unfolding compare_bytes
compare_bytes_same [] [] h = refl
compare_bytes_same [] (b ∷ bs) h = cc
compare_bytes_same (a ∷ as') [] h = cc
compare_bytes_same (a ∷ as') (b ∷ bs) h = ground (arith, compare_bytes_same as' bs)

abbrev pub flip_sign : Sign → Sign
flip_sign below = above
flip_sign same = same
flip_sign above = below

pub compare_bytes_flip : (a b : Bytes) → compare_bytes b a ≡ flip_sign (compare_bytes a b)
unfolding compare_bytes
compare_bytes_flip [] [] = refl
compare_bytes_flip [] (b ∷ bs) = refl
compare_bytes_flip (a ∷ as') [] = refl
compare_bytes_flip (a ∷ as') (b ∷ bs) = ground (arith, compare_bytes_flip as' bs)

pub compare_bytes_trans :
    (a b c : Bytes)
    → compare_bytes a b ≡ below
    → compare_bytes b c ≡ below
    → compare_bytes a c ≡ below
unfolding compare_bytes
compare_bytes_trans [] [] c h k = cc
compare_bytes_trans [] (b ∷ bs) [] h k = cc
compare_bytes_trans [] (b ∷ bs) (c ∷ cs) h k = refl
compare_bytes_trans (a ∷ as') [] c h k = cc
compare_bytes_trans (a ∷ as') (b ∷ bs) [] h k = cc
compare_bytes_trans (a ∷ as') (b ∷ bs) (c ∷ cs) h k =
    ground
      (arith, compare_bytes_trans as' bs cs, compare_bytes_same as' bs, compare_bytes_same bs cs)

-- binary.BigEndian.PutUint of a number in the given count of bytes.
unfoldable pub big_endian : ℕ → ℕ → Bytes
big_endian zero n = []
big_endian (suc k) n = (n / 256 ^ k % 256) ∷ big_endian k n
