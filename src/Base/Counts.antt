-- ===== src/Base/Counts.antt =====
-- How many elements of a list pass a test, under filtering and sorting.
use egressfox.Base.Tests.{Bool-cases}
use egressfox.Base.Lists.{All, keep_if, length, drop, get_elem?, set}
use egressfox.Base.Sort.{sort, insert}
use Prim.Native.Nat.{ℕ, zero, suc, ◌+◌, ◌≤◌}
use mathlib.Core.Path.{◌≡◌, refl}
use mathlib.Core.Logic.{inl, inr}
use mathlib.Core.Bool.{Bool, true, false}
use mathlib.Core.List.{List, [], ◌∷◌}
use mathlib.Core.Option.{some}
use native.Mathlib.Omega.{arith}

abbrev pub bit : Bool → ℕ
bit true = 1
bit false = 0

module _ {ℓ} {A : Type ℓ} (p : A → Bool) where
  pub length-keep_if-keep_if :
      (q : A → Bool) (xs : List A)
      → length (keep_if p (keep_if q xs)) ≡ length (keep_if q (keep_if p xs))
  length-keep_if-keep_if q [] = refl
  length-keep_if-keep_if q (x ∷ xs) = ground (arith, length-keep_if-keep_if q xs)

  pub length-keep_if-keep_if-le :
      (q : A → Bool) (xs : List A) → length (keep_if p (keep_if q xs)) ≤ length (keep_if p xs)
  length-keep_if-keep_if-le q [] = omega arith
  length-keep_if-keep_if-le q (x ∷ xs) = ground (arith, length-keep_if-keep_if-le q xs)

  length-keep_if-insert :
      (less : A → A → Bool) (x : A) (xs : List A)
      → length (keep_if p (insert less x xs)) ≡ length (keep_if p (x ∷ xs))
  unfolding insert
  length-keep_if-insert less x [] = refl
  length-keep_if-insert less x (y ∷ ys) = ground (arith, length-keep_if-insert less x ys)

  pub length-keep_if-sort :
      (less : A → A → Bool) (xs : List A)
      → length (keep_if p (sort less xs)) ≡ length (keep_if p xs)
  unfolding sort
  length-keep_if-sort less [] = refl
  length-keep_if-sort less (x ∷ xs) =
      ground (arith, length-keep_if-insert less x (sort less xs), length-keep_if-sort less xs)

  length-keep_if-none : (xs : List A) → All (λ x. p x ≡ false) xs → length (keep_if p xs) ≡ 0
  length-keep_if-none [] h = refl
  length-keep_if-none (x ∷ xs) h = ground (arith, length-keep_if-none xs h.1)

  -- Where no element behind the first n passes.
  pub length-keep_if-drop :
      (n : ℕ) (xs : List A) → All (λ x. p x ≡ false) (drop n xs) → length (keep_if p xs) ≤ n
  length-keep_if-drop zero xs h = omega (arith, length-keep_if-none xs h)
  length-keep_if-drop (suc n) [] h = omega arith
  length-keep_if-drop (suc n) (x ∷ xs) h = ground (arith, length-keep_if-drop n xs h)

  pub keep_if-All : (xs : List A) → All (λ x. p x ≡ true) (keep_if p xs)
  keep_if-All [] = tt
  keep_if-All (x ∷ xs) = elim (Bool-cases (p x)) [
    | inl e ↦ rw e (e, keep_if-All xs)
    | inr e ↦ rw e (keep_if-All xs)
  ]

  -- A write at an index that holds a value.
  pub length-keep_if-set :
      (xs : List A) (i : ℕ) (old new : A)
      → get_elem? xs i ≡ some old
      → length (keep_if p (set xs i new)) + bit (p old) ≡ length (keep_if p xs) + bit (p new)
  length-keep_if-set [] i old new h = cc
  length-keep_if-set (x ∷ xs) zero old new h = ground arith
  length-keep_if-set (x ∷ xs) (suc i) old new h = ground (arith, length-keep_if-set xs i old new h)
