-- ===== src/Base/Pairs.antt =====
-- Relations that hold between every element of a list and every later one.
use egressfox.Base.Lists.{All, take, set, All-append, All-take, All-set}
use egressfox.Base.Tests.{Bool-cases}
use egressfox.Base.Sort.{insert, sort, All-insert, All-sort}
use Prim.Native.Nat.{ℕ, zero, suc}
use mathlib.Core.Logic.{inl, inr}
use mathlib.Core.Bool.{Bool}
use mathlib.Core.List.{List, [], ◌∷◌, ◌++◌, map}

abbrev pub AllPairs {ℓ κ} : {A : Type ℓ} → (A → A → Type κ) → List A → Type κ
AllPairs R [] = Unit
AllPairs R (x ∷ xs) = All (R x) xs × AllPairs R xs

module _ {ℓ κ} {A : Type ℓ} (R : A → A → Type κ) where
  pub AllPairs-append-one :
      (xs : List A) (y : A) → AllPairs R xs → All (λ x. R x y) xs → AllPairs R (xs ++ y ∷ [])
  AllPairs-append-one [] y p h = (tt, tt)
  AllPairs-append-one (x ∷ xs) y p h =
      (All-append (R x) xs (y ∷ []) p.0 (h.0, tt), AllPairs-append-one xs y p.1 h.1)

  pub AllPairs-take : (n : ℕ) (xs : List A) → AllPairs R xs → AllPairs R (take n xs)
  AllPairs-take zero xs p = tt
  AllPairs-take (suc n) [] p = tt
  AllPairs-take (suc n) (x ∷ xs) p = (All-take (R x) n xs p.0, AllPairs-take n xs p.1)

  -- Replacing an element by one that is related to all, both ways round.
  pub AllPairs-set :
      (xs : List A) (i : ℕ) (v : A)
      → AllPairs R xs
      → All (λ x. R x v) xs
      → All (R v) xs
      → AllPairs R (set xs i v)
  AllPairs-set [] i v p h k = tt
  AllPairs-set (x ∷ xs) zero v p h k = (k.1, p.1)
  AllPairs-set (x ∷ xs) (suc i) v p h k =
      (All-set (R x) xs i v p.0 h.0, AllPairs-set xs i v p.1 h.1 k.1)

-- Sorting keeps a symmetric relation between all elements.
module _ {ℓ κ} {A : Type ℓ} (less : A → A → Bool) (R : A → A → Type κ)
    (symmetric : (x y : A) → R x y → R y x) where
  pub AllPairs-insert :
      (x : A) (xs : List A) → All (R x) xs → AllPairs R xs → AllPairs R (insert less x xs)
  unfolding insert
  AllPairs-insert x [] h p = (tt, tt)
  AllPairs-insert x (y ∷ ys) h p = elim (Bool-cases (less y x)) [
    | inl e ↦
        rw e (All-insert less (R y) x ys (symmetric x y h.0) p.0, AllPairs-insert x ys h.1 p.1)
    | inr e ↦ rw e (h, p)
  ]

  pub AllPairs-sort : (xs : List A) → AllPairs R xs → AllPairs R (sort less xs)
  unfolding sort
  AllPairs-sort [] p = tt
  AllPairs-sort (x ∷ xs) p =
      AllPairs-insert x (sort less xs) (All-sort less (R x) xs p.0) (AllPairs-sort xs p.1)

pub All-map {ℓ κ μ} :
    {A : Type ℓ} {B : Type κ} (P : B → Type μ) (f : A → B) (xs : List A)
    → All (λ x. P (f x)) xs
    → All P (map f xs)
All-map P f [] h = tt
All-map P f (x ∷ xs) h = (h.0, All-map P f xs h.1)

pub All-imp {ℓ κ μ} :
    {A : Type ℓ} (P : A → Type κ) (Q : A → Type μ) (xs : List A)
    → ((x : A) → P x → Q x)
    → All P xs
    → All Q xs
All-imp P Q [] f h = tt
All-imp P Q (x ∷ xs) f h = (f x h.0, All-imp P Q xs f h.1)

pub AllPairs-map {ℓ κ μ} :
    {A : Type ℓ} {B : Type κ} (R : B → B → Type μ) (f : A → B) (xs : List A)
    → AllPairs (λ x y. R (f x) (f y)) xs
    → AllPairs R (map f xs)
AllPairs-map R f [] p = tt
AllPairs-map R f (x ∷ xs) p = (All-map (R (f x)) f xs p.0, AllPairs-map R f xs p.1)
