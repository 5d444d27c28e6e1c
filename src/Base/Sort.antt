-- ===== src/Base/Sort.antt =====
-- sort.Slice and sort.SliceStable with a comparison function: a stable insertion sort. Where the
-- source sorts by sort.Slice its comparison separates distinct elements, so stability is no promise
-- that the model adds.
use egressfox.Base.Tests.{if◌then◌else◌, Bool-cases}
use egressfox.Base.Lists.{length, All}
use Prim.Native.Nat.{ℕ}
use mathlib.Core.Path.{◌≡◌, refl, sym, ap, subst, ◌∙◌}
use mathlib.Core.Logic.{inl, inr, ∥∥₁_elim}
use mathlib.Core.Bool.{Bool, true, false}
use mathlib.Core.List.{List, [], ◌∷◌, Perm, Permᴰ}
use egressfox.Base.Bytes.{Sign, below, same, is_below, flip_sign}
use native.Mathlib.Omega.{arith}

module _ {ℓ} {A : Type ℓ} (less : A → A → Bool) where
  -- Before the first element that is not smaller, so that equal elements keep their order.
  unfoldable pub insert : A → List A → List A
  insert x [] = x ∷ []
  insert x (y ∷ ys) = let rest = insert x ys in if less y x then y ∷ rest else x ∷ y ∷ ys

  unfoldable pub sort : List A → List A
  unfolding insert
  sort [] = []
  sort (x ∷ xs) = insert x (sort xs)

  pub length-insert : (x : A) (xs : List A) → length (insert x xs) ≡ length (x ∷ xs)
  unfolding insert
  length-insert x [] = refl
  length-insert x (y ∷ ys) = ground (arith, length-insert x ys)

  pub length-sort : (xs : List A) → length (sort xs) ≡ length xs
  unfolding sort
  length-sort [] = refl
  length-sort (x ∷ xs) = length-insert x (sort xs) ∙ ap (λ n. ℕ.suc n) (length-sort xs)

  module _ {κ} (P : A → Type κ) where
    pub All-insert : (x : A) (xs : List A) → P x → All P xs → All P (insert x xs)
    unfolding insert
    All-insert x [] p h = (p, tt)
    All-insert x (y ∷ ys) p h = elim (Bool-cases (less y x)) [
      | inl e ↦ rw e (h.0, All-insert x ys p h.1)
      | inr e ↦ rw e (p, h)
    ]

    pub All-sort : (xs : List A) → All P xs → All P (sort xs)
    unfolding sort
    All-sort [] h = tt
    All-sort (x ∷ xs) h = All-insert x (sort xs) h.0 (All-sort xs h.1)

    All-insert-inv : (x : A) (xs : List A) → All P (insert x xs) → All P (x ∷ xs)
    unfolding insert
    All-insert-inv x [] h = h
    All-insert-inv x (y ∷ ys) h = elim (Bool-cases (less y x)) [
      | inl e ↦
          let here = rw e at h in
          let rest = All-insert-inv x ys here.1 in (rest.0, (here.0, rest.1))
      | inr e ↦ rw e at h
    ]

    pub All-sort-inv : (xs : List A) → All P (sort xs) → All P xs
    unfolding sort
    All-sort-inv [] h = tt
    All-sort-inv (x ∷ xs) h =
        let rest = All-insert-inv x (sort xs) h in (rest.0, All-sort-inv xs rest.1)

  -- No later element is smaller than an earlier one.
  abbrev pub NotAbove : A → A → Type 0
  NotAbove x y = less y x ≡ false

  abbrev pub IsSorted : List A → Type 0
  IsSorted [] = Unit
  IsSorted (x ∷ xs) = All (NotAbove x) xs × IsSorted xs

  -- Elements that the comparison does not separate are equal.
  abbrev pub Separated : A → A → Type ℓ
  Separated x y = less x y ≡ false → less y x ≡ false → x ≡ y

  -- Every two elements are separated.
  abbrev pub AllSeparated : List A → Type ℓ
  AllSeparated [] = Unit
  AllSeparated (x ∷ xs) = All (Separated x) xs × AllSeparated xs

-- What a comparison must satisfy for the order of the result to be determined.
pub record IsStrictOrder {ℓ} {A : Type ℓ} (less : A → A → Bool) : Type ℓ where
  pub asymmetric : (x y : A) → less x y ≡ true → less y x ≡ false
  pub not_above_trans : (x y z : A) → less y x ≡ false → less z y ≡ false → less z x ≡ false

module _ {ℓ} {A : Type ℓ} (less : A → A → Bool) (order : IsStrictOrder less) where
  open order use {asymmetric, not_above_trans}

  NotAbove-All :
      (x y : A) (ys : List A)
      → NotAbove less x y
      → All (NotAbove less y) ys
      → All (NotAbove less x) ys
  NotAbove-All x y [] h k = tt
  NotAbove-All x y (z ∷ zs) h k = (not_above_trans x y z h k.0, NotAbove-All x y zs h k.1)

  pub insert-IsSorted : (x : A) (xs : List A) → IsSorted less xs → IsSorted less (insert less x xs)
  unfolding insert
  insert-IsSorted x [] h = (tt, tt)
  insert-IsSorted x (y ∷ ys) h = elim (Bool-cases (less y x)) [
    | inl e ↦
        rw e
          (All-insert less (NotAbove less y) x ys (asymmetric y x e) h.0, insert-IsSorted x ys h.1)
    | inr e ↦ rw e ((e, NotAbove-All x y ys e h.0), h)
  ]

  -- The result is in order.
  pub sort-IsSorted : (xs : List A) → IsSorted less (sort less xs)
  unfolding sort
  sort-IsSorted [] = tt
  sort-IsSorted (x ∷ xs) = insert-IsSorted x (sort less xs) (sort-IsSorted xs)

  insert-insert :
      (x y : A) (l : List A)
      → Separated less x y
      → insert less x (insert less y l) ≡ insert less y (insert less x l)
  unfolding insert
  insert-insert x y [] equal = ground (arith, asymmetric x y, equal)
  insert-insert x y (z ∷ zs) equal = ground (
    arith,
    asymmetric x y,
    equal,
    not_above_trans y x z,
    not_above_trans x y z,
    insert-insert x y zs equal,
  )

  Separated-sym : (x y : A) → Separated less x y → Separated less y x
  Separated-sym x y s h k = sym (s k h)

  All-Permᴰ {κ} : (P : A → Type κ) {xs ys : List A} → Permᴰ xs ys → All P xs → All P ys
  All-Permᴰ P Permᴰ.nil h = tt
  All-Permᴰ P (Permᴰ.cons e p) h = (subst P e h.0, All-Permᴰ P p h.1)
  All-Permᴰ P (Permᴰ.swap e f) h = (subst P f h.1.0, (subst P e h.0, h.1.1))
  All-Permᴰ P (Permᴰ.trans p q) h = All-Permᴰ P q (All-Permᴰ P p h)

  AllSeparated-swap :
      {a b a' b' : A} (l : List A)
      → a ≡ b'
      → b ≡ a'
      → AllSeparated less (a ∷ b ∷ l)
      → AllSeparated less (a' ∷ b' ∷ l)
  AllSeparated-swap {a} {b} {a'} {b'} l e f h =
      subst (λ c. AllSeparated less (c ∷ b' ∷ l)) f
        (subst (λ c. AllSeparated less (b ∷ c ∷ l)) e
          ((Separated-sym a b h.0.0, h.1.0), (h.0.1, h.1.1)))

  AllSeparated-Permᴰ : {xs ys : List A} → Permᴰ xs ys → AllSeparated less xs → AllSeparated less ys
  AllSeparated-Permᴰ Permᴰ.nil h = tt
  AllSeparated-Permᴰ (Permᴰ.cons {l₂ = l} e p) h = (
    subst (λ c. All (Separated less c) l) e (All-Permᴰ (Separated less _) p h.0),
    AllSeparated-Permᴰ p h.1,
  )
  AllSeparated-Permᴰ (Permᴰ.swap {l = l} e f) h = AllSeparated-swap l e f h
  AllSeparated-Permᴰ (Permᴰ.trans p q) h = AllSeparated-Permᴰ q (AllSeparated-Permᴰ p h)

  sort-swap :
      {a b a' b' : A} (l : List A)
      → a ≡ b'
      → b ≡ a'
      → Separated less a b
      → sort less (a ∷ b ∷ l) ≡ sort less (a' ∷ b' ∷ l)
  unfolding sort
  sort-swap {a} {b} {a'} {b'} l e f h =
      insert-insert a b (sort less l) h
      ∙ ap (λ c. insert less b (insert less c (sort less l))) e
      ∙ ap (λ c. insert less c (insert less b' (sort less l))) f

  pub sort-Permᴰ :
      {xs ys : List A} → Permᴰ xs ys → AllSeparated less xs → sort less xs ≡ sort less ys
  unfolding sort
  sort-Permᴰ Permᴰ.nil h = refl
  sort-Permᴰ (Permᴰ.cons {l₂ = l} e p) h =
      ap (insert less _) (sort-Permᴰ p h.1) ∙ ap (λ c. insert less c (sort less l)) e
  sort-Permᴰ (Permᴰ.swap {l = l} e f) h = sort-swap l e f h.0.0
  sort-Permᴰ (Permᴰ.trans p q) h = sort-Permᴰ p h ∙ sort-Permᴰ q (AllSeparated-Permᴰ p h)

  -- The sorted list depends on the elements and not on their order.
  pub sort-perm :
      IsSet A → {xs ys : List A} → Perm xs ys → AllSeparated less xs → sort less xs ≡ sort less ys
  sort-perm is_set p h = ∥∥₁_elim p (hlevel is_set) (λ d. sort-Permᴰ d h)

-- A three-way comparison that is a total order.
pub record IsComparison {ℓ} {A : Type ℓ} (compare : A → A → Sign) : Type ℓ where
  pub flips : (a b : A) → compare b a ≡ flip_sign (compare a b)
  pub same_is_equal : (a b : A) → compare a b ≡ same → a ≡ b
  pub below_trans : (a b c : A) → compare a b ≡ below → compare b c ≡ below → compare a c ≡ below

module _ {ℓ} {A : Type ℓ} (compare : A → A → Sign) (c : IsComparison compare) where
  pub IsComparison-IsStrictOrder : IsStrictOrder (λ x y. is_below (compare x y))
  IsComparison-IsStrictOrder = record {
    asymmetric = λ x y h. ground (arith, c.flips x y);
    not_above_trans = λ x y z h k. chain x y z h k;
  }
    where
      chain :
          (x y z : A)
          → is_below (compare y x) ≡ false
          → is_below (compare z y) ≡ false
          → is_below (compare z x) ≡ false
      chain x y z h k = ground (
        arith,
        c.flips x y,
        c.flips y z,
        c.flips x z,
        c.same_is_equal x y,
        c.same_is_equal y z,
        c.below_trans x y z,
        c.below_trans z x y,
        c.below_trans y z x,
      )

  pub IsComparison-separates :
      (x y : A) → is_below (compare x y) ≡ false → is_below (compare y x) ≡ false → x ≡ y
  IsComparison-separates x y h k = ground (arith, c.flips x y, c.same_is_equal x y)
