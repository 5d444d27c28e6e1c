-- ===== src/Base/Mapped.antt =====
-- Filtering and sorting the images of a function that respects the tests.
use egressfox.Base.Tests.{Bool-cases}
use egressfox.Base.Lists.{All, keep_if}
use egressfox.Base.Sort.{sort, insert, All-sort}
use mathlib.Core.Path.{◌≡◌, refl, ap, ◌∙◌}
use mathlib.Core.Logic.{inl, inr}
use mathlib.Core.Bool.{Bool}
use mathlib.Core.List.{List, [], ◌∷◌, map}

module _ {ℓ κ μ} {A : Type ℓ} {B : Type κ} (f : A → B) (P : A → Type μ) where
  pub keep_if-map :
      (p : A → Bool) (q : B → Bool) (xs : List A)
      → ((x : A) → P x → q (f x) ≡ p x)
      → All P xs
      → keep_if q (map f xs) ≡ map f (keep_if p xs)
  keep_if-map p q [] same h = refl
  keep_if-map p q (x ∷ xs) same h = elim (Bool-cases (p x)) [
    | inl e ↦ simp (same x h.0, e) (ap (λ l. f x ∷ l) (keep_if-map p q xs same h.1))
    | inr e ↦ simp (same x h.0, e) (keep_if-map p q xs same h.1)
  ]

  module _ (less : A → A → Bool) (less' : B → B → Bool)
      (same : (x y : A) → P x → P y → less' (f x) (f y) ≡ less x y) where
    insert-map :
        (x : A) (xs : List A)
        → P x
        → All P xs
        → insert less' (f x) (map f xs) ≡ map f (insert less x xs)
    unfolding insert
    insert-map x [] p h = refl
    insert-map x (y ∷ ys) p h = elim (Bool-cases (less y x)) [
      | inl e ↦ simp (same y x h.0 p, e) (ap (λ l. f y ∷ l) (insert-map x ys p h.1))
      | inr e ↦ simp (same y x h.0 p, e) refl
    ]

    pub sort-map : (xs : List A) → All P xs → sort less' (map f xs) ≡ map f (sort less xs)
    unfolding sort
    sort-map [] h = refl
    sort-map (x ∷ xs) h =
        ap (insert less' (f x)) (sort-map xs h.1)
        ∙ insert-map x (sort less xs) h.0 (All-sort less P xs h.1)
