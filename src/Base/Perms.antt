-- ===== src/Base/Perms.antt =====
-- Filtering and rearranging.
use egressfox.Base.Tests.{if◌then◌else◌, Bool-cases}
use egressfox.Base.Lists.{All, keep_if}
use egressfox.Base.Sort.{Separated, AllSeparated}
use mathlib.Core.Path
use mathlib.Core.Path.{◌≡◌, subst}
use mathlib.Core.Logic.{inl, inr}
use mathlib.Core.Bool.{Bool, true, false}
use mathlib.Core.List.{List, [], ◌∷◌, Permᴰ}
use mathlib.Core.List.Permᴰ

module _ {ℓ} {A : Type ℓ} (p : A → Bool) where
  cons_if :
      (t : Bool) (a : A) {xs ys : List A}
      → Permᴰ xs ys
      → Permᴰ (if t then a ∷ xs else xs) (if t then a ∷ ys else ys)
  cons_if true a d = Permᴰ.cons Path.refl d
  cons_if false a d = d

  keep_if-swap : (a b : A) (l : List A) → Permᴰ (keep_if p (a ∷ b ∷ l)) (keep_if p (b ∷ a ∷ l))
  keep_if-swap a b l = swap_if (p a) (p b) (keep_if p l)
    where
      swap_if :
          (s t : Bool) (rest : List A)
          → Permᴰ
              (if s then a ∷ (if t then b ∷ rest else rest) else (if t then b ∷ rest else rest))
              (if t then b ∷ (if s then a ∷ rest else rest) else (if s then a ∷ rest else rest))
      swap_if true true rest = Permᴰ.swap Path.refl Path.refl
      swap_if true false rest = Permᴰ.refl _
      swap_if false true rest = Permᴰ.refl _
      swap_if false false rest = Permᴰ.refl _

  pub keep_if-Permᴰ : {xs ys : List A} → Permᴰ xs ys → Permᴰ (keep_if p xs) (keep_if p ys)
  keep_if-Permᴰ Permᴰ.nil = Permᴰ.nil
  keep_if-Permᴰ (Permᴰ.cons {a} {b} {l₁} {l₂} e d) =
      subst (λ c. Permᴰ (keep_if p (a ∷ l₁)) (keep_if p (c ∷ l₂))) e
        (cons_if (p a) a (keep_if-Permᴰ d))
  keep_if-Permᴰ (Permᴰ.swap {a} {b} {a'} {b'} {l} e f) =
      subst (λ c. Permᴰ (keep_if p (a ∷ b ∷ l)) (keep_if p (c ∷ b' ∷ l))) f
        (subst (λ c. Permᴰ (keep_if p (a ∷ b ∷ l)) (keep_if p (b ∷ c ∷ l))) e (keep_if-swap a b l))
  keep_if-Permᴰ (Permᴰ.trans d f) = Permᴰ.trans (keep_if-Permᴰ d) (keep_if-Permᴰ f)

  pub All-keep_if {κ} : (P : A → Type κ) (xs : List A) → All P xs → All P (keep_if p xs)
  All-keep_if P [] h = tt
  All-keep_if P (x ∷ xs) h = elim (Bool-cases (p x)) [
    | inl e ↦ rw e (h.0, All-keep_if P xs h.1)
    | inr e ↦ rw e (All-keep_if P xs h.1)
  ]

  pub AllSeparated-keep_if :
      (less : A → A → Bool) (xs : List A) → AllSeparated less xs → AllSeparated less (keep_if p xs)
  AllSeparated-keep_if less [] h = tt
  AllSeparated-keep_if less (x ∷ xs) h = elim (Bool-cases (p x)) [
    | inl e ↦ rw e (All-keep_if (Separated less x) xs h.0, AllSeparated-keep_if less xs h.1)
    | inr e ↦ rw e (AllSeparated-keep_if less xs h.1)
  ]
