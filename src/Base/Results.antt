-- ===== src/Base/Results.antt =====
-- Go's (value, error) pairs: a value or an error of the component's own type.
use mathlib.Core.Path.{◌≡◌, refl}
use mathlib.Core.Logic.{◌⊎◌, inl, inr}
use mathlib.Core.Bool.{Bool, true, false}

pub data Result {ℓ κ} (E : Type ℓ) (A : Type κ) : Type (ℓ ⊔ κ) where
  ok : A → Result E A
  err : E → Result E A

-- A return with an error when the test holds.
abbrev pub fail_if {ℓ} : {E : Type ℓ} → Bool → E → Result E (Unit {0})
fail_if false fault = ok tt
fail_if true fault = err fault

pub Result-cases {ℓ κ} :
    {E : Type ℓ} {A : Type κ} (run : Result E A)
    → ((value : A) × (run ≡ ok value)) ⊎ ((fault : E) × (run ≡ err fault))
Result-cases (err fault) = inr (fault, refl)
Result-cases (ok value) = inl (value, refl)

infixl 5 ◌>>=◌ ◌>>◌
-- `if err != nil { return err }`
abbrev pub ◌>>=◌ {ℓ κ μ} :
    {E : Type ℓ} {Now : Type κ} {Later : Type μ}
    → Result E Now
    → (Now → Result E Later)
    → Result E Later
err fault >>= next = err fault
ok value >>= next = next value

-- The same with nothing to hand on.
abbrev pub ◌>>◌ {ℓ κ} :
    {E : Type ℓ} {Later : Type κ} → Result E (Unit {0}) → Result E Later → Result E Later
check >> rest = check >>= λ done. rest

module _ {ℓ κ} {E : Type ℓ} {Later : Type κ} where
  pub >>-eq-ok :
      (test : Bool) (fault : E) (rest : Result E Later) {last : Later}
      → (fail_if test fault >> rest) ≡ ok last
      → (test ≡ false) × (rest ≡ ok last)
  >>-eq-ok false fault rest succeeded = (refl, succeeded)
  >>-eq-ok true fault rest succeeded = cc

  -- What a chain that succeeded went through.
  pub >>=-eq-ok {μ} :
      {Now : Type μ} (run : Result E Now) (next : Now → Result E Later) {last : Later}
      → (run >>= next) ≡ ok last
      → (value : Now) × (run ≡ ok value) × (next value ≡ ok last)
  >>=-eq-ok (err fault) next succeeded = cc
  >>=-eq-ok (ok value) next succeeded = (value, refl, succeeded)
