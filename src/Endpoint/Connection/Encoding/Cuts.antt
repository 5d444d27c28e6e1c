-- ===== src/Endpoint/Connection/Encoding/Cuts.antt =====
-- The pieces of the canonical encoding of internal/endpoint/identity.go can be read back one by one.
use egressfox.Base.Bytes.{Bytes, big_endian}
use egressfox.Endpoint.Connection.Encoding.{write_string, write_strings, write_byte, write_bool}
use egressfox.Base.{
  ℕ, true, false, ◌<◌, Bool, ◌≡◌, length, List, ◌^◌, ◌++◌, ◌∷◌, sym, [], arith, All, ◌%◌, ap, ◌∙◌,
  refl,
}

-- Two pieces can stand before anything only where P holds and what follows is the same.
pub record Cut (f g : Bytes) (P : Type 0) : Type 0 where
  pub split : (x y : Bytes) → f ++ x ≡ g ++ y → P × (x ≡ y)

append_assoc : (a b c : Bytes) → (a ++ b) ++ c ≡ a ++ (b ++ c)
append_assoc [] b c = refl
append_assoc (x ∷ xs) b c = ap (λ l. x ∷ l) (append_assoc xs b c)

pub cut_then :
    {f g f' g' : Bytes} {P Q : Type 0}
    → Cut f g P
    → (P → Cut f' g' Q)
    → Cut (f ++ f') (g ++ g') (P × Q)
cut_then {f} {g} {f'} {g'} first second = record {
  split = λ x y h.
      let (p, rest) =
        first.split (f' ++ x) (g' ++ y) (sym (append_assoc f f' x) ∙ (h ∙ append_assoc g g' y)) in
      let (q, last) = (second p).split x y rest in ((p, q), last);
}

pub cut_map : {f g : Bytes} {P Q : Type 0} → (P → Q) → Cut f g P → Cut f g Q
cut_map use_it cut = record { split = λ x y h. let (p, rest) = cut.split x y h in (use_it p, rest) }

pub cut_end : {f g : Bytes} {P : Type 0} → Cut f g P → f ≡ g → P
cut_end cut h = (cut.split [] [] (ap (λ z. z ++ []) h)).0

append-split : (a b x y : Bytes) → length a ≡ length b → a ++ x ≡ b ++ y → (a ≡ b) × (x ≡ y)
append-split [] [] x y n h = (refl, h)
append-split [] (b ∷ bs) x y n h = absurd (omega (arith, n))
append-split (a ∷ as') [] x y n h = absurd (omega (arith, n))
append-split (a ∷ as') (b ∷ bs) x y n h = ground (arith, append-split as' bs x y)

pub cut_nothing : Cut [] [] (Unit {0})
cut_nothing = record { split = λ x y h. (tt, h) }

pub cut_byte : (a b : ℕ) → a < 256 → b < 256 → Cut (write_byte a) (write_byte b) (a ≡ b)
cut_byte a b h k = record { split = λ x y e. ground arith }

pub cut_bool : (a b : Bool) → Cut (write_bool a) (write_bool b) (a ≡ b)
cut_bool true true = record { split = λ x y e. ground arith }
cut_bool true false = record { split = λ x y e. absurd (ground arith) }
cut_bool false true = record { split = λ x y e. absurd (ground arith) }
cut_bool false false = record { split = λ x y e. ground arith }

pub cut_word2 :
    (a b : ℕ)
    → a < 2 ^ 16
    → b < 2 ^ 16
    → Cut (big_endian 2 (a % 2 ^ 16)) (big_endian 2 (b % 2 ^ 16)) (a ≡ b)
unfolding big_endian
cut_word2 a b h k = record { split = λ x y e. ground arith }

pub cut_word4 :
    (a b : ℕ)
    → a < 2 ^ 32
    → b < 2 ^ 32
    → Cut (big_endian 4 (a % 2 ^ 32)) (big_endian 4 (b % 2 ^ 32)) (a ≡ b)
unfolding big_endian
cut_word4 a b h k = record { split = λ x y e. ground arith }

abbrev pub IsShort : Bytes → Type 0
IsShort value = length value < 2 ^ 32

pub cut_string :
    (a b : Bytes) → IsShort a → IsShort b → Cut (write_string a) (write_string b) (a ≡ b)
unfolding write_string
cut_string a b h k =
    cut_map (λ p. p.1)
      (cut_then (cut_word4 (length a) (length b) h k)
        (λ n. record { split = λ x y e. append-split a b x y n e }))

pub cut_strings :
    (as' bs : List Bytes)
    → length as' ≡ length bs
    → All IsShort as'
    → All IsShort bs
    → Cut (write_strings as') (write_strings bs) (as' ≡ bs)
unfolding write_strings
cut_strings [] [] n h k = cut_map (λ p. refl) cut_nothing
cut_strings [] (b ∷ bs) n h k = absurd (omega (arith, n))
cut_strings (a ∷ as') [] n h k = absurd (omega (arith, n))
cut_strings (a ∷ as') (b ∷ bs) n h k =
    cut_map (λ p. ground (arith, p))
      (cut_then (cut_string a b h.0 k.0) (λ s. cut_strings as' bs (omega (arith, n)) h.1 k.1))
