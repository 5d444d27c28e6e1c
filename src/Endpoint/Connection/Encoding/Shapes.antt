-- ===== src/Endpoint/Connection/Encoding/Shapes.antt =====
-- What Configuration.valid of internal/endpoint leaves open once the encoded fields are known.
use egressfox.Endpoint.Connection.Encoding.{text_of, text_or_empty}
use egressfox.Endpoint.Connection.Encoding.Fields.{TransportSame}
use egressfox.Endpoint.Connection.{
  advanced_transport_valid, transport_valid, Transport, is_empty, AdvancedTransport, transport_quic,
  transport_xhttp, Bytes, credential_valid, Credential,
}
use egressfox.Base.{
  ℕ, true, false, none, some, List, ◌≡◌, Option, [], if◌then◌else◌, ◌∷◌, arith, ◌==◌, ap, refl,
  Bool-cases, inl, inr, Option-cases,
}

pub is_empty-eq {ℓ} : {A : Type ℓ} (l : List A) → is_empty l ≡ true → l ≡ []
is_empty-eq [] h = refl
is_empty-eq (x ∷ xs) h = cc

advanced_transport-eq :
    (kind : ℕ) (a b : AdvancedTransport)
    → advanced_transport_valid a kind ≡ true
    → advanced_transport_valid b kind ≡ true
    → a.path ≡ b.path
    → a.host ≡ b.host
    → (if kind == transport_xhttp then a.mode else a.service)
      ≡ (if kind == transport_xhttp then b.mode else b.service)
    → (kind ≡ transport_quic → (a.mode ≡ []) × (b.mode ≡ []))
    → a ≡ b
unfolding advanced_transport_valid
advanced_transport-eq kind a b h k path host service quic =
    elim (Bool-cases (kind == transport_xhttp)) [
      | inl e ↦ ground (arith, is_empty-eq a.service, is_empty-eq b.service, h, k)
      | inr e ↦ elim (Bool-cases (kind == transport_quic)) [
        | inl q ↦ ground (arith, quic, h, k)
        | inr q ↦ ground (arith, is_empty-eq a.mode, is_empty-eq b.mode, h, k)
      ]
    ]

-- The mode of QUIC is not written.
abbrev pub PlainMode : Transport → Type 0
PlainMode t = t.kind ≡ transport_quic → text_of t.advanced (λ a. a.mode) ≡ []

advanced-eq :
    (kind : ℕ) (t u : Transport) (a b : Option AdvancedTransport)
    → t.kind ≡ kind
    → u.kind ≡ kind
    → t.advanced ≡ a
    → u.advanced ≡ b
    → transport_valid t ≡ true
    → transport_valid u ≡ true
    → PlainMode t
    → PlainMode u
    → TransportSame t u
    → a ≡ b
unfolding transport_valid advanced_transport_valid
advanced-eq kind t u none none i j m n h k p q same = refl
advanced-eq kind t u none (some b) i j m n h k p q same = absurd (ground (arith, h, k, m, n, i, j))
advanced-eq kind t u (some a) none i j m n h k p q same = absurd (ground (arith, h, k, m, n, i, j))
advanced-eq kind t u (some a) (some b) i j m n h k p q (path, host, service) = ap some (
    advanced_transport-eq kind a b (ground (arith, h, m, i)) (ground (arith, k, n, j))
      (ground (arith, path, m, n)) (ground (arith, host, m, n))
      (ground (arith, service, m, n, i, j))
      (λ e. (ground (arith, p, m, i, e), ground (arith, q, n, j, e))))

socket_path-nonempty :
    (t : Transport) (path : Bytes)
    → transport_valid t ≡ true
    → t.web_socket_path ≡ some path
    → is_empty path ≡ false
unfolding transport_valid
socket_path-nonempty t path h e = elim (Option-cases t.advanced) [
  | inl n ↦ ground (arith, h, e, n)
  | inr (a, n) ↦ absurd (ground (arith, h, e, n))
]

pub text_or_empty-eq :
    (p q : Option Bytes)
    → ((text : Bytes) → p ≡ some text → is_empty text ≡ false)
    → ((text : Bytes) → q ≡ some text → is_empty text ≡ false)
    → text_or_empty p ≡ text_or_empty q
    → p ≡ q
text_or_empty-eq none none h k e = refl
text_or_empty-eq none (some []) h k e = absurd (ground (arith, k [] refl))
text_or_empty-eq none (some (y ∷ ys)) h k e = absurd (ground (arith, e))
text_or_empty-eq (some []) none h k e = absurd (ground (arith, h [] refl))
text_or_empty-eq (some (x ∷ xs)) none h k e = absurd (ground (arith, e))
text_or_empty-eq (some x) (some y) h k e = ap some e

pub transport-eq :
    (t u : Transport)
    → transport_valid t ≡ true
    → transport_valid u ≡ true
    → PlainMode t
    → PlainMode u
    → t.kind ≡ u.kind
    → text_or_empty t.web_socket_path ≡ text_or_empty u.web_socket_path
    → t.web_socket_host ≡ u.web_socket_host
    → TransportSame t u
    → t ≡ u
transport-eq t u h k p q kind path host same =
    let advanced = advanced-eq u.kind t u t.advanced u.advanced kind refl refl refl h k p q same in
    let socket =
      text_or_empty-eq t.web_socket_path u.web_socket_path
        (λ text e. socket_path-nonempty t text h e) (λ text e. socket_path-nonempty u text k e)
        path in
    ground (arith, advanced, socket, kind, host)

pub credential-eq :
    (c d : Credential)
    → credential_valid c ≡ true
    → credential_valid d ≡ true
    → c.protocol ≡ d.protocol
    → text_or_empty c.secret ≡ text_or_empty d.secret
    → c.username ≡ d.username
    → c ≡ d
unfolding credential_valid
credential-eq c d h k protocol secret name = elim (Option-cases c.secret) [
  | inl e ↦ absurd (ground (arith, h, e))
  | inr (s, e) ↦ elim (Option-cases d.secret) [
    | inl f ↦ absurd (ground (arith, k, f))
    | inr (s', f) ↦ ground (arith, e, f, secret, protocol, name)
  ]
]
