-- ===== src/Endpoint/Connection/Encoding/Versions.antt =====
-- The versions of the canonical encoding of internal/endpoint/identity.go and the configurations that
-- they cover.
use egressfox.Endpoint.Connection.Encoding.Shapes.{PlainMode}
use egressfox.Endpoint.Connection.Encoding.Fields.{TransportFits, AdvancedFits}
use egressfox.Endpoint.Connection.Encoding.{domain, is_version3, is_version2, text_or_empty}
use egressfox.Endpoint.Connection.Encoding.Cuts.{IsShort}
use egressfox.Endpoint.Connection.{
  Settings, advanced_valid, settings_valid, transport_valid, address_valid,
  advanced_transport_valid, protocol_vmess, Transport, credential_valid, AdvancedConnection,
  is_proxy, protocol_shadowsocks, Address, protocol_vless, protocol_hysteria2, is_empty,
  Hysteria2Options, Bytes,
}
use egressfox.Base.{
  ℕ, true, false, none, some, Bool, ◌≡◌, ◌==◌, ◌<◌, Bool-cases, Option-cases, inl, ◌||◌, ◌^◌, arith,
  inr, ◌∙◌, sym, [], leb, not, ==_iff, Option, and_true,
}

abbrev pub uses_method : ℕ → Bool
uses_method protocol = protocol == protocol_vmess || protocol == protocol_shadowsocks

-- An empty password is none.
abbrev pub PlainObfs : Option AdvancedConnection → Type 0
PlainObfs none = Unit {0}
PlainObfs (some a) =
    (h : Hysteria2Options) (text : Bytes)
    → a.hysteria ≡ some h
    → h.obfs_password ≡ some text
    → is_empty text ≡ false

-- The configurations that the constructors build: the fields fit their widths, and those that an
-- encoding leaves out are empty.
pub record IsEncodable (c : Settings) : Type 0 where
  pub valid : settings_valid c ≡ true
  pub port : c.address.port < 2 ^ 16
  pub host : IsShort c.address.host
  pub socket_path : IsShort (text_or_empty c.transport.web_socket_path)
  pub socket_host : IsShort c.transport.web_socket_host
  pub server_name : IsShort c.tls.server_name
  pub method : IsShort c.method
  pub secret : IsShort (text_or_empty c.credential.secret)
  pub username : IsShort c.credential.username
  pub transport : TransportFits c.transport
  pub advanced : AdvancedFits c.advanced
  pub plain_method : uses_method c.protocol ≡ false → c.method ≡ []
  pub plain_username : is_proxy c.protocol ≡ false → c.credential.username ≡ []
  pub plain_mode : PlainMode c.transport
  pub plain_obfs : PlainObfs c.advanced

pub address_kind-small : (a : Address) → address_valid a ≡ true → a.kind < 256
unfolding address_valid
address_kind-small a h = ground (arith, h)

protocol-small : (n : ℕ) → leb n protocol_hysteria2 ≡ true → n < 256
protocol-small n h = ground (arith, h)

pub valid_parts :
    (c : Settings)
    → settings_valid c ≡ true
    → (c.protocol < 256)
      × (address_valid c.address ≡ true)
      × (c.credential.protocol ≡ c.protocol)
      × (credential_valid c.credential ≡ true)
      × (transport_valid c.transport ≡ true)
      × (advanced_valid c ≡ true)
unfolding settings_valid
valid_parts c h =
    let (h1, _) = and_true _ (not c.tls.enabled || not (is_empty c.tls.server_name)) h in
    let (h2, advanced) = and_true _ (advanced_valid c) h1 in
    let (h3, _) = and_true _ _ h2 in
    let (h4, _) = and_true _ _ h3 in
    let (h5, _) = and_true _ _ h4 in
    let (h6, transport) = and_true _ (transport_valid c.transport) h5 in
    let (h7, protocol) = and_true _ (c.credential.protocol == c.protocol) h6 in
    let (h8, credential) = and_true _ (credential_valid c.credential) h7 in
    let (h9, address) = and_true _ (address_valid c.address) h8 in
    let (_, high) =
      and_true (leb protocol_vless c.protocol) (leb c.protocol protocol_hysteria2) h9 in
    (
      protocol-small c.protocol high,
      address,
      (==_iff c.credential.protocol c.protocol).0 protocol,
      credential,
      transport,
      advanced,
    )

pub transport_kind-small : (t : Transport) → transport_valid t ≡ true → t.kind < 256
unfolding transport_valid advanced_transport_valid
transport_kind-small t h = elim (Option-cases t.advanced) [
  | inr (a, e) ↦ ground (arith, h, e)
  | inl e ↦ elim (Option-cases t.web_socket_path) [
    | inl f ↦ ground (arith, h, e, f)
    | inr (p, f) ↦ ground (arith, h, e, f)
  ]
]

-- What the versions say of the shape.
pub version3-advanced :
    (c : Settings)
    → settings_valid c ≡ true
    → is_version3 c ≡ true
    → (a : AdvancedConnection) × (c.advanced ≡ some a)
unfolding advanced_valid
version3-advanced c h v = elim (Option-cases c.advanced) [
  | inr found ↦ found
  | inl e ↦ let (_, _, _, _, _, fits) = valid_parts c h in absurd (ground (arith, fits, v, e))
]

pub version2-plain :
    (c : Settings)
    → settings_valid c ≡ true
    → is_version3 c ≡ false
    → (c.advanced ≡ none) × (c.transport.advanced ≡ none) × (is_proxy c.protocol ≡ false)
unfolding advanced_valid
version2-plain c h v =
    let (_, _, _, _, _, fits) = valid_parts c h in
    elim (Option-cases c.advanced) [
      | inr (a, e) ↦ absurd (ground (arith, v, e))
      | inl e ↦ elim (Option-cases c.transport.advanced) [
        | inr (a, f) ↦ absurd (ground (arith, v, f))
        | inl f ↦ (e, f, ground (arith, fits, e))
      ]
    ]

pub domain-eq :
    (a b : Settings)
    → domain true a ≡ domain true b
    → (is_version3 a ≡ is_version3 b) × (is_version2 a ≡ is_version2 b)
domain-eq a b h = elim (Bool-cases (is_version3 a)) [
  | inl e ↦ elim (Bool-cases (is_version3 b)) [
    | inl f ↦ (ground (arith, e, f), ground (arith, e, f))
    | inr f ↦ elim (Bool-cases (is_version2 b)) [
      | inl g ↦ absurd (ground (arith, e, f, g, h))
      | inr g ↦ absurd (ground (arith, e, f, g, h))
    ]
  ]
  | inr e ↦ elim (Bool-cases (is_version3 b)) [
    | inl f ↦ elim (Bool-cases (is_version2 a)) [
      | inl g ↦ absurd (ground (arith, e, f, g, h))
      | inr g ↦ absurd (ground (arith, e, f, g, h))
    ]
    | inr f ↦ elim (Bool-cases (is_version2 a)) [
      | inl g ↦ elim (Bool-cases (is_version2 b)) [
        | inl k ↦ (e ∙ sym f, g ∙ sym k)
        | inr k ↦ absurd (ground (arith, e, f, g, k, h))
      ]
      | inr g ↦ elim (Bool-cases (is_version2 b)) [
        | inl k ↦ absurd (ground (arith, e, f, g, k, h))
        | inr k ↦ (e ∙ sym f, g ∙ sym k)
      ]
    ]
  ]
]

pub domain-IsShort : (c : Settings) → IsShort (domain true c)
domain-IsShort c = elim (Bool-cases (is_version3 c)) [
  | inl e ↦ ground (arith, e)
  | inr e ↦ elim (Bool-cases (is_version2 c)) [
    | inl f ↦ ground (arith, e, f)
    | inr f ↦ ground (arith, e, f)
  ]
]

pub version1-plain :
    (c : Settings)
    → is_version2 c ≡ false
    → (uses_method c.protocol ≡ false) × (is_empty c.transport.web_socket_host ≡ true)
version1-plain c h = (ground (arith, h), ground (arith, h))
