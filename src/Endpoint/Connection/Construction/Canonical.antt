-- ===== src/Endpoint/Connection/Construction/Canonical.antt =====
-- What the constructors of internal/endpoint/configuration.go and advanced.go build.
use egressfox.Endpoint.Connection.{
  Settings, Address, settings_valid, Credential, protocol_vless, Transport, TlsConfig,
  protocol_trojan, Bytes, protocol_vmess, AdvancedConnection, SecurityOptions, address_valid,
  advanced_valid, credential_valid, protocol_shadowsocks, transport_valid, flow_none,
  advanced_valid_with,
}
use egressfox.Endpoint.Connection.Construction.{
  new_configuration, extended, new_vmess_configuration, new_additional_configuration,
  checked_settings, contradictory_options, unsupported_protocol, new_shadowsocks_configuration,
  invalid_address, fields_invalid, vmess_method, new_extended_configuration, has_options,
  invalid_credential, invalid_fields, unsupported_method, unsupported_transport,
  new_extended_vmess_configuration, tls_required, with_address, settings_of, shadowsocks_method,
  tcp_transport, disabled_tls,
}
use egressfox.Base.{
  ℕ, Bool, ◌≡◌, ◌==◌, true, ok, none, false, >>-eq-ok, ◌||◌, [], not, subst, some, arith, is_none,
  refl, ◌&&◌, Bool-cases, inl, inr, Option, ◌∙◌, sym,
}
use egressfox.Endpoint.Connection.Encoding.Versions.{uses_method, valid_parts}

pub data Constructed : Settings → Type 0 where
  by_new :
      {c : Settings} (protocol : ℕ) (a : Address) (k : Credential) (t : Transport) (tls : TlsConfig)
      → new_configuration protocol a k t tls ≡ ok c
      → Constructed c
  by_vmess :
      {c : Settings} (a : Address) (k : Credential) (t : Transport) (tls : TlsConfig)
      (method : Bytes)
      → new_vmess_configuration a k t tls method ≡ ok c
      → Constructed c
  by_shadowsocks :
      {c : Settings} (a : Address) (k : Credential) (method : Bytes)
      → new_shadowsocks_configuration a k method ≡ ok c
      → Constructed c
  by_extended :
      {c : Settings} (protocol : ℕ) (a : Address) (k : Credential) (t : Transport) (tls : TlsConfig)
      (options : AdvancedConnection)
      → new_extended_configuration protocol a k t tls options ≡ ok c
      → Constructed c
  by_extended_vmess :
      {c : Settings} (a : Address) (k : Credential) (t : Transport) (tls : TlsConfig)
      (security : SecurityOptions) (method : Bytes)
      → new_extended_vmess_configuration a k t tls security method ≡ ok c
      → Constructed c
  readdressed :
      {c d : Settings} (a : Address) → Constructed c → with_address c a ≡ ok d → Constructed d

abbrev pub is_old : ℕ → Bool
is_old protocol =
    protocol == protocol_vless || protocol == protocol_trojan || protocol == protocol_vmess

-- Valid, with a method only where the protocol has one, and without advanced options that say
-- nothing on an old connection.
pub record IsCanonical (c : Settings) : Type 0 where
  pub valid : settings_valid c ≡ true
  pub plain_method : uses_method c.protocol ≡ false → c.method ≡ []
  pub plain_options :
      (options : AdvancedConnection)
      → c.advanced ≡ some options
      → is_old c.protocol ≡ true
      → c.transport.advanced ≡ none
      → has_options options ≡ true

checked : (c d : Settings) → checked_settings c ≡ ok d → (settings_valid c ≡ true) × (c ≡ d)
checked c d h =
    let (valid, last) = >>-eq-ok (not (settings_valid c)) contradictory_options _ h in
    (ground (arith, valid), ground (arith, last))

-- A checked configuration without advanced options.
checked-IsCanonical :
    (c d : Settings)
    → c.advanced ≡ none
    → (uses_method c.protocol ≡ false → c.method ≡ [])
    → checked_settings c ≡ ok d
    → IsCanonical d
checked-IsCanonical c d none_there method h =
    let (valid, same) = checked c d h in
    subst IsCanonical same (record {
      valid = valid;
      plain_method = method;
      plain_options = λ options e old plain. absurd (ground (arith, e, none_there));
    })

new_configuration-IsCanonical :
    (protocol : ℕ) (a : Address) (k : Credential) (t : Transport) (tls : TlsConfig) (c : Settings)
    → new_configuration protocol a k t tls ≡ ok c
    → IsCanonical c
unfolding new_configuration
new_configuration-IsCanonical protocol a k t tls c h =
    let (_, h1) =
      >>-eq-ok (not (protocol == protocol_vless || protocol == protocol_trojan))
        unsupported_protocol _ h in
    let (_, h2) = >>-eq-ok (not (address_valid a)) invalid_address _ h1 in
    let (_, h3) =
      >>-eq-ok (not (credential_valid k) || not (k.protocol == protocol)) invalid_credential _ h2 in
    let (_, h4) = >>-eq-ok (not (transport_valid t)) unsupported_transport _ h3 in
    let (_, h5) = >>-eq-ok (protocol == protocol_trojan && not tls.enabled) tls_required _ h4 in
    checked-IsCanonical (settings_of protocol a k t tls [] none) c refl (λ e. refl) h5

new_additional_configuration-IsCanonical :
    (protocol : ℕ) (a : Address) (k : Credential) (t : Transport) (tls : TlsConfig) (method : Bytes)
    (c : Settings)
    → (uses_method protocol ≡ false → method ≡ [])
    → new_additional_configuration protocol a k t tls method ≡ ok c
    → IsCanonical c
unfolding new_additional_configuration
new_additional_configuration-IsCanonical protocol a k t tls method c m h =
    let (_, h1) = >>-eq-ok (fields_invalid protocol a k t) invalid_fields _ h in
    checked-IsCanonical (settings_of protocol a k t tls method none) c refl m h1

new_vmess_configuration-IsCanonical :
    (a : Address) (k : Credential) (t : Transport) (tls : TlsConfig) (method : Bytes) (c : Settings)
    → new_vmess_configuration a k t tls method ≡ ok c
    → IsCanonical c
unfolding new_vmess_configuration
new_vmess_configuration-IsCanonical a k t tls method c h =
    let (_, h1) = >>-eq-ok (not (vmess_method method)) unsupported_method _ h in
    new_additional_configuration-IsCanonical protocol_vmess a k t tls method c (λ e. cc) h1

extended-IsCanonical :
    (protocol : ℕ) (a : Address) (k : Credential) (t : Transport) (tls : TlsConfig)
    (options : AdvancedConnection) (method : Bytes) (c : Settings)
    → (uses_method protocol ≡ false → method ≡ [])
    → extended protocol a k t tls options method ≡ ok c
    → IsCanonical c
unfolding extended
extended-IsCanonical protocol a k t tls options method c m h =
    let (_, h1) = >>-eq-ok (fields_invalid protocol a k t) invalid_fields _ h in
    let plain : Bool = is_none t.advanced && not (has_options options) in
    let first : Bool = plain && (protocol == protocol_vless || protocol == protocol_trojan) in
    elim (Bool-cases first) [
      | inl e ↦ new_configuration-IsCanonical protocol a k t tls c (ground (arith, h1, e))
      | inr e ↦ elim (Bool-cases (plain && protocol == protocol_vmess)) [
        | inl f ↦ new_vmess_configuration-IsCanonical a k t tls method c (ground (arith, h1, e, f))
        | inr f ↦
            let made : Settings = settings_of protocol a k t tls method (some options) in
            let (valid, same) = checked made c (ground (arith, h1, e, f)) in
            subst IsCanonical same (record {
              valid = valid;
              plain_method = m;
              plain_options = λ o found old nothing. ground (arith, e, f, found, old, nothing);
            })
      ]
    ]

advanced_valid_with-address :
    (o : Option AdvancedConnection) (c : Settings) (a : Address)
    → advanced_valid_with o (record c { address = a }) ≡ advanced_valid_with o c
advanced_valid_with-address none c a = refl
advanced_valid_with-address (some options) c a = refl

readdressed_valid :
    (c : Settings) (a : Address)
    → settings_valid c ≡ true
    → address_valid a ≡ true
    → settings_valid (record c { address = a }) ≡ true
unfolding settings_valid advanced_valid
readdressed_valid c a h k =
    let (_, valid, _, _, _, _) = valid_parts c h in
    rw (k ∙ sym valid, advanced_valid_with-address c.advanced c a) h

with_address-IsCanonical :
    (c d : Settings) (a : Address) → IsCanonical c → with_address c a ≡ ok d → IsCanonical d
unfolding with_address
with_address-IsCanonical c d a canonical h =
    let (_, last) =
      >>-eq-ok (not (settings_valid c) || not (address_valid a)) invalid_address _ h in
    let same : record c { address = a } ≡ d = ground (arith, last) in
    subst IsCanonical same (record {
      valid = readdressed_valid c a canonical.valid (ground (arith, h));
      plain_method = canonical.plain_method;
      plain_options = canonical.plain_options;
    })

-- Whatever constructors build a configuration from its parts: it is valid; it has a method only where
-- its protocol has one; and a VLESS, Trojan or VMess connection without advanced options and with a
-- plain transport has no record of advanced options, so that its encoding has the same version
-- whichever constructor was called.
pub Constructed-IsCanonical : {c : Settings} → Constructed c → IsCanonical c
unfolding new_shadowsocks_configuration new_extended_configuration new_extended_vmess_configuration
Constructed-IsCanonical (by_new {c} protocol a k t tls h) =
    new_configuration-IsCanonical protocol a k t tls c h
Constructed-IsCanonical (by_vmess {c} a k t tls method h) =
    new_vmess_configuration-IsCanonical a k t tls method c h
Constructed-IsCanonical (by_shadowsocks {c} a k method h) =
    let (_, h1) = >>-eq-ok (not (shadowsocks_method method)) unsupported_method _ h in
    new_additional_configuration-IsCanonical protocol_shadowsocks a k tcp_transport disabled_tls
      method c (λ e. cc) h1
Constructed-IsCanonical (by_extended {c} protocol a k t tls options h) =
    extended-IsCanonical protocol a k t tls options [] c (λ e. refl) h
Constructed-IsCanonical (by_extended_vmess {c} a k t tls security method h) =
    let (_, h1) = >>-eq-ok (not (vmess_method method)) unsupported_method _ h in
    extended-IsCanonical protocol_vmess a k t tls
      (record { flow = flow_none; security = security; hysteria = none }) method c (λ e. cc) h1
Constructed-IsCanonical (readdressed {c} {d} a built h) =
    with_address-IsCanonical c d a (Constructed-IsCanonical built) h
