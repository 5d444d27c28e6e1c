-- ===== src/Endpoint/Connection/Equivalence/Reflexive.antt =====
-- Configuration.Equivalent of internal/endpoint/configuration.go is reflexive on valid configurations.
use egressfox.Endpoint.Connection.{
  TlsConfig, Transport, Address, Reality, SecurityOptions, Hysteria2Options, AdvancedConnection,
  AdvancedTransport, Credential, Settings, credential_valid, settings_valid,
}
use egressfox.Endpoint.Connection.Equivalence.{
  equivalent, credential_equal, security_equal, transport_equal, texts_equal, same_flag, tls_equal,
  address_equal, reality_equal, advanced_equal, advanced_transport_equal, hysteria_equal,
  text_or_empty,
}
use egressfox.Base.{[], true, false, none, some, Option, Bool, List, ◌≡◌, refl, arith, ◌∷◌, ==_refl}
use egressfox.Endpoint.Connection.Encoding.Versions.{valid_parts}
use egressfox.Base.Bytes.{eq_bytes_refl, Bytes}

texts_equal_refl : (a : List Bytes) → texts_equal a a ≡ true
unfolding texts_equal
texts_equal_refl [] = refl
texts_equal_refl (a ∷ as') = ground (arith, eq_bytes_refl a, texts_equal_refl as')

reality_equal_refl : (a : Option Reality) → reality_equal a a ≡ true
reality_equal_refl none = refl
reality_equal_refl (some a) = ground (arith, eq_bytes_refl a.public_key, eq_bytes_refl a.short_id)

security_equal_refl : (a : SecurityOptions) → security_equal a a ≡ true
unfolding security_equal
security_equal_refl a =
    ground
      (arith, eq_bytes_refl a.fingerprint, texts_equal_refl a.alpn, reality_equal_refl a.reality)

hysteria_equal_refl : (a : Option Hysteria2Options) → hysteria_equal a a ≡ true
hysteria_equal_refl none = refl
hysteria_equal_refl (some a) = ground (
  arith,
  ==_refl a.up_mbps,
  ==_refl a.down_mbps,
  eq_bytes_refl (text_or_empty a.obfs_password),
  texts_equal_refl a.port_ranges,
)

advanced_equal_refl : (a : Option AdvancedConnection) → advanced_equal a a ≡ true
advanced_equal_refl none = refl
advanced_equal_refl (some a) =
    ground (arith, ==_refl a.flow, security_equal_refl a.security, hysteria_equal_refl a.hysteria)

advanced_transport_equal_refl : (a : Option AdvancedTransport) → advanced_transport_equal a a ≡ true
advanced_transport_equal_refl none = refl
advanced_transport_equal_refl (some a) = ground (
  arith,
  eq_bytes_refl a.path,
  eq_bytes_refl a.host,
  eq_bytes_refl a.service,
  eq_bytes_refl a.mode,
)

transport_equal_refl : (t : Transport) → transport_equal t t ≡ true
unfolding transport_equal
transport_equal_refl t = ground (
  arith,
  ==_refl t.kind,
  eq_bytes_refl (text_or_empty t.web_socket_path),
  eq_bytes_refl t.web_socket_host,
  advanced_transport_equal_refl t.advanced,
)

same_flag_refl : (b : Bool) → same_flag b b ≡ true
same_flag_refl true = refl
same_flag_refl false = refl

tls_equal_refl : (c : TlsConfig) → tls_equal c c ≡ true
tls_equal_refl c = ground (
  arith,
  same_flag_refl c.enabled,
  eq_bytes_refl c.server_name,
  same_flag_refl c.insecure_skip_verify,
)

address_equal_refl : (a : Address) → address_equal a a ≡ true
address_equal_refl a = ground (arith, eq_bytes_refl a.host, ==_refl a.port, ==_refl a.kind)

credential_equal_refl : (c : Credential) → credential_valid c ≡ true → credential_equal c c ≡ true
unfolding credential_equal
credential_equal_refl c h =
    ground (
      arith,
      h,
      ==_refl c.protocol,
      eq_bytes_refl (text_or_empty c.secret),
      eq_bytes_refl c.username,
    )

pub equivalent_refl : (c : Settings) → settings_valid c ≡ true → equivalent c c ≡ true
unfolding equivalent
equivalent_refl c h =
    let (_, _, _, credential, _, _) = valid_parts c h in
    rw
      (
        ==_refl c.protocol,
        address_equal_refl c.address,
        credential_equal_refl c.credential credential,
        transport_equal_refl c.transport,
        tls_equal_refl c.tls,
        eq_bytes_refl c.method,
        advanced_equal_refl c.advanced,
      )
      refl
