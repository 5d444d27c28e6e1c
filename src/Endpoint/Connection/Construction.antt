-- ===== src/Endpoint/Connection/Construction.antt =====
-- The constructors of internal/endpoint/configuration.go and advanced.go, on parts that are built.
pub mod Canonical
use egressfox.Base.Bytes.{eq_bytes, Bytes, ascii}
use egressfox.Endpoint.Connection.{
  TlsConfig, Transport, settings_valid, Address, Settings, AdvancedConnection, address_valid,
  Credential, transport_tcp, credential_valid, SecurityOptions, is_empty, transport_valid,
  protocol_vless, protocol_vmess, protocol_shadowsocks, flow_none, protocol_trojan, has_security,
}
use egressfox.Base.{
  ℕ, Result, Bool, false, if◌then◌else◌, fail_if, not, none, [], ◌&&◌, ◌>>◌, ◌||◌, ◌==◌, ok,
  is_none, some, Option,
}

pub data ConfigurationError : Type 0 where
  unsupported_protocol invalid_address invalid_credential unsupported_transport : ConfigurationError
  tls_required contradictory_options unsupported_method invalid_fields : ConfigurationError

-- An enabled TLS without a server name takes the host.
abbrev pub named_tls : Address → TlsConfig → TlsConfig
named_tls address tls =
    if tls.enabled && is_empty tls.server_name
    then record tls { server_name = address.host }
    else tls

abbrev pub checked_settings : Settings → Result ConfigurationError Settings
checked_settings c = fail_if (not (settings_valid c)) contradictory_options >> ok c

abbrev pub settings_of :
    ℕ → Address → Credential → Transport → TlsConfig → Bytes → Option AdvancedConnection → Settings
settings_of protocol address credential transport tls method advanced = record {
  protocol = protocol;
  address = address;
  credential = credential;
  transport = transport;
  tls = named_tls address tls;
  method = method;
  advanced = advanced;
}

-- NewConfiguration
unfoldable pub new_configuration :
    ℕ → Address → Credential → Transport → TlsConfig → Result ConfigurationError Settings
unfolding settings_valid address_valid credential_valid transport_valid
new_configuration protocol address credential transport tls = do
  fail_if (not (protocol == protocol_vless || protocol == protocol_trojan)) unsupported_protocol
  fail_if (not (address_valid address)) invalid_address
  fail_if (not (credential_valid credential) || not (credential.protocol == protocol))
      invalid_credential
  fail_if (not (transport_valid transport)) unsupported_transport
  fail_if (protocol == protocol_trojan && not tls.enabled) tls_required
  checked_settings (settings_of protocol address credential transport tls [] none)

abbrev pub fields_invalid : ℕ → Address → Credential → Transport → Bool
fields_invalid protocol address credential transport =
    not (address_valid address)
    || not (credential_valid credential)
    || not (credential.protocol == protocol)
    || not (transport_valid transport)

-- newAdditionalConfiguration
unfoldable pub new_additional_configuration :
    ℕ → Address → Credential → Transport → TlsConfig → Bytes → Result ConfigurationError Settings
unfolding settings_valid address_valid credential_valid transport_valid
new_additional_configuration protocol address credential transport tls method = do
  fail_if (fields_invalid protocol address credential transport) invalid_fields
  checked_settings (settings_of protocol address credential transport tls method none)

abbrev pub vmess_method : Bytes → Bool
vmess_method method =
    eq_bytes method (ascii "auto")
    || eq_bytes method (ascii "aes-128-gcm")
    || eq_bytes method (ascii "chacha20-poly1305")
    || eq_bytes method (ascii "none")

-- NewVMessConfiguration
unfoldable pub new_vmess_configuration :
    Address → Credential → Transport → TlsConfig → Bytes → Result ConfigurationError Settings
unfolding eq_bytes new_additional_configuration
new_vmess_configuration address credential transport tls method =
    fail_if (not (vmess_method method)) unsupported_method
    >> new_additional_configuration protocol_vmess address credential transport tls method

abbrev pub shadowsocks_method : Bytes → Bool
shadowsocks_method method =
    eq_bytes method (ascii "aes-128-gcm")
    || eq_bytes method (ascii "aes-256-gcm")
    || eq_bytes method (ascii "chacha20-ietf-poly1305")

-- NewTCPTransport and DisabledTLS
abbrev pub tcp_transport : Transport
tcp_transport = record {
  kind = transport_tcp;
  web_socket_path = none;
  web_socket_host = [];
  advanced = none;
}

abbrev pub disabled_tls : TlsConfig
disabled_tls = record { enabled = false; server_name = []; insecure_skip_verify = false }

-- NewShadowsocksConfiguration
unfoldable pub new_shadowsocks_configuration :
    Address → Credential → Bytes → Result ConfigurationError Settings
unfolding eq_bytes new_additional_configuration
new_shadowsocks_configuration address credential method =
    fail_if (not (shadowsocks_method method)) unsupported_method
    >> new_additional_configuration protocol_shadowsocks address credential tcp_transport
        disabled_tls method

abbrev pub has_options : AdvancedConnection → Bool
has_options a = not (a.flow == flow_none) || not (is_none a.hysteria) || has_security a.security

-- newExtendedConfiguration
unfoldable pub extended :
    ℕ
    → Address
    → Credential
    → Transport
    → TlsConfig
    → AdvancedConnection
    → Bytes
    → Result ConfigurationError Settings
unfolding settings_valid address_valid credential_valid transport_valid new_configuration
    new_vmess_configuration
extended protocol address credential transport tls options method =
    let plain = is_none transport.advanced && not (has_options options) in
    fail_if (fields_invalid protocol address credential transport) invalid_fields
    >> (if plain && (protocol == protocol_vless || protocol == protocol_trojan)
        then new_configuration protocol address credential transport tls
        else if plain && protocol == protocol_vmess
        then new_vmess_configuration address credential transport tls method
        else checked_settings
            (settings_of protocol address credential transport tls method (some options)))

-- NewExtendedConfiguration
unfoldable pub new_extended_configuration :
    ℕ
    → Address
    → Credential
    → Transport
    → TlsConfig
    → AdvancedConnection
    → Result ConfigurationError Settings
unfolding extended
new_extended_configuration protocol address credential transport tls options =
    extended protocol address credential transport tls options []

-- NewExtendedVMessConfiguration
unfoldable pub new_extended_vmess_configuration :
    Address
    → Credential
    → Transport
    → TlsConfig
    → SecurityOptions
    → Bytes
    → Result ConfigurationError Settings
unfolding eq_bytes extended
new_extended_vmess_configuration address credential transport tls security method =
    fail_if (not (vmess_method method)) unsupported_method
    >> extended protocol_vmess address credential transport tls
        (record { flow = flow_none; security = security; hysteria = none }) method

-- WithAddress
unfoldable pub with_address : Settings → Address → Result ConfigurationError Settings
unfolding settings_valid address_valid
with_address c address =
    fail_if (not (settings_valid c) || not (address_valid address)) invalid_address
    >> ok (record c { address = address })
