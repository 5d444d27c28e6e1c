-- ===== src/Endpoint/Connection.antt =====
-- internal/endpoint/configuration.go and advanced.go: connection configurations and their validity.
pub mod Equivalence
pub mod Encoding
pub mod Construction
use egressfox.Endpoint.{is_empty}
use egressfox.Base.Bytes.{eq_bytes, Bytes, ascii}
use egressfox.Base.{
  ℕ, Option, Bool, List, not, ◌==◌, if◌then◌else◌, false, some, leb, ◌||◌, ◌&&◌, is_none, none,
}

abbrev pub protocol_vless : ℕ
protocol_vless = 1

abbrev pub protocol_trojan : ℕ
protocol_trojan = 2

abbrev pub protocol_vmess : ℕ
protocol_vmess = 3

abbrev pub protocol_shadowsocks : ℕ
protocol_shadowsocks = 4

abbrev pub protocol_socks5 : ℕ
protocol_socks5 = 5

abbrev pub protocol_http_proxy : ℕ
protocol_http_proxy = 6

abbrev pub protocol_hysteria2 : ℕ
protocol_hysteria2 = 7

abbrev pub transport_tcp : ℕ
transport_tcp = 1

abbrev pub transport_web_socket : ℕ
transport_web_socket = 2

abbrev pub transport_http2 : ℕ
transport_http2 = 3

abbrev pub transport_http_upgrade : ℕ
transport_http_upgrade = 4

abbrev pub transport_grpc : ℕ
transport_grpc = 5

abbrev pub transport_quic : ℕ
transport_quic = 6

abbrev pub transport_xhttp : ℕ
transport_xhttp = 7

-- A host of kind 1 is a name, of kind 2 an IPv4 address, of kind 3 an IPv6 address.
pub record Address : Type 0 where
  pub host : Bytes
  pub port : ℕ
  pub kind : ℕ

pub record Credential : Type 0 where
  pub protocol : ℕ
  pub secret : Option Bytes
  pub username : Bytes

pub record AdvancedTransport : Type 0 where
  pub path : Bytes
  pub host : Bytes
  pub service : Bytes
  pub mode : Bytes

pub record Transport : Type 0 where
  pub kind : ℕ
  pub web_socket_path : Option Bytes
  pub web_socket_host : Bytes
  pub advanced : Option AdvancedTransport

pub record TlsConfig : Type 0 where
  pub enabled : Bool
  pub server_name : Bytes
  pub insecure_skip_verify : Bool

pub record Reality : Type 0 where
  pub public_key : Bytes
  pub short_id : Bytes

pub record SecurityOptions : Type 0 where
  pub alpn : List Bytes
  pub fingerprint : Bytes
  pub reality : Option Reality

pub record Hysteria2Options : Type 0 where
  pub up_mbps : ℕ
  pub down_mbps : ℕ
  pub obfs_password : Option Bytes
  pub port_ranges : List Bytes

abbrev pub flow_none : ℕ
flow_none = 0

abbrev pub flow_vision : ℕ
flow_vision = 1

pub record AdvancedConnection : Type 0 where
  pub flow : ℕ
  pub security : SecurityOptions
  pub hysteria : Option Hysteria2Options

pub record Settings : Type 0 where
  pub protocol : ℕ
  pub address : Address
  pub credential : Credential
  pub transport : Transport
  pub tls : TlsConfig
  pub method : Bytes
  pub advanced : Option AdvancedConnection

-- Address.valid
unfoldable pub address_valid : Address → Bool
address_valid a = not (is_empty a.host) && not (a.port == 0) && leb 1 a.kind && leb a.kind 3

abbrev pub is_proxy : ℕ → Bool
is_proxy protocol = protocol == protocol_socks5 || protocol == protocol_http_proxy

abbrev pub has_secret : Credential → Bytes → Bool
has_secret c value =
    if is_proxy c.protocol
    then is_empty c.username && is_empty value || not (is_empty c.username) && not (is_empty value)
    else not (is_empty value)
      && (leb protocol_vless c.protocol && leb c.protocol protocol_shadowsocks
          || c.protocol == protocol_hysteria2)

abbrev pub secret_valid : Credential → Option Bytes → Bool
secret_valid c none = false
secret_valid c (some value) = has_secret c value

-- Credential.valid
unfoldable pub credential_valid : Credential → Bool
credential_valid c = secret_valid c c.secret

abbrev pub is_stream_mode : Bytes → Bool
is_stream_mode mode =
    eq_bytes mode (ascii "stream-one")
    || eq_bytes mode (ascii "stream-up")
    || eq_bytes mode (ascii "packet-up")

-- advancedTransport.valid
unfoldable pub advanced_transport_valid : AdvancedTransport → ℕ → Bool
unfolding eq_bytes
advanced_transport_valid t kind =
    if kind == transport_http2 || kind == transport_http_upgrade
    then not (is_empty t.path) && is_empty t.service && is_empty t.mode
    else if kind == transport_grpc
    then not (is_empty t.service) && is_empty t.path && is_empty t.host && is_empty t.mode
    else if kind == transport_xhttp
    then not (is_empty t.path) && is_empty t.service && is_stream_mode t.mode
    else if kind == transport_quic
    then is_empty t.path && is_empty t.host && is_empty t.service
    else false

abbrev pub plain_transport_valid : ℕ → Option Bytes → Bytes → Bool
plain_transport_valid kind none host = kind == transport_tcp && is_empty host
plain_transport_valid kind (some path) host = kind == transport_web_socket && not (is_empty path)

abbrev pub transport_valid_with : Transport → Option AdvancedTransport → Bool
transport_valid_with t none = plain_transport_valid t.kind t.web_socket_path t.web_socket_host
transport_valid_with t (some advanced) =
    is_none t.web_socket_path
    && is_empty t.web_socket_host
    && advanced_transport_valid advanced t.kind

-- Transport.valid
unfoldable pub transport_valid : Transport → Bool
unfolding advanced_transport_valid
transport_valid t = transport_valid_with t t.advanced

abbrev pub has_security : SecurityOptions → Bool
has_security s = not (is_empty s.alpn) || not (is_empty s.fingerprint) || not (is_none s.reality)

abbrev pub advanced_fits : AdvancedConnection → Settings → Bool
advanced_fits a c =
    if is_proxy c.protocol
    then c.transport.kind == transport_tcp
      && (c.protocol == protocol_http_proxy || not c.tls.enabled)
      && a.flow == flow_none
      && is_none a.hysteria
      && not (has_security a.security)
    else if c.protocol == protocol_hysteria2
    then c.transport.kind == transport_quic
      && not (is_none a.hysteria)
      && a.flow == flow_none
      && is_none a.security.reality
    else is_none a.hysteria && not (c.transport.kind == transport_quic)

-- The early returns of advancedConnection.valid.
abbrev pub advanced_refused : AdvancedConnection → Settings → Bool
advanced_refused a c =
    not (a.flow == flow_none)
      && (not (a.flow == flow_vision)
          || not (c.protocol == protocol_vless)
          || not (c.transport.kind == transport_tcp)
          || not c.tls.enabled)
    || has_security a.security && not c.tls.enabled
    || not (is_none a.security.reality)
      && (not (c.protocol == protocol_vless)
          || c.tls.insecure_skip_verify
          || is_empty c.tls.server_name)
    || not (is_none a.security.reality) && not (c.transport.kind == transport_tcp)
    || c.transport.kind == transport_http2 && not c.tls.enabled
    || c.protocol == protocol_trojan && c.transport.kind == transport_http2
    || c.transport.kind == transport_xhttp && not (c.protocol == protocol_vless)

abbrev pub advanced_valid_with : Option AdvancedConnection → Settings → Bool
advanced_valid_with none c =
    not (is_proxy c.protocol)
    && not (c.protocol == protocol_hysteria2)
    && is_none c.transport.advanced
advanced_valid_with (some a) c = not (advanced_refused a c) && advanced_fits a c

-- advancedConnection.valid
unfoldable pub advanced_valid : Settings → Bool
advanced_valid c = advanced_valid_with c.advanced c

-- Configuration.valid
unfoldable pub settings_valid : Settings → Bool
unfolding address_valid credential_valid transport_valid advanced_valid
settings_valid c =
    leb protocol_vless c.protocol
    && leb c.protocol protocol_hysteria2
    && address_valid c.address
    && credential_valid c.credential
    && c.credential.protocol == c.protocol
    && transport_valid c.transport
    && not
        ((c.protocol == protocol_trojan || c.protocol == protocol_hysteria2) && not c.tls.enabled)
    && not (
        c.protocol == protocol_shadowsocks
        && (not (c.transport.kind == transport_tcp) || c.tls.enabled))
    && not
        ((c.protocol == protocol_vmess || c.protocol == protocol_shadowsocks) && is_empty c.method)
    && advanced_valid c
    && (not c.tls.enabled || not (is_empty c.tls.server_name))
