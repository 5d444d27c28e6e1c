-- ===== src/Endpoint/Connection/Equivalence.antt =====
-- Configuration.Equivalent of internal/endpoint/configuration.go and the comparisons that it calls.
pub mod Reflexive
pub mod Agreement
use egressfox.Base.Bytes.{eq_bytes, Bytes}
use egressfox.Endpoint.Connection.{
  Address, TlsConfig, credential_valid, Credential, AdvancedTransport, Transport, Reality,
  SecurityOptions, Hysteria2Options, AdvancedConnection, Settings,
}
use egressfox.Base.{Option, Bool, List, not, ◌&&◌, [], ◌==◌, true, some, ◌∷◌, false, none}

abbrev pub text_or_empty : Option Bytes → Bytes
text_or_empty none = []
text_or_empty (some text) = text

-- Credential.equal
unfoldable pub credential_equal : Credential → Credential → Bool
unfolding credential_valid eq_bytes
credential_equal a b =
    credential_valid a
    && credential_valid b
    && a.protocol == b.protocol
    && eq_bytes (text_or_empty a.secret) (text_or_empty b.secret)
    && eq_bytes a.username b.username

-- advancedTransport.equal
abbrev pub advanced_transport_equal : Option AdvancedTransport → Option AdvancedTransport → Bool
advanced_transport_equal none none = true
advanced_transport_equal none (some b) = false
advanced_transport_equal (some a) none = false
advanced_transport_equal (some a) (some b) =
    eq_bytes a.path b.path
    && eq_bytes a.host b.host
    && eq_bytes a.service b.service
    && eq_bytes a.mode b.mode

-- Transport.equal
unfoldable pub transport_equal : Transport → Transport → Bool
unfolding eq_bytes
transport_equal a b =
    a.kind == b.kind
    && eq_bytes (text_or_empty a.web_socket_path) (text_or_empty b.web_socket_path)
    && eq_bytes a.web_socket_host b.web_socket_host
    && advanced_transport_equal a.advanced b.advanced

unfoldable pub texts_equal : List Bytes → List Bytes → Bool
unfolding eq_bytes
texts_equal [] [] = true
texts_equal [] (b ∷ bs) = false
texts_equal (a ∷ as') [] = false
texts_equal (a ∷ as') (b ∷ bs) = eq_bytes a b && texts_equal as' bs

abbrev pub reality_equal : Option Reality → Option Reality → Bool
reality_equal none none = true
reality_equal none (some b) = false
reality_equal (some a) none = false
reality_equal (some a) (some b) =
    eq_bytes a.public_key b.public_key && eq_bytes a.short_id b.short_id

-- SecurityOptions.equal
unfoldable pub security_equal : SecurityOptions → SecurityOptions → Bool
unfolding eq_bytes texts_equal
security_equal a b =
    eq_bytes a.fingerprint b.fingerprint
    && texts_equal a.alpn b.alpn
    && reality_equal a.reality b.reality

abbrev pub hysteria_equal : Option Hysteria2Options → Option Hysteria2Options → Bool
hysteria_equal none none = true
hysteria_equal none (some b) = false
hysteria_equal (some a) none = false
hysteria_equal (some a) (some b) =
    a.up_mbps == b.up_mbps
    && a.down_mbps == b.down_mbps
    && eq_bytes (text_or_empty a.obfs_password) (text_or_empty b.obfs_password)
    && texts_equal a.port_ranges b.port_ranges

-- advancedConnection.equal
abbrev pub advanced_equal : Option AdvancedConnection → Option AdvancedConnection → Bool
advanced_equal none none = true
advanced_equal none (some b) = false
advanced_equal (some a) none = false
advanced_equal (some a) (some b) =
    a.flow == b.flow && security_equal a.security b.security && hysteria_equal a.hysteria b.hysteria

abbrev pub address_equal : Address → Address → Bool
address_equal a b = eq_bytes a.host b.host && a.port == b.port && a.kind == b.kind

abbrev pub same_flag : Bool → Bool → Bool
same_flag true b = b
same_flag false b = not b

abbrev pub tls_equal : TlsConfig → TlsConfig → Bool
tls_equal a b =
    same_flag a.enabled b.enabled
    && eq_bytes a.server_name b.server_name
    && same_flag a.insecure_skip_verify b.insecure_skip_verify

-- Configuration.Equivalent
unfoldable pub equivalent : Settings → Settings → Bool
unfolding eq_bytes credential_equal transport_equal security_equal texts_equal
equivalent a b =
    a.protocol == b.protocol
    && address_equal a.address b.address
    && credential_equal a.credential b.credential
    && transport_equal a.transport b.transport
    && tls_equal a.tls b.tls
    && eq_bytes a.method b.method
    && advanced_equal a.advanced b.advanced
