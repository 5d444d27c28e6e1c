-- ===== src/Endpoint/Connection/Encoding.antt =====
-- canonicalConfiguration and Configuration.Identity of internal/endpoint/identity.go.
pub mod Cuts
pub mod Fields
pub mod Shapes
pub mod Versions
pub mod Injective
use egressfox.Endpoint.Connection.Equivalence.{text_or_empty}
use egressfox.Endpoint.{Identity, is_empty}
use egressfox.Base.Bytes.{big_endian, Bytes, ascii}
use egressfox.Endpoint.Connection.{
  Transport, Settings, settings_valid, AdvancedTransport, Reality, Hysteria2Options,
  AdvancedConnection, Credential, protocol_vmess, transport_xhttp, protocol_shadowsocks,
}
use egressfox.Base.{
  ℕ, Bool, List, Option, length, ◌%◌, ◌∷◌, not, false, ◌++◌, ◌||◌, if◌then◌else◌, ◌^◌, [], is_none,
  some, ◌==◌, true, none,
}

-- writeString, writeUint8 and writeBool.
unfoldable pub write_string : Bytes → Bytes
unfolding big_endian
write_string value = big_endian 4 (length value % 2 ^ 32) ++ value

abbrev pub write_byte : ℕ → Bytes
write_byte n = (n % 256) ∷ []

abbrev pub write_bool : Bool → Bytes
write_bool true = 1 ∷ []
write_bool false = 0 ∷ []

unfoldable pub write_strings : List Bytes → Bytes
unfolding write_string
write_strings [] = []
write_strings (value ∷ values) = write_string value ++ write_strings values

-- uses of the second and the third version of the encoding.
abbrev pub is_version3 : Settings → Bool
is_version3 c = not (is_none c.advanced) || not (is_none c.transport.advanced)

abbrev pub is_version2 : Settings → Bool
is_version2 c =
    is_version3 c
    || c.protocol == protocol_vmess
    || c.protocol == protocol_shadowsocks
    || not (is_empty c.transport.web_socket_host)

abbrev pub domain : Bool → Settings → Bytes
domain private c =
    if is_version3 c
    then (if private then ascii "egressfox.connection/v3" else ascii "egressfox.endpoint/v3")
    else if is_version2 c
    then (if private then ascii "egressfox.connection/v2" else ascii "egressfox.endpoint/v2")
    else (if private then ascii "egressfox.connection/v1" else ascii "egressfox.endpoint/v1")

abbrev pub text_of : Option AdvancedTransport → (AdvancedTransport → Bytes) → Bytes
text_of none field = []
text_of (some t) field = field t

-- Transport.identityService
abbrev pub identity_service : Transport → Bytes
identity_service t =
    if t.kind == transport_xhttp
    then text_of t.advanced (λ a. a.mode)
    else text_of t.advanced (λ a. a.service)

abbrev pub write_reality : Bool → Option Reality → Bytes
write_reality private none = write_bool false
write_reality private (some r) =
    write_bool true
    ++ (write_string r.public_key ++ (if private then write_string r.short_id else []))

abbrev pub write_obfs : Bool → Option Bytes → Bytes
write_obfs private none = write_bool false
write_obfs private (some password) =
    write_bool true ++ (if private then write_string password else [])

abbrev pub write_hysteria : Bool → Option Hysteria2Options → Bytes
write_hysteria private none = write_bool false
write_hysteria private (some h) =
    write_bool true
    ++ (big_endian 4 (h.up_mbps % 2 ^ 32)
        ++ (big_endian 4 (h.down_mbps % 2 ^ 32) ++ write_obfs private h.obfs_password))

-- The fields of the first version.
unfoldable pub write_base : Settings → Bytes
unfolding big_endian write_string
write_base c =
    write_byte c.protocol
    ++ (write_byte c.address.kind
        ++ (write_string c.address.host
            ++ (big_endian 2 (c.address.port % 2 ^ 16)
                ++ (write_byte c.transport.kind
                    ++ (write_string (text_or_empty c.transport.web_socket_path)
                        ++ (write_bool c.tls.enabled
                            ++ (write_string c.tls.server_name
                                ++ write_bool c.tls.insecure_skip_verify)))))))

-- The fields that the third version adds.
unfoldable pub write_advanced : Bool → Transport → AdvancedConnection → Bytes
unfolding big_endian write_string write_strings
write_advanced private t a =
    write_string (text_of t.advanced (λ x. x.path))
    ++ (write_string (text_of t.advanced (λ x. x.host))
        ++ (write_string (identity_service t)
            ++ (write_byte a.flow
                ++ (write_byte (length a.security.alpn)
                    ++ (write_strings a.security.alpn
                        ++ (write_string a.security.fingerprint
                            ++ (write_reality private a.security.reality
                                ++ write_hysteria private a.hysteria)))))))

abbrev pub write_ports : Option Hysteria2Options → Bytes
write_ports none = []
write_ports (some h) =
    if is_empty h.port_ranges
    then []
    else write_string (ascii "hysteria2-ports/v1")
      ++ (write_byte (length h.port_ranges) ++ write_strings h.port_ranges)

abbrev pub write_credential : Bool → Credential → Bytes
write_credential version3 c =
    write_byte c.protocol
    ++ (write_string (text_or_empty c.secret) ++ (if version3 then write_string c.username else []))

-- A configuration of the third version without advanced options is invalid, and the code panics on it.
abbrev pub write_version3 : Bool → Settings → Option AdvancedConnection → Bytes
write_version3 private c none = []
write_version3 private c (some a) =
    write_advanced private c.transport a
    ++ ((if private then write_credential true c.credential else []) ++ write_ports a.hysteria)

-- canonicalConfiguration
unfoldable pub canonical_configuration : Settings → Bool → Bytes
unfolding write_string write_base write_advanced write_strings
canonical_configuration c private =
    write_string (domain private c)
    ++ (write_base c
        ++ ((if is_version2 c
              then write_string c.transport.web_socket_host ++ write_string c.method
              else [])
            ++ (if is_version3 c
                then write_version3 private c c.advanced
                else (if private then write_credential false c.credential else []))))

-- The version of an identifier.
abbrev pub id_version : Settings → Bytes
id_version c =
    if is_version3 c then ascii "ef3_" else if is_version2 c then ascii "ef2_" else ascii "ef1_"

-- Configuration.Identity, with base32 in lower case and SHA-256.
unfoldable pub settings_identity : (Bytes → Bytes) → (Bytes → Bytes) → Settings → Identity
unfolding settings_valid canonical_configuration
settings_identity base32 sha256 c =
    if settings_valid c
    then record {
      id = id_version c ++ base32 (sha256 (canonical_configuration c false));
      revision = some (sha256 (canonical_configuration c true));
    }
    else record { id = []; revision = none }
