-- ===== src/Examples/Encodings.antt =====
-- Two VLESS connections with Reality that differ in their short identifiers.
use egressfox.Endpoint.Connection.Construction.{new_extended_configuration, tcp_transport}
use egressfox.Endpoint.Connection.Construction.Canonical.{
  by_extended, IsCanonical, Constructed-IsCanonical,
}
use egressfox.Endpoint.Connection.Encoding.Cuts.{IsShort}
use egressfox.Endpoint.Connection.Equivalence.Agreement.{canonical_configuration-equivalent}
use egressfox.Endpoint.Connection.Equivalence.{equivalent}
use egressfox.Endpoint.Connection.{
  settings_valid, AdvancedConnection, Settings, flow_vision, protocol_vless, transport_tcp,
  flow_none,
}
use egressfox.Base.Bytes.{Bytes, ascii}
use egressfox.Endpoint.Connection.Encoding.{canonical_configuration}
use egressfox.Endpoint.Connection.Encoding.Versions.{IsEncodable}
use egressfox.Base.{◌≡◌, arith, true, ◌∷◌, some, ◌↔◌, refl, [], none, false, ok}

abbrev secured : Bytes → AdvancedConnection
secured short_id = record {
  flow = flow_vision;
  security = record {
    alpn = ascii "h2" ∷ [];
    fingerprint = ascii "chrome";
    reality = some (record { public_key = ascii "key"; short_id = short_id });
  };
  hysteria = none;
}

abbrev connection : Bytes → Settings
connection short_id = record {
  protocol = protocol_vless;
  address = record { host = ascii "example.org"; port = 443; kind = 1 };
  credential = record { protocol = protocol_vless; secret = some (ascii "uuid"); username = [] };
  transport = record {
    kind = transport_tcp;
    web_socket_path = none;
    web_socket_host = [];
    advanced = none;
  };
  tls = record { enabled = true; server_name = ascii "example.org"; insecure_skip_verify = false };
  method = [];
  advanced = some (secured short_id);
}

valid : (short_id : Bytes) → settings_valid (connection short_id) ≡ true
unfolding settings_valid
valid short_id = refl

connection-IsEncodable : (short_id : Bytes) → IsShort short_id → IsEncodable (connection short_id)
connection-IsEncodable short_id h = record {
  valid = valid short_id;
  port = omega arith;
  host = omega arith;
  socket_path = omega arith;
  socket_host = omega arith;
  server_name = omega arith;
  method = omega arith;
  secret = omega arith;
  username = omega arith;
  transport = omega arith;
  advanced = (omega arith, omega arith, (omega arith, tt), omega arith, (omega arith, h), tt);
  plain_method = λ e. refl;
  plain_username = λ e. refl;
  plain_mode = λ e. refl;
  plain_obfs = λ options text e f. cc;
}

canonical_configuration-equivalent_example :
    (canonical_configuration (connection (ascii "ab")) true
      ≡ canonical_configuration (connection (ascii "cd")) true)
    ↔ (equivalent (connection (ascii "ab")) (connection (ascii "cd")) ≡ true)
canonical_configuration-equivalent_example =
    canonical_configuration-equivalent (connection (ascii "ab")) (connection (ascii "cd"))
      (connection-IsEncodable (ascii "ab") (omega arith))
      (connection-IsEncodable (ascii "cd") (omega arith))

-- A VLESS connection that the extended constructor is given without options.
abbrev no_options : AdvancedConnection
no_options = record {
  flow = flow_none;
  security = record { alpn = []; fingerprint = []; reality = none };
  hysteria = none;
}

abbrev plain_connection : Settings
plain_connection = record (connection []) { advanced = none }

built :
    new_extended_configuration protocol_vless plain_connection.address plain_connection.credential
      tcp_transport plain_connection.tls no_options
    ≡ ok plain_connection
unfolding new_extended_configuration
built = refl

Constructed-IsCanonical_example : IsCanonical plain_connection
Constructed-IsCanonical_example = Constructed-IsCanonical (
    by_extended protocol_vless plain_connection.address plain_connection.credential tcp_transport
      plain_connection.tls no_options built)
