-- ===== src/Endpoint/Connection/Encoding/Fields.antt =====
-- The groups of fields in the canonical encoding of internal/endpoint/identity.go can be read back.
use egressfox.Endpoint.Connection.{
  Settings, Reality, Bytes, Hysteria2Options, AdvancedConnection, Transport, Credential, is_empty,
}
use egressfox.Endpoint.Connection.Encoding.{
  write_string, write_base, big_endian, text_or_empty, write_reality, write_obfs, write_hysteria,
  write_ports, write_advanced, text_of, identity_service, write_credential, write_byte,
  write_strings,
}
use egressfox.Base.Bytes.{big_endian, ascii}
use egressfox.Base.{
  true, false, none, some, Option, ◌<◌, ◌≡◌, arith, ◌^◌, length, refl, All, List, Bool,
  if◌then◌else◌, [], ◌∷◌, ◌++◌,
}
use egressfox.Endpoint.Connection.Encoding.Cuts.{
  cut_nothing, Cut, cut_then, cut_map, cut_end, cut_byte, cut_bool, cut_word2, cut_word4,
  cut_string, cut_strings, IsShort,
}

-- The fields of the first version fit their widths.
abbrev pub BaseFits : Settings → Type 0
BaseFits c =
    (c.protocol < 256)
    × (c.address.kind < 256)
    × IsShort c.address.host
    × (c.address.port < 2 ^ 16)
    × (c.transport.kind < 256)
    × IsShort (text_or_empty c.transport.web_socket_path)
    × IsShort c.tls.server_name

abbrev pub BaseSame : Settings → Settings → Type 0
BaseSame a b =
    (a.protocol ≡ b.protocol)
    × (a.address ≡ b.address)
    × (a.transport.kind ≡ b.transport.kind)
    × (text_or_empty a.transport.web_socket_path ≡ text_or_empty b.transport.web_socket_path)
    × (a.tls ≡ b.tls)

pub cut_base :
    (a b : Settings) → BaseFits a → BaseFits b → Cut (write_base a) (write_base b) (BaseSame a b)
unfolding write_base
cut_base a b (p, k, h, o, t, w, s) (p', k', h', o', t', w', s') =
    cut_map (λ same. ground (arith, same))
      (cut_then (cut_byte a.protocol b.protocol p p') λ _.
        cut_then (cut_byte a.address.kind b.address.kind k k') λ _.
          cut_then (cut_string a.address.host b.address.host h h') λ _.
            cut_then (cut_word2 a.address.port b.address.port o o') λ _.
              cut_then (cut_byte a.transport.kind b.transport.kind t t') λ _.
                cut_then
                  (cut_string (text_or_empty a.transport.web_socket_path)
                    (text_or_empty b.transport.web_socket_path) w w')
                  λ _. cut_then (cut_bool a.tls.enabled b.tls.enabled) λ _.
                    cut_then (cut_string a.tls.server_name b.tls.server_name s s')
                      λ _. cut_bool a.tls.insecure_skip_verify b.tls.insecure_skip_verify)

abbrev pub RealityFits : Option Reality → Type 0
RealityFits none = Unit {0}
RealityFits (some r) = IsShort r.public_key × IsShort r.short_id

cut_reality :
    (a b : Option Reality)
    → RealityFits a
    → RealityFits b
    → Cut (write_reality true a) (write_reality true b) (a ≡ b)
cut_reality none none h k = cut_map (λ e. refl) (cut_bool false false)
cut_reality none (some b) h k = record { split = λ x y e. absurd (ground arith) }
cut_reality (some a) none h k = record { split = λ x y e. absurd (ground arith) }
cut_reality (some a) (some b) h k =
    cut_map (λ same. ground (arith, same))
      (cut_then (cut_bool true true) λ _.
        cut_then (cut_string a.public_key b.public_key h.0 k.0)
          λ _. cut_string a.short_id b.short_id h.1 k.1)

abbrev TextFits : Option Bytes → Type 0
TextFits none = Unit {0}
TextFits (some text) = IsShort text

cut_obfs :
    (a b : Option Bytes)
    → TextFits a
    → TextFits b
    → Cut (write_obfs true a) (write_obfs true b) (a ≡ b)
cut_obfs none none h k = cut_map (λ e. refl) (cut_bool false false)
cut_obfs none (some b) h k = record { split = λ x y e. absurd (ground arith) }
cut_obfs (some a) none h k = record { split = λ x y e. absurd (ground arith) }
cut_obfs (some a) (some b) h k =
    cut_map (λ same. ground (arith, same)) (cut_then (cut_bool true true) λ _. cut_string a b h k)

abbrev pub HysteriaFits : Option Hysteria2Options → Type 0
HysteriaFits none = Unit {0}
HysteriaFits (some h) =
    (h.up_mbps < 2 ^ 32)
    × (h.down_mbps < 2 ^ 32)
    × TextFits h.obfs_password
    × (length h.port_ranges < 256)
    × All IsShort h.port_ranges

-- The same but for the port ranges, which stand at the end.
abbrev pub HysteriaSame : Option Hysteria2Options → Option Hysteria2Options → Type 0
HysteriaSame none none = Unit {0}
HysteriaSame none (some b) = ⊥
HysteriaSame (some a) none = ⊥
HysteriaSame (some a) (some b) =
    (a.up_mbps ≡ b.up_mbps) × (a.down_mbps ≡ b.down_mbps) × (a.obfs_password ≡ b.obfs_password)

cut_hysteria :
    (a b : Option Hysteria2Options)
    → HysteriaFits a
    → HysteriaFits b
    → Cut (write_hysteria true a) (write_hysteria true b) (HysteriaSame a b)
cut_hysteria none none h k = cut_map (λ e. tt) (cut_bool false false)
cut_hysteria none (some b) h k = record { split = λ x y e. absurd (ground arith) }
cut_hysteria (some a) none h k = record { split = λ x y e. absurd (ground arith) }
cut_hysteria (some a) (some b) (u, d, o, _, _) (u', d', o', _, _) =
    cut_map (λ same. ground (arith, same))
      (cut_then (cut_bool true true) λ _. cut_then (cut_word4 a.up_mbps b.up_mbps u u') λ _.
        cut_then (cut_word4 a.down_mbps b.down_mbps d d')
          λ _. cut_obfs a.obfs_password b.obfs_password o o')

abbrev port_bytes : List Bytes → Bytes
port_bytes ports =
    if is_empty ports
    then []
    else write_string (ascii "hysteria2-ports/v1")
      ++ (write_byte (length ports) ++ write_strings ports)

port_bytes-eq :
    (p q : List Bytes)
    → (length p < 256) × All IsShort p
    → (length q < 256) × All IsShort q
    → port_bytes p ≡ port_bytes q
    → p ≡ q
unfolding write_string big_endian
port_bytes-eq [] [] h k e = refl
port_bytes-eq [] (y ∷ q) h k e = absurd (ground (arith, e))
port_bytes-eq (x ∷ p) [] h k e = absurd (ground (arith, e))
port_bytes-eq (x ∷ p) (y ∷ q) h k e =
    (cut_end
      (cut_then
        (cut_string (ascii "hysteria2-ports/v1") (ascii "hysteria2-ports/v1") (omega arith)
          (omega arith))
        λ _.
          cut_then (cut_byte (length (x ∷ p)) (length (y ∷ q)) h.0 k.0)
            λ n. cut_strings (x ∷ p) (y ∷ q) n h.1 k.1)
      e).1.1

-- The port ranges end an encoding.
pub write_ports-eq :
    (a b : Option Hysteria2Options)
    → HysteriaFits a
    → HysteriaFits b
    → HysteriaSame a b
    → write_ports a ≡ write_ports b
    → a ≡ b
write_ports-eq none none h k same e = refl
write_ports-eq none (some b) h k same e = absurd same
write_ports-eq (some a) none h k same e = absurd same
write_ports-eq (some a) (some b) (_, _, _, n, s) (_, _, _, n', s') same e =
    ground (arith, same, port_bytes-eq a.port_ranges b.port_ranges (n, s) (n', s') e)

abbrev pub AdvancedFits : Option AdvancedConnection → Type 0
AdvancedFits none = Unit {0}
AdvancedFits (some a) =
    (a.flow < 256)
    × (length a.security.alpn < 256)
    × All IsShort a.security.alpn
    × IsShort a.security.fingerprint
    × RealityFits a.security.reality
    × HysteriaFits a.hysteria

abbrev pub TransportFits : Transport → Type 0
TransportFits t =
    IsShort (text_of t.advanced (λ x. x.path))
    × IsShort (text_of t.advanced (λ x. x.host))
    × IsShort (identity_service t)

abbrev pub TransportSame : Transport → Transport → Type 0
TransportSame t u =
    (text_of t.advanced (λ x. x.path) ≡ text_of u.advanced (λ x. x.path))
    × (text_of t.advanced (λ x. x.host) ≡ text_of u.advanced (λ x. x.host))
    × (identity_service t ≡ identity_service u)

pub cut_advanced :
    (t u : Transport) (a b : AdvancedConnection)
    → TransportFits t
    → TransportFits u
    → AdvancedFits (some a)
    → AdvancedFits (some b)
    → Cut (write_advanced true t a) (write_advanced true u b) (
        TransportSame t u
        × (a.flow ≡ b.flow)
        × (a.security ≡ b.security)
        × HysteriaSame a.hysteria b.hysteria)
unfolding write_advanced
cut_advanced t u a b (p, h, s) (p', h', s') (f, n, l, g, r, y) (f', n', l', g', r', y') =
    cut_map
      (λ (path, (host, (service, (flow, (size, (alpn, (print, (reality, hysteria)))))))).
        ((path, host, service), flow, ground (arith, alpn, print, reality), hysteria))
      (cut_then
        (cut_string (text_of t.advanced (λ x. x.path)) (text_of u.advanced (λ x. x.path)) p p')
        λ _.
          cut_then
            (cut_string (text_of t.advanced (λ x. x.host)) (text_of u.advanced (λ x. x.host)) h h')
            λ _. cut_then (cut_string (identity_service t) (identity_service u) s s') λ _.
              cut_then (cut_byte a.flow b.flow f f') λ _.
                cut_then (cut_byte (length a.security.alpn) (length b.security.alpn) n n') λ size.
                  cut_then (cut_strings a.security.alpn b.security.alpn size l l') λ _.
                    cut_then (cut_string a.security.fingerprint b.security.fingerprint g g') λ _.
                      cut_then (cut_reality a.security.reality b.security.reality r r')
                        λ _. cut_hysteria a.hysteria b.hysteria y y')

-- A user name is written in the third version only.
pub cut_credential :
    (version3 : Bool) (a b : Credential)
    → (a.protocol < 256) × IsShort (text_or_empty a.secret) × IsShort a.username
    → (b.protocol < 256) × IsShort (text_or_empty b.secret) × IsShort b.username
    → Cut (write_credential version3 a) (write_credential version3 b) (
        (a.protocol ≡ b.protocol)
        × (text_or_empty a.secret ≡ text_or_empty b.secret)
        × (if version3 then a.username ≡ b.username else Unit {0}))
cut_credential true a b (p, s, u) (p', s', u') =
    cut_map (λ (same, (secret, name)). (same, secret, name))
      (cut_then (cut_byte a.protocol b.protocol p p') λ _.
        cut_then (cut_string (text_or_empty a.secret) (text_or_empty b.secret) s s')
          λ _. cut_string a.username b.username u u')
cut_credential false a b (p, s, u) (p', s', u') =
    cut_map (λ (same, (secret, name)). (same, secret, name))
      (cut_then (cut_byte a.protocol b.protocol p p') λ _.
        cut_then (cut_string (text_or_empty a.secret) (text_or_empty b.secret) s s')
          λ _. cut_nothing)
