-- ===== src/Endpoint/Connection/Equivalence/Agreement.antt =====
-- Configuration.Equivalent of internal/endpoint/configuration.go against equality.
use egressfox.Endpoint.Connection.Equivalence.Reflexive.{equivalent_refl}
use egressfox.Endpoint.Connection.Encoding.{canonical_configuration}
use egressfox.Endpoint.Connection.Encoding.Injective.{settings-ext, canonical_configuration-eq}
use egressfox.Endpoint.Connection.Encoding.Fields.{TransportSame}
use egressfox.Endpoint.Connection.Encoding.Shapes.{
  PlainMode, text_or_empty-eq, transport-eq, credential-eq,
}
use egressfox.Endpoint.Connection.{
  TlsConfig, Transport, Address, Reality, SecurityOptions, Hysteria2Options, AdvancedConnection,
  AdvancedTransport, transport_valid, Credential, Settings, is_empty, credential_valid,
}
use egressfox.Endpoint.Connection.Equivalence.{
  equivalent, credential_equal, security_equal, transport_equal, texts_equal, same_flag, tls_equal,
  address_equal, reality_equal, advanced_equal, advanced_transport_equal, hysteria_equal,
  text_or_empty,
}
use egressfox.Base.{
  [], true, false, none, some, Option, Bool, List, ◌≡◌, and_true, refl, arith, ◌==◌, ==_iff, ◌∷◌,
  ◌↔◌, subst, ap,
}
use egressfox.Endpoint.Connection.Encoding.Versions.{IsEncodable, PlainObfs, valid_parts}
use egressfox.Base.Bytes.{eq_bytes_sound, Bytes, eq_bytes}

texts_equal-eq : (a b : List Bytes) → texts_equal a b ≡ true → a ≡ b
unfolding texts_equal
texts_equal-eq [] [] h = refl
texts_equal-eq [] (b ∷ bs) h = cc
texts_equal-eq (a ∷ as') [] h = cc
texts_equal-eq (a ∷ as') (b ∷ bs) h =
    let (first, rest) = and_true (eq_bytes a b) _ h in
    ground (arith, eq_bytes_sound a b first, texts_equal-eq as' bs rest)

reality_equal-eq : (a b : Option Reality) → reality_equal a b ≡ true → a ≡ b
reality_equal-eq none none h = refl
reality_equal-eq none (some b) h = cc
reality_equal-eq (some a) none h = cc
reality_equal-eq (some a) (some b) h =
    ground
      (arith, eq_bytes_sound a.public_key b.public_key, eq_bytes_sound a.short_id b.short_id, h)

security_equal-eq : (a b : SecurityOptions) → security_equal a b ≡ true → a ≡ b
unfolding security_equal
security_equal-eq a b h =
    let (h1, reality) = and_true _ (reality_equal a.reality b.reality) h in
    let (print, alpn) = and_true (eq_bytes a.fingerprint b.fingerprint) _ h1 in
    ground (
      arith,
      eq_bytes_sound a.fingerprint b.fingerprint print,
      texts_equal-eq a.alpn b.alpn alpn,
      reality_equal-eq a.reality b.reality reality,
    )

hysteria_equal-eq :
    (a b : Option Hysteria2Options)
    → ((h : Hysteria2Options) (text : Bytes)
        → a ≡ some h
        → h.obfs_password ≡ some text
        → is_empty text ≡ false)
    → ((h : Hysteria2Options) (text : Bytes)
        → b ≡ some h
        → h.obfs_password ≡ some text
        → is_empty text ≡ false)
    → hysteria_equal a b ≡ true
    → a ≡ b
hysteria_equal-eq none none p q h = refl
hysteria_equal-eq none (some b) p q h = cc
hysteria_equal-eq (some a) none p q h = cc
hysteria_equal-eq (some a) (some b) p q h =
    let (h1, ports) = and_true _ (texts_equal a.port_ranges b.port_ranges) h in
    let (h2, obfs) = and_true _ _ h1 in
    let (up, down) = and_true (a.up_mbps == b.up_mbps) (a.down_mbps == b.down_mbps) h2 in
    let passwords =
      text_or_empty-eq a.obfs_password b.obfs_password (λ text e. p a text refl e)
        (λ text e. q b text refl e) (eq_bytes_sound _ _ obfs) in
    ground (
      arith,
      (==_iff a.up_mbps b.up_mbps).0 up,
      (==_iff a.down_mbps b.down_mbps).0 down,
      passwords,
      texts_equal-eq a.port_ranges b.port_ranges ports,
    )

advanced_equal-eq :
    (a b : Option AdvancedConnection)
    → PlainObfs a
    → PlainObfs b
    → advanced_equal a b ≡ true
    → a ≡ b
advanced_equal-eq none none p q h = refl
advanced_equal-eq none (some b) p q h = cc
advanced_equal-eq (some a) none p q h = cc
advanced_equal-eq (some a) (some b) p q h =
    let (h1, hysteria) = and_true _ (hysteria_equal a.hysteria b.hysteria) h in
    let (flow, security) = and_true (a.flow == b.flow) _ h1 in
    ground (
      arith,
      (==_iff a.flow b.flow).0 flow,
      security_equal-eq a.security b.security security,
      hysteria_equal-eq a.hysteria b.hysteria p q hysteria,
    )

advanced_transport_equal-eq :
    (a b : Option AdvancedTransport) → advanced_transport_equal a b ≡ true → a ≡ b
advanced_transport_equal-eq none none h = refl
advanced_transport_equal-eq none (some b) h = cc
advanced_transport_equal-eq (some a) none h = cc
advanced_transport_equal-eq (some a) (some b) h = ground (
  arith,
  eq_bytes_sound a.path b.path,
  eq_bytes_sound a.host b.host,
  eq_bytes_sound a.service b.service,
  eq_bytes_sound a.mode b.mode,
  h,
)

TransportSame-ap : (t u : Transport) → t.kind ≡ u.kind → t.advanced ≡ u.advanced → TransportSame t u
TransportSame-ap t u k h = ground (arith, k, h)

transport_equal-eq :
    (t u : Transport)
    → transport_valid t ≡ true
    → transport_valid u ≡ true
    → PlainMode t
    → PlainMode u
    → transport_equal t u ≡ true
    → t ≡ u
unfolding transport_equal
transport_equal-eq t u v w p q h =
    let (h1, advanced) = and_true _ (advanced_transport_equal t.advanced u.advanced) h in
    let (h2, host) = and_true _ (eq_bytes t.web_socket_host u.web_socket_host) h1 in
    let (kind, path) = and_true (t.kind == u.kind) _ h2 in
    let kinds = (==_iff t.kind u.kind).0 kind in
    transport-eq t u v w p q kinds (eq_bytes_sound _ _ path) (eq_bytes_sound _ _ host)
      (TransportSame-ap t u kinds (advanced_transport_equal-eq t.advanced u.advanced advanced))

same_flag-eq : (a b : Bool) → same_flag a b ≡ true → a ≡ b
same_flag-eq true true h = refl
same_flag-eq true false h = cc
same_flag-eq false true h = cc
same_flag-eq false false h = refl

tls_equal-eq : (a b : TlsConfig) → tls_equal a b ≡ true → a ≡ b
tls_equal-eq a b h =
    let (h1, skip) = and_true _ (same_flag a.insecure_skip_verify b.insecure_skip_verify) h in
    let (enabled, name) = and_true (same_flag a.enabled b.enabled) _ h1 in
    ground (
      arith,
      same_flag-eq a.enabled b.enabled enabled,
      eq_bytes_sound a.server_name b.server_name name,
      same_flag-eq a.insecure_skip_verify b.insecure_skip_verify skip,
    )

address_equal-eq : (a b : Address) → address_equal a b ≡ true → a ≡ b
address_equal-eq a b h =
    let (h1, kind) = and_true _ (a.kind == b.kind) h in
    let (host, port) = and_true (eq_bytes a.host b.host) _ h1 in
    ground (
      arith,
      eq_bytes_sound a.host b.host host,
      (==_iff a.port b.port).0 port,
      (==_iff a.kind b.kind).0 kind,
    )

credential_equal-eq : (a b : Credential) → credential_equal a b ≡ true → a ≡ b
unfolding credential_equal
credential_equal-eq a b h =
    let (h1, name) = and_true _ (eq_bytes a.username b.username) h in
    let (h2, secret) = and_true _ (eq_bytes (text_or_empty a.secret) (text_or_empty b.secret)) h1 in
    let (h3, protocol) = and_true _ (a.protocol == b.protocol) h2 in
    let (valid, valid') = and_true (credential_valid a) (credential_valid b) h3 in
    credential-eq a b valid valid' ((==_iff a.protocol b.protocol).0 protocol)
      (eq_bytes_sound _ _ secret) (eq_bytes_sound a.username b.username name)

pub equivalent-eq : (a b : Settings) → IsEncodable a → IsEncodable b → equivalent a b ≡ true → a ≡ b
unfolding equivalent
equivalent-eq a b h k e =
    let (_, _, _, _, valid, _) = valid_parts a h.valid in
    let (_, _, _, _, valid', _) = valid_parts b k.valid in
    let (e1, advanced) = and_true _ (advanced_equal a.advanced b.advanced) e in
    let (e2, method) = and_true _ (eq_bytes a.method b.method) e1 in
    let (e3, tls) = and_true _ (tls_equal a.tls b.tls) e2 in
    let (e4, transport) = and_true _ (transport_equal a.transport b.transport) e3 in
    let (e5, credential) = and_true _ (credential_equal a.credential b.credential) e4 in
    let (protocol, address) = and_true (a.protocol == b.protocol) _ e5 in
    settings-ext a b ((==_iff a.protocol b.protocol).0 protocol)
      (address_equal-eq a.address b.address address)
      (credential_equal-eq a.credential b.credential credential)
      (transport_equal-eq a.transport b.transport valid valid' h.plain_mode k.plain_mode transport)
      (tls_equal-eq a.tls b.tls tls) (eq_bytes_sound a.method b.method method)
      (advanced_equal-eq a.advanced b.advanced h.plain_obfs k.plain_obfs advanced)

-- For two configurations that the constructors can build, Equivalent holds exactly when their private
-- encodings are the same, so that a connection revision, which is the digest of this encoding,
-- changes with every change of the configuration and with no other, as long as the digest has no
-- collision.
pub canonical_configuration-equivalent :
    (a b : Settings)
    → IsEncodable a
    → IsEncodable b
    → (canonical_configuration a true ≡ canonical_configuration b true) ↔ (equivalent a b ≡ true)
canonical_configuration-equivalent a b h k = (
  (λ e.
      subst (λ c. equivalent a c ≡ true) (canonical_configuration-eq a b h k e)
        (equivalent_refl a h.valid)),
  λ e. ap (λ c. canonical_configuration c true) (equivalent-eq a b h k e),
)
