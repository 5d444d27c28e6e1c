-- ===== src/Endpoint/Connection/Encoding/Injective.antt =====
-- canonicalConfiguration of internal/endpoint/identity.go tells configurations apart.

use egressfox.Endpoint.Connection.Encoding.Versions.{
  IsEncodable, valid_parts, version2-plain, version3-advanced, version1-plain, transport_kind-small,
  domain-IsShort, domain-eq, address_kind-small,
}
use egressfox.Endpoint.Connection.Encoding.Shapes.{is_empty-eq, transport-eq, credential-eq}
use egressfox.Endpoint.Connection.Encoding.Fields.{
  AdvancedFits, TransportSame, cut_credential, cut_advanced, write_ports-eq, BaseFits, cut_base,
}
use egressfox.Endpoint.Connection.Encoding.{
  domain, is_version3, is_version2, text_or_empty, write_credential, write_string, write_version3,
  canonical_configuration,
}
use egressfox.Endpoint.Connection.Encoding.Cuts.{IsShort, Cut, cut_end, cut_then, cut_string}
use egressfox.Endpoint.Connection.{Settings, Transport, AdvancedConnection, Bytes}
use egressfox.Base.{
  true, false, none, some, Bool, ◌≡◌, ◌<◌, arith, ◌∙◌, sym, [], refl, subst, ap, if◌then◌else◌,
  ◌++◌,
}

-- What follows the fields of the first version.
abbrev rest_of : Bool → Bool → Settings → Bytes
rest_of version2 version3 c =
    (if version2 then write_string c.transport.web_socket_host ++ write_string c.method else [])
    ++ (if version3 then write_version3 true c c.advanced else write_credential false c.credential)

abbrev RestSame : Settings → Settings → Type 0
RestSame a b =
    (a.transport.web_socket_host ≡ b.transport.web_socket_host)
    × (a.method ≡ b.method)
    × TransportSame a.transport b.transport
    × (text_or_empty a.credential.secret ≡ text_or_empty b.credential.secret)
    × (a.credential.username ≡ b.credential.username)
    × (a.advanced ≡ b.advanced)

credential_fits :
    (c : Settings)
    → IsEncodable c
    → (c.credential.protocol < 256)
      × IsShort (text_or_empty c.credential.secret)
      × IsShort c.credential.username
credential_fits c h =
    let (small, _, same, _, _, _) = valid_parts c h.valid in
    (omega (arith, small, same), h.secret, h.username)

cut_method :
    (a b : Settings)
    → IsEncodable a
    → IsEncodable b
    → Cut
        (write_string a.transport.web_socket_host ++ write_string a.method)
        (write_string b.transport.web_socket_host ++ write_string b.method)
        ((a.transport.web_socket_host ≡ b.transport.web_socket_host) × (a.method ≡ b.method))
cut_method a b h k =
    cut_then
      (cut_string a.transport.web_socket_host b.transport.web_socket_host h.socket_host
        k.socket_host)
      λ _. cut_string a.method b.method h.method k.method

advanced_ext :
    (a b : AdvancedConnection)
    → a.flow ≡ b.flow
    → a.security ≡ b.security
    → a.hysteria ≡ b.hysteria
    → a ≡ b
advanced_ext a b f s h = ground (arith, f, s, h)

rest3-eq :
    (a b : Settings) (x y : AdvancedConnection)
    → IsEncodable a
    → IsEncodable b
    → a.advanced ≡ some x
    → b.advanced ≡ some y
    → rest_of true true a ≡ rest_of true true b
    → RestSame a b
rest3-eq a b x y h k e f same =
    let fits = subst AdvancedFits e h.advanced in
    let fits' = subst AdvancedFits f k.advanced in
    let (_, _, _, _, _, ports) = fits in
    let (_, _, _, _, _, ports') = fits' in
    let ((host, method), rest) = (cut_method a b h k).split _ _ same in
    let whole = sym (ap (write_version3 true a) e) ∙ (rest ∙ ap (write_version3 true b) f) in
    let ((transport, flow, security, hysteria), last) =
      (cut_advanced a.transport b.transport x y h.transport k.transport fits fits').split _ _
        whole in
    let ((_, secret, name), tail) =
      (cut_credential true a.credential b.credential (credential_fits a h)
          (credential_fits b k)).split
        _ _ last in
    let options = write_ports-eq x.hysteria y.hysteria ports ports' hysteria tail in
    (
      host,
      method,
      transport,
      secret,
      name,
      e ∙ (ap some (advanced_ext x y flow security options) ∙ sym f),
    )

plain-TransportSame : (t u : Transport) → t.advanced ≡ none → u.advanced ≡ none → TransportSame t u
plain-TransportSame t u h k = ground (arith, h, k)

plain_rest :
    (a b : Settings)
    → IsEncodable a
    → IsEncodable b
    → is_version3 a ≡ false
    → is_version3 b ≡ false
    → a.transport.web_socket_host ≡ b.transport.web_socket_host
    → a.method ≡ b.method
    → write_credential false a.credential ≡ write_credential false b.credential
    → RestSame a b
plain_rest a b h k e f host method same =
    let (none_a, plain_a, direct_a) = version2-plain a h.valid e in
    let (none_b, plain_b, direct_b) = version2-plain b k.valid f in
    let (_, secret, _) =
      cut_end
        (cut_credential false a.credential b.credential (credential_fits a h) (credential_fits b k))
        same in
    (
      host,
      method,
      plain-TransportSame a.transport b.transport plain_a plain_b,
      secret,
      h.plain_username direct_a ∙ sym (k.plain_username direct_b),
      none_a ∙ sym none_b,
    )

rest-eq :
    (version2 version3 : Bool) (a b : Settings)
    → IsEncodable a
    → IsEncodable b
    → is_version2 a ≡ version2
    → is_version2 b ≡ version2
    → is_version3 a ≡ version3
    → is_version3 b ≡ version3
    → rest_of version2 version3 a ≡ rest_of version2 version3 b
    → RestSame a b
rest-eq true true a b h k v w e f same =
    let (x, at_x) = version3-advanced a h.valid e in
    let (y, at_y) = version3-advanced b k.valid f in rest3-eq a b x y h k at_x at_y same
rest-eq true false a b h k v w e f same =
    let ((host, method), rest) = (cut_method a b h k).split _ _ same in
    plain_rest a b h k e f host method rest
rest-eq false true a b h k v w e f same = absurd (ground (arith, v, e))
rest-eq false false a b h k v w e f same =
    let (method, host) = version1-plain a v in
    let (method', host') = version1-plain b w in
    plain_rest a b h k e f
      (is_empty-eq a.transport.web_socket_host host
        ∙ sym (is_empty-eq b.transport.web_socket_host host'))
      (h.plain_method method ∙ sym (k.plain_method method')) same

base_fits : (c : Settings) → IsEncodable c → BaseFits c
base_fits c h =
    let (protocol, address, _, _, transport, _) = valid_parts c h.valid in
    (
      protocol,
      address_kind-small c.address address,
      h.host,
      h.port,
      transport_kind-small c.transport transport,
      h.socket_path,
      h.server_name,
    )

pub settings-ext :
    (a b : Settings)
    → a.protocol ≡ b.protocol
    → a.address ≡ b.address
    → a.credential ≡ b.credential
    → a.transport ≡ b.transport
    → a.tls ≡ b.tls
    → a.method ≡ b.method
    → a.advanced ≡ b.advanced
    → a ≡ b
settings-ext a b p d c t s m v = ground (arith, p, d, c, t, s, m, v)

-- Two configurations that the constructors can build have the same private encoding only when they
-- are the same in every field.
pub canonical_configuration-eq :
    (a b : Settings)
    → IsEncodable a
    → IsEncodable b
    → canonical_configuration a true ≡ canonical_configuration b true
    → a ≡ b
unfolding canonical_configuration
canonical_configuration-eq a b h k same =
    let (names, after_domain) =
      (cut_string (domain true a) (domain true b) (domain-IsShort a) (domain-IsShort b)).split _ _
        same in
    let ((protocol, address, kind, path, tls), after_base) =
      (cut_base a b (base_fits a h) (base_fits b k)).split _ _ after_domain in
    let (version3, version2) = domain-eq a b names in
    let aligned =
      after_base
      ∙ (ap (λ v. rest_of v (is_version3 b) b) (sym version2)
          ∙ ap (λ v. rest_of (is_version2 a) v b) (sym version3)) in
    let (host, method, texts, secret, name, advanced) =
      rest-eq (is_version2 a) (is_version3 a) a b h k refl (sym version2) refl (sym version3)
        aligned in
    let (_, _, own_a, credential_a, transport_a, _) = valid_parts a h.valid in
    let (_, _, own_b, credential_b, transport_b, _) = valid_parts b k.valid in
    let transport =
      transport-eq a.transport b.transport transport_a transport_b h.plain_mode k.plain_mode kind
        path host texts in
    let credential =
      credential-eq a.credential b.credential credential_a credential_b
        (own_a ∙ (protocol ∙ sym own_b)) secret name in
    settings-ext a b protocol address credential transport tls method advanced
