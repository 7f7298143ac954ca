-- ===== src/Xray/Success.antt =====
-- src/core/XrayAdapter.cpp: which profiles a configuration is generated for.
use zarya.Prelude.{
  ℕ, ◌≢◌, ◌≡◌, refl, ◌∙◌, ap, Bool, true, false, not, ◌&&◌, ◌||◌, List, [], ◌∷◌, Option, Text,
  codes, text_eq, to_lower, trimmed, eq_ignore_case, is_empty, ℤ, if◌then◌else◌, arith,
}
use zarya.Json.{Fields, end, field, value, insert, insert_text, is_empty_object}
use zarya.Profiles.Profile.{
  ProtocolType, vless, vmess, trojan, shadowsocks, socks, hysteria2, wire_guard, Profile,
  is_security_reality, is_security_tls, is_security_none, effective_server_name,
}
use zarya.Routing.Profiles.{RoutingProfile}
use zarya.Dns.Profiles.{DnsProfile}
use zarya.Xray.Support.{
  and_then, Support, supported, unsupported, normalized_network, is_network_supported,
  supports_vless, supports_vless_security, supports_vmess, supports_trojan,
  supports_trojan_security, supports_wire_guard, supports_protocol, supports_profile,
}
use zarya.Xray.Stream.{
  Generated, generated, failed, bind, build_grpc_settings, apply_transport_layer, apply_reality,
  apply_security_layer, normalized_security, generate,
}
use zarya.Xray.Outbounds.{
  trojan_settings, vnext_settings, vless_user, vmess_user, wrap_proxy_outbound,
  generate_vless_outbound, generate_vmess_outbound, generate_trojan_outbound,
  generate_shadowsocks_outbound, generate_socks_outbound, generate_hysteria2_outbound,
  generate_wire_guard_outbound, parse_reserved_bytes, generate_for, generate_outbound,
}
use zarya.Xray.Reading.{read_outbound, outbound_of}
use zarya.Xray.Faithful.{read_outbound-generate_outbound}
use zarya.Xray.Config.{config_of, routing_of, dns_of, generate_supported, generate_config}

abbrev pub succeeded : Generated → Bool
succeeded (generated f) = true
succeeded (failed text) = false

abbrev pub is_supported : Support → Bool
is_supported supported = true
is_supported (unsupported reason) = false

-- Folding case and lowering differ on the long s alone.
none_of_text :
    (s : Text)
    → (is_empty s || eq_ignore_case s (codes "none")) ≡ true
    → (is_empty (to_lower s) || text_eq (to_lower s) (codes "none")) ≡ true
unfolding eq_ignore_case text_eq to_lower
none_of_text [] h = refl
none_of_text (a ∷ []) h = ground arith
none_of_text (a ∷ b ∷ []) h = ground arith
none_of_text (a ∷ b ∷ c ∷ []) h = ground arith
none_of_text (a ∷ b ∷ c ∷ d ∷ []) h = ground arith
none_of_text (a ∷ b ∷ c ∷ d ∷ e ∷ s) h = ground arith

-- A text is one of the networks at most.
exclusive :
    (n : Text)
    → ((text_eq n (codes "ws") && text_eq n (codes "grpc")) ≡ false)
      × ((text_eq n (codes "ws") && text_eq n (codes "tcp")) ≡ false)
      × ((text_eq n (codes "grpc") && text_eq n (codes "tcp")) ≡ false)
unfolding text_eq
exclusive [] = ground arith
exclusive (c ∷ n) = ground arith

bind_when :
    (o : Generated) (next : Fields → Generated) (a b c : Bool)
    → succeeded o ≡ (a && b)
    → ((f : Fields) → a ≡ true → succeeded (next f) ≡ c)
    → succeeded (bind o next) ≡ (a && b && c)
bind_when (generated f) next a b c h k = ground (arith, h, k f)
bind_when (failed text) next a b c h k = ground arith

succeeded-bind :
    (o : Generated) (next : Fields → Fields)
    → succeeded (bind o (λ f. generated (next f))) ≡ succeeded o
succeeded-bind (generated f) next = refl
succeeded-bind (failed text) next = refl

module _ (p : Profile) where
  -- gRPC needs a service name, or a path in its place.
  abbrev pub has_grpc_service : Bool
  has_grpc_service =
      not (text_eq (normalized_network p) (codes "grpc"))
      || not (is_empty (trimmed p.service_name))
      || not (is_empty (trimmed p.path))

  -- Neither REALITY nor TLS, and not to be left plain either.
  abbrev pub is_plain : Bool
  is_plain =
      is_security_tls p
      || text_eq (normalized_security p) (codes "tls")
      || is_empty (normalized_security p)
      || text_eq (normalized_security p) (codes "none")

  abbrev is_network : Bool
  is_network =
      text_eq (normalized_network p) (codes "ws")
      || text_eq (normalized_network p) (codes "grpc")
      || text_eq (normalized_network p) (codes "tcp")

  abbrev is_security : Bool
  is_security =
      if is_security_reality p
      then not (text_eq (normalized_network p) (codes "ws"))
        && not (is_empty (trimmed p.public_key))
        && not (is_empty (effective_server_name p))
      else is_plain

  -- What is_security_none takes for no security has none in the stream settings either.
  none_of : is_security_none p ≡ true → is_plain ≡ true
  unfolding is_security_none normalized_security
  none_of h = ground (arith, none_of_text (trimmed p.security) h)

  grpc_service :
      is_empty_object (build_grpc_settings p)
      ≡ (is_empty (trimmed p.service_name) && is_empty (trimmed p.path))
  unfolding build_grpc_settings insert_text insert
  grpc_service = ground arith

  succeeded-transport :
      succeeded (apply_transport_layer p (normalized_network p) end)
      ≡ (is_network && has_grpc_service)
  unfolding apply_transport_layer
  succeeded-transport = ground (arith, exclusive (normalized_network p), grpc_service)

  succeeded-security :
      (f : Fields)
      → is_network ≡ true
      → succeeded (apply_security_layer p (normalized_network p) f) ≡ is_security
  unfolding apply_security_layer apply_reality
  succeeded-security f h = ground (arith, exclusive (normalized_network p))

  pub succeeded-generate : succeeded (generate p) ≡ (is_network && has_grpc_service && is_security)
  unfolding generate
  succeeded-generate =
      bind_when (apply_transport_layer p (normalized_network p) end)
        (apply_security_layer p (normalized_network p)) is_network has_grpc_service is_security
        succeeded-transport succeeded-security

-- What a supported profile must have besides, for its outbound to be generated.
abbrev pub rest : (Text → List ℕ) → Profile → ProtocolType → Bool
rest from_base64 p vless = has_grpc_service p
rest from_base64 p vmess = is_plain p
rest from_base64 p trojan =
    if is_security_reality p
    then not (is_empty (effective_server_name p))
    else has_grpc_service p && is_plain p
rest from_base64 p shadowsocks = true
rest from_base64 p socks = true
rest from_base64 p hysteria2 =
    not (text_eq (to_lower (trimmed p.obfs)) (codes "salamander"))
    || not (is_empty (trimmed p.obfs_password))
rest from_base64 p wire_guard =
    is_empty (trimmed p.reserved) || not (is_empty (parse_reserved_bytes from_base64 p.reserved))

module _ (p : Profile) where
  vless_rest :
      is_supported (supports_vless p) ≡ true
      → succeeded (generate_vless_outbound p) ≡ has_grpc_service p
  unfolding supports_vless supports_vless_security is_network_supported generate_vless_outbound
  vless_rest h = ground (
    arith,
    exclusive (normalized_network p),
    succeeded-generate p,
    none_of p,
    succeeded-bind (generate p)
        (wrap_proxy_outbound (codes "vless") (vnext_settings p (vless_user p))),
  )

  vmess_rest :
      is_supported (supports_vmess p) ≡ true → succeeded (generate_vmess_outbound p) ≡ is_plain p
  unfolding supports_vmess is_network_supported generate_vmess_outbound
  vmess_rest h = ground (
    arith,
    exclusive (normalized_network p),
    succeeded-generate p,
    succeeded-bind (generate p)
        (wrap_proxy_outbound (codes "vmess") (vnext_settings p (vmess_user p))),
  )

  trojan_rest :
      is_supported (supports_trojan p) ≡ true
      → succeeded (generate_trojan_outbound p) ≡ (
          if is_security_reality p
          then not (is_empty (effective_server_name p))
          else has_grpc_service p && is_plain p)
  unfolding supports_trojan supports_trojan_security is_network_supported generate_trojan_outbound
  trojan_rest h = ground (
    arith,
    exclusive (normalized_network p),
    succeeded-generate p,
    succeeded-bind (generate p) (wrap_proxy_outbound (codes "trojan") (trojan_settings p)),
  )

  shadowsocks_rest : succeeded (generate_shadowsocks_outbound p) ≡ true
  unfolding generate_shadowsocks_outbound
  shadowsocks_rest = refl

  socks_rest : succeeded (generate_socks_outbound p) ≡ true
  unfolding generate_socks_outbound
  socks_rest = refl

  hysteria2_rest : succeeded (generate_hysteria2_outbound p) ≡ (
      not (text_eq (to_lower (trimmed p.obfs)) (codes "salamander"))
      || not (is_empty (trimmed p.obfs_password)))
  unfolding generate_hysteria2_outbound
  hysteria2_rest = ground arith

  wire_guard_rest :
      (from_base64 : Text → List ℕ)
      → is_supported (supports_wire_guard p) ≡ true
      → succeeded (generate_wire_guard_outbound p from_base64) ≡ (
          is_empty (trimmed p.reserved)
          || not (is_empty (parse_reserved_bytes from_base64 p.reserved)))
  unfolding supports_wire_guard generate_wire_guard_outbound
  wire_guard_rest from_base64 h = ground arith

is_supported-and_then :
    (a b : Support) → is_supported (and_then a b) ≡ (is_supported a && is_supported b)
is_supported-and_then supported b = refl
is_supported-and_then (unsupported reason) b = refl

module _ (from_base64 : Text → List ℕ) (p : Profile) where
  succeeded-generate_for :
      (protocol : ProtocolType)
      → is_supported (supports_protocol p protocol) ≡ true
      → succeeded (generate_for p from_base64 protocol) ≡ rest from_base64 p protocol
  unfolding supports_protocol generate_for
  succeeded-generate_for vless h = vless_rest p h
  succeeded-generate_for vmess h = vmess_rest p h
  succeeded-generate_for trojan h = trojan_rest p h
  succeeded-generate_for shadowsocks h = shadowsocks_rest p
  succeeded-generate_for socks h = socks_rest p
  succeeded-generate_for hysteria2 h = hysteria2_rest p
  succeeded-generate_for wire_guard h = wire_guard_rest p from_base64 h

  protocol_supported :
      is_supported (supports_profile p) ≡ true
      → is_supported (supports_protocol p p.protocol) ≡ true
  unfolding supports_profile
  protocol_supported h = ground (arith, h)

  end_is_no_outbound : generate_outbound p from_base64 ≢ generated end
  unfolding outbound_of read_outbound value
  end_is_no_outbound h = ground (arith, read_outbound-generate_outbound from_base64 p end h)

  succeeded-generate_outbound :
      is_supported (supports_profile p) ≡ true
      → succeeded (generate_outbound p from_base64) ≡ rest from_base64 p p.protocol
  unfolding generate_outbound
  succeeded-generate_outbound h = succeeded-generate_for p.protocol (protocol_supported h)

  module _ (port : ℤ) (routing : Option RoutingProfile) (dns : Option DnsProfile) where
    succeeded-config_of :
        (o : Generated)
        → generate_outbound p from_base64 ≡ o
        → succeeded (config_of o port (routing_of routing) (dns_of dns)) ≡ succeeded o
    unfolding config_of
    succeeded-config_of (failed text) e = refl
    succeeded-config_of (generated end) e = ground (arith, end_is_no_outbound, e)
    succeeded-config_of (generated (field k v f)) e = ground arith

    succeeded-generate_supported :
        (s : Support)
        → supports_profile p ≡ s
        → succeeded (generate_supported from_base64 s p port routing dns)
          ≡ (is_supported s && rest from_base64 p p.protocol)
    unfolding generate_supported
    succeeded-generate_supported (unsupported reason) e = refl
    succeeded-generate_supported supported e =
        succeeded-config_of (generate_outbound p from_base64) refl
        ∙ succeeded-generate_outbound (ap is_supported e)

    -- A configuration is generated exactly for the profiles that supportsProfile accepts and that
    -- besides have: for VLESS over gRPC a service name or a path; for VMess the security TLS or
    -- none; for Trojan with REALITY a server name, and without it the security TLS or none and over
    -- gRPC a service name or a path; for Hysteria2 with salamander a password of the obfuscation;
    -- for WireGuard no reserved bytes or three of them. The routing and the DNS profile, whatever
    -- they are, never make it fail.
    pub succeeded-generate_config :
        succeeded (generate_config from_base64 p port routing dns)
        ≡ (is_supported (supports_profile p) && rest from_base64 p p.protocol)
    unfolding generate_config
    succeeded-generate_config = succeeded-generate_supported (supports_profile p) refl
