-- ===== src/Xray/Support.antt =====
-- src/core/XrayAdapter.cpp, supportsProfile; src/core/XrayStreamSettings.cpp, isNetworkSupported.
use zarya.Prelude.{
  Bool, true, false, not, ◌&&◌, ◌||◌, [], ◌∷◌, Text, codes, text_eq, to_lower, trimmed,
  eq_ignore_case, is_empty, pos, ltb_ℤ, arg, if◌then◌else◌,
}
use zarya.Profiles.Profile.{
  ProtocolType, vless, vmess, trojan, shadowsocks, socks, hysteria2, wire_guard, Profile, is_valid,
  is_security_reality, is_security_tls, is_security_none, effective_uuid, effective_password,
  effective_method, effective_server_name, has_unsupported_feature,
}

-- Whether a profile can be configured, or the reason why not.
pub data Support : Type 0 where
  supported : Support
  unsupported : Text → Support

abbrev pub and_then : Support → Support → Support
and_then supported next = next
and_then (unsupported reason) next = unsupported reason

-- A condition that is asked for, and the reason that is given without it.
abbrev pub ask : Bool → Text → Support
ask true reason = supported
ask false reason = unsupported reason

unfoldable pub normalized_network : Profile → Text
normalized_network p =
    let network = to_lower (trimmed p.network) in
    if is_empty network || text_eq network (codes "raw") then codes "tcp" else network

unfoldable pub is_network_supported : Profile → Support
is_network_supported p =
    let network = normalized_network p in
    if text_eq network (codes "tcp")
      || text_eq network (codes "ws")
      || text_eq network (codes "grpc")
    then supported
    else unsupported (arg (codes "Unsupported network type: %1") (p.network ∷ []))

-- supportsVless behind its test of the network. Over another network than tcp a profile without
-- security is refused with no reason.
unfoldable pub supports_vless_security : Profile → Support
supports_vless_security p =
    let network = normalized_network p in
    if is_security_reality p
    then and_then
        (ask (text_eq network (codes "tcp")) (codes "VLESS REALITY requires network tcp."))
        (ask (not (is_empty (trimmed p.public_key) || is_empty (effective_server_name p)))
          (codes "VLESS REALITY requires public key and server name."))
    else if is_security_tls p
    then supported
    else if is_security_none p
    then ask (text_eq network (codes "tcp")) []
    else unsupported (arg (codes "Unsupported VLESS security: %1") (p.security ∷ []))

unfoldable pub supports_vless : Profile → Support
supports_vless p = and_then (is_network_supported p) (supports_vless_security p)

unfoldable pub supports_vmess : Profile → Support
supports_vmess p =
    let network = normalized_network p in
    and_then (ask (not (is_security_reality p)) (codes "VMess does not support REALITY security."))
      (and_then (is_network_supported p) (
        and_then (ask (not (is_empty (effective_uuid p))) (codes "VMess requires UUID.")) (
          and_then (ask (not (ltb_ℤ p.alter_id (pos 0))) (codes "VMess alterId must be >= 0.")) (
            and_then
              (ask (not (text_eq network (codes "ws") && is_empty (trimmed p.path)))
                (codes "VMess WebSocket requires path."))
              (ask
                (not (
                  text_eq network (codes "grpc")
                  && is_empty (trimmed p.service_name)
                  && is_empty (trimmed p.path)))
                (codes "VMess gRPC requires service name."))))))

unfoldable pub supports_trojan_security : Profile → Support
supports_trojan_security p =
    let network = normalized_network p in
    if is_security_reality p
    then and_then
        (ask (text_eq network (codes "tcp")) (codes "Trojan REALITY requires network tcp."))
        (ask (not (is_empty (trimmed p.public_key))) (codes "Trojan REALITY requires public key."))
    else ask (not (text_eq network (codes "ws") && is_empty (trimmed p.path)))
        (codes "Trojan WebSocket requires path.")

unfoldable pub supports_trojan : Profile → Support
supports_trojan p =
    and_then (ask (not (is_empty (effective_password p))) (codes "Trojan requires password."))
      (and_then (is_network_supported p) (supports_trojan_security p))

unfoldable pub supports_shadowsocks : Profile → Support
supports_shadowsocks p = and_then (ask (not (has_unsupported_feature p)) p.unsupported_reason) (
    and_then (ask (not (is_empty (effective_method p))) (codes "Shadowsocks requires method."))
      (ask (not (is_empty (effective_password p))) (codes "Shadowsocks requires password.")))

unfoldable pub supports_socks : Profile → Support
supports_socks p = ask (not (is_empty (trimmed p.address))) (codes "SOCKS requires address.")

unfoldable pub supports_hysteria2 : Profile → Support
supports_hysteria2 p = and_then (ask (not (has_unsupported_feature p)) p.unsupported_reason) (
    and_then
      (ask (not (is_empty (effective_password p))) (codes "Hysteria2 requires password/auth."))
      (ask
        (not (
          not (is_security_tls p)
          && not (is_empty (trimmed p.security))
          && not (eq_ignore_case (trimmed p.security) (codes "none"))))
        (codes "Hysteria2 currently supports TLS security only.")))

unfoldable pub supports_wire_guard : Profile → Support
supports_wire_guard p = and_then (ask (not (has_unsupported_feature p)) p.unsupported_reason) (
    and_then
      (ask (not (is_empty (effective_password p))) (codes "WireGuard requires a private key."))
      (ask (not (is_empty (trimmed p.public_key))) (codes "WireGuard requires a peer public key.")))

-- The switch over the protocols.
unfoldable pub supports_protocol : Profile → ProtocolType → Support
supports_protocol p vless = supports_vless p
supports_protocol p vmess = supports_vmess p
supports_protocol p trojan = supports_trojan p
supports_protocol p shadowsocks = supports_shadowsocks p
supports_protocol p socks = supports_socks p
supports_protocol p hysteria2 = supports_hysteria2 p
supports_protocol p wire_guard = supports_wire_guard p

unfoldable pub supports_profile : Profile → Support
supports_profile p =
    and_then (ask (is_valid p) (codes "Profile name, address, and port are required.")) (
      and_then (ask (not (has_unsupported_feature p)) p.unsupported_reason)
        (supports_protocol p p.protocol))
