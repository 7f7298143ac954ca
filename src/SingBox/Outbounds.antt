-- ===== src/SingBox/Outbounds.antt =====
-- src/runtime/singbox/SingBoxConfigGenerator.cpp: supportsProfile and the outbound of each protocol.
use zarya.Prelude.{
  true, not, ◌&&◌, ◌||◌, [], Text, codes, text_eq, to_lower, trimmed, eq_ignore_case, split,
  is_empty, if◌then◌else◌,
}
use zarya.Json.{bool, num, str, obj, Fields, end, insert, insert_text}
use zarya.Profiles.Profile.{
  ProtocolType, vless, vmess, trojan, shadowsocks, socks, hysteria2, wire_guard, Profile,
  is_security_reality, is_security_tls, effective_uuid, effective_password, effective_method,
  effective_server_name, effective_fingerprint, effective_vmess_security, has_unsupported_feature,
}
use zarya.Routing.Generator.{kept_values}
use zarya.Xray.Support.{Support, unsupported, and_then, ask}
use zarya.Xray.Stream.{Generated, generated, failed, insert_texts, or_text}

-- Shadowsocks without a method or a password is refused with no reason.
unfoldable pub supports_for : Profile → ProtocolType → Support
supports_for p vless =
    and_then (ask (is_security_reality p) (codes "TUN mode supports VLESS with REALITY only.")) (
      and_then
        (ask (eq_ignore_case (trimmed p.network) (codes "tcp"))
          (codes "TUN mode supports VLESS REALITY over TCP only."))
        (ask
          (not (
            is_empty (effective_uuid p)
            || is_empty (trimmed p.public_key)
            || is_empty (effective_server_name p)))
          (codes "VLESS REALITY requires UUID, public key, and SNI.")))
supports_for p trojan =
    and_then (ask (is_security_tls p) (codes "TUN mode supports Trojan with TLS only."))
      (ask (not (is_empty (effective_password p))) (codes "Trojan requires password."))
supports_for p shadowsocks =
    and_then (ask (not (has_unsupported_feature p)) p.unsupported_reason)
      (ask (not (is_empty (effective_method p)) && not (is_empty (effective_password p))) [])
supports_for p vmess =
    and_then (ask (not (is_security_reality p)) (codes "TUN mode does not support VMess REALITY."))
      (ask (not (is_empty (effective_uuid p))) (codes "VMess requires UUID."))
supports_for p hysteria2 =
    and_then (ask (not (has_unsupported_feature p)) p.unsupported_reason)
      (ask (not (is_empty (effective_password p))) (codes "Hysteria2 requires password/auth."))
supports_for p socks =
    unsupported (codes "Selected profile cannot be represented as sing-box outbound.")
supports_for p wire_guard =
    unsupported (codes "Selected profile cannot be represented as sing-box outbound.")

module _ (p : Profile) where
  unfoldable pub supports_profile : Support
  supports_profile = supports_for p p.protocol

  -- The keys that every outbound starts with.
  unfoldable pub server_fields : Text → Fields
  server_fields kind = insert (codes "server_port") (num p.port) (
      insert (codes "server") (str (trimmed p.address))
        (insert (codes "tag") (str (codes "proxy")) (insert (codes "type") (str kind) end)))

  unfoldable pub utls : Fields
  utls =
      insert (codes "fingerprint") (str (effective_fingerprint p))
        (insert (codes "enabled") (bool true) end)

  unfoldable pub tls_fields : Text → Fields
  tls_fields server_name =
      insert (codes "server_name") (str server_name) (insert (codes "enabled") (bool true) end)

  unfoldable pub insert_utls : Fields → Fields
  insert_utls f =
      if is_empty (effective_fingerprint p) then f else insert (codes "utls") (obj utls) f

  unfoldable pub build_vless_outbound : Fields
  build_vless_outbound =
      let reality = insert (codes "short_id") (str (trimmed p.short_id)) (
        insert (codes "public_key") (str (trimmed p.public_key))
          (insert (codes "enabled") (bool true) end)) in
      let tls =
        insert (codes "reality") (obj reality)
          (insert (codes "utls") (obj utls) (tls_fields (effective_server_name p))) in
      insert (codes "tls") (obj tls) (
        insert (codes "packet_encoding") (str (codes "xudp")) (
          insert_text (codes "flow") (trimmed p.flow)
            (insert (codes "uuid") (str (effective_uuid p)) (server_fields (codes "vless")))))

  unfoldable pub build_vmess_outbound : Fields
  build_vmess_outbound =
      let base = insert (codes "alter_id") (num p.alter_id) (
        insert (codes "security") (str (effective_vmess_security p))
          (insert (codes "uuid") (str (effective_uuid p)) (server_fields (codes "vmess")))) in
      if is_security_tls p
      then insert (codes "tls") (obj (insert_utls (tls_fields (effective_server_name p)))) base
      else base

  unfoldable pub build_trojan_outbound : Fields
  build_trojan_outbound =
      insert (codes "tls") (obj (tls_fields (effective_server_name p)))
        (insert (codes "password") (str (effective_password p)) (server_fields (codes "trojan")))

  unfoldable pub build_shadowsocks_outbound : Fields
  build_shadowsocks_outbound =
      insert (codes "password") (str (effective_password p))
        (insert (codes "method") (str (effective_method p)) (server_fields (codes "shadowsocks")))

  unfoldable pub hysteria2_tls : Fields
  hysteria2_tls =
      let named = tls_fields (or_text (effective_server_name p) (trimmed p.address)) in
      let allowed =
        if p.allow_insecure then insert (codes "insecure") (bool true) named else named in
      insert_utls (
        insert_texts (codes "alpn")
          (kept_values (split (or_text (trimmed p.alpn) (codes "h3")) b',')) allowed)

  unfoldable pub build_hysteria2_outbound : Generated
  build_hysteria2_outbound =
      let outbound = insert (codes "tls") (obj hysteria2_tls) (
        insert (codes "password") (str (effective_password p))
          (server_fields (codes "hysteria2"))) in
      let obfs =
        insert (codes "password") (str (trimmed p.obfs_password))
          (insert (codes "type") (str (codes "salamander")) end) in
      if text_eq (to_lower (trimmed p.obfs)) (codes "salamander")
      then (if is_empty (trimmed p.obfs_password)
          then failed (codes "Hysteria2 salamander obfuscation requires obfs-password.")
          else generated (insert (codes "obfs") (obj obfs) outbound))
      else generated outbound

  unfoldable pub build_for : ProtocolType → Generated
  build_for vless = generated build_vless_outbound
  build_for vmess = generated build_vmess_outbound
  build_for trojan = generated build_trojan_outbound
  build_for shadowsocks = generated build_shadowsocks_outbound
  build_for hysteria2 = build_hysteria2_outbound
  build_for socks = failed (codes "Unsupported protocol.")
  build_for wire_guard = failed (codes "Unsupported protocol.")

  unfoldable pub build_proxy_outbound : Generated
  build_proxy_outbound = build_for p.protocol
