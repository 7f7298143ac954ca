-- ===== src/Xray/Faithful.antt =====
-- src/core/XrayAdapter.cpp: the generated outbounds refine the abstract ones.
use zarya.Prelude.{
  ℕ, ◌≡◌, refl, false, List, [], ◌∷◌, map, Text, codes, text_eq, trimmed, number, arg, arith,
}
use zarya.Json.{
  Json, str, num, arr, obj, Fields, end, text_lt, value, insert, insert_text, to_string,
  is_empty_object, value-insert, of_list,
}
use zarya.Profiles.Profile.{
  ProtocolType, vless, vmess, trojan, shadowsocks, socks, hysteria2, wire_guard, Profile,
  effective_password,
}
use zarya.Xray.Support.{normalized_network}
use zarya.Xray.Stream.{Generated, generated, insert_texts, generate}
use zarya.Xray.Outbounds.{
  wrap_proxy_outbound, endpoint_fields, vnext_settings, vless_user, generate_vless_outbound,
  vmess_user, generate_vmess_outbound, trojan_settings, generate_trojan_outbound,
  generate_shadowsocks_outbound, socks_server, generate_socks_outbound, hysteria2_stream,
  hysteria2_settings, final_mask, generate_hysteria2_outbound, wire_guard_peer, wire_guard_settings,
  generate_wire_guard_outbound, generate_for, generate_outbound, one, parse_reserved_bytes,
}
use zarya.Xray.Reading.{
  read_server, read_credential, read_outbound, stream_security, server_of, credential_of,
  outbound_of,
}
use zarya.Xray.Layers.{IsStream, bind-generated, generate-IsStream}

module _ (protocol : Text) (settings : Fields) where
  read-wrapped :
      (stream : Fields)
      → is_empty_object stream ≡ false
      → let o = read_outbound (wrap_proxy_outbound protocol settings stream) in
        (o.tag ≡ codes "proxy")
        × (o.protocol ≡ protocol)
        × (o.server ≡ read_server protocol settings)
        × (o.credential ≡ read_credential protocol settings stream)
        × (o.network ≡ to_string (value stream (codes "network")))
        × (o.security ≡ to_string (value stream (codes "security")))
  unfolding read_outbound wrap_proxy_outbound value insert text_eq text_lt
  read-wrapped stream h = ground arith

  read-bare :
      let o = read_outbound (wrap_proxy_outbound protocol settings end) in
      (o.tag ≡ codes "proxy")
      × (o.protocol ≡ protocol)
      × (o.server ≡ read_server protocol settings)
      × (o.credential ≡ read_credential protocol settings end)
      × (o.network ≡ [])
      × (o.security ≡ [])
  unfolding read_outbound wrap_proxy_outbound value insert text_eq text_lt
  read-bare = (refl, refl, refl, refl, refl, refl)

module _ (p : Profile) where
  layered :
      (protocol : Text) (settings stream : Fields)
      → IsStream p stream
      → read_outbound (wrap_proxy_outbound protocol settings stream) ≡ record {
        tag = codes "proxy";
        protocol = protocol;
        server = read_server protocol settings;
        credential = read_credential protocol settings stream;
        network = normalized_network p;
        security = stream_security p;
      }
  layered protocol settings stream h = ground (arith, h, read-wrapped protocol settings stream)

  vless_settings :
      (stream : Fields)
      → let settings = vnext_settings p (vless_user p) in
        (read_server (codes "vless") settings ≡ server_of p vless)
        × (read_credential (codes "vless") settings stream ≡ credential_of p vless)
  unfolding read_server read_credential vnext_settings vless_user endpoint_fields insert_text value
      insert text_eq text_lt
  vless_settings stream = ground arith

  vmess_settings :
      (stream : Fields)
      → let settings = vnext_settings p (vmess_user p) in
        (read_server (codes "vmess") settings ≡ server_of p vmess)
        × (read_credential (codes "vmess") settings stream ≡ credential_of p vmess)
  unfolding read_server read_credential vnext_settings vmess_user endpoint_fields value insert
      text_eq text_lt
  vmess_settings stream = ground arith

  trojan_settings_read :
      (stream : Fields)
      → (read_server (codes "trojan") (trojan_settings p) ≡ server_of p trojan)
        × (read_credential (codes "trojan") (trojan_settings p) stream ≡ credential_of p trojan)
  unfolding read_server read_credential trojan_settings endpoint_fields value insert text_eq text_lt
  trojan_settings_read stream = ground arith

  IsOutbound : ProtocolType → Generated → Type 0
  IsOutbound protocol o = (f : Fields) → o ≡ generated f → read_outbound f ≡ outbound_of p protocol

  vless-IsOutbound : IsOutbound vless (generate_vless_outbound p)
  unfolding generate_vless_outbound IsOutbound outbound_of
  vless-IsOutbound f h =
      let (stream, e, k) =
        bind-generated (generate p)
          (λ s. generated (wrap_proxy_outbound (codes "vless") (vnext_settings p (vless_user p)) s))
          f h in
      ground (
        arith,
        layered (codes "vless") (vnext_settings p (vless_user p)) stream
            (generate-IsStream p stream e),
        vless_settings stream,
      )

  vmess-IsOutbound : IsOutbound vmess (generate_vmess_outbound p)
  unfolding generate_vmess_outbound IsOutbound outbound_of
  vmess-IsOutbound f h =
      let (stream, e, k) =
        bind-generated (generate p)
          (λ s. generated (wrap_proxy_outbound (codes "vmess") (vnext_settings p (vmess_user p)) s))
          f h in
      ground (
        arith,
        layered (codes "vmess") (vnext_settings p (vmess_user p)) stream
            (generate-IsStream p stream e),
        vmess_settings stream,
      )

  trojan-IsOutbound : IsOutbound trojan (generate_trojan_outbound p)
  unfolding generate_trojan_outbound IsOutbound outbound_of
  trojan-IsOutbound f h =
      let (stream, e, k) =
        bind-generated (generate p)
          (λ s. generated (wrap_proxy_outbound (codes "trojan") (trojan_settings p) s)) f h in
      ground (
        arith,
        layered (codes "trojan") (trojan_settings p) stream (generate-IsStream p stream e),
        trojan_settings_read stream,
      )

  shadowsocks-IsOutbound : IsOutbound shadowsocks (generate_shadowsocks_outbound p)
  unfolding generate_shadowsocks_outbound IsOutbound outbound_of read_outbound wrap_proxy_outbound
      read_server read_credential endpoint_fields value insert text_eq text_lt
  shadowsocks-IsOutbound f h = ground arith

  socks-IsOutbound : IsOutbound socks (generate_socks_outbound p)
  unfolding generate_socks_outbound socks_server IsOutbound outbound_of read_outbound
      wrap_proxy_outbound read_server read_credential endpoint_fields value insert text_eq text_lt
  socks-IsOutbound f h = ground arith

  IsHysteria : Fields → Type 0
  IsHysteria stream =
      (is_empty_object stream ≡ false)
      × (to_string (value stream (codes "network")) ≡ codes "hysteria")
      × (to_string (value stream (codes "security")) ≡ codes "tls")
      × (read_credential (codes "hysteria") (hysteria2_settings p) stream
          ≡ credential_of p hysteria2)

  hysteria2_stream-IsHysteria : IsHysteria (hysteria2_stream p)
  unfolding IsHysteria hysteria2_stream read_credential value insert text_eq text_lt
  hysteria2_stream-IsHysteria = (refl, refl, refl, refl)

  masked-IsHysteria :
      (mask : Json) → IsHysteria (insert (codes "finalmask") mask (hysteria2_stream p))
  unfolding IsHysteria hysteria2_stream read_credential value insert text_eq text_lt
  masked-IsHysteria mask = (refl, refl, refl, refl)

  hysteria2_server : read_server (codes "hysteria") (hysteria2_settings p) ≡ server_of p hysteria2
  unfolding read_server hysteria2_settings value insert text_eq text_lt
  hysteria2_server = refl

  read-IsHysteria :
      (stream : Fields)
      → IsHysteria stream
      → read_outbound (wrap_proxy_outbound (codes "hysteria") (hysteria2_settings p) stream)
        ≡ outbound_of p hysteria2
  unfolding IsHysteria outbound_of
  read-IsHysteria stream h =
      ground
        (arith, h, hysteria2_server, read-wrapped (codes "hysteria") (hysteria2_settings p) stream)

  hysteria2-IsOutbound : IsOutbound hysteria2 (generate_hysteria2_outbound p)
  unfolding generate_hysteria2_outbound IsOutbound
  hysteria2-IsOutbound f h =
      let mask = obj (final_mask (trimmed p.obfs_password)) in
      ground (
        arith,
        read-IsHysteria (hysteria2_stream p) hysteria2_stream-IsHysteria,
        read-IsHysteria (insert (codes "finalmask") mask (hysteria2_stream p))
            (masked-IsHysteria mask),
      )

  peer_endpoint :
      to_string (value (wire_guard_peer p) (codes "endpoint"))
      ≡ arg (arg (codes "%1:%2") (trimmed p.address ∷ [])) (number p.port ∷ [])
  unfolding wire_guard_peer insert_text insert_texts value insert text_eq text_lt
  peer_endpoint = ground arith

  wire_guard_read :
      (value (wire_guard_settings p) (codes "peers") ≡ one (obj (wire_guard_peer p)))
      × (value (wire_guard_settings p) (codes "secretKey") ≡ str (effective_password p))
  unfolding wire_guard_settings insert_texts value insert text_eq text_lt
  wire_guard_read = ground arith

  IsWireGuard : Fields → Type 0
  IsWireGuard settings =
      (read_server (codes "wireguard") settings ≡ server_of p wire_guard)
      × (read_credential (codes "wireguard") settings end ≡ credential_of p wire_guard)

  wire_guard_settings-IsWireGuard : IsWireGuard (wire_guard_settings p)
  unfolding IsWireGuard read_server read_credential text_eq
  wire_guard_settings-IsWireGuard = ground (arith, wire_guard_read, peer_endpoint)

  reserved-IsWireGuard :
      (bytes : Json) → IsWireGuard (insert (codes "reserved") bytes (wire_guard_settings p))
  unfolding IsWireGuard read_server read_credential text_eq
  reserved-IsWireGuard bytes = ground (
    arith,
    wire_guard_read,
    peer_endpoint,
    value-insert (codes "reserved") (codes "peers") bytes (wire_guard_settings p),
    value-insert (codes "reserved") (codes "secretKey") bytes (wire_guard_settings p),
  )

  read-IsWireGuard :
      (settings : Fields)
      → IsWireGuard settings
      → read_outbound (wrap_proxy_outbound (codes "wireguard") settings end)
        ≡ outbound_of p wire_guard
  unfolding IsWireGuard outbound_of
  read-IsWireGuard settings h = ground (arith, h, read-bare (codes "wireguard") settings)

module _ (from_base64 : Text → List ℕ) (p : Profile) where
  wire_guard-IsOutbound : IsOutbound p wire_guard (generate_wire_guard_outbound p from_base64)
  unfolding generate_wire_guard_outbound IsOutbound
  wire_guard-IsOutbound f h =
      let bytes = arr (of_list (map num (parse_reserved_bytes from_base64 p.reserved))) in
      ground (
        arith,
        read-IsWireGuard p (wire_guard_settings p) (wire_guard_settings-IsWireGuard p),
        read-IsWireGuard p (insert (codes "reserved") bytes (wire_guard_settings p))
            (reserved-IsWireGuard p bytes),
      )

  each-IsOutbound :
      (protocol : ProtocolType) → IsOutbound p protocol (generate_for p from_base64 protocol)
  unfolding generate_for
  each-IsOutbound vless = vless-IsOutbound p
  each-IsOutbound vmess = vmess-IsOutbound p
  each-IsOutbound trojan = trojan-IsOutbound p
  each-IsOutbound shadowsocks = shadowsocks-IsOutbound p
  each-IsOutbound socks = socks-IsOutbound p
  each-IsOutbound hysteria2 = hysteria2-IsOutbound p
  each-IsOutbound wire_guard = wire_guard-IsOutbound

  -- An outbound that is generated is the one that is written for the profile.
  pub read_outbound-generate_outbound :
      (f : Fields)
      → generate_outbound p from_base64 ≡ generated f
      → read_outbound f ≡ outbound_of p p.protocol
  unfolding IsOutbound generate_outbound
  read_outbound-generate_outbound f h = each-IsOutbound p.protocol f h
