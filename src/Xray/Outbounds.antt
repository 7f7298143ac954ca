-- ===== src/Xray/Outbounds.antt =====
-- src/core/XrayAdapter.cpp: the outbound of each protocol. QByteArray::fromBase64 is a parameter.
use zarya.Prelude.{
  ℕ, Bool, true, not, ◌&&◌, ◌||◌, List, [], ◌∷◌, ◌++◌, map, length, Option, none, some, Text, codes,
  text_eq, to_lower, trimmed, contains_char, is_empty, ◌==◌, ℤ, pos, ltb_ℤ, parse_int, arg, number,
  if◌then◌else◌,
}
use zarya.Json.{
  Json, bool, num, str, arr, obj, nil, cons, Fields, end, insert, insert_text, of_list,
  is_empty_object,
}
use zarya.Profiles.Profile.{
  ProtocolType, vless, vmess, trojan, shadowsocks, socks, hysteria2, wire_guard, Profile,
  effective_uuid, effective_encryption, effective_vmess_security, effective_password,
  effective_method,
}
use zarya.Routing.Generator.{kept_values}
use zarya.Subscriptions.Parser.{is_blank, padded}
use zarya.Xray.Stream.{
  Generated, generated, failed, bind, insert_texts, build_tls_settings, generate,
}

abbrev pub one : Json → Json
one v = arr (cons v nil)

-- The parts of a text between commas and blanks.
split_csv_from : Text → Text → List Text
split_csv_from cur [] = cur ∷ []
split_csv_from cur (c ∷ text) =
    let closed = cur ∷ split_csv_from [] text in
    let longer = split_csv_from (cur ++ c ∷ []) text in
    if c == b',' || is_blank c then closed else longer

unfoldable pub split_csv_list : Text → List Text
unfolding split_csv_from
split_csv_list value = kept_values (split_csv_from [] value)

-- The bytes of a list of decimal numbers, if each is one.
is_byte : ℤ → Bool
is_byte value = not (ltb_ℤ value (pos 0)) && not (ltb_ℤ (pos 255) value)

add_byte : Option ℤ → Option (List ℤ) → Option (List ℤ)
unfolding is_byte
add_byte (some value) (some bytes) = if is_byte value then some (value ∷ bytes) else none
add_byte _ _ = none

decimal_bytes : List Text → Option (List ℤ)
unfolding add_byte
decimal_bytes [] = some []
decimal_bytes (part ∷ parts) = add_byte (parse_int part) (decimal_bytes parts)

three : Option (List ℤ) → List ℤ
three none = []
three (some bytes) = if length bytes == 3 then bytes else []

unfoldable pub parse_reserved_bytes : (Text → List ℕ) → Text → List ℤ
unfolding decimal_bytes three
parse_reserved_bytes from_base64 reserved =
    let text = trimmed reserved in
    let decoded = from_base64 text in
    let again = from_base64 (padded text) in
    if is_empty text
    then []
    else if contains_char text b',' || contains_char text b' '
    then three (decimal_bytes (split_csv_list text))
    else if length decoded == 3
    then map pos decoded
    else if length again == 3
    then map pos again
    else []

unfoldable pub wrap_proxy_outbound : Text → Fields → Fields → Fields
wrap_proxy_outbound protocol settings stream_settings =
    let outbound =
      insert (codes "settings") (obj settings) (
        insert (codes "protocol") (str protocol)
          (insert (codes "tag") (str (codes "proxy")) end)) in
    if is_empty_object stream_settings
    then outbound
    else insert (codes "streamSettings") (obj stream_settings) outbound

-- The mask of the salamander obfuscation.
unfoldable pub final_mask : Text → Fields
final_mask obfs_password =
    let mask =
      insert (codes "settings") (obj (insert (codes "password") (str obfs_password) end))
        (insert (codes "type") (str (codes "salamander")) end) in
    insert (codes "udp") (one (obj mask)) end

module _ (p : Profile) where
  -- The address and the port that every server object starts with.
  unfoldable pub endpoint_fields : Fields
  endpoint_fields =
      insert (codes "port") (num p.port) (insert (codes "address") (str (trimmed p.address)) end)

  unfoldable pub vnext_settings : Fields → Fields
  vnext_settings user =
      insert (codes "vnext") (one (obj (insert (codes "users") (one (obj user)) endpoint_fields)))
        end

  unfoldable pub vless_user : Fields
  vless_user = insert_text (codes "flow") (trimmed p.flow) (
      insert (codes "encryption") (str (effective_encryption p))
        (insert (codes "id") (str (effective_uuid p)) end))

  unfoldable pub generate_vless_outbound : Generated
  generate_vless_outbound =
      bind (generate p) (λ stream.
        generated (wrap_proxy_outbound (codes "vless") (vnext_settings vless_user) stream))

  unfoldable pub vmess_user : Fields
  vmess_user =
      insert (codes "security") (str (effective_vmess_security p)) (
        insert (codes "alterId") (num p.alter_id)
          (insert (codes "id") (str (effective_uuid p)) end))

  unfoldable pub generate_vmess_outbound : Generated
  generate_vmess_outbound =
      bind (generate p) (λ stream.
        generated (wrap_proxy_outbound (codes "vmess") (vnext_settings vmess_user) stream))

  unfoldable pub trojan_settings : Fields
  trojan_settings =
      insert (codes "servers")
        (one (obj (insert (codes "password") (str (effective_password p)) endpoint_fields))) end

  unfoldable pub generate_trojan_outbound : Generated
  generate_trojan_outbound =
      bind (generate p)
        (λ stream. generated (wrap_proxy_outbound (codes "trojan") trojan_settings stream))

  unfoldable pub generate_shadowsocks_outbound : Generated
  generate_shadowsocks_outbound =
      let server =
        insert (codes "password") (str (effective_password p))
          (insert (codes "method") (str (effective_method p)) endpoint_fields) in
      generated (
        wrap_proxy_outbound (codes "shadowsocks") (insert (codes "servers") (one (obj server)) end)
          end)

  unfoldable pub socks_server : Text → Fields
  socks_server pass =
      if is_empty pass
      then endpoint_fields
      else insert (codes "users") (one (obj (insert (codes "pass") (str pass) end))) endpoint_fields

  unfoldable pub generate_socks_outbound : Generated
  generate_socks_outbound = generated (
      wrap_proxy_outbound (codes "socks")
        (insert (codes "servers") (one (obj (socks_server (effective_password p)))) end) end)

  unfoldable pub hysteria2_tls_profile : Profile
  hysteria2_tls_profile = record p {
    security = if is_empty (trimmed p.security) then codes "tls" else p.security;
    alpn = if is_empty (trimmed p.alpn) then codes "h3" else p.alpn;
  }

  unfoldable pub hysteria2_stream : Fields
  hysteria2_stream =
      let hysteria_settings =
        insert (codes "auth") (str (effective_password p))
          (insert (codes "version") (num (pos 2)) end) in
      insert (codes "hysteriaSettings") (obj hysteria_settings) (
        insert (codes "tlsSettings") (obj (build_tls_settings hysteria2_tls_profile)) (
          insert (codes "security") (str (codes "tls"))
            (insert (codes "network") (str (codes "hysteria")) end)))

  unfoldable pub hysteria2_settings : Fields
  hysteria2_settings = insert (codes "port") (num p.port) (
      insert (codes "address") (str (trimmed p.address))
        (insert (codes "version") (num (pos 2)) end))

  unfoldable pub generate_hysteria2_outbound : Generated
  generate_hysteria2_outbound =
      let obfs_password = trimmed p.obfs_password in
      let masked = insert (codes "finalmask") (obj (final_mask obfs_password)) hysteria2_stream in
      if text_eq (to_lower (trimmed p.obfs)) (codes "salamander")
      then (if is_empty obfs_password
          then failed (codes "Hysteria2 salamander obfuscation requires obfs-password.")
          else generated (wrap_proxy_outbound (codes "hysteria") hysteria2_settings masked))
      else generated (wrap_proxy_outbound (codes "hysteria") hysteria2_settings hysteria2_stream)

  unfoldable pub wire_guard_peer : Fields
  wire_guard_peer =
      let endpoint = arg (arg (codes "%1:%2") (trimmed p.address ∷ [])) (number p.port ∷ []) in
      let keyed =
        insert (codes "publicKey") (str (trimmed p.public_key))
          (insert (codes "endpoint") (str endpoint) end) in
      let shared = insert_text (codes "preSharedKey") (trimmed p.pre_shared_key) keyed in
      let kept =
        if ltb_ℤ (pos 0) p.keep_alive
        then insert (codes "keepAlive") (num p.keep_alive) shared
        else shared in
      insert_texts (codes "allowedIPs") (split_csv_list p.allowed_ips) kept

  unfoldable pub wire_guard_settings : Fields
  wire_guard_settings =
      let base = insert (codes "noKernelTun") (bool true) (
        insert (codes "peers") (one (obj wire_guard_peer))
          (insert (codes "secretKey") (str (effective_password p)) end)) in
      let addressed = insert_texts (codes "address") (split_csv_list p.local_address) base in
      if ltb_ℤ (pos 0) p.mtu then insert (codes "mtu") (num p.mtu) addressed else addressed

  unfoldable pub generate_wire_guard_outbound : (Text → List ℕ) → Generated
  generate_wire_guard_outbound from_base64 =
      let bytes = parse_reserved_bytes from_base64 p.reserved in
      let reserved =
        insert (codes "reserved") (arr (of_list (map num bytes))) wire_guard_settings in
      if is_empty (effective_password p)
      then failed (codes "WireGuard private key is required.")
      else if is_empty (trimmed p.public_key)
      then failed (codes "WireGuard peer public key is required.")
      else if not (is_empty bytes)
      then generated (wrap_proxy_outbound (codes "wireguard") reserved end)
      else if not (is_empty (trimmed p.reserved))
      then failed (codes "WireGuard reserved must be 3 bytes (e.g. 1,2,3 or base64).")
      else generated (wrap_proxy_outbound (codes "wireguard") wire_guard_settings end)

  -- The switch over the protocols.
  unfoldable pub generate_for : (Text → List ℕ) → ProtocolType → Generated
  generate_for from_base64 vless = generate_vless_outbound
  generate_for from_base64 vmess = generate_vmess_outbound
  generate_for from_base64 trojan = generate_trojan_outbound
  generate_for from_base64 shadowsocks = generate_shadowsocks_outbound
  generate_for from_base64 socks = generate_socks_outbound
  generate_for from_base64 hysteria2 = generate_hysteria2_outbound
  generate_for from_base64 wire_guard = generate_wire_guard_outbound from_base64

  unfoldable pub generate_outbound : (Text → List ℕ) → Generated
  generate_outbound from_base64 = generate_for from_base64 p.protocol
