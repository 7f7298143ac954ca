-- ===== src/Subscriptions/ShareLink/Endpoint.antt =====
-- src/subscription/ShareLinkParser.cpp: what every profile of a share link has.
use zarya.Prelude.{
  ℕ, suc, length, ◌≡◌, refl, true, false, List, [], ◌∷◌, Option, none, some, Text, codes, any,
  trimmed, index_of, left, mid, is_empty, ℤ, pos, ◌≤ℤ◌, arith,
}
use zarya.Json.{Fields}
use zarya.Profiles.Profile.{
  ProtocolType, vless, vmess, trojan, shadowsocks, socks, hysteria2, wire_guard, xray, Profile,
}
use zarya.Subscriptions.Parser.{parsed, has_scheme}
use zarya.Subscriptions.ShareLink.{
  Url, Qt, decode_base64_flexible, is_bad_endpoint, decode_component, base_imported_profile,
  with_name,
}
use zarya.Subscriptions.ShareLink.Links.{
  vless_start, parse_vless, trojan_start, parse_trojan, hysteria2_start, parse_hysteria2,
  wire_guard_start, parse_wire_guard, with_auth,
}
use zarya.Subscriptions.ShareLink.Vmess.{
  vmess_of, guess_server_name, vmess_fields, vmess_profile, parse_vmess,
}
use zarya.Subscriptions.ShareLink.Shadowsocks.{
  link_parts, shadowsocks_of, Parts, complete, failed, apply_plugin_query, shadowsocks_profile,
  shadowsocks_result, parse_shadowsocks,
}
use zarya.Subscriptions.ShareLink.Dispatch.{parse_trimmed, parse}
use zarya.Subscriptions.ShareLink.Kept.{
  apply_params-password, vless_profile-Same, trojan_profile-Same, hysteria2_profile-Same,
  wire_guard_profile-Same,
}

abbrev InRange : ℤ → Type 0
InRange port = (pos 1 ≤ℤ port) × (port ≤ℤ pos 65535)

-- The schemes whose links give profiles of a protocol.
abbrev pub schemes_of : ProtocolType → List Text
schemes_of vless = codes "vless://" ∷ []
schemes_of vmess = codes "vmess://" ∷ []
schemes_of trojan = codes "trojan://" ∷ []
schemes_of shadowsocks = codes "ss://" ∷ []
schemes_of socks = []
schemes_of hysteria2 = codes "hysteria2://" ∷ codes "hy2://" ∷ []
schemes_of wire_guard = codes "wireguard://" ∷ codes "wg://" ∷ []

-- What the parser of each protocol asks of the endpoint and the credentials.
abbrev pub Demands : ProtocolType → Profile → Type 0
Demands vless p = InRange p.port
Demands vmess p = is_empty p.uuid_password ≡ false
Demands trojan p = is_empty p.password ≡ false
Demands shadowsocks p = InRange p.port × (is_empty p.method ≡ false)
Demands socks p = true ≡ false
Demands hysteria2 p = InRange p.port × (is_empty p.password ≡ false)
Demands wire_guard p =
    InRange p.port × (is_empty p.password ≡ false) × (is_empty (trimmed p.public_key) ≡ false)

abbrev IsBuilt : Qt → ProtocolType → Profile → Type 0
IsBuilt qt protocol p =
    (p.protocol ≡ protocol)
    × (p.id ≡ qt.create_uuid)
    × (p.core_type ≡ xray)
    × (p.enabled ≡ true)
    × (is_empty p.address ≡ false)
    × Demands protocol p

abbrev pub IsImported : Qt → Text → Profile → Type 0
IsImported qt link p =
    IsBuilt qt p.protocol p × (any (has_scheme (trimmed link)) (schemes_of p.protocol) ≡ true)

module _ (qt : Qt) where
  vless_start-server :
      (url : Url)
      → let p = vless_start qt url in
        (p.protocol ≡ vless) × (p.id ≡ qt.create_uuid) × (p.core_type ≡ xray) × (p.enabled ≡ true)
  unfolding vless_start base_imported_profile
  vless_start-server url = (refl, refl, refl, refl)

  parse_vless-IsBuilt :
      (link : Text) (p : Profile) → parse_vless qt link ≡ parsed p → IsBuilt qt vless p
  unfolding parse_vless is_bad_endpoint
  parse_vless-IsBuilt link p h =
      ground (arith, vless_profile-Same qt (qt.url link), vless_start-server (qt.url link))

  trojan_start-server :
      (url : Url)
      → let p = trojan_start qt url in
        (p.protocol ≡ trojan) × (p.id ≡ qt.create_uuid) × (p.core_type ≡ xray) × (p.enabled ≡ true)
  unfolding trojan_start base_imported_profile
  trojan_start-server url = (refl, refl, refl, refl)

  parse_trojan-IsBuilt :
      (link : Text) (p : Profile) → parse_trojan qt link ≡ parsed p → IsBuilt qt trojan p
  unfolding parse_trojan
  parse_trojan-IsBuilt link p h =
      let url = qt.url link in
      ground (
        arith,
        trojan_profile-Same qt url,
        trojan_start-server url,
        apply_params-password qt (trojan_start qt url) url.query_items,
      )

  hysteria2_start-server :
      (url : Url)
      → let p = hysteria2_start qt url in
        (p.protocol ≡ hysteria2)
        × (p.id ≡ qt.create_uuid)
        × (p.core_type ≡ xray)
        × (p.enabled ≡ true)
  unfolding hysteria2_start base_imported_profile with_auth
  hysteria2_start-server url = ground arith

  parse_hysteria2-IsBuilt :
      (link : Text) (p : Profile) → parse_hysteria2 qt link ≡ parsed p → IsBuilt qt hysteria2 p
  unfolding parse_hysteria2 is_bad_endpoint
  parse_hysteria2-IsBuilt link p h =
      let url = qt.url link in
      ground (arith, hysteria2_profile-Same qt url, hysteria2_start-server url)

  wire_guard_start-server :
      (url : Url)
      → let p = wire_guard_start qt url in
        (p.protocol ≡ wire_guard)
        × (p.id ≡ qt.create_uuid)
        × (p.core_type ≡ xray)
        × (p.enabled ≡ true)
  unfolding wire_guard_start base_imported_profile with_auth
  wire_guard_start-server url = ground arith

  parse_wire_guard-IsBuilt :
      (link : Text) (p : Profile) → parse_wire_guard qt link ≡ parsed p → IsBuilt qt wire_guard p
  unfolding parse_wire_guard is_bad_endpoint
  parse_wire_guard-IsBuilt link p h =
      let url = qt.url link in
      ground (arith, wire_guard_profile-Same qt url, wire_guard_start-server url)

  vmess_profile-server :
      (object : Fields)
      → let p = vmess_profile qt object in
        (p.protocol ≡ vmess) × (p.id ≡ qt.create_uuid) × (p.core_type ≡ xray) × (p.enabled ≡ true)
  unfolding vmess_profile vmess_fields guess_server_name with_name base_imported_profile
  vmess_profile-server object = ground arith

  vmess_of-IsBuilt :
      (o : Option Fields) (p : Profile) → vmess_of qt o ≡ parsed p → IsBuilt qt vmess p
  unfolding vmess_of
  vmess_of-IsBuilt none p h = ground arith
  vmess_of-IsBuilt (some object) p h = ground (arith, vmess_profile-server object)

  parse_vmess-IsBuilt :
      (link : Text) (p : Profile) → parse_vmess qt link ≡ parsed p → IsBuilt qt vmess p
  unfolding parse_vmess
  parse_vmess-IsBuilt link p h = ground (
    arith,
    vmess_of-IsBuilt
        (qt.from_json (decode_base64_flexible qt (mid link (length (codes "vmess://"))))) p,
  )

  shadowsocks_result-IsBuilt :
      (name remainder : Text) (parts : Parts) (p : Profile)
      → shadowsocks_result qt name remainder parts ≡ parsed p
      → IsBuilt qt shadowsocks p
  unfolding shadowsocks_result is_bad_endpoint shadowsocks_profile apply_plugin_query with_name
      base_imported_profile
  shadowsocks_result-IsBuilt name remainder (failed text) p h = ground arith
  shadowsocks_result-IsBuilt name remainder (complete method password host port) p h = ground arith

  shadowsocks_of-IsBuilt :
      (text : Text) (hash : Option ℕ) (p : Profile)
      → shadowsocks_of qt text hash ≡ parsed p
      → IsBuilt qt shadowsocks p
  unfolding shadowsocks_of
  shadowsocks_of-IsBuilt text none p h =
      shadowsocks_result-IsBuilt [] text (link_parts qt text (index_of text b'@')) p h
  shadowsocks_of-IsBuilt text (some hash) p h =
      let remainder = left text hash in
      shadowsocks_result-IsBuilt (decode_component qt (mid text (suc hash))) remainder
        (link_parts qt remainder (index_of remainder b'@')) p h

  parse_shadowsocks-IsBuilt :
      (link : Text) (p : Profile) → parse_shadowsocks qt link ≡ parsed p → IsBuilt qt shadowsocks p
  unfolding parse_shadowsocks
  parse_shadowsocks-IsBuilt link p h =
      let text = mid link (length (codes "ss://")) in
      shadowsocks_of-IsBuilt text (index_of text b'#') p h

  parse_trimmed-IsBuilt :
      (link : Text) (p : Profile)
      → parse_trimmed qt link ≡ parsed p
      → IsBuilt qt p.protocol p × (any (has_scheme link) (schemes_of p.protocol) ≡ true)
  unfolding parse_trimmed any
  parse_trimmed-IsBuilt link p h = ground (
    arith,
    parse_vless-IsBuilt link p,
    parse_vmess-IsBuilt link p,
    parse_trojan-IsBuilt link p,
    parse_shadowsocks-IsBuilt link p,
    parse_hysteria2-IsBuilt link p,
    parse_wire_guard-IsBuilt link p,
  )

  -- A link that is parsed gives an enabled profile for Xray of the protocol of its scheme, with the
  -- new identifier, an address, and what the protocol demands: for VLESS, Shadowsocks, Hysteria2 and
  -- WireGuard a port from 1 to 65535; for VMess a UUID; for Trojan and Hysteria2 a password; for
  -- Shadowsocks a method; for WireGuard a private key and the public key of the peer.
  pub parse-IsImported :
      (link : Text) (p : Profile) → parse qt link ≡ parsed p → IsImported qt link p
  unfolding parse
  parse-IsImported link p h = parse_trimmed-IsBuilt (trimmed link) p h
