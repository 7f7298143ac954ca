-- ===== src/Subscriptions/ShareLink/Links.antt =====
-- src/subscription/ShareLinkParser.cpp: the links that are URLs: VLESS, Trojan, Hysteria2 and
-- WireGuard.
use zarya.Prelude.{
  not, ◌&&◌, ◌||◌, [], ◌∷◌, Text, codes, text_eq, eq_ignore_case, to_lower, trimmed, is_empty, pos,
  eqb_ℤ, arg, if◌then◌else◌,
}
use zarya.Profiles.Profile.{vless, trojan, hysteria2, wire_guard, Profile}
use zarya.Subscriptions.Parser.{ShareLinkParseResult, parsed, refused}
use zarya.Subscriptions.ShareLink.{
  Url, Qt, port_or, is_bad_endpoint, decode_component, base_imported_profile, with_name,
}
use zarya.Subscriptions.ShareLink.Query.{apply_params}

-- A public key without a security means REALITY.
unfoldable pub guess_reality : Profile → Profile
guess_reality p =
    if is_empty p.security && not (is_empty p.public_key)
    then record p { security = codes "reality" }
    else p

unfoldable pub guess_tls : Profile → Profile
guess_tls p =
    if is_empty p.security && eqb_ℤ p.port (pos 443) then record p { security = codes "tls" } else p

-- Userinfo that is not empty is the password.
unfoldable pub with_auth : Text → Profile → Profile
with_auth auth p = if is_empty auth then p else record p { password = auth; uuid_password = auth }

unfoldable pub default_tls : Profile → Profile
default_tls p = if is_empty p.security then record p { security = codes "tls" } else p

unfoldable pub check_obfs_type : Profile → Profile
unfolding arg
check_obfs_type p =
    let obfs = to_lower (trimmed p.obfs) in
    if not (is_empty obfs)
      && not (text_eq obfs (codes "salamander"))
      && not (text_eq obfs (codes "none"))
    then record p {
      unsupported_reason =
          arg (codes "Hysteria2 obfuscation type is not supported: %1") (p.obfs ∷ []);
    }
    else p

unfoldable pub check_obfs_password : Profile → Profile
check_obfs_password p =
    if text_eq (to_lower (trimmed p.obfs)) (codes "salamander")
      && is_empty (trimmed p.obfs_password)
    then record p {
      unsupported_reason = codes "Hysteria2 salamander obfuscation requires obfs-password.";
    }
    else p

module _ (qt : Qt) where
  -- The profile before the query is read.
  unfoldable pub vless_start : Url → Profile
  unfolding decode_component base_imported_profile
  vless_start url = record (base_imported_profile qt vless) {
    uuid_password = decode_component qt url.user_name;
    address = url.host;
    port = port_or url.port (pos 443);
  }

  unfoldable pub vless_profile : Url → Profile
  unfolding vless_start apply_params decode_component with_name guess_reality
  vless_profile url = guess_reality (
      with_name qt (decode_component qt url.fragment)
        (apply_params qt (vless_start url) url.query_items))

  vless_of : Url → ShareLinkParseResult
  unfolding vless_start vless_profile is_bad_endpoint eq_ignore_case
  vless_of url =
      let start = vless_start url in
      if not url.is_valid || not (eq_ignore_case url.scheme (codes "vless"))
      then refused (codes "Invalid vless URL.")
      else if is_empty start.uuid_password
      then refused (codes "Missing UUID in vless link.")
      else if is_bad_endpoint start.address start.port
      then refused (codes "Invalid host or port in vless link.")
      else parsed (vless_profile url)

  unfoldable pub parse_vless : Text → ShareLinkParseResult
  unfolding vless_of
  parse_vless link = vless_of (qt.url link)

  unfoldable pub trojan_start : Url → Profile
  unfolding decode_component base_imported_profile
  trojan_start url = record (base_imported_profile qt trojan) {
    password = decode_component qt url.user_name;
    uuid_password = decode_component qt url.user_name;
    address = url.host;
    port = port_or url.port (pos 443);
  }

  unfoldable pub trojan_profile : Url → Profile
  unfolding trojan_start apply_params decode_component with_name guess_reality guess_tls
  trojan_profile url =
      with_name qt (decode_component qt url.fragment)
        (guess_tls (guess_reality (apply_params qt (trojan_start url) url.query_items)))

  trojan_of : Url → ShareLinkParseResult
  unfolding trojan_start trojan_profile eq_ignore_case
  trojan_of url =
      let start = trojan_start url in
      if not url.is_valid || not (eq_ignore_case url.scheme (codes "trojan"))
      then refused (codes "Invalid trojan URL.")
      else if is_empty start.password || is_empty start.address
      then refused (codes "Incomplete trojan link.")
      else parsed (trojan_profile url)

  unfoldable pub parse_trojan : Text → ShareLinkParseResult
  unfolding trojan_of
  parse_trojan link = trojan_of (qt.url link)

  unfoldable pub hysteria2_start : Url → Profile
  unfolding decode_component base_imported_profile with_auth
  hysteria2_start url =
      record (with_auth (decode_component qt url.user_name)
        (record (base_imported_profile qt hysteria2) { network = codes "hysteria" })) {
          address = url.host;
          port = port_or url.port (pos 443);
        }

  unfoldable pub hysteria2_query : Url → Profile
  unfolding hysteria2_start apply_params
  hysteria2_query url = apply_params qt (hysteria2_start url) url.query_items

  unfoldable pub hysteria2_profile : Url → Profile
  unfolding hysteria2_query decode_component with_name default_tls check_obfs_type
      check_obfs_password
  hysteria2_profile url =
      with_name qt (decode_component qt url.fragment)
        (check_obfs_password (check_obfs_type (default_tls (hysteria2_query url))))

  hysteria2_of : Url → ShareLinkParseResult
  unfolding hysteria2_start hysteria2_query hysteria2_profile is_bad_endpoint text_eq to_lower
  hysteria2_of url =
      let scheme = to_lower url.scheme in
      let start = hysteria2_start url in
      if not url.is_valid
        || (not (text_eq scheme (codes "hysteria2")) && not (text_eq scheme (codes "hy2")))
      then refused (codes "Invalid hysteria2 URL.")
      else if is_bad_endpoint start.address start.port
      then refused (codes "Invalid host or port in hysteria2 link.")
      else if is_empty (hysteria2_query url).password
      then refused (codes "Incomplete hysteria2 link (missing auth).")
      else parsed (hysteria2_profile url)

  unfoldable pub parse_hysteria2 : Text → ShareLinkParseResult
  unfolding hysteria2_of
  parse_hysteria2 link = hysteria2_of (qt.url link)

  unfoldable pub wire_guard_start : Url → Profile
  unfolding decode_component base_imported_profile with_auth
  wire_guard_start url =
      record (with_auth (decode_component qt url.user_name)
        (record (base_imported_profile qt wire_guard) { network = codes "udp" })) {
          address = url.host;
          port = port_or url.port (pos 51820);
        }

  unfoldable pub wire_guard_query : Url → Profile
  unfolding wire_guard_start apply_params
  wire_guard_query url = apply_params qt (wire_guard_start url) url.query_items

  unfoldable pub wire_guard_profile : Url → Profile
  unfolding wire_guard_query decode_component with_name
  wire_guard_profile url = with_name qt (decode_component qt url.fragment) (wire_guard_query url)

  wire_guard_of : Url → ShareLinkParseResult
  unfolding wire_guard_start wire_guard_query wire_guard_profile is_bad_endpoint text_eq to_lower
      trimmed
  wire_guard_of url =
      let scheme = to_lower url.scheme in
      let start = wire_guard_start url in
      if not url.is_valid
        || (not (text_eq scheme (codes "wireguard")) && not (text_eq scheme (codes "wg")))
      then refused (codes "Invalid wireguard URL.")
      else if is_bad_endpoint start.address start.port
      then refused (codes "Invalid host or port in wireguard link.")
      else if is_empty (wire_guard_query url).password
      then refused (codes "Incomplete wireguard link (missing private key).")
      else if is_empty (trimmed (wire_guard_query url).public_key)
      then refused (codes "Incomplete wireguard link (missing peer public key).")
      else parsed (wire_guard_profile url)

  unfoldable pub parse_wire_guard : Text → ShareLinkParseResult
  unfolding wire_guard_of
  parse_wire_guard link = wire_guard_of (qt.url link)
