-- ===== src/Subscriptions/ShareLink/Vmess.antt =====
-- parseVmess of src/subscription/ShareLinkParser.cpp: a JSON object in base64.
use zarya.Prelude.{
  not, ◌&&◌, ◌||◌, [], ◌∷◌, length, Option, none, some, Text, codes, is_empty, pos, mid,
  if◌then◌else◌,
}
use zarya.Json.{Fields, value, to_string, to_string_or, to_int_or}
use zarya.Profiles.Profile.{vmess, Profile, is_security_tls}
use zarya.Subscriptions.Parser.{ShareLinkParseResult, parsed, refused}
use zarya.Subscriptions.ShareLink.{Qt, decode_base64_flexible, base_imported_profile, with_name}

abbrev pub or_default : Text → Text → Text
or_default [] default = default
or_default (c ∷ s) default = c ∷ s

-- TLS without a server name is spoken with the name of the host header, or else of the server.
unfoldable pub guess_server_name : Profile → Profile
unfolding is_security_tls
guess_server_name p =
    let name = if not (is_empty p.host) then p.host else p.address in
    if is_empty p.server_name && is_security_tls p
    then record p { server_name = name; sni = name }
    else p

module _ (qt : Qt) where
  unfoldable pub vmess_fields : Fields → Profile
  unfolding base_imported_profile value
  vmess_fields object = record (base_imported_profile qt vmess) {
    name = to_string (value object (codes "ps"));
    address = to_string (value object (codes "add"));
    port = to_int_or (value object (codes "port")) (pos 443);
    uuid_password = to_string (value object (codes "id"));
    alter_id = to_int_or (value object (codes "aid")) (pos 0);
    network = to_string_or (value object (codes "net")) (codes "tcp");
    header_type = to_string (value object (codes "type"));
    host = to_string (value object (codes "host"));
    path = to_string (value object (codes "path"));
    security = or_default (to_string (value object (codes "tls"))) (codes "none");
    server_name = to_string (value object (codes "sni"));
    sni = to_string (value object (codes "sni"));
    fingerprint = to_string (value object (codes "fp"));
    security_cipher = or_default (to_string (value object (codes "scy"))) (codes "auto");
  }

  unfoldable pub vmess_profile : Fields → Profile
  unfolding vmess_fields guess_server_name with_name
  vmess_profile object = let p = guess_server_name (vmess_fields object) in with_name qt p.name p

  unfoldable pub vmess_of : Option Fields → ShareLinkParseResult
  unfolding vmess_profile
  vmess_of none = refused (codes "Invalid vmess JSON.")
  vmess_of (some object) =
      let p = vmess_profile object in
      if is_empty p.address || is_empty p.uuid_password
      then refused (codes "Incomplete vmess profile fields.")
      else parsed p

  unfoldable pub parse_vmess : Text → ShareLinkParseResult
  unfolding vmess_of decode_base64_flexible
  parse_vmess link =
      let json_bytes = decode_base64_flexible qt (mid link (length (codes "vmess://"))) in
      if is_empty json_bytes
      then refused (codes "Invalid vmess base64 payload.")
      else vmess_of (qt.from_json json_bytes)
