-- ===== src/Xray/Reading.antt =====
-- src/core/XrayAdapter.cpp: an abstract view of an outbound, with the texts that it has, and the
-- one that is written for a profile.
use zarya.Prelude.{
  Bool, ◌||◌, [], ◌∷◌, List, Text, codes, text_eq, trimmed, ℤ, number, arg, if◌then◌else◌,
}
use zarya.Json.{Json, Fields, end, value, to_string, to_number, to_object, to_array}
use zarya.Profiles.Profile.{
  ProtocolType, vless, vmess, trojan, shadowsocks, socks, hysteria2, wire_guard, Profile,
  is_security_reality, is_security_tls, effective_uuid, effective_password,
}
use zarya.Xray.Support.{normalized_network}
use zarya.Xray.Stream.{normalized_security}

pub data Server : Type 0 where
  host_port : Text → ℤ → Server
  endpoint : Text → Server

-- Where an outbound connects to, what it shows there, and over which transport and security (empty
-- where no stream settings say so).
pub record Outbound : Type 0 where
  pub tag : Text
  pub protocol : Text
  pub server : Server
  pub credential : Text
  pub network : Text
  pub security : Text

abbrev head_object : List Json → Fields
head_object [] = end
head_object (v ∷ vs) = to_object v

abbrev field_of : Fields → Text → Fields
field_of f key = to_object (value f key)

-- The object that stands first in the list under a key.
abbrev first_of : Fields → Text → Fields
first_of f key = head_object (to_array (value f key))

abbrev host_port_of : Fields → Server
host_port_of f =
    host_port (to_string (value f (codes "address"))) (to_number (value f (codes "port")))

is_one_of : Text → Text → Text → Bool
unfolding text_eq
is_one_of protocol a b = text_eq protocol a || text_eq protocol b

unfoldable pub read_server : Text → Fields → Server
unfolding value text_eq is_one_of
read_server protocol settings =
    if is_one_of protocol (codes "vless") (codes "vmess")
    then host_port_of (first_of settings (codes "vnext"))
    else if text_eq protocol (codes "hysteria")
    then host_port_of settings
    else if text_eq protocol (codes "wireguard")
    then endpoint (to_string (value (first_of settings (codes "peers")) (codes "endpoint")))
    else host_port_of (first_of settings (codes "servers"))

unfoldable pub read_credential : Text → Fields → Fields → Text
unfolding value text_eq is_one_of
read_credential protocol settings stream =
    if is_one_of protocol (codes "vless") (codes "vmess")
    then to_string
        (value (first_of (first_of settings (codes "vnext")) (codes "users")) (codes "id"))
    else if text_eq protocol (codes "hysteria")
    then to_string (value (field_of stream (codes "hysteriaSettings")) (codes "auth"))
    else if text_eq protocol (codes "wireguard")
    then to_string (value settings (codes "secretKey"))
    else if text_eq protocol (codes "socks")
    then to_string
        (value (first_of (first_of settings (codes "servers")) (codes "users")) (codes "pass"))
    else to_string (value (first_of settings (codes "servers")) (codes "password"))

unfoldable pub read_outbound : Fields → Outbound
unfolding value read_server read_credential
read_outbound f =
    let protocol = to_string (value f (codes "protocol")) in
    let settings = field_of f (codes "settings") in
    let stream = field_of f (codes "streamSettings") in
    record {
      tag = to_string (value f (codes "tag"));
      protocol = protocol;
      server = read_server protocol settings;
      credential = read_credential protocol settings stream;
      network = to_string (value stream (codes "network"));
      security = to_string (value stream (codes "security"));
    }

abbrev pub xray_name : ProtocolType → Text
xray_name vless = codes "vless"
xray_name vmess = codes "vmess"
xray_name trojan = codes "trojan"
xray_name shadowsocks = codes "shadowsocks"
xray_name socks = codes "socks"
xray_name hysteria2 = codes "hysteria"
xray_name wire_guard = codes "wireguard"

module _ (p : Profile) where
  unfoldable pub stream_security : Text
  stream_security =
      if is_security_reality p
      then codes "reality"
      else if is_security_tls p || text_eq (normalized_security p) (codes "tls")
      then codes "tls"
      else []

  abbrev pub server_of : ProtocolType → Server
  server_of wire_guard =
      endpoint (arg (arg (codes "%1:%2") (trimmed p.address ∷ [])) (number p.port ∷ []))
  server_of _ = host_port (trimmed p.address) p.port

  abbrev pub credential_of : ProtocolType → Text
  credential_of vless = effective_uuid p
  credential_of vmess = effective_uuid p
  credential_of _ = effective_password p

  -- Three protocols run over the stream settings of the profile, Hysteria2 over its own.
  abbrev pub layers_of : ProtocolType → Text × Text
  layers_of vless = (normalized_network p, stream_security)
  layers_of vmess = (normalized_network p, stream_security)
  layers_of trojan = (normalized_network p, stream_security)
  layers_of hysteria2 = (codes "hysteria", codes "tls")
  layers_of _ = ([], [])

  -- The outbound that is written for a profile.
  unfoldable pub outbound_of : ProtocolType → Outbound
  outbound_of protocol = record {
    tag = codes "proxy";
    protocol = xray_name protocol;
    server = server_of protocol;
    credential = credential_of protocol;
    network = (layers_of protocol).0;
    security = (layers_of protocol).1;
  }
