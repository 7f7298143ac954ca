-- ===== src/Subscriptions/ShareLink.antt =====
-- src/subscription/ShareLinkParser.cpp: what the parsers of the seven kinds of share link have in
-- common. QUrl, QUrlQuery, percent decoding, base64, UTF-8, JSON parsing and QUuid are parameters.
pub mod Query
pub mod Links
pub mod Vmess
pub mod Shadowsocks
pub mod Dispatch
pub mod Kept
pub mod Endpoint
pub mod Credential
pub mod HostPort
pub mod Refusals
pub mod HeaderType
pub mod Imports
use zarya.Prelude.{
  ℕ, Bool, true, false, not, ◌&&◌, ◌||◌, List, [], ◌∷◌, Option, none, some, Text, codes, is_empty,
  ℤ, pos, ltb_ℤ, arg, number, if◌then◌else◌,
}
use zarya.Json.{Fields}
use zarya.Profiles.Profile.{ProtocolType, xray, Profile, blank}
use zarya.Subscriptions.Parser.{normalized}

-- What QUrl says of a link: `host` with QUrl::FullyDecoded, `port` where one is written, the items
-- of QUrlQuery(url) in order.
pub record Url : Type 0 where
  pub is_valid : Bool
  pub scheme : Text
  pub user_name : Text
  pub host : Text
  pub port : Option ℤ
  pub query_items : List (Text × Text)
  pub fragment : Text

-- `from_percent_encoding` with the UTF-8 of its argument; `from_json` is `none` where parsing fails
-- or gives no object; `query_item_value query key` is QUrlQuery(query).queryItemValue(key);
-- `create_uuid` is the identifier that this import draws.
pub record Qt : Type 0 where
  pub url : Text → Url
  pub from_percent_encoding : Text → Text
  pub from_base64 : Text → List ℕ
  pub from_utf8 : List ℕ → Text
  pub from_json : List ℕ → Option Fields
  pub query_item_value : Text → Text → Text
  pub create_uuid : Text

-- QUrl::port with its default.
abbrev pub port_or : Option ℤ → ℤ → ℤ
port_or none default = default
port_or (some port) default = port

-- address.isEmpty() || port < 1 || port > 65535
unfoldable pub is_bad_endpoint : Text → ℤ → Bool
is_bad_endpoint address port = is_empty address || ltb_ℤ port (pos 1) || ltb_ℤ (pos 65535) port

unfoldable pub default_name : Text → ℤ → Text
unfolding arg number
default_name address port = arg (arg (codes "%1:%2") (address ∷ [])) (number port ∷ [])

module _ (qt : Qt) where
  unfoldable pub decode_component : Text → Text
  decode_component value = qt.from_percent_encoding value

  unfoldable pub decode_base64_flexible : Text → List ℕ
  unfolding normalized
  decode_base64_flexible input = qt.from_base64 (normalized input)

  unfoldable pub base_imported_profile : ProtocolType → Profile
  base_imported_profile protocol = record blank {
    id = qt.create_uuid;
    protocol = protocol;
    core_type = xray;
    enabled = true;
    encryption = codes "none";
    network = codes "tcp";
  }

  -- The name of a link: its fragment, or else its endpoint.
  unfoldable pub with_name : Text → Profile → Profile
  unfolding default_name
  with_name name p = record p {
    name = if is_empty name then default_name p.address p.port else name;
  }
