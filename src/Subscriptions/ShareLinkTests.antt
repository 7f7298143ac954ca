-- ===== src/Subscriptions/ShareLinkTests.antt =====
-- Runs of the parser of share links on small links, with small stand-ins for Qt's classes.
use zarya.Prelude.{
  ◌≡◌, refl, arith, inr, true, [], ◌∷◌, List, All, none, some, Text, codes, text_eq, trimmed,
  to_lower, case_fold, eq_ignore_case, starts_with, contains_char, pos, number, has_space,
  if◌then◌else◌,
}
use zarya.Profiles.Profile.{Profile, blank}
use zarya.Subscriptions.Parser
use zarya.Subscriptions.Parser.{
  parsed, refused, normalized, has_scheme, schemes, is_supported_scheme,
}
use zarya.Subscriptions.ShareLink.{
  Url, Qt, is_bad_endpoint, decode_component, base_imported_profile, with_name,
}
use zarya.Subscriptions.ShareLink.Query.{
  key_of, offer_password, set_param, apply_param, apply_params,
}
use zarya.Subscriptions.ShareLink.Links.{vless_start, vless_profile, parse_vless, guess_reality}
use zarya.Subscriptions.ShareLink.Dispatch.{parse_trimmed, parse}
use zarya.Subscriptions.ShareLink.Endpoint.{IsImported, parse-IsImported}
use zarya.Subscriptions.ShareLink.Credential.{
  names_credential, given_password, parse_vless-uuid_password,
}
use zarya.Subscriptions.ShareLink.HostPort.{parse_host_port-host_port}
use zarya.Subscriptions.ShareLink.Shadowsocks.{parse_host_port}
use zarya.Subscriptions.ShareLink.HeaderType.{apply_params-header_type}
use zarya.Subscriptions.ShareLink.Refusals.{parse-refuses}
use zarya.Subscriptions.ShareLink.Imports.{IsFromLine, text_read, parse_link, parse-IsFromLine}
use zarya.Subscriptions.Parser.{split_lines}

-- The URL `vless://u@h:8443?security=tls` and what follows.
abbrev url : List (Text × Text) → Url
url items = record {
  is_valid = true;
  scheme = codes "vless";
  user_name = codes "u";
  host = codes "h";
  port = some (pos 8443);
  query_items = items;
  fragment = codes "home";
}

abbrev qt : List (Text × Text) → Qt
qt items = record {
  url = λ link. url items;
  from_percent_encoding = λ text. text;
  from_base64 = λ text. text;
  from_utf8 = λ bytes. bytes;
  from_json = λ bytes. none;
  query_item_value = λ query key. [];
  create_uuid = codes "id";
}

abbrev plain_items : List (Text × Text)
plain_items = (codes "security", codes "tls") ∷ []

abbrev password_items : List (Text × Text)
password_items = (codes "password", []) ∷ []

abbrev link : Text
link = codes " vless://u@h:8443"

abbrev home : Profile
home = record blank {
  id = codes "id";
  name = codes "home";
  address = codes "h";
  port = pos 8443;
  uuid_password = codes "u";
  security = codes "tls";
}

link_parsed : parse (qt plain_items) link ≡ parsed home
unfolding parse parse_trimmed trimmed has_scheme case_fold starts_with parse_vless vless_start
    vless_profile is_bad_endpoint eq_ignore_case decode_component base_imported_profile with_name
    guess_reality apply_params apply_param key_of set_param text_eq to_lower
link_parsed = refl

parse-IsImported_example : IsImported (qt plain_items) link home
parse-IsImported_example = parse-IsImported (qt plain_items) link home link_parsed

-- An empty password in the query leaves the profile without its UUID.
abbrev nameless : Profile
nameless = record home { uuid_password = []; security = [] }

password_parsed : parse_vless (qt password_items) link ≡ parsed nameless
unfolding case_fold parse_vless vless_start vless_profile is_bad_endpoint eq_ignore_case
    decode_component base_imported_profile with_name guess_reality apply_params apply_param key_of
    set_param offer_password text_eq to_lower
password_parsed = refl

parse_vless-uuid_password_example : nameless.uuid_password ≡ (
    if names_credential password_items
    then given_password (qt password_items) password_items
    else decode_component (qt password_items) (codes "u"))
parse_vless-uuid_password_example =
    parse_vless-uuid_password (qt password_items) link nameless password_parsed

parse_host_port-host_port_example :
    (parse_host_port (codes "::1:8388?plugin=x") ≡ some (codes "::1", pos 8388))
    × (parse_host_port (codes "[::1]:8388?plugin=x") ≡ some (codes "::1", pos 8388))
unfolding number has_space contains_char
parse_host_port-host_port_example =
    parse_host_port-host_port (codes "::1") 8388 (some (codes "plugin=x"))
      (refl, refl, refl, refl, refl, refl) (omega arith, omega arith)

socks_scheme : has_scheme (trimmed (codes "socks://h:1")) (codes "socks://") ≡ true
unfolding trimmed has_scheme case_fold starts_with
socks_scheme = refl

parse-refuses_example :
    parse (qt []) (codes "socks://h:1") ≡ refused (codes "Unsupported share link scheme.")
unfolding trimmed
parse-refuses_example = parse-refuses (qt []) (codes "socks://h:1") (inr socks_scheme)

parse-IsFromLine_example :
    All
      (IsFromLine (λ l. qt plain_items) (split_lines (text_read (λ text. text) link)))
      (Parser.parse (parse_link (λ l. qt plain_items)) (λ text. text) link).profiles
parse-IsFromLine_example = parse-IsFromLine (λ l. qt plain_items) (λ text. text) link

apply_params-header_type_example :
    (apply_params (qt []) home ((codes "headerType", codes "http") ∷ [])).header_type ≡ []
apply_params-header_type_example =
    apply_params-header_type (qt []) home ((codes "headerType", codes "http") ∷ [])
