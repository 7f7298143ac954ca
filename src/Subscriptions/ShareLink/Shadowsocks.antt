-- ===== src/Subscriptions/ShareLink/Shadowsocks.antt =====
-- parseShadowsocks of src/subscription/ShareLinkParser.cpp: user information and endpoint, each or
-- both in base64, with a query for a plugin and the network.
use zarya.Prelude.{
  ℕ, suc, ◌-◌, Bool, false, not, ◌&&◌, ◌||◌, [], ◌∷◌, length, Option, none, some, Text, codes,
  trimmed, contains_char, index_of, last_index_of, left, left_of, mid, get_elem?, is_empty, leb,
  ◌==◌, ℤ, pos, ltb_ℤ, parse_int, if◌then◌else◌,
}
use zarya.Profiles.Profile.{shadowsocks, Profile}
use zarya.Subscriptions.Parser.{ShareLinkParseResult, parsed, refused}
use zarya.Subscriptions.ShareLink.{
  Qt, is_bad_endpoint, decode_component, decode_base64_flexible, base_imported_profile, with_name,
}

-- toInt(&ok) with 1 <= port <= 65535.
unfoldable pub port_in_range : Option ℤ → Option ℤ
port_in_range none = none
port_in_range (some port) =
    if not (ltb_ℤ port (pos 1)) && not (ltb_ℤ (pos 65535) port) then some port else none

unfoldable pub endpoint : Text → Option ℤ → Option (Text × ℤ)
endpoint host none = none
endpoint host (some port) = if is_empty host then none else some (host, port)

-- `host:port`, cut at the colon.
unfoldable pub plain_endpoint : Text → Option ℕ → Option (Text × ℤ)
unfolding endpoint port_in_range left parse_int
plain_endpoint host_part none = none
plain_endpoint host_part (some colon) =
    if colon == 0 || leb (length host_part) (suc colon)
    then none
    else endpoint (left host_part colon) (port_in_range (parse_int (mid host_part (suc colon))))

abbrev pub is_char : Option ℕ → ℕ → Bool
is_char none d = false
is_char (some c) d = c == d

-- `[address]:port`, cut at the closing bracket.
unfoldable pub bracketed_endpoint : Text → Option ℕ → Option (Text × ℤ)
unfolding endpoint port_in_range left parse_int
bracketed_endpoint host_part none = none
bracketed_endpoint host_part (some close) =
    if leb close 1
    then none
    else if is_char (get_elem? host_part (suc close)) b':'
    then endpoint (left (mid host_part 1) (close - 1))
        (port_in_range (parse_int (mid host_part (suc (suc close)))))
    else none

unfoldable pub host_port_of : Text → Option (Text × ℤ)
unfolding plain_endpoint bracketed_endpoint index_of last_index_of
host_port_of [] = none
host_port_of (c ∷ s) =
    if c == b'['
    then bracketed_endpoint (c ∷ s) (index_of (c ∷ s) b']')
    else plain_endpoint (c ∷ s) (last_index_of (c ∷ s) b':')

-- What stands before the first `d`, or all of the text.
unfoldable pub before : Text → ℕ → Text
unfolding left_of index_of
before s d = left_of s (index_of s d)

unfoldable pub parse_host_port : Text → Option (Text × ℤ)
unfolding before host_port_of trimmed
parse_host_port host_part = host_port_of (trimmed (before (before host_part b'?') b'/'))

-- The method, the password, the host and the port; or the error.
pub data Parts : Type 0 where
  complete : Text → Text → Text → ℤ → Parts
  failed : Text → Parts

unfoldable pub parts : Option (Text × Text) → Text → Option (Text × ℤ) → Parts
parts none text endpoint = failed text
parts (some (method, password)) text none = failed (codes "Invalid shadowsocks host or port.")
parts (some (method, password)) text (some (host, port)) = complete method password host port

-- Credentials without an endpoint leave the host empty and the port 0.
unfoldable pub parts_of_credentials : Option (Text × Text) → Parts
parts_of_credentials none = failed (codes "Unsupported shadowsocks link format.")
parts_of_credentials (some (method, password)) = complete method password [] (pos 0)

abbrev pub behind : Text → Option ℕ → Text
behind s none = s
behind s (some i) = mid s (suc i)

module _ (qt : Qt) where
  user_info : Text → Option ℕ → Option (Text × Text)
  unfolding decode_component left
  user_info text none = none
  user_info text (some colon) =
      let method = decode_component qt (left text colon) in
      if colon == 0
      then none
      else if is_empty method
      then none
      else some (method, decode_component qt (mid text (suc colon)))

  unfoldable pub parse_user_info : Text → Option (Text × Text)
  unfolding user_info index_of
  parse_user_info text = user_info text (index_of text b':')

  unfoldable pub decoded_user : Text → Text
  unfolding decode_component decode_base64_flexible contains_char
  decoded_user user_part =
      let decoded = decode_component qt user_part in
      if contains_char decoded b':'
      then decoded
      else qt.from_utf8 (decode_base64_flexible qt user_part)

  -- A link with all of its parts in base64.
  unfoldable pub decoded_parts : Text → Option ℕ → Parts
  unfolding parse_user_info parse_host_port parts parts_of_credentials left
  decoded_parts text none = parts_of_credentials (parse_user_info text)
  decoded_parts text (some at) =
      if at == 0
      then parts_of_credentials (parse_user_info text)
      else parts (parse_user_info (left text at)) (codes "Invalid shadowsocks credentials.")
          (parse_host_port (mid text (suc at)))

  unfoldable pub link_parts : Text → Option ℕ → Parts
  unfolding decoded_user decoded_parts decode_base64_flexible parse_user_info parse_host_port parts
      index_of left
  link_parts remainder none =
      let text = qt.from_utf8 (decode_base64_flexible qt remainder) in
      decoded_parts text (index_of text b'@')
  link_parts remainder (some at) =
      parts (parse_user_info (decoded_user (left remainder at)))
        (codes "Invalid shadowsocks credentials.") (parse_host_port (mid remainder (suc at)))

  -- The query behind the endpoint: a plugin is not supported, a type is the network.
  with_query : Option ℕ → Text → Profile → Profile
  unfolding trimmed
  with_query none text p = p
  with_query (some i) text p =
      let query = mid text (suc i) in
      let network = trimmed (qt.query_item_value query (codes "type")) in
      record p {
        unsupported_reason =
            if is_empty (qt.query_item_value query (codes "plugin"))
            then p.unsupported_reason
            else codes "Shadowsocks plugin options are not supported yet";
        network = if is_empty network then p.network else network;
      }

  unfoldable pub apply_plugin_query : Text → Profile → Profile
  unfolding with_query index_of
  apply_plugin_query remainder p =
      let text = behind remainder (index_of remainder b'@') in
      with_query (index_of text b'?') text p

  unfoldable pub shadowsocks_profile : Text → Text → Text → Text → Text → ℤ → Profile
  unfolding base_imported_profile apply_plugin_query with_name
  shadowsocks_profile name remainder method password host port = with_name qt name (
      apply_plugin_query remainder (record (base_imported_profile qt shadowsocks) {
        address = host;
        port = port;
        password = password;
        uuid_password = password;
        method = method;
        encryption = method;
      }))

  unfoldable pub shadowsocks_result : Text → Text → Parts → ShareLinkParseResult
  unfolding shadowsocks_profile is_bad_endpoint
  shadowsocks_result name remainder (failed text) = refused text
  shadowsocks_result name remainder (complete method password host port) =
      if is_empty method || is_bad_endpoint host port
      then refused (codes "Incomplete shadowsocks link.")
      else parsed (shadowsocks_profile name remainder method password host port)

  -- The text before the first '#', and the name behind it.
  unfoldable pub shadowsocks_of : Text → Option ℕ → ShareLinkParseResult
  unfolding shadowsocks_result link_parts decode_component index_of left
  shadowsocks_of text none = shadowsocks_result [] text (link_parts text (index_of text b'@'))
  shadowsocks_of text (some hash) =
      let remainder = left text hash in
      shadowsocks_result (decode_component qt (mid text (suc hash))) remainder
        (link_parts remainder (index_of remainder b'@'))

  unfoldable pub parse_shadowsocks : Text → ShareLinkParseResult
  unfolding shadowsocks_of index_of
  parse_shadowsocks link =
      let text = mid link (length (codes "ss://")) in shadowsocks_of text (index_of text b'#')
