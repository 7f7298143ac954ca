-- ===== src/SingBox/Matchers.antt =====
-- src/runtime/singbox/SingBoxRouteGenerator.cpp: from the values of a routing rule to a rule.
use zarya.Prelude.{
  Bool, true, false, not, List, [], ◌∷◌, ◌++◌, Option, none, some, any, Text, codes, text_eq,
  to_lower, trimmed, eq_ignore_case, contains, contains_char, is_empty, mid, leb, ℤ, pos, negsuc,
  parse_int, arg, if◌then◌else◌,
}
use zarya.Routing.Mode.{RoutingRuleType, domain, ip, port, protocol}
use zarya.Subscriptions.Parser.{has_scheme}

pub record RouteMatchers : Type 0 where
  pub geosite : List Text
  pub geoip : List Text
  pub domain : List Text
  pub domain_suffix : List Text
  pub domain_keyword : List Text
  pub domain_regex : List Text
  pub ip_cidr : List Text
  pub port : List Text
  pub protocol : List Text
  pub ip_is_private : Bool

abbrev pub no_matchers : RouteMatchers
no_matchers = record {
  geosite = [];
  geoip = [];
  domain = [];
  domain_suffix = [];
  domain_keyword = [];
  domain_regex = [];
  ip_cidr = [];
  port = [];
  protocol = [];
  ip_is_private = false;
}

-- The state of the loop over the values of a rule.
pub record Translation : Type 0 where
  pub is_any : Bool
  pub matchers : RouteMatchers
  pub warnings : List Text

unfoldable pub append_unique : List Text → Text → List Text
append_unique array value =
    let text = trimmed value in
    if is_empty text
    then array
    else if any (λ existing. eq_ignore_case existing text) array
    then array
    else array ++ text ∷ []

abbrev pub warn : Text → Translation → Translation
warn text t = record t { warnings = t.warnings ++ text ∷ [] }

abbrev pub take : RouteMatchers → Translation → Translation
take matchers t = record t { matchers = matchers; is_any = true }

unfoldable pub translate_domain_value : Text → Translation → Translation
translate_domain_value raw_value t =
    let value = trimmed raw_value in
    let m = t.matchers in
    if is_empty value
    then warn (codes "Empty domain routing value skipped.") t
    else if has_scheme value (codes "geosite:")
    then take (record m { geosite = append_unique m.geosite (mid value 8) }) t
    else if has_scheme value (codes "domain:")
    then take (record m { domain_suffix = append_unique m.domain_suffix (mid value 7) }) t
    else if has_scheme value (codes "full:")
    then take (record m { domain = append_unique m.domain (mid value 5) }) t
    else if has_scheme value (codes "regexp:")
    then take (record m { domain_regex = append_unique m.domain_regex (mid value 7) }) t
    else if has_scheme value (codes "keyword:")
    then take (record m { domain_keyword = append_unique m.domain_keyword (mid value 8) }) t
    else if contains_char value b':'
    then warn (arg (codes "Unsupported domain prefix in value: %1") (value ∷ [])) t
    else take (record m { domain_suffix = append_unique m.domain_suffix value }) t

unfoldable pub translate_ip_value : Text → Translation → Translation
translate_ip_value raw_value t =
    let value = trimmed raw_value in
    let tag = to_lower (trimmed (mid value 6)) in
    let m = t.matchers in
    if is_empty value
    then warn (codes "Empty IP routing value skipped.") t
    else if has_scheme value (codes "geoip:")
    then (if text_eq tag (codes "private")
        then take (record m { ip_is_private = true }) t
        else take (record m { geoip = append_unique m.geoip tag }) t)
    else take (record m { ip_cidr = append_unique m.ip_cidr value }) t

-- toUShort(&ok).
abbrev pub is_ushort : Option ℤ → Bool
is_ushort none = false
is_ushort (some (pos n)) = leb n 65535
is_ushort (some (negsuc n)) = false

unfoldable pub translate_port_value : Text → Translation → Translation
translate_port_value raw_value t =
    let value = trimmed raw_value in
    let m = t.matchers in
    if is_empty value
    then warn (codes "Empty port routing value skipped.") t
    else if contains_char value b'-'
    then warn (arg (codes "Port ranges are not supported in TUN routing yet: %1") (value ∷ [])) t
    else if not (is_ushort (parse_int value))
    then warn (arg (codes "Invalid port value skipped: %1") (value ∷ [])) t
    else take (record m { port = append_unique m.port value }) t

abbrev pub supported_protocols : List Text
supported_protocols =
    codes "bittorrent"
    ∷ codes "quic"
    ∷ codes "stun"
    ∷ codes "dns"
    ∷ codes "tls"
    ∷ codes "http"
    ∷ codes "https"
    ∷ []

unfoldable pub translate_protocol_value : Text → Translation → Translation
translate_protocol_value raw_value t =
    let value = to_lower (trimmed raw_value) in
    let m = t.matchers in
    let told =
      if contains supported_protocols value
      then t
      else warn (arg (codes "Protocol rule may not be supported by sing-box: %1") (value ∷ [])) t in
    if is_empty value
    then warn (codes "Empty protocol routing value skipped.") t
    else take (record m { protocol = append_unique m.protocol value }) told

abbrev pub translate_value : RoutingRuleType → Text → Translation → Translation
translate_value domain value t = translate_domain_value value t
translate_value ip value t = translate_ip_value value t
translate_value port value t = translate_port_value value t
translate_value protocol value t = translate_protocol_value value t

unfoldable pub translate_values : RoutingRuleType → List Text → Translation → Translation
translate_values kind [] t = t
translate_values kind (value ∷ values) t =
    translate_values kind values (translate_value kind value t)
