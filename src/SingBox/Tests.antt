-- ===== src/SingBox/Tests.antt =====
-- Runs of the generator of sing-box configurations on a Shadowsocks profile.
use zarya.Prelude.{
  ◌≡◌, refl, true, false, List, [], ◌∷◌, none, Text, codes, text_eq, to_lower, trimmed, starts_with,
  any, eq_ignore_case, contains, contains_char, arg,
}
use zarya.Json.{Fields, end, insert, text_lt, value}
use zarya.Profiles.Profile.{
  shadowsocks, Profile, blank, has_unsupported_feature, effective_method, effective_password,
}
use zarya.Routing.Mode.{custom, domain, direct}
use zarya.Routing.Profiles.{RoutingRule, RoutingProfile}
use zarya.Routing.Generator.{stable_sort}
use zarya.Dns.Profiles.{china_direct_global_remote, use_system_default, DnsProfile}
use zarya.Subscriptions.Parser.{has_scheme}
use zarya.Xray.Stream.{insert_texts}
use zarya.SingBox.RuleSets.{
  SingBoxRuleSetContext, has_local_rule_set, local_path_for_tag, path_in, geosite_tag_from_value,
  insert_tag,
}
use zarya.SingBox.Matchers.{translate_values, translate_domain_value, append_unique}
use zarya.SingBox.Rule.{
  matchers_to_rule, geosite_references, geoip_references, refer_all, refer, append_rule_set_tag,
  rule_object, insert_private, with_outbound, rule_from_routing_rule,
}
use zarya.SingBox.DnsSection.{generate_dns, china_section, geosite_rule}
use zarya.SingBox.Route.{
  SingBoxConfigOptions, RuleSetDirectory, generate_route, generate_rules, append_rule, route_object,
}
use zarya.SingBox.Outbounds.{
  supports_for, supports_profile, server_fields, build_shadowsocks_outbound, build_for,
  build_proxy_outbound,
}
use zarya.SingBox.Config.{
  ConfigWarning, SingBoxConfigGenerationResult, configured, refused, configure, generate,
  config_object, route_with, append_dns_hijack, with_definitions, definitions, definition,
}
use zarya.SingBox.Success.{is_configured, is_representable, is_configured-generate}
use zarya.SingBox.Complete.{defined_tags, IsComplete, generate-IsComplete}

abbrev server : Profile
server = record blank {
  name = codes "home";
  protocol = shadowsocks;
  address = codes " h ";
  method = codes "aes-256-gcm";
  password = codes "p";
}

-- One of the two rule sets of the profiles below has a file.
abbrev files : SingBoxRuleSetContext
files = record {
  tag_to_local_path = (codes "geosite-cn", codes "/r/geosite-cn.srs") ∷ [];
  require_local_rule_sets = false;
  use_rule_set_references = true;
}

abbrev tun : SingBoxConfigOptions
tun = record {
  enable_dns_hijack = true;
  enable_auto_detect_interface = true;
  enable_rule_sets = true;
  final_outbound = codes "proxy";
  rule_set_context = files;
}

abbrev directory : RuleSetDirectory
directory = record { path = codes "/r"; exists = λ name. false }

abbrev geo_rule : RoutingRule
geo_rule = record {
  id = codes "1";
  enabled = true;
  kind = domain;
  action = direct;
  values = codes "geosite:CN" ∷ codes "geosite:us" ∷ [];
  note = [];
}

abbrev routing : RoutingProfile
routing = record {
  id = codes "r";
  name = codes "r";
  mode = custom;
  enabled = true;
  domain_strategy = codes "AsIs";
  rules = geo_rule ∷ [];
  created_at = 0;
  updated_at = 0;
  is_built_in = false;
}

abbrev china : DnsProfile
china = record {
  id = codes "d";
  name = codes "d";
  mode = china_direct_global_remote;
  enabled = true;
  is_built_in = false;
  query_strategy = use_system_default;
  disable_cache = false;
  disable_fallback = false;
  disable_fallback_if_match = false;
  hosts = [];
  servers = [];
  created_at = none;
  updated_at = none;
}

abbrev result : SingBoxConfigGenerationResult
result = generate directory tun server routing china

abbrev config_of : SingBoxConfigGenerationResult → Fields
config_of (configured f told classified) = f
config_of (refused text classified) = end

abbrev told_of : SingBoxConfigGenerationResult → List Text
told_of (configured f told classified) = told
told_of (refused text classified) = []

abbrev classified_of : SingBoxConfigGenerationResult → List ConfigWarning
classified_of (configured f told classified) = classified
classified_of (refused text classified) = classified

result_configured : result ≡ configured (config_of result) (told_of result) (classified_of result)
unfolding generate supports_profile build_proxy_outbound has_unsupported_feature effective_method
    effective_password trimmed build_for supports_for build_shadowsocks_outbound server_fields
    configure insert text_eq text_lt
result_configured = refl

-- The rule set with a file is the one that is defined.
defined_tags_result : defined_tags (config_of result) ≡ codes "geosite-cn" ∷ []
unfolding generate supports_profile build_proxy_outbound has_unsupported_feature effective_method
    effective_password trimmed build_for supports_for build_shadowsocks_outbound server_fields
    configure insert text_eq text_lt defined_tags config_object route_with append_dns_hijack
    with_definitions definitions definition generate_dns china_section geosite_rule
    has_local_rule_set local_path_for_tag path_in geosite_tag_from_value arg to_lower insert_tag
    contains generate_route generate_rules stable_sort append_rule rule_from_routing_rule
    translate_values translate_domain_value append_unique has_scheme starts_with eq_ignore_case
    contains_char matchers_to_rule geosite_references geoip_references refer_all refer
    append_rule_set_tag rule_object insert_texts insert_private with_outbound route_object value any
defined_tags_result = refl

generate-IsComplete_example : IsComplete (config_of result)
generate-IsComplete_example =
    generate-IsComplete directory tun refl routing china server (config_of result) (told_of result)
      (classified_of result) result_configured

is_configured-generate_example : is_configured result ≡ is_representable server shadowsocks
is_configured-generate_example = is_configured-generate directory tun routing china server
