-- ===== src/SingBox/Config.antt =====
-- SingBoxConfigGenerator::generate of src/runtime/singbox/SingBoxConfigGenerator.cpp.
use zarya.Prelude.{
  Bool, true, false, not, ◌&&◌, ◌||◌, List, [], ◌∷◌, ◌++◌, map, Text, codes, to_lower, contains,
  contains_text, is_empty, pos, if◌then◌else◌,
}
use zarya.Json.{Json, bool, num, str, arr, obj, Fields, end, insert, of_list, is_empty_object}
use zarya.Profiles.Profile.{Profile}
use zarya.Routing.Profiles.{RoutingProfile}
use zarya.Dns.Profiles.{DnsProfile}
use zarya.Dns.Generator.{is_system}
use zarya.Xray.Support.{Support, supported, unsupported}
use zarya.Xray.Stream.{Generated, generated, failed}
use zarya.Xray.Outbounds.{one}
use zarya.SingBox.RuleSets.{SingBoxRuleSetContext, local_path_for_tag}
use zarya.SingBox.Route.{
  SingBoxConfigOptions, RuleSetDirectory, Rules, generate_route, route_object,
}
use zarya.SingBox.DnsSection.{generate_dns}
use zarya.SingBox.Outbounds.{supports_profile, build_proxy_outbound}

pub data ConfigWarning : Type 0 where
  blocking warning info : Text → ConfigWarning

unfoldable pub classify_warning : Text → ConfigWarning
classify_warning text =
    let lowered = to_lower text in
    if contains_text lowered (codes "not supported by experimental tun")
      || contains_text lowered (codes "cannot be represented")
      || (contains_text lowered (codes "required rule set")
          && contains_text lowered (codes "is missing"))
    then blocking text
    else if contains_text lowered (codes "dns leak")
        || contains_text lowered (codes "rule-set")
        || contains_text lowered (codes "dns hijack")
        || contains_text lowered (codes "not supported in tun")
        || contains_text lowered (codes "may not be supported")
    then warning text
    else info text

-- A configuration with its warnings, or the error.
pub data SingBoxConfigGenerationResult : Type 0 where
  configured : Fields → List Text → List ConfigWarning → SingBoxConfigGenerationResult
  refused : Text → List ConfigWarning → SingBoxConfigGenerationResult

-- mergeWarnings.
unfoldable pub merge_warnings : List Text → List Text → List Text
merge_warnings merged [] = merged
merge_warnings merged (w ∷ warnings) =
    if contains merged w
    then merge_warnings merged warnings
    else merge_warnings (merged ++ w ∷ []) warnings

unfoldable pub tun_inbound : Fields
tun_inbound = insert (codes "sniff") (bool true) (
    insert (codes "strict_route") (bool true) (
      insert (codes "auto_route") (bool true) (
        insert (codes "mtu") (num (pos 9000)) (
          insert (codes "address") (one (str (codes "172.19.0.1/30"))) (
            insert (codes "interface_name") (str (codes "zarya-tun")) (
              insert (codes "tag") (str (codes "tun-in"))
                (insert (codes "type") (str (codes "tun")) end)))))))

unfoldable pub hijack_rule : Fields
hijack_rule =
    insert (codes "action") (str (codes "hijack-dns"))
      (insert (codes "protocol") (str (codes "dns")) end)

-- appendDnsHijackRoute puts its rule first.
unfoldable pub append_dns_hijack : Bool → Rules → Rules
append_dns_hijack false s = s
append_dns_hijack true s = record s {
  rules = obj hijack_rule ∷ s.rules;
  warnings =
      s.warnings ++ codes "DNS hijack is experimental and depends on your sing-box version." ∷ [];
}

unfoldable pub definition : Text → Text → Fields
definition tag path = insert (codes "path") (str path) (
    insert (codes "format") (str (codes "binary"))
      (insert (codes "tag") (str tag) (insert (codes "type") (str (codes "local")) end)))

-- The definitions of the tags that are used, those with a local path. (QSet gives its items in an
-- order of its own.)
unfoldable pub definitions : SingBoxRuleSetContext → List Text → List Json
definitions context [] = []
definitions context (tag ∷ tags) =
    let rest = definitions context tags in
    let path = local_path_for_tag context tag in
    if is_empty path then rest else obj (definition tag path) ∷ rest

unfoldable pub with_definitions : List Json → Fields → Fields
with_definitions definitions route =
    if is_empty definitions
    then route
    else insert (codes "rule_set") (arr (of_list definitions)) route

unfoldable pub plain_outbound : Text → Fields
plain_outbound name = insert (codes "tag") (str name) (insert (codes "type") (str name) end)

unfoldable pub config_object : Fields → Fields → Fields → Fields
config_object proxy_outbound route dns =
    let outbounds =
      obj proxy_outbound
      ∷ obj (plain_outbound (codes "direct"))
      ∷ obj (plain_outbound (codes "block"))
      ∷ [] in
    let base = insert (codes "log") (obj (insert (codes "level") (str (codes "info")) end)) end in
    let named = if is_empty_object dns then base else insert (codes "dns") (obj dns) base in
    insert (codes "route") (obj route) (
      insert (codes "outbounds") (arr (of_list outbounds))
        (insert (codes "inbounds") (one (obj tun_inbound)) named))

unfoldable pub dns_warnings : DnsProfile → Fields → List Text
dns_warnings profile dns =
    if is_empty_object dns && not (is_system profile.mode)
    then codes "DNS section is empty; sing-box check is the final authority." ∷ []
    else []

module _ (directory : RuleSetDirectory) (options : SingBoxConfigOptions) where
  -- The route with its rules and the definitions of the rule sets that it and the DNS use.
  unfoldable pub route_with : List Json → List Text → Fields
  route_with rules used =
      let route = route_object options rules in
      if options.enable_rule_sets
      then with_definitions (definitions options.rule_set_context used) route
      else route

  unfoldable pub configure : Fields → RoutingProfile → DnsProfile → SingBoxConfigGenerationResult
  configure outbound routing_profile dns_profile =
      let s =
        append_dns_hijack options.enable_dns_hijack
          (generate_route directory routing_profile options) in
      let dns = generate_dns options.rule_set_context dns_profile s.used s.warnings in
      let told = merge_warnings [] (dns.warnings ++ dns_warnings dns_profile dns.dns) in
      configured (config_object outbound (route_with s.rules dns.used) dns.dns) told
        (map classify_warning told)

  abbrev pub after_outbound :
      Generated → RoutingProfile → DnsProfile → SingBoxConfigGenerationResult
  after_outbound (failed error) routing_profile dns_profile =
      let text = if is_empty error then codes "Failed to build sing-box outbound." else error in
      refused text (blocking text ∷ [])
  after_outbound (generated outbound) routing_profile dns_profile =
      if is_empty_object outbound
      then refused (codes "Failed to build sing-box outbound.")
          (blocking (codes "Failed to build sing-box outbound.") ∷ [])
      else configure outbound routing_profile dns_profile

  abbrev pub after_support :
      Support → Profile → RoutingProfile → DnsProfile → SingBoxConfigGenerationResult
  after_support (unsupported reason) p routing_profile dns_profile =
      refused reason (blocking reason ∷ [])
  after_support supported p routing_profile dns_profile =
      after_outbound (build_proxy_outbound p) routing_profile dns_profile

  unfoldable pub generate : Profile → RoutingProfile → DnsProfile → SingBoxConfigGenerationResult
  generate p routing_profile dns_profile =
      after_support (supports_profile p) p routing_profile dns_profile
