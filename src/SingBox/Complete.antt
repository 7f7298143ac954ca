-- ===== src/SingBox/Complete.antt =====
-- src/runtime/singbox/SingBoxConfigGenerator.cpp: a whole configuration refers to what it defines.
use zarya.Prelude.{
  ◌≡◌, refl, sym, subst, ◌∙◌, ap, Bool, true, false, List, [], ◌∷◌, map, All, All-imply, Text,
  codes, text_eq, if◌then◌else◌, arith,
}
use zarya.Json.{
  obj, Json, undefined, arr, Fields, end, field, text_lt, value, insert, to_object, to_array,
  items-of_list, of_list, value-insert,
}
use zarya.Profiles.Profile.{Profile}
use zarya.Routing.Profiles.{RoutingProfile}
use zarya.Dns.Profiles.{DnsProfile}
use zarya.Xray.Support.{Support, supported, unsupported}
use zarya.Xray.Stream.{Generated, generated, failed}
use zarya.SingBox.Route.{SingBoxConfigOptions, RuleSetDirectory, generate_route, route_object}
use zarya.SingBox.DnsSection.{generate_dns}
use zarya.SingBox.Outbounds.{supports_profile, build_proxy_outbound}
use zarya.SingBox.Config.{
  ConfigWarning, SingBoxConfigGenerationResult, configured, append_dns_hijack, definitions,
  with_definitions, config_object, route_with, configure, after_outbound, after_support, generate,
}
use zarya.SingBox.References.{Has, rule_sets_of}
use zarya.SingBox.Closed.{
  AllLocal, RefersIn, RefersTo, grow, tag_of, Has-definitions, generate_route-IsSound,
  append_dns_hijack-IsSound,
}
use zarya.SingBox.Tagged.{outbound_tags, built-proxy, outbound_tags-config_object}
use zarya.SingBox.DnsRules.{dns_rules, Refers, generate_dns-IsDns}

abbrev section_of : Fields → Text → Fields
section_of f key = to_object (value f key)

-- The tags of the rule sets that a configuration defines.
unfoldable pub defined_tags : Fields → List Text
unfolding value
defined_tags f = map tag_of (to_array (value (section_of f (codes "route")) (codes "rule_set")))

unfoldable pub rules_of : Fields → Text → List Json
unfolding value
rules_of f key = to_array (value (section_of f key) (codes "rules"))

-- Every rule of the routing refers to defined rule sets and names one of the outbounds or none, and
-- every rule of the DNS refers to defined rule sets.
abbrev pub IsComplete : Fields → Type 0
IsComplete f =
    All (RefersIn (outbound_tags f) (defined_tags f)) (rules_of f (codes "route"))
    × All (Refers (defined_tags f)) (rules_of f (codes "dns"))

config-dns :
    (outbound route dns : Fields)
    → section_of (config_object outbound route dns) (codes "dns") ≡ dns
unfolding config_object value insert text_eq text_lt
config-dns outbound route end = refl
config-dns outbound route (field k v f) = refl

config-route :
    (outbound route dns : Fields)
    → section_of (config_object outbound route dns) (codes "route") ≡ route
unfolding config_object value insert text_eq text_lt
config-route outbound route end = refl
config-route outbound route (field k v f) = refl

route_object-values :
    (options : SingBoxConfigOptions) (rules : List Json)
    → (value (route_object options rules) (codes "rules") ≡ arr (of_list rules))
      × (value (route_object options rules) (codes "rule_set") ≡ undefined)
unfolding route_object value insert text_eq text_lt
route_object-values options rules = ground arith

with_definitions-rules :
    (definitions : List Json) (route : Fields)
    → value (with_definitions definitions route) (codes "rules") ≡ value route (codes "rules")
unfolding with_definitions text_eq
with_definitions-rules [] route = refl
with_definitions-rules (v ∷ vs) route =
    value-insert (codes "rule_set") (codes "rules") (arr (of_list (v ∷ vs))) route

with_definitions-tags :
    (definitions : List Json) (route : Fields)
    → value route (codes "rule_set") ≡ undefined
    → to_array (value (with_definitions definitions route) (codes "rule_set")) ≡ definitions
unfolding with_definitions text_eq
with_definitions-tags [] route h = ap to_array h
with_definitions-tags (v ∷ vs) route h =
    ap to_array (value-insert (codes "rule_set") (codes "rule_set") (arr (of_list (v ∷ vs))) route)
    ∙ items-of_list (v ∷ vs)

configured_eq :
    (f g : Fields) (t u : List Text) (c d : List ConfigWarning)
    → configured f t c ≡ configured g u d
    → f ≡ g
configured_eq f g t u c d h = ground (arith, h)

module _ (directory : RuleSetDirectory) (options : SingBoxConfigOptions) where
  enabled_rules :
      (b : Bool) (vs rules : List Json)
      → let route = route_object options rules in
        to_array (value (if b then with_definitions vs route else route) (codes "rules")) ≡ rules
  enabled_rules true vs rules =
      ap to_array (with_definitions-rules vs (route_object options rules))
      ∙ ap to_array (route_object-values options rules).0
      ∙ items-of_list rules
  enabled_rules false vs rules =
      ap to_array (route_object-values options rules).0 ∙ items-of_list rules

  enabled_tags :
      (b : Bool) (vs rules : List Json)
      → b ≡ true
      → let route = route_object options rules in
        to_array (value (if b then with_definitions vs route else route) (codes "rule_set")) ≡ vs
  enabled_tags true vs rules h =
      with_definitions-tags vs (route_object options rules) (route_object-values options rules).1
  enabled_tags false vs rules h = ground (arith, h)

  -- What `configure` puts together is complete.
  module _ (enabled : options.enable_rule_sets ≡ true) where
    config-IsComplete :
        (outbound dns : Fields) (rules : List Json) (used before : List Text)
        → tag_of (obj outbound) ≡ codes "proxy"
        → AllLocal options.rule_set_context used
        → ((tag : Text) → Has before tag → Has used tag)
        → All (RefersTo before) rules
        → All (Refers used) (dns_rules dns)
        → IsComplete (config_object outbound (route_with directory options rules used) dns)
    unfolding route_with defined_tags rules_of
    config-IsComplete outbound dns rules used before proxy local more h k =
        let vs = definitions options.rule_set_context used in
        let route = route_with directory options rules used in
        let f = config_object outbound route dns in
        let tags_eq : defined_tags f ≡ map tag_of vs =
          ap (λ r. map tag_of (to_array (value r (codes "rule_set"))))
            (config-route outbound route dns)
          ∙ ap (map tag_of) (enabled_tags options.enable_rule_sets vs rules enabled) in
        let rules_eq : rules_of f (codes "route") ≡ rules =
          ap (λ r. to_array (value r (codes "rules"))) (config-route outbound route dns)
          ∙ enabled_rules options.enable_rule_sets vs rules in
        let dns_eq : rules_of f (codes "dns") ≡ dns_rules dns =
          ap dns_rules (config-dns outbound route dns) in
        let has : (tag : Text) → Has used tag → Has (defined_tags f) tag = λ tag x.
          subst (λ ts. Has ts tag) (sym tags_eq)
            (Has-definitions options.rule_set_context used tag local x) in
        (
          subst (λ os. All (RefersIn os (defined_tags f)) (rules_of f (codes "route")))
              (sym (outbound_tags-config_object outbound route dns proxy))
              (subst (All (RefersTo (defined_tags f))) (sym rules_eq)
                (grow before (defined_tags f) rules (λ tag x. has tag (more tag x)) h)),
          subst (All (Refers (defined_tags f))) (sym dns_eq) (
              All-imply (Refers used) (Refers (defined_tags f)) (dns_rules dns)
                (λ v. All-imply (Has used) (Has (defined_tags f)) (rule_sets_of (to_object v)) has)
                k),
        )

    module _ (routing : RoutingProfile) (dns : DnsProfile) where
      IsConfigured : SingBoxConfigGenerationResult → Type 0
      IsConfigured r =
          (f : Fields) (told : List Text) (classified : List ConfigWarning)
          → r ≡ configured f told classified
          → IsComplete f

      configure-IsComplete :
          (outbound : Fields)
          → tag_of (obj outbound) ≡ codes "proxy"
          → IsConfigured (configure directory options outbound routing dns)
      unfolding configure IsConfigured
      configure-IsComplete outbound proxy f told classified e =
          let context = options.rule_set_context in
          let s =
            append_dns_hijack options.enable_dns_hijack
              (generate_route directory routing options) in
          let (local, h) =
            append_dns_hijack-IsSound context options.enable_dns_hijack
              (generate_route directory routing options)
              (generate_route-IsSound directory routing options) in
          let d = generate_dns context dns s.used s.warnings in
          let (grows, k) = generate_dns-IsDns context dns s.used s.warnings in
          subst IsComplete (configured_eq _ f _ told _ classified e) (
            config-IsComplete outbound d.dns s.rules d.used s.used proxy (grows.1 local) grows.0 h
              k)

      after_outbound-IsComplete :
          (o : Generated)
          → ((outbound : Fields) → o ≡ generated outbound → tag_of (obj outbound) ≡ codes "proxy")
          → IsConfigured (after_outbound directory options o routing dns)
      unfolding IsConfigured
      after_outbound-IsComplete (failed text) tagged f told classified e = ground (arith, e)
      after_outbound-IsComplete (generated end) tagged f told classified e = ground (arith, e)
      after_outbound-IsComplete (generated (field k v g)) tagged f told classified e =
          configure-IsComplete (field k v g) (tagged (field k v g) refl) f told classified e

      after_support-IsComplete :
          (s : Support) (p : Profile)
          → IsConfigured (after_support directory options s p routing dns)
      unfolding IsConfigured build_proxy_outbound
      after_support-IsComplete (unsupported reason) p f told classified e = ground (arith, e)
      after_support-IsComplete supported p f told classified e =
          after_outbound-IsComplete (build_proxy_outbound p) (built-proxy p p.protocol) f told
            classified e

      -- Where rule sets are enabled, a configuration that is generated defines every rule set that
      -- a rule of its routing or of its DNS refers to, and every rule of its routing names one of
      -- the outbounds that the configuration has, or none, whatever the profiles.
      pub generate-IsComplete :
          (p : Profile) (f : Fields) (told : List Text) (classified : List ConfigWarning)
          → generate directory options p routing dns ≡ configured f told classified
          → IsComplete f
      unfolding generate IsConfigured
      generate-IsComplete p f told classified e =
          after_support-IsComplete (supports_profile p) p f told classified e
