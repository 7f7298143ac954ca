-- ===== src/SingBox/Rule.antt =====
-- matchersToRule and ruleFromRoutingRule of src/runtime/singbox/SingBoxRouteGenerator.cpp.
use zarya.Prelude.{
  Bool, true, false, not, List, [], ◌∷◌, ◌++◌, Text, codes, contains, arg, if◌then◌else◌,
}
use zarya.Json.{bool, str, Fields, end, insert, is_empty_object}
use zarya.Routing.Profiles.{RoutingRule}
use zarya.Routing.Generator.{outbound_tag_for_action}
use zarya.Xray.Stream.{insert_texts}
use zarya.SingBox.RuleSets.{
  SingBoxRuleSetContext, has_local_rule_set, geosite_tag_from_value, geoip_tag_from_value,
  insert_tag,
}
use zarya.SingBox.Matchers.{RouteMatchers, no_matchers, translate_values}

-- The tags of the rule, the set of the tags that are used, the values without a local rule set.
pub record References : Type 0 where
  pub tags : List Text
  pub used : List Text
  pub fallback : List Text
  pub warnings : List Text

unfoldable pub append_rule_set_tag : Text → References → References
append_rule_set_tag tag r =
    if contains r.tags tag
    then r
    else record r { tags = r.tags ++ tag ∷ []; used = insert_tag r.used tag }

unfoldable pub missing_warning : SingBoxRuleSetContext → Text → Text → Text
missing_warning context name tag =
    if context.require_local_rule_sets
    then arg (codes "Required rule set %1 is missing.") (tag ∷ [])
    else arg (codes "Rule set %1 missing; falling back to native " ++ name ++ codes " tag.")
        (tag ∷ [])

module _ (context : SingBoxRuleSetContext) (name : Text) (tag_of : Text → Text) where
  unfoldable pub refer : Text → References → References
  refer value r =
      let tag = tag_of value in
      if has_local_rule_set context tag then append_rule_set_tag tag r else record r {
        fallback = r.fallback ++ value ∷ [];
        warnings = r.warnings ++ missing_warning context name tag ∷ [];
      }

  unfoldable pub refer_all : List Text → References → References
  refer_all [] r = r
  refer_all (value ∷ values) r = refer_all values (refer value r)

unfoldable pub geosite_references : SingBoxRuleSetContext → RouteMatchers → References → References
geosite_references context m r =
    refer_all context (codes "geosite") geosite_tag_from_value m.geosite r

unfoldable pub geoip_references : SingBoxRuleSetContext → RouteMatchers → References → References
geoip_references context m r =
    refer_all context (codes "geoip") geoip_tag_from_value m.geoip (record r { fallback = [] })

unfoldable pub insert_private : Bool → Fields → Fields
insert_private false f = f
insert_private true f = insert (codes "ip_is_private") (bool true) f

-- The rule; each insert sets hasMatcher, so that a rule without one is the empty object.
unfoldable pub rule_object : List Text → List Text → List Text → RouteMatchers → Fields
rule_object tags geosite geoip m = insert_texts (codes "protocol") m.protocol (
    insert_texts (codes "port") m.port (
      insert_texts (codes "ip_cidr") m.ip_cidr (
        insert_texts (codes "domain_regex") m.domain_regex (
          insert_texts (codes "domain_keyword") m.domain_keyword (
            insert_texts (codes "domain_suffix") m.domain_suffix (
              insert_texts (codes "domain") m.domain (
                insert_private m.ip_is_private (
                  insert_texts (codes "geoip") geoip (
                    insert_texts (codes "geosite") geosite
                      (insert_texts (codes "rule_set") tags end))))))))))

unfoldable pub with_outbound : Text → Fields → Fields
with_outbound outbound rule =
    if is_empty_object rule then end else insert (codes "outbound") (str outbound) rule

-- The rule, and what becomes of the used tags and the warnings.
pub record Made : Type 0 where
  pub rule : Fields
  pub used : List Text
  pub warnings : List Text

unfoldable pub matchers_to_rule :
    SingBoxRuleSetContext → Bool → RouteMatchers → Text → List Text → List Text → Made
matchers_to_rule context use_rule_sets m outbound used warnings =
    let start : References = record {
      tags = [];
      used = used;
      fallback = [];
      warnings = warnings;
    } in
    let sites = geosite_references context m start in
    let ips = geoip_references context m sites in
    let referring = rule_object ips.tags sites.fallback ips.fallback m in
    if use_rule_sets
    then record {
      rule = with_outbound outbound referring;
      used = ips.used;
      warnings = ips.warnings;
    }
    else record {
      rule = with_outbound outbound (rule_object [] m.geosite m.geoip m);
      used = used;
      warnings = warnings;
    }

unfoldable pub rule_from_routing_rule :
    SingBoxRuleSetContext → Bool → RoutingRule → List Text → List Text → Made
rule_from_routing_rule context use_rule_sets r used warnings =
    let t =
      translate_values r.kind r.values
        (record { is_any = false; matchers = no_matchers; warnings = warnings }) in
    let made =
      matchers_to_rule context use_rule_sets t.matchers (outbound_tag_for_action r.action) used
        t.warnings in
    if not t.is_any then record { rule = end; used = used; warnings = t.warnings } else made
