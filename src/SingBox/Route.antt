-- ===== src/SingBox/Route.antt =====
-- SingBoxRouteGenerator::generateRoute of src/runtime/singbox/SingBoxRouteGenerator.cpp, with
-- src/routing/RoutingGeoUtils.cpp and SingBoxRuleSetManager.cpp.
use zarya.Prelude.{
  Bool, true, false, not, ◌&&◌, ◌||◌, List, [], ◌∷◌, ◌++◌, any, Text, codes, to_lower, trimmed,
  eq_ignore_case, starts_with, contains, is_empty, mid, join_commas, arg, if◌then◌else◌,
}
use zarya.Json.{Json, bool, str, arr, obj, Fields, end, insert, of_list, is_empty_object}
use zarya.Routing.Mode.{RoutingMode, proxy_all}
use zarya.Routing.Profiles.{RoutingRule, RoutingProfile}
use zarya.Routing.Generator.{stable_sort}
use zarya.Subscriptions.Parser.{has_scheme}
use zarya.SingBox.RuleSets.{SingBoxRuleSetContext}
use zarya.SingBox.Rule.{Made, rule_from_routing_rule}

pub record SingBoxConfigOptions : Type 0 where
  pub enable_dns_hijack : Bool
  pub enable_auto_detect_interface : Bool
  pub enable_rule_sets : Bool
  pub final_outbound : Text
  pub rule_set_context : SingBoxRuleSetContext

-- The directory of the rule sets, and which names it has.
pub record RuleSetDirectory : Type 0 where
  pub path : Text
  pub exists : Text → Bool

unfoldable pub value_references_geo_data : Text → Bool
value_references_geo_data value =
    let lowered = to_lower (trimmed value) in
    not (is_empty (trimmed value))
    && (starts_with lowered (codes "geoip:")
        || starts_with lowered (codes "geosite:")
        || starts_with lowered (codes "ext:geoip.dat:")
        || starts_with lowered (codes "ext:geosite.dat:"))

unfoldable pub add_geo_tags : List Text → List Text → List Text
add_geo_tags tags [] = tags
add_geo_tags tags (value ∷ values) =
    if value_references_geo_data value && not (contains tags value)
    then add_geo_tags (tags ++ value ∷ []) values
    else add_geo_tags tags values

geo_tags_from : List Text → List RoutingRule → List Text
geo_tags_from tags [] = tags
geo_tags_from tags (r ∷ rules) =
    if r.enabled then geo_tags_from (add_geo_tags tags r.values) rules else geo_tags_from tags rules

unfoldable pub geo_tags_used : RoutingProfile → List Text
unfolding geo_tags_from
geo_tags_used profile = geo_tags_from [] profile.rules

-- The names of the tags without their prefix, less `private`.
unfoldable pub geo_names : List Text → List Text
geo_names [] = []
geo_names (value ∷ values) =
    let rest = geo_names values in
    let text = trimmed value in
    let tag = trimmed (mid text 6) in
    if has_scheme text (codes "geosite:")
    then trimmed (mid text 8) ∷ rest
    else if has_scheme text (codes "geoip:") && not (eq_ignore_case tag (codes "private"))
    then tag ∷ rest
    else rest

-- QStringList::removeDuplicates, behind the texts that stand before.
unfoldable pub remove_duplicates : List Text → List Text → List Text
remove_duplicates seen [] = seen
remove_duplicates seen (t ∷ texts) =
    if contains seen t
    then remove_duplicates seen texts
    else remove_duplicates (seen ++ t ∷ []) texts

unfoldable pub expected_rule_set_file_names : List Text → List Text
expected_rule_set_file_names [] = []
expected_rule_set_file_names (tag ∷ tags) =
    let rest = expected_rule_set_file_names tags in
    let normalized = to_lower (trimmed tag) in
    if is_empty normalized
    then rest
    else arg (codes "geosite-%1.srs") (normalized ∷ [])
      ∷ arg (codes "geoip-%1.srs") (normalized ∷ [])
      ∷ rest

unfoldable pub has_rule_set_files_for_tags : RuleSetDirectory → List Text → Bool
has_rule_set_files_for_tags directory tags =
    let expected = expected_rule_set_file_names tags in
    is_empty expected || any directory.exists expected

unfoldable pub append_geo_compatibility_warnings :
    RuleSetDirectory → List Text → List Text → List Text
append_geo_compatibility_warnings directory tags warnings =
    let told =
      warnings
      ++ codes
          "geosite/geoip rules may require sing-box rule-set files depending on your sing-box version. Xray geoip.dat/geosite.dat are not the same artifact. Rule-set update manager is not implemented yet."
        ∷ [] in
    let absent =
      arg (codes "No sing-box rule-set files found under %1 (expected examples: %2).")
        (directory.path ∷ join_commas (expected_rule_set_file_names tags) ∷ []) in
    if is_empty tags
    then warnings
    else if has_rule_set_files_for_tags directory tags
    then told
    else told ++ absent ∷ []

-- The rules so far, with the used tags and the warnings.
pub record Rules : Type 0 where
  pub rules : List Json
  pub used : List Text
  pub warnings : List Text

unfoldable pub append_rule : Made → List Json → Rules
append_rule made rules = record {
  rules = if is_empty_object made.rule then rules else rules ++ obj made.rule ∷ [];
  used = made.used;
  warnings = made.warnings;
}

-- The loop over the sorted rules.
unfoldable pub generate_rules : SingBoxRuleSetContext → Bool → List RoutingRule → Rules → Rules
generate_rules context use_rule_sets [] s = s
generate_rules context use_rule_sets (r ∷ rules) s =
    let made = rule_from_routing_rule context use_rule_sets r s.used s.warnings in
    if not r.enabled
    then generate_rules context use_rule_sets rules s
    else generate_rules context use_rule_sets rules (append_rule made s.rules)

unfoldable pub route_object : SingBoxConfigOptions → List Json → Fields
route_object options rules =
    let base =
      if options.enable_auto_detect_interface
      then insert (codes "auto_detect_interface") (bool true) end
      else end in
    insert (codes "final") (str options.final_outbound)
      (insert (codes "rules") (arr (of_list rules)) base)

abbrev pub is_proxy_all : RoutingMode → Bool
is_proxy_all proxy_all = true
is_proxy_all _ = false

abbrev pub no_rules : List Text → Rules
no_rules warnings = record { rules = []; used = []; warnings = warnings }

-- The rules of a profile; the object that holds them is made by `route_object`.
unfoldable pub generate_route : RuleSetDirectory → RoutingProfile → SingBoxConfigOptions → Rules
generate_route directory profile options =
    let context = options.rule_set_context in
    let use_rule_sets = options.enable_rule_sets && context.use_rule_set_references in
    let s = generate_rules context use_rule_sets (stable_sort profile.rules) (no_rules []) in
    let names = remove_duplicates [] (geo_names (geo_tags_used profile)) in
    if is_proxy_all profile.mode
    then no_rules []
    else if options.enable_rule_sets && is_empty s.used
    then record s { warnings = append_geo_compatibility_warnings directory names s.warnings }
    else s
