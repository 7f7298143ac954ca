-- ===== src/Routing/Generator.antt =====
-- src/routing/XrayRoutingGenerator.cpp: from a routing profile to Xray's routing object.
pub mod Sorting
pub mod Rules
pub mod Effects
use zarya.Prelude.{
  ℕ, suc, ◌+◌, ◌≡◌, refl, Bool, true, false, not, ◌&&◌, List, [], ◌∷◌, ◌++◌, map, select, length,
  Text, codes, trimmed, is_empty, ltb, if◌then◌else◌,
}
use zarya.Json.{Json, str, arr, obj, Fields, end, insert, of_list, is_empty_object}
use zarya.Routing.Mode.{
  RoutingAction, proxy, direct, block, RoutingRuleType, domain, ip, port, protocol,
}
use zarya.Routing.Profiles.{RoutingRule, RoutingProfile, is_valid_domain_strategy}

unfoldable pub outbound_tag_for_action : RoutingAction → Text
outbound_tag_for_action direct = codes "direct"
outbound_tag_for_action block = codes "block"
outbound_tag_for_action proxy = codes "proxy"

unfoldable pub rule_field_key : RoutingRuleType → Text
rule_field_key domain = codes "domain"
rule_field_key ip = codes "ip"
rule_field_key port = codes "port"
rule_field_key protocol = codes "protocol"

unfoldable pub action_sort_order : RoutingAction → ℕ
action_sort_order block = 0
action_sort_order direct = 1
action_sort_order proxy = 2

-- The values that are kept: trimmed, and not blank.
unfoldable pub kept_values : List Text → List Text
unfolding select trimmed
kept_values values = select (λ v. not (is_empty v)) (map trimmed values)

unfoldable pub make_field_rule : Text → List Text → Text → Fields
unfolding kept_values insert
make_field_rule field_key values outbound_tag =
    let kept = kept_values values in
    if is_empty kept
    then end
    else insert (codes "outboundTag") (str outbound_tag) (
        insert field_key (arr (of_list (map str kept)))
          (insert (codes "type") (str (codes "field")) end))

unfoldable pub enabled_rule_count : RoutingProfile → ℕ
unfolding select
enabled_rule_count profile =
    length (select (λ (r : RoutingRule). r.enabled && not (is_empty r.values)) profile.rules)

-- std::stable_sort by the order of the actions: a rule goes before the first rule of its suffix
-- whose order is not below its own.
unfoldable pub insert_rule : RoutingRule → List RoutingRule → List RoutingRule
unfolding action_sort_order
insert_rule r [] = r ∷ []
insert_rule r (s ∷ rules) =
    let later = s ∷ insert_rule r rules in
    if ltb (action_sort_order s.action) (action_sort_order r.action) then later else r ∷ s ∷ rules

unfoldable pub stable_sort : List RoutingRule → List RoutingRule
unfolding insert_rule
stable_sort [] = []
stable_sort (r ∷ rules) = insert_rule r (stable_sort rules)

unfoldable pub field_rule : RoutingRule → Fields
unfolding make_field_rule rule_field_key outbound_tag_for_action
field_rule r = make_field_rule (rule_field_key r.kind) r.values (outbound_tag_for_action r.action)

-- The loop over the sorted rules.
unfoldable pub field_rules : List RoutingRule → List Json
unfolding field_rule
field_rules [] = []
field_rules (r ∷ rules) =
    let rest = field_rules rules in
    if not r.enabled
    then rest
    else if not (is_empty_object (field_rule r))
    then obj (field_rule r) ∷ rest
    else rest

unfoldable pub default_rule : Fields
unfolding insert
default_rule = insert (codes "outboundTag") (str (codes "proxy")) (
    insert (codes "network") (str (codes "tcp,udp"))
      (insert (codes "type") (str (codes "field")) end))

unfoldable pub generate : RoutingProfile → Fields
unfolding stable_sort field_rules default_rule is_valid_domain_strategy trimmed insert
generate profile =
    let strategy = trimmed profile.domain_strategy in
    let rules = field_rules (stable_sort profile.rules) ++ obj default_rule ∷ [] in
    insert (codes "rules") (arr (of_list rules)) (
      insert (codes "domainStrategy")
        (str (if not (is_valid_domain_strategy strategy) then codes "AsIs" else strategy)) end)
