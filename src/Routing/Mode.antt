-- ===== src/Routing/Mode.antt =====
-- src/domain/RoutingMode.h and RoutingMode.cpp: the enumerations and their names in files.
use zarya.Prelude.{◌≡◌, refl, Text, codes, text_eq, trimmed, to_lower, if◌then◌else◌}

pub data RoutingMode : Type 0 where
  proxy_all bypass_lan bypass_ru bypass_lan_and_ru custom : RoutingMode

pub data RoutingAction : Type 0 where
  proxy direct block : RoutingAction

pub data RoutingRuleType : Type 0 where
  domain ip port protocol : RoutingRuleType

unfoldable pub routing_mode_to_string : RoutingMode → Text
routing_mode_to_string proxy_all = codes "proxy_all"
routing_mode_to_string bypass_lan = codes "bypass_lan"
routing_mode_to_string bypass_ru = codes "bypass_ru"
routing_mode_to_string bypass_lan_and_ru = codes "bypass_lan_and_ru"
routing_mode_to_string custom = codes "custom"

unfoldable pub routing_mode_from_string : Text → RoutingMode
unfolding text_eq trimmed to_lower
routing_mode_from_string value =
    let normalized = to_lower (trimmed value) in
    if text_eq normalized (codes "proxy_all")
    then proxy_all
    else if text_eq normalized (codes "bypass_lan")
    then bypass_lan
    else if text_eq normalized (codes "bypass_ru")
    then bypass_ru
    else if text_eq normalized (codes "bypass_lan_and_ru")
    then bypass_lan_and_ru
    else custom

unfoldable pub routing_action_to_string : RoutingAction → Text
routing_action_to_string proxy = codes "proxy"
routing_action_to_string direct = codes "direct"
routing_action_to_string block = codes "block"

unfoldable pub routing_action_from_string : Text → RoutingAction
unfolding text_eq trimmed to_lower
routing_action_from_string value =
    let normalized = to_lower (trimmed value) in
    if text_eq normalized (codes "direct")
    then direct
    else if text_eq normalized (codes "block")
    then block
    else proxy

unfoldable pub routing_rule_type_to_string : RoutingRuleType → Text
routing_rule_type_to_string domain = codes "domain"
routing_rule_type_to_string ip = codes "ip"
routing_rule_type_to_string port = codes "port"
routing_rule_type_to_string protocol = codes "protocol"

unfoldable pub routing_rule_type_from_string : Text → RoutingRuleType
unfolding text_eq trimmed to_lower
routing_rule_type_from_string value =
    let normalized = to_lower (trimmed value) in
    if text_eq normalized (codes "ip")
    then ip
    else if text_eq normalized (codes "port")
    then port
    else if text_eq normalized (codes "protocol")
    then protocol
    else domain

-- What is written for a mode, an action or a rule type is read back as the same.
pub mode_from_string-to_string :
    (m : RoutingMode) → routing_mode_from_string (routing_mode_to_string m) ≡ m
unfolding routing_mode_from_string routing_mode_to_string
mode_from_string-to_string proxy_all = refl
mode_from_string-to_string bypass_lan = refl
mode_from_string-to_string bypass_ru = refl
mode_from_string-to_string bypass_lan_and_ru = refl
mode_from_string-to_string custom = refl

pub action_from_string-to_string :
    (a : RoutingAction) → routing_action_from_string (routing_action_to_string a) ≡ a
unfolding routing_action_from_string routing_action_to_string
action_from_string-to_string proxy = refl
action_from_string-to_string direct = refl
action_from_string-to_string block = refl

pub rule_type_from_string-to_string :
    (t : RoutingRuleType) → routing_rule_type_from_string (routing_rule_type_to_string t) ≡ t
unfolding routing_rule_type_from_string routing_rule_type_to_string
rule_type_from_string-to_string domain = refl
rule_type_from_string-to_string ip = refl
rule_type_from_string-to_string port = refl
rule_type_from_string-to_string protocol = refl
