-- ===== src/Routing/Profiles.antt =====
-- src/domain/RoutingRule and RoutingProfile: rules, profiles and the built-in profiles. The
-- identifiers of QUuid::createUuid and the current time are arguments.
use zarya.Prelude.{ℕ, Bool, true, ◌||◌, List, [], ◌∷◌, Text, codes, text_eq, trimmed}
use zarya.Routing.Mode.{
  RoutingMode, proxy_all, bypass_lan, bypass_ru, bypass_lan_and_ru, custom, RoutingAction, direct,
  RoutingRuleType, domain, ip,
}

pub record RoutingRule : Type 0 where
  pub id : Text
  pub enabled : Bool
  pub kind : RoutingRuleType
  pub action : RoutingAction
  pub values : List Text
  pub note : Text

pub record RoutingProfile : Type 0 where
  pub id : Text
  pub name : Text
  pub mode : RoutingMode
  pub enabled : Bool
  pub domain_strategy : Text
  pub rules : List RoutingRule
  pub created_at : ℕ
  pub updated_at : ℕ
  pub is_built_in : Bool

-- RoutingBuiltinIds.
abbrev pub proxy_all_id : Text
proxy_all_id = codes "builtin-proxy-all"

abbrev pub bypass_lan_id : Text
bypass_lan_id = codes "builtin-bypass-lan"

abbrev pub bypass_ru_id : Text
bypass_ru_id = codes "builtin-bypass-ru"

abbrev pub bypass_lan_and_ru_id : Text
bypass_lan_and_ru_id = codes "builtin-bypass-lan-ru"

abbrev pub custom_template_id : Text
custom_template_id = codes "builtin-custom-template"

unfoldable pub is_valid_domain_strategy : Text → Bool
unfolding text_eq trimmed
is_valid_domain_strategy strategy =
    let normalized = trimmed strategy in
    text_eq normalized (codes "AsIs")
    || text_eq normalized (codes "IPIfNonMatch")
    || text_eq normalized (codes "IPOnDemand")

make_rule : Text → RoutingRuleType → RoutingAction → List Text → RoutingRule
make_rule id kind action values = record {
  id = id;
  enabled = true;
  kind = kind;
  action = action;
  values = values;
  note = [];
}

make_built_in : ℕ → Text → Text → RoutingMode → List RoutingRule → RoutingProfile
make_built_in now id name mode rules = record {
  id = id;
  name = name;
  mode = mode;
  enabled = true;
  domain_strategy = codes "AsIs";
  rules = rules;
  created_at = now;
  updated_at = now;
  is_built_in = true;
}

unfoldable pub built_in_proxy_all : ℕ → RoutingProfile
unfolding make_built_in
built_in_proxy_all now = make_built_in now proxy_all_id (codes "Proxy All") proxy_all []

-- `uuid` gives the identifiers in the order in which they are made.
unfoldable pub create_built_in_profiles : (ℕ → Text) → ℕ → List RoutingProfile
unfolding built_in_proxy_all make_built_in make_rule
create_built_in_profiles uuid now =
    built_in_proxy_all now
    ∷ make_built_in now bypass_lan_id (codes "Bypass LAN") bypass_lan (
        make_rule (uuid 0) domain direct (codes "geosite:private" ∷ [])
        ∷ make_rule (uuid 1) ip direct (codes "geoip:private" ∷ [])
        ∷ [])
    ∷ make_built_in now bypass_ru_id (codes "Bypass RU") bypass_ru (
        make_rule (uuid 2) domain direct (codes "geosite:ru" ∷ [])
        ∷ make_rule (uuid 3) ip direct (codes "geoip:ru" ∷ [])
        ∷ [])
    ∷ make_built_in now bypass_lan_and_ru_id (codes "Bypass LAN + RU") bypass_lan_and_ru (
        make_rule (uuid 4) domain direct (codes "geosite:private" ∷ codes "geosite:ru" ∷ [])
        ∷ make_rule (uuid 5) ip direct (codes "geoip:private" ∷ codes "geoip:ru" ∷ [])
        ∷ [])
    ∷ make_built_in now custom_template_id (codes "Custom") custom []
    ∷ []
