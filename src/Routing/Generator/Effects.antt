-- ===== src/Routing/Generator/Effects.antt =====
-- XrayRoutingGenerator.cpp: what the generated rules do, as Xray reads them.
use zarya.Prelude.{
  Bool, true, false, not, ◌&&◌, List, [], ◌∷◌, map, Text, codes, trimmed, is_empty, if◌then◌else◌,
}
use zarya.Json.{Json, value, to_string, to_object, to_array}
use zarya.Routing.Mode.{
  RoutingAction, proxy, direct, block, RoutingRuleType, domain, ip, port, protocol,
}
use zarya.Routing.Profiles.{RoutingRule}

-- A rule in the eyes of Xray: the conditions of each kind, none where a list is empty, the networks
-- that it is for, and the outbound of the traffic that meets them.
pub record Effect : Type 0 where
  pub domains : List Text
  pub ips : List Text
  pub ports : List Text
  pub protocols : List Text
  pub networks : Text
  pub outbound : Text

abbrev texts_under : Json → Text → List Text
texts_under v key = map to_string (to_array (value (to_object v) key))

unfoldable pub read_rule : Json → Effect
unfolding value
read_rule v = record {
  domains = texts_under v (codes "domain");
  ips = texts_under v (codes "ip");
  ports = texts_under v (codes "port");
  protocols = texts_under v (codes "protocol");
  networks = to_string (value (to_object v) (codes "network"));
  outbound = to_string (value (to_object v) (codes "outboundTag"));
}

-- The texts that the values of a rule stand for.
unfoldable pub meant : List Text → List Text
meant [] = []
meant (v ∷ values) =
    let rest = meant values in if is_empty (trimmed v) then rest else trimmed v ∷ rest

abbrev nothing : Text → Effect
nothing outbound = record {
  domains = [];
  ips = [];
  ports = [];
  protocols = [];
  networks = [];
  outbound = outbound;
}

abbrev pub effect : Text → RoutingRuleType → List Text → Effect
effect outbound domain texts = record (nothing outbound) { domains = texts }
effect outbound ip texts = record (nothing outbound) { ips = texts }
effect outbound port texts = record (nothing outbound) { ports = texts }
effect outbound protocol texts = record (nothing outbound) { protocols = texts }

abbrev pub is_block : RoutingAction → Bool
is_block block = true
is_block _ = false

abbrev pub is_direct : RoutingAction → Bool
is_direct direct = true
is_direct _ = false

abbrev pub is_proxy : RoutingAction → Bool
is_proxy proxy = true
is_proxy _ = false

-- What the enabled rules of some actions do that have a text, in the order of the profile.
unfoldable pub effects_of : (RoutingAction → Bool) → Text → List RoutingRule → List Effect
unfolding meant
effects_of chosen outbound [] = []
effects_of chosen outbound (r ∷ rules) =
    let rest = effects_of chosen outbound rules in
    if chosen r.action && r.enabled && not (is_empty (meant r.values))
    then effect outbound r.kind (meant r.values) ∷ rest
    else rest

-- The last rule: all other traffic goes through the proxy.
abbrev pub all_else : Effect
all_else = record (nothing (codes "proxy")) { networks = codes "tcp,udp" }
