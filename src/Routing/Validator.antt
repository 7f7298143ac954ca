-- ===== src/Routing/Validator.antt =====
-- src/routing/RoutingProfileValidator.cpp: the warnings about a routing profile, by name. The two
-- regular expressions are read as scanners of digits.
use zarya.Prelude.{
  ℕ, zero, suc, Bool, true, false, not, ◌&&◌, ◌||◌, List, [], ◌∷◌, ◌++◌, Text, codes, trimmed,
  is_digit, starts_with, contains_char, case_fold, is_empty, ◌==◌, if◌then◌else◌,
}
use zarya.Routing.Mode.{RoutingRuleType, domain, ip, port, protocol}
use zarya.Routing.Profiles.{RoutingRule, RoutingProfile, is_valid_domain_strategy}

pub data RoutingWarning : Type 0 where
  bad_domain_strategy : RoutingWarning
  unusual_domain unusual_ip unusual_port : Text → RoutingWarning

-- QString::startsWith with Qt::CaseInsensitive.
starts_with_ignore_case : Text → Text → Bool
unfolding starts_with case_fold
starts_with_ignore_case s p = starts_with (case_fold s) (case_fold p)

looks_like_domain_value : Text → Bool
unfolding trimmed starts_with_ignore_case contains_char
looks_like_domain_value value =
    let t = trimmed value in
    not (is_empty t)
    && (starts_with_ignore_case t (codes "geosite:")
        || starts_with_ignore_case t (codes "domain:")
        || starts_with_ignore_case t (codes "full:")
        || starts_with_ignore_case t (codes "regexp:")
        || starts_with_ignore_case t (codes "keyword:")
        || contains_char t b'.')

-- `^(?:\d{1,3}\.){n}\d{1,3}$`, `room` more digits fitting into the group that is open, and
-- `seen` telling whether it has one. `$` also matches before a final line feed.
dotted : ℕ → ℕ → Bool → Text → Bool
unfolding is_digit
dotted groups room seen [] = (groups == 0) && seen
dotted groups room seen (c ∷ s) =
    let digit = dotted groups (elim room [ zero ↦ 0 | suc r ↦ r ]) true s in
    let dot = dotted (elim groups [ zero ↦ 0 | suc g ↦ g ]) 3 false s in
    if is_digit c
    then not (room == 0) && digit
    else if c == b'.'
    then seen && not (groups == 0) && dot
    else c == 10 && is_empty s && seen && (groups == 0)

looks_like_ip_value : Text → Bool
unfolding trimmed starts_with_ignore_case contains_char dotted
looks_like_ip_value value =
    let t = trimmed value in
    starts_with_ignore_case t (codes "geoip:") || contains_char t b'/' || dotted 3 3 false t

-- `^\d{1,5}(-\d{1,5})?$`, `dashes` telling how many dashes may still come.
port_range : ℕ → ℕ → Bool → Text → Bool
unfolding is_digit
port_range dashes room seen [] = seen
port_range dashes room seen (c ∷ s) =
    let digit = port_range dashes (elim room [ zero ↦ 0 | suc r ↦ r ]) true s in
    let dash = port_range 0 5 false s in
    if is_digit c
    then not (room == 0) && digit
    else if c == b'-'
    then seen && not (dashes == 0) && dash
    else c == 10 && is_empty s && seen

looks_like_port_value : Text → Bool
unfolding trimmed port_range
looks_like_port_value value = port_range 1 5 false (trimmed value)

-- The warning about one value of a rule, if any.
value_warnings : RoutingRuleType → Text → List RoutingWarning
unfolding looks_like_domain_value looks_like_ip_value looks_like_port_value
value_warnings domain t = if not (looks_like_domain_value t) then unusual_domain t ∷ [] else []
value_warnings ip t = if not (looks_like_ip_value t) then unusual_ip t ∷ [] else []
value_warnings port t = if not (looks_like_port_value t) then unusual_port t ∷ [] else []
value_warnings protocol t = []

values_warnings : RoutingRuleType → List Text → List RoutingWarning
unfolding trimmed value_warnings
values_warnings kind [] = []
values_warnings kind (value ∷ values) =
    let t = trimmed value in
    (if is_empty t then [] else value_warnings kind t) ++ values_warnings kind values

rules_warnings : List RoutingRule → List RoutingWarning
unfolding values_warnings
rules_warnings [] = []
rules_warnings (rule ∷ rules) =
    (if not rule.enabled then [] else values_warnings rule.kind rule.values) ++ rules_warnings rules

unfoldable pub warnings : RoutingProfile → List RoutingWarning
unfolding is_valid_domain_strategy rules_warnings
warnings profile =
    (if not (is_valid_domain_strategy profile.domain_strategy)
      then bad_domain_strategy ∷ []
      else [])
    ++ rules_warnings profile.rules
