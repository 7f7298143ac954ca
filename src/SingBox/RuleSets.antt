-- ===== src/SingBox/RuleSets.antt =====
-- src/runtime/singbox/SingBoxRuleSetContext.cpp, src/rulesets/RuleSetNormalizer.cpp: the names of
-- rule sets and their local files.
use zarya.Prelude.{
  ℕ, Bool, not, List, [], ◌∷◌, ◌++◌, map, Text, codes, text_eq, to_lower, trimmed, contains,
  is_empty, ◌==◌, arg, if◌then◌else◌,
}

-- `tag_to_local_path` is a hash: the first entry of a tag counts.
pub record SingBoxRuleSetContext : Type 0 where
  pub tag_to_local_path : List (Text × Text)
  pub require_local_rule_sets : Bool
  pub use_rule_set_references : Bool

unfoldable pub path_in : List (Text × Text) → Text → Text
path_in [] tag = []
path_in ((key, path) ∷ entries) tag =
    let rest = path_in entries tag in if text_eq key tag then path else rest

unfoldable pub local_path_for_tag : SingBoxRuleSetContext → Text → Text
local_path_for_tag context tag = path_in context.tag_to_local_path tag

unfoldable pub has_local_rule_set : SingBoxRuleSetContext → Text → Bool
has_local_rule_set context tag = not (is_empty (local_path_for_tag context tag))

dash : ℕ → ℕ
dash c = if c == b'/' then b'-' else c

unfoldable pub geosite_tag_from_value : Text → Text
unfolding dash
geosite_tag_from_value geo_value =
    let lowered = to_lower (trimmed geo_value) in
    let normalized =
      if text_eq lowered (codes "geolocation-!cn") then codes "geolocation-not-cn" else lowered in
    arg (codes "geosite-%1") (map dash normalized ∷ [])

unfoldable pub geoip_tag_from_value : Text → Text
unfolding dash
geoip_tag_from_value geo_value =
    arg (codes "geoip-%1") (map dash (to_lower (trimmed geo_value)) ∷ [])

-- QSet::insert; a set is a list without repetitions.
unfoldable pub insert_tag : List Text → Text → List Text
insert_tag tags tag = if contains tags tag then tags else tags ++ tag ∷ []
