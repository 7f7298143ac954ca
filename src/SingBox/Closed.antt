-- ===== src/SingBox/Closed.antt =====
-- src/runtime/singbox/SingBoxConfigGenerator.cpp: what the rules of a configuration refer to.
use zarya.Prelude.{
  ◌≡◌, refl, Bool, true, false, not, ◌&&◌, ◌||◌, List, [], ◌∷◌, ◌++◌, map, All, All-append,
  All-imply, Text, codes, text_eq, contains, is_empty, if◌then◌else◌, arith,
}
use zarya.Json.{Json, obj, Fields, text_lt, value, insert, to_string, to_object, is_empty_object}
use zarya.Routing.Profiles.{RoutingRule, RoutingProfile}
use zarya.Routing.Generator.{stable_sort}
use zarya.SingBox.RuleSets.{SingBoxRuleSetContext, has_local_rule_set, local_path_for_tag}
use zarya.SingBox.Rule.{Made, rule_from_routing_rule}
use zarya.SingBox.Route.{
  SingBoxConfigOptions, RuleSetDirectory, Rules, append_rule, generate_rules, no_rules,
  generate_route, remove_duplicates, geo_names, geo_tags_used, is_proxy_all,
  append_geo_compatibility_warnings,
}
use zarya.SingBox.Config.{hijack_rule, append_dns_hijack, definition, definitions}
use zarya.SingBox.References.{Has, Grows, rule_sets_of}
use zarya.SingBox.RuleTags.{outbound_of, IsClosed, IsMade, rule_from_routing_rule-IsMade}

abbrev pub three_tags : List Text
three_tags = codes "proxy" ∷ codes "direct" ∷ codes "block" ∷ []

-- A rule whose rule sets are among the tags, and which names one of the outbounds or none.
abbrev pub RefersIn : List Text → List Text → Json → Type 0
RefersIn outbounds tags v =
    All (Has tags) (rule_sets_of (to_object v))
    × ((is_empty (outbound_of (to_object v)) || contains outbounds (outbound_of (to_object v)))
        ≡ true)

abbrev pub RefersTo : List Text → Json → Type 0
RefersTo tags v = RefersIn three_tags tags v

abbrev pub AllLocal : SingBoxRuleSetContext → List Text → Type 0
AllLocal context tags = All (λ t. has_local_rule_set context t ≡ true) tags

abbrev pub IsSound : SingBoxRuleSetContext → Rules → Type 0
IsSound context s = AllLocal context s.used × All (RefersTo s.used) s.rules

pub grow :
    (used more : List Text) (rules : List Json)
    → ((tag : Text) → Has used tag → Has more tag)
    → All (RefersTo used) rules
    → All (RefersTo more) rules
grow used more [] f h = tt
grow used more (v ∷ rules) f ((h, o), k) = (
  (All-imply (Has used) (Has more) (rule_sets_of (to_object v)) f h, o),
  grow used more rules f k,
)

known : (b c : Bool) → c ≡ true → (b || c) ≡ true
known b c h = ground arith

module _ (context : SingBoxRuleSetContext) where
  append_when :
      (empty : Bool) (rule : Fields) (used more : List Text) (rules : List Json)
      → Grows context used more
      → (empty ≡ false → IsClosed more rule)
      → All (RefersTo used) rules
      → All (RefersTo more) (if empty then rules else rules ++ obj rule ∷ [])
  append_when true rule used more rules g h k = grow used more rules g.0 k
  append_when false rule used more rules g h k =
      let (s, o) = h refl in
      All-append (RefersTo more) rules (obj rule ∷ []) (grow used more rules g.0 k)
        ((s, known (is_empty (outbound_of rule)) _ o), tt)

  append_rule-IsSound :
      (made : Made) (s : Rules)
      → IsSound context s
      → IsMade context s.used made
      → IsSound context (append_rule made s.rules)
  unfolding append_rule
  append_rule-IsSound made s (l, k) (g, h) =
      (g.1 l, append_when (is_empty_object made.rule) made.rule s.used made.used s.rules g h k)

  rules_when :
      (b : Bool) (x y : Rules)
      → IsSound context x
      → IsSound context y
      → IsSound context (if b then x else y)
  rules_when true x y h k = h
  rules_when false x y h k = k

  generate_rules-IsSound :
      (use_rule_sets : Bool) (rules : List RoutingRule) (s : Rules)
      → IsSound context s
      → IsSound context (generate_rules context use_rule_sets rules s)
  unfolding generate_rules
  generate_rules-IsSound use_rule_sets [] s h = h
  generate_rules-IsSound use_rule_sets (r ∷ rules) s h =
      let made = rule_from_routing_rule context use_rule_sets r s.used s.warnings in
      rules_when (not r.enabled) _ _ (generate_rules-IsSound use_rule_sets rules s h) (
        generate_rules-IsSound use_rule_sets rules (append_rule made s.rules) (
          append_rule-IsSound made s h
            (rule_from_routing_rule-IsMade context use_rule_sets r s.used s.warnings)))

pub generate_route-IsSound :
    (directory : RuleSetDirectory) (profile : RoutingProfile) (options : SingBoxConfigOptions)
    → IsSound options.rule_set_context (generate_route directory profile options)
unfolding generate_route
generate_route-IsSound directory profile options =
    let context = options.rule_set_context in
    let use_rule_sets = options.enable_rule_sets && context.use_rule_set_references in
    let s = generate_rules context use_rule_sets (stable_sort profile.rules) (no_rules []) in
    let names = remove_duplicates [] (geo_names (geo_tags_used profile)) in
    let told : Rules = record s {
      warnings = append_geo_compatibility_warnings directory names s.warnings;
    } in
    let sound =
      generate_rules-IsSound context use_rule_sets (stable_sort profile.rules) (no_rules [])
        (tt, tt) in
    rules_when context (is_proxy_all profile.mode) (no_rules []) _ (tt, tt)
      (rules_when context (options.enable_rule_sets && is_empty s.used) told s sound sound)

hijack-RefersTo : (used : List Text) → RefersTo used (obj hijack_rule)
unfolding hijack_rule value insert text_eq text_lt
hijack-RefersTo used = (tt, refl)

pub append_dns_hijack-IsSound :
    (context : SingBoxRuleSetContext) (b : Bool) (s : Rules)
    → IsSound context s
    → IsSound context (append_dns_hijack b s)
unfolding append_dns_hijack
append_dns_hijack-IsSound context false s h = h
append_dns_hijack-IsSound context true s (l, h) = (l, (hijack-RefersTo s.used, h))

abbrev pub tag_of : Json → Text
tag_of v = to_string (value (to_object v) (codes "tag"))

tag_of-definition : (tag path : Text) → tag_of (obj (definition tag path)) ≡ tag
unfolding definition value insert text_eq text_lt
tag_of-definition tag path = refl

-- Each tag with a local path is defined.
pub Has-definitions :
    (context : SingBoxRuleSetContext) (used : List Text) (tag : Text)
    → AllLocal context used
    → Has used tag
    → Has (map tag_of (definitions context used)) tag
unfolding definitions has_local_rule_set contains
Has-definitions context [] tag l h = h
Has-definitions context (t ∷ used) tag (p, l) h = ground (
  arith,
  p,
  tag_of-definition t (local_path_for_tag context t),
  Has-definitions context used tag l,
)
