-- ===== src/SingBox/RuleTags.antt =====
-- src/runtime/singbox/SingBoxRouteGenerator.cpp: what a rule that is made refers to.
use zarya.Prelude.{
  ◌≡◌, refl, sym, subst, ◌∙◌, ap, Bool, true, false, List, [], ◌∷◌, map, All, Text, codes, text_eq,
  contains, if◌then◌else◌, arith,
}
use zarya.Json.{
  texts_read, bool, str, arr, Fields, end, value, insert, to_string, to_array, of_list,
  is_empty_object, value-insert,
}
use zarya.Routing.Generator.{outbound_tag_for_action}
use zarya.Routing.Mode.{RoutingAction, proxy, direct, block}
use zarya.Routing.Profiles.{RoutingRule}
use zarya.Xray.Stream.{insert_texts}
use zarya.SingBox.RuleSets.{SingBoxRuleSetContext, geosite_tag_from_value, geoip_tag_from_value}
use zarya.SingBox.Matchers.{RouteMatchers}
use zarya.SingBox.Rule.{
  References, geosite_references, geoip_references, insert_private, rule_object, with_outbound,
  matchers_to_rule, Made, rule_from_routing_rule,
}
use zarya.SingBox.References.{
  rule_sets_of, Has, Grows, Grows-refl, Grows-trans, Keeps, refer_all-Keeps,
}

IsOtherKey : (key : Text) → Type 0
IsOtherKey key = text_eq key (codes "rule_set") ≡ false

value-insert_texts :
    (key : Text) (texts : List Text) (f : Fields)
    → IsOtherKey key
    → value (insert_texts key texts f) (codes "rule_set") ≡ value f (codes "rule_set")
unfolding insert_texts IsOtherKey
value-insert_texts key texts f h =
    ground (arith, h, value-insert key (codes "rule_set") (arr (of_list (map str texts))) f)

value-insert_private :
    (b : Bool) (f : Fields)
    → value (insert_private b f) (codes "rule_set") ≡ value f (codes "rule_set")
unfolding insert_private text_eq
value-insert_private false f = refl
value-insert_private true f = value-insert (codes "ip_is_private") (codes "rule_set") (bool true) f

rule_sets_of-insert_texts :
    (tags : List Text) → rule_sets_of (insert_texts (codes "rule_set") tags end) ≡ tags
unfolding insert_texts value insert text_eq
rule_sets_of-insert_texts [] = refl
rule_sets_of-insert_texts (t ∷ tags) = texts_read (t ∷ tags)

rule_sets_of-rule_object :
    (tags geosite geoip : List Text) (m : RouteMatchers)
    → rule_sets_of (rule_object tags geosite geoip m) ≡ tags
unfolding rule_object IsOtherKey text_eq
rule_sets_of-rule_object tags geosite geoip m =
    ap (λ v. map to_string (to_array v))
      (value-insert_texts (codes "protocol") m.protocol _ refl
        ∙ value-insert_texts (codes "port") m.port _ refl
        ∙ value-insert_texts (codes "ip_cidr") m.ip_cidr _ refl
        ∙ value-insert_texts (codes "domain_regex") m.domain_regex _ refl
        ∙ value-insert_texts (codes "domain_keyword") m.domain_keyword _ refl
        ∙ value-insert_texts (codes "domain_suffix") m.domain_suffix _ refl
        ∙ value-insert_texts (codes "domain") m.domain _ refl
        ∙ value-insert_private m.ip_is_private _
        ∙ value-insert_texts (codes "geoip") geoip _ refl
        ∙ value-insert_texts (codes "geosite") geosite _ refl)
    ∙ rule_sets_of-insert_texts tags

abbrev pub outbound_of : Fields → Text
outbound_of rule = to_string (value rule (codes "outbound"))

-- A rule that refers to used tags only and names one of the three outbounds.
abbrev pub IsClosed : List Text → Fields → Type 0
IsClosed used rule =
    All (Has used) (rule_sets_of rule)
    × Has (codes "proxy" ∷ codes "direct" ∷ codes "block" ∷ []) (outbound_of rule)

Has-outbound :
    (a : RoutingAction)
    → Has (codes "proxy" ∷ codes "direct" ∷ codes "block" ∷ []) (outbound_tag_for_action a)
unfolding outbound_tag_for_action contains text_eq
Has-outbound proxy = refl
Has-outbound direct = refl
Has-outbound block = refl

with_outbound-values :
    (outbound : Text) (rule : Fields)
    → is_empty_object (with_outbound outbound rule) ≡ false
    → (rule_sets_of (with_outbound outbound rule) ≡ rule_sets_of rule)
      × (outbound_of (with_outbound outbound rule) ≡ outbound)
unfolding with_outbound text_eq
with_outbound-values outbound rule h = ground (
  arith,
  value-insert (codes "outbound") (codes "rule_set") (str outbound) rule,
  value-insert (codes "outbound") (codes "outbound") (str outbound) rule,
)

module _ (context : SingBoxRuleSetContext) where
  -- What is made of a rule: the used tags have grown, and a rule that is made is closed.
  abbrev pub IsMade : List Text → Made → Type 0
  IsMade used made =
      Grows context used made.used
      × (is_empty_object made.rule ≡ false → IsClosed made.used made.rule)

  IsClosed-with_outbound :
      (a : RoutingAction) (rule : Fields) (used : List Text)
      → All (Has used) (rule_sets_of rule)
      → is_empty_object (with_outbound (outbound_tag_for_action a) rule) ≡ false
      → IsClosed used (with_outbound (outbound_tag_for_action a) rule)
  IsClosed-with_outbound a rule used h e =
      let (s, o) = with_outbound-values (outbound_tag_for_action a) rule e in
      (
        subst (All (Has used)) (sym s) h,
        subst (Has (codes "proxy" ∷ codes "direct" ∷ codes "block" ∷ [])) (sym o) (Has-outbound a),
      )

  -- Both kinds of geo data in turn.
  both_kinds :
      (m : RouteMatchers) (r : References)
      → Keeps context r (geoip_references context m (geosite_references context m r))
  unfolding geoip_references geosite_references
  both_kinds m r =
      let s = geosite_references context m r in
      let (f, g) = refer_all-Keeps context (codes "geosite") geosite_tag_from_value m.geosite r in
      let (h, k) =
        refer_all-Keeps context (codes "geoip") geoip_tag_from_value m.geoip
          (record s { fallback = [] }) in
      ((λ x. h (f x)), Grows-trans context r.used s.used _ g k)

  made_when :
      (b : Bool) (used : List Text) (x y : Made)
      → IsMade used x
      → IsMade used y
      → IsMade used (if b then x else y)
  made_when true used x y h k = h
  made_when false used x y h k = k

  matchers_to_rule-IsMade :
      (use_rule_sets : Bool) (m : RouteMatchers) (a : RoutingAction) (used warnings : List Text)
      → IsMade used
          (matchers_to_rule context use_rule_sets m (outbound_tag_for_action a) used warnings)
  unfolding matchers_to_rule
  matchers_to_rule-IsMade true m a used warnings =
      let start : References = record {
        tags = [];
        used = used;
        fallback = [];
        warnings = warnings;
      } in
      let sites = geosite_references context m start in
      let ips = geoip_references context m sites in
      let (h, g) = both_kinds m start in
      (
        g,
        (λ e.
            IsClosed-with_outbound a (rule_object ips.tags sites.fallback ips.fallback m) ips.used
              (subst (All (Has ips.used))
                (sym (rule_sets_of-rule_object ips.tags sites.fallback ips.fallback m)) (h tt))
              e),
      )
  matchers_to_rule-IsMade false m a used warnings = (
    Grows-refl context used,
    (λ e.
        IsClosed-with_outbound a (rule_object [] m.geosite m.geoip m) used
          (subst (All (Has used)) (sym (rule_sets_of-rule_object [] m.geosite m.geoip m)) tt) e),
  )

  pub rule_from_routing_rule-IsMade :
      (use_rule_sets : Bool) (r : RoutingRule) (used warnings : List Text)
      → IsMade used (rule_from_routing_rule context use_rule_sets r used warnings)
  unfolding rule_from_routing_rule
  rule_from_routing_rule-IsMade use_rule_sets r used warnings =
      made_when _ used _ _ (Grows-refl context used, (λ e. ground (arith, e)))
        (matchers_to_rule-IsMade use_rule_sets _ r.action used _)
