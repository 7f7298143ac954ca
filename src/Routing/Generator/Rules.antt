-- ===== src/Routing/Generator/Rules.antt =====
-- XrayRoutingGenerator.cpp: what one generated rule says.
use zarya.Prelude.{
  ◌≡◌, refl, sym, ap, ◌∙◌, ◌≢◌, ◌⊎◌, inl, inr, true, false, List, [], map, Text, codes, is_empty,
  subst, arith, Bool-cases,
}
use zarya.Json.{str, arr, Fields, end, value, of_list}
use zarya.Routing.Mode.{RoutingRuleType, domain, ip, port, protocol}
use zarya.Routing.Profiles.{RoutingRule}
use zarya.Routing.Generator.{
  rule_field_key, outbound_tag_for_action, kept_values, make_field_rule, field_rule,
}

-- What a generated rule must say: its type, the values that are not blank under the key of its
-- type, and the outbound of its action.
abbrev pub Says : RoutingRule → Fields → Type 0
Says r f =
    (value f (codes "type") ≡ str (codes "field"))
    × (value f (rule_field_key r.kind) ≡ arr (of_list (map str (kept_values r.values))))
    × (value f (codes "outboundTag") ≡ str (outbound_tag_for_action r.action))

made_rule :
    (t : RoutingRuleType) (values : List Text) (tag : Text)
    → is_empty (kept_values values) ≡ false
    → (value (make_field_rule (rule_field_key t) values tag) (codes "type") ≡ str (codes "field"))
      × (value (make_field_rule (rule_field_key t) values tag) (rule_field_key t)
          ≡ arr (of_list (map str (kept_values values))))
      × (value (make_field_rule (rule_field_key t) values tag) (codes "outboundTag") ≡ str tag)
unfolding make_field_rule rule_field_key value
made_rule domain values tag h = rw h (refl, refl, refl)
made_rule ip values tag h = rw h (refl, refl, refl)
made_rule port values tag h = rw h (refl, refl, refl)
made_rule protocol values tag h = rw h (refl, refl, refl)

made_none :
    (key : Text) (values : List Text) (tag : Text)
    → is_empty (kept_values values) ≡ true
    → make_field_rule key values tag ≡ end
unfolding make_field_rule
made_none key values tag h = rw h

field_rule_lem :
    (r : RoutingRule)
    → field_rule r
      ≡ make_field_rule (rule_field_key r.kind) r.values (outbound_tag_for_action r.action)
unfolding field_rule
field_rule_lem r = refl

-- A rule whose values are all blank becomes the empty object, which is left out; any other says
-- its type, its values that are not blank, trimmed and in order, and the outbound of its action.
pub field_rule-Says :
    (r : RoutingRule)
    → ((kept_values r.values ≡ []) × (field_rule r ≡ end))
      ⊎ ((kept_values r.values ≢ []) × Says r (field_rule r))
field_rule-Says r = elim (Bool-cases (is_empty (kept_values r.values))) [
  | inl e ↦ inl (ground arith, field_rule_lem r ∙ made_none _ r.values _ e)
  | inr e ↦ inr (
    (λ n. cc (ap is_empty n)),
    subst (Says r) (sym (field_rule_lem r))
        (made_rule r.kind r.values (outbound_tag_for_action r.action) e),
  )
]
