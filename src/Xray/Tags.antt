-- ===== src/Xray/Tags.antt =====
-- src/core/XrayConfigBuilder.cpp with src/routing/XrayRoutingGenerator.cpp: the outbounds of a
-- configuration, and the rules that name them.
use zarya.Prelude.{
  ℕ, ◌≡◌, refl, sym, subst, ◌∙◌, ap, inl, inr, Bool, true, false, not, ◌||◌, List, [], ◌∷◌, ◌++◌,
  map, All, All-append, Option, none, some, Text, codes, text_eq, contains, ℤ, if◌then◌else◌, arith,
}
use zarya.Json.{
  Json, obj, Fields, end, field, value, insert, text_lt, to_string, to_object, to_array,
  items-of_list, is_empty_object, value-insert,
}
use zarya.Profiles.Profile.{Profile}
use zarya.Routing.Mode.{RoutingAction, proxy, direct, block}
use zarya.Routing.Profiles.{RoutingRule, RoutingProfile}
use zarya.Routing.Generator.{
  outbound_tag_for_action, stable_sort, field_rule, field_rules, default_rule, generate,
}
use zarya.Routing.Generator.Rules.{field_rule-Says}
use zarya.Dns.Profiles.{DnsProfile}
use zarya.Xray.Support.{Support, supported, unsupported, supports_profile}
use zarya.Xray.Stream.{Generated, generated, failed}
use zarya.Xray.Outbounds.{generate_outbound}
use zarya.Xray.Reading.{read_outbound, outbound_of}
use zarya.Xray.Faithful.{read_outbound-generate_outbound}
use zarya.Xray.Config.{
  direct_outbound, block_outbound, build_base_config, build_full_config, routing_of, dns_of,
  config_of, generate_supported, generate_config,
}

abbrev text_of : Text → Json → Text
text_of key v = to_string (value (to_object v) key)

-- The tags of the outbounds of a configuration, in order.
pub outbound_tags : Fields → List Text
unfolding value
outbound_tags f = map (text_of (codes "tag")) (to_array (value f (codes "outbounds")))

-- The outbounds that the rules of its routing name.
pub rule_tags : Fields → List Text
unfolding value
rule_tags f =
    map (text_of (codes "outboundTag"))
      (to_array (value (to_object (value f (codes "routing"))) (codes "rules")))

abbrev three_tags : List Text
three_tags = codes "proxy" ∷ codes "direct" ∷ codes "block" ∷ []

abbrev IsKnown : Text → Type 0
IsKnown tag = contains three_tags tag ≡ true

IsKnown-tag : (a : RoutingAction) → IsKnown (outbound_tag_for_action a)
unfolding outbound_tag_for_action contains
IsKnown-tag proxy = refl
IsKnown-tag direct = refl
IsKnown-tag block = refl

abbrev KnownRules : List Json → Type 0
KnownRules = All (λ v. IsKnown (text_of (codes "outboundTag") v))

field_rule-IsKnown :
    (r : RoutingRule)
    → is_empty_object (field_rule r) ≡ false
    → IsKnown (text_of (codes "outboundTag") (obj (field_rule r)))
field_rule-IsKnown r h = elim (field_rule-Says r) [
  | inl (_, e) ↦ ground (arith, e, h)
  | inr (_, s) ↦ subst IsKnown (sym (ap to_string s.2)) (IsKnown-tag r.action)
]

known_step :
    (skip empty : Bool) (v : Json) (rest : List Json)
    → (empty ≡ false → IsKnown (text_of (codes "outboundTag") v))
    → KnownRules rest
    → KnownRules (if skip then rest else if not empty then v ∷ rest else rest)
known_step true empty v rest h k = k
known_step false true v rest h k = k
known_step false false v rest h k = (h refl, k)

KnownRules-field_rules : (rules : List RoutingRule) → KnownRules (field_rules rules)
unfolding field_rules
KnownRules-field_rules [] = tt
KnownRules-field_rules (r ∷ rules) =
    known_step (not r.enabled) (is_empty_object (field_rule r)) (obj (field_rule r))
      (field_rules rules) (field_rule-IsKnown r) (KnownRules-field_rules rules)

IsKnown-default : IsKnown (text_of (codes "outboundTag") (obj default_rule))
unfolding default_rule contains value insert text_eq text_lt
IsKnown-default = refl

All-map {ℓ κ} :
    {A B : Type ℓ} (P : B → Type κ) (f : A → B) (xs : List A)
    → All (λ x. P (f x)) xs
    → All P (map f xs)
All-map P f [] h = tt
All-map P f (x ∷ xs) (p, h) = (p, All-map P f xs h)

-- The routing object of a profile, or none.
abbrev IsRouting : Fields → Type 0
IsRouting f = KnownRules (to_array (value f (codes "rules")))

generate-IsRouting : (p : RoutingProfile) → IsRouting (generate p)
unfolding generate value insert text_eq text_lt
generate-IsRouting p =
    subst KnownRules
      (sym (items-of_list (field_rules (stable_sort p.rules) ++ obj default_rule ∷ [])))
      (All-append (λ v. IsKnown (text_of (codes "outboundTag") v))
        (field_rules (stable_sort p.rules)) (obj default_rule ∷ [])
        (KnownRules-field_rules (stable_sort p.rules)) (IsKnown-default, tt))

routing_of-IsRouting : (o : Option RoutingProfile) → IsRouting (routing_of o)
unfolding routing_of value
routing_of-IsRouting none = tt
routing_of-IsRouting (some p) = generate-IsRouting p

abbrev HasTags : Fields → Type 0
HasTags f = (outbound_tags f ≡ three_tags) × All IsKnown (rule_tags f)

module _ (outbound : Fields) (tagged : text_of (codes "tag") (obj outbound) ≡ codes "proxy")
    (port : ℤ) where
  base-outbounds : outbound_tags (build_base_config outbound port) ≡ three_tags
  unfolding outbound_tags build_base_config direct_outbound block_outbound value insert text_eq
      text_lt
  base-outbounds = ap (λ t. t ∷ codes "direct" ∷ codes "block" ∷ []) tagged

  base-rules : IsRouting (to_object (value (build_base_config outbound port) (codes "routing")))
  unfolding build_base_config value insert text_eq text_lt
  base-rules = (IsKnown-default, tt)

  base-HasTags : HasTags (build_base_config outbound port)
  unfolding rule_tags
  base-HasTags = (base-outbounds, All-map IsKnown (text_of (codes "outboundTag")) _ base-rules)

  full-values :
      (routing dns : Fields)
      → let f = build_full_config outbound port routing dns in
        let g = build_base_config outbound port in
        (value f (codes "outbounds") ≡ value g (codes "outbounds"))
        × (value f (codes "routing")
            ≡ (if is_empty_object routing then value g (codes "routing") else obj routing))
  unfolding build_full_config text_eq
  full-values routing dns =
      let g = build_base_config outbound port in
      let h = insert (codes "routing") (obj routing) g in
      ground (
        arith,
        value-insert (codes "routing") (codes "outbounds") (obj routing) g,
        value-insert (codes "routing") (codes "routing") (obj routing) g,
        value-insert (codes "dns") (codes "outbounds") (obj dns) g,
        value-insert (codes "dns") (codes "routing") (obj dns) g,
        value-insert (codes "dns") (codes "outbounds") (obj dns) h,
        value-insert (codes "dns") (codes "routing") (obj dns) h,
      )

  full-IsRouting :
      (routing : Fields) (b : Bool)
      → IsRouting routing
      → IsRouting (
          to_object
            (if b then value (build_base_config outbound port) (codes "routing") else obj routing))
  full-IsRouting routing true h = base-rules
  full-IsRouting routing false h = h

  full-HasTags :
      (routing dns : Fields)
      → IsRouting routing
      → HasTags (build_full_config outbound port routing dns)
  unfolding rule_tags outbound_tags
  full-HasTags routing dns h = (
    ap (λ v. map (text_of (codes "tag")) (to_array v)) (full-values routing dns).0 ∙ base-outbounds,
    All-map IsKnown (text_of (codes "outboundTag")) _ (
        subst (λ v. IsRouting (to_object v)) (sym (full-values routing dns).1)
          (full-IsRouting routing (is_empty_object routing) h)),
  )

generated_eq : (f g : Fields) → generated f ≡ generated g → f ≡ g
generated_eq f g h = ground (arith, h)

either :
    (b : Bool) (f g h : Fields)
    → HasTags f
    → HasTags g
    → (if b then generated f else generated g) ≡ generated h
    → HasTags h
either true f g h s t e = subst HasTags (generated_eq f h e) s
either false f g h s t e = subst HasTags (generated_eq g h e) t

module _ (from_base64 : Text → List ℕ) (p : Profile) where
  tagged_proxy :
      (outbound : Fields)
      → generate_outbound p from_base64 ≡ generated outbound
      → text_of (codes "tag") (obj outbound) ≡ codes "proxy"
  unfolding read_outbound outbound_of value
  tagged_proxy outbound e =
      ap (λ o. o.tag) (read_outbound-generate_outbound from_base64 p outbound e)

  module _ (port : ℤ) (routing : Option RoutingProfile) (dns : Option DnsProfile) where
    config_of-HasTags :
        (o : Generated) (f : Fields)
        → generate_outbound p from_base64 ≡ o
        → config_of o port (routing_of routing) (dns_of dns) ≡ generated f
        → HasTags f
    unfolding config_of
    config_of-HasTags (failed text) f e h = ground arith
    config_of-HasTags (generated end) f e h = ground arith
    config_of-HasTags (generated (field k v g)) f e h =
        let outbound = field k v g in
        let t = tagged_proxy outbound e in
        either (not (is_empty_object (routing_of routing)) || not (is_empty_object (dns_of dns)))
          (build_full_config outbound port (routing_of routing) (dns_of dns))
          (build_base_config outbound port) f
          (full-HasTags outbound t port (routing_of routing) (dns_of dns)
            (routing_of-IsRouting routing))
          (base-HasTags outbound t port) h

    generate_supported-HasTags :
        (s : Support) (f : Fields)
        → generate_supported from_base64 s p port routing dns ≡ generated f
        → HasTags f
    unfolding generate_supported
    generate_supported-HasTags (unsupported reason) f h = ground arith
    generate_supported-HasTags supported f h =
        config_of-HasTags (generate_outbound p from_base64) f refl h

    -- A configuration that is generated has the three outbounds "proxy", "direct" and "block", in
    -- this order, and every rule of its routing names one of them, whatever the routing profile.
    pub generate_config-HasTags :
        (f : Fields) → generate_config from_base64 p port routing dns ≡ generated f → HasTags f
    unfolding generate_config
    generate_config-HasTags f h = generate_supported-HasTags (supports_profile p) f h
