-- ===== src/SingBox/DnsRules.antt =====
-- src/runtime/singbox/SingBoxDnsGenerator.cpp: the rule sets that the rules of the DNS refer to.
use zarya.Prelude.{
  suc, ◌≡◌, refl, sym, subst, ◌∙◌, ap, Bool, true, false, not, ◌||◌, List, [], ◌∷◌, map, All,
  All-append, All-imply, Text, codes, text_eq, trimmed, is_empty, if◌then◌else◌, arith,
}
use zarya.Json.{
  Json, str, arr, Fields, end, text_lt, value, insert, to_string, to_object, to_array,
  items-of_list, of_list, value-insert,
}
use zarya.Dns.Profiles.{
  DnsProfileMode, system, secure_remote, china_direct_global_remote, custom, DnsServer, DnsProfile,
}
use zarya.Dns.Generator.{is_fake_dns}
use zarya.SingBox.RuleSets.{SingBoxRuleSetContext, has_local_rule_set, geosite_tag_from_value}
use zarya.SingBox.DnsSection.{
  Section, system_section, secure_remote_section, geosite_rule, china_section, domain_matcher,
  translate_domain_matchers, CustomDns, add_matcher_rule, add_custom_server, add_custom_servers,
  make_server_tag, with_server, custom_object, custom_section, section_for, generate_dns,
}
use zarya.SingBox.References.{
  Has, Grows, Grows-refl, Grows-trans, rule_sets_of, Has-insert_tag, Grows-insert_tag,
}

abbrev pub dns_rules : Fields → List Json
dns_rules dns = to_array (value dns (codes "rules"))

abbrev pub Refers : List Text → Json → Type 0
Refers tags v = All (Has tags) (rule_sets_of (to_object v))

abbrev pub IsDns : SingBoxRuleSetContext → List Text → Section → Type 0
IsDns context used d = Grows context used d.used × All (Refers d.used) (dns_rules d.dns)

-- No rule of a custom profile refers to a rule set.
abbrev RefersNone : Json → Type 0
RefersNone v = rule_sets_of (to_object v) ≡ []

server-rule_sets :
    (server : Text) (f : Fields)
    → rule_sets_of (insert (codes "server") (str server) f) ≡ rule_sets_of f
unfolding text_eq
server-rule_sets server f =
    ap (λ v. map to_string (to_array v))
      (value-insert (codes "server") (codes "rule_set") (str server) f)

domain_matcher-rule_sets : (text : Text) → rule_sets_of (domain_matcher text) ≡ []
unfolding domain_matcher value insert text_eq text_lt
domain_matcher-rule_sets text = ground arith

matchers_when :
    (b : Bool) (text : Text) (rest : List Fields)
    → All (λ f. rule_sets_of f ≡ []) rest
    → All (λ f. rule_sets_of f ≡ []) (if b then rest else domain_matcher text ∷ rest)
matchers_when true text rest h = h
matchers_when false text rest h = (domain_matcher-rule_sets text, h)

matchers-rule_sets :
    (domains : List Text) → All (λ f. rule_sets_of f ≡ []) (translate_domain_matchers domains)
unfolding translate_domain_matchers
matchers-rule_sets [] = tt
matchers-rule_sets (domain ∷ domains) =
    matchers_when (is_empty (trimmed domain)) (trimmed domain) (translate_domain_matchers domains)
      (matchers-rule_sets domains)

add_matcher_rule-none :
    (tag : Text) (ms : List Fields) (c : CustomDns)
    → All (λ f. rule_sets_of f ≡ []) ms
    → All RefersNone c.rules
    → All RefersNone (add_matcher_rule tag ms c).rules
unfolding add_matcher_rule
add_matcher_rule-none tag [] c h k = k
add_matcher_rule-none tag (m ∷ []) c (p, h) k =
    All-append RefersNone c.rules _ k (server-rule_sets tag m ∙ p, tt)
add_matcher_rule-none tag (m ∷ n ∷ ms) c (p, h) k =
    All-append RefersNone c.rules _ k (server-rule_sets tag m ∙ p, tt)

custom_when :
    (b : Bool) (c d : CustomDns)
    → All RefersNone c.rules
    → All RefersNone d.rules
    → All RefersNone (if b then c else d).rules
custom_when true c d h k = h
custom_when false c d h k = k

add_custom_server-none :
    (s : DnsServer) (c : CustomDns)
    → All RefersNone c.rules
    → All RefersNone (add_custom_server s c).rules
unfolding add_custom_server with_server
add_custom_server-none s c h =
    let tag = make_server_tag (suc c.index) s in
    let matchers = translate_domain_matchers s.domains in
    let d = with_server (suc c.index) s c in
    let skipped : CustomDns = record c { index = suc c.index } in
    let added = add_matcher_rule-none tag matchers d (matchers-rule_sets s.domains) h in
    custom_when (not s.enabled || is_fake_dns s.kind) c _ h
      (custom_when (is_empty (trimmed s.address)) skipped (add_matcher_rule tag matchers d) h added)

add_custom_servers-none :
    (servers : List DnsServer) (c : CustomDns)
    → All RefersNone c.rules
    → All RefersNone (add_custom_servers servers c).rules
unfolding add_custom_servers
add_custom_servers-none [] c h = h
add_custom_servers-none (s ∷ servers) c h =
    add_custom_servers-none servers (add_custom_server s c) (add_custom_server-none s c h)

ruled :
    (rules : List Json) (final : Text) (servers : Json)
    → dns_rules (
        insert (codes "final") (str final) (
          if is_empty rules
          then insert (codes "servers") servers end
          else insert (codes "rules") (arr (of_list rules)) (insert (codes "servers") servers end)))
      ≡ rules
unfolding value insert text_eq text_lt
ruled [] final servers = refl
ruled (v ∷ rules) final servers = items-of_list (v ∷ rules)

custom_object-rules : (c : CustomDns) → dns_rules (custom_object c) ≡ c.rules
unfolding custom_object
custom_object-rules c =
    ruled c.rules (if is_empty c.final_tag then codes "dns-1" else c.final_tag)
      (arr (of_list c.servers))

module _ (context : SingBoxRuleSetContext) where
  section_when :
      (b : Bool) (used : List Text) (x y : Section)
      → IsDns context used x
      → IsDns context used y
      → IsDns context used (if b then x else y)
  section_when true used x y h k = h
  section_when false used x y h k = k

  none-Refers :
      (used : List Text) (rules : List Json) → All RefersNone rules → All (Refers used) rules
  none-Refers used rules h =
      All-imply RefersNone (Refers used) rules (λ v e. subst (All (Has used)) (sym e) tt) h

  start : List Text → CustomDns
  start warnings = record {
    servers = [];
    rules = [];
    final_tag = [];
    index = 0;
    warnings = warnings;
  }

  custom-IsDns :
      (servers : List DnsServer) (used warnings : List Text)
      → IsDns context used (custom_section servers used warnings)
  unfolding custom_section start value
  custom-IsDns servers used warnings =
      let c = add_custom_servers servers (start warnings) in
      section_when (is_empty c.servers) used _ _ (Grows-refl context used, tt)
        (
          Grows-refl context used,
          subst (All (Refers used)) (sym (custom_object-rules c))
              (none-Refers used c.rules (add_custom_servers-none servers (start warnings) tt)),
        )

  system-IsDns : (used warnings : List Text) → IsDns context used (system_section used warnings)
  unfolding system_section value insert text_eq text_lt
  system-IsDns used warnings = (Grows-refl context used, tt)

  secure_remote-IsDns :
      (used warnings : List Text) → IsDns context used (secure_remote_section used warnings)
  unfolding secure_remote_section value insert text_eq text_lt
  secure_remote-IsDns used warnings = (Grows-refl context used, tt)

  -- A rule for a value of geosite, as an object of its own.
  IsRule : List Text → Section → Type 0
  IsRule used d = Grows context used d.used × All (Has d.used) (rule_sets_of d.dns)

  IsRule-when :
      (b : Bool) (used : List Text) (x y : Section)
      → (b ≡ true → IsRule used x)
      → IsRule used y
      → IsRule used (if b then x else y)
  IsRule-when true used x y h k = h refl
  IsRule-when false used x y h k = k

  geosite_rule-IsRule :
      (geo server : Text) (used warnings : List Text)
      → IsRule used (geosite_rule context geo server used warnings)
  unfolding geosite_rule IsRule value insert text_eq text_lt
  geosite_rule-IsRule geo server used warnings =
      let tag = geosite_tag_from_value geo in
      IsRule-when (has_local_rule_set context tag) used _ _
        (λ h. (Grows-insert_tag context used tag h, (Has-insert_tag used tag, tt)))
        (Grows-refl context used, tt)

  china-IsDns :
      (used warnings : List Text) → IsDns context used (china_section context used warnings)
  unfolding china_section IsRule value insert text_eq text_lt
  china-IsDns used warnings =
      let cn = geosite_rule context (codes "cn") (codes "local-cn") used warnings in
      let global =
        geosite_rule context (codes "geolocation-!cn") (codes "remote") cn.used cn.warnings in
      let (g, h) = geosite_rule-IsRule (codes "cn") (codes "local-cn") used warnings in
      let (k, l) =
        geosite_rule-IsRule (codes "geolocation-!cn") (codes "remote") cn.used cn.warnings in
      (
        Grows-trans context used cn.used global.used g k,
        (All-imply (Has cn.used) (Has global.used) (rule_sets_of cn.dns) k.0 h, (l, tt)),
      )

  section_for-IsDns :
      (profile : DnsProfile) (mode : DnsProfileMode) (used warnings : List Text)
      → IsDns context used (section_for context profile mode used warnings)
  section_for-IsDns profile system used warnings = system-IsDns used warnings
  section_for-IsDns profile secure_remote used warnings = secure_remote-IsDns used warnings
  section_for-IsDns profile china_direct_global_remote used warnings = china-IsDns used warnings
  section_for-IsDns profile custom used warnings = custom-IsDns profile.servers used warnings

  pub generate_dns-IsDns :
      (profile : DnsProfile) (used warnings : List Text)
      → IsDns context used (generate_dns context profile used warnings)
  unfolding generate_dns value
  generate_dns-IsDns profile used warnings =
      section_when (not profile.enabled) used _
        (section_for context profile profile.mode used warnings) (Grows-refl context used, tt)
        (section_for-IsDns profile profile.mode used warnings)
