-- ===== src/SingBox/DnsSection.antt =====
-- src/runtime/singbox/SingBoxDnsGenerator.cpp: the DNS section of the configuration.
use zarya.Prelude.{
  ℕ, suc, not, ◌||◌, List, [], ◌∷◌, ◌++◌, Text, codes, trimmed, is_empty, mid, pos, number, arg,
  if◌then◌else◌,
}
use zarya.Json.{Json, str, arr, obj, Fields, end, insert, of_list}
use zarya.Dns.Profiles.{
  DnsServerKind, do_h, DnsProfileMode, system, secure_remote, china_direct_global_remote, custom,
  DnsServer, DnsProfile,
}
use zarya.Dns.Generator.{is_fake_dns, effective_server_address}
use zarya.Subscriptions.Parser.{has_scheme}
use zarya.Xray.Outbounds.{one}
use zarya.SingBox.RuleSets.{
  SingBoxRuleSetContext, has_local_rule_set, geosite_tag_from_value, insert_tag,
}

unfoldable pub detour_for_server : DnsServerKind → Text
detour_for_server do_h = codes "proxy"
detour_for_server _ = codes "direct"

unfoldable pub make_server_tag : ℕ → DnsServer → Text
make_server_tag index s =
    if not (is_empty (trimmed s.tag))
    then trimmed s.tag
    else arg (codes "dns-%1") (number (pos index) ∷ [])

unfoldable pub tagged_server : Text → Text → Text → Fields
tagged_server tag address detour =
    insert (codes "detour") (str detour)
      (insert (codes "address") (str address) (insert (codes "tag") (str tag) end))

-- The object that a domain is matched by.
unfoldable pub domain_matcher : Text → Fields
domain_matcher text =
    if has_scheme text (codes "geosite:")
    then insert (codes "geosite") (one (str (trimmed (mid text 8)))) end
    else if has_scheme text (codes "domain:")
    then insert (codes "domain_suffix") (one (str (trimmed (mid text 7)))) end
    else if has_scheme text (codes "full:")
    then insert (codes "domain") (one (str (trimmed (mid text 5)))) end
    else insert (codes "domain_suffix") (one (str text)) end

unfoldable pub translate_domain_matchers : List Text → List Fields
translate_domain_matchers [] = []
translate_domain_matchers (domain ∷ domains) =
    let rest = translate_domain_matchers domains in
    if is_empty (trimmed domain) then rest else domain_matcher (trimmed domain) ∷ rest

-- What is generated, with the tags of the rule sets and the warnings.
pub record Section : Type 0 where
  pub dns : Fields
  pub used : List Text
  pub warnings : List Text

unfoldable pub system_section : List Text → List Text → Section
system_section used warnings =
    let local_server =
      insert (codes "address") (str (codes "local"))
        (insert (codes "tag") (str (codes "local")) end) in
    record {
      dns =
          insert (codes "final") (str (codes "local"))
            (insert (codes "servers") (one (obj local_server)) end);
      used = used;
      warnings =
          warnings
          ++ codes "System DNS in TUN mode may use OS DNS and may not prevent DNS leaks." ∷ [];
    }

unfoldable pub secure_remote_section : List Text → List Text → Section
secure_remote_section used warnings =
    let remote_1 =
      tagged_server (codes "remote-1") (codes "https://cloudflare-dns.com/dns-query")
        (codes "proxy") in
    let remote_2 =
      tagged_server (codes "remote-2") (codes "https://dns.google/dns-query") (codes "proxy") in
    record {
      dns =
          insert (codes "final") (str (codes "remote-1"))
            (insert (codes "servers") (arr (of_list (obj remote_1 ∷ obj remote_2 ∷ []))) end);
      used = used;
      warnings = warnings;
    }

-- A rule for a value of geosite: by the rule set if there is one, or else by the native tag.
unfoldable pub geosite_rule : SingBoxRuleSetContext → Text → Text → List Text → List Text → Section
geosite_rule context value server used warnings =
    let tag = geosite_tag_from_value value in
    let absent = arg (codes "DNS rule set %1 missing; using native geosite tag.") (tag ∷ []) in
    if has_local_rule_set context tag
    then record {
      dns = insert (codes "server") (str server) (insert (codes "rule_set") (one (str tag)) end);
      used = insert_tag used tag;
      warnings = warnings;
    }
    else record {
      dns = insert (codes "server") (str server) (insert (codes "geosite") (one (str value)) end);
      used = used;
      warnings = warnings ++ absent ∷ [];
    }

unfoldable pub china_section : SingBoxRuleSetContext → List Text → List Text → Section
china_section context used warnings =
    let local_cn = tagged_server (codes "local-cn") (codes "223.5.5.5") (codes "direct") in
    let remote =
      tagged_server (codes "remote") (codes "https://cloudflare-dns.com/dns-query")
        (codes "proxy") in
    let cn = geosite_rule context (codes "cn") (codes "local-cn") used warnings in
    let global =
      geosite_rule context (codes "geolocation-!cn") (codes "remote") cn.used cn.warnings in
    record {
      dns = insert (codes "final") (str (codes "remote")) (
          insert (codes "rules") (arr (of_list (obj cn.dns ∷ obj global.dns ∷ [])))
            (insert (codes "servers") (arr (of_list (obj local_cn ∷ obj remote ∷ []))) end));
      used = global.used;
      warnings = global.warnings;
    }

-- The state of the loop over the servers of a custom profile; `final_tag` is the first tag.
pub record CustomDns : Type 0 where
  pub servers : List Json
  pub rules : List Json
  pub final_tag : Text
  pub index : ℕ
  pub warnings : List Text

-- serverObject warns of addresses that it cannot map.
unfoldable pub server_warnings : DnsServer → Text → List Text
server_warnings s tag =
    if is_empty s.expect_ips
    then []
    else arg (codes "expectIPs is not mapped to sing-box DNS for server %1.") (tag ∷ []) ∷ []

unfoldable pub add_matcher_rule : Text → List Fields → CustomDns → CustomDns
add_matcher_rule tag [] c = c
add_matcher_rule tag (m ∷ []) c = record c {
  rules = c.rules ++ obj (insert (codes "server") (str tag) m) ∷ [];
}
add_matcher_rule tag (m ∷ n ∷ ms) c = record c {
  rules = c.rules ++ obj (insert (codes "server") (str tag) m) ∷ [];
  warnings =
      c.warnings
      ++ arg
          (codes
            "Multiple domain matchers on DNS server %1 were simplified to the first matcher only.")
          (tag ∷ [])
        ∷ [];
}

unfoldable pub with_server : ℕ → DnsServer → CustomDns → CustomDns
with_server index s c =
    let tag = make_server_tag index s in
    let server = tagged_server tag (effective_server_address s) (detour_for_server s.kind) in
    record c {
      servers = c.servers ++ obj server ∷ [];
      final_tag = if is_empty c.final_tag then tag else c.final_tag;
      index = index;
      warnings = c.warnings ++ server_warnings s tag;
    }

unfoldable pub add_custom_server : DnsServer → CustomDns → CustomDns
add_custom_server s c =
    let index = suc c.index in
    if not s.enabled || is_fake_dns s.kind
    then c
    else if is_empty (trimmed s.address)
    then record c { index = index }
    else add_matcher_rule (make_server_tag index s) (translate_domain_matchers s.domains)
        (with_server index s c)

unfoldable pub add_custom_servers : List DnsServer → CustomDns → CustomDns
add_custom_servers [] c = c
add_custom_servers (s ∷ servers) c = add_custom_servers servers (add_custom_server s c)

unfoldable pub custom_object : CustomDns → Fields
custom_object c =
    let served = insert (codes "servers") (arr (of_list c.servers)) end in
    let ruled =
      if is_empty c.rules then served else insert (codes "rules") (arr (of_list c.rules)) served in
    insert (codes "final") (str (if is_empty c.final_tag then codes "dns-1" else c.final_tag)) ruled

unfoldable pub custom_section : List DnsServer → List Text → List Text → Section
custom_section servers used warnings =
    let c =
      add_custom_servers servers
        (record { servers = []; rules = []; final_tag = []; index = 0; warnings = warnings }) in
    if is_empty c.servers
    then record {
      dns = end;
      used = used;
      warnings = c.warnings ++ codes "Custom DNS profile has no enabled servers." ∷ [];
    }
    else record { dns = custom_object c; used = used; warnings = c.warnings }

abbrev pub section_for :
    SingBoxRuleSetContext → DnsProfile → DnsProfileMode → List Text → List Text → Section
section_for context profile system used warnings = system_section used warnings
section_for context profile secure_remote used warnings = secure_remote_section used warnings
section_for context profile china_direct_global_remote used warnings =
    china_section context used warnings
section_for context profile custom used warnings = custom_section profile.servers used warnings

unfoldable pub generate_dns : SingBoxRuleSetContext → DnsProfile → List Text → List Text → Section
generate_dns context profile used warnings =
    let disabled : Section = record {
      dns = end;
      used = used;
      warnings = warnings ++ codes "DNS profile is disabled." ∷ [];
    } in
    if not profile.enabled then disabled else section_for context profile profile.mode used warnings
