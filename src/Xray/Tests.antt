-- ===== src/Xray/Tests.antt =====
-- Runs of the generator of Xray configurations on a VLESS profile with REALITY.
use zarya.Prelude.{
  ℕ, ◌≡◌, refl, true, ◌&&◌, List, [], ◌∷◌, All, none, Text, codes, text_eq, to_lower, trimmed,
  eq_ignore_case, contains, parse_int, last_index_of, left, contains_char, starts_with, pos,
}
use zarya.Json.{Fields, end, insert, text_lt}
use zarya.Profiles.Profile.{
  vless, Profile, blank, is_valid, is_security_reality, effective_server_name,
  has_unsupported_feature,
}
use zarya.Xray.Support.{
  normalized_network, is_network_supported, supports_vless, supports_vless_security,
  supports_protocol, supports_profile,
}
use zarya.Xray.Stream.{
  Generated, generated, failed, apply_transport_layer, apply_reality, apply_security_layer,
  generate,
}
use zarya.Xray.Outbounds.{
  wrap_proxy_outbound, generate_vless_outbound, generate_for, generate_outbound,
}
use zarya.Xray.Config.{
  build_base_config, routing_of, dns_of, config_of, generate_supported, generate_config,
}
use zarya.Xray.Address.{split_host_port, host_and_port}
use zarya.Xray.Success.{succeeded, is_supported, rest, succeeded-generate_config}
use zarya.Xray.Tags.{outbound_tags, rule_tags, generate_config-HasTags}

abbrev no_bytes : Text → List ℕ
no_bytes text = []

abbrev reality : Profile
reality = record blank {
  name = codes "home";
  address = codes " h ";
  uuid_password = codes "u";
  security = codes "reality";
  public_key = codes "k";
  server_name = codes "s";
}

-- The object that is generated, if any.
abbrev fields_of : Generated → Fields
fields_of (generated f) = f
fields_of (failed text) = end

abbrev outbound : Fields
outbound = fields_of (generate_outbound reality no_bytes)

-- The endpoint that is written for an IPv6 address.
ipv6_unreadable : split_host_port (codes "2001:db8::1:51820") ≡ none
unfolding split_host_port host_and_port parse_int last_index_of left contains_char starts_with
ipv6_unreadable = refl

succeeded-generate_config_example :
    succeeded (generate_config no_bytes reality (pos 10808) none none)
    ≡ (is_supported (supports_profile reality) && rest no_bytes reality vless)
succeeded-generate_config_example = succeeded-generate_config no_bytes reality (pos 10808) none none

abbrev config : Fields
config = fields_of (generate_config no_bytes reality (pos 10808) none none)

config_generated : generate_config no_bytes reality (pos 10808) none none ≡ generated config
unfolding generate_config generate_supported supports_profile supports_protocol supports_vless
    supports_vless_security is_network_supported is_valid has_unsupported_feature config_of
    routing_of dns_of build_base_config wrap_proxy_outbound insert generate_outbound generate_for
    generate_vless_outbound generate normalized_network apply_transport_layer apply_security_layer
    apply_reality is_security_reality effective_server_name eq_ignore_case text_eq text_lt to_lower
    trimmed
config_generated = refl

generate_config-HasTags_example :
    (outbound_tags config ≡ codes "proxy" ∷ codes "direct" ∷ codes "block" ∷ [])
    × All
        (λ tag. contains (codes "proxy" ∷ codes "direct" ∷ codes "block" ∷ []) tag ≡ true)
        (rule_tags config)
generate_config-HasTags_example =
    generate_config-HasTags no_bytes reality (pos 10808) none none config config_generated
