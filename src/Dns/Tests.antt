-- ===== src/Dns/Tests.antt =====
-- A run of the DNS generator on a server without an address.
use zarya.Prelude.{
  ◌≡◌, not, ◌+◌, ◌∷◌, [], length, select, true, false, none, codes, pos, if◌then◌else◌,
}
use zarya.Json.{value, is_empty_object, to_array}
use zarya.Dns.Profiles.{plain_ip, custom, use_system_default, DnsServer, DnsProfile}
use zarya.Dns.Generator.{enabled_server_count, should_generate_dns_object, generate}
use zarya.Dns.Servers.{is_bare_port, generate-servers}

abbrev bare : DnsServer
bare = record {
  id = codes "1";
  enabled = true;
  kind = plain_ip;
  address = codes " ";
  port = pos 53;
  domains = [];
  expect_ips = [];
  query_strategy = [];
  timeout_ms = pos 0;
  tag = [];
  skip_fallback = false;
  note = [];
}

abbrev profile : DnsProfile
profile = record {
  id = codes "d";
  name = codes "d";
  mode = custom;
  enabled = true;
  is_built_in = false;
  query_strategy = use_system_default;
  disable_cache = true;
  disable_fallback = false;
  disable_fallback_if_match = false;
  hosts = [];
  servers = bare ∷ record bare { address = codes "1.1.1.1" } ∷ [];
  created_at = none;
  updated_at = none;
}

generate-servers_example :
    (is_empty_object (generate profile) ≡ not (should_generate_dns_object profile))
    × (length (to_array (value (generate profile) (codes "servers"))) ≡ (
        if should_generate_dns_object profile
        then enabled_server_count profile + length (select is_bare_port profile.servers)
        else 0))
generate-servers_example = generate-servers profile
