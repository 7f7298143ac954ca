-- ===== src/Xray/Config.antt =====
-- src/core/XrayAdapter.cpp, generateConfigInternal, and src/core/XrayConfigBuilder.cpp: the whole
-- configuration.
use zarya.Prelude.{
  ℕ, true, not, ◌||◌, List, [], ◌∷◌, Option, none, some, Text, codes, is_empty, ℤ, if◌then◌else◌,
}
use zarya.Json.{bool, num, str, arr, obj, Fields, end, insert, of_list, is_empty_object}
use zarya.Profiles.Profile.{Profile}
use zarya.Routing.Profiles.{RoutingProfile}
use zarya.Routing.Generator.{generate, default_rule}
use zarya.Dns.Profiles.{DnsProfile}
use zarya.Dns.Generator.{should_generate_dns_object}
use zarya.Xray.Support.{Support, supported, unsupported, supports_profile}
use zarya.Xray.Stream.{Generated, generated, failed}
use zarya.Xray.Outbounds.{one, generate_outbound}
use zarya.Dns

unfoldable pub direct_outbound : Fields
direct_outbound =
    insert (codes "protocol") (str (codes "freedom"))
      (insert (codes "tag") (str (codes "direct")) end)

unfoldable pub block_outbound : Fields
block_outbound =
    insert (codes "protocol") (str (codes "blackhole"))
      (insert (codes "tag") (str (codes "block")) end)

-- The inbound for applications on this machine alone.
unfoldable pub mixed_inbound : ℤ → Fields
mixed_inbound mixed_port = insert (codes "settings") (obj (insert (codes "udp") (bool true) end)) (
    insert (codes "tag") (str (codes "mixed-in")) (
      insert (codes "protocol") (str (codes "mixed")) (
        insert (codes "port") (num mixed_port)
          (insert (codes "listen") (str (codes "127.0.0.1")) end))))

unfoldable pub build_base_config : Fields → ℤ → Fields
build_base_config proxy_outbound mixed_port =
    let outbounds = obj proxy_outbound ∷ obj direct_outbound ∷ obj block_outbound ∷ [] in
    let routing =
      insert (codes "rules") (one (obj default_rule))
        (insert (codes "domainStrategy") (str (codes "AsIs")) end) in
    insert (codes "routing") (obj routing) (
      insert (codes "outbounds") (arr (of_list outbounds)) (
        insert (codes "inbounds") (one (obj (mixed_inbound mixed_port)))
          (insert (codes "log") (obj (insert (codes "loglevel") (str (codes "warning")) end)) end)))

abbrev pub insert_object : Text → Fields → Fields → Fields
insert_object key object f = if is_empty_object object then f else insert key (obj object) f

unfoldable pub build_full_config : Fields → ℤ → Fields → Fields → Fields
build_full_config proxy_outbound mixed_port routing dns =
    insert_object (codes "dns") dns
      (insert_object (codes "routing") routing (build_base_config proxy_outbound mixed_port))

-- The routing and the DNS objects of the profiles that are given.
unfoldable pub routing_of : Option RoutingProfile → Fields
routing_of none = end
routing_of (some routing_profile) = generate routing_profile

unfoldable pub dns_of : Option DnsProfile → Fields
dns_of none = end
dns_of (some dns_profile) =
    if should_generate_dns_object dns_profile then Dns.Generator.generate dns_profile else end

-- The configuration around an outbound: the long form where routing or DNS is given.
unfoldable pub config_of : Generated → ℤ → Fields → Fields → Generated
config_of (failed error) mixed_port routing dns =
    failed (if is_empty error then codes "Failed to generate outbound." else error)
config_of (generated outbound) mixed_port routing dns =
    if is_empty_object outbound
    then failed (codes "Failed to generate outbound.")
    else if not (is_empty_object routing) || not (is_empty_object dns)
    then generated (build_full_config outbound mixed_port routing dns)
    else generated (build_base_config outbound mixed_port)

module _ (from_base64 : Text → List ℕ) where
  unfoldable pub generate_supported :
      Support → Profile → ℤ → Option RoutingProfile → Option DnsProfile → Generated
  generate_supported (unsupported reason) p mixed_port routing_profile dns_profile = failed reason
  generate_supported supported p mixed_port routing_profile dns_profile =
      config_of (generate_outbound p from_base64) mixed_port (routing_of routing_profile)
        (dns_of dns_profile)

  -- generateConfigInternal; the four forms of generateConfig call it with or without the profiles.
  unfoldable pub generate_config :
      Profile → ℤ → Option RoutingProfile → Option DnsProfile → Generated
  generate_config p mixed_port routing_profile dns_profile =
      generate_supported (supports_profile p) p mixed_port routing_profile dns_profile

unfoldable pub arguments_for_config : Text → List Text
arguments_for_config config_path = codes "run" ∷ codes "-config" ∷ config_path ∷ []
