-- ===== src/Dns/Generator.antt =====
-- src/dns/XrayDnsGenerator.cpp: the DNS object of the configuration of Xray.
use zarya.Prelude.{
  ℕ, Bool, true, false, not, ◌&&◌, ◌||◌, List, [], ◌∷◌, ◌++◌, length, select, Text, codes, trimmed,
  contains_char, is_empty, ◌==◌, pos, ltb_ℤ, number, arg, if◌then◌else◌,
}
use zarya.Json.{
  Json, undefined, bool, num, str, arr, obj, Fields, end, insert, insert_text, of_list,
  is_empty_object,
}
use zarya.Dns.Profiles.{
  DnsServerKind, plain_ip, fake_dns_placeholder, DnsProfileMode, system, DnsServer, DnsProfile,
  strategy_to_xray_value,
}
use zarya.Routing.Generator.{kept_values}
use zarya.Xray.Stream.{insert_texts}

abbrev pub is_plain_ip : DnsServerKind → Bool
is_plain_ip plain_ip = true
is_plain_ip _ = false

abbrev pub is_fake_dns : DnsServerKind → Bool
is_fake_dns fake_dns_placeholder = true
is_fake_dns _ = false

abbrev pub is_system : DnsProfileMode → Bool
is_system system = true
is_system _ = false

unfoldable pub effective_server_address : DnsServer → Text
effective_server_address s =
    let address = trimmed s.address in
    if ltb_ℤ (pos 0) s.port && not (contains_char address b':') && is_plain_ip s.kind
    then address ++ arg (codes ":%1") (number s.port ∷ [])
    else address

unfoldable pub is_simple_server_object : DnsServer → Bool
is_simple_server_object s =
    is_empty s.domains
    && is_empty s.expect_ips
    && is_empty (trimmed s.tag)
    && not (ltb_ℤ (pos 0) s.timeout_ms)
    && not s.skip_fallback
    && is_empty (trimmed s.query_strategy)

abbrev pub insert_true : Text → Bool → Fields → Fields
insert_true key false f = f
insert_true key true f = insert key (bool true) f

unfoldable pub server_object : DnsServer → Fields
server_object s =
    let base = insert (codes "address") (str (effective_server_address s)) end in
    let domained = insert_texts (codes "domains") (kept_values s.domains) base in
    let expected = insert_texts (codes "expectIPs") (kept_values s.expect_ips) domained in
    let tagged = insert_text (codes "tag") (trimmed s.tag) expected in
    let timed =
      if ltb_ℤ (pos 0) s.timeout_ms
      then insert (codes "timeoutMs") (num s.timeout_ms) tagged
      else tagged in
    insert_text (codes "queryStrategy") (trimmed s.query_strategy)
      (insert_true (codes "skipFallback") s.skip_fallback timed)

unfoldable pub server_to_json : DnsServer → Json
server_to_json s =
    if is_empty (effective_server_address s)
    then undefined
    else if is_simple_server_object s
    then str (effective_server_address s)
    else obj (server_object s)

-- An enabled server with an address that is no placeholder.
unfoldable pub is_counted : DnsServer → Bool
is_counted s = s.enabled && not (is_empty (trimmed s.address)) && not (is_fake_dns s.kind)

unfoldable pub enabled_server_count : DnsProfile → ℕ
enabled_server_count p = length (select is_counted p.servers)

unfoldable pub should_generate_dns_object : DnsProfile → Bool
should_generate_dns_object p =
    if not p.enabled
    then false
    else if is_system p.mode
    then false
    else not (enabled_server_count p == 0)

unfoldable pub hosts_of : List (Text × Text) → Fields → Fields
hosts_of [] f = f
hosts_of ((key, value) ∷ hosts) f =
    if not (is_empty (trimmed key)) && not (is_empty (trimmed value))
    then hosts_of hosts (insert (trimmed key) (str (trimmed value)) f)
    else hosts_of hosts f

-- What the loop over the servers appends for a value: a text or an object that is not empty.
abbrev pub appended : Json → List Json
appended (str s) = if is_empty s then [] else str s ∷ []
appended (obj f) = if is_empty_object f then [] else obj f ∷ []
appended _ = []

unfoldable pub servers_of : List DnsServer → List Json
servers_of [] = []
servers_of (s ∷ servers) =
    let rest = servers_of servers in
    if not s.enabled || is_fake_dns s.kind then rest else appended (server_to_json s) ++ rest

unfoldable pub dns_object : DnsProfile → Fields
dns_object p =
    let hosts = hosts_of p.hosts end in
    let hosted = if is_empty_object hosts then end else insert (codes "hosts") (obj hosts) end in
    let served = insert (codes "servers") (arr (of_list (servers_of p.servers))) hosted in
    let strategy =
      insert_text (codes "queryStrategy") (strategy_to_xray_value p.query_strategy) served in
    insert_true (codes "disableFallbackIfMatch") p.disable_fallback_if_match (
      insert_true (codes "disableFallback") p.disable_fallback
        (insert_true (codes "disableCache") p.disable_cache strategy))

unfoldable pub generate : DnsProfile → Fields
generate p = if should_generate_dns_object p then dns_object p else end
