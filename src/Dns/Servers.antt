-- ===== src/Dns/Servers.antt =====
-- src/dns/XrayDnsGenerator.cpp: how many servers are generated.
use zarya.Prelude.{
  ℕ, ◌+◌, map, ◌≡◌, refl, ◌∙◌, ap, Bool, true, false, not, ◌&&◌, List, [], ◌∷◌, ◌++◌, length,
  length-append, select, Text, codes, text_eq, trimmed, is_empty, contains_char, ltb_ℤ, pos, number,
  arg, if◌then◌else◌, arith,
}
use zarya.Json.{
  Json, bool, num, str, arr, Fields, end, value, insert, insert_text, is_empty_object,
  is_empty_object-insert, to_array, of_list, items-of_list, value-insert,
}
use zarya.Routing.Generator.{kept_values}
use zarya.Xray.Stream.{insert_texts}
use zarya.Dns.Profiles.{
  DnsServerKind, plain_ip, do_h, local, fake_dns_placeholder, DnsServer, DnsProfile,
  strategy_to_xray_value,
}
use zarya.Dns.Generator.{
  is_plain_ip, is_fake_dns, effective_server_address, insert_true, server_object, server_to_json,
  is_counted, enabled_server_count, should_generate_dns_object, appended, servers_of, dns_object,
  generate,
}

-- An enabled plain server with a port and a blank address.
abbrev pub is_bare_port : DnsServer → Bool
is_bare_port s =
    s.enabled && is_plain_ip s.kind && is_empty (trimmed s.address) && ltb_ℤ (pos 0) s.port

port_text : (t : Text) → is_empty (arg (codes ":%1") (t ∷ [])) ≡ false
unfolding arg
port_text t = refl

is_empty-append : (s t : Text) → is_empty (s ++ t) ≡ (is_empty s && is_empty t)
is_empty-append [] t = refl
is_empty-append (c ∷ s) t = refl

no_char : (s : Text) (c : ℕ) → is_empty s ≡ true → contains_char s c ≡ false
unfolding contains_char
no_char [] c h = refl
no_char (d ∷ s) c h = ground (arith, h)

-- Where the address that is used is blank.
blank_address :
    (s : DnsServer)
    → is_empty (effective_server_address s)
      ≡ (is_empty (trimmed s.address) && not (is_plain_ip s.kind && ltb_ℤ (pos 0) s.port))
unfolding effective_server_address
blank_address s = ground (
  arith,
  is_empty-append (trimmed s.address) (arg (codes ":%1") (number s.port ∷ [])),
  port_text (number s.port),
  no_char (trimmed s.address) b':',
)

-- Each write leaves an object with a field.
IsFilled : Fields → Type 0
IsFilled f = is_empty_object f ≡ false

insert_text-IsFilled :
    (key text : Text) (f : Fields) → IsFilled f → IsFilled (insert_text key text f)
unfolding insert_text IsFilled
insert_text-IsFilled key text f h = ground (arith, h, is_empty_object-insert key (str text) f)

insert_texts-IsFilled :
    (key : Text) (texts : List Text) (f : Fields) → IsFilled f → IsFilled (insert_texts key texts f)
unfolding insert_texts IsFilled
insert_texts-IsFilled key texts f h =
    ground (arith, h, is_empty_object-insert key (arr (of_list (map str texts))) f)

insert_true-IsFilled :
    (key : Text) (b : Bool) (f : Fields) → IsFilled f → IsFilled (insert_true key b f)
unfolding IsFilled
insert_true-IsFilled key false f h = h
insert_true-IsFilled key true f h = is_empty_object-insert key (bool true) f

insert_if-IsFilled :
    (b : Bool) (key : Text) (v : Json) (f : Fields)
    → IsFilled f
    → IsFilled (if b then insert key v f else f)
unfolding IsFilled
insert_if-IsFilled true key v f h = is_empty_object-insert key v f
insert_if-IsFilled false key v f h = h

server_object-IsFilled : (s : DnsServer) → IsFilled (server_object s)
unfolding server_object IsFilled
server_object-IsFilled s =
    insert_text-IsFilled (codes "queryStrategy") (trimmed s.query_strategy) _ (
      insert_true-IsFilled (codes "skipFallback") s.skip_fallback _ (
        insert_if-IsFilled (ltb_ℤ (pos 0) s.timeout_ms) (codes "timeoutMs") (num s.timeout_ms) _ (
          insert_text-IsFilled (codes "tag") (trimmed s.tag) _ (
            insert_texts-IsFilled (codes "expectIPs") (kept_values s.expect_ips) _ (
              insert_texts-IsFilled (codes "domains") (kept_values s.domains) _ (
                is_empty_object-insert (codes "address") (str (effective_server_address s))
                  end))))))

length-appended :
    (s : DnsServer)
    → length (appended (server_to_json s))
      ≡ (if is_empty (effective_server_address s) then 0 else 1)
unfolding server_to_json IsFilled
length-appended s = ground (arith, server_object-IsFilled s)

kinds : (k : DnsServerKind) → (is_plain_ip k && is_fake_dns k) ≡ false
kinds plain_ip = refl
kinds do_h = refl
kinds local = refl
kinds fake_dns_placeholder = refl

length-servers_of :
    (servers : List DnsServer)
    → length (servers_of servers)
      ≡ length (select is_counted servers) + length (select is_bare_port servers)
unfolding servers_of select is_counted
length-servers_of [] = refl
length-servers_of (s ∷ servers) = ground (
  arith,
  length-append (appended (server_to_json s)) (servers_of servers),
  length-appended s,
  blank_address s,
  kinds s.kind,
  length-servers_of servers,
)

value-insert_true :
    (key : Text) (b : Bool) (f : Fields)
    → text_eq key (codes "servers") ≡ false
    → value (insert_true key b f) (codes "servers") ≡ value f (codes "servers")
value-insert_true key false f h = refl
value-insert_true key true f h = ground (arith, h, value-insert key (codes "servers") (bool true) f)

value-strategy :
    (text : Text) (f : Fields)
    → value (insert_text (codes "queryStrategy") text f) (codes "servers")
      ≡ value f (codes "servers")
unfolding insert_text text_eq
value-strategy text f =
    ground (arith, value-insert (codes "queryStrategy") (codes "servers") (str text) f)

dns_object-servers :
    (p : DnsProfile) → to_array (value (dns_object p) (codes "servers")) ≡ servers_of p.servers
unfolding dns_object text_eq
dns_object-servers p =
    ap to_array (
      value-insert_true (codes "disableFallbackIfMatch") p.disable_fallback_if_match _ refl
      ∙ value-insert_true (codes "disableFallback") p.disable_fallback _ refl
      ∙ value-insert_true (codes "disableCache") p.disable_cache _ refl
      ∙ value-strategy (strategy_to_xray_value p.query_strategy) _
      ∙ value-insert (codes "servers") (codes "servers") (arr (of_list (servers_of p.servers))) _)
    ∙ items-of_list (servers_of p.servers)

dns_object-IsFilled : (p : DnsProfile) → IsFilled (dns_object p)
unfolding dns_object IsFilled
dns_object-IsFilled p =
    insert_true-IsFilled (codes "disableFallbackIfMatch") p.disable_fallback_if_match _ (
      insert_true-IsFilled (codes "disableFallback") p.disable_fallback _ (
        insert_true-IsFilled (codes "disableCache") p.disable_cache _ (
          insert_text-IsFilled (codes "queryStrategy") (strategy_to_xray_value p.query_strategy) _
            (is_empty_object-insert (codes "servers") (arr (of_list (servers_of p.servers))) _))))

generated_when :
    (b : Bool) (p : DnsProfile)
    → let f = if b then dns_object p else end in
      (is_empty_object f ≡ not b)
      × (length (to_array (value f (codes "servers")))
          ≡ (if b then enabled_server_count p + length (select is_bare_port p.servers) else 0))
unfolding IsFilled enabled_server_count value
generated_when false p = (refl, refl)
generated_when true p =
    (dns_object-IsFilled p, ap length (dns_object-servers p) ∙ length-servers_of p.servers)

-- The object is empty exactly where the program says that it generates none; otherwise it has one
-- server for each server that the program counts, and one more for each enabled plain server with
-- a blank address and a positive port.
pub generate-servers :
    (p : DnsProfile)
    → (is_empty_object (generate p) ≡ not (should_generate_dns_object p))
      × (length (to_array (value (generate p) (codes "servers"))) ≡ (
          if should_generate_dns_object p
          then enabled_server_count p + length (select is_bare_port p.servers)
          else 0))
unfolding generate
generate-servers p = generated_when (should_generate_dns_object p) p
