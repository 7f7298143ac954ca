-- ===== src/Dns/Profiles.antt =====
-- src/domain/DnsServer.h, DnsProfile.h, DnsProfile.cpp, DnsProfileMode.cpp, DnsQueryStrategy.cpp.
use zarya.Prelude.{
  ℕ, ◌≡◌, refl, Bool, true, false, List, [], ◌∷◌, Option, some, Text, codes, text_eq, case_fold,
  starts_with, to_lower, trimmed, ℤ, pos, if◌then◌else◌,
}

pub data DnsServerKind : Type 0 where
  plain_ip do_h local fake_dns_placeholder : DnsServerKind

pub data DnsProfileMode : Type 0 where
  system secure_remote china_direct_global_remote custom : DnsProfileMode

pub data DnsQueryStrategy : Type 0 where
  use_system_default use_ip use_ipv4 use_ipv6 : DnsQueryStrategy

-- `note` and `id` are only shown and stored.
pub record DnsServer : Type 0 where
  pub id : Text
  pub enabled : Bool
  pub kind : DnsServerKind
  pub address : Text
  pub port : ℤ
  pub domains : List Text
  pub expect_ips : List Text
  pub query_strategy : Text
  pub timeout_ms : ℤ
  pub tag : Text
  pub skip_fallback : Bool
  pub note : Text

-- The hosts of a QMap, in the order of their keys; times are `none` where they are not valid.
pub record DnsProfile : Type 0 where
  pub id : Text
  pub name : Text
  pub mode : DnsProfileMode
  pub enabled : Bool
  pub is_built_in : Bool
  pub query_strategy : DnsQueryStrategy
  pub disable_cache : Bool
  pub disable_fallback : Bool
  pub disable_fallback_if_match : Bool
  pub hosts : List (Text × Text)
  pub servers : List DnsServer
  pub created_at : Option ℕ
  pub updated_at : Option ℕ

unfoldable pub mode_to_string : DnsProfileMode → Text
mode_to_string system = codes "system"
mode_to_string secure_remote = codes "secure-remote"
mode_to_string china_direct_global_remote = codes "china-direct-global-remote"
mode_to_string custom = codes "custom"

unfoldable pub mode_from_string : Text → DnsProfileMode
unfolding trimmed to_lower text_eq
mode_from_string value =
    let normalized = to_lower (trimmed value) in
    if text_eq normalized (codes "system")
    then system
    else if text_eq normalized (codes "secure-remote")
    then secure_remote
    else if text_eq normalized (codes "china-direct-global-remote")
    then china_direct_global_remote
    else custom

unfoldable pub kind_to_string : DnsServerKind → Text
kind_to_string plain_ip = codes "plain"
kind_to_string do_h = codes "doh"
kind_to_string local = codes "local"
kind_to_string fake_dns_placeholder = codes "fakedns"

unfoldable pub kind_from_string : Text → DnsServerKind
unfolding trimmed to_lower text_eq
kind_from_string value =
    let normalized = to_lower (trimmed value) in
    if text_eq normalized (codes "doh")
    then do_h
    else if text_eq normalized (codes "local")
    then local
    else if text_eq normalized (codes "fakedns")
    then fake_dns_placeholder
    else plain_ip

unfoldable pub strategy_to_string : DnsQueryStrategy → Text
strategy_to_string use_system_default = codes "system-default"
strategy_to_string use_ip = codes "use-ip"
strategy_to_string use_ipv4 = codes "use-ipv4"
strategy_to_string use_ipv6 = codes "use-ipv6"

unfoldable pub strategy_from_string : Text → DnsQueryStrategy
unfolding trimmed to_lower text_eq
strategy_from_string value =
    let normalized = to_lower (trimmed value) in
    if text_eq normalized (codes "use-ip")
    then use_ip
    else if text_eq normalized (codes "use-ipv4")
    then use_ipv4
    else if text_eq normalized (codes "use-ipv6")
    then use_ipv6
    else use_system_default

unfoldable pub strategy_to_xray_value : DnsQueryStrategy → Text
strategy_to_xray_value use_ip = codes "UseIP"
strategy_to_xray_value use_ipv4 = codes "UseIPv4"
strategy_to_xray_value use_ipv6 = codes "UseIPv6"
strategy_to_xray_value use_system_default = []

-- The identifier is that of QUuid::createUuid.
abbrev pub create_default_server : Text → DnsServer
create_default_server id = record {
  id = id;
  enabled = true;
  kind = plain_ip;
  address = [];
  port = pos 0;
  domains = [];
  expect_ips = [];
  query_strategy = [];
  timeout_ms = pos 0;
  tag = [];
  skip_fallback = false;
  note = [];
}

unfoldable pub make_server : Text → Text → DnsServerKind → List Text → List Text → DnsServer
unfolding starts_with case_fold
make_server id address kind domains expect_ips = record (create_default_server id) {
  address = address;
  domains = domains;
  expect_ips = expect_ips;
  kind = if starts_with (case_fold address) (codes "https://") then do_h else kind;
}

abbrev pub system_dns : Text
system_dns = codes "builtin-dns-system"

abbrev pub secure_remote_dns : Text
secure_remote_dns = codes "builtin-dns-secure-remote"

abbrev pub china_direct_global_remote_dns : Text
china_direct_global_remote_dns = codes "builtin-dns-china-direct-global-remote"

abbrev pub custom_template : Text
custom_template = codes "builtin-dns-custom-template"

-- `now` is the current time.
module _ (now : ℕ) where
  abbrev pub make_built_in :
      Text → Text → DnsProfileMode → DnsQueryStrategy → List DnsServer → DnsProfile
  make_built_in id name mode query_strategy servers = record {
    id = id;
    name = name;
    mode = mode;
    enabled = true;
    is_built_in = true;
    query_strategy = query_strategy;
    disable_cache = false;
    disable_fallback = false;
    disable_fallback_if_match = false;
    hosts = [];
    servers = servers;
    created_at = some now;
    updated_at = some now;
  }

  unfoldable pub built_in_system_dns : DnsProfile
  built_in_system_dns = make_built_in system_dns (codes "System DNS") system use_system_default []

  -- `ids n` is the identifier of the n-th server.
  unfoldable pub create_built_in_profiles : (ℕ → Text) → List DnsProfile
  unfolding built_in_system_dns make_server
  create_built_in_profiles ids =
      built_in_system_dns
      ∷ make_built_in secure_remote_dns (codes "Secure Remote DNS") secure_remote use_ip (
          make_server (ids 0) (codes "https://cloudflare-dns.com/dns-query") do_h [] []
          ∷ make_server (ids 1) (codes "https://dns.google/dns-query") do_h [] []
          ∷ [])
      ∷ make_built_in china_direct_global_remote_dns (codes "China Direct / Global Remote")
          china_direct_global_remote use_ip
          (make_server (ids 2) (codes "223.5.5.5") plain_ip (codes "geosite:cn" ∷ [])
              (codes "geoip:cn" ∷ [])
            ∷ make_server (ids 3) (codes "https://cloudflare-dns.com/dns-query") do_h
                (codes "geosite:geolocation-!cn" ∷ []) []
            ∷ make_server (ids 4) (codes "https://dns.google/dns-query") do_h [] []
            ∷ [])
      ∷ make_built_in custom_template (codes "Custom") custom use_system_default []
      ∷ []

-- Every kind, mode and strategy is read back from its name.
pub kind_from_string-kind_to_string :
    (kind : DnsServerKind) → kind_from_string (kind_to_string kind) ≡ kind
unfolding kind_from_string kind_to_string
kind_from_string-kind_to_string plain_ip = refl
kind_from_string-kind_to_string do_h = refl
kind_from_string-kind_to_string local = refl
kind_from_string-kind_to_string fake_dns_placeholder = refl

pub mode_from_string-mode_to_string :
    (mode : DnsProfileMode) → mode_from_string (mode_to_string mode) ≡ mode
unfolding mode_from_string mode_to_string
mode_from_string-mode_to_string system = refl
mode_from_string-mode_to_string secure_remote = refl
mode_from_string-mode_to_string china_direct_global_remote = refl
mode_from_string-mode_to_string custom = refl

pub strategy_from_string-strategy_to_string :
    (strategy : DnsQueryStrategy) → strategy_from_string (strategy_to_string strategy) ≡ strategy
unfolding strategy_from_string strategy_to_string
strategy_from_string-strategy_to_string use_system_default = refl
strategy_from_string-strategy_to_string use_ip = refl
strategy_from_string-strategy_to_string use_ipv4 = refl
strategy_from_string-strategy_to_string use_ipv6 = refl
