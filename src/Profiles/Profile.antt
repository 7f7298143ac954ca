-- ===== src/Profiles/Profile.antt =====
-- src/domain/Profile.h, Profile.cpp and ProtocolType.cpp: a proxy profile and what it says.
use zarya.Prelude.{
  ℕ, ◌≡◌, refl, Bool, true, false, not, ◌&&◌, ◌||◌, [], ◌∷◌, Option, none, Text, codes, text_eq,
  trimmed, eq_ignore_case, is_empty, ℤ, pos, negsuc, ltb_ℤ, number, arg, if◌then◌else◌,
}

pub data ProtocolType : Type 0 where
  vless vmess trojan shadowsocks socks hysteria2 wire_guard : ProtocolType

pub data CoreType : Type 0 where
  xray sing_box : CoreType

pub data ProfileSourceType : Type 0 where
  manual subscription : ProfileSourceType

pub data TestStatus : Type 0 where
  never_tested testing available timeout failed unsupported canceled : TestStatus

-- Dates are `none` where QDateTime is not valid.
pub record Profile : Type 0 where
  pub id : Text
  pub name : Text
  pub protocol : ProtocolType
  pub core_type : CoreType
  pub address : Text
  pub port : ℤ
  pub uuid_password : Text
  pub password : Text
  pub encryption : Text
  pub method : Text
  pub security_cipher : Text
  pub flow : Text
  pub remark : Text
  pub alpn : Text
  pub obfs : Text
  pub obfs_password : Text
  pub enabled : Bool
  pub network : Text
  pub path : Text
  pub host : Text
  pub header_type : Text
  pub service_name : Text
  pub security : Text
  pub server_name : Text
  pub sni : Text
  pub fingerprint : Text
  pub public_key : Text
  pub short_id : Text
  pub spider_x : Text
  pub allow_insecure : Bool
  pub local_address : Text
  pub allowed_ips : Text
  pub pre_shared_key : Text
  pub reserved : Text
  pub mtu : ℤ
  pub keep_alive : ℤ
  pub alter_id : ℤ
  pub source_type : ProfileSourceType
  pub subscription_id : Text
  pub subscription_name : Text
  pub source_key : Text
  pub last_seen_at : Option ℕ
  pub deleted_by_subscription_update : Bool
  pub unsupported_reason : Text
  pub last_tcp_ping_ms : ℤ
  pub last_real_delay_ms : ℤ
  pub last_test_status : TestStatus
  pub last_test_error : Text
  pub last_tested_at : Option ℕ

-- A profile with the defaults of its declaration.
abbrev pub blank : Profile
blank = record {
  id = [];
  name = [];
  protocol = vless;
  core_type = xray;
  address = [];
  port = pos 443;
  uuid_password = [];
  password = [];
  encryption = codes "none";
  method = [];
  security_cipher = [];
  flow = [];
  remark = [];
  alpn = [];
  obfs = [];
  obfs_password = [];
  enabled = true;
  network = codes "tcp";
  path = [];
  host = [];
  header_type = [];
  service_name = [];
  security = [];
  server_name = [];
  sni = [];
  fingerprint = [];
  public_key = [];
  short_id = [];
  spider_x = [];
  allow_insecure = false;
  local_address = [];
  allowed_ips = [];
  pre_shared_key = [];
  reserved = [];
  mtu = pos 0;
  keep_alive = pos 0;
  alter_id = pos 0;
  source_type = manual;
  subscription_id = [];
  subscription_name = [];
  source_key = [];
  last_seen_at = none;
  deleted_by_subscription_update = false;
  unsupported_reason = [];
  last_tcp_ping_ms = negsuc 0;
  last_real_delay_ms = negsuc 0;
  last_test_status = never_tested;
  last_test_error = [];
  last_tested_at = none;
}

-- The two identifiers are those of QUuid::createUuid.
unfoldable pub create_default : Text → Text → Profile
create_default id uuid = record blank {
  id = id;
  name = codes "New profile";
  protocol = vless;
  address = codes "example.com";
  port = pos 443;
  uuid_password = uuid;
  security = codes "tls";
  network = codes "tcp";
  encryption = codes "none";
  core_type = xray;
  enabled = true;
}

unfoldable pub create_vless_reality_default : Text → Text → Profile
create_vless_reality_default id uuid = record blank {
  id = id;
  name = codes "VLESS REALITY";
  protocol = vless;
  core_type = xray;
  address = codes "example.com";
  port = pos 443;
  uuid_password = uuid;
  encryption = codes "none";
  network = codes "tcp";
  security = codes "reality";
  flow = codes "xtls-rprx-vision";
  fingerprint = codes "chrome";
  spider_x = codes "/";
  enabled = true;
}

unfoldable pub protocol_type_to_string : ProtocolType → Text
protocol_type_to_string vless = codes "VLESS"
protocol_type_to_string vmess = codes "VMess"
protocol_type_to_string trojan = codes "Trojan"
protocol_type_to_string shadowsocks = codes "Shadowsocks"
protocol_type_to_string socks = codes "SOCKS"
protocol_type_to_string hysteria2 = codes "Hysteria2"
protocol_type_to_string wire_guard = codes "WireGuard"

unfoldable pub protocol_type_from_string : Text → ProtocolType → ProtocolType
protocol_type_from_string value default =
    if eq_ignore_case value (codes "VLESS")
    then vless
    else if eq_ignore_case value (codes "VMess")
    then vmess
    else if eq_ignore_case value (codes "Trojan")
    then trojan
    else if eq_ignore_case value (codes "Shadowsocks")
    then shadowsocks
    else if eq_ignore_case value (codes "SOCKS")
    then socks
    else if eq_ignore_case value (codes "Hysteria2")
        || eq_ignore_case value (codes "hysteria2")
        || eq_ignore_case value (codes "hy2")
    then hysteria2
    else if eq_ignore_case value (codes "WireGuard")
        || eq_ignore_case value (codes "wireguard")
        || eq_ignore_case value (codes "wg")
    then wire_guard
    else default

module _ (p : Profile) where
  unfoldable pub is_valid : Bool
  is_valid =
      not (is_empty (trimmed p.name))
      && not (is_empty (trimmed p.address))
      && not (ltb_ℤ p.port (pos 1))
      && not (ltb_ℤ (pos 65535) p.port)

  unfoldable pub is_security_reality : Bool
  is_security_reality = eq_ignore_case p.security (codes "reality")

  unfoldable pub is_security_tls : Bool
  is_security_tls = eq_ignore_case p.security (codes "tls")

  unfoldable pub is_security_none : Bool
  is_security_none =
      is_empty (trimmed p.security) || eq_ignore_case (trimmed p.security) (codes "none")

  unfoldable pub effective_uuid : Text
  effective_uuid = trimmed p.uuid_password

  unfoldable pub effective_password : Text
  effective_password =
      if not (is_empty (trimmed p.password)) then trimmed p.password else trimmed p.uuid_password

  unfoldable pub effective_vmess_security : Text
  effective_vmess_security =
      if not (is_empty (trimmed p.security_cipher)) then trimmed p.security_cipher else codes "auto"

  unfoldable pub effective_method : Text
  effective_method =
      if not (is_empty (trimmed p.method)) then trimmed p.method else trimmed p.encryption

  unfoldable pub has_unsupported_feature : Bool
  has_unsupported_feature = not (is_empty (trimmed p.unsupported_reason))

  unfoldable pub effective_server_name : Text
  effective_server_name =
      if not (is_empty (trimmed p.server_name))
      then trimmed p.server_name
      else if not (is_empty (trimmed p.sni))
      then trimmed p.sni
      else []

  unfoldable pub effective_encryption : Text
  effective_encryption =
      if is_empty (trimmed p.encryption) then codes "none" else trimmed p.encryption

  unfoldable pub effective_fingerprint : Text
  effective_fingerprint =
      if is_empty (trimmed p.fingerprint) then codes "chrome" else trimmed p.fingerprint

  unfoldable pub is_manual : Bool
  is_manual = elim p.source_type [ manual ↦ true | subscription ↦ false ]

  unfoldable pub is_from_subscription : Text → Bool
  is_from_subscription id = elim p.source_type [
    | manual ↦ false
    | subscription ↦ text_eq p.subscription_id id
  ]

abbrev pub is_wire_guard : ProtocolType → Bool
is_wire_guard wire_guard = true
is_wire_guard _ = false

unfoldable pub compute_source_key : Profile → Text
unfolding arg number protocol_type_to_string
compute_source_key p =
    let head = protocol_type_to_string p.protocol ∷ trimmed p.address ∷ [] in
    if is_wire_guard p.protocol
    then arg (arg (arg (codes "%1|%2|%3|%4|%5") head) (number p.port ∷ []))
        (trimmed p.public_key ∷ trimmed p.local_address ∷ [])
    else arg (arg (arg (codes "%1|%2|%3|%4|%5|%6") head) (number p.port ∷ []))
        (trimmed p.uuid_password ∷ effective_server_name p ∷ trimmed p.security ∷ [])

-- A protocol is read back from its own name, whatever the default.
pub protocol_type_from_string-to_string :
    (t d : ProtocolType) → protocol_type_from_string (protocol_type_to_string t) d ≡ t
unfolding protocol_type_from_string protocol_type_to_string eq_ignore_case
protocol_type_from_string-to_string vless d = refl
protocol_type_from_string-to_string vmess d = refl
protocol_type_from_string-to_string trojan d = refl
protocol_type_from_string-to_string shadowsocks d = refl
protocol_type_from_string-to_string socks d = refl
protocol_type_from_string-to_string hysteria2 d = refl
protocol_type_from_string-to_string wire_guard d = refl
