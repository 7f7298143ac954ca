-- ===== src/Subscriptions/ShareLink/Query.antt =====
-- applyShareLinkQueryParam of src/subscription/ShareLinkParser.cpp: the items of a link's query.
use zarya.Prelude.{
  ◌||◌, List, [], ◌∷◌, Option, none, some, Text, codes, text_eq, eq_ignore_case, to_lower, is_empty,
  ℤ, pos, ltb_ℤ, parse_int, if◌then◌else◌,
}
use zarya.Profiles.Profile.{Profile, is_wire_guard}
use zarya.Subscriptions.ShareLink.{Qt, decode_component}

-- The keys that the chain of comparisons tells apart.
pub data Key : Type 0 where
  type_key security_key pbk_key fp_key sni_key sid_key spx_key flow_key encryption_key : Key
  host_key path_key header_type_key alpn_key obfs_key obfs_password_key auth_key : Key
  public_key address_key mtu_key reserved_key pre_shared_key allowed_ips_key keep_alive_key : Key
  private_key allow_insecure_key unknown_key : Key

unfoldable pub key_of : Text → Key
key_of key =
    if text_eq key (codes "type")
    then type_key
    else if text_eq key (codes "security")
    then security_key
    else if text_eq key (codes "pbk")
    then pbk_key
    else if text_eq key (codes "fp")
    then fp_key
    else if text_eq key (codes "sni")
    then sni_key
    else if text_eq key (codes "sid")
    then sid_key
    else if text_eq key (codes "spx")
    then spx_key
    else if text_eq key (codes "flow")
    then flow_key
    else if text_eq key (codes "encryption")
    then encryption_key
    else if text_eq key (codes "host")
    then host_key
    else if text_eq key (codes "path")
    then path_key
    else if text_eq key (codes "headerType")
    then header_type_key
    else if text_eq key (codes "alpn")
    then alpn_key
    else if text_eq key (codes "obfs")
    then obfs_key
    else if text_eq key (codes "obfs-password") || text_eq key (codes "obfspassword")
    then obfs_password_key
    else if text_eq key (codes "auth") || text_eq key (codes "password")
    then auth_key
    else if text_eq key (codes "publickey") || text_eq key (codes "peerpublickey")
    then public_key
    else if text_eq key (codes "address")
        || text_eq key (codes "localaddress")
        || text_eq key (codes "ip")
    then address_key
    else if text_eq key (codes "mtu")
    then mtu_key
    else if text_eq key (codes "reserved")
    then reserved_key
    else if text_eq key (codes "presharedkey") || text_eq key (codes "psk")
    then pre_shared_key
    else if text_eq key (codes "allowedips") || text_eq key (codes "allowedip")
    then allowed_ips_key
    else if text_eq key (codes "keepalive") || text_eq key (codes "persistentkeepalive")
    then keep_alive_key
    else if text_eq key (codes "privatekey") || text_eq key (codes "secretkey")
    then private_key
    else if text_eq key (codes "allowinsecure") || text_eq key (codes "insecure")
    then allow_insecure_key
    else unknown_key

-- A password in the query counts only where none is known.
unfoldable pub offer_password : Text → Profile → Profile
offer_password decoded p =
    if is_empty p.password then record p { password = decoded; uuid_password = decoded } else p

unfoldable pub set_mtu : Option ℤ → Profile → Profile
set_mtu none p = p
set_mtu (some mtu) p = if ltb_ℤ (pos 0) mtu then record p { mtu = mtu } else p

unfoldable pub set_keep_alive : Option ℤ → Profile → Profile
set_keep_alive none p = p
set_keep_alive (some keep_alive) p =
    if ltb_ℤ keep_alive (pos 0) then p else record p { keep_alive = keep_alive }

unfoldable pub set_param : Key → Text → Profile → Profile
unfolding offer_password set_mtu set_keep_alive parse_int text_eq eq_ignore_case
set_param type_key decoded p = record p { network = decoded }
set_param security_key decoded p = record p { security = decoded }
set_param pbk_key decoded p = record p { public_key = decoded }
set_param fp_key decoded p = record p { fingerprint = decoded }
set_param sni_key decoded p = record p { server_name = decoded; sni = decoded }
set_param sid_key decoded p = record p { short_id = decoded }
set_param spx_key decoded p = record p { spider_x = decoded }
set_param flow_key decoded p = record p { flow = decoded }
set_param encryption_key decoded p = record p {
  encryption = if is_empty decoded then codes "none" else decoded;
}
set_param host_key decoded p = record p { host = decoded }
set_param path_key decoded p = record p { path = decoded }
set_param header_type_key decoded p = record p { header_type = decoded }
set_param alpn_key decoded p = record p { alpn = decoded }
set_param obfs_key decoded p = record p { obfs = decoded }
set_param obfs_password_key decoded p = record p { obfs_password = decoded }
set_param auth_key decoded p = offer_password decoded p
set_param public_key decoded p = record p { public_key = decoded }
set_param address_key decoded p =
    if is_wire_guard p.protocol then record p { local_address = decoded } else p
set_param mtu_key decoded p = set_mtu (parse_int decoded) p
set_param reserved_key decoded p = record p { reserved = decoded }
set_param pre_shared_key decoded p = record p { pre_shared_key = decoded }
set_param allowed_ips_key decoded p = record p { allowed_ips = decoded }
set_param keep_alive_key decoded p = set_keep_alive (parse_int decoded) p
set_param private_key decoded p = offer_password decoded p
set_param allow_insecure_key decoded p = record p {
  allow_insecure = text_eq decoded (codes "1") || eq_ignore_case decoded (codes "true");
}
set_param unknown_key decoded p = p

module _ (qt : Qt) where
  -- applyShareLinkQueryParam.
  unfoldable pub apply_param : Profile → Text → Text → Profile
  unfolding decode_component key_of set_param
  apply_param p key value = set_param (key_of key) (decode_component qt value) p

  -- The loop over the items of the query.
  unfoldable pub apply_params : Profile → List (Text × Text) → Profile
  unfolding apply_param to_lower
  apply_params p [] = p
  apply_params p ((key, value) ∷ items) = apply_params (apply_param p (to_lower key) value) items
