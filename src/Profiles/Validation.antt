-- ===== src/Profiles/Validation.antt =====
-- src/domain/ProfileValidation.cpp: what the profile dialog and the Xray adapter demand.
pub mod Rules
use zarya.Prelude.{
  ℕ, ◌%◌, ◌≡◌, refl, Bool, true, false, not, ◌&&◌, ◌||◌, List, [], ◌∷◌, length, Option, none, some,
  Text, codes, text_eq, trimmed, to_lower, is_empty, is_digit, leb, ◌==◌, ℤ, pos, ltb_ℤ,
  if◌then◌else◌,
}
use zarya.Profiles.Profile.{
  ProtocolType, vless, vmess, trojan, shadowsocks, socks, hysteria2, wire_guard, Profile, is_valid,
  is_security_reality, is_security_tls, effective_uuid, effective_password, effective_method,
  effective_server_name, has_unsupported_feature,
}

-- The message of a refusal, by name.
pub data Refusal : Type 0 where
  incomplete vless_uuid reality_public_key reality_server_name reality_network short_id : Refusal
  tls_server_name vmess_uuid alter_id trojan_password method_missing : Refusal
  shadowsocks_password hysteria2_password private_key peer_public_key mtu keep_alive : Refusal
  unsupported : Text → Refusal

pub data ProfileValidationResult : Type 0 where
  accepted : ProfileValidationResult
  refused : Refusal → ProfileValidationResult

is_hex : ℕ → Bool
unfolding is_digit
is_hex c = is_digit c || (leb b'a' c && leb c b'f') || (leb b'A' c && leb c b'F')

-- `^[0-9a-fA-F]+$`, which also matches before a final line feed.
all_hex : Text → Bool
unfolding is_hex
all_hex [] = true
all_hex (c ∷ s) = (is_hex c && all_hex s) || (c == 10 && is_empty s)

hex_pattern : Text → Bool
unfolding all_hex
hex_pattern [] = false
hex_pattern (c ∷ s) = is_hex c && all_hex s

unfoldable pub is_hex_short_id : Text → Bool
unfolding hex_pattern
is_hex_short_id value =
    if is_empty value
    then true
    else if not (hex_pattern value)
    then false
    else (length value % 2 == 0) && leb (length value) 16

unfoldable pub normalized_network : Profile → Text
normalized_network p =
    let network = to_lower (trimmed p.network) in
    if is_empty network || text_eq network (codes "raw") then codes "tcp" else network

unfoldable pub validate_reality : Profile → ProfileValidationResult
validate_reality p =
    if is_empty (trimmed p.public_key)
    then refused reality_public_key
    else if is_empty (effective_server_name p)
    then refused reality_server_name
    else if not (text_eq (normalized_network p) (codes "tcp"))
    then refused reality_network
    else if not (is_hex_short_id (trimmed p.short_id))
    then refused short_id
    else accepted

-- The code behind the block of REALITY.
unfoldable pub validate_tls : Profile → ProfileValidationResult
validate_tls p =
    if is_security_tls p && is_empty (effective_server_name p)
    then refused tls_server_name
    else accepted

abbrev pub then_check : ProfileValidationResult → ProfileValidationResult → ProfileValidationResult
then_check accepted next = next
then_check (refused r) next = refused r

unfoldable pub validate_vless_dialog : Profile → ProfileValidationResult
unfolding validate_reality validate_tls
validate_vless_dialog p =
    if is_empty (effective_uuid p)
    then refused vless_uuid
    else if is_security_reality p
    then then_check (validate_reality p) (validate_tls p)
    else validate_tls p

unfoldable pub validate_vmess_dialog : Profile → ProfileValidationResult
validate_vmess_dialog p =
    if is_empty (effective_uuid p)
    then refused vmess_uuid
    else if ltb_ℤ p.alter_id (pos 0)
    then refused alter_id
    else accepted

unfoldable pub validate_trojan_dialog : Profile → ProfileValidationResult
validate_trojan_dialog p =
    if is_empty (effective_password p) then refused trojan_password else accepted

unfoldable pub validate_shadowsocks_dialog : Profile → ProfileValidationResult
validate_shadowsocks_dialog p =
    if has_unsupported_feature p
    then refused (unsupported p.unsupported_reason)
    else if is_empty (effective_method p)
    then refused method_missing
    else if is_empty (effective_password p)
    then refused shadowsocks_password
    else accepted

unfoldable pub validate_socks_dialog : Profile → ProfileValidationResult
validate_socks_dialog p = accepted

unfoldable pub validate_hysteria2_dialog : Profile → ProfileValidationResult
validate_hysteria2_dialog p =
    if has_unsupported_feature p
    then refused (unsupported p.unsupported_reason)
    else if is_empty (effective_password p)
    then refused hysteria2_password
    else accepted

unfoldable pub validate_wire_guard_dialog : Profile → ProfileValidationResult
validate_wire_guard_dialog p =
    if has_unsupported_feature p
    then refused (unsupported p.unsupported_reason)
    else if is_empty (effective_password p)
    then refused private_key
    else if is_empty (trimmed p.public_key)
    then refused peer_public_key
    else if ltb_ℤ p.mtu (pos 0)
    then refused mtu
    else if ltb_ℤ p.keep_alive (pos 0)
    then refused keep_alive
    else accepted

unfoldable pub validate_protocol : ProtocolType → Profile → ProfileValidationResult
unfolding validate_vless_dialog validate_vmess_dialog validate_trojan_dialog
    validate_shadowsocks_dialog validate_socks_dialog validate_hysteria2_dialog
    validate_wire_guard_dialog
validate_protocol vless p = validate_vless_dialog p
validate_protocol vmess p = validate_vmess_dialog p
validate_protocol trojan p = validate_trojan_dialog p
validate_protocol shadowsocks p = validate_shadowsocks_dialog p
validate_protocol socks p = validate_socks_dialog p
validate_protocol hysteria2 p = validate_hysteria2_dialog p
validate_protocol wire_guard p = validate_wire_guard_dialog p

unfoldable pub validate_profile_for_dialog : Profile → ProfileValidationResult
unfolding validate_protocol
validate_profile_for_dialog p =
    if not (is_valid p) then refused incomplete else validate_protocol p.protocol p

unfoldable pub validate_profile_for_xray : Profile → ProfileValidationResult
unfolding validate_profile_for_dialog
validate_profile_for_xray p = validate_profile_for_dialog p
