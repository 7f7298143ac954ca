-- ===== src/Profiles/Validation/Rules.antt =====
-- ProfileValidation.cpp against an independent list of the rules for each protocol.
use zarya.Prelude.{
  ◌≡◌, refl, ◌↔◌, inl, inr, Bool, true, false, Text, codes, text_eq_iff, trimmed, is_empty, pos,
  ◌≤ℤ◌, arith, Bool-cases, sym, ◌∙◌, if◌then◌else◌,
}
use zarya.Profiles.Profile.{
  ProtocolType, vless, vmess, trojan, shadowsocks, socks, hysteria2, wire_guard, Profile, is_valid,
  is_security_reality, is_security_tls, effective_uuid, effective_password, effective_method,
  effective_server_name, has_unsupported_feature,
}
use zarya.Profiles.Validation.{
  ProfileValidationResult, accepted, refused, vless_uuid, then_check, is_hex_short_id,
  normalized_network, validate_reality, validate_tls, validate_vless_dialog, validate_protocol,
  validate_profile_for_dialog,
}

abbrev pub IsFilled : Text → Type 0
IsFilled t = is_empty t ≡ false

-- What a profile of each protocol must have.
abbrev pub Meets : ProtocolType → Profile → Type 0
Meets vless p =
    IsFilled (effective_uuid p)
    × (is_security_reality p ≡ true
        → IsFilled (trimmed p.public_key)
          × IsFilled (effective_server_name p)
          × (normalized_network p ≡ codes "tcp")
          × (is_hex_short_id (trimmed p.short_id) ≡ true))
    × (is_security_tls p ≡ true → IsFilled (effective_server_name p))
Meets vmess p = IsFilled (effective_uuid p) × (pos 0 ≤ℤ p.alter_id)
Meets trojan p = IsFilled (effective_password p)
Meets shadowsocks p =
    (has_unsupported_feature p ≡ false)
    × IsFilled (effective_method p)
    × IsFilled (effective_password p)
Meets socks p = Unit {0}
Meets hysteria2 p = (has_unsupported_feature p ≡ false) × IsFilled (effective_password p)
Meets wire_guard p =
    (has_unsupported_feature p ≡ false)
    × IsFilled (effective_password p)
    × IsFilled (trimmed p.public_key)
    × (pos 0 ≤ℤ p.mtu)
    × (pos 0 ≤ℤ p.keep_alive)

valid_iff :
    (p : Profile)
    → (is_valid p ≡ true) ↔ (
        IsFilled (trimmed p.name)
        × IsFilled (trimmed p.address)
        × (pos 1 ≤ℤ p.port)
        × (p.port ≤ℤ pos 65535))
unfolding is_valid
valid_iff p = ground arith

reality_iff :
    (p : Profile)
    → (validate_reality p ≡ accepted) ↔ (
        IsFilled (trimmed p.public_key)
        × IsFilled (effective_server_name p)
        × (normalized_network p ≡ codes "tcp")
        × (is_hex_short_id (trimmed p.short_id) ≡ true))
unfolding validate_reality
reality_iff p = (
  λ h.
      let tcp = (text_eq_iff (normalized_network p) (codes "tcp")).0 (ground arith) in
      (ground arith, ground arith, tcp, ground arith),
  λ (k, n, t, s).
      let tcp = (text_eq_iff (normalized_network p) (codes "tcp")).1 t in rw (k, n, tcp, s),
)

tls_iff :
    (p : Profile)
    → (validate_tls p ≡ accepted) ↔ (is_security_tls p ≡ true → IsFilled (effective_server_name p))
unfolding validate_tls
tls_iff p = (
  λ h t. ground arith,
  λ h. elim (Bool-cases (is_security_tls p)) [ inl e ↦ rw (e, h e) | inr e ↦ rw e ],
)

both_accepted :
    (r s : ProfileValidationResult)
    → (then_check r s ≡ accepted) ↔ ((r ≡ accepted) × (s ≡ accepted))
both_accepted r s = ground arith

-- The frame of the VLESS check, with the check of REALITY and that of TLS shut.
abbrev frame :
    Bool → Bool → ProfileValidationResult → ProfileValidationResult → ProfileValidationResult
frame no_uuid reality r t =
    if no_uuid then refused vless_uuid else if reality then then_check r t else t

frame_iff :
    (no_uuid reality : Bool) (r t : ProfileValidationResult)
    → (frame no_uuid reality r t ≡ accepted)
      ↔ ((no_uuid ≡ false) × (reality ≡ true → r ≡ accepted) × (t ≡ accepted))
frame_iff true reality r t = (λ h. cc, λ h. cc)
frame_iff false true r t =
    (λ h. (refl, λ _. ground arith, ground arith), λ (_, h, k). rw (h refl) k)
frame_iff false false r t = (λ h. (refl, λ k. cc, h), λ (_, _, k). k)

vless_frame :
    (p : Profile)
    → validate_vless_dialog p
      ≡ frame
          (is_empty (effective_uuid p))
          (is_security_reality p)
          (validate_reality p)
          (validate_tls p)
unfolding validate_vless_dialog
vless_frame p = refl

vless_iff : (p : Profile) → (validate_vless_dialog p ≡ accepted) ↔ Meets vless p
vless_iff p =
    let (to, from) =
      frame_iff (is_empty (effective_uuid p)) (is_security_reality p) (validate_reality p)
        (validate_tls p) in
    (
      λ h.
          let (u, r, t) = to (sym (vless_frame p) ∙ h) in
          (u, λ e. (reality_iff p).0 (r e), (tls_iff p).0 t),
      λ (u, r, t). vless_frame p ∙ from (u, λ e. (reality_iff p).1 (r e), (tls_iff p).1 t),
    )

protocol_iff : (t : ProtocolType) (p : Profile) → (validate_protocol t p ≡ accepted) ↔ Meets t p
unfolding validate_protocol
protocol_iff vless p = vless_iff p
protocol_iff vmess p = ground arith
protocol_iff trojan p = ground arith
protocol_iff shadowsocks p = ground arith
protocol_iff socks p = ground arith
protocol_iff hysteria2 p = ground arith
protocol_iff wire_guard p = ground arith

dialog_iff_valid :
    (p : Profile)
    → (validate_profile_for_dialog p ≡ accepted)
      ↔ ((is_valid p ≡ true) × (validate_protocol p.protocol p ≡ accepted))
unfolding validate_profile_for_dialog
dialog_iff_valid p = elim (Bool-cases (is_valid p)) [
  | inl e ↦ (λ h. (e, rw (e, validate_profile_for_dialog) at h), λ (_, k). rw e k)
  | inr e ↦ (λ h. cc (rw (e, validate_profile_for_dialog) at h), λ (k, _). cc)
]

-- The dialog accepts a profile exactly when it has a name, an address and a port from 1 to 65535,
-- and what its protocol demands: a VLESS profile its identifier and, under REALITY, a public key,
-- a server name, the network tcp and an even short id of at most 16 hexadecimal digits; under TLS
-- a server name; and so on for each protocol.
pub validate-accepted_iff :
    (p : Profile)
    → (validate_profile_for_dialog p ≡ accepted) ↔ (
        IsFilled (trimmed p.name)
        × IsFilled (trimmed p.address)
        × (pos 1 ≤ℤ p.port)
        × (p.port ≤ℤ pos 65535)
        × Meets p.protocol p)
validate-accepted_iff p =
    let (to, from) = dialog_iff_valid p in
    let (check, uncheck) = protocol_iff p.protocol p in
    let (open_valid, close_valid) = valid_iff p in
    (
      λ h. let (v, k) = to h in let (n, a, low, high) = open_valid v in (n, a, low, high, check k),
      λ (n, a, low, high, m). from (close_valid (n, a, low, high), uncheck m),
    )
