-- ===== src/SingBox/Success.antt =====
-- SingBoxConfigGenerator::generate of src/runtime/singbox: which profiles it takes.
use zarya.Prelude.{
  ◌≡◌, refl, ◌∙◌, ap, Bool, true, false, not, ◌&&◌, Text, codes, text_eq, to_lower, trimmed,
  eq_ignore_case, is_empty, if◌then◌else◌, arith,
}
use zarya.Json.{Json, obj, num, Fields, end, field, insert, is_empty_object, is_empty_object-insert}
use zarya.Profiles.Profile.{
  ProtocolType, vless, vmess, trojan, shadowsocks, socks, hysteria2, wire_guard, Profile,
  is_security_reality, is_security_tls, effective_uuid, effective_password, effective_method,
  effective_server_name, has_unsupported_feature,
}
use zarya.Routing.Profiles.{RoutingProfile}
use zarya.Dns.Profiles.{DnsProfile}
use zarya.Xray.Support.{Support, supported, unsupported}
use zarya.Xray.Stream.{Generated, generated, failed}
use zarya.SingBox.Route.{SingBoxConfigOptions, RuleSetDirectory}
use zarya.SingBox.Outbounds.{
  supports_for, supports_profile, build_vless_outbound, build_vmess_outbound, build_trojan_outbound,
  build_shadowsocks_outbound, build_hysteria2_outbound, hysteria2_tls, build_for,
  build_proxy_outbound,
}
use zarya.SingBox.Config.{
  SingBoxConfigGenerationResult, configured, refused, configure, after_outbound, after_support,
  generate,
}

abbrev pub is_configured : SingBoxConfigGenerationResult → Bool
is_configured (configured f told classified) = true
is_configured (refused text classified) = false

-- What a profile needs for TUN mode, protocol by protocol.
unfoldable pub is_representable : Profile → ProtocolType → Bool
is_representable p vless =
    is_security_reality p
    && eq_ignore_case (trimmed p.network) (codes "tcp")
    && not (is_empty (effective_uuid p))
    && not (is_empty (trimmed p.public_key))
    && not (is_empty (effective_server_name p))
is_representable p vmess = not (is_security_reality p) && not (is_empty (effective_uuid p))
is_representable p trojan = is_security_tls p && not (is_empty (effective_password p))
is_representable p shadowsocks =
    not (has_unsupported_feature p)
    && not (is_empty (effective_method p))
    && not (is_empty (effective_password p))
is_representable p hysteria2 =
    not (has_unsupported_feature p)
    && not (is_empty (effective_password p))
    && not (
        text_eq (to_lower (trimmed p.obfs)) (codes "salamander")
        && is_empty (trimmed p.obfs_password))
is_representable p socks = false
is_representable p wire_guard = false

abbrev is_taken : Support → Bool
is_taken supported = true
is_taken (unsupported reason) = false

abbrev is_built : Generated → Bool
is_built (generated f) = not (is_empty_object f)
is_built (failed error) = false

built : (key : Text) (v : Json) (f : Fields) → is_built (generated (insert key v f)) ≡ true
built key v f = ap not (is_empty_object-insert key v f)

built_if :
    (b : Bool) (key : Text) (v : Json) (j : Text) (w : Json) (f : Fields)
    → is_built (generated (if b then insert key v (insert j w f) else insert j w f)) ≡ true
built_if true key v j w f = built key v (insert j w f)
built_if false key v j w f = built j w f

-- Where a password is asked for, it decides.
built_with :
    (b empty : Bool) (error key : Text) (v : Json) (j : Text) (w : Json) (f : Fields)
    → is_built (
        if b
        then (if empty then failed error else generated (insert key v (insert j w f)))
        else generated (insert j w f))
      ≡ not (b && empty)
built_with false empty error key v j w f = built j w f
built_with true true error key v j w f = refl
built_with true false error key v j w f = built key v (insert j w f)

built_vless : (p : Profile) → is_built (generated (build_vless_outbound p)) ≡ true
unfolding build_vless_outbound
built_vless p = built (codes "tls") _ _

built_vmess : (p : Profile) → is_built (generated (build_vmess_outbound p)) ≡ true
unfolding build_vmess_outbound
built_vmess p = built_if (is_security_tls p) (codes "tls") _ (codes "alter_id") (num p.alter_id) _

built_trojan : (p : Profile) → is_built (generated (build_trojan_outbound p)) ≡ true
unfolding build_trojan_outbound
built_trojan p = built (codes "tls") _ _

built_shadowsocks : (p : Profile) → is_built (generated (build_shadowsocks_outbound p)) ≡ true
unfolding build_shadowsocks_outbound
built_shadowsocks p = built (codes "password") _ _

built_hysteria2 :
    (p : Profile)
    → is_built (build_hysteria2_outbound p)
      ≡ not (
          text_eq (to_lower (trimmed p.obfs)) (codes "salamander")
          && is_empty (trimmed p.obfs_password))
unfolding build_hysteria2_outbound
built_hysteria2 p =
    built_with (text_eq (to_lower (trimmed p.obfs)) (codes "salamander"))
      (is_empty (trimmed p.obfs_password)) _ (codes "obfs") _ (codes "tls") (obj (hysteria2_tls p))
      _

taken_and_built :
    (p : Profile) (k : ProtocolType)
    → (is_taken (supports_for p k) && is_built (build_for p k)) ≡ is_representable p k
unfolding supports_for build_for is_representable
taken_and_built p vless = ground (arith, built_vless p)
taken_and_built p vmess = ground (arith, built_vmess p)
taken_and_built p trojan = ground (arith, built_trojan p)
taken_and_built p shadowsocks = ground (arith, built_shadowsocks p)
taken_and_built p hysteria2 = ground (arith, built_hysteria2 p)
taken_and_built p socks = refl
taken_and_built p wire_guard = refl

module _ (directory : RuleSetDirectory) (options : SingBoxConfigOptions) (routing : RoutingProfile)
    (dns : DnsProfile) where
  configured_when :
      (o : Generated) → is_configured (after_outbound directory options o routing dns) ≡ is_built o
  unfolding configure
  configured_when (failed error) = refl
  configured_when (generated end) = refl
  configured_when (generated (field k v f)) = refl

  supported_when :
      (s : Support) (p : Profile)
      → is_configured (after_support directory options s p routing dns)
        ≡ (is_taken s && is_built (build_proxy_outbound p))
  supported_when (unsupported reason) p = refl
  supported_when supported p = configured_when (build_proxy_outbound p)

  -- A configuration is generated exactly for the profiles that have what their protocol needs for
  -- TUN mode, whatever the routing, the DNS and the options.
  pub is_configured-generate :
      (p : Profile)
      → is_configured (generate directory options p routing dns) ≡ is_representable p p.protocol
  unfolding generate supports_profile build_proxy_outbound
  is_configured-generate p =
      supported_when (supports_for p p.protocol) p ∙ taken_and_built p p.protocol
