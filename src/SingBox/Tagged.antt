-- ===== src/SingBox/Tagged.antt =====
-- src/runtime/singbox/SingBoxConfigGenerator.cpp: the tags of the outbounds of a configuration.
use zarya.Prelude.{
  ◌≡◌, refl, ap, Bool, true, false, List, [], ◌∷◌, map, Text, codes, text_eq, to_lower, trimmed,
  is_empty, if◌then◌else◌, arith,
}
use zarya.Json.{
  Json, str, obj, Fields, end, field, text_lt, value, insert, insert_text, to_string, to_array,
  value-insert,
}
use zarya.Profiles.Profile.{
  ProtocolType, vless, vmess, trojan, shadowsocks, socks, hysteria2, wire_guard, Profile,
  is_security_tls,
}
use zarya.Xray.Stream.{Generated, generated, failed}
use zarya.SingBox.Outbounds.{
  server_fields, build_vless_outbound, build_vmess_outbound, build_trojan_outbound,
  build_shadowsocks_outbound, build_hysteria2_outbound, build_for,
}
use zarya.SingBox.Config.{config_object, plain_outbound}
use zarya.SingBox.Closed.{tag_of, three_tags}

-- The tags of the outbounds that a configuration has.
unfoldable pub outbound_tags : Fields → List Text
unfolding value
outbound_tags f = map tag_of (to_array (value f (codes "outbounds")))

IsProxy : Fields → Type 0
IsProxy f = value f (codes "tag") ≡ str (codes "proxy")

IsOther : Text → Type 0
IsOther key = text_eq key (codes "tag") ≡ false

server-IsProxy : (p : Profile) (kind : Text) → IsProxy (server_fields p kind)
unfolding server_fields IsProxy value insert text_eq text_lt
server-IsProxy p kind = refl

insert-IsProxy :
    (key : Text) (v : Json) (f : Fields) → IsOther key → IsProxy f → IsProxy (insert key v f)
unfolding IsProxy IsOther
insert-IsProxy key v f k h = ground (arith, k, h, value-insert key (codes "tag") v f)

insert_text-IsProxy :
    (key text : Text) (f : Fields) → IsOther key → IsProxy f → IsProxy (insert_text key text f)
unfolding insert_text IsProxy IsOther
insert_text-IsProxy key text f k h =
    ground (arith, k, h, value-insert key (codes "tag") (str text) f)

insert_when-IsProxy :
    (b : Bool) (key : Text) (v : Json) (f : Fields)
    → IsOther key
    → IsProxy f
    → IsProxy (if b then insert key v f else f)
insert_when-IsProxy true key v f k h = insert-IsProxy key v f k h
insert_when-IsProxy false key v f k h = h

module _ (p : Profile) where
  vless-IsProxy : IsProxy (build_vless_outbound p)
  unfolding build_vless_outbound IsOther text_eq
  vless-IsProxy = insert-IsProxy (codes "tls") _ _ refl (
      insert-IsProxy (codes "packet_encoding") _ _ refl (
        insert_text-IsProxy (codes "flow") _ _ refl
          (insert-IsProxy (codes "uuid") _ _ refl (server-IsProxy p (codes "vless")))))

  vmess-IsProxy : IsProxy (build_vmess_outbound p)
  unfolding build_vmess_outbound IsOther text_eq
  vmess-IsProxy = insert_when-IsProxy (is_security_tls p) (codes "tls") _ _ refl (
      insert-IsProxy (codes "alter_id") _ _ refl (
        insert-IsProxy (codes "security") _ _ refl
          (insert-IsProxy (codes "uuid") _ _ refl (server-IsProxy p (codes "vmess")))))

  trojan-IsProxy : IsProxy (build_trojan_outbound p)
  unfolding build_trojan_outbound IsOther text_eq
  trojan-IsProxy =
      insert-IsProxy (codes "tls") _ _ refl
        (insert-IsProxy (codes "password") _ _ refl (server-IsProxy p (codes "trojan")))

  shadowsocks-IsProxy : IsProxy (build_shadowsocks_outbound p)
  unfolding build_shadowsocks_outbound IsOther text_eq
  shadowsocks-IsProxy =
      insert-IsProxy (codes "password") _ _ refl
        (insert-IsProxy (codes "method") _ _ refl (server-IsProxy p (codes "shadowsocks")))

  -- What an outbound is, if one is generated.
  AllProxy : Generated → Type 0
  AllProxy o = (f : Fields) → o ≡ generated f → IsProxy f

  generated-AllProxy : (g : Fields) → IsProxy g → AllProxy (generated g)
  unfolding AllProxy IsProxy
  generated-AllProxy g h f e = ground (arith, h, e)

  obfs-AllProxy :
      (b empty : Bool) (error : Text) (obfs : Json) (g : Fields)
      → IsProxy g
      → AllProxy (
          if b
          then (if empty then failed error else generated (insert (codes "obfs") obfs g))
          else generated g)
  unfolding AllProxy IsOther text_eq
  obfs-AllProxy false empty error obfs g h f e = generated-AllProxy g h f e
  obfs-AllProxy true true error obfs g h f e = ground (arith, e)
  obfs-AllProxy true false error obfs g h f e =
      generated-AllProxy _ (insert-IsProxy (codes "obfs") obfs g refl h) f e

  hysteria2-AllProxy : AllProxy (build_hysteria2_outbound p)
  unfolding build_hysteria2_outbound IsOther text_eq
  hysteria2-AllProxy =
      obfs-AllProxy (text_eq (to_lower (trimmed p.obfs)) (codes "salamander"))
        (is_empty (trimmed p.obfs_password)) _ _ _
        (insert-IsProxy (codes "tls") _ _ refl
          (insert-IsProxy (codes "password") _ _ refl (server-IsProxy p (codes "hysteria2"))))

  build_for-AllProxy : (k : ProtocolType) → AllProxy (build_for p k)
  unfolding build_for AllProxy
  build_for-AllProxy vless = generated-AllProxy _ vless-IsProxy
  build_for-AllProxy vmess = generated-AllProxy _ vmess-IsProxy
  build_for-AllProxy trojan = generated-AllProxy _ trojan-IsProxy
  build_for-AllProxy shadowsocks = generated-AllProxy _ shadowsocks-IsProxy
  build_for-AllProxy hysteria2 = hysteria2-AllProxy
  build_for-AllProxy socks = λ f e. ground (arith, e)
  build_for-AllProxy wire_guard = λ f e. ground (arith, e)

  pub built-proxy :
      (k : ProtocolType) (f : Fields) → build_for p k ≡ generated f → tag_of (obj f) ≡ codes "proxy"
  unfolding AllProxy IsProxy
  built-proxy k f e = ap to_string (build_for-AllProxy k f e)

-- Whatever the route and the DNS.
pub outbound_tags-config_object :
    (outbound route dns : Fields)
    → tag_of (obj outbound) ≡ codes "proxy"
    → outbound_tags (config_object outbound route dns) ≡ three_tags
unfolding outbound_tags config_object plain_outbound value insert text_eq text_lt
outbound_tags-config_object outbound route end h =
    ap (λ t. t ∷ codes "direct" ∷ codes "block" ∷ []) h
outbound_tags-config_object outbound route (field k v f) h =
    ap (λ t. t ∷ codes "direct" ∷ codes "block" ∷ []) h
