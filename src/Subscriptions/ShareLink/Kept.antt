-- ===== src/Subscriptions/ShareLink/Kept.antt =====
-- src/subscription/ShareLinkParser.cpp: what the query of a link leaves alone.
use zarya.Prelude.{
  ◌≡◌, refl, false, List, [], ◌∷◌, Option, none, some, Text, to_lower, is_empty, ℤ, arith,
}
use zarya.Profiles.Profile.{Profile}
use zarya.Subscriptions.ShareLink.{Qt, Url, decode_component, with_name}
use zarya.Subscriptions.ShareLink.Query.{
  Key, key_of, offer_password, set_mtu, set_keep_alive, set_param, apply_param, apply_params,
}
use zarya.Subscriptions.ShareLink.Links.{
  vless_start, vless_profile, trojan_start, trojan_profile, hysteria2_start, hysteria2_query,
  hysteria2_profile, wire_guard_start, wire_guard_query, wire_guard_profile, guess_reality,
  guess_tls, default_tls, check_obfs_type, check_obfs_password,
}

-- `q` has the identity, the protocol and the endpoint of `p`.
abbrev pub SameServer : Profile → Profile → Type 0
SameServer p q =
    (q.id ≡ p.id)
    × (q.protocol ≡ p.protocol)
    × (q.core_type ≡ p.core_type)
    × (q.enabled ≡ p.enabled)
    × (q.address ≡ p.address)
    × (q.port ≡ p.port)

abbrev pub SamePassword : Profile → Profile → Type 0
SamePassword p q = (q.password ≡ p.password) × (q.uuid_password ≡ p.uuid_password)

set_mtu-SameServer : (o : Option ℤ) (p : Profile) → SameServer p (set_mtu o p)
unfolding set_mtu
set_mtu-SameServer none p = ground arith
set_mtu-SameServer (some mtu) p = ground arith

set_keep_alive-SameServer : (o : Option ℤ) (p : Profile) → SameServer p (set_keep_alive o p)
unfolding set_keep_alive
set_keep_alive-SameServer none p = ground arith
set_keep_alive-SameServer (some n) p = ground arith

set_param-SameServer :
    (key : Key) (decoded : Text) (p : Profile) → SameServer p (set_param key decoded p)
unfolding set_param offer_password
set_param-SameServer key decoded p = ground arith

module _ (qt : Qt) where
  pub apply_params-SameServer :
      (p : Profile) (items : List (Text × Text)) → SameServer p (apply_params qt p items)
  unfolding apply_params apply_param
  apply_params-SameServer p [] = (refl, refl, refl, refl, refl, refl)
  apply_params-SameServer p ((key, value) ∷ items) = ground (
    arith,
    set_param-SameServer (key_of (to_lower key)) (decode_component qt value) p,
    apply_params-SameServer (apply_param qt p (to_lower key) value) items,
  )

set_param-password :
    (key : Key) (decoded : Text) (p : Profile)
    → is_empty p.password ≡ false
    → SamePassword p (set_param key decoded p)
unfolding set_param offer_password set_mtu set_keep_alive
set_param-password key decoded p h = ground arith

guess_reality-Same :
    (p : Profile) → SameServer p (guess_reality p) × SamePassword p (guess_reality p)
unfolding guess_reality
guess_reality-Same p = ground arith

guess_tls-Same : (p : Profile) → SameServer p (guess_tls p) × SamePassword p (guess_tls p)
unfolding guess_tls
guess_tls-Same p = ground arith

default_tls-Same : (p : Profile) → SameServer p (default_tls p) × SamePassword p (default_tls p)
unfolding default_tls
default_tls-Same p = ground arith

check_obfs_type-Same :
    (p : Profile) → SameServer p (check_obfs_type p) × SamePassword p (check_obfs_type p)
unfolding check_obfs_type
check_obfs_type-Same p = ground arith

check_obfs_password-Same :
    (p : Profile) → SameServer p (check_obfs_password p) × SamePassword p (check_obfs_password p)
unfolding check_obfs_password
check_obfs_password-Same p = ground arith

module _ (qt : Qt) where
  with_name-Same :
      (name : Text) (p : Profile)
      → SameServer p (with_name qt name p) × SamePassword p (with_name qt name p)
  unfolding with_name
  with_name-Same name p = ground arith

  -- A password that stands before the query is the one that the query leaves.
  pub apply_params-password :
      (p : Profile) (items : List (Text × Text))
      → is_empty p.password ≡ false
      → SamePassword p (apply_params qt p items)
  unfolding apply_params apply_param
  apply_params-password p [] h = (refl, refl)
  apply_params-password p ((key, value) ∷ items) h = ground (
    arith,
    set_param-password (key_of (to_lower key)) (decode_component qt value) p,
    apply_params-password (apply_param qt p (to_lower key) value) items,
  )

  -- What follows the query changes neither the server nor the password.
  pub vless_profile-Same :
      (url : Url)
      → let q = apply_params qt (vless_start qt url) url.query_items in
        SameServer (vless_start qt url) (vless_profile qt url)
        × SamePassword q (vless_profile qt url)
  unfolding vless_profile
  vless_profile-Same url =
      let q = apply_params qt (vless_start qt url) url.query_items in
      let name = decode_component qt url.fragment in
      ground (
        arith,
        apply_params-SameServer qt (vless_start qt url) url.query_items,
        with_name-Same name q,
        guess_reality-Same (with_name qt name q),
      )

  pub trojan_profile-Same :
      (url : Url)
      → let q = apply_params qt (trojan_start qt url) url.query_items in
        SameServer (trojan_start qt url) (trojan_profile qt url)
        × SamePassword q (trojan_profile qt url)
  unfolding trojan_profile
  trojan_profile-Same url =
      let q = apply_params qt (trojan_start qt url) url.query_items in
      ground (
        arith,
        apply_params-SameServer qt (trojan_start qt url) url.query_items,
        guess_reality-Same q,
        guess_tls-Same (guess_reality q),
        with_name-Same (decode_component qt url.fragment) (guess_tls (guess_reality q)),
      )

  hysteria2_query-SameServer :
      (url : Url) → SameServer (hysteria2_start qt url) (hysteria2_query qt url)
  unfolding hysteria2_query
  hysteria2_query-SameServer url =
      apply_params-SameServer qt (hysteria2_start qt url) url.query_items

  pub hysteria2_profile-Same :
      (url : Url)
      → SameServer (hysteria2_start qt url) (hysteria2_profile qt url)
        × SamePassword (hysteria2_query qt url) (hysteria2_profile qt url)
  unfolding hysteria2_profile
  hysteria2_profile-Same url =
      let q = hysteria2_query qt url in
      ground (
        arith,
        hysteria2_query-SameServer url,
        default_tls-Same q,
        check_obfs_type-Same (default_tls q),
        check_obfs_password-Same (check_obfs_type (default_tls q)),
        with_name-Same (decode_component qt url.fragment)
            (check_obfs_password (check_obfs_type (default_tls q))),
      )

  pub wire_guard_profile-Same :
      (url : Url)
      → SameServer (wire_guard_start qt url) (wire_guard_profile qt url)
        × SamePassword (wire_guard_query qt url) (wire_guard_profile qt url)
        × ((wire_guard_profile qt url).public_key ≡ (wire_guard_query qt url).public_key)
  unfolding wire_guard_profile wire_guard_query with_name
  wire_guard_profile-Same url =
      ground (arith, apply_params-SameServer qt (wire_guard_start qt url) url.query_items)
