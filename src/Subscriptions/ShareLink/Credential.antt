-- ===== src/Subscriptions/ShareLink/Credential.antt =====
-- src/subscription/ShareLinkParser.cpp: where the password and the UUID of a link come from.
use zarya.Prelude.{
  ◌≡◌, refl, Bool, true, false, ◌||◌, List, [], ◌∷◌, Text, to_lower, is_empty, arith, if◌then◌else◌,
}
use zarya.Profiles.Profile.{Profile}
use zarya.Subscriptions.Parser.{parsed}
use zarya.Subscriptions.ShareLink.{Qt, decode_component, base_imported_profile}
use zarya.Subscriptions.ShareLink.Query.{
  Key, auth_key, private_key, key_of, offer_password, set_mtu, set_keep_alive, set_param,
  apply_params,
}
use zarya.Subscriptions.ShareLink.Links.{vless_start, parse_vless}
use zarya.Subscriptions.ShareLink.Kept.{SamePassword, apply_params-password, vless_profile-Same}

-- The keys `auth`, `password`, `privatekey` and `secretkey`.
abbrev pub is_credential : Key → Bool
is_credential auth_key = true
is_credential private_key = true
is_credential _ = false

abbrev pub or_else : Text → Text → Text
or_else [] t = t
or_else (c ∷ s) t = c ∷ s

pub names_credential : List (Text × Text) → Bool
names_credential [] = false
names_credential ((key, value) ∷ items) =
    is_credential (key_of (to_lower key)) || names_credential items

module _ (qt : Qt) where
  -- The first value under such a key that is not empty.
  pub given_password : List (Text × Text) → Text
  given_password [] = []
  given_password ((key, value) ∷ items) =
      let rest = given_password items in
      if is_credential (key_of (to_lower key))
      then or_else (decode_component qt value) rest
      else rest

set_param-other :
    (key : Key) (decoded : Text) (p : Profile)
    → is_credential key ≡ false
    → SamePassword p (set_param key decoded p)
unfolding set_param set_mtu set_keep_alive
set_param-other key decoded p h = ground arith

set_param-credential :
    (key : Key) (decoded : Text) (p : Profile)
    → is_credential key ≡ true
    → is_empty p.password ≡ true
    → ((set_param key decoded p).password ≡ decoded)
      × ((set_param key decoded p).uuid_password ≡ decoded)
unfolding set_param offer_password
set_param-credential key decoded p h k = ground arith

module _ (qt : Qt) where
  apply_params-cons :
      (p : Profile) (key value : Text) (items : List (Text × Text))
      → apply_params qt p ((key, value) ∷ items)
        ≡ apply_params qt (set_param (key_of (to_lower key)) (decode_component qt value) p) items
  unfolding apply_params
  apply_params-cons p key value items = refl

  apply_params-nil : (p : Profile) → apply_params qt p [] ≡ p
  unfolding apply_params
  apply_params-nil p = refl

  given_password-none :
      (items : List (Text × Text)) → names_credential items ≡ false → given_password qt items ≡ []
  unfolding names_credential given_password
  given_password-none [] h = refl
  given_password-none ((key, value) ∷ items) h = ground (arith, given_password-none items)

  -- A profile without a password takes the first one that the query offers, and with it its UUID;
  -- the UUID is left alone only where no key of a credential stands in the query.
  apply_params-credential :
      (p : Profile) (items : List (Text × Text))
      → is_empty p.password ≡ true
      → ((apply_params qt p items).password ≡ given_password qt items)
        × ((apply_params qt p items).uuid_password
            ≡ (if names_credential items then given_password qt items else p.uuid_password))
  unfolding given_password names_credential
  apply_params-credential p [] h = ground (arith, apply_params-nil p)
  apply_params-credential p ((key, value) ∷ items) h =
      let k = key_of (to_lower key) in
      let decoded = decode_component qt value in
      let q = set_param k decoded p in
      ground (
        arith,
        apply_params-cons p key value items,
        set_param-other k decoded p,
        set_param-credential k decoded p,
        apply_params-credential q items,
        given_password-none items,
        apply_params-password qt q items,
      )

  vless_start-password :
      (url : _)
      → ((vless_start qt url).password ≡ [])
        × ((vless_start qt url).uuid_password ≡ decode_component qt url.user_name)
  unfolding vless_start base_imported_profile
  vless_start-password url = (refl, refl)

  -- The UUID of a VLESS link that is parsed is the decoded user of its URL if no item of the query
  -- has one of the keys `auth`, `password`, `privatekey` and `secretkey`; otherwise it is the first
  -- decoded value under such a key that is not empty, or empty if there is none.
  pub parse_vless-uuid_password :
      (link : Text) (p : Profile)
      → parse_vless qt link ≡ parsed p
      → let url = qt.url link in
        p.uuid_password ≡ (
          if names_credential url.query_items
          then given_password qt url.query_items
          else decode_component qt url.user_name)
  unfolding parse_vless
  parse_vless-uuid_password link p h =
      let url = qt.url link in
      ground (
        arith,
        vless_profile-Same qt url,
        vless_start-password url,
        apply_params-credential (vless_start qt url) url.query_items,
      )
