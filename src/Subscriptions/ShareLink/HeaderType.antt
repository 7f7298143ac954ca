-- ===== src/Subscriptions/ShareLink/HeaderType.antt =====
-- src/subscription/ShareLinkParser.cpp: the key `headerType`, which a lowered key is compared with.
use zarya.Prelude.{◌≡◌, refl, ◌∙◌, false, List, [], ◌∷◌, Text, codes, text_eq, to_lower, ◌≢◌, arith}
use zarya.Profiles.Profile.{Profile}
use zarya.Subscriptions.ShareLink.{Qt, decode_component}
use zarya.Subscriptions.ShareLink.Query.{
  Key, header_type_key, key_of, offer_password, set_mtu, set_keep_alive, set_param, apply_params,
}

-- No lowered text has the capital letter of `headerType`.
lowered : (key : Text) → text_eq (to_lower key) (codes "headerType") ≡ false
unfolding text_eq to_lower
lowered [] = refl
lowered (a ∷ []) = ground arith
lowered (a ∷ b ∷ []) = ground arith
lowered (a ∷ b ∷ c ∷ []) = ground arith
lowered (a ∷ b ∷ c ∷ d ∷ []) = ground arith
lowered (a ∷ b ∷ c ∷ d ∷ e ∷ []) = ground arith
lowered (a ∷ b ∷ c ∷ d ∷ e ∷ f ∷ []) = ground arith
lowered (a ∷ b ∷ c ∷ d ∷ e ∷ f ∷ g ∷ key) = ground arith

key_of-lowered :
    (key : Text) → text_eq key (codes "headerType") ≡ false → key_of key ≢ header_type_key
unfolding key_of
key_of-lowered key h e = ground arith

set_param-header_type :
    (key : Key) (decoded : Text) (p : Profile)
    → key ≢ header_type_key
    → (set_param key decoded p).header_type ≡ p.header_type
unfolding set_param offer_password set_mtu set_keep_alive
set_param-header_type key decoded p h = ground arith

module _ (qt : Qt) where
  -- No query, whatever its items, changes the header type of the profile: the keys are lowered
  -- before they are compared, and `headerType` is not a lowered text.
  pub apply_params-header_type :
      (p : Profile) (items : List (Text × Text))
      → (apply_params qt p items).header_type ≡ p.header_type
  unfolding apply_params
  apply_params-header_type p [] = refl
  apply_params-header_type p ((key, value) ∷ items) =
      let k = key_of (to_lower key) in
      apply_params-header_type (set_param k (decode_component qt value) p) items
      ∙ set_param-header_type k (decode_component qt value) p
          (key_of-lowered (to_lower key) (lowered key))
