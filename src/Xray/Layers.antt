-- ===== src/Xray/Layers.antt =====
-- src/core/XrayStreamSettings.cpp: what the two layers of the stream settings say.
use zarya.Prelude.{◌≡◌, refl, true, false, [], Text, codes, text_eq, arith}
use zarya.Json.{
  Json, str, obj, Fields, end, text_lt, value, insert, to_string, is_empty_object,
  is_empty_object-insert, value-insert,
}
use zarya.Profiles.Profile.{Profile}
use zarya.Xray.Support.{normalized_network}
use zarya.Xray.Stream.{
  Generated, generated, failed, bind, apply_transport_layer, apply_reality, apply_security_layer,
  build_tls_settings, build_reality_settings, generate,
}
use zarya.Xray.Reading.{stream_security}

-- What the stream settings say: not empty, with the network and the security.
abbrev pub IsStream : Profile → Fields → Type 0
IsStream p f =
    (is_empty_object f ≡ false)
    × (to_string (value f (codes "network")) ≡ normalized_network p)
    × (to_string (value f (codes "security")) ≡ stream_security p)

-- The settings between the two layers.
abbrev IsTransport : Text → Fields → Type 0
IsTransport network f =
    (is_empty_object f ≡ false)
    × (to_string (value f (codes "network")) ≡ network)
    × (to_string (value f (codes "security")) ≡ [])

module _ (p : Profile) where
  IsTransport-layer :
      (network : Text) (f : Fields)
      → apply_transport_layer p network end ≡ generated f
      → IsTransport network f
  unfolding apply_transport_layer value insert text_eq text_lt
  IsTransport-layer network f h = ground arith

self_key : text_eq (codes "security") (codes "security") ≡ true
unfolding text_eq
self_key = refl

network_key : text_eq (codes "security") (codes "network") ≡ false
unfolding text_eq
network_key = refl

-- Two keys written over the settings, of which the first is `security`.
secured :
    (key : Text) (v : Json) (s : Text) (network : Text) (f : Fields)
    → text_eq key (codes "network") ≡ false
    → text_eq key (codes "security") ≡ false
    → IsTransport network f
    → let g = insert key v (insert (codes "security") (str s) f) in
      (is_empty_object g ≡ false)
      × (to_string (value g (codes "network")) ≡ network)
      × (to_string (value g (codes "security")) ≡ s)
secured key v s network f h k t =
    let g = insert (codes "security") (str s) f in
    ground (
      arith,
      is_empty_object-insert key v g,
      value-insert key (codes "network") v g,
      value-insert key (codes "security") v g,
      value-insert (codes "security") (codes "network") (str s) f,
      value-insert (codes "security") (codes "security") (str s) f,
      self_key,
      network_key,
    )

pub bind-generated :
    (o : Generated) (next : Fields → Generated) (g : Fields)
    → bind o next ≡ generated g
    → (f : Fields) × (o ≡ generated f) × (next f ≡ generated g)
bind-generated (generated f) next g h = (f, refl, h)
bind-generated (failed text) next g h = ground arith

module _ (p : Profile) where
  reality_settings :
      (network : Text) (f : Fields)
      → IsTransport network f
      → let g =
          insert
            (codes "realitySettings")
            (obj (build_reality_settings p))
            (insert (codes "security") (str (codes "reality")) f) in
        (is_empty_object g ≡ false)
        × (to_string (value g (codes "network")) ≡ network)
        × (to_string (value g (codes "security")) ≡ codes "reality")
  unfolding text_eq
  reality_settings network f t =
      secured (codes "realitySettings") (obj (build_reality_settings p)) (codes "reality") network f
        refl refl t

  tls_settings :
      (network : Text) (f : Fields)
      → IsTransport network f
      → let g =
          insert
            (codes "tlsSettings")
            (obj (build_tls_settings p))
            (insert (codes "security") (str (codes "tls")) f) in
        (is_empty_object g ≡ false)
        × (to_string (value g (codes "network")) ≡ network)
        × (to_string (value g (codes "security")) ≡ codes "tls")
  unfolding text_eq
  tls_settings network f t =
      secured (codes "tlsSettings") (obj (build_tls_settings p)) (codes "tls") network f refl refl t

  security-IsStream :
      (network : Text) (f g : Fields)
      → IsTransport network f
      → apply_security_layer p network f ≡ generated g
      → (is_empty_object g ≡ false)
        × (to_string (value g (codes "network")) ≡ network)
        × (to_string (value g (codes "security")) ≡ stream_security p)
  unfolding apply_security_layer apply_reality stream_security
  security-IsStream network f g t h =
      ground (arith, reality_settings network f t, tls_settings network f t)

  -- Stream settings that are generated are not empty, and name the network and the security.
  pub generate-IsStream : (g : Fields) → generate p ≡ generated g → IsStream p g
  unfolding generate
  generate-IsStream g h =
      let (f, e, k) =
        bind-generated (apply_transport_layer p (normalized_network p) end)
          (apply_security_layer p (normalized_network p)) g h in
      security-IsStream (normalized_network p) f g (IsTransport-layer p (normalized_network p) f e)
        k
