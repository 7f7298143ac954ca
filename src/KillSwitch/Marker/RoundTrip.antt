-- ===== src/KillSwitch/Marker/RoundTrip.antt =====
-- src/killswitch/KillSwitchMarker.cpp: the marker that is read is the one that was written.
use zarya.Prelude.{pos, ◌≡◌, refl, List, [], ◌∷◌, map, select, not, Text, ℤ, is_empty, arith}
use zarya.Json.{num, to_int_or, str, value, insert, items-of_list}
use zarya.KillSwitch.Marker.{
  KillSwitchMarkerData, marker_to_json, marker_from_json, filled_texts, insert_filled, insert_keys,
}

-- The keys that are not empty.
pub filled : List Text → List Text
unfolding select
filled keys = select (λ key. not (is_empty key)) keys

filled_texts-map : (keys : List Text) → filled_texts (map str keys) ≡ filled keys
unfolding filled_texts filled select
filled_texts-map [] = refl
filled_texts-map (key ∷ keys) = ground (arith, filled_texts-map keys)

filled_nil : filled [] ≡ []
unfolding filled select
filled_nil = refl

module _ (version : ℤ) (backend enabled_at ruleset_name tun_interface_name : Text) where
  marker : Text → Text → List Text → KillSwitchMarkerData
  marker provider sublayer keys = record {
    version = version;
    backend = backend;
    enabled_at = enabled_at;
    ruleset_name = ruleset_name;
    tun_interface_name = tun_interface_name;
    provider_key = provider;
    sublayer_key = sublayer;
    filter_keys = keys;
  }

  marker_parts :
      (provider sublayer : Text) (keys : List Text)
      → marker_from_json (marker_to_json (marker provider sublayer keys))
        ≡ record (marker provider sublayer (filled keys)) {
          version = to_int_or (num version) (pos 1);
        }
  unfolding marker_from_json marker_to_json insert_filled insert_keys insert value marker
      filled_texts
  marker_parts [] [] [] = rw filled_nil
  marker_parts [] [] (key ∷ keys) = rw (items-of_list (map str keys), filled_texts-map (key ∷ keys))
  marker_parts [] (s ∷ sublayer) [] = rw filled_nil
  marker_parts [] (s ∷ sublayer) (key ∷ keys) =
      rw (items-of_list (map str keys), filled_texts-map (key ∷ keys))
  marker_parts (p ∷ provider) [] [] = rw filled_nil
  marker_parts (p ∷ provider) [] (key ∷ keys) =
      rw (items-of_list (map str keys), filled_texts-map (key ∷ keys))
  marker_parts (p ∷ provider) (s ∷ sublayer) [] = rw filled_nil
  marker_parts (p ∷ provider) (s ∷ sublayer) (key ∷ keys) =
      rw (items-of_list (map str keys), filled_texts-map (key ∷ keys))

-- A marker is read back as it was written, less the filter keys that are empty texts, and with the
-- version 1 for a number that does not fit 32 bits.
pub marker_from_json-marker_to_json :
    (m : KillSwitchMarkerData)
    → marker_from_json (marker_to_json m)
      ≡ record m { version = to_int_or (num m.version) (pos 1); filter_keys = filled m.filter_keys }
unfolding marker
marker_from_json-marker_to_json m =
    marker_parts m.version m.backend m.enabled_at m.ruleset_name m.tun_interface_name m.provider_key
      m.sublayer_key m.filter_keys
