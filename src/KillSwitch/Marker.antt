-- ===== src/KillSwitch/Marker.antt =====
-- src/killswitch/KillSwitchMarker.cpp: the file that says that rules are in force.
pub mod RoundTrip
use zarya.Prelude.{Bool, List, [], ◌∷◌, map, Text, codes, is_empty, ℤ, pos, if◌then◌else◌}
use zarya.Json.{
  Json, num, str, arr, Fields, end, value, insert, to_string, to_int_or, to_array, of_list,
}

pub record KillSwitchMarkerData : Type 0 where
  pub version : ℤ
  pub backend : Text
  pub enabled_at : Text
  pub ruleset_name : Text
  pub tun_interface_name : Text
  pub provider_key : Text
  pub sublayer_key : Text
  pub filter_keys : List Text

-- `if (!text.isEmpty()) object.insert(…)`.
unfoldable pub insert_filled : Text → Text → Fields → Fields
unfolding insert
insert_filled key text object = if is_empty text then object else insert key (str text) object

unfoldable pub insert_keys : List Text → Fields → Fields
unfolding insert
insert_keys keys object =
    if is_empty keys
    then object
    else insert (codes "filterKeys") (arr (of_list (map str keys))) object

-- The document that `write` leaves.
unfoldable pub marker_to_json : KillSwitchMarkerData → Fields
unfolding insert insert_filled insert_keys
marker_to_json marker = insert_keys marker.filter_keys (
    insert_filled (codes "sublayerKey") marker.sublayer_key (
      insert_filled (codes "providerKey") marker.provider_key (
        insert (codes "tunInterfaceName") (str marker.tun_interface_name) (
          insert (codes "rulesetName") (str marker.ruleset_name) (
            insert (codes "enabledAt") (str marker.enabled_at) (
              insert (codes "backend") (str marker.backend)
                (insert (codes "version") (num marker.version) end)))))))

unfoldable pub filled_texts : List Json → List Text
filled_texts [] = []
filled_texts (v ∷ vs) =
    let rest = filled_texts vs in if is_empty (to_string v) then rest else to_string v ∷ rest

-- What `read` makes of a document, into data whose list of keys is empty.
unfoldable pub marker_from_json : Fields → KillSwitchMarkerData
unfolding value filled_texts
marker_from_json object = record {
  version = to_int_or (value object (codes "version")) (pos 1);
  backend = to_string (value object (codes "backend"));
  enabled_at = to_string (value object (codes "enabledAt"));
  ruleset_name = to_string (value object (codes "rulesetName"));
  tun_interface_name = to_string (value object (codes "tunInterfaceName"));
  provider_key = to_string (value object (codes "providerKey"));
  sublayer_key = to_string (value object (codes "sublayerKey"));
  filter_keys = filled_texts (to_array (value object (codes "filterKeys")));
}
