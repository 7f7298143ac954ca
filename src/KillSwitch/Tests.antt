-- ===== src/KillSwitch/Tests.antt =====
-- Runs of the kill switch over nft.
use zarya.Prelude.{◌≡◌, refl, true, false, [], ◌∷◌, none, some, codes, pos}
use zarya.KillSwitch.Marker.{KillSwitchMarkerData, marker_to_json, marker_from_json}
use zarya.KillSwitch.Marker.RoundTrip.{filled, marker_from_json-marker_to_json}
use zarya.KillSwitch.Manager.{
  tun_only_experimental, disabled, enabled, initial_state, KillSwitchRuleSet, Backend, Helper,
  Surroundings, disable, enable, apply_rules, record_rules, enabled_state, fail,
}
use zarya.KillSwitch.Manager.Safety.{disable_without_marker}
use zarya.KillSwitch.LinuxNft.{
  Nft, exited, timed_out, run_nft, check_support, load_rules, enable_nft, linux_nft,
}

-- An nft that does what it is asked to.
abbrev command : Nft
command = record {
  is_found = true;
  file_error = none;
  load = λ text on. (true, exited true [] []);
  delete = λ on. (false, exited true [] []);
}

abbrev nft : Backend
nft = linux_nft command

abbrev surroundings : Surroundings
surroundings = record {
  now = 7;
  to_iso = λ time. codes "2026-05-01T10:00:00Z";
  from_iso = λ text. none;
  readable = true;
  write_error = none;
  removable = true;
}

abbrev rules : KillSwitchRuleSet
rules = record {
  mode = tun_only_experimental;
  tun_interface_name = codes "zarya-tun";
  proxy_server_host = codes "example.org";
  proxy_server_ipv4 = codes "192.0.2.1" ∷ [];
  proxy_server_ipv6 = [];
  proxy_server_port = pos 443;
  allow_lan = true;
  allow_loopback = true;
  block_direct_dns = true;
}

abbrev idle_helper : Helper
idle_helper = record { state = initial_state; marker = none; in_force = false }

abbrev switched_on : Helper
switched_on = (enable surroundings (some nft) rules true idle_helper).helper

switched_on_enabled : switched_on.state.status ≡ enabled
unfolding enable apply_rules record_rules enabled_state check_support enable_nft load_rules run_nft
switched_on_enabled = refl

-- The switch is on, and its marker file has been removed by hand.
abbrev unmarked : Helper
unmarked = record switched_on { marker = none }

disable_without_marker_example :
    ((disable surroundings (some nft) unmarked).ok ≡ true)
    × ((disable surroundings (some nft) unmarked).helper.state.status ≡ disabled)
    × ((disable surroundings (some nft) unmarked).helper.in_force ≡ unmarked.in_force)
disable_without_marker_example = disable_without_marker surroundings nft unmarked refl

still_in_force : unmarked.in_force ≡ true
unfolding enable apply_rules record_rules check_support enable_nft load_rules run_nft
still_in_force = refl

-- A load that runs out of time behind the loading of the table leaves rules without a marker file.
abbrev slow : Nft
slow = record command { load = λ text on. (true, timed_out) }

abbrev timed_out_helper : Helper
timed_out_helper = (enable surroundings (some (linux_nft slow)) rules true idle_helper).helper

unrecorded : (timed_out_helper.in_force ≡ true) × (timed_out_helper.marker ≡ none)
unfolding enable apply_rules record_rules check_support enable_nft load_rules run_nft fail
unrecorded = (refl, refl)

abbrev marker : KillSwitchMarkerData
marker = record {
  version = pos 1;
  backend = codes "windows-wfp";
  enabled_at = codes "2026-05-01T10:00:00Z";
  ruleset_name = codes "zarya";
  tun_interface_name = codes "zarya-tun";
  provider_key = [];
  sublayer_key = codes "{1}";
  filter_keys = codes "{2}" ∷ [] ∷ [];
}

marker_from_json-marker_to_json_example :
    marker_from_json (marker_to_json marker)
    ≡ record marker { filter_keys = filled marker.filter_keys }
marker_from_json-marker_to_json_example = marker_from_json-marker_to_json marker
