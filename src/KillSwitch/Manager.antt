-- ===== src/KillSwitch/Manager.antt =====
-- src/killswitch/KillSwitchManager.cpp: the state machine of the kill switch over one of the
-- platform's back ends, which is a parameter.
pub mod Safety
use zarya.Prelude.{
  ℕ, Bool, true, false, not, ◌&&◌, ◌||◌, List, [], ◌∷◌, Option, none, some, Text, codes, is_empty,
  ℤ, pos, if◌then◌else◌,
}
use zarya.KillSwitch.Marker.{KillSwitchMarkerData}

pub data KillSwitchMode : Type 0 where
  mode_disabled tun_only_experimental : KillSwitchMode

pub data KillSwitchStatus : Type 0 where
  disabled enabling enabled disabling failed needs_recovery unsupported : KillSwitchStatus

abbrev pub is_enabled : KillSwitchStatus → Bool
is_enabled enabled = true
is_enabled _ = false

-- A time is `none` where QDateTime is invalid.
pub record KillSwitchState : Type 0 where
  pub status : KillSwitchStatus
  pub mode : KillSwitchMode
  pub backend : Text
  pub last_error : Text
  pub enabled_at : Option ℕ
  pub active_rules : List Text
  pub recovery_marker_present : Bool
  pub privileged : Bool
  pub supported : Bool

abbrev pub initial_state : KillSwitchState
initial_state = record {
  status = disabled;
  mode = mode_disabled;
  backend = [];
  last_error = [];
  enabled_at = none;
  active_rules = [];
  recovery_marker_present = false;
  privileged = false;
  supported = false;
}

pub record KillSwitchRuleSet : Type 0 where
  pub mode : KillSwitchMode
  pub tun_interface_name : Text
  pub proxy_server_host : Text
  pub proxy_server_ipv4 : List Text
  pub proxy_server_ipv6 : List Text
  pub proxy_server_port : ℤ
  pub allow_lan : Bool
  pub allow_loopback : Bool
  pub block_direct_dns : Bool

-- IKillSwitchBackend. `enable` and `disable` take whether rules are in force, and give whether they
-- are then, and the message with which they fail.
pub record Backend : Type 0 where
  pub backend_id : Text
  pub check_support : Bool → KillSwitchState
  pub enable : KillSwitchRuleSet → Bool → Bool × Option Text
  pub disable : Bool → Bool × Option Text
  pub augment_marker : KillSwitchMarkerData → KillSwitchMarkerData
  pub active_rule_descriptions : List Text

-- The manager's state, the marker file, and whether rules are in force.
pub record Helper : Type 0 where
  pub state : KillSwitchState
  pub marker : Option KillSwitchMarkerData
  pub in_force : Bool

-- What a call meets: the time, its text and the time of a text, and what reading, writing and
-- removing the marker file do; `write_error` is `none` where it can be written.
pub record Surroundings : Type 0 where
  pub now : ℕ
  pub to_iso : ℕ → Text
  pub from_iso : Text → Option ℕ
  pub readable : Bool
  pub write_error : Option Text
  pub removable : Bool

-- The result of a call and the text of *errorMessage, if it is written to.
pub record Reply : Type 0 where
  pub helper : Helper
  pub ok : Bool
  pub message : Option Text

unfoldable pub fail : Helper → Text → Reply
fail h text = record {
  helper = record h { state = record h.state { status = failed; last_error = text } };
  ok = false;
  message = some text;
}

-- The fields of the state that a marker file sets when it can be read.
unfoldable pub with_marker :
    Surroundings → Option KillSwitchMarkerData → KillSwitchState → KillSwitchState
with_marker env none s = s
with_marker env (some m) s =
    if env.readable
    then record s { backend = m.backend; enabled_at = env.from_iso m.enabled_at }
    else s

abbrev pub is_present : Option KillSwitchMarkerData → Bool
is_present none = false
is_present (some m) = true

unfoldable pub refresh_startup_state : Surroundings → Bool → Helper → Helper
unfolding with_marker
refresh_startup_state env privileged h =
    let seen = is_present h.marker in
    record h {
      state = record (with_marker env h.marker h.state) {
        status = if seen then needs_recovery else disabled;
        recovery_marker_present = seen;
        privileged = privileged;
      };
    }

-- enable behind the writing of the marker.
unfoldable pub enabled_state :
    Surroundings → Backend → KillSwitchRuleSet → KillSwitchState → KillSwitchState
enabled_state env b rules s = record s {
  status = enabled;
  mode = rules.mode;
  backend = b.backend_id;
  enabled_at = some env.now;
  recovery_marker_present = true;
  last_error = [];
  active_rules =
      if is_empty b.active_rule_descriptions
      then codes "table inet zarya" ∷ []
      else b.active_rule_descriptions;
}

unfoldable pub new_marker : Surroundings → Backend → KillSwitchRuleSet → KillSwitchMarkerData
new_marker env b rules = b.augment_marker record {
  version = pos 1;
  backend = b.backend_id;
  enabled_at = env.to_iso env.now;
  ruleset_name = codes "zarya";
  tun_interface_name = rules.tun_interface_name;
  provider_key = [];
  sublayer_key = [];
  filter_keys = [];
}

-- enable behind the back end's: the marker, and where it cannot be written the rules are taken off
-- without a look at whether that works.
unfoldable pub record_rules :
    Surroundings → Backend → KillSwitchRuleSet → Helper → Option Text → Reply
unfolding fail enabled_state new_marker
record_rules env b rules h (some text) =
    fail (record h { in_force = (b.disable h.in_force).0 }) text
record_rules env b rules h none = record {
  helper = record h {
    state = enabled_state env b rules h.state;
    marker = some (new_marker env b rules);
  };
  ok = true;
  message = none;
}

unfoldable pub apply_rules :
    Surroundings → Backend → KillSwitchRuleSet → Helper → Bool × Option Text → Reply
unfolding record_rules fail
apply_rules env b rules h (on, some text) = fail (record h { in_force = on }) text
apply_rules env b rules h (on, none) =
    record_rules env b rules (record h { in_force = on }) env.write_error

-- enable; a back end that is not there is reported first.
unfoldable pub enable : Surroundings → Option Backend → KillSwitchRuleSet → Bool → Helper → Reply
unfolding apply_rules fail
enable env none rules privileged h = record {
  helper = h;
  ok = false;
  message = some (codes "Kill switch backend unavailable.");
}
enable env (some b) rules privileged h =
    let support = b.check_support privileged in
    if not support.supported
    then record {
      helper = record h { state = support };
      ok = false;
      message = some support.last_error;
    }
    else if not privileged
    then fail (record h { state = record h.state { privileged = false } })
        (codes "Cannot enable kill switch: helper is not privileged.")
    else apply_rules env b rules (record h { state = record h.state { status = enabling } })
        (b.enable rules h.in_force)

-- KillSwitchMarker::remove and the end of disable: its message does not change the result.
unfoldable pub remove_marker : Surroundings → Backend → Helper → Reply
remove_marker env b h =
    let stays = is_present h.marker && not env.removable in
    record {
      helper = record h {
        state = record initial_state { backend = b.backend_id };
        marker = if stays then h.marker else none;
      };
      ok = true;
      message = if stays then some (codes "Could not remove kill switch marker.") else none;
    }

unfoldable pub take_off : Surroundings → Backend → Helper → Bool × Option Text → Reply
unfolding remove_marker fail
take_off env b h (on, some text) = fail (record h { in_force = on }) text
take_off env b h (on, none) = remove_marker env b (record h { in_force = on })

-- disable: the status is Disabling before it is tested for Enabled.
unfoldable pub disable : Surroundings → Option Backend → Helper → Reply
unfolding take_off remove_marker
disable env none h = record { helper = h; ok = true; message = none }
disable env (some b) h =
    let left = record h { state = record h.state { status = disabling } } in
    if is_enabled left.state.status || is_present left.marker
    then take_off env b left (b.disable left.in_force)
    else remove_marker env b left

unfoldable pub recover : Surroundings → Option Backend → Bool → Helper → Reply
unfolding disable
recover env b force h = disable env b h
