-- ===== src/Updater/Planner.antt =====
-- src/updater/AppUpdatePlanner.cpp: from a manifest to the update that is offered.
pub mod Assets
pub mod Entries
pub mod Plans
use zarya.Prelude.{
  ℕ, ◌≡◌, refl, Bool, true, false, not, ◌&&◌, ◌||◌, List, [], ◌∷◌, ◌++◌, Option, none, some, Text,
  codes, text_eq, to_lower, contains_text, is_empty, ℤ, pos, negsuc, ltb_ℤ, if◌then◌else◌,
}
use zarya.Updater.Version.{compare, is_greater_than}
use zarya.Updater.Channel.{
  AppUpdateChannel, to_string, allowed_manifest_channel_keys, can_see_channel,
}
use zarya.Updater.Manifest.{
  AppUpdateAsset, AppUpdateChannelEntry, AppUpdateManifest, channel_entry, is_valid_asset,
}
use zarya.Updater.Policy.{
  InstallationMode, portable, installed, unknown, is_installed, Warning, newer_on_hidden_channel,
  Blocker, installer_required, build_warnings, build_blockers,
}

-- The Q_OS_… macros.
pub data Target : Type 0 where
  windows macos linux other : Target

-- What the planner reads of its surroundings: the build's target, QSysInfo's architecture, the
-- installation mode and the setting that allows unsigned downloads.
pub record Surroundings : Type 0 where
  pub target : Target
  pub cpu_architecture : Text
  pub installation_mode : InstallationMode
  pub allow_unsigned : Bool

unfoldable pub current_platform_token : Target → Text
current_platform_token windows = codes "windows"
current_platform_token macos = codes "macos"
current_platform_token linux = codes "linux"
current_platform_token other = codes "unknown"

unfoldable pub current_architecture_token : Text → Text
unfolding to_lower contains_text
current_architecture_token cpu =
    let arch = to_lower cpu in
    if contains_text arch (codes "arm64") || contains_text arch (codes "aarch64")
    then codes "arm64"
    else codes "x64"

unfoldable pub architecture_matches : Target → Text → Text → Bool
unfolding to_lower text_eq current_platform_token
architecture_matches target manifest_arch current_arch =
    let lowered = to_lower manifest_arch in
    text_eq lowered current_arch
    || ((text_eq lowered (codes "x64") || text_eq lowered (codes "amd64"))
        && (text_eq current_arch (codes "x64") || text_eq current_arch (codes "amd64")))
    || ((text_eq lowered (codes "macos") || text_eq lowered (codes "darwin"))
        && text_eq (current_platform_token target) (codes "macos"))

unfoldable pub platform_matches : Target → Text → Bool
unfolding to_lower text_eq current_platform_token
platform_matches target manifest_platform =
    let lowered = to_lower manifest_platform in
    let current = current_platform_token target in
    text_eq lowered current || (text_eq lowered (codes "darwin") && text_eq current (codes "macos"))

unfoldable pub preferred_installation_mode : InstallationMode → Text
preferred_installation_mode installed = codes "installed"
preferred_installation_mode portable = codes "portable"
preferred_installation_mode unknown = codes "portable"

unfoldable pub installation_mode_score : AppUpdateAsset → Text → ℤ
unfolding text_eq
installation_mode_score asset preferred =
    if text_eq asset.installation_mode preferred
    then pos 2
    else if text_eq preferred (codes "installed")
        && text_eq asset.installation_mode (codes "portable")
    then pos 0
    else if text_eq preferred (codes "portable")
        && text_eq asset.installation_mode (codes "installed")
    then pos 1
    else pos 1

-- The two `continue` tests of the loop over the assets.
unfoldable pub asset_matches : Surroundings → AppUpdateAsset → Bool
unfolding platform_matches architecture_matches current_architecture_token
asset_matches here asset =
    platform_matches here.target asset.platform
    && architecture_matches here.target asset.architecture
        (current_architecture_token here.cpu_architecture)

unfoldable pub asset_score : Surroundings → AppUpdateAsset → ℤ
unfolding installation_mode_score preferred_installation_mode
asset_score here asset =
    installation_mode_score asset (preferred_installation_mode here.installation_mode)

unfoldable pub select_asset_from :
    Surroundings → Option AppUpdateAsset → ℤ → List AppUpdateAsset → Option AppUpdateAsset
unfolding asset_matches asset_score
select_asset_from here best best_score [] = best
select_asset_from here best best_score (asset ∷ assets) =
    let skip = select_asset_from here best best_score assets in
    let take = select_asset_from here (some asset) (asset_score here asset) assets in
    if asset_matches here asset && ltb_ℤ best_score (asset_score here asset) then take else skip

unfoldable pub select_asset : Surroundings → List AppUpdateAsset → Option AppUpdateAsset
unfolding select_asset_from
select_asset here assets = select_asset_from here none (negsuc 0) assets

-- The entry under a key, if it names a version that is newer than the current one.
unfoldable pub newer_entry : AppUpdateManifest → Text → Text → Option AppUpdateChannelEntry
unfolding channel_entry compare
newer_entry manifest current_version key = elim (channel_entry manifest key) [
  | none ↦ none
  | some entry ↦
      if is_empty entry.latest_version
        || not (ltb_ℤ (pos 0) (compare entry.latest_version current_version))
      then none
      else some entry
]

abbrev pub Selected : Type 0
Selected = AppUpdateChannelEntry × Text

-- `bestEntry == nullptr || isGreaterThan(entry->latestVersion, bestEntry->latestVersion)`.
unfoldable pub better : Option Selected → AppUpdateChannelEntry → Bool
unfolding is_greater_than
better none entry = true
better (some (best, key)) entry = is_greater_than entry.latest_version best.latest_version

consider : Option Selected → Text → Option AppUpdateChannelEntry → Option Selected
unfolding better
consider best key none = best
consider best key (some entry) = if better best entry then some (entry, key) else best

unfoldable pub select_entry_from :
    AppUpdateManifest → Text → Option Selected → List Text → Option Selected
unfolding newer_entry consider
select_entry_from manifest current_version best [] = best
select_entry_from manifest current_version best (key ∷ keys) =
    select_entry_from manifest current_version
      (consider best key (newer_entry manifest current_version key)) keys

unfoldable pub select_best_channel_entry :
    AppUpdateManifest → Text → AppUpdateChannel → Option Selected
unfolding select_entry_from allowed_manifest_channel_keys
select_best_channel_entry manifest current_version user_channel =
    select_entry_from manifest current_version none (allowed_manifest_channel_keys user_channel)

-- The fields that the planner fills from the entry are empty where there is none.
pub record AppUpdatePlan : Type 0 where
  pub update_available : Bool
  pub current_version : Text
  pub latest_version : Text
  pub selected_channel_key : Text
  pub channel_entry : Option AppUpdateChannelEntry
  pub selected_asset : Option AppUpdateAsset
  pub warnings : List Warning
  pub blockers : List Blocker

hidden_warnings : AppUpdateChannel → Text → Text → List AppUpdateChannelEntry → List Warning
unfolding can_see_channel is_greater_than to_string text_eq
hidden_warnings user_channel selected_key latest [] = []
hidden_warnings user_channel selected_key latest (entry ∷ entries) =
    let rest = hidden_warnings user_channel selected_key latest entries in
    if text_eq entry.channel_key selected_key
    then rest
    else if not (can_see_channel user_channel entry.channel_key)
        && is_greater_than entry.latest_version latest
    then newer_on_hidden_channel entry.channel_key (to_string user_channel) ∷ rest
    else rest

abbrev pub has_valid_asset : Option AppUpdateAsset → Bool
has_valid_asset none = false
has_valid_asset (some asset) = is_valid_asset asset

-- `mode == Installed && hasAsset && selectedAsset.installationMode == "portable"`.
installer_blockers : Surroundings → Option AppUpdateAsset → List Blocker
unfolding text_eq
installer_blockers here none = []
installer_blockers here (some asset) =
    if is_installed here.installation_mode && text_eq asset.installation_mode (codes "portable")
    then installer_required ∷ []
    else []

asset_warnings : Surroundings → Option AppUpdateAsset → List Warning
unfolding build_warnings
asset_warnings here none = []
asset_warnings here (some asset) = build_warnings here.installation_mode asset here.allow_unsigned

plan_for :
    Surroundings → AppUpdateManifest → Text → AppUpdateChannel → Option Selected → AppUpdatePlan
unfolding select_asset is_valid_asset build_blockers installer_blockers hidden_warnings
    asset_warnings is_greater_than
plan_for here manifest current user_channel none = record {
  update_available = false;
  current_version = current;
  latest_version = current;
  selected_channel_key = [];
  channel_entry = none;
  selected_asset = none;
  warnings = [];
  blockers = [];
}
plan_for here manifest current user_channel (some (entry, key)) =
    let asset = select_asset here entry.assets in
    record {
      update_available = is_greater_than entry.latest_version current && has_valid_asset asset;
      current_version = current;
      latest_version = entry.latest_version;
      selected_channel_key = key;
      channel_entry = some entry;
      selected_asset = asset;
      warnings =
          hidden_warnings user_channel key entry.latest_version manifest.channels
          ++ asset_warnings here asset;
      blockers =
          build_blockers entry current user_channel key (has_valid_asset asset)
          ++ installer_blockers here asset;
    }

unfoldable pub build_plan :
    Surroundings → AppUpdateManifest → Text → AppUpdateChannel → AppUpdatePlan
unfolding plan_for select_best_channel_entry
build_plan here manifest current_version user_channel =
    plan_for here manifest current_version user_channel
      (select_best_channel_entry manifest current_version user_channel)
