-- ===== src/Updater/Policy.antt =====
-- src/updater/AppUpdatePolicy.cpp: the warnings and the blockers of an update, by name.
use zarya.Prelude.{
  Bool, true, false, not, ◌&&◌, List, [], ◌∷◌, ◌++◌, Text, codes, text_eq, is_empty, if◌then◌else◌,
}
use zarya.Updater.Version.{is_less_than}
use zarya.Updater.Channel.{AppUpdateChannel, can_see_channel}
use zarya.Updater.Manifest.{AppUpdateAsset, AppUpdateChannelEntry}

-- src/packaging/InstallationMode.h; how the mode is detected is not modelled.
pub data InstallationMode : Type 0 where
  portable installed unknown : InstallationMode

abbrev pub is_installed : InstallationMode → Bool
is_installed installed = true
is_installed _ = false

pub data Warning : Type 0 where
  no_checksum unsigned_download_blocked signature_not_verified only_portable : Warning
  newer_on_hidden_channel : Text → Text → Warning

pub data Blocker : Type 0 where
  channel_not_available below_minimum_version no_matching_asset installer_required : Blocker

unfoldable pub build_warnings : InstallationMode → AppUpdateAsset → Bool → List Warning
unfolding text_eq
build_warnings mode asset allow_unsigned_download =
    (if is_empty asset.sha256
      then no_checksum
        ∷ (if not allow_unsigned_download then unsigned_download_blocked ∷ [] else [])
      else if not (text_eq asset.signature.kind (codes "none"))
          && not (is_empty asset.signature.kind)
      then signature_not_verified ∷ []
      else [])
    ++ (if is_installed mode
          && text_eq asset.installation_mode (codes "portable")
          && not (text_eq asset.installation_mode (codes "installed"))
        then only_portable ∷ []
        else [])

unfoldable pub build_blockers :
    AppUpdateChannelEntry → Text → AppUpdateChannel → Text → Bool → List Blocker
unfolding can_see_channel is_less_than
build_blockers entry current_version user_channel selected_channel_key has_matching_asset =
    (if not (can_see_channel user_channel selected_channel_key)
      then channel_not_available ∷ []
      else [])
    ++ (if not (is_empty entry.min_supported_version)
          && is_less_than current_version entry.min_supported_version
        then below_minimum_version ∷ []
        else [])
    ++ (if not has_matching_asset then no_matching_asset ∷ [] else [])
