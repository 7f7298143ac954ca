-- ===== src/Updater/Manifest.antt =====
-- src/updater/AppUpdateAsset and AppUpdateManifest: the update manifest and its JSON form.
use zarya.Prelude.{
  Bool, false, not, ◌&&◌, List, [], ◌∷◌, map, Option, none, some, Text, codes, text_eq, trimmed,
  to_lower, eq_ignore_case, is_empty, ℤ, pos, ltb_ℤ, if◌then◌else◌,
}
use zarya.Json.{
  null, str, num, obj, Fields, end, field, value, insert, to_string, to_int_or, to_number,
  to_bool_or, to_object, to_array, is_null,
}

pub record AppUpdateSignature : Type 0 where
  pub kind : Text
  pub url : Text

pub record AppUpdateAsset : Type 0 where
  pub platform : Text
  pub architecture : Text
  pub installation_mode : Text
  pub file_name : Text
  pub url : Text
  pub size_bytes : ℤ
  pub sha256 : Text
  pub signature : AppUpdateSignature

unfoldable pub is_valid_asset : AppUpdateAsset → Bool
is_valid_asset a = not (is_empty a.platform) && not (is_empty a.file_name) && not (is_empty a.url)

unfoldable pub asset_from_json : Fields → AppUpdateAsset
unfolding value trimmed to_lower
asset_from_json object =
    let signature = to_object (value object (codes "signature")) in
    record {
      platform = to_lower (trimmed (to_string (value object (codes "platform"))));
      architecture = to_lower (trimmed (to_string (value object (codes "architecture"))));
      installation_mode = to_lower (trimmed (to_string (value object (codes "installationMode"))));
      file_name = to_string (value object (codes "fileName"));
      url = to_string (value object (codes "url"));
      size_bytes = to_number (value object (codes "sizeBytes"));
      sha256 = to_lower (trimmed (to_string (value object (codes "sha256"))));
      signature = record {
        kind = to_string (value signature (codes "type"));
        url =
            if not (is_null (value signature (codes "url")))
            then to_string (value signature (codes "url"))
            else [];
      };
    }

unfoldable pub asset_to_json : AppUpdateAsset → Fields
unfolding insert
asset_to_json a =
    let url = if is_empty a.signature.url then null else str a.signature.url in
    let signature = insert (codes "url") url (insert (codes "type") (str a.signature.kind) end) in
    insert (codes "signature") (obj signature) (
      insert (codes "sha256") (str a.sha256) (
        insert (codes "sizeBytes") (num a.size_bytes) (
          insert (codes "url") (str a.url) (
            insert (codes "fileName") (str a.file_name) (
              insert (codes "installationMode") (str a.installation_mode) (
                insert (codes "architecture") (str a.architecture)
                  (insert (codes "platform") (str a.platform) end)))))))

pub record AppUpdateChannelEntry : Type 0 where
  pub channel_key : Text
  pub latest_version : Text
  pub min_supported_version : Text
  pub release_notes_url : Text
  pub mandatory : Bool
  pub assets : List AppUpdateAsset

pub record AppUpdateManifest : Type 0 where
  pub format : Text
  pub format_version : ℤ
  pub generated_at : Text
  pub channels : List AppUpdateChannelEntry

pub data ManifestError : Type 0 where
  unsupported_format unsupported_format_version no_channels : ManifestError

-- AppUpdateManifest::isValid: `none` where it returns true.
unfoldable pub manifest_error : AppUpdateManifest → Option ManifestError
unfolding text_eq
manifest_error m =
    if not (text_eq m.format (codes "zarya-update-manifest"))
    then some unsupported_format
    else if ltb_ℤ m.format_version (pos 1)
    then some unsupported_format_version
    else if is_empty m.channels
    then some no_channels
    else none

unfoldable pub entry_from_json : Text → Fields → AppUpdateChannelEntry
unfolding value asset_from_json
entry_from_json key object = record {
  channel_key = key;
  latest_version = to_string (value object (codes "latestVersion"));
  min_supported_version = to_string (value object (codes "minSupportedVersion"));
  release_notes_url = to_string (value object (codes "releaseNotesUrl"));
  mandatory = to_bool_or (value object (codes "mandatory")) false;
  assets = map (λ v. asset_from_json (to_object v)) (to_array (value object (codes "assets")));
}

entries_from_json : Fields → List AppUpdateChannelEntry
unfolding entry_from_json
entries_from_json end = []
entries_from_json (field key v f) = entry_from_json key (to_object v) ∷ entries_from_json f

-- The default manifest, which is returned in place of one that is not valid.
abbrev pub empty_manifest : AppUpdateManifest
empty_manifest = record { format = []; format_version = pos 0; generated_at = []; channels = [] }

-- AppUpdateManifest::fromJson: the manifest, and the error that it reports.
unfoldable pub manifest_from_json : Fields → AppUpdateManifest × Option ManifestError
unfolding value entries_from_json manifest_error
manifest_from_json object =
    let manifest : AppUpdateManifest = record {
      format = to_string (value object (codes "format"));
      format_version = to_int_or (value object (codes "formatVersion")) (pos 0);
      generated_at = to_string (value object (codes "generatedAt"));
      channels = entries_from_json (to_object (value object (codes "channels")));
    } in
    elim (manifest_error manifest) [ none ↦ (manifest, none) | some e ↦ (empty_manifest, some e) ]

-- AppUpdateManifest::channelEntry: the first entry under the key, in any case.
find_entry : List AppUpdateChannelEntry → Text → Option AppUpdateChannelEntry
unfolding eq_ignore_case
find_entry [] key = none
find_entry (entry ∷ entries) key =
    if eq_ignore_case entry.channel_key key then some entry else find_entry entries key

unfoldable pub channel_entry : AppUpdateManifest → Text → Option AppUpdateChannelEntry
unfolding find_entry
channel_entry m key = find_entry m.channels key
