-- ===== src/Updater/Tests.antt =====
-- Runs of src/updater on concrete versions and manifests.
use mathlib.Core.List.{Memᴰ}
use mathlib.Core.Option.{some-injective}
use zarya.Prelude.{
  ◌≡◌, refl, subst, ◌≢◌, ◌↔◌, true, false, [], ◌∷◌, some, Text, codes, pos, negsuc, to_lower,
  contains_text, text_eq, eq_ignore_case,
}
use zarya.Updater.Version.{
  parse, compare, is_less_than, is_greater_than, compare_parsed, by_then, prerelease_rank, beta,
  other,
}
use zarya.Updater.Version.Order.{
  opposite, compare-opposite, is_less_than_trans, compare-eq-zero_iff,
}
use zarya.Updater.Channel.{stable, AppUpdateChannel}
use zarya.Updater.Channel as Channel
use zarya.Updater.Manifest.{AppUpdateAsset, AppUpdateChannelEntry, AppUpdateManifest, channel_entry}
use zarya.Updater.Policy.{portable}
use zarya.Updater.Planner.{
  Surroundings, linux, build_plan, select_asset, asset_matches, asset_score,
}
use zarya.Updater.Planner.Assets.{Chooses, select_asset-Chooses}
use zarya.Updater.Planner.Plans.{
  IsOffer, build_plan-IsOffer, build_plan-latest, build_plan-misses_candidates, IsOddBuildOf,
}

parsed_beta :
    parse (codes " v1.36.0-Beta ")
    ≡ record { major = pos 1; minor = pos 36; patch = pos 0; prerelease = beta }
unfolding parse
parsed_beta = refl

versions : Unit {0}
unfolding compare is_less_than is_greater_than parse compare_parsed by_then prerelease_rank
versions = tt

ordered :
    (compare (codes "1.10.0") (codes "1.9.9") ≡ pos 1)
    × (compare (codes "0.36.0-rc1") (codes "0.36.0-beta") ≡ negsuc 0)
    × (compare (codes "1.0") (codes "v1.0.0") ≡ pos 0)
unfolding versions
ordered = (refl, refl, refl)

abbrev asset : AppUpdateAsset
asset = record {
  platform = codes "linux";
  architecture = codes "amd64";
  installation_mode = codes "portable";
  file_name = codes "zarya.zip";
  url = codes "https://e/z";
  size_bytes = pos 7;
  sha256 = codes "ab";
  signature = record { kind = codes "none"; url = [] };
}

abbrev entry : AppUpdateChannelEntry
entry = record {
  channel_key = codes "Stable";
  latest_version = codes "1.2.0";
  min_supported_version = [];
  release_notes_url = [];
  mandatory = false;
  assets = asset ∷ [];
}

abbrev manifest : AppUpdateManifest
manifest = record {
  format = codes "zarya-update-manifest";
  format_version = pos 1;
  generated_at = [];
  channels = entry ∷ [];
}

abbrev candidate : AppUpdateChannelEntry
candidate = record entry { latest_version = codes "1.1.0-rc1" }

abbrev candidates : AppUpdateManifest
candidates = record manifest { channels = candidate ∷ [] }

abbrev here : Surroundings
here = record {
  target = linux;
  cpu_architecture = codes "x86_64";
  installation_mode = portable;
  allow_unsigned = false;
}

planner : Unit {0}
unfolding build_plan channel_entry asset_matches asset_score versions eq_ignore_case to_lower
    contains_text text_eq
planner = tt

offered : (build_plan here manifest (codes "1.1.0") stable).update_available ≡ true
unfolding planner
offered = refl

build_plan-IsOffer_example :
    IsOffer here manifest (codes "1.1.0") stable (build_plan here manifest (codes "1.1.0") stable)
build_plan-IsOffer_example = build_plan-IsOffer here manifest (codes "1.1.0") stable offered

listed : channel_entry manifest (codes "stable") ≡ some entry
unfolding channel_entry eq_ignore_case text_eq
listed = refl

visible : Memᴰ (codes "stable") (Channel.allowed_manifest_channel_keys stable)
unfolding Channel.allowed_manifest_channel_keys
visible = Memᴰ.head refl

build_plan-latest_example :
    is_greater_than (codes "1.2.0") (build_plan here manifest (codes "1.1.0") stable).latest_version
    ≡ false
build_plan-latest_example =
    build_plan-latest here manifest (codes "1.1.0") stable (codes "stable") entry visible listed
      refl

select_asset-Chooses_example : Chooses here (asset ∷ []) (select_asset here (asset ∷ []))
select_asset-Chooses_example = select_asset-Chooses here (asset ∷ [])

compare-opposite_example :
    compare (codes "1.0.0") (codes "1.0.0-dev")
    ≡ opposite (compare (codes "1.0.0-dev") (codes "1.0.0"))
compare-opposite_example = compare-opposite (codes "1.0.0-dev") (codes "1.0.0")

is_less_than_trans_example : is_less_than (codes "1.0.0-beta") (codes "1.1.0") ≡ true
unfolding versions
is_less_than_trans_example =
    is_less_than_trans (codes "1.0.0-beta") (codes "1.0.0") (codes "1.1.0") refl refl

compare-eq-zero_iff_example :
    (compare (codes "1.0") (codes "v1.0.0") ≡ pos 0)
    ↔ (parse (codes "1.0") ≡ parse (codes "v1.0.0"))
compare-eq-zero_iff_example = compare-eq-zero_iff (codes "1.0") (codes "v1.0.0")

only_stable :
    {key : Text} → Memᴰ key (Channel.allowed_manifest_channel_keys stable) → key ≡ codes "stable"
unfolding Channel.allowed_manifest_channel_keys
only_stable (Memᴰ.head e) = e
only_stable (Memᴰ.tail m) = elim m [ ]

odd_builds :
    (key : Text) (e : AppUpdateChannelEntry)
    → Memᴰ key (Channel.allowed_manifest_channel_keys stable)
    → channel_entry candidates key ≡ some e
    → IsOddBuildOf e.latest_version (codes "1.1.0-beta")
unfolding parse channel_entry eq_ignore_case text_eq
odd_builds key e m h =
    let found : some candidate ≡ some e =
      subst (λ k. channel_entry candidates k ≡ some e) (only_stable m) h in
    subst (λ (x : AppUpdateChannelEntry). IsOddBuildOf x.latest_version (codes "1.1.0-beta"))
      (some-injective _ _ found) (refl, refl, refl, refl)

released : (parse (codes "1.1.0-beta")).prerelease ≢ other
unfolding parse
released e = cc e

build_plan-misses_candidates_example :
    (build_plan here candidates (codes "1.1.0-beta") stable).update_available ≡ false
build_plan-misses_candidates_example =
    build_plan-misses_candidates here candidates (codes "1.1.0-beta") stable odd_builds released
