-- ===== src/Updater/Planner/Plans.antt =====
-- AppUpdatePlanner.cpp, buildPlan: what an offered update satisfies.
use mathlib.Core.List.{Memᴰ}
use zarya.Prelude.{
  ◌≡◌, refl, sym, ap, ◌∙◌, ◌≢◌, inl, inr, true, false, List, none, some, arith, Bool-cases, Text,
  is_empty, negsuc, subst,
}
use zarya.Updater.Version.{parse, compare, is_greater_than, other}
use zarya.Updater.Version.Order.{compare_other_suffix, is_greater_than-asymm, not_greater_trans}
use zarya.Updater.Channel.{AppUpdateChannel, allowed_manifest_channel_keys}
use zarya.Updater.Manifest.{
  AppUpdateAsset, AppUpdateChannelEntry, AppUpdateManifest, channel_entry, is_valid_asset,
}
use zarya.Updater.Planner.{
  Surroundings, AppUpdatePlan, newer_entry, asset_matches, select_asset, plan_for,
  select_best_channel_entry, build_plan, has_valid_asset,
}
use zarya.Updater.Planner.Assets.{select_asset-Chooses}
use zarya.Updater.Planner.Entries.{IsNewerEntry, select_best-ComesFrom, select_best-not_beaten}

-- Everything that an offered update stands on.
pub record IsOffer (here : Surroundings) (manifest : AppUpdateManifest) (current : Text)
    (user : AppUpdateChannel) (plan : AppUpdatePlan) : Type 0 where
  pub entry : AppUpdateChannelEntry
  pub asset : AppUpdateAsset
  pub visible : Memᴰ plan.selected_channel_key (allowed_manifest_channel_keys user)
  pub listed : channel_entry manifest plan.selected_channel_key ≡ some entry
  pub planned_entry : plan.channel_entry ≡ some entry
  pub version : plan.latest_version ≡ entry.latest_version
  pub newer : is_greater_than plan.latest_version current ≡ true
  pub planned_asset : plan.selected_asset ≡ some asset
  pub of_entry : Memᴰ asset entry.assets
  pub fits : asset_matches here asset ≡ true
  pub valid : is_valid_asset asset ≡ true

-- The two versions have the same numbers, and the first has a suffix that is none of "",
-- "beta", "dev" and "alpha".
abbrev pub IsOddBuildOf : Text → Text → Type 0
IsOddBuildOf v w =
    ((parse v).major ≡ (parse w).major)
    × ((parse v).minor ≡ (parse w).minor)
    × ((parse v).patch ≡ (parse w).patch)
    × ((parse v).prerelease ≡ other)

newer_entry-listed :
    (manifest : AppUpdateManifest) (current key : Text) (e : AppUpdateChannelEntry)
    → newer_entry manifest current key ≡ some e
    → channel_entry manifest key ≡ some e
unfolding newer_entry
newer_entry-listed manifest current key e h = ground arith

newer_entry_of :
    (manifest : AppUpdateManifest) (current key : Text) (e : AppUpdateChannelEntry)
    → channel_entry manifest key ≡ some e
    → is_empty e.latest_version ≡ false
    → is_greater_than e.latest_version current ≡ true
    → newer_entry manifest current key ≡ some e
unfolding newer_entry is_greater_than
newer_entry_of manifest current key e h k l = rw (h, newer_entry, k) (ground arith)

newer_entry-newer :
    (manifest : AppUpdateManifest) (current key : Text) (e : AppUpdateChannelEntry)
    → newer_entry manifest current key ≡ some e
    → is_greater_than e.latest_version current ≡ true
unfolding newer_entry is_greater_than
newer_entry-newer manifest current key e h = ground arith

not_greater_of_older : (v w : Text) → compare v w ≡ negsuc 0 → is_greater_than v w ≡ false
unfolding is_greater_than
not_greater_of_older v w h = rw h

chosen_asset :
    (here : Surroundings) (assets : List AppUpdateAsset)
    → has_valid_asset (select_asset here assets) ≡ true
    → (a : AppUpdateAsset) × (select_asset here assets ≡ some a)
      × Memᴰ a assets
      × (asset_matches here a ≡ true)
      × (is_valid_asset a ≡ true)
chosen_asset here assets h = elim (select_asset-Chooses here assets) [
  | inl (r, _) ↦ cc (ap has_valid_asset r)
  | inr (a, r, m, fits, _) ↦ (a, r, m, fits, sym (ap has_valid_asset r) ∙ h)
]

module _ (here : Surroundings) (manifest : AppUpdateManifest) (current : Text)
    (user : AppUpdateChannel) where
  plan_of_some :
      (key : Text) (entry : AppUpdateChannelEntry)
      → Memᴰ key (allowed_manifest_channel_keys user)
      → IsNewerEntry manifest current key entry
      → (plan_for here manifest current user (some (entry, key))).update_available ≡ true
      → IsOffer here manifest current user (plan_for here manifest current user (some (entry, key)))
  unfolding plan_for
  plan_of_some key entry m e h =
      let (a, r, listed, fits, valid) = chosen_asset here entry.assets (ground arith) in
      record {
        entry = entry;
        asset = a;
        visible = m;
        listed = newer_entry-listed manifest current key entry e;
        planned_entry = refl;
        version = refl;
        newer = ground arith;
        planned_asset = r;
        of_entry = listed;
        fits = fits;
        valid = valid;
      }

  -- An update that the planner offers is on a channel that the user's channel may see, names a
  -- version newer than the current one, and comes with an asset of that entry which matches the
  -- platform and the architecture and has a platform, a file name and an address.
  pub build_plan-IsOffer :
      (build_plan here manifest current user).update_available ≡ true
      → IsOffer here manifest current user (build_plan here manifest current user)
  unfolding build_plan plan_for
  build_plan-IsOffer h = elim (select_best-ComesFrom manifest current user) [
    | inl e ↦ cc
    | inr (key, entry, m, n, e) ↦
        subst (λ s. IsOffer here manifest current user (plan_for here manifest current user s))
          (sym e)
          (plan_of_some key entry m n
            (sym (ap (λ s. (plan_for here manifest current user s).update_available) e) ∙ h))
  ]

  latest_of_none :
      select_best_channel_entry manifest current user ≡ none
      → (build_plan here manifest current user).latest_version ≡ current
  unfolding build_plan plan_for
  latest_of_none e = ap (λ s. (plan_for here manifest current user s).latest_version) e

  latest_of_some :
      (entry : AppUpdateChannelEntry) (key : Text)
      → select_best_channel_entry manifest current user ≡ some (entry, key)
      → (build_plan here manifest current user).latest_version ≡ entry.latest_version
  unfolding build_plan plan_for
  latest_of_some entry key e = ap (λ s. (plan_for here manifest current user s).latest_version) e

  current-not_beaten :
      (v : Text)
      → is_greater_than v current ≡ false
      → is_greater_than v (build_plan here manifest current user).latest_version ≡ false
  current-not_beaten v h = elim (select_best-ComesFrom manifest current user) [
    | inl e ↦ rw (latest_of_none e) h
    | inr (key, entry, _, n, e) ↦ rw (latest_of_some entry key e) (
        not_greater_trans v current entry.latest_version h (
          is_greater_than-asymm entry.latest_version current
            (newer_entry-newer manifest current key entry n)))
  ]

  -- No channel that the user may see has a version newer than the one that the plan names as the
  -- latest, whether an update is offered or not.
  pub build_plan-latest :
      (key : Text) (entry : AppUpdateChannelEntry)
      → Memᴰ key (allowed_manifest_channel_keys user)
      → channel_entry manifest key ≡ some entry
      → is_empty entry.latest_version ≡ false
      → is_greater_than entry.latest_version (build_plan here manifest current user).latest_version
        ≡ false
  build_plan-latest key entry m listed named =
      elim (Bool-cases (is_greater_than entry.latest_version current)) [
        | inr old ↦ current-not_beaten entry.latest_version old
        | inl newer ↦
            let (best, k, q, r) =
              select_best-not_beaten manifest current user key entry m
                (newer_entry_of manifest current key entry listed named newer) in
            rw (latest_of_some best k q) r
      ]

  -- A candidate is never offered to its own beta: where every channel that the user may see names
  -- a build of the current version's numbers under a suffix such as "rc1", and the current version
  -- is a release, a beta or a development build, no update is available.
  pub build_plan-misses_candidates :
      ((key : Text) (entry : AppUpdateChannelEntry)
        → Memᴰ key (allowed_manifest_channel_keys user)
        → channel_entry manifest key ≡ some entry
        → IsOddBuildOf entry.latest_version current)
      → (parse current).prerelease ≢ other
      → (build_plan here manifest current user).update_available ≡ false
  build_plan-misses_candidates odd even =
      elim (Bool-cases (build_plan here manifest current user).update_available) [
        | inr e ↦ e
        | inl e ↦
            let o = build_plan-IsOffer e in
            let (major, minor, patch, suffix) = odd _ o.entry o.visible o.listed in
            let older =
              not_greater_of_older o.entry.latest_version current (
                compare_other_suffix o.entry.latest_version current major minor patch suffix
                  even) in
            cc (ap (λ v. is_greater_than v current) o.version, o.newer, older)
      ]
