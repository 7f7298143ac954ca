-- ===== src/Updater/Planner/Entries.antt =====
-- AppUpdatePlanner.cpp, selectBestChannelEntry: which channel of the manifest is taken.
use mathlib.Core.List.{Memᴰ}
use mathlib.Core.Path.{subst₂}
use zarya.Prelude.{
  ap, All-mem, ◌≡◌, refl, ◌∙◌, ◌⊎◌, inl, inr, false, List, [], ◌∷◌, All, Option, none, some,
  Bool-cases, Option-cases, Text,
}
use zarya.Updater.Version.{is_greater_than}
use zarya.Updater.Version.Order.{not_greater_trans, is_greater_than_irrefl, is_greater_than-asymm}
use zarya.Updater.Channel.{AppUpdateChannel, allowed_manifest_channel_keys}
use zarya.Updater.Manifest.{AppUpdateChannelEntry, AppUpdateManifest}
use zarya.Updater.Planner.{
  Selected, newer_entry, better, consider, select_entry_from, select_best_channel_entry,
}

module _ (manifest : AppUpdateManifest) (current : Text) where
  abbrev pub IsNewerEntry : Text → AppUpdateChannelEntry → Type 0
  IsNewerEntry key entry = newer_entry manifest current key ≡ some entry

  -- A selection that is at least as new as another.
  abbrev AtLeast : Option Selected → Option Selected → Type 0
  AtLeast r none = Unit {0}
  AtLeast none (some b) = ⊥
  AtLeast (some (e, k)) (some (b, j)) = is_greater_than b.latest_version e.latest_version ≡ false

  AtLeast-trans : (r s t : Option Selected) → AtLeast r s → AtLeast s t → AtLeast r t
  AtLeast-trans r s none h k = tt
  AtLeast-trans r none (some t) h k = absurd k
  AtLeast-trans none (some s) (some t) h k = absurd h
  AtLeast-trans (some (x, i)) (some (y, j)) (some (z, l)) h k =
      not_greater_trans z.latest_version y.latest_version x.latest_version k h

  AtLeast-refl : (r : Option Selected) → AtLeast r r
  AtLeast-refl none = tt
  AtLeast-refl (some (e, k)) = is_greater_than_irrefl e.latest_version

  abbrev under : Text → Option AppUpdateChannelEntry → Option Selected
  under key none = none
  under key (some entry) = some (entry, key)

  consider-AtLeast :
      (best : Option Selected) (key : Text) (found : Option AppUpdateChannelEntry)
      → AtLeast (consider best key found) best × AtLeast (consider best key found) (under key found)
  unfolding consider better
  consider-AtLeast best key none = (AtLeast-refl best, tt)
  consider-AtLeast none key (some e) = (tt, is_greater_than_irrefl e.latest_version)
  consider-AtLeast (some (b, j)) key (some e) =
      elim (Bool-cases (is_greater_than e.latest_version b.latest_version)) [
        | inl h ↦
            rw (h, consider)
              (
                is_greater_than-asymm e.latest_version b.latest_version h,
                is_greater_than_irrefl e.latest_version,
              )
        | inr h ↦ rw (h, consider) (is_greater_than_irrefl b.latest_version, h)
      ]

  -- Where a selection came from.
  abbrev ComesFrom : Option Selected → List Text → Option Selected → Type 0
  ComesFrom best keys r =
      (r ≡ best)
      ⊎ ((key : Text) × (entry : AppUpdateChannelEntry) × Memᴰ key keys
          × IsNewerEntry key entry
          × (r ≡ some (entry, key)))

  consider-ComesFrom :
      (best : Option Selected) (key : Text) (keys : List Text)
      → ComesFrom best (key ∷ keys) (consider best key (newer_entry manifest current key))
  unfolding consider
  consider-ComesFrom best key keys = elim (Option-cases (newer_entry manifest current key)) [
    | inl e ↦ rw (e, consider) (inl refl)
    | inr (entry, e) ↦ elim (Bool-cases (better best entry)) [
      | inl b ↦ rw (e, consider, b) (inr (key, entry, Memᴰ.head refl, e, refl))
      | inr b ↦ rw (e, consider, b) (inl refl)
    ]
  ]

  select_entry_from-AtLeast :
      (best : Option Selected) (keys : List Text)
      → AtLeast (select_entry_from manifest current best keys) best
        × All
            (λ key.
              AtLeast
                (select_entry_from manifest current best keys)
                (under key (newer_entry manifest current key)))
            keys
  unfolding select_entry_from
  select_entry_from-AtLeast best [] = (AtLeast-refl best, tt)
  select_entry_from-AtLeast best (key ∷ keys) =
      let found = newer_entry manifest current key in
      let next = consider best key found in
      let (kept, rest) = select_entry_from-AtLeast next keys in
      let r = select_entry_from manifest current next keys in
      let (older, newer) = consider-AtLeast best key found in
      (
        AtLeast-trans r next best kept older,
        (AtLeast-trans r next (under key found) kept newer, rest),
      )

  select_entry_from-ComesFrom :
      (best : Option Selected) (keys : List Text)
      → ComesFrom best keys (select_entry_from manifest current best keys)
  unfolding select_entry_from
  select_entry_from-ComesFrom best [] = inl refl
  select_entry_from-ComesFrom best (key ∷ keys) =
      let next = consider best key (newer_entry manifest current key) in
      elim (select_entry_from-ComesFrom next keys) [
        | inr (k, e, m, q, r) ↦ inr (k, e, Memᴰ.tail m, q, r)
        | inl r ↦ elim (consider-ComesFrom best key keys) [
          | inl s ↦ inl (r ∙ s)
          | inr (k, e, m, q, s) ↦ inr (k, e, m, q, r ∙ s)
        ]
      ]

  -- The selection is none where no visible channel is newer, and otherwise comes from a visible
  -- channel that is newer than the current version.
  pub select_best-ComesFrom :
      (user : AppUpdateChannel)
      → (select_best_channel_entry manifest current user ≡ none)
        ⊎ ((key : Text) × (entry : AppUpdateChannelEntry) × Memᴰ key
              (allowed_manifest_channel_keys user)
            × IsNewerEntry key entry
            × (select_best_channel_entry manifest current user ≡ some (entry, key)))
  unfolding select_best_channel_entry
  select_best-ComesFrom user = select_entry_from-ComesFrom none (allowed_manifest_channel_keys user)

  pub select_best-AtLeast :
      (user : AppUpdateChannel)
      → All
          (λ key.
            AtLeast
              (select_best_channel_entry manifest current user)
              (under key (newer_entry manifest current key)))
          (allowed_manifest_channel_keys user)
  unfolding select_best_channel_entry
  select_best-AtLeast user = (select_entry_from-AtLeast none (allowed_manifest_channel_keys user)).1

  -- A newer entry of a visible channel is never newer than the selection.
  pub select_best-not_beaten :
      (user : AppUpdateChannel) (key : Text) (entry : AppUpdateChannelEntry)
      → Memᴰ key (allowed_manifest_channel_keys user)
      → IsNewerEntry key entry
      → (best : AppUpdateChannelEntry) × (k : Text) × (select_best_channel_entry manifest current
            user
          ≡ some (best, k))
        × (is_greater_than entry.latest_version best.latest_version ≡ false)
  select_best-not_beaten user key entry m e =
      elim (Option-cases (select_best_channel_entry manifest current user)) [
        | inl q ↦ absurd (subst₂ AtLeast q (ap (under key) e) bound)
        | inr ((best, k), q) ↦ (best, k, q, subst₂ AtLeast q (ap (under key) e) bound)
      ]
    where
      bound :
          AtLeast
            (select_best_channel_entry manifest current user)
            (under key (newer_entry manifest current key))
      bound = All-mem _ m (select_best-AtLeast user)
