-- ===== src/Updater/Planner/Assets.antt =====
-- AppUpdatePlanner.cpp, selectAsset: which asset of an entry is taken.
use mathlib.Core.List.{Memᴰ}
use zarya.Prelude.{
  ◌≡◌, refl, ◌⊎◌, inl, inr, true, false, List, [], ◌∷◌, All, Option, none, some, ℤ, pos, negsuc,
  ltb_ℤ, ◌≤ℤ◌, arith, Bool-cases, ◌&&◌, subst,
}
use zarya.Updater.Manifest.{AppUpdateAsset}
use zarya.Updater.Planner.{
  Surroundings, asset_matches, asset_score, installation_mode_score, select_asset_from,
  select_asset,
}

module _ (here : Surroundings) where
  -- An asset that matches scores at most `s`.
  abbrev pub ScoresAtMost : ℤ → AppUpdateAsset → Type 0
  ScoresAtMost s b = asset_matches here b ≡ true → asset_score here b ≤ℤ s

  -- What the loop has when it ends: the best that it started with, or an asset of the list.
  abbrev Ends : Option AppUpdateAsset → ℤ → List AppUpdateAsset → Option AppUpdateAsset → Type 0
  Ends best s assets r =
      (t : ℤ) × (s ≤ℤ t)
      × All (ScoresAtMost t) assets
      × (((r ≡ best) × (t ≡ s))
          ⊎ ((a : AppUpdateAsset) × Memᴰ a assets
              × (asset_matches here a ≡ true)
              × (r ≡ some a)
              × (t ≡ asset_score here a)))

  taken :
      (best : Option AppUpdateAsset) (s : ℤ) (a : AppUpdateAsset) (assets : List AppUpdateAsset)
      (r : Option AppUpdateAsset)
      → asset_matches here a ≡ true
      → ltb_ℤ s (asset_score here a) ≡ true
      → Ends (some a) (asset_score here a) assets r
      → Ends best s (a ∷ assets) r
  taken best s a assets r fits more (t, le, rest, from) = (
    t,
    ground arith,
    ((λ m. le), rest),
    inr (elim from [
      | inl (e, q) ↦ (a, Memᴰ.head refl, fits, e, q)
      | inr (b, m, k, e, q) ↦ (b, Memᴰ.tail m, k, e, q)
    ]),
  )

  skipped :
      (best : Option AppUpdateAsset) (s : ℤ) (a : AppUpdateAsset) (assets : List AppUpdateAsset)
      (r : Option AppUpdateAsset)
      → (asset_matches here a ≡ true → asset_score here a ≤ℤ s)
      → Ends best s assets r
      → Ends best s (a ∷ assets) r
  skipped best s a assets r low (t, le, rest, from) = (
    t,
    le,
    ((λ m. let p = low m in omega arith), rest),
    elim from [ inl k ↦ inl k | inr (b, m, k, e, q) ↦ inr (b, Memᴰ.tail m, k, e, q) ],
  )

  select_asset_from-Ends :
      (best : Option AppUpdateAsset) (s : ℤ) (assets : List AppUpdateAsset)
      → Ends best s assets (select_asset_from here best s assets)
  unfolding select_asset_from
  select_asset_from-Ends best s [] = (s, omega arith, tt, inl (refl, refl))
  select_asset_from-Ends best s (a ∷ assets) =
      elim (Bool-cases (asset_matches here a && ltb_ℤ s (asset_score here a))) [
        | inl e ↦ rw e (
            taken best s a assets _ (ground arith) (ground arith)
              (select_asset_from-Ends (some a) (asset_score here a) assets))
        | inr e ↦
            rw e (skipped best s a assets _ (ground arith) (select_asset_from-Ends best s assets))
      ]

  -- No asset matches, or the chosen one stands in the list, matches, and no other that matches
  -- scores higher.
  abbrev pub Chooses : List AppUpdateAsset → Option AppUpdateAsset → Type 0
  Chooses assets r =
      ((r ≡ none) × All (λ b. asset_matches here b ≡ false) assets)
      ⊎ ((a : AppUpdateAsset) × (r ≡ some a)
          × Memᴰ a assets
          × (asset_matches here a ≡ true)
          × All (ScoresAtMost (asset_score here a)) assets)

  score_nonneg : (a : AppUpdateAsset) → pos 0 ≤ℤ asset_score here a
  unfolding asset_score installation_mode_score
  score_nonneg a = ground arith

  none_match :
      (assets : List AppUpdateAsset)
      → All (ScoresAtMost (negsuc 0)) assets
      → All (λ b. asset_matches here b ≡ false) assets
  none_match [] h = tt
  none_match (a ∷ assets) (p, h) = (ground (arith, score_nonneg a), none_match assets h)

  -- The loop over the assets of an entry chooses nothing exactly where no asset matches the
  -- platform and the architecture, and otherwise a matching asset of the entry with the highest
  -- score of the installation mode.
  pub select_asset-Chooses :
      (assets : List AppUpdateAsset) → Chooses assets (select_asset here assets)
  unfolding select_asset
  select_asset-Chooses assets =
      let (t, _, bound, from) = select_asset_from-Ends none (negsuc 0) assets in
      elim from [
        | inl (r, e) ↦ inl (r, none_match assets (subst (λ u. All (ScoresAtMost u) assets) e bound))
        | inr (a, m, fits, r, e) ↦
            inr (a, r, m, fits, subst (λ u. All (ScoresAtMost u) assets) e bound)
      ]
