-- ===== src/Subscriptions/Update/Outcome.antt =====
-- SubscriptionManager.cpp: what an update leaves behind, on every outcome.
use mathlib.Core.List.{Memᴰ}
use zarya.Prelude.{
  ℕ, ◌+◌, ◌≡◌, refl, sym, subst, ap, ◌∙◌, ◌↔◌, inl, inr, Bool, true, false, not, List, [], length,
  All-mem, Text, arith, if◌then◌else◌,
}
use zarya.Profiles.Profile.{Profile}
use zarya.Subscriptions.Update.{
  Subscription, Merge, merge_all, start_merge, mark_missing, Updated, apply_parsed, after_parse,
  after_download, Download, downloaded, download_failed, Parsed, parsed, parse_failed, Network,
  effective_user_agent, skip, run_update, update_subscription, incoming, updating,
}
use zarya.Subscriptions.Update.Positions.{Follows, Pointwise, Pointwise-refl, Pointwise-trans}
use zarya.Subscriptions.Update.Merging.{IsLiveAt, keys, Merged, start_merge-Merged}
use zarya.Subscriptions.Update.Marking.{
  mark_missing-Pointwise, mark_missing-live, live_seen, length-mark_missing,
}

none_in_nil : {k : Text} → Memᴰ k [] → ⊥
none_in_nil h = elim h [ ]

module _ (now : ℕ) (s : Subscription) (profiles templates : List Profile) (skipped : ℕ) where
  abbrev merged : Merge
  merged = merge_all s now (start_merge s profiles) templates

  facts : Merged s now (start_merge s profiles) merged templates
  facts = start_merge-Merged s now profiles templates

  applied_profiles :
      (apply_parsed now s profiles templates skipped).profiles
      ≡ mark_missing s.id merged.seen merged.profiles
  unfolding apply_parsed
  applied_profiles = refl

  start_profiles : (start_merge s profiles).profiles ≡ profiles
  unfolding start_merge
  start_profiles = refl

  start_seen : (start_merge s profiles).seen ≡ []
  unfolding start_merge
  start_seen = refl

  pub apply_parsed-Pointwise :
      Pointwise (Follows s.id) profiles (apply_parsed now s profiles templates skipped).profiles
  apply_parsed-Pointwise = subst (Pointwise (Follows s.id) profiles) (sym applied_profiles) (
      Pointwise-trans s.id profiles merged.profiles _
        (subst (λ ps. Pointwise (Follows s.id) ps merged.profiles) start_profiles facts.follows)
        (mark_missing-Pointwise s.id merged.seen merged.profiles))

  seen_iff : (k : Text) → Memᴰ k merged.seen ↔ Memᴰ k (keys s now templates)
  seen_iff k = (
    λ m. elim (facts.seen_only k m) [ inr h ↦ h | inl h ↦ absurd (not_in_start h) ],
    λ m. All-mem (λ k. Memᴰ k merged.seen) m facts.seen_new,
  )
    where
      not_in_start : Memᴰ k (start_merge s profiles).seen → ⊥
      not_in_start h = none_in_nil (subst (Memᴰ k) start_seen h)

  pub apply_parsed-live_iff :
      (key : Text)
      → ((i : ℕ) × IsLiveAt s.id key (apply_parsed now s profiles templates skipped).profiles i)
        ↔ Memᴰ key (keys s now templates)
  apply_parsed-live_iff key =
      let moved = λ (i : ℕ).
        λ (h : IsLiveAt s.id key (apply_parsed now s profiles templates skipped).profiles i).
          subst (λ ps. IsLiveAt s.id key ps i) applied_profiles h in
      (
        λ (i, h). (seen_iff key).0 (live_seen s.id merged.seen merged.profiles key i (moved i h)),
        λ m.
            let (i, live) =
              All-mem (λ k. (i : ℕ) × IsLiveAt s.id k merged.profiles i) m facts.live in
            (
              i,
              subst (λ ps. IsLiveAt s.id key ps i) (sym applied_profiles)
                  (mark_missing-live s.id merged.seen merged.profiles key i ((seen_iff key).1 m)
                    live),
            ),
      )

  start_length : length (start_merge s profiles).profiles ≡ length profiles
  unfolding start_merge
  start_length = refl

  start_counts : ((start_merge s profiles).added ≡ 0) × ((start_merge s profiles).updated ≡ 0)
  unfolding start_merge
  start_counts = (refl, refl)

  applied_stats :
      let stats = (apply_parsed now s profiles templates skipped).result.stats in
      (stats.added_profiles ≡ merged.added)
      × (stats.updated_profiles ≡ merged.updated)
      × (stats.parsed_profiles ≡ length templates)
  unfolding apply_parsed
  applied_stats = (refl, refl, refl)

  pub apply_parsed-stats :
      let u = apply_parsed now s profiles templates skipped in
      (u.result.stats.added_profiles + u.result.stats.updated_profiles
        ≡ u.result.stats.parsed_profiles)
      × (length u.profiles ≡ length profiles + u.result.stats.added_profiles)
  apply_parsed-stats = omega (
    arith,
    applied_stats,
    start_counts,
    start_length,
    facts.counts,
    facts.grows,
    ap length applied_profiles,
    length-mark_missing s.id merged.seen merged.profiles,
  )

module _ (net : Network) (now : ℕ) (s : Subscription) (profiles : List Profile) where
  abbrev started : Subscription
  started = record s { last_status = updating; last_error = [] }

  -- The four ways an update can end: disabled, no download, no parse, or the parsed profiles.
  update_cases {ℓ} :
      (P : Bool → List Profile → Type ℓ)
      → P true profiles
      → P false profiles
      → ((templates : List Profile) (skipped : ℕ)
          → P true (apply_parsed now started profiles templates skipped).profiles)
      → P
          (update_subscription net now s profiles).result.success
          (update_subscription net now s profiles).profiles
  unfolding update_subscription
  update_cases P off failed applied = by_enabled s.enabled
    where
      by_parse :
          (r : Parsed)
          → P
              (after_parse now started profiles r).result.success
              (after_parse now started profiles r).profiles
      by_parse (parse_failed message) = failed
      by_parse (parsed templates skipped) = applied templates skipped

      by_download :
          (d : Download)
          → P
              (after_download net now started profiles d).result.success
              (after_download net now started profiles d).profiles
      by_download (download_failed message) = failed
      by_download (downloaded body) = by_parse (net.parse body)

      by_enabled :
          (b : Bool)
          → P
              (if not b then skip s profiles else run_update net now s profiles).result.success
              (if not b then skip s profiles else run_update net now s profiles).profiles
      by_enabled false = off
      by_enabled true = by_download (net.download s.url (effective_user_agent net s))

  -- Whatever the outcome of an update, every profile keeps its place, its identifier, its source
  -- key and its origin, and a profile that is not of the subscription stays exactly as it is.
  pub update_subscription-Follows :
      Pointwise (Follows s.id) profiles (update_subscription net now s profiles).profiles
  update_subscription-Follows =
      update_cases (λ _ ps. Pointwise (Follows s.id) profiles ps) (Pointwise-refl s.id profiles)
        (Pointwise-refl s.id profiles)
        (λ templates skipped. apply_parsed-Pointwise now started profiles templates skipped)

  -- An update that fails leaves the profiles exactly as they were.
  pub update_subscription_failed :
      (update_subscription net now s profiles).result.success ≡ false
      → (update_subscription net now s profiles).profiles ≡ profiles
  update_subscription_failed =
      update_cases (λ ok ps. ok ≡ false → ps ≡ profiles) (λ e. cc) (λ e. refl)
        (λ templates skipped e. cc)

  update_parsed :
      (body : Text) (templates : List Profile) (skipped : ℕ)
      → s.enabled ≡ true
      → net.download s.url (effective_user_agent net s) ≡ downloaded body
      → net.parse body ≡ parsed templates skipped
      → update_subscription net now s profiles ≡ apply_parsed now started profiles templates skipped
  unfolding update_subscription
  update_parsed body templates skipped e d p =
      ap (λ b. if not b then skip s profiles else run_update net now s profiles) e
      ∙ ap (after_download net now started profiles) d
      ∙ ap (after_parse now started profiles) p

  -- After an enabled update whose download and parse succeed, the live profiles of the
  -- subscription are those of the parsed links: a source key is held by a profile of the
  -- subscription that is not marked as missing exactly when a parsed profile has it.
  pub update_subscription-live_iff :
      (body : Text) (templates : List Profile) (skipped : ℕ) (key : Text)
      → s.enabled ≡ true
      → net.download s.url (effective_user_agent net s) ≡ downloaded body
      → net.parse body ≡ parsed templates skipped
      → ((i : ℕ) × IsLiveAt s.id key (update_subscription net now s profiles).profiles i)
        ↔ Memᴰ key (keys s now templates)
  unfolding incoming
  update_subscription-live_iff body templates skipped key e d p =
      subst
        (λ (u : Updated).
          ((i : ℕ) × IsLiveAt s.id key u.profiles i) ↔ Memᴰ key (keys s now templates))
        (sym (update_parsed body templates skipped e d p))
        (apply_parsed-live_iff now started profiles templates skipped key)

  -- The counts that such an update reports add up: every parsed profile was added or updated, and
  -- the list grew by the number of the added ones.
  pub update_subscription-stats :
      (body : Text) (templates : List Profile) (skipped : ℕ)
      → s.enabled ≡ true
      → net.download s.url (effective_user_agent net s) ≡ downloaded body
      → net.parse body ≡ parsed templates skipped
      → let u = update_subscription net now s profiles in
        (u.result.stats.added_profiles + u.result.stats.updated_profiles ≡ length templates)
        × (length u.profiles ≡ length profiles + u.result.stats.added_profiles)
  update_subscription-stats body templates skipped e d p =
      subst
        (λ (u : Updated).
          (u.result.stats.added_profiles + u.result.stats.updated_profiles ≡ length templates)
          × (length u.profiles ≡ length profiles + u.result.stats.added_profiles))
        (sym (update_parsed body templates skipped e d p))
        (omega (
          arith,
          apply_parsed-stats now started profiles templates skipped,
          applied_stats now started profiles templates skipped,
        ))
