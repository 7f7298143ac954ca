-- ===== src/Routing/Manager/Invariant.antt =====
-- RoutingManager.cpp: what holds after it has loaded and after every call.
use zarya.Prelude.{
  ℕ, ◌≡◌, refl, sym, subst, ◌∙◌, ◌≢◌, inl, inr, Bool, true, false, List, [], ◌∷◌, ◌++◌, none, some,
  All, Text, text_eq, text_eq_iff, is_empty, arith, Bool-cases, Option-cases,
}
use zarya.Routing.Profiles.{
  RoutingProfile, proxy_all_id, bypass_lan_id, bypass_ru_id, bypass_lan_and_ru_id,
  custom_template_id, built_in_proxy_all,
}
use zarya.Routing.Manager.{
  RoutingManager, find, profile_by_id, is_unknown, set_active_profile_id, replace, upsert_profile,
  removed, remove_from, remove_profile, duplicate_profile, new_profile, copy_of,
}
use zarya.Routing.Manager.Lookup.{
  find-append, find-id, find-replace, find-remove_from, Guarded, Present, Removal-cases,
}

abbrev pub built_in_ids : List Text
built_in_ids =
    proxy_all_id ∷ bypass_lan_id ∷ bypass_ru_id ∷ bypass_lan_and_ru_id ∷ custom_template_id ∷ []

-- Every built-in profile is there and cannot be edited or removed; the active profile is there;
-- and the settings name the active profile.
pub record IsSound (m : RoutingManager) : Type 0 where
  pub guarded : All (Guarded m.profiles) built_in_ids
  pub active : Present m.profiles m.active_profile_id
  pub named : is_empty m.active_profile_id ≡ false
  pub stored : m.selected_setting ≡ m.active_profile_id

pub data Call : Type 0 where
  activates removes : Text → Call
  upserts : Text → RoutingProfile → Call
  duplicates : (ℕ → Text) → Text → Call

unfoldable pub step : ℕ → RoutingManager → Call → RoutingManager
unfolding set_active_profile_id remove_profile upsert_profile duplicate_profile
step now m (activates id) = (set_active_profile_id now id m).0
step now m (removes id) = (remove_profile now id m).0
step now m (upserts uuid p) = (upsert_profile uuid now p m).0
step now m (duplicates uuid id) = (duplicate_profile uuid now id m).0

fallback_known :
    (now : ℕ) (ps : List RoutingProfile) (id : Text)
    → find id ps ≡ none
    → is_unknown now ps id ≡ false
    → (built_in_proxy_all now).id ≡ id
unfolding is_unknown
fallback_known now ps id h k = ground (arith, text_eq_iff (built_in_proxy_all now).id id)

built_in_proxy_all-id : (now : ℕ) → (built_in_proxy_all now).id ≡ proxy_all_id
unfolding built_in_proxy_all
built_in_proxy_all-id now = refl

pub nonempty_known :
    (now : ℕ) (ps : List RoutingProfile) (id : Text)
    → is_unknown now ps id ≡ false
    → is_empty id ≡ false
unfolding is_unknown
nonempty_known now ps id k = ground arith

pub known_of :
    (now : ℕ) (ps : List RoutingProfile) (id : Text)
    → Present ps proxy_all_id
    → is_unknown now ps id ≡ false
    → Present ps id
known_of now ps id present k = elim (Option-cases (find id ps)) [
  | inr found ↦ found
  | inl e ↦
      subst (Present ps) (sym (built_in_proxy_all-id now) ∙ fallback_known now ps id e k) present
]

pub not_unknown :
    (now : ℕ) (ps : List RoutingProfile) (id : Text)
    → Present ps id
    → is_empty id ≡ false
    → is_unknown now ps id ≡ false
unfolding is_unknown profile_by_id
not_unknown now ps id (p, h) k = ground (arith, find-id id ps p h, text_eq_iff p.id id)

All-Guarded :
    (ps qs : List RoutingProfile) (ids : List Text)
    → ((id : Text) (p : RoutingProfile)
        → find id ps ≡ some p
        → p.is_built_in ≡ true
        → find id qs ≡ some p)
    → All (Guarded ps) ids
    → All (Guarded qs) ids
All-Guarded ps qs [] f h = tt
All-Guarded ps qs (id ∷ ids) f ((p, e, b), h) = ((p, f id p e b, b), All-Guarded ps qs ids f h)

set_active-IsSound :
    (now : ℕ) (id : Text) (m : RoutingManager)
    → All (Guarded m.profiles) built_in_ids
    → is_unknown now m.profiles id ≡ false
    → IsSound (record m { active_profile_id = id; selected_setting = id })
set_active-IsSound now id m g k = record {
  guarded = g;
  active = known_of now m.profiles id (g.0.0, g.0.1) k;
  named = nonempty_known now m.profiles id k;
  stored = refl;
}

activates-IsSound :
    (now : ℕ) (id : Text) (m : RoutingManager)
    → IsSound m
    → IsSound (set_active_profile_id now id m).0
unfolding set_active_profile_id
activates-IsSound now id m v = elim (Bool-cases (is_unknown now m.profiles id)) [
  | inl e ↦ rw e v
  | inr e ↦ rw e (set_active-IsSound now id m v.guarded e)
]

-- A change of the list that keeps each guarded profile and the active one.
relist-IsSound :
    (m : RoutingManager) (qs : List RoutingProfile)
    → IsSound m
    → ((id : Text) (p : RoutingProfile)
        → find id m.profiles ≡ some p
        → p.is_built_in ≡ true
        → find id qs ≡ some p)
    → Present qs m.active_profile_id
    → IsSound (record m { profiles = qs })
relist-IsSound m qs v keep active = record {
  guarded = All-Guarded m.profiles qs built_in_ids keep v.guarded;
  active = active;
  named = v.named;
  stored = v.stored;
}

append-IsSound :
    (m : RoutingManager) (p : RoutingProfile)
    → IsSound m
    → IsSound (record m { profiles = m.profiles ++ p ∷ [] })
append-IsSound m p v =
    relist-IsSound m (m.profiles ++ p ∷ []) v (λ id q e b. find-append id m.profiles (p ∷ []) q e)
      (v.active.0, find-append m.active_profile_id m.profiles (p ∷ []) v.active.0 v.active.1)

replace-IsSound :
    (now : ℕ) (new : RoutingProfile) (m : RoutingManager) (qs : List RoutingProfile) (done : Bool)
    → replace now new m.profiles ≡ some (qs, done)
    → IsSound m
    → IsSound (record m { profiles = qs })
replace-IsSound now new m qs done r v =
    relist-IsSound m qs v
      (λ id p e b. elim (find-replace now new m.profiles qs done id p r e) [
        | inl (k, _) ↦ k
        | inr (_, _, not_built_in, _) ↦ absurd (contradiction p b not_built_in)
      ])
      (elim (find-replace now new m.profiles qs done m.active_profile_id v.active.0 r v.active.1) [
        | inl (k, _) ↦ (v.active.0, k)
        | inr (k, _, _, _) ↦ (record new { updated_at = now }, k)
      ])
  where
    contradiction : (p : RoutingProfile) → p.is_built_in ≡ true → p.is_built_in ≡ false → ⊥
    contradiction p b n = cc

upserts-IsSound :
    (uuid : Text) (now : ℕ) (p : RoutingProfile) (m : RoutingManager)
    → IsSound m
    → IsSound (upsert_profile uuid now p m).0
unfolding upsert_profile
upserts-IsSound uuid now p m v = elim (Option-cases (replace now p m.profiles)) [
  | inl e ↦ rw (e, upsert_profile) (append-IsSound m (new_profile uuid now p) v)
  | inr ((qs, done), e) ↦ rw (e, upsert_profile) (replace-IsSound now p m qs done e v)
]

duplicates-IsSound :
    (uuid : ℕ → Text) (now : ℕ) (id : Text) (m : RoutingManager)
    → IsSound m
    → IsSound (duplicate_profile uuid now id m).0
unfolding duplicate_profile
duplicates-IsSound uuid now id m v =
    elim (Bool-cases (text_eq (profile_by_id now m.profiles id).id id)) [
      | inl e ↦ rw e (append-IsSound m (copy_of uuid now (profile_by_id now m.profiles id)) v)
      | inr e ↦ rw e v
    ]

module _ (now : ℕ) (id : Text) (m : RoutingManager) (qs : List RoutingProfile)
    (r : remove_from id m.profiles ≡ removed qs) (v : IsSound m) where
  kept_guarded :
      (other : Text) (p : RoutingProfile)
      → find other m.profiles ≡ some p
      → p.is_built_in ≡ true
      → find other qs ≡ some p
  kept_guarded other p e b = elim (find-remove_from id other m.profiles qs p r e) [
    | inl k ↦ k
    | inr (_, n) ↦ cc
  ]

  left-Guarded : All (Guarded qs) built_in_ids
  left-Guarded = All-Guarded m.profiles qs built_in_ids kept_guarded v.guarded

  other_active : m.active_profile_id ≢ id → IsSound (record m { profiles = qs })
  other_active ne =
      relist-IsSound m qs v kept_guarded
        (elim (find-remove_from id m.active_profile_id m.profiles qs v.active.0 r v.active.1) [
          | inl k ↦ (v.active.0, k)
          | inr (e, _) ↦ absurd (ne e)
        ])

  fall_back : IsSound (set_active_profile_id now bypass_lan_id (record m { profiles = qs })).0
  unfolding set_active_profile_id
  fall_back =
      let (p, e, _) = left-Guarded.1.0 in
      let known = not_unknown now qs bypass_lan_id (p, e) refl in
      rw known
        (set_active-IsSound now bypass_lan_id (record m { profiles = qs }) left-Guarded known)

removes-IsSound :
    (now : ℕ) (id : Text) (m : RoutingManager) → IsSound m → IsSound (remove_profile now id m).0
unfolding remove_profile
removes-IsSound now id m v = elim (Removal-cases (remove_from id m.profiles)) [
  | inl (e, r) ↦ rw (r, remove_profile) v
  | inr (qs, r) ↦ elim (Bool-cases (text_eq m.active_profile_id id)) [
    | inl e ↦ rw (r, remove_profile, e) (fall_back now id m qs r v)
    | inr e ↦
        rw (r, remove_profile, e)
          (other_active now id m qs r v (λ same. cc ((text_eq_iff m.active_profile_id id).1 same)))
  ]
]

-- Every call keeps the built-in profiles in place and flagged, and the active profile, named by
-- the settings, in the list: also where the call is refused, and where it removes the active one.
pub step-IsSound : (now : ℕ) (m : RoutingManager) (c : Call) → IsSound m → IsSound (step now m c)
unfolding step
step-IsSound now m (activates id) v = activates-IsSound now id m v
step-IsSound now m (removes id) v = removes-IsSound now id m v
step-IsSound now m (upserts uuid p) v = upserts-IsSound uuid now p m v
step-IsSound now m (duplicates uuid id) v = duplicates-IsSound uuid now id m v
