-- ===== src/Routing/Manager/Loading.antt =====
-- RoutingManager.cpp: loading the profiles, and a history of calls behind it.
use zarya.Prelude.{
  ℕ, ◌≡◌, refl, inl, inr, Bool, true, false, List, [], ◌∷◌, Option, none, some, All, Text, text_eq,
  is_empty, Bool-cases,
}
use zarya.Routing.Profiles.{RoutingProfile, bypass_lan_id, create_built_in_profiles}
use zarya.Routing.Manager.{
  RoutingManager, profile_by_id, is_unknown, resolve_selected, resolve_active_profile,
  ensure_built_ins, add_missing, stored_profiles, load, save_if_new,
}
use zarya.Routing.Manager.Lookup.{
  FlaggedIn, Guarded, Present, add_missing-Present, add_missing-Guarded,
}
use zarya.Routing.Manager.Invariant.{
  built_in_ids, IsSound, Call, step, step-IsSound, known_of, nonempty_known,
}

-- The five built-in profiles have the built-in identifiers and are flagged.
built_ins-All :
    (P : Text → Type 0) (uuid : ℕ → Text) (now : ℕ)
    → All (λ b. P b.id) (create_built_in_profiles uuid now)
    → All P built_in_ids
unfolding create_built_in_profiles
built_ins-All P uuid now h = h

All-built_ins :
    (P : Text → Type 0) (uuid : ℕ → Text) (now : ℕ)
    → All P built_in_ids
    → All (λ b. P b.id) (create_built_in_profiles uuid now)
unfolding create_built_in_profiles
All-built_ins P uuid now h = h

built_ins_flagged :
    (uuid : ℕ → Text) (now : ℕ)
    → All (λ b. b.is_built_in ≡ true) (create_built_in_profiles uuid now)
unfolding create_built_in_profiles
built_ins_flagged uuid now = (refl, (refl, (refl, (refl, (refl, tt)))))

-- What startup resolves to is in the list, whatever the settings named.
resolve_selected-Present :
    (now : ℕ) (ps : List RoutingProfile) (selected : Text)
    → All (Present ps) built_in_ids
    → Present ps (resolve_selected now ps selected)
      × (is_empty (resolve_selected now ps selected) ≡ false)
unfolding resolve_selected
resolve_selected-Present now ps selected (proxy, (lan, _)) =
    elim (Bool-cases (is_unknown now ps selected)) [
      | inr e ↦ rw e (known_of now ps selected proxy e, nonempty_known now ps selected e)
      | inl e ↦ elim (Bool-cases (text_eq (profile_by_id now ps bypass_lan_id).id bypass_lan_id)) [
        | inl k ↦ rw (e, k) (lan, refl)
        | inr k ↦ rw (e, k) (proxy, refl)
      ]
    ]

-- The list once the built-in profiles that were not stored are added.
abbrev completed : (ℕ → Text) → ℕ → RoutingManager → List RoutingProfile
completed uuid now m = add_missing (stored_profiles m.file) (create_built_in_profiles uuid now)

completed-Present :
    (uuid : ℕ → Text) (now : ℕ) (m : RoutingManager)
    → All (Present (completed uuid now m)) built_in_ids
completed-Present uuid now m =
    built_ins-All (Present (completed uuid now m)) uuid now
      (add_missing-Present (stored_profiles m.file) (create_built_in_profiles uuid now))

abbrev resolved : (ℕ → Text) → ℕ → RoutingManager → RoutingManager
resolved uuid now m =
    resolve_active_profile now
      (ensure_built_ins uuid now (record m { profiles = stored_profiles m.file }))

resolved-IsSound :
    (uuid : ℕ → Text) (now : ℕ) (m : RoutingManager)
    → All (FlaggedIn (stored_profiles m.file)) built_in_ids
    → IsSound (resolved uuid now m)
unfolding resolve_active_profile ensure_built_ins
resolved-IsSound uuid now m h =
    let (active, named) =
      resolve_selected-Present now (completed uuid now m) m.selected_setting
        (completed-Present uuid now m) in
    record {
      guarded = built_ins-All (Guarded (completed uuid now m)) uuid now (
          add_missing-Guarded (stored_profiles m.file) (create_built_in_profiles uuid now)
            (built_ins_flagged uuid now)
            (All-built_ins (FlaggedIn (stored_profiles m.file)) uuid now h));
      active = active;
      named = named;
      stored = refl;
    }

save_if_new-IsSound :
    (can_write : Bool) (f : Option (List RoutingProfile)) (m : RoutingManager)
    → IsSound m
    → IsSound (save_if_new can_write f m)
unfolding save_if_new
save_if_new-IsSound can_write (some ps) m v = v
save_if_new-IsSound true none m v = record {
  guarded = v.guarded;
  active = v.active;
  named = v.named;
  stored = v.stored;
}
save_if_new-IsSound false none m v = v

unfoldable pub run : RoutingManager → List (ℕ × Call) → RoutingManager
unfolding step
run m [] = m
run m ((now, c) ∷ calls) = run (step now m c) calls

run-IsSound : (m : RoutingManager) (calls : List (ℕ × Call)) → IsSound m → IsSound (run m calls)
unfolding run
run-IsSound m [] v = v
run-IsSound m ((now, c) ∷ calls) v = run-IsSound (step now m c) calls (step-IsSound now m c v)

-- Where the stored profiles, if there are any, do not pass off a profile of their own under a
-- built-in identifier, the manager is sound once it has loaded and after any history of calls:
-- the built-in profiles stay in place, and the active profile is one of the list.
pub run-load-IsSound :
    (uuid : ℕ → Text) (now : ℕ) (can_write : Bool) (m : RoutingManager) (calls : List (ℕ × Call))
    → All (FlaggedIn (stored_profiles m.file)) built_in_ids
    → IsSound (run (load uuid now can_write m) calls)
unfolding load
run-load-IsSound uuid now can_write m calls h =
    run-IsSound (load uuid now can_write m) calls
      (save_if_new-IsSound can_write m.file (resolved uuid now m) (resolved-IsSound uuid now m h))
