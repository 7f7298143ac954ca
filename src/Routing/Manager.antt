-- ===== src/Routing/Manager.antt =====
-- src/routing/RoutingManager.cpp: the list of routing profiles and the active one. Identifiers of
-- QUuid::createUuid, the time and whether the store can be written are arguments.
pub mod Lookup
pub mod Invariant
pub mod Loading
use zarya.Prelude.{
  ℕ, suc, ◌+◌, ◌≡◌, refl, Bool, true, false, not, ◌||◌, List, [], ◌∷◌, ◌++◌, Option, none, some,
  Text, codes, text_eq, is_empty, if◌then◌else◌,
}
use zarya.Routing.Mode.{custom}
use zarya.Routing.Profiles.{
  RoutingRule, RoutingProfile, proxy_all_id, bypass_lan_id, built_in_proxy_all,
  create_built_in_profiles,
}

-- `file` is what the store holds, `none` where there is no file; `selected_setting` is
-- AppSettings::selectedRoutingProfileId.
pub record RoutingManager : Type 0 where
  pub profiles : List RoutingProfile
  pub active_profile_id : Text
  pub selected_setting : Text
  pub file : Option (List RoutingProfile)

-- The first profile with an identifier.
unfoldable pub find : Text → List RoutingProfile → Option RoutingProfile
find id [] = none
find id (p ∷ ps) = let rest = find id ps in if text_eq p.id id then some p else rest

unfoldable pub profile_by_id : ℕ → List RoutingProfile → Text → RoutingProfile
unfolding find
profile_by_id now profiles id = elim (find id profiles) [
  | some p ↦ p
  | none ↦ built_in_proxy_all now
]

-- `id.isEmpty() || profileById(id).id != id`.
unfoldable pub is_unknown : ℕ → List RoutingProfile → Text → Bool
unfolding profile_by_id
is_unknown now profiles id = is_empty id || not (text_eq (profile_by_id now profiles id).id id)

unfoldable pub active_profile : ℕ → RoutingManager → RoutingProfile
unfolding profile_by_id
active_profile now m = profile_by_id now m.profiles m.active_profile_id

unfoldable pub set_active_profile_id : ℕ → Text → RoutingManager → RoutingManager × Bool
unfolding is_unknown
set_active_profile_id now id m =
    if is_unknown now m.profiles id
    then (m, false)
    else (record m { active_profile_id = id; selected_setting = id }, true)

abbrev keep_before :
    RoutingProfile → Option (List RoutingProfile × Bool) → Option (List RoutingProfile × Bool)
keep_before p none = none
keep_before p (some (ps, done)) = some (p ∷ ps, done)

-- The loop of upsertProfile over the list; `none` where no profile has the identifier, and
-- otherwise the new list and the result.
unfoldable pub replace :
    ℕ → RoutingProfile → List RoutingProfile → Option (List RoutingProfile × Bool)
replace now profile [] = none
replace now profile (p ∷ ps) =
    let later = keep_before p (replace now profile ps) in
    if text_eq p.id profile.id
    then (if p.is_built_in
        then some (p ∷ ps, false)
        else some (record profile { updated_at = now } ∷ ps, true))
    else later

unfoldable pub new_profile : Text → ℕ → RoutingProfile → RoutingProfile
new_profile uuid now profile = record profile {
  id = if is_empty profile.id then uuid else profile.id;
  is_built_in = false;
  created_at = now;
  updated_at = now;
}

unfoldable pub upsert_profile : Text → ℕ → RoutingProfile → RoutingManager → RoutingManager × Bool
unfolding replace new_profile
upsert_profile uuid now profile m = elim (replace now profile m.profiles) [
  | some (ps, done) ↦ (record m { profiles = ps }, done)
  | none ↦ (record m { profiles = m.profiles ++ new_profile uuid now profile ∷ [] }, true)
]

pub data RemoveError : Type 0 where
  built_in_cannot_be_deleted not_found : RemoveError

pub data Removal : Type 0 where
  removed : List RoutingProfile → Removal
  refused : RemoveError → Removal

abbrev keep_first : RoutingProfile → Removal → Removal
keep_first p (removed ps) = removed (p ∷ ps)
keep_first p (refused e) = refused e

-- The loop of removeProfile.
unfoldable pub remove_from : Text → List RoutingProfile → Removal
remove_from id [] = refused not_found
remove_from id (p ∷ ps) =
    let later = keep_first p (remove_from id ps) in
    if not (text_eq p.id id)
    then later
    else if p.is_built_in
    then refused built_in_cannot_be_deleted
    else removed ps

unfoldable pub remove_profile : ℕ → Text → RoutingManager → RoutingManager × Option RemoveError
unfolding remove_from set_active_profile_id
remove_profile now id m = elim (remove_from id m.profiles) [
  | refused e ↦ (m, some e)
  | removed ps ↦
      let left = record m { profiles = ps } in
      if text_eq m.active_profile_id id
      then ((set_active_profile_id now bypass_lan_id left).0, none)
      else (left, none)
]

-- The copies of the rules take the next identifiers.
renew_rules : (ℕ → Text) → ℕ → List RoutingRule → List RoutingRule
renew_rules uuid n [] = []
renew_rules uuid n (r ∷ rules) = record r { id = uuid n } ∷ renew_rules uuid (suc n) rules

unfoldable pub copy_of : (ℕ → Text) → ℕ → RoutingProfile → RoutingProfile
unfolding renew_rules
copy_of uuid now source = record source {
  id = uuid 0;
  name = source.name ++ codes " (copy)";
  is_built_in = false;
  mode = custom;
  created_at = now;
  updated_at = now;
  rules = renew_rules uuid 1 source.rules;
}

-- `none` in place of the copy where the profile is not found.
unfoldable pub duplicate_profile :
    (ℕ → Text) → ℕ → Text → RoutingManager → RoutingManager × Option RoutingProfile
unfolding profile_by_id copy_of
duplicate_profile uuid now id m =
    let source = profile_by_id now m.profiles id in
    if not (text_eq source.id id) then (m, none) else (
      record m { profiles = m.profiles ++ copy_of uuid now source ∷ [] },
      some (copy_of uuid now source),
    )

-- ensureBuiltIns appends each built-in profile whose identifier no profile has.
unfoldable pub add_missing : List RoutingProfile → List RoutingProfile → List RoutingProfile
unfolding find
add_missing profiles [] = profiles
add_missing profiles (b ∷ bs) =
    add_missing (elim (find b.id profiles) [ some _ ↦ profiles | none ↦ profiles ++ b ∷ [] ]) bs

unfoldable pub ensure_built_ins : (ℕ → Text) → ℕ → RoutingManager → RoutingManager
unfolding add_missing create_built_in_profiles
ensure_built_ins uuid now m = record m {
  profiles = add_missing m.profiles (create_built_in_profiles uuid now);
}

unfoldable pub resolve_selected : ℕ → List RoutingProfile → Text → Text
unfolding is_unknown profile_by_id
resolve_selected now profiles selected =
    if is_unknown now profiles selected
    then (if not (text_eq (profile_by_id now profiles bypass_lan_id).id bypass_lan_id)
        then proxy_all_id
        else bypass_lan_id)
    else selected

unfoldable pub resolve_active_profile : ℕ → RoutingManager → RoutingManager
unfolding resolve_selected
resolve_active_profile now m =
    let selected = resolve_selected now m.profiles m.selected_setting in
    record m { active_profile_id = selected; selected_setting = selected }

unfoldable pub save : Bool → RoutingManager → RoutingManager × Bool
save can_write m = if can_write then (record m { file = some m.profiles }, true) else (m, false)

-- RoutingStore::load gives no profile where there is no file, or one that cannot be read.
unfoldable pub stored_profiles : Option (List RoutingProfile) → List RoutingProfile
stored_profiles none = []
stored_profiles (some ps) = ps

-- `if (!fileExisted) save();`
unfoldable pub save_if_new : Bool → Option (List RoutingProfile) → RoutingManager → RoutingManager
unfolding save
save_if_new can_write (some _) m = m
save_if_new can_write none m = (save can_write m).0

unfoldable pub load : (ℕ → Text) → ℕ → Bool → RoutingManager → RoutingManager
unfolding stored_profiles ensure_built_ins resolve_active_profile save_if_new
load uuid now can_write m = save_if_new can_write m.file (
    resolve_active_profile now
      (ensure_built_ins uuid now (record m { profiles = stored_profiles m.file })))
