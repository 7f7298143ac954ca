-- ===== src/Routing/Tests.antt =====
-- Runs of src/routing on concrete profiles.
use zarya.Prelude.{
  ℕ, ◌≡◌, refl, Bool, true, false, List, [], ◌∷◌, ◌++◌, some, All, Text, codes, text_eq, select,
  trimmed,
}
use zarya.Routing.Mode.{custom, proxy, block, ip}
use zarya.Routing.Profiles.{RoutingRule, RoutingProfile, bypass_lan_id, bypass_ru_id}
use zarya.Routing.Validator.{warnings, unusual_ip}
use zarya.Routing.Generator.{stable_sort, action_sort_order}
use zarya.Routing.Generator.Sorting.{rules_with}
use zarya.Routing.Generator.Effects.{meant, effect, is_proxy, effects_of}
use zarya.Routing.Manager.{RoutingManager, find, load, stored_profiles, profile_by_id}
use zarya.Routing.Manager.Lookup.{FlaggedIn}
use zarya.Routing.Manager.Invariant.{
  IsSound, built_in_ids, Call, activates, removes, upserts, duplicates, step, step-IsSound,
}
use zarya.Routing.Manager.Loading.{run, run-load-IsSound}

abbrev rule : Text → Bool → List Text → RoutingRule
rule id enabled values = record {
  id = id;
  enabled = enabled;
  kind = ip;
  action = proxy;
  values = values;
  note = [];
}

abbrev profile : RoutingProfile
profile = record {
  id = codes "mine";
  name = codes "Mine";
  mode = custom;
  enabled = true;
  domain_strategy = codes " AsIs";
  rules =
      rule (codes "a") true (codes "10.0.0.1" ∷ codes " " ∷ [])
      ∷ record (rule (codes "b") true (codes "geoip:ru" ∷ [])) { action = block }
      ∷ rule (codes "c") false (codes "1" ∷ [])
      ∷ rule (codes "d") true (codes "1.2.3" ∷ [])
      ∷ [];
  created_at = 0;
  updated_at = 0;
  is_built_in = false;
}

warned : warnings profile ≡ unusual_ip (codes "1.2.3") ∷ []
unfolding warnings
warned = refl

sorted_ids :
    stable_sort profile.rules ≡ rules_with block profile.rules ++ rules_with proxy profile.rules
unfolding stable_sort action_sort_order select
sorted_ids = refl

-- The blank value is dropped and the disabled rule left out.
proxied_ips :
    effects_of is_proxy (codes "proxy") profile.rules
    ≡ effect (codes "proxy") ip (codes "10.0.0.1" ∷ [])
      ∷ effect (codes "proxy") ip (codes "1.2.3" ∷ [])
      ∷ []
unfolding effects_of meant trimmed
proxied_ips = refl

abbrev fresh : ℕ → Text
fresh n = b'#' ∷ n ∷ []

abbrev first_start : RoutingManager
first_start = record {
  profiles = [];
  active_profile_id = [];
  selected_setting = [];
  file = some (profile ∷ []);
}

abbrev history : List (ℕ × Call)
history =
    (1, activates (codes "mine"))
    ∷ (2, removes bypass_ru_id)
    ∷ (3, removes (codes "mine"))
    ∷ (4, upserts (codes "new") (record profile { id = [] }))
    ∷ (5, duplicates fresh (codes "new"))
    ∷ []

stored_flags : All (FlaggedIn (stored_profiles first_start.file)) built_in_ids
unfolding stored_profiles find text_eq
stored_flags = (λ p e. cc, (λ p e. cc, (λ p e. cc, (λ p e. cc, (λ p e. cc, tt)))))

run-load-IsSound_example : IsSound (run (load fresh 0 true first_start) history)
run-load-IsSound_example = run-load-IsSound fresh 0 true first_start history stored_flags

-- The active profile was removed, and the LAN bypass took its place.
fallen_back : (run (load fresh 0 true first_start) history).active_profile_id ≡ bypass_lan_id
unfolding run load find text_eq profile_by_id
fallen_back = refl

step-IsSound_example :
    IsSound (step 9 (run (load fresh 0 true first_start) history) (removes bypass_lan_id))
step-IsSound_example =
    step-IsSound 9 (run (load fresh 0 true first_start) history) (removes bypass_lan_id)
      (run-load-IsSound fresh 0 true first_start history stored_flags)
