-- ===== src/Subscriptions/Update.antt =====
-- src/subscription/SubscriptionManager.cpp: one update of a subscription. The download and the
-- parser are arguments, and so is the application's version.
pub mod Positions
pub mod Merging
pub mod Marking
pub mod Outcome
use zarya.Prelude.{
  ℕ, zero, suc, ◌+◌, ◌-◌, ◌≡◌, refl, Bool, true, false, not, ◌&&◌, ◌||◌, List, [], ◌∷◌, ◌++◌,
  length, Option, none, some, Text, codes, text_eq, trimmed, contains, is_empty, select,
  if◌then◌else◌,
}
use zarya.Profiles.Profile.{
  ProfileSourceType, subscription, Profile, is_from_subscription, compute_source_key,
}

pub data SubscriptionStatus : Type 0 where
  never_updated updating success failed disabled : SubscriptionStatus

pub record Subscription : Type 0 where
  pub id : Text
  pub name : Text
  pub url : Text
  pub enabled : Bool
  pub last_updated_at : Option ℕ
  pub last_status : SubscriptionStatus
  pub last_error : Text
  pub profile_count : ℕ
  pub user_agent : Text
  pub remarks : Text

pub record SubscriptionUpdateStats : Type 0 where
  pub parsed_profiles : ℕ
  pub added_profiles : ℕ
  pub updated_profiles : ℕ
  pub marked_missing_profiles : ℕ
  pub skipped_lines : ℕ

pub record SubscriptionUpdateResult : Type 0 where
  pub success : Bool
  pub error_message : Text
  pub stats : SubscriptionUpdateStats

abbrev pub no_stats : SubscriptionUpdateStats
no_stats = record {
  parsed_profiles = 0;
  added_profiles = 0;
  updated_profiles = 0;
  marked_missing_profiles = 0;
  skipped_lines = 0;
}

-- What the downloader and the parser answer: a body or profiles, or an error message.
pub data Download : Type 0 where
  downloaded : Text → Download
  download_failed : Text → Download

pub data Parsed : Type 0 where
  parsed : List Profile → ℕ → Parsed
  parse_failed : Text → Parsed

-- `url`, `user_agent` ↦ the download; the parser; the application's version.
pub record Network : Type 0 where
  pub download : Text → Text → Download
  pub parse : Text → Parsed
  pub version : Text

unfoldable pub count_active : List Profile → Text → ℕ
unfolding select
count_active profiles id = length (
    select (λ (p : Profile). is_from_subscription p id && not p.deleted_by_subscription_update)
      profiles)

-- QHash<QString, int>: the newest entry of a key is the first.
abbrev pub Index : Type 0
Index = List (Text × ℕ)

unfoldable pub index_of : Text → Index → Option ℕ
index_of key [] = none
index_of key ((k, i) ∷ entries) =
    let rest = index_of key entries in if text_eq k key then some i else rest

-- The profiles of the subscription that have a source key, by that key; `i` counts the profiles.
unfoldable pub index_existing : Text → ℕ → List Profile → Index → Index
index_existing id i [] index = index
index_existing id i (p ∷ profiles) index = index_existing id (suc i) profiles (
    if is_from_subscription p id && not (is_empty p.source_key)
    then (p.source_key, i) ∷ index
    else index)

-- A parsed profile as the loop completes it, before its identifier is settled.
unfoldable pub incoming : Subscription → ℕ → Profile → Profile
incoming s now template =
    let filled = record template {
      source_type = subscription;
      subscription_id = s.id;
      subscription_name = s.name;
      last_seen_at = some now;
      deleted_by_subscription_update = false;
    } in
    record filled { source_key = compute_source_key filled }

-- `existing = incoming` with the identifier of the existing profile.
unfoldable pub overwrite : List Profile → ℕ → Profile → List Profile
overwrite [] i p = []
overwrite (q ∷ profiles) zero p = record p { id = q.id } ∷ profiles
overwrite (q ∷ profiles) (suc i) p = q ∷ overwrite profiles i p

-- The variables of the loop over the parsed profiles.
pub record Merge : Type 0 where
  pub profiles : List Profile
  pub index : Index
  pub seen : List Text
  pub added : ℕ
  pub updated : ℕ

unfoldable pub merge_at : Merge → Profile → Option ℕ → Merge
unfolding overwrite
merge_at m p (some i) = record m {
  profiles = overwrite m.profiles i p;
  seen = p.source_key ∷ m.seen;
  updated = suc m.updated;
}
merge_at m p none = record m {
  profiles = m.profiles ++ p ∷ [];
  index = (p.source_key, length m.profiles) ∷ m.index;
  seen = p.source_key ∷ m.seen;
  added = suc m.added;
}

unfoldable pub merge_one : Merge → Profile → Merge
unfolding merge_at index_of
merge_one m p = merge_at m p (index_of p.source_key m.index)

unfoldable pub merge_all : Subscription → ℕ → Merge → List Profile → Merge
unfolding merge_one incoming
merge_all s now m [] = m
merge_all s now m (t ∷ templates) = merge_all s now (merge_one m (incoming s now t)) templates

unfoldable pub start_merge : Subscription → List Profile → Merge
unfolding index_existing
start_merge s profiles = record {
  profiles = profiles;
  index = index_existing s.id 0 profiles [];
  seen = [];
  added = 0;
  updated = 0;
}

-- Whether the last loop marks a profile as missing.
unfoldable pub is_missing : Text → List Text → Profile → Bool
is_missing id seen p =
    is_from_subscription p id
    && not (contains seen p.source_key)
    && not p.deleted_by_subscription_update

unfoldable pub mark_missing : Text → List Text → List Profile → List Profile
unfolding is_missing
mark_missing id seen [] = []
mark_missing id seen (p ∷ profiles) =
    (if is_missing id seen p then record p { deleted_by_subscription_update = true } else p)
    ∷ mark_missing id seen profiles

-- `++result.stats.markedMissingProfiles`.
unfoldable pub count_missing : Text → List Text → List Profile → ℕ
unfolding select
count_missing id seen profiles = length (select (is_missing id seen) profiles)

-- The subscription, the profiles and the result.
pub record Updated : Type 0 where
  pub subscription : Subscription
  pub profiles : List Profile
  pub result : SubscriptionUpdateResult

-- The two early returns on a failed download and a failed parse.
unfoldable pub fail : Subscription → List Profile → Text → Updated
fail s profiles message = record {
  subscription = record s { last_status = failed; last_error = message };
  profiles = profiles;
  result = record { success = false; error_message = message; stats = no_stats };
}

-- What follows a successful parse.
unfoldable pub apply_parsed : ℕ → Subscription → List Profile → List Profile → ℕ → Updated
unfolding merge_all start_merge mark_missing count_missing count_active
apply_parsed now s profiles templates skipped =
    let m = merge_all s now (start_merge s profiles) templates in
    let marked = mark_missing s.id m.seen m.profiles in
    record {
      subscription = record s {
        last_updated_at = some now;
        last_status = success;
        last_error = [];
        profile_count = count_active marked s.id;
      };
      profiles = marked;
      result = record {
        success = true;
        error_message = [];
        stats = record {
          parsed_profiles = length templates;
          added_profiles = m.added;
          updated_profiles = m.updated;
          marked_missing_profiles = count_missing s.id m.seen m.profiles;
          skipped_lines = skipped;
        };
      };
    }

unfoldable pub after_parse : ℕ → Subscription → List Profile → Parsed → Updated
unfolding apply_parsed fail
after_parse now s profiles (parse_failed message) = fail s profiles message
after_parse now s profiles (parsed templates skipped) =
    apply_parsed now s profiles templates skipped

unfoldable pub after_download : Network → ℕ → Subscription → List Profile → Download → Updated
unfolding after_parse fail
after_download net now s profiles (download_failed message) = fail s profiles message
after_download net now s profiles (downloaded body) = after_parse now s profiles (net.parse body)

unfoldable pub effective_user_agent : Network → Subscription → Text
unfolding trimmed
effective_user_agent net s =
    if is_empty (trimmed s.user_agent) then codes "Zarya/" ++ net.version else trimmed s.user_agent

-- The early return for a disabled subscription.
unfoldable pub skip : Subscription → List Profile → Updated
skip s profiles = record {
  subscription = record s { last_status = disabled; last_error = [] };
  profiles = profiles;
  result = record { success = true; error_message = []; stats = no_stats };
}

unfoldable pub run_update : Network → ℕ → Subscription → List Profile → Updated
unfolding after_download effective_user_agent
run_update net now s profiles =
    after_download net now (record s { last_status = updating; last_error = [] }) profiles
      (net.download s.url (effective_user_agent net s))

unfoldable pub update_subscription : Network → ℕ → Subscription → List Profile → Updated
unfolding skip run_update
update_subscription net now s profiles =
    if not s.enabled then skip s profiles else run_update net now s profiles

-- updateAll: each subscription in turn, over the profiles that the one before it left; `clock`
-- gives the time of each update.
unfoldable pub update_all :
    Network
    → (ℕ → ℕ)
    → ℕ
    → List Subscription
    → List Profile
    → List Subscription × List Profile × List SubscriptionUpdateResult
unfolding update_subscription
update_all net clock n [] profiles = ([], profiles, [])
update_all net clock n (s ∷ rest) profiles =
    let u = update_subscription net (clock n) s profiles in
    let (subscriptions, last, results) = update_all net clock (suc n) rest u.profiles in
    (u.subscription ∷ subscriptions, last, u.result ∷ results)
