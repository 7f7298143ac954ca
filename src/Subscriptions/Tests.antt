-- ===== src/Subscriptions/Tests.antt =====
-- An update of src/subscription on a concrete list of profiles.
use mathlib.Core.List.{Memᴰ}
use zarya.Prelude.{
  ℕ, ◌+◌, ◌≡◌, refl, ◌↔◌, true, false, List, [], ◌∷◌, length, none, Text, codes, text_eq, trimmed,
  contains,
}
use zarya.Profiles.Profile.{
  Profile, blank, subscription, is_from_subscription, compute_source_key, effective_server_name,
}
use zarya.Subscriptions.Update.{
  Subscription, never_updated, Network, downloaded, download_failed, parsed, update_subscription,
}
use zarya.Subscriptions.Update.Positions.{Follows, Pointwise}
use zarya.Subscriptions.Update.Merging.{IsLiveAt, keys}
use zarya.Subscriptions.Update.Outcome.{
  update_subscription-Follows, update_subscription_failed, update_subscription-live_iff,
  update_subscription-stats,
}

abbrev feed : Subscription
feed = record {
  id = codes "s1";
  name = codes "Feed";
  url = codes "https://e/s";
  enabled = true;
  last_updated_at = none;
  last_status = never_updated;
  last_error = [];
  profile_count = 0;
  user_agent = codes " ";
  remarks = [];
}

abbrev link : Text → Profile
link address = record blank { name = address; address = address; uuid_password = codes "u" }

abbrev own : Profile
own = record (link (codes "own")) { id = codes "p0" }

abbrev known : Profile
known = record (link (codes "a")) {
  id = codes "p1";
  source_type = subscription;
  subscription_id = codes "s1";
  source_key = codes "VLESS|a|443|u||";
  deleted_by_subscription_update = true;
}

abbrev gone : Profile
gone = record known {
  id = codes "p2";
  source_key = codes "VLESS|b|443|u||";
  deleted_by_subscription_update = false;
}

abbrev links : List Profile
links = link (codes "a") ∷ link (codes "c") ∷ link (codes "a") ∷ []

abbrev online : Network
online = record {
  download = λ url agent. downloaded (codes "body");
  parse = λ body. parsed links 1;
  version = codes "1.0.0";
}

abbrev offline : Network
offline = record online { download = λ url agent. download_failed (codes "timeout") }

reads : Unit {0}
unfolding update_subscription text_eq trimmed compute_source_key effective_server_name
    is_from_subscription contains
reads = tt

after_update :
    let u = update_subscription online 5 feed (own ∷ known ∷ gone ∷ []) in
    (length u.profiles ≡ 4)
    × (u.subscription.profile_count ≡ 2)
    × (u.result.stats.updated_profiles ≡ 2)
    × (u.result.stats.marked_missing_profiles ≡ 1)
unfolding reads
after_update = (refl, refl, refl, refl)

update_subscription-Follows_example :
    Pointwise
      (Follows (codes "s1"))
      (own ∷ known ∷ [])
      (update_subscription online 5 feed (own ∷ known ∷ [])).profiles
update_subscription-Follows_example = update_subscription-Follows online 5 feed (own ∷ known ∷ [])

update_subscription_failed_example :
    (update_subscription offline 5 feed (own ∷ known ∷ [])).profiles ≡ own ∷ known ∷ []
unfolding reads
update_subscription_failed_example =
    update_subscription_failed offline 5 feed (own ∷ known ∷ []) refl

update_subscription-live_iff_example :
    ((i : ℕ) × IsLiveAt
        (codes "s1")
        (codes "VLESS|c|443|u||")
        (update_subscription online 5 feed (own ∷ known ∷ gone ∷ [])).profiles
        i)
    ↔ Memᴰ (codes "VLESS|c|443|u||") (keys feed 5 links)
update_subscription-live_iff_example =
    update_subscription-live_iff online 5 feed (own ∷ known ∷ gone ∷ []) (codes "body") links 1
      (codes "VLESS|c|443|u||") refl refl refl

update_subscription-stats_example :
    let u = update_subscription online 5 feed (own ∷ known ∷ []) in
    (u.result.stats.added_profiles + u.result.stats.updated_profiles ≡ length links)
    × (length u.profiles ≡ length (own ∷ known ∷ []) + u.result.stats.added_profiles)
update_subscription-stats_example =
    update_subscription-stats online 5 feed (own ∷ known ∷ []) (codes "body") links 1 refl refl refl
