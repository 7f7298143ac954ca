-- ===== src/Updater/Channel.antt =====
-- src/updater/AppUpdateChannel.h and AppUpdateChannel.cpp: the channels and who sees which.
use zarya.Prelude.{
  ◌≡◌, refl, Bool, List, [], ◌∷◌, Text, codes, text_eq, trimmed, to_lower, eq_ignore_case, any,
  if◌then◌else◌,
}

pub data AppUpdateChannel : Type 0 where
  dev beta rc stable : AppUpdateChannel

unfoldable pub from_string : Text → AppUpdateChannel
unfolding text_eq trimmed to_lower
from_string text =
    let lowered = to_lower (trimmed text) in
    if text_eq lowered (codes "dev")
    then dev
    else if text_eq lowered (codes "rc")
    then rc
    else if text_eq lowered (codes "stable")
    then stable
    else beta

unfoldable pub to_string : AppUpdateChannel → Text
to_string dev = codes "dev"
to_string rc = codes "rc"
to_string stable = codes "stable"
to_string beta = codes "beta"

unfoldable pub allowed_manifest_channel_keys : AppUpdateChannel → List Text
allowed_manifest_channel_keys dev = codes "dev" ∷ codes "beta" ∷ codes "stable" ∷ []
allowed_manifest_channel_keys beta = codes "beta" ∷ codes "stable" ∷ []
allowed_manifest_channel_keys rc = codes "rc" ∷ codes "stable" ∷ []
allowed_manifest_channel_keys stable = codes "stable" ∷ []

-- QStringList::contains with Qt::CaseInsensitive.
unfoldable pub can_see_channel : AppUpdateChannel → Text → Bool
unfolding allowed_manifest_channel_keys any eq_ignore_case
can_see_channel channel key =
    any (λ allowed. eq_ignore_case allowed key) (allowed_manifest_channel_keys channel)

-- Every channel is read back from its own name.
pub from_string-to_string : (c : AppUpdateChannel) → from_string (to_string c) ≡ c
unfolding from_string to_string
from_string-to_string dev = refl
from_string-to_string beta = refl
from_string-to_string rc = refl
from_string-to_string stable = refl
