-- ===== src/Updater/Version.antt =====
-- src/updater/AppVersion.h and AppVersion.cpp: parsing and comparing version texts.
pub mod Order
use zarya.Prelude.{
  ℕ, zero, suc, ◌+◌, ◌-◌, ◌*◌, Bool, true, false, ◌&&◌, ◌||◌, List, [], ◌∷◌, ◌++◌, Option, none,
  some, Text, codes, text_eq, trimmed, to_lower, case_fold, split, ℤ, pos, negsuc, ltb_ℤ, eqb_ℤ,
  leb, ltb, ◌==◌, if◌then◌else◌, is_empty, parse_int,
}

pub data AppVersionPrerelease : Type 0 where
  no_prerelease beta dev other : AppVersionPrerelease

pub record AppVersion : Type 0 where
  pub major : ℤ
  pub minor : ℤ
  pub patch : ℤ
  pub prerelease : AppVersionPrerelease

unfoldable pub prerelease_rank : AppVersionPrerelease → ℤ
prerelease_rank no_prerelease = pos 3
prerelease_rank beta = pos 2
prerelease_rank dev = pos 1
prerelease_rank other = pos 0

unfoldable pub parse_prerelease : Text → AppVersionPrerelease
unfolding trimmed to_lower text_eq
parse_prerelease suffix =
    let lowered = to_lower (trimmed suffix) in
    if is_empty lowered
    then no_prerelease
    else if text_eq lowered (codes "beta")
    then beta
    else if text_eq lowered (codes "dev") || text_eq lowered (codes "alpha")
    then dev
    else other

-- QString::toInt, which gives 0 where it is not ok.
unfoldable pub to_int : Text → ℤ
unfolding parse_int
to_int s = elim (parse_int s) [ none ↦ pos 0 | some n ↦ n ]

-- The version without its leading "v" or "V".
drop_v : Text → Text
unfolding case_fold
drop_v [] = []
drop_v (c ∷ s) = if text_eq (case_fold (c ∷ [])) (codes "v") then s else c ∷ s

-- What stands before the first dash, and what stands behind it (nothing, without a dash).
before_dash : Text → Text
before_dash [] = []
before_dash (c ∷ s) = let rest = c ∷ before_dash s in if c == b'-' then [] else rest

after_dash : Text → Text
after_dash [] = []
after_dash (c ∷ s) = let rest = after_dash s in if c == b'-' then s else rest

-- `parts.size() > n ? parts.at(n).toInt() : 0`.
part : List Text → ℕ → ℤ
unfolding to_int
part [] n = pos 0
part (p ∷ parts) zero = to_int p
part (p ∷ parts) (suc n) = part parts n

unfoldable pub parse : Text → AppVersion
unfolding drop_v before_dash after_dash part parse_prerelease split
parse text =
    let normalized = drop_v (trimmed text) in
    let parts = split (before_dash normalized) b'.' in
    record {
      major = part parts 0;
      minor = part parts 1;
      patch = part parts 2;
      prerelease = parse_prerelease (after_dash normalized);
    }

-- One level of the comparison: `if (l != r) return l < r ? -1 : 1;`, then the levels behind it.
unfoldable pub by_then : ℤ → ℤ → ℤ → ℤ
by_then l r rest = if eqb_ℤ l r then rest else if ltb_ℤ l r then negsuc 0 else pos 1

unfoldable pub compare_parsed : AppVersion → AppVersion → ℤ
compare_parsed l r = by_then l.major r.major (
    by_then l.minor r.minor (
      by_then l.patch r.patch
        (by_then (prerelease_rank l.prerelease) (prerelease_rank r.prerelease) (pos 0))))

unfoldable pub compare : Text → Text → ℤ
unfolding compare_parsed
compare left right = compare_parsed (parse left) (parse right)

unfoldable pub is_less_than : Text → Text → Bool
unfolding compare
is_less_than left right = ltb_ℤ (compare left right) (pos 0)

unfoldable pub is_greater_than : Text → Text → Bool
unfolding compare
is_greater_than left right = ltb_ℤ (pos 0) (compare left right)
