-- ===== src/Prelude/Cuts.antt =====
-- QString: positions of a character, left and mid.
use Prim.Native.Nat.{ℕ, zero, suc}
use mathlib.Core.Path.{◌≡◌, refl}
use mathlib.Core.Bool.{Bool, true, false}
use mathlib.Core.Option.{Option, none, some}
use mathlib.Core.List.{[], ◌∷◌, ◌++◌}
use native.Mathlib.Omega.{arith}
use zarya.Prelude.Tests.{◌==◌, if◌then◌else◌}
use zarya.Prelude.Lists.{length, drop}
use zarya.Prelude.Texts.{Text, contains_char}

abbrev pub next_index : Option ℕ → Option ℕ
next_index none = none
next_index (some i) = some (suc i)

-- indexOf, `none` for -1.
unfoldable pub index_of : Text → ℕ → Option ℕ
index_of [] d = none
index_of (c ∷ s) d = let rest = next_index (index_of s d) in if c == d then some 0 else rest

-- lastIndexOf, from what the rest of the text gives.
abbrev pub or_first : Bool → Option ℕ → Option ℕ
or_first here (some i) = some (suc i)
or_first true none = some 0
or_first false none = none

unfoldable pub last_index_of : Text → ℕ → Option ℕ
last_index_of [] d = none
last_index_of (c ∷ s) d = or_first (c == d) (last_index_of s d)

unfoldable pub left : Text → ℕ → Text
left s zero = []
left [] (suc n) = []
left (c ∷ s) (suc n) = c ∷ left s n

abbrev pub mid : Text → ℕ → Text
mid s n = drop n s

-- What stands before the character found, or all of the text.
unfoldable pub left_of : Text → Option ℕ → Text
unfolding left
left_of s none = s
left_of s (some i) = left s i

pub index_of-absent : (s : Text) (d : ℕ) → contains_char s d ≡ false → index_of s d ≡ none
unfolding index_of contains_char
index_of-absent [] d h = refl
index_of-absent (c ∷ s) d h = ground (arith, index_of-absent s d)

pub last_index_of-absent : (s : Text) (d : ℕ) → contains_char s d ≡ false → last_index_of s d ≡ none
unfolding last_index_of contains_char
last_index_of-absent [] d h = refl
last_index_of-absent (c ∷ s) d h = ground (arith, last_index_of-absent s d)

-- The last `d` of a text that has none behind it.
pub last_index_of-append :
    (s t : Text) (d : ℕ)
    → contains_char t d ≡ false
    → last_index_of (s ++ d ∷ t) d ≡ some (length s)
unfolding last_index_of
last_index_of-append [] t d h = ground (arith, last_index_of-absent t d h)
last_index_of-append (c ∷ s) t d h = ground (arith, last_index_of-append s t d h)

-- The first `d` of a text that has none before it.
pub index_of-append :
    (s t : Text) (d : ℕ) → contains_char s d ≡ false → index_of (s ++ d ∷ t) d ≡ some (length s)
unfolding index_of contains_char
index_of-append [] t d h = ground arith
index_of-append (c ∷ s) t d h = ground (arith, index_of-append s t d)

pub left-append : (s t : Text) → left (s ++ t) (length s) ≡ s
unfolding left
left-append [] t = ground arith
left-append (c ∷ s) t = rw (left-append s t)

pub mid-append : (s t : Text) (d : ℕ) → mid (s ++ d ∷ t) (suc (length s)) ≡ t
mid-append [] t d = refl
mid-append (c ∷ s) t d = mid-append s t d

pub contains_char-append :
    (s t : Text) (d : ℕ)
    → contains_char s d ≡ false
    → contains_char t d ≡ false
    → contains_char (s ++ t) d ≡ false
unfolding contains_char
contains_char-append [] t d h k = k
contains_char-append (c ∷ s) t d h k = ground (arith, contains_char-append s t d)
