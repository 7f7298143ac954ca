-- ===== src/Prelude/Texts.antt =====
-- QString: a list of UTF-16 code units, with the operations that the program uses.
use Prim.Native.Nat.{ℕ, ◌+◌}
use Prim.Native.Char.{code}
use Prim.Native.String.{String}
use mathlib.Core.Path.{◌≡◌, refl}
use mathlib.Core.Logic.{◌↔◌}
use mathlib.Core.Bool.{Bool, true, false, ◌&&◌, ◌||◌}
use mathlib.Core.List.{List, [], ◌∷◌, ◌++◌, map}
use native.Mathlib.Omega.{arith}
use zarya.Prelude.Tests.{leb, ◌==◌, if◌then◌else◌}
use zarya.Prelude.Lists.{is_empty}

abbrev pub Text : Type 0
Text = List ℕ

-- QStringLiteral.
abbrev pub codes : String → Text
codes String.[] = []
codes (String.◌∷◌ c s) = code c ∷ codes s

unfoldable pub text_eq : Text → Text → Bool
text_eq [] [] = true
text_eq [] (d ∷ t) = false
text_eq (c ∷ s) [] = false
text_eq (c ∷ s) (d ∷ t) = c == d && text_eq s t

pub text_eq_iff : (s t : Text) → (text_eq s t ≡ true) ↔ (s ≡ t)
unfolding text_eq
text_eq_iff [] [] = ground arith
text_eq_iff [] (d ∷ t) = ground arith
text_eq_iff (c ∷ s) [] = ground arith
text_eq_iff (c ∷ s) (d ∷ t) = ground (arith, text_eq_iff s t)

pub text_eq_refl : (s : Text) → text_eq s s ≡ true
text_eq_refl s = (text_eq_iff s s).1 refl

-- QChar::isSpace, over the whole basic plane.
is_space : ℕ → Bool
is_space c =
    (leb 9 c && leb c 13)
    || c == 32
    || c == 0x85
    || c == 0xa0
    || c == 0x1680
    || (leb 0x2000 c && leb c 0x200a)
    || c == 0x2028
    || c == 0x2029
    || c == 0x202f
    || c == 0x205f
    || c == 0x3000

trim_left : Text → Text
trim_left [] = []
trim_left (c ∷ s) = let rest = trim_left s in if is_space c then rest else c ∷ s

trim_right : Text → Text
trim_right [] = []
trim_right (c ∷ s) = let rest = trim_right s in if is_space c && is_empty rest then [] else c ∷ rest

-- QString::trimmed.
unfoldable pub trimmed : Text → Text
unfolding is_space trim_left trim_right
trimmed s = trim_right (trim_left s)

-- QString::toLower, of which the program reads the result only by comparisons with ASCII texts:
-- of the letters beyond ASCII only the Kelvin sign lowers to one of those.
lower : ℕ → ℕ
lower c = if leb b'A' c && leb c b'Z' then c + 32 else if c == 0x212a then b'k' else c

unfoldable pub to_lower : Text → Text
unfolding lower
to_lower = map lower

-- Qt::CaseInsensitive compares case foldings, which also send the long s to s.
fold : ℕ → ℕ
unfolding lower
fold c = if c == 0x17f then b's' else lower c

unfoldable pub case_fold : Text → Text
unfolding fold
case_fold = map fold

unfoldable pub eq_ignore_case : Text → Text → Bool
unfolding case_fold text_eq
eq_ignore_case s t = text_eq (case_fold s) (case_fold t)

unfoldable pub starts_with : Text → Text → Bool
starts_with s [] = true
starts_with [] (d ∷ p) = false
starts_with (c ∷ s) (d ∷ p) = c == d && starts_with s p

unfoldable pub contains_text : Text → Text → Bool
unfolding starts_with
contains_text [] p = is_empty p
contains_text (c ∷ s) p = starts_with (c ∷ s) p || contains_text s p

unfoldable pub contains_char : Text → ℕ → Bool
contains_char [] d = false
contains_char (c ∷ s) d = c == d || contains_char s d

-- QStringList::contains.
unfoldable pub contains : List Text → Text → Bool
unfolding text_eq
contains [] t = false
contains (s ∷ ss) t = text_eq s t || contains ss t

-- QString::split at one character; the parts of "" are one empty part.
split_from : ℕ → Text → Text → List Text
split_from d cur [] = cur ∷ []
split_from d cur (c ∷ s) =
    let closed = cur ∷ split_from d [] s in
    let longer = split_from d (cur ++ c ∷ []) s in if c == d then closed else longer

unfoldable pub split : Text → ℕ → List Text
unfolding split_from
split s d = split_from d [] s

head_space : Text → Bool
unfolding is_space
head_space [] = false
head_space (c ∷ s) = is_space c

trim_left-eq : (s : Text) → head_space s ≡ false → trim_left s ≡ s
unfolding trim_left head_space
trim_left-eq [] h = refl
trim_left-eq (c ∷ s) h = ground arith

head_space-trim_left : (s : Text) → head_space (trim_left s) ≡ false
unfolding trim_left head_space
head_space-trim_left [] = refl
head_space-trim_left (c ∷ s) = ground (arith, head_space-trim_left s)

head_space-trim_right : (s : Text) → head_space s ≡ false → head_space (trim_right s) ≡ false
unfolding trim_right head_space
head_space-trim_right [] h = refl
head_space-trim_right (c ∷ s) h = ground arith

trim_right_idem : (s : Text) → trim_right (trim_right s) ≡ trim_right s
unfolding trim_right
trim_right_idem [] = refl
trim_right_idem (c ∷ s) = ground (arith, trim_right_idem s)

-- Trimming twice trims once.
pub trimmed_idem : (s : Text) → trimmed (trimmed s) ≡ trimmed s
unfolding trimmed
trimmed_idem s =
    rw
      (trim_left-eq (trim_right (trim_left s))
        (head_space-trim_right (trim_left s) (head_space-trim_left s)))
      (trim_right_idem (trim_left s))

lower_idem : (c : ℕ) → lower (lower c) ≡ lower c
unfolding lower
lower_idem c = ground arith

pub to_lower_idem : (s : Text) → to_lower (to_lower s) ≡ to_lower s
unfolding to_lower
to_lower_idem [] = refl
to_lower_idem (c ∷ s) = cc (lower_idem c, to_lower_idem s)

-- QDir::fromNativeSeparators on Windows.
slash : ℕ → ℕ
slash c = if c == 0x5c then 0x2f else c

unfoldable pub slashes : Text → Text
unfolding slash
slashes = map slash

is_space-slash : (c : ℕ) → is_space (slash c) ≡ is_space c
unfolding is_space slash
is_space-slash c = ground arith

trim_left-slashes : (s : Text) → trim_left (slashes s) ≡ slashes (trim_left s)
unfolding trim_left slashes
trim_left-slashes [] = refl
trim_left-slashes (c ∷ s) = ground (arith, is_space-slash c, trim_left-slashes s)

pub is_empty-slashes : (s : Text) → is_empty (slashes s) ≡ is_empty s
unfolding slashes
is_empty-slashes [] = refl
is_empty-slashes (c ∷ s) = refl

trim_right-slashes : (s : Text) → trim_right (slashes s) ≡ slashes (trim_right s)
unfolding trim_right slashes
trim_right-slashes [] = refl
trim_right-slashes (c ∷ s) =
    ground (arith, is_space-slash c, trim_right-slashes s, is_empty-slashes (trim_right s))

-- Separators are no spaces, so that trimming and turning separators commute.
pub trimmed-slashes : (s : Text) → trimmed (slashes s) ≡ slashes (trimmed s)
unfolding trimmed
trimmed-slashes s = rw (trim_left-slashes s) (trim_right-slashes (trim_left s))

pub slashes_idem : (s : Text) → slashes (slashes s) ≡ slashes s
unfolding slashes slash
slashes_idem [] = refl
slashes_idem (c ∷ s) = ground (arith, slashes_idem s)

unfoldable pub has_space : Text → Bool
unfolding is_space
has_space [] = false
has_space (c ∷ s) = is_space c || has_space s

trim_right-eq : (s : Text) → has_space s ≡ false → trim_right s ≡ s
unfolding trim_right has_space
trim_right-eq [] h = refl
trim_right-eq (c ∷ s) h = ground (arith, trim_right-eq s)

-- A text without spaces is trimmed.
pub trimmed-eq : (s : Text) → has_space s ≡ false → trimmed s ≡ s
unfolding trimmed trim_left has_space
trimmed-eq [] h = refl
trimmed-eq (c ∷ s) h = ground (arith, trim_right-eq (c ∷ s))

pub has_space-append :
    (s t : Text) → has_space s ≡ false → has_space t ≡ false → has_space (s ++ t) ≡ false
unfolding has_space
has_space-append [] t h k = k
has_space-append (c ∷ s) t h k = ground (arith, has_space-append s t)

-- QStringList::join with a comma and a blank.
unfoldable pub join_commas : List Text → Text
join_commas [] = []
join_commas (t ∷ []) = t
join_commas (t ∷ u ∷ texts) = t ++ (b',' ∷ b' ' ∷ []) ++ join_commas (u ∷ texts)
