-- ===== src/Prelude/Numbers.antt =====
-- QString::toInt(&ok) in base 10: blanks around the digits are skipped, a sign may stand in front.
-- Anything that is no number, or is out of the range of a 32-bit int, is not ok (`none`).
use Prim.Native.Nat.{ℕ, zero, suc, ◌+◌, ◌-◌, ◌*◌, ◌/◌, ◌%◌, ◌<◌}
use mathlib.Core.Path.{◌≡◌, refl}
use mathlib.Core.Bool.{Bool, true, false, ◌&&◌}
use mathlib.Core.Option.{Option, none, some}
use mathlib.Core.List.{[], ◌∷◌, ◌++◌}
use native.Mathlib.Omega.{arith}
use zarya.Prelude.Tests.{ltb, leb, ◌==◌, if◌then◌else◌}
use zarya.Prelude.Int.{ℤ, pos, negsuc}
use zarya.Prelude.Texts.{Text, trimmed, has_space, trimmed-eq, contains_char}
use zarya.Prelude.Lists.{is_empty}
use zarya.Prelude.Format.{decimal, number, is_digit}

unfoldable digit_to : Option ℕ → ℕ → Option ℕ
unfolding is_digit
digit_to none c = none
digit_to (some value) c = if is_digit c then some (value * 10 + (c - b'0')) else none

digits_value : Option ℕ → Text → Option ℕ
unfolding digit_to
digits_value value [] = value
digits_value value (c ∷ s) = digits_value (digit_to value c) s

unsigned : Text → Option ℕ
unfolding digits_value digit_to
unsigned [] = none
unsigned (c ∷ s) = digits_value (some 0) (c ∷ s)

positive : Option ℕ → Option ℤ
positive none = none
positive (some n) = if ltb n 0x80000000 then some (pos n) else none

negative : Option ℕ → Option ℤ
negative none = none
negative (some n) =
    if n == 0 then some (pos 0) else if leb n 0x80000000 then some (negsuc (n - 1)) else none

signed : Text → Option ℤ
unfolding unsigned positive negative
signed [] = none
signed (c ∷ s) =
    if c == b'-'
    then negative (unsigned s)
    else if c == b'+'
    then positive (unsigned s)
    else positive (unsigned (c ∷ s))

unfoldable pub parse_int : Text → Option ℤ
unfolding signed trimmed
parse_int s = signed (trimmed s)

digits_value-append :
    (v : Option ℕ) (s : Text) (c : ℕ) → digits_value v (s ++ c ∷ []) ≡ digit_to (digits_value v s) c
unfolding digits_value digit_to
digits_value-append v [] c = refl
digits_value-append v (d ∷ s) c = digits_value-append (digit_to v d) s c

digit_to-digit : (v d : ℕ) → d < 10 → digit_to (some v) (b'0' + d) ≡ some (v * 10 + d)
unfolding digit_to is_digit
digit_to-digit v d h = ground arith

digits_value-decimal : (fuel n : ℕ) → n < fuel → digits_value (some 0) (decimal fuel n) ≡ some n
unfolding digits_value digit_to is_digit decimal
digits_value-decimal zero n h = ground arith
digits_value-decimal (suc fuel) n h = ground (
  arith,
  digits_value-append (some 0) (decimal fuel (n / 10)) (b'0' + n % 10),
  digits_value-decimal fuel (n / 10),
  digit_to-digit 0 n,
  digit_to-digit (n / 10) (n % 10),
)

-- Every character of a decimal number is a digit.
all_digits : Text → Bool
unfolding is_digit
all_digits [] = true
all_digits (c ∷ s) = is_digit c && all_digits s

all_digits-append :
    (s : Text) (d : ℕ) → d < 10 → all_digits s ≡ true → all_digits (s ++ (b'0' + d) ∷ []) ≡ true
unfolding all_digits is_digit
all_digits-append [] d k h = ground arith
all_digits-append (c ∷ s) d k h = ground (arith, all_digits-append s d k)

all_digits-decimal : (fuel n : ℕ) → all_digits (decimal fuel n) ≡ true
unfolding all_digits decimal is_digit
all_digits-decimal zero n = refl
all_digits-decimal (suc fuel) n =
    ground
      (arith, all_digits-append (decimal fuel (n / 10)) (n % 10), all_digits-decimal fuel (n / 10))

has_space-digits : (s : Text) → all_digits s ≡ true → has_space s ≡ false
unfolding all_digits is_digit has_space
has_space-digits [] h = refl
has_space-digits (c ∷ s) h = ground (arith, has_space-digits s)

-- No character that is no digit stands in a number.
contains_char-digits :
    (s : Text) (d : ℕ) → is_digit d ≡ false → all_digits s ≡ true → contains_char s d ≡ false
unfolding all_digits is_digit contains_char
contains_char-digits [] d h k = refl
contains_char-digits (c ∷ s) d h k = ground (arith, contains_char-digits s d)

pub contains_char-number : (n d : ℕ) → is_digit d ≡ false → contains_char (number (pos n)) d ≡ false
unfolding number
contains_char-number n d h =
    contains_char-digits (decimal (suc n) n) d h (all_digits-decimal (suc n) n)

pub has_space-number : (n : ℕ) → has_space (number (pos n)) ≡ false
unfolding number
has_space-number n = has_space-digits (decimal (suc n) n) (all_digits-decimal (suc n) n)

signed-digits :
    (s : Text) (n : ℕ)
    → all_digits s ≡ true
    → unsigned s ≡ some n
    → n < 0x80000000
    → signed s ≡ some (pos n)
unfolding signed positive all_digits is_digit unsigned
signed-digits [] n h e k = ground arith
signed-digits (c ∷ s) n h e k = ground arith

unsigned-digits :
    (s : Text) (n : ℕ) → digits_value (some 0) s ≡ some n → is_empty s ≡ false → unsigned s ≡ some n
unfolding unsigned
unsigned-digits [] n h k = ground arith
unsigned-digits (c ∷ s) n h k = h

is_empty-append : (s t : Text) → is_empty t ≡ false → is_empty (s ++ t) ≡ false
is_empty-append [] t h = h
is_empty-append (c ∷ s) t h = refl

pub is_empty-number : (n : ℕ) → is_empty (number (pos n)) ≡ false
unfolding number decimal
is_empty-number n = ground (arith, is_empty-append (decimal n (n / 10)) ((b'0' + n % 10) ∷ []))

-- A number that an int holds is read back from its decimal text.
pub parse_int-number : (n : ℕ) → n < 0x80000000 → parse_int (number (pos n)) ≡ some (pos n)
unfolding parse_int number
parse_int-number n h = ground (
  arith,
  trimmed-eq (decimal (suc n) n) (has_space-number n),
  signed-digits (decimal (suc n) n) n (all_digits-decimal (suc n) n),
  unsigned-digits (decimal (suc n) n) n (digits_value-decimal (suc n) n omega arith)
      (is_empty-number n),
)
