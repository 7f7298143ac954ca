-- ===== src/Prelude/Format.antt =====
-- QString::number and QString::arg: the place markers %1 to %99 of a text are filled lowest first.
-- (Qt's locale markers %L1 are not used by the program.)
use Prim.Native.Nat.{ℕ, zero, suc, ◌+◌, ◌-◌, ◌*◌, ◌/◌, ◌%◌}
use mathlib.Core.Bool.{Bool, false, ◌&&◌}
use mathlib.Core.Option.{Option, none, some}
use mathlib.Core.List.{List, [], ◌∷◌, ◌++◌, append-nil}
use mathlib.Core.Path.{◌≡◌, refl, ap, ◌∙◌}
use native.Mathlib.Omega.{arith}
use zarya.Prelude.Tests.{ltb, leb, ◌==◌, if◌then◌else◌}
use zarya.Prelude.Int.{ℤ, pos, negsuc}
use zarya.Prelude.Texts.{Text, codes, contains_char}

-- Decimal digits; a number has fewer digits than its successor, so that fuel is enough.
unfoldable pub decimal : ℕ → ℕ → Text
decimal zero n = []
decimal (suc fuel) n =
    let rest = decimal fuel (n / 10) ++ (b'0' + n % 10) ∷ [] in
    if ltb n 10 then (b'0' + n) ∷ [] else rest

unfoldable pub number : ℤ → Text
unfolding decimal
number (pos n) = decimal (suc n) n
number (negsuc n) = b'-' ∷ decimal (suc (suc n)) (suc n)

unfoldable pub is_digit : ℕ → Bool
is_digit c = leb b'0' c && leb c b'9'

pub data Piece : Type 0 where
  plain marker : ℕ → Piece

-- The rest of a text behind "%" and a digit: a second digit belongs to the marker.
scan : Text → List Piece
unfolding is_digit
scan [] = []
scan (c ∷ []) = plain c ∷ []
scan (c ∷ d ∷ []) =
    if c == b'%' && is_digit d then marker (d - b'0') ∷ [] else plain c ∷ plain d ∷ []
scan (c ∷ d ∷ e ∷ s) =
    let two = marker ((d - b'0') * 10 + (e - b'0')) ∷ scan s in
    let one = marker (d - b'0') ∷ scan (e ∷ s) in
    let skip = plain c ∷ scan (d ∷ e ∷ s) in
    if c == b'%' && is_digit d then (if is_digit e then two else one) else skip

lowest_of : Option ℕ → List Piece → Option ℕ
lowest_of best [] = best
lowest_of best (plain c ∷ ps) = lowest_of best ps
lowest_of none (marker n ∷ ps) = lowest_of (some n) ps
lowest_of (some m) (marker n ∷ ps) = lowest_of (some (if ltb n m then n else m)) ps

-- `text` pieces stand for text that an earlier argument of the same call has filled in.
pub data Filled : Type 0 where
  open_piece : Piece → Filled
  text : Text → Filled

open_pieces : List Filled → List Piece
open_pieces [] = []
open_pieces (open_piece p ∷ fs) = p ∷ open_pieces fs
open_pieces (text s ∷ fs) = open_pieces fs

refill : ℕ → Text → List Filled → List Filled
refill n value [] = []
refill n value (open_piece (marker m) ∷ fs) =
    (if m == n then text value else open_piece (marker m)) ∷ refill n value fs
refill n value (f ∷ fs) = f ∷ refill n value fs

closed : List Piece → List Filled
closed [] = []
closed (p ∷ ps) = open_piece p ∷ closed ps

digits_of : ℕ → Text
digits_of n = if ltb n 10 then (b'0' + n) ∷ [] else (b'0' + n / 10) ∷ (b'0' + n % 10) ∷ []

render : List Filled → Text
unfolding digits_of
render [] = []
render (open_piece (plain c) ∷ fs) = c ∷ render fs
render (open_piece (marker n) ∷ fs) = (b'%' ∷ digits_of n) ++ render fs
render (text s ∷ fs) = s ++ render fs

fill_all : List Text → List Filled → List Filled
unfolding lowest_of open_pieces refill
fill_all [] fs = fs
fill_all (value ∷ values) fs = elim (lowest_of none (open_pieces fs)) [
  | none ↦ fs
  | some n ↦ fill_all values (refill n value fs)
]

-- `template.arg(v1, v2, …)`: the arguments of one call do not see markers in one another.
unfoldable pub arg : Text → List Text → Text
unfolding scan closed fill_all render
arg template values = render (fill_all values (closed (scan template)))

plains : Text → List Piece
plains [] = plain b':' ∷ marker 2 ∷ []
plains (c ∷ s) = plain c ∷ plains s

scan-plains : (s : Text) → contains_char s b'%' ≡ false → scan (s ++ codes ":%2") ≡ plains s
unfolding scan plains contains_char is_digit
scan-plains [] h = refl
scan-plains (c ∷ []) h = ground arith
scan-plains (c ∷ d ∷ []) h = ground (arith, scan-plains (d ∷ []))
scan-plains (c ∷ d ∷ e ∷ s) h = ground (arith, scan-plains (d ∷ e ∷ s))

lowest_of-plains : (s : Text) → lowest_of none (open_pieces (closed (plains s))) ≡ some 2
unfolding lowest_of open_pieces closed plains
lowest_of-plains [] = refl
lowest_of-plains (c ∷ s) = lowest_of-plains s

render-plains : (s v : Text) → render (refill 2 v (closed (plains s))) ≡ s ++ b':' ∷ v
unfolding render refill closed plains
render-plains [] v = ap (λ t. b':' ∷ t) (append-nil v)
render-plains (c ∷ s) v = ap (λ t. c ∷ t) (render-plains s v)

fill_all-plains :
    (s v : Text) → fill_all (v ∷ []) (closed (plains s)) ≡ refill 2 v (closed (plains s))
unfolding fill_all
fill_all-plains s v =
    let fs = closed (plains s) in
    ap (λ o. elim o as (λ _. List Filled) [ none ↦ fs | some n ↦ fill_all [] (refill n v fs) ])
      (lowest_of-plains s)

-- The second of two arguments, where the first has no place marker in it.
pub arg-second :
    (s v : Text)
    → contains_char s b'%' ≡ false
    → arg (arg (codes "%1:%2") (s ∷ [])) (v ∷ []) ≡ s ++ b':' ∷ v
unfolding arg
arg-second s v h =
    ap (λ ps. render (fill_all (v ∷ []) (closed ps))) (scan-plains s h)
    ∙ ap render (fill_all-plains s v)
    ∙ render-plains s v
