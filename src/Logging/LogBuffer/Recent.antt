-- ===== src/Logging/LogBuffer/Recent.antt =====
-- src/logging/LogBuffer.cpp: which lines and errors of a history are still there.
use zarya.Prelude.{
  ◌≤◌, ℕ, zero, suc, ◌-◌, ◌≡◌, refl, ◌∙◌, ap, sym, subst, Bool, true, false, List, [], ◌∷◌, ◌++◌,
  append_assoc, append-nil, length, length-append, drop, Text, codes, is_empty, pos, ltb, leb,
  if◌then◌else◌, arith,
}
use zarya.Logging.LogBuffer.{
  LogBuffer, max_stored_lines, max_stored_errors, trim_to, recent, append_error, append,
  recent_lines,
}

-- The last items of a list, at most so many.
unfoldable pub min : ℕ → ℕ → ℕ
min n m = if leb n m then n else m

longer : (n max : ℕ) → ltb max (suc n) ≡ true → suc n - max ≡ suc (n - max)
longer n max h = ground arith

shorter : (n max : ℕ) → ltb max (suc n) ≡ false → suc n - max ≡ 0
shorter n max h = ground arith

module _ {ℓ} {A : Type ℓ} where
  abbrev pub last : ℕ → List A → List A
  last n xs = drop (length xs - n) xs

  drop_nil : (n : ℕ) → drop {A = A} n [] ≡ []
  drop_nil zero = refl
  drop_nil (suc n) = refl

  trim_cons :
      (test : Bool) (x : A) (xs ys : List A) (k j : ℕ)
      → (test ≡ true → j ≡ suc k)
      → (test ≡ false → j ≡ 0)
      → ys ≡ drop k xs
      → (if test then ys else x ∷ xs) ≡ drop j (x ∷ xs)
  trim_cons true x xs ys k j h e same = rw (h refl) same
  trim_cons false x xs ys k j h e same = rw (e refl) refl

  trim_to-last : (max : ℕ) (xs : List A) → trim_to max xs ≡ last max xs
  unfolding trim_to
  trim_to-last max [] = sym (drop_nil (0 - max))
  trim_to-last max (x ∷ xs) =
      trim_cons (ltb max (length (x ∷ xs))) x xs (trim_to max xs) (length xs - max)
        (length (x ∷ xs) - max) (longer (length xs) max) (shorter (length xs) max)
        (trim_to-last max xs)

  trim_to_again :
      (max : ℕ) (xs : List A) (y : A)
      → trim_to max (trim_to max xs ++ y ∷ []) ≡ trim_to max (xs ++ y ∷ [])
  unfolding trim_to
  trim_to_again max [] y = refl
  trim_to_again max (x ∷ xs) y = ground (arith, length-append xs (y ∷ []), trim_to_again max xs y)

  trim_to_twice : (n max : ℕ) (xs : List A) → trim_to n (trim_to max xs) ≡ trim_to (min n max) xs
  unfolding trim_to min
  trim_to_twice n max [] = refl
  trim_to_twice n max (x ∷ xs) = ground (arith, trim_to_twice n max xs)

-- The lines of a history that are not empty, in order.
unfoldable pub filled_lines : List (ℕ × Text) → List Text
filled_lines [] = []
filled_lines ((now, line) ∷ history) =
    let rest = filled_lines history in if is_empty line then rest else line ∷ rest

-- A history of calls of append, each with its time.
unfoldable pub append_all : List (ℕ × Text) → LogBuffer → LogBuffer
unfolding append
append_all [] b = b
append_all ((now, line) ∷ history) b = append_all history (append now line b)

abbrev pub empty_buffer : LogBuffer
empty_buffer = record { lines = []; errors = [] }

lines-append :
    (now : ℕ) (line : Text) (b : LogBuffer)
    → (append now line b).lines
      ≡ (if is_empty line then b.lines else trim_to max_stored_lines (b.lines ++ line ∷ []))
unfolding append append_error
lines-append now line b = ground arith

lines-append_all :
    (history : List (ℕ × Text)) (b : LogBuffer) (before : List Text)
    → b.lines ≡ trim_to max_stored_lines before
    → (append_all history b).lines ≡ trim_to max_stored_lines (before ++ filled_lines history)
unfolding append_all filled_lines
lines-append_all [] b before h = h ∙ ap (trim_to max_stored_lines) (sym (append-nil before))
lines-append_all ((now, []) ∷ history) b before h = lines-append_all history b before h
lines-append_all ((now, c ∷ line) ∷ history) b before h =
    lines-append_all history (append now (c ∷ line) b) (before ++ (c ∷ line) ∷ []) (
      lines-append now (c ∷ line) b
      ∙ ap (λ lines. trim_to max_stored_lines (lines ++ (c ∷ line) ∷ [])) h
      ∙ trim_to_again max_stored_lines before (c ∷ line))
    ∙ ap (trim_to max_stored_lines) (append_assoc before ((c ∷ line) ∷ []) (filled_lines history))

-- After any history of appended lines the buffer gives, for a positive count, that many of the last
-- lines that are not empty, or 5000 if it is more, or all if there are fewer.
pub recent_lines-append_all :
    (n : ℕ) (history : List (ℕ × Text))
    → recent_lines (pos (suc n)) (append_all history empty_buffer)
      ≡ last (min (suc n) max_stored_lines) (filled_lines history)
unfolding recent_lines recent trim_to
recent_lines-append_all n history =
    ap (last (suc n)) (lines-append_all history empty_buffer [] refl)
    ∙ sym (trim_to-last (suc n) (trim_to max_stored_lines (filled_lines history)))
    ∙ trim_to_twice (suc n) max_stored_lines (filled_lines history)
    ∙ trim_to-last (min (suc n) max_stored_lines) (filled_lines history)

length-trim_to {ℓ} : {A : Type ℓ} → (max : ℕ) (xs : List A) → length (trim_to max xs) ≤ max
unfolding trim_to
length-trim_to max [] = ground arith
length-trim_to max (x ∷ xs) = ground (arith, length-trim_to max xs)

append_bounded :
    (now : ℕ) (line : Text) (b : LogBuffer)
    → length b.errors ≤ max_stored_errors
    → length (append now line b).errors ≤ max_stored_errors
unfolding append append_error
append_bounded now line b h = ground (
  arith,
  h,
  length-trim_to max_stored_errors
      (b.errors ++ record { timestamp = now; area = codes "Log"; message = line } ∷ []),
)

errors_bounded :
    (history : List (ℕ × Text)) (b : LogBuffer)
    → length b.errors ≤ max_stored_errors
    → length (append_all history b).errors ≤ max_stored_errors
unfolding append_all
errors_bounded [] b h = h
errors_bounded ((now, line) ∷ history) b h =
    errors_bounded history (append now line b) (append_bounded now line b h)

-- However long the history, at most 5000 lines and 200 errors are kept.
pub append_all_bounded :
    (history : List (ℕ × Text))
    → (length (append_all history empty_buffer).lines ≤ 5000)
      × (length (append_all history empty_buffer).errors ≤ 200)
unfolding trim_to
append_all_bounded history = (
  subst (λ lines. length lines ≤ max_stored_lines)
      (sym (lines-append_all history empty_buffer [] refl))
      (length-trim_to max_stored_lines (filled_lines history)),
  errors_bounded history empty_buffer (ground arith),
)
