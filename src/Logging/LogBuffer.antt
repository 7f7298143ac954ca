-- ===== src/Logging/LogBuffer.antt =====
-- src/logging/LogBuffer.cpp: the last lines and the last errors.
pub mod Recent
use zarya.Prelude.{
  ℕ, zero, suc, ◌-◌, Bool, true, false, ◌||◌, List, [], ◌∷◌, ◌++◌, length, drop, Text, codes,
  to_lower, contains_text, is_empty, ℤ, pos, negsuc, ltb, if◌then◌else◌,
}

pub record LogErrorEntry : Type 0 where
  pub timestamp : ℕ
  pub area : Text
  pub message : Text

pub record LogBuffer : Type 0 where
  pub lines : List Text
  pub errors : List LogErrorEntry

abbrev pub max_stored_lines : ℕ
max_stored_lines = 5000

abbrev pub max_stored_errors : ℕ
max_stored_errors = 200

module _ {ℓ} {A : Type ℓ} where
  -- `while (list.size() > max) list.removeFirst()`.
  unfoldable pub trim_to : ℕ → List A → List A
  trim_to max [] = []
  trim_to max (x ∷ xs) =
      let rest = trim_to max xs in if ltb max (length (x ∷ xs)) then rest else x ∷ xs

  -- `list.mid(qMax(0, list.size() - max))`, or nothing where max is not positive.
  unfoldable pub recent : ℤ → List A → List A
  recent (pos zero) xs = []
  recent (pos (suc n)) xs = drop (length xs - suc n) xs
  recent (negsuc n) xs = []

-- The messages that appendError is called for.
unfoldable pub is_error_line : Text → Bool
unfolding to_lower contains_text
is_error_line line =
    contains_text (to_lower line) (codes "error")
    || contains_text (to_lower line) (codes "failed")
    || contains_text (to_lower line) (codes "fatal")

unfoldable pub append_error : ℕ → Text → Text → LogBuffer → LogBuffer
unfolding trim_to
append_error now area message b = record b {
  errors =
      trim_to max_stored_errors
        (b.errors ++ record { timestamp = now; area = area; message = message } ∷ []);
}

unfoldable pub append : ℕ → Text → LogBuffer → LogBuffer
unfolding trim_to is_error_line append_error
append now line b =
    if is_empty line
    then b
    else (let stored = record b { lines = trim_to max_stored_lines (b.lines ++ line ∷ []) } in
        if is_error_line line then append_error now (codes "Log") line stored else stored)

unfoldable pub recent_lines : ℤ → LogBuffer → List Text
unfolding recent
recent_lines max b = recent max b.lines

unfoldable pub recent_errors : ℤ → LogBuffer → List LogErrorEntry
unfolding recent
recent_errors max b = recent max b.errors
