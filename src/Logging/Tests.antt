-- ===== src/Logging/Tests.antt =====
-- A run of the log buffer.
use zarya.Prelude.{
  ℕ, ◌≤◌, ◌≡◌, refl, List, [], ◌∷◌, length, Text, codes, pos, to_lower, starts_with, contains_text,
}
use zarya.Logging.LogBuffer.{
  max_stored_lines, trim_to, is_error_line, append_error, append, recent_lines,
}
use zarya.Logging.LogBuffer.Recent.{
  last, min, filled_lines, append_all, empty_buffer, recent_lines-append_all, append_all_bounded,
}

abbrev history : List (ℕ × Text)
history = (1, codes "started") ∷ (2, []) ∷ (3, codes "Download FAILED") ∷ (4, codes "stopped") ∷ []

recent_lines-append_all_example :
    recent_lines (pos 2) (append_all history empty_buffer)
    ≡ last (min 2 max_stored_lines) (filled_lines history)
recent_lines-append_all_example = recent_lines-append_all 1 history

last_two :
    last (min 2 max_stored_lines) (filled_lines history)
    ≡ codes "Download FAILED" ∷ codes "stopped" ∷ []
unfolding min filled_lines
last_two = refl

-- The line that tells of a failure is also kept as an error.
one_error : length (append_all history empty_buffer).errors ≡ 1
unfolding append_all append append_error is_error_line trim_to to_lower contains_text starts_with
one_error = refl

append_all_bounded_example :
    (length (append_all history empty_buffer).lines ≤ 5000)
    × (length (append_all history empty_buffer).errors ≤ 200)
append_all_bounded_example = append_all_bounded history
