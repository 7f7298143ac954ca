-- ===== src/Subscriptions/Parser/Lines.antt =====
-- src/subscription/SubscriptionParser.cpp: what becomes of the lines of a body.
use zarya.Prelude.{
  ℕ, suc, ◌+◌, ◌≡◌, refl, ◌∙◌, ap, sym, Bool, true, false, not, ◌&&◌, ◌||◌, List, [], ◌∷◌, ◌++◌,
  append_assoc, append-nil, length, length-append, any, Text, trimmed, is_empty, ◌==◌,
  if◌then◌else◌, arith,
}
use zarya.Profiles.Profile.{Profile}
use zarya.Subscriptions.Parser.{
  ShareLinkParseResult, parsed, refused, SubscriptionParseResult, is_comment, is_supported_scheme,
  looks_like_plain_share_links, split_lines, normalized, skip_line, add_link, add_line, conclude,
  empty_result, parse_line, parse_each, parse_lines, parse,
}

-- The profile of a link that is ok.
abbrev pub profile_of : ShareLinkParseResult → List Profile
profile_of (parsed profile) = profile ∷ []
profile_of (refused text) = []

-- How many lines are neither blank nor comments.
pub count_candidates : List Text → ℕ
unfolding is_comment trimmed
count_candidates [] = 0
count_candidates (line ∷ lines) =
    let rest = count_candidates lines in if is_comment (trimmed line) then rest else suc rest

-- The profile that a line adds, from whether it is a comment and has a scheme.
abbrev pub kept_profile : Bool → Bool → ShareLinkParseResult → List Profile
kept_profile comment supported link = if comment || not supported then [] else profile_of link

profiles-add_line :
    (comment supported : Bool) (link : ShareLinkParseResult) (r : SubscriptionParseResult)
    → (add_line comment supported link r).profiles
      ≡ r.profiles ++ kept_profile comment supported link
unfolding add_line add_link skip_line
profiles-add_line true supported link r = sym (append-nil r.profiles)
profiles-add_line false false link r = sym (append-nil r.profiles)
profiles-add_line false true (parsed profile) r = refl
profiles-add_line false true (refused text) r = sym (append-nil r.profiles)

count-add_line :
    (comment supported : Bool) (link : ShareLinkParseResult) (r : SubscriptionParseResult)
    → (add_line comment supported link r).skipped_lines
        + length (kept_profile comment supported link)
      ≡ (if comment then r.skipped_lines else suc r.skipped_lines)
unfolding add_line add_link skip_line
count-add_line true supported link r = omega arith
count-add_line false false link r = omega arith
count-add_line false true (parsed profile) r = omega arith
count-add_line false true (refused text) r = omega arith

plain_step :
    (comment supported rest : Bool) (count : ℕ)
    → ((not comment && supported) || rest) ≡ true
    → (rest ≡ true → (count == 0) ≡ false)
    → ((if comment then count else suc count) == 0) ≡ false
plain_step true supported rest count h k = k h
plain_step false supported rest count h k = ground arith

zero_add : (n : ℕ) → 0 + n ≡ n
zero_add n = omega arith

-- A body that looks plain has a line that is neither blank nor a comment.
plain-candidates :
    (lines : List Text)
    → looks_like_plain_share_links lines ≡ true
    → (count_candidates lines == 0) ≡ false
unfolding looks_like_plain_share_links count_candidates any
plain-candidates [] h = cc
plain-candidates (line ∷ lines) h =
    plain_step (is_comment (trimmed line)) (is_supported_scheme (trimmed line))
      (looks_like_plain_share_links lines) (count_candidates lines) h (plain-candidates lines)

abbrev start : SubscriptionParseResult
start = record empty_result { success = true }

profiles-conclude : (r : SubscriptionParseResult) → (conclude r).profiles ≡ r.profiles
unfolding conclude
profiles-conclude r = ground arith

skipped-conclude : (r : SubscriptionParseResult) → (conclude r).skipped_lines ≡ r.skipped_lines
unfolding conclude
skipped-conclude r = ground arith

success-conclude :
    (r : SubscriptionParseResult) (candidates : ℕ)
    → (candidates == 0) ≡ false
    → r.skipped_lines + length r.profiles ≡ candidates
    → (conclude r).success ≡ true
    → is_empty (conclude r).profiles ≡ false
unfolding conclude
success-conclude r candidates k e h = ground arith

module _ (parse_link : Text → ShareLinkParseResult) where
  -- The profile of a line, if it is a supported link that is ok.
  unfoldable pub line_profile : Text → List Profile
  unfolding is_comment is_supported_scheme trimmed
  line_profile line =
      kept_profile (is_comment (trimmed line)) (is_supported_scheme (trimmed line))
        (parse_link (trimmed line))

  unfoldable pub profiles_of : List Text → List Profile
  unfolding line_profile
  profiles_of [] = []
  profiles_of (line ∷ lines) = line_profile line ++ profiles_of lines

  profiles-parse_line :
      (r : SubscriptionParseResult) (line : Text)
      → (parse_line parse_link r line).profiles ≡ r.profiles ++ line_profile line
  unfolding parse_line line_profile
  profiles-parse_line r line =
      profiles-add_line (is_comment (trimmed line)) (is_supported_scheme (trimmed line))
        (parse_link (trimmed line)) r

  count-parse_line :
      (r : SubscriptionParseResult) (line : Text)
      → (parse_line parse_link r line).skipped_lines + length (line_profile line)
        ≡ (if is_comment (trimmed line) then r.skipped_lines else suc r.skipped_lines)
  unfolding parse_line line_profile
  count-parse_line r line =
      count-add_line (is_comment (trimmed line)) (is_supported_scheme (trimmed line))
        (parse_link (trimmed line)) r

  profiles-parse_each :
      (r : SubscriptionParseResult) (lines : List Text)
      → (parse_each parse_link r lines).profiles ≡ r.profiles ++ profiles_of lines
  unfolding parse_each profiles_of
  profiles-parse_each r [] = sym (append-nil r.profiles)
  profiles-parse_each r (line ∷ lines) =
      profiles-parse_each (parse_line parse_link r line) lines
      ∙ ap (λ ps. ps ++ profiles_of lines) (profiles-parse_line r line)
      ∙ append_assoc r.profiles (line_profile line) (profiles_of lines)

  count-parse_each :
      (r : SubscriptionParseResult) (lines : List Text)
      → (parse_each parse_link r lines).skipped_lines + length (profiles_of lines)
        ≡ r.skipped_lines + count_candidates lines
  unfolding parse_each profiles_of count_candidates
  count-parse_each r [] = omega arith
  count-parse_each r (line ∷ lines) = ground (
    arith,
    count-parse_each (parse_line parse_link r line) lines,
    count-parse_line r line,
    length-append (line_profile line) (profiles_of lines),
  )

  -- The lines of a body give the profiles of its supported links that are ok, in their order, and
  -- each other line that is neither blank nor a comment is counted as skipped.
  pub parse_lines_lem :
      (lines : List Text)
      → ((parse_lines parse_link lines).profiles ≡ profiles_of lines)
        × ((parse_lines parse_link lines).skipped_lines + length (profiles_of lines)
            ≡ count_candidates lines)
  unfolding parse_lines
  parse_lines_lem lines = (
    profiles-conclude (parse_each parse_link start lines) ∙ profiles-parse_each start lines,
    ap (λ n. n + length (profiles_of lines)) (skipped-conclude (parse_each parse_link start lines))
        ∙ count-parse_each start lines
        ∙ zero_add (count_candidates lines),
  )

  -- What looks plain and is parsed with success has a profile.
  plain_success :
      (lines : List Text)
      → looks_like_plain_share_links lines ≡ true
      → (parse_lines parse_link lines).success ≡ true
      → is_empty (parse_lines parse_link lines).profiles ≡ false
  unfolding parse_lines
  plain_success lines h s =
      success-conclude (parse_each parse_link start lines) (count_candidates lines)
        (plain-candidates lines h)
        (ap (λ ps. (parse_each parse_link start lines).skipped_lines + length ps)
            (profiles-parse_each start lines)
          ∙ count-parse_each start lines
          ∙ zero_add (count_candidates lines))
        s

  -- A body that is parsed with success has at least one profile.
  pub parse-succeeds :
      (from_base64 : Text → Text) (content : Text)
      → (parse parse_link from_base64 content).success ≡ true
      → is_empty (parse parse_link from_base64 content).profiles ≡ false
  unfolding parse
  parse-succeeds from_base64 content h = ground (
    arith,
    h,
    plain_success (split_lines content),
    plain_success (split_lines (from_base64 (normalized content))),
  )
