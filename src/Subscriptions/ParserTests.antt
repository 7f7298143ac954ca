-- ===== src/Subscriptions/ParserTests.antt =====
-- Runs of the subscription parser on small bodies.
use zarya.Prelude.{
  ◌+◌, ◌≡◌, refl, true, false, [], ◌∷◌, length, Text, codes, trimmed, case_fold, starts_with,
  is_empty, any,
}
use zarya.Profiles.Profile.{blank}
use zarya.Subscriptions.Parser.{
  ShareLinkParseResult, parsed, is_line_break, split_lines, has_scheme, schemes,
  is_supported_scheme, is_comment, looks_like_plain_share_links, parse_line, parse_each, add_line,
  add_link, skip_line, conclude, parse_lines, parse,
}
use zarya.Subscriptions.Parser.Lines.{
  count_candidates, profiles_of, parse_lines_lem, parse-succeeds,
}

-- A parser of links that takes each for the name of a profile.
abbrev named : Text → ShareLinkParseResult
named link = parsed (record blank { name = link })

abbrev body : Text
body = codes "# mine\nvless://a\r\n\nftp://b\n ss://c"

body_lines :
    split_lines body ≡ codes "# mine" ∷ codes "vless://a" ∷ codes "ftp://b" ∷ codes " ss://c" ∷ []
unfolding split_lines is_line_break
body_lines = refl

parse_lines_lem_example :
    ((parse_lines named (split_lines body)).profiles ≡ profiles_of named (split_lines body))
    × ((parse_lines named (split_lines body)).skipped_lines
          + length (profiles_of named (split_lines body))
        ≡ count_candidates (split_lines body))
parse_lines_lem_example = parse_lines_lem named (split_lines body)

body_parsed : (parse named (λ text. []) body).success ≡ true
unfolding parse split_lines is_line_break looks_like_plain_share_links is_comment
    is_supported_scheme schemes has_scheme case_fold starts_with trimmed any parse_lines conclude
    parse_each parse_line add_line add_link skip_line
body_parsed = refl

parse-succeeds_example : is_empty (parse named (λ text. []) body).profiles ≡ false
parse-succeeds_example = parse-succeeds named (λ text. []) body body_parsed
