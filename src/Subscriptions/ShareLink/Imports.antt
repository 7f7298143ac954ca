-- ===== src/Subscriptions/ShareLink/Imports.antt =====
-- src/subscription: SubscriptionParser::parse over ShareLinkParser::parse, as the program runs them.
use mathlib.Core.List.{Memᴰ}
use zarya.Prelude.{
  ◌≡◌, refl, sym, subst, Bool, true, false, List, [], ◌∷◌, All, All-append, Text, trimmed, is_empty,
  if◌then◌else◌,
}
use zarya.Profiles.Profile.{Profile}
use zarya.Subscriptions.Parser.{
  SubscriptionParseResult, ShareLinkParseResult, parsed, refused, is_comment, is_supported_scheme,
  parse_lines, empty_body, not_decoded, not_recognized, looks_like_plain_share_links, split_lines,
  normalized, empty_result,
}
use zarya.Subscriptions.Parser.Lines.{kept_profile, line_profile, profiles_of, parse_lines_lem}
use zarya.Subscriptions.ShareLink.{Qt}
use zarya.Subscriptions.ShareLink.Dispatch.{parse}
use zarya.Subscriptions.ShareLink.Endpoint.{IsImported, parse-IsImported}
use zarya.Subscriptions.Parser

-- The parser of links, with the Qt of the moment at which a link is read: each call draws a new
-- identifier.
abbrev pub parse_link : (Text → Qt) → Text → ShareLinkParseResult
parse_link qt link = parse (qt link) link

-- The texts whose lines are read: the body, or where it does not look like links, what it decodes to.
unfoldable pub text_read : (Text → Text) → Text → Text
text_read from_base64 content =
    if looks_like_plain_share_links (split_lines content)
    then content
    else from_base64 (normalized content)

-- A profile that the parser of links gives for one of the lines, with what it then has.
abbrev pub IsFromLine : (Text → Qt) → List Text → Profile → Type 0
IsFromLine qt lines p =
    (line : Text) × Memᴰ line lines
    × (is_supported_scheme (trimmed line) ≡ true)
    × (parse_link qt (trimmed line) ≡ parsed p)
    × IsImported (qt (trimmed line)) (trimmed line) p

module _ (qt : Text → Qt) where
  abbrev FromLines : List Text → List Profile → Type 0
  FromLines lines = All (IsFromLine qt lines)

  kept_profile-IsFromLine :
      (comment : Bool) (line : Text) (lines : List Text) (supported : Bool)
      (result : ShareLinkParseResult)
      → Memᴰ line lines
      → is_supported_scheme (trimmed line) ≡ supported
      → parse_link qt (trimmed line) ≡ result
      → FromLines lines (kept_profile comment supported result)
  kept_profile-IsFromLine true line lines supported result m h e = tt
  kept_profile-IsFromLine false line lines false result m h e = tt
  kept_profile-IsFromLine false line lines true (refused text) m h e = tt
  kept_profile-IsFromLine false line lines true (parsed p) m h e =
      ((line, m, h, e, parse-IsImported (qt (trimmed line)) (trimmed line) p e), tt)

  profiles_of-FromLines :
      (lines all : List Text)
      → ((line : Text) → Memᴰ line lines → Memᴰ line all)
      → FromLines all (profiles_of (parse_link qt) lines)
  unfolding profiles_of line_profile
  profiles_of-FromLines [] all sub = tt
  profiles_of-FromLines (line ∷ lines) all sub =
      All-append (IsFromLine qt all) (line_profile (parse_link qt) line)
        (profiles_of (parse_link qt) lines)
        (kept_profile-IsFromLine (is_comment (trimmed line)) line all
          (is_supported_scheme (trimmed line)) (parse_link qt (trimmed line))
          (sub line (Memᴰ.head refl)) refl refl)
        (profiles_of-FromLines lines all (λ l m. sub l (Memᴰ.tail m)))

  parse_lines-FromLines :
      (lines : List Text) → FromLines lines (parse_lines (parse_link qt) lines).profiles
  parse_lines-FromLines lines =
      subst (FromLines lines) (sym (parse_lines_lem (parse_link qt) lines).0)
        (profiles_of-FromLines lines lines (λ l m. m))

  -- The branches of SubscriptionParser::parse.
  by_branch :
      (empty plain undecoded links : Bool) (content decoded : Text)
      → FromLines
          (split_lines (if plain then content else decoded))
          (if empty
            then Parser.failed empty_body
            else if plain
            then parse_lines (parse_link qt) (split_lines content)
            else if undecoded
            then Parser.failed not_decoded
            else if links
            then parse_lines (parse_link qt) (split_lines decoded)
            else Parser.failed not_recognized).profiles
  by_branch true plain undecoded links content decoded = tt
  by_branch false true undecoded links content decoded = parse_lines-FromLines (split_lines content)
  by_branch false false true links content decoded = tt
  by_branch false false false true content decoded = parse_lines-FromLines (split_lines decoded)
  by_branch false false false false content decoded = tt

  -- Every profile that a downloaded body gives is the one that the parser of links gives for a line
  -- of the body, or of what it decodes to where no line of the body itself looks like a link; that
  -- line has a supported scheme, and the profile has the protocol of the scheme, an address, and the
  -- port and the credentials that ShareLinkParser::parse demands of the protocol.
  pub parse-IsFromLine :
      (from_base64 : Text → Text) (content : Text)
      → All
          (IsFromLine qt (split_lines (text_read from_base64 content)))
          (Parser.parse (parse_link qt) from_base64 content).profiles
  unfolding Parser.parse text_read
  parse-IsFromLine from_base64 content =
      let decoded = from_base64 (normalized content) in
      by_branch (is_empty content) (looks_like_plain_share_links (split_lines content))
        (is_empty decoded) (looks_like_plain_share_links (split_lines decoded)) content decoded
