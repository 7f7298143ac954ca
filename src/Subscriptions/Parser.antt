-- ===== src/Subscriptions/Parser.antt =====
-- src/subscription/SubscriptionParser.cpp: the profiles of a downloaded body. Bodies are the texts
-- that QString::fromUtf8 makes of them; QByteArray::fromBase64 and ShareLinkParser::parse are
-- parameters.
pub mod Lines
use zarya.Prelude.{
  ℕ, zero, suc, ◌-◌, ◌%◌, Bool, true, false, not, ◌&&◌, ◌||◌, List, [], ◌∷◌, ◌++◌, length, select,
  any, Option, none, some, Text, codes, trimmed, case_fold, starts_with, is_empty, ◌==◌, leb,
  if◌then◌else◌,
}
use zarya.Profiles.Profile.{Profile}

-- ShareLinkParseResult: a profile, or the error of a link that is not ok.
pub data ShareLinkParseResult : Type 0 where
  parsed : Profile → ShareLinkParseResult
  refused : Text → ShareLinkParseResult

pub data Warning : Type 0 where
  unsupported_line : Warning
  link_error : Text → Warning

pub data ParseError : Type 0 where
  empty_body not_decoded not_recognized no_supported_links : ParseError

pub record SubscriptionParseResult : Type 0 where
  pub profiles : List Profile
  pub warnings : List Warning
  pub skipped_lines : ℕ
  pub success : Bool
  pub error : Option ParseError

unfoldable pub is_line_break : ℕ → Bool
is_line_break c = c == 0xa || c == 0xd

split_from : Text → Text → List Text
unfolding is_line_break
split_from cur [] = if is_empty cur then [] else cur ∷ []
split_from cur (c ∷ text) =
    let closed = split_from [] text in
    let longer = split_from (cur ++ c ∷ []) text in
    if is_line_break c then (if is_empty cur then closed else cur ∷ closed) else longer

-- text.split([\r\n]+, Qt::SkipEmptyParts).
unfoldable pub split_lines : Text → List Text
unfolding split_from
split_lines text = split_from [] text

-- startsWith with Qt::CaseInsensitive.
unfoldable pub has_scheme : Text → Text → Bool
unfolding case_fold starts_with
has_scheme link scheme = starts_with (case_fold link) (case_fold scheme)

unfoldable pub schemes : List Text
schemes =
    codes "vless://"
    ∷ codes "vmess://"
    ∷ codes "trojan://"
    ∷ codes "ss://"
    ∷ codes "socks://"
    ∷ codes "hysteria2://"
    ∷ codes "hy2://"
    ∷ codes "wireguard://"
    ∷ codes "wg://"
    ∷ []

-- ShareLinkParser::isSupportedScheme.
unfoldable pub is_supported_scheme : Text → Bool
unfolding any has_scheme schemes trimmed
is_supported_scheme link = any (has_scheme (trimmed link)) schemes

-- The lines that are passed over without a count: blank ones and comments.
unfoldable pub is_comment : Text → Bool
unfolding starts_with
is_comment line = is_empty line || starts_with line (codes "#")

unfoldable pub looks_like_plain_share_links : List Text → Bool
unfolding trimmed is_comment is_supported_scheme any
looks_like_plain_share_links lines =
    any (λ line. not (is_comment (trimmed line)) && is_supported_scheme (trimmed line)) lines

-- \s of a QRegularExpression without UseUnicodeProperties.
unfoldable pub is_blank : ℕ → Bool
is_blank c = (leb 9 c && leb c 13) || c == 32

equals_signs : ℕ → Text
equals_signs zero = []
equals_signs (suc n) = b'=' ∷ equals_signs n

-- Filled up with `=` to a multiple of four.
unfoldable pub padded : Text → Text
unfolding equals_signs
padded text =
    let remainder = length text % 4 in
    if remainder == 0 then text else text ++ equals_signs (4 - remainder)

-- The text that is decoded: no blanks, and padded.
unfoldable pub normalized : Text → Text
unfolding trimmed select is_blank padded
normalized content = padded (select (λ c. not (is_blank c)) (trimmed content))

unfoldable pub skip_line : Warning → SubscriptionParseResult → SubscriptionParseResult
skip_line warning r = record r {
  skipped_lines = suc r.skipped_lines;
  warnings = r.warnings ++ warning ∷ [];
}

unfoldable pub add_link : SubscriptionParseResult → ShareLinkParseResult → SubscriptionParseResult
unfolding skip_line
add_link r (parsed profile) = record r { profiles = r.profiles ++ profile ∷ [] }
add_link r (refused text) = skip_line (link_error text) r

abbrev pub empty_result : SubscriptionParseResult
empty_result = record {
  profiles = [];
  warnings = [];
  skipped_lines = 0;
  success = false;
  error = none;
}

abbrev pub failed : ParseError → SubscriptionParseResult
failed text = record empty_result { error = some text }

-- One round of the loop of parseLines, from whether the line is a comment and has a scheme.
unfoldable pub add_line :
    Bool → Bool → ShareLinkParseResult → SubscriptionParseResult → SubscriptionParseResult
unfolding skip_line add_link
add_line comment supported link r =
    if comment then r else if not supported then skip_line unsupported_line r else add_link r link

-- The end of parseLines.
unfoldable pub conclude : SubscriptionParseResult → SubscriptionParseResult
conclude r =
    if is_empty r.profiles && not (r.skipped_lines == 0)
    then record r { success = false; error = some no_supported_links }
    else r

module _ (parse_link : Text → ShareLinkParseResult) where
  unfoldable pub parse_line : SubscriptionParseResult → Text → SubscriptionParseResult
  unfolding trimmed is_comment is_supported_scheme add_line
  parse_line r raw_line =
      let line = trimmed raw_line in
      add_line (is_comment line) (is_supported_scheme line) (parse_link line) r

  unfoldable pub parse_each : SubscriptionParseResult → List Text → SubscriptionParseResult
  unfolding parse_line
  parse_each r [] = r
  parse_each r (line ∷ lines) = parse_each (parse_line r line) lines

  unfoldable pub parse_lines : List Text → SubscriptionParseResult
  unfolding parse_each conclude
  parse_lines lines = conclude (parse_each (record empty_result { success = true }) lines)

  unfoldable pub parse : (Text → Text) → Text → SubscriptionParseResult
  unfolding split_lines looks_like_plain_share_links normalized parse_lines
  parse from_base64 content =
      let decoded = from_base64 (normalized content) in
      if is_empty content
      then failed empty_body
      else if looks_like_plain_share_links (split_lines content)
      then parse_lines (split_lines content)
      else if is_empty decoded
      then failed not_decoded
      else if looks_like_plain_share_links (split_lines decoded)
      then parse_lines (split_lines decoded)
      else failed not_recognized
