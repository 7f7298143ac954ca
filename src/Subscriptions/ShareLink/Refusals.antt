-- ===== src/Subscriptions/ShareLink/Refusals.antt =====
-- src/subscription/ShareLinkParser.cpp: the links that are refused for their scheme.
use zarya.Prelude.{
  ◌≡◌, true, false, ◌⊎◌, inl, inr, [], ◌∷◌, Text, codes, trimmed, case_fold, starts_with, any,
  is_empty, if◌then◌else◌, arith,
}
use zarya.Subscriptions.Parser.{refused, has_scheme, schemes, is_supported_scheme}
use zarya.Subscriptions.ShareLink.{Qt}
use zarya.Subscriptions.ShareLink.Dispatch.{parse_trimmed, parse}

abbrev scheme_error : Text → Text
scheme_error link =
    if is_empty link then codes "Empty link." else codes "Unsupported share link scheme."

-- Of two schemes that differ in a character, a text starts with one at most.
clash :
    (s : Text)
    → starts_with s (codes "socks://") ≡ true
    → (starts_with s (codes "vless://") ≡ false)
      × (starts_with s (codes "vmess://") ≡ false)
      × (starts_with s (codes "trojan://") ≡ false)
      × (starts_with s (codes "ss://") ≡ false)
      × (starts_with s (codes "hysteria2://") ≡ false)
      × (starts_with s (codes "hy2://") ≡ false)
      × (starts_with s (codes "wireguard://") ≡ false)
      × (starts_with s (codes "wg://") ≡ false)
unfolding starts_with
clash [] h = ground arith
clash (c ∷ []) h = ground arith
clash (c ∷ d ∷ s) h = ground arith

socks_only :
    (link : Text)
    → has_scheme link (codes "socks://") ≡ true
    → (has_scheme link (codes "vless://") ≡ false)
      × (has_scheme link (codes "vmess://") ≡ false)
      × (has_scheme link (codes "trojan://") ≡ false)
      × (has_scheme link (codes "ss://") ≡ false)
      × (has_scheme link (codes "hysteria2://") ≡ false)
      × (has_scheme link (codes "hy2://") ≡ false)
      × (has_scheme link (codes "wireguard://") ≡ false)
      × (has_scheme link (codes "wg://") ≡ false)
unfolding has_scheme case_fold
socks_only link h = clash (case_fold link) h

module _ (qt : Qt) where
  parse_trimmed-unsupported :
      (link : Text)
      → any (has_scheme link) schemes ≡ false
      → parse_trimmed qt link ≡ refused (scheme_error link)
  unfolding parse_trimmed any schemes
  parse_trimmed-unsupported link h = ground arith

  parse_trimmed-socks :
      (link : Text)
      → has_scheme link (codes "socks://") ≡ true
      → parse_trimmed qt link ≡ refused (scheme_error link)
  unfolding parse_trimmed
  parse_trimmed-socks link h = ground (arith, socks_only link)

  -- A link whose scheme is not supported is refused, as empty or for its scheme; so is every link
  -- with the scheme `socks://`, which isSupportedScheme counts among the supported ones.
  pub parse-refuses :
      (link : Text)
      → (is_supported_scheme link ≡ false) ⊎ (has_scheme (trimmed link) (codes "socks://") ≡ true)
      → parse qt link ≡ refused (scheme_error (trimmed link))
  unfolding parse is_supported_scheme
  parse-refuses link (inl h) = parse_trimmed-unsupported (trimmed link) h
  parse-refuses link (inr h) = parse_trimmed-socks (trimmed link) h
