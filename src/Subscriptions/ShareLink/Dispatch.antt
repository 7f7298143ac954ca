-- ===== src/Subscriptions/ShareLink/Dispatch.antt =====
-- ShareLinkParser::parse of src/subscription/ShareLinkParser.cpp.
use zarya.Prelude.{◌||◌, Text, codes, trimmed, is_empty, if◌then◌else◌}
use zarya.Subscriptions.Parser.{ShareLinkParseResult, refused, has_scheme}
use zarya.Subscriptions.ShareLink.{Qt}
use zarya.Subscriptions.ShareLink.Links.{
  parse_vless, parse_trojan, parse_hysteria2, parse_wire_guard,
}
use zarya.Subscriptions.ShareLink.Vmess.{parse_vmess}
use zarya.Subscriptions.ShareLink.Shadowsocks.{parse_shadowsocks}

module _ (qt : Qt) where
  unfoldable pub parse_trimmed : Text → ShareLinkParseResult
  unfolding has_scheme parse_vless parse_vmess parse_trojan parse_shadowsocks parse_hysteria2
      parse_wire_guard
  parse_trimmed link =
      if is_empty link
      then refused (codes "Empty link.")
      else if has_scheme link (codes "vless://")
      then parse_vless qt link
      else if has_scheme link (codes "vmess://")
      then parse_vmess qt link
      else if has_scheme link (codes "trojan://")
      then parse_trojan qt link
      else if has_scheme link (codes "ss://")
      then parse_shadowsocks qt link
      else if has_scheme link (codes "hysteria2://") || has_scheme link (codes "hy2://")
      then parse_hysteria2 qt link
      else if has_scheme link (codes "wireguard://") || has_scheme link (codes "wg://")
      then parse_wire_guard qt link
      else refused (codes "Unsupported share link scheme.")

  unfoldable pub parse : Text → ShareLinkParseResult
  unfolding parse_trimmed trimmed
  parse link = parse_trimmed (trimmed link)
