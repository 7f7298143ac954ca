-- ===== src/KillSwitch/LinuxNft.antt =====
-- src/killswitch/linux/LinuxNftKillSwitchManager.cpp: the back end for Linux, over the command nft.
pub mod Safety
use zarya.Prelude.{
  Bool, true, false, not, ◌&&◌, ◌||◌, List, [], ◌∷◌, ◌++◌, Option, none, some, Text, codes, trimmed,
  to_lower, contains_text, is_empty, join_commas, number, arg, if◌then◌else◌,
}
use zarya.KillSwitch.Manager.{
  disabled, unsupported, KillSwitchState, initial_state, KillSwitchRuleSet, Backend,
}

-- How a run of nft ends: with an exit, of which it is known whether its code is 0, and the texts on
-- the standard output and the standard error, or not within 15 seconds.
pub data NftRun : Type 0 where
  exited : Bool → Text → Text → NftRun
  timed_out : NftRun

-- The command nft and the file system: whether nft is found, why the rules file cannot be written
-- (`none` where it can), and what loading the text of a rules file and deleting the table `inet
-- zarya` do, from whether the table is there to whether it is there afterwards.
pub record Nft : Type 0 where
  pub is_found : Bool
  pub file_error : Option Text
  pub load : Text → Bool → Bool × NftRun
  pub delete : Bool → Bool × NftRun

-- The lines under an `if` of buildRulesFile.
unfoldable pub lines_if : Bool → Text → Text
lines_if true text = text
lines_if false text = []

abbrev pub line : Text → Text
line text = text ++ 10 ∷ []

unfoldable pub proxy_line : KillSwitchRuleSet → Text → List Text → Text
proxy_line rules family ips =
    let text =
      arg
        (arg (codes "    " ++ family ++ codes " daddr { %1 } tcp dport %2 accept")
          (join_commas ips ∷ []))
        (number rules.proxy_server_port ∷ []) in
    if is_empty (join_commas ips) then [] else line text

unfoldable pub build_rules : KillSwitchRuleSet → Text
build_rules rules =
    line (codes "table inet zarya {")
    ++ line (codes "  chain output {")
    ++ line (line (codes "    type filter hook output priority 0; policy accept;"))
    ++ lines_if rules.allow_loopback (
        line (codes "    oifname \"lo\" accept")
        ++ line (codes "    ip daddr 127.0.0.0/8 accept")
        ++ line (line (codes "    ip6 daddr ::1 accept")))
    ++ lines_if rules.allow_lan (
        line (codes "    ip daddr { 10.0.0.0/8, 172.16.0.0/12, 192.168.0.0/16 } accept")
        ++ line (line (codes "    ip6 daddr { fc00::/7, fe80::/10 } accept")))
    ++ line (line (arg (codes "    oifname \"%1\" accept") (rules.tun_interface_name ∷ [])))
    ++ proxy_line rules (codes "ip") rules.proxy_server_ipv4
    ++ proxy_line rules (codes "ip6") rules.proxy_server_ipv6
    ++ lines_if
        (not (is_empty (join_commas rules.proxy_server_ipv4))
          || not (is_empty (join_commas rules.proxy_server_ipv6)))
        (line [])
    ++ lines_if rules.block_direct_dns
        (line (codes "    udp dport 53 reject") ++ line (line (codes "    tcp dport 53 reject")))
    ++ line (codes "    reject")
    ++ line (codes "  }")
    ++ line (codes "}")

-- runNft: none, or the text of *errorMessage.
unfoldable pub run_nft : NftRun → Option Text
run_nft timed_out = some (codes "nft command timed out.")
run_nft (exited true output error) = none
run_nft (exited false output error) =
    if is_empty (trimmed error) then some (trimmed output) else some (trimmed error)

-- The failures of `nft delete table` that disable takes for success.
unfoldable pub says_absent : Text → Bool
says_absent text =
    contains_text (to_lower text) (codes "no such file")
    || contains_text (to_lower text) (codes "does not exist")

unfoldable pub unless_absent : Option Text → Option Text
unless_absent none = none
unless_absent (some text) = if says_absent text then none else some text

module _ (nft : Nft) where
  unfoldable pub check_support : Bool → KillSwitchState
  check_support privileged =
      let state = record initial_state { backend = codes "linux-nft"; privileged = privileged } in
      if not nft.is_found
      then record state {
        status = unsupported;
        last_error = codes "nft command not found in PATH.";
      }
      else if not privileged
      then record state {
        status = unsupported;
        last_error = codes "Linux nftables kill switch requires root privileges (sudo helper).";
      }
      else record state { status = disabled; supported = true }

  unfoldable pub load_rules : KillSwitchRuleSet → Bool → Option Text → Bool × Option Text
  load_rules rules on (some text) = (on, some text)
  load_rules rules on none =
      let loaded = nft.load (build_rules rules) on in (loaded.0, run_nft loaded.1)

  unfoldable pub enable_nft : KillSwitchRuleSet → Bool → Bool × Option Text
  enable_nft rules on =
      if is_empty rules.proxy_server_ipv4 && is_empty rules.proxy_server_ipv6
      then (on, some (codes "No proxy server IP addresses provided for kill switch."))
      else load_rules rules on nft.file_error

  unfoldable pub disable_nft : Bool → Bool × Option Text
  disable_nft on = let deleted = nft.delete on in (deleted.0, unless_absent (run_nft deleted.1))

  abbrev pub linux_nft : Backend
  linux_nft = record {
    backend_id = codes "linux-nft";
    check_support = check_support;
    enable = enable_nft;
    disable = disable_nft;
    augment_marker = λ marker. marker;
    active_rule_descriptions = [];
  }
