-- ===== src/XdpFirewall/Tests.antt =====
-- The firewall's theorems at a concrete block list and packet.
use rust_samples.Prelude.{
  ℕ, ◌≡◌, refl, List, [], ◌∷◌, ◌++◌, none, some, arith, replicate, list_eq, if◌then◌else◌,
}
use rust_samples.Prelude.Text.{codes, lines, trim}
use rust_samples.Xdp.{XdpAbi, XdpContext, ok}
use rust_samples.XdpRouter.Wire.{ipv4}
use rust_samples.XdpFirewall.{ipv4_key, xdp_firewall}
use rust_samples.XdpFirewall.Trie.{list_trie, any_covers}
use rust_samples.XdpFirewall.Blocklist.{IpNet, NetLib, read_lines, reload, reloads}
use rust_samples.XdpFirewall.Filtering.{SourcePacket, source_wire, xdp_firewall-verdict}
use rust_samples.XdpFirewall.EndToEnd.{reload_blocks, blocked_for_good}

abbrev linux_abi : XdpAbi
linux_abi = record {
  xdp_pass = 2;
  xdp_drop = 1;
  redirect = λ if_index flags. 4;
  pass-ne-drop = λ e. omega arith;
}

abbrev tens : IpNet
tens = record { family = ipv4; addr = 10 ∷ 0 ∷ 0 ∷ 0 ∷ []; prefix_len = 24 }

-- Parsers that know one network and one address.
abbrev two_entries : NetLib
two_entries = record {
  net_from_str = λ s. if list_eq s (codes "10.0.0.0/24") then some tens else none;
  ip_from_str =
      λ s. if list_eq s (codes "10.0.1.7") then some (ipv4, 10 ∷ 0 ∷ 1 ∷ 7 ∷ []) else none;
  network = λ net. net.addr;
  network-prefix = λ net. refl;
  length-network = λ net. refl;
}

abbrev block_file : List ℕ
block_file =
    codes "# IPv4"
    ++ 13 ∷ 10 ∷ codes " 10.0.0.0/24"
    ++ 10 ∷ codes "nonsense"
    ++ 10 ∷ codes "10.0.1.7"

block_file_lem :
    read_lines two_entries (lines block_file) []
    ≡ record { family = ipv4; addr = 10 ∷ 0 ∷ 1 ∷ 7 ∷ []; prefix_len = 32 } ∷ tens ∷ []
unfolding read_lines lines trim
block_file_lem = refl

abbrev tcp_from : List ℕ → SourcePacket
tcp_from source = record {
  family = ipv4;
  macs = replicate 12 1;
  head = replicate 9 0;
  protocol_field = 6;
  gap = 0 ∷ 0 ∷ [];
  source = source;
  rest = 8 ∷ 8 ∷ 8 ∷ 8 ∷ [];
}

abbrev context : SourcePacket → XdpContext
context p = record { data_start = 64; frame = source_wire p }

abbrev insider : SourcePacket
insider = tcp_from (10 ∷ 0 ∷ 0 ∷ 77 ∷ [])

xdp_firewall-verdict_example : xdp_firewall linux_abi (any_covers []) (context insider) ≡ ok 2
unfolding ipv4_key
xdp_firewall-verdict_example =
    xdp_firewall-verdict linux_abi (any_covers []) (context insider) insider
      (refl, (refl, refl, refl, omega arith)) refl

reload_blocks_example :
    xdp_firewall linux_abi
      (any_covers (reload two_entries list_trie (some block_file) []))
      (context insider)
    ≡ ok 1
unfolding read_lines lines trim ipv4_key
reload_blocks_example =
    reload_blocks two_entries list_trie linux_abi block_file []
      (
        record { size = refl; prefix = omega arith },
        (record { size = refl; prefix = omega arith }, tt),
      )
      ((_, refl), ((_, refl), tt)) (context insider) insider (refl, (refl, refl, refl, omega arith))
      refl

-- A file that names no network any more does not unblock.
blocked_for_good_example :
    xdp_firewall linux_abi
      (any_covers (reloads two_entries list_trie (some block_file ∷ none ∷ some [] ∷ []) []))
      (context insider)
    ≡ ok 1
unfolding read_lines lines trim ipv4_key
blocked_for_good_example =
    blocked_for_good two_entries list_trie linux_abi block_file (none ∷ some [] ∷ []) []
      (
        record { size = refl; prefix = omega arith },
        (record { size = refl; prefix = omega arith }, tt),
      )
      ((_, refl), ((_, refl), tt)) (context insider) insider (refl, (refl, refl, refl, omega arith))
      refl refl refl
