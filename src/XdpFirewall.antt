-- ===== src/XdpFirewall.antt =====
-- xdp_firewall/xdp_firewall_ebpf/src/main.rs: the XDP program. The map BLOCKED_IPS is an argument.
pub mod Trie
pub mod Blocklist
pub mod Filtering
pub mod EndToEnd
mod Tests
use rust_samples.Prelude.{
  ℕ, ◌+◌, ◌≡◌, List, [], ◌∷◌, ◌++◌, Bool, true, false, replicate, ◌==◌, if◌then◌else◌,
}
use rust_samples.Xdp.{
  XdpAbi, XdpContext, Access, ok, err, fault, ◌>>=◌, ptr_at, load, load_u16, from_be,
}

pub record IpKey : Type 0 where
  pub prefixlen : ℕ
  pub ip_type : ℕ
  pub addr : List ℕ

-- `size_of` of the kernel's ethhdr, iphdr and ipv6hdr, and the offsets of their fields.
abbrev pub ethhdr_size : ℕ
ethhdr_size = 14

abbrev pub h_proto : ℕ
h_proto = 12

abbrev pub iphdr_size : ℕ
iphdr_size = 20

abbrev pub ip_protocol : ℕ
ip_protocol = 9

abbrev pub ip_saddr : ℕ
ip_saddr = 12

abbrev pub ipv6hdr_size : ℕ
ipv6hdr_size = 40

abbrev pub ip6_nexthdr : ℕ
ip6_nexthdr = 6

abbrev pub ip6_saddr : ℕ
ip6_saddr = 8

abbrev pub head_byte : List ℕ → ℕ
head_byte [] = 0
head_byte (b ∷ bs) = b

-- The keys that the program looks up for a source address.
unfoldable pub ipv4_key : List ℕ → IpKey
ipv4_key src = record { prefixlen = 40; ip_type = 4; addr = src ++ replicate 12 0 }

unfoldable pub ipv6_key : List ℕ → IpKey
ipv6_key src = record { prefixlen = 136; ip_type = 6; addr = src }

module _ (abi : XdpAbi) (blocked : IpKey → Bool) where
  abbrev pub drop_if : Bool → ℕ
  drop_if hit = if hit then abi.xdp_drop else abi.xdp_pass

  -- The branch of IPv4: only TCP (6) is filtered.
  unfoldable pub filter_ipv4 : XdpContext → Access ℕ
  unfolding ipv4_key
  filter_ipv4 ctx = do
    ip ← ptr_at ctx ethhdr_size iphdr_size
    protocol ← load ctx (ip + ip_protocol) 1
    if head_byte protocol == 6
        then (do src_ip ← load ctx (ip + ip_saddr) 4; ok (drop_if (blocked (ipv4_key src_ip))))
        else ok abi.xdp_pass

  unfoldable pub filter_ipv6 : XdpContext → Access ℕ
  unfolding ipv6_key
  filter_ipv6 ctx = do
    ip6 ← ptr_at ctx ethhdr_size ipv6hdr_size
    nexthdr ← load ctx (ip6 + ip6_nexthdr) 1
    if head_byte nexthdr == 6
        then (do src_ip6 ← load ctx (ip6 + ip6_saddr) 16; ok (drop_if (blocked (ipv6_key src_ip6))))
        else ok abi.xdp_pass

  unfoldable pub try_xdp_firewall : XdpContext → Access ℕ
  try_xdp_firewall ctx = do
    eth ← ptr_at ctx 0 ethhdr_size
    proto ← load_u16 ctx (eth + h_proto)
    if proto == from_be 0x0800
        then filter_ipv4 ctx
        else if proto == from_be 0x86DD
        then filter_ipv6 ctx
        else ok abi.xdp_pass

  -- A packet that is too short passes.
  unfoldable pub xdp_firewall : XdpContext → Access ℕ
  xdp_firewall ctx = elim (try_xdp_firewall ctx) [
    | ok action ↦ ok action
    | err ↦ ok abi.xdp_pass
    | fault ↦ fault
  ]
