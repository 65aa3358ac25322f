-- ===== src/XdpRouter/Packet.antt =====
-- xdp_router/xdp_router_ebpf/src/main.rs: the XDP program. ROUTES.get is an argument.
use rust_samples.Prelude.{ℕ, ◌+◌, ◌%◌, Option, none, some, ◌==◌, if◌then◌else◌}
use rust_samples.Xdp.{
  XdpAbi, XdpContext, Access, ok, err, fault, ◌>>=◌, ptr_at, load, load_u16, from_be, store,
}
use rust_samples.XdpRouter.{RouteKey, RouteValue, zeros4, zeros16}

abbrev pub eth_p_ip : ℕ
eth_p_ip = 0x0800

abbrev pub eth_p_ipv6 : ℕ
eth_p_ipv6 = 0x86DD

abbrev pub eth_p_8021q : ℕ
eth_p_8021q = 0x8100

-- `size_of` and the fields' offsets of the repr(C) headers EthHdr and VlanHdr.
abbrev pub eth_hdr_size : ℕ
eth_hdr_size = 14

abbrev pub eth_src_mac : ℕ
eth_src_mac = 6

abbrev pub eth_ether_type : ℕ
eth_ether_type = 12

abbrev pub vlan_hdr_size : ℕ
vlan_hdr_size = 4

abbrev pub vlan_ether_type : ℕ
vlan_ether_type = 2

-- The local variables after the VLAN header.
pub record Layer3 : Type 0 where
  pub ether_type : ℕ
  pub offset : ℕ
  pub vlan_id : ℕ

-- Parsing of 802.1Q; `& 0x0FFF` keeps the lower twelve bits.
unfoldable pub parse_vlan : XdpContext → ℕ → ℕ → Access Layer3
parse_vlan ctx ether_type offset =
    if ether_type == eth_p_8021q
    then (do
      vlan ← ptr_at ctx offset vlan_hdr_size
      tci ← load_u16 ctx vlan
      inner ← load_u16 ctx (vlan + vlan_ether_type)
      ok (record {
        ether_type = from_be inner;
        offset = offset + vlan_hdr_size;
        vlan_id = from_be tci % 0x1000;
      }))
    else ok (record { ether_type = ether_type; offset = offset; vlan_id = 0 })

-- The key of the destination address; `none` where the packet is of neither family.
unfoldable pub destination : XdpContext → Layer3 → Access (Option RouteKey)
destination ctx l3 =
    if l3.ether_type == eth_p_ip
    then (do
      dst_ip ← ptr_at ctx (l3.offset + 16) 4
      bytes ← load ctx dst_ip 4
      ok (some (record { ip_type = 4; ip_v4 = bytes; ip_v6 = zeros16; vlan_id = l3.vlan_id })))
    else if l3.ether_type == eth_p_ipv6
    then (do
      dst_ip ← ptr_at ctx (l3.offset + 24) 16
      bytes ← load ctx dst_ip 16
      ok (some (record { ip_type = 6; ip_v4 = zeros4; ip_v6 = bytes; vlan_id = l3.vlan_id })))
    else ok none

-- What the program returns, and the packet as it leaves it.
pub record Verdict : Type 0 where
  pub action : ℕ
  pub packet : XdpContext

module _ (abi : XdpAbi) (routes : RouteKey → Option RouteValue) where
  -- The search in ROUTES and the rewriting of the MAC addresses.
  unfoldable pub route_packet : XdpContext → ℕ → Option RouteKey → Access Verdict
  route_packet ctx eth none = ok (record { action = abi.xdp_pass; packet = ctx })
  route_packet ctx eth (some key) = elim (routes key) [
    | none ↦ ok (record { action = abi.xdp_pass; packet = ctx })
    | some route ↦ do
      half_done ← store ctx eth route.dst_mac
      rewritten ← store half_done (eth + eth_src_mac) route.src_mac
      ok (record { action = abi.redirect route.if_index 0; packet = rewritten })
  ]

  unfoldable pub try_xdp_router : XdpContext → Access Verdict
  try_xdp_router ctx = do
    eth ← ptr_at ctx 0 eth_hdr_size
    outer ← load_u16 ctx (eth + eth_ether_type)
    l3 ← parse_vlan ctx (from_be outer) eth_hdr_size
    key ← destination ctx l3
    route_packet ctx eth key

  -- A packet that is too short passes.
  unfoldable pub xdp_router : XdpContext → Access Verdict
  xdp_router ctx = elim (try_xdp_router ctx) [
    | ok verdict ↦ ok verdict
    | err ↦ ok (record { action = abi.xdp_pass; packet = ctx })
    | fault ↦ fault
  ]
