-- ===== src/XdpRouter/Wire.antt =====
-- IP packets as they stand on the wire, described apart from the router's parser.
use rust_samples.Prelude.{ℕ, ◌%◌, ◌<◌, ◌≡◌, List, [], ◌++◌, Option, none, some, length}
use rust_samples.Xdp.{be16}
use rust_samples.XdpRouter.{RouteKey, zeros4, zeros16}

pub data Family : Type 0 where
  ipv4 ipv6 : Family

abbrev pub protocol : Family → ℕ
protocol ipv4 = 0x0800
protocol ipv6 = 0x86DD

-- The bytes of the IP header before the destination address, and of the address.
abbrev pub skipped : Family → ℕ
skipped ipv4 = 16
skipped ipv6 = 24

abbrev pub address_size : Family → ℕ
address_size ipv4 = 4
address_size ipv6 = 16

pub record IpPacket : Type 0 where
  pub family : Family
  pub macs : List ℕ
  -- The tag control information of 802.1Q, if the packet is tagged.
  pub tag : Option ℕ
  pub header : List ℕ
  pub address : List ℕ
  pub rest : List ℕ

abbrev pub tag_bytes : Option ℕ → List ℕ
tag_bytes none = []
tag_bytes (some tci) = be16 0x8100 ++ be16 tci

abbrev pub wire : IpPacket → List ℕ
wire p =
    p.macs ++ (tag_bytes p.tag ++ (be16 (protocol p.family) ++ (p.header ++ (p.address ++ p.rest))))

abbrev pub IsTag : Option ℕ → Type 0
IsTag none = Unit {0}
IsTag (some tci) = tci < 65536

pub record IsWellFormed (p : IpPacket) : Type 0 where
  pub macs : length p.macs ≡ 12
  pub tag : IsTag p.tag
  pub header : length p.header ≡ skipped p.family
  pub address : length p.address ≡ address_size p.family

-- The VLAN of a packet: the lower twelve bits of the tag, and 0 without a tag.
abbrev pub vlan_of : Option ℕ → ℕ
vlan_of none = 0
vlan_of (some tci) = tci % 4096

-- The key under which a packet's route stands.
abbrev pub key_for : Family → List ℕ → ℕ → RouteKey
key_for ipv4 address vlan = record { ip_type = 4; ip_v4 = address; ip_v6 = zeros16; vlan_id = vlan }
key_for ipv6 address vlan = record { ip_type = 6; ip_v4 = zeros4; ip_v6 = address; vlan_id = vlan }

abbrev pub flow_key : IpPacket → RouteKey
flow_key p = key_for p.family p.address (vlan_of p.tag)
