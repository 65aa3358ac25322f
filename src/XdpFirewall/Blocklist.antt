-- ===== src/XdpFirewall/Blocklist.antt =====
-- xdp_firewall/xdp_firewall/src/main.rs: the daemon that reads blocked_ips.txt into BLOCKED_IPS.
-- The parsers of the crates ipnet and std::net are a parameter.
use rust_samples.Prelude.{
  ℕ, ◌+◌, ◌*◌, ◌%◌, ◌≤◌, ◌≡◌, ◌&&◌, List, [], ◌∷◌, ◌++◌, Option, none, some, Bool, true, false,
  replicate, ◌==◌, ◌||◌, if◌then◌else◌, list_eq, length, take, unwrap_or,
}
use rust_samples.Prelude.Text.{lines, trim, is_empty, starts_with_byte}
use rust_samples.XdpRouter.Wire.{Family, ipv4, ipv6, address_size}
use rust_samples.XdpFirewall.{IpKey}
use rust_samples.XdpFirewall.Trie.{bits, LpmTrie}

pub record IpNet : Type 0 where
  pub family : Family
  pub addr : List ℕ
  pub prefix_len : ℕ

abbrev pub same_family : Family → Family → Bool
same_family ipv4 ipv4 = true
same_family ipv6 ipv6 = true
same_family ipv4 ipv6 = false
same_family ipv6 ipv4 = false

-- What `IpNet` and `IpAddr` hold by their types: the bytes of the address, and a prefix within it.
pub record IsNet (net : IpNet) : Type 0 where
  pub size : length net.addr ≡ address_size net.family
  pub prefix : net.prefix_len ≤ 8 * address_size net.family

-- `IpNet::from_str`, `IpAddr::from_str` and `network()`, which keeps the bits of the prefix.
pub record NetLib : Type 0 where
  pub net_from_str : List ℕ → Option IpNet
  pub ip_from_str : List ℕ → Option (Family × List ℕ)
  pub network : IpNet → List ℕ
  pub network-prefix :
      (net : IpNet) → take net.prefix_len (bits (network net)) ≡ take net.prefix_len (bits net.addr)
  pub length-network : (net : IpNet) → length (network net) ≡ length net.addr

abbrev pub net_eq : IpNet → IpNet → Bool
net_eq a b = same_family a.family b.family && list_eq a.addr b.addr && a.prefix_len == b.prefix_len

abbrev pub has_net : IpNet → List IpNet → Bool
has_net net [] = false
has_net net (n ∷ ns) = net_eq n net || has_net net ns

-- `HashSet::insert`; the set is the list of its members.
unfoldable pub add_network : IpNet → List IpNet → List IpNet
add_network net nets = if has_net net nets then nets else net ∷ nets

-- The network of a single address.
abbrev pub host_net : Family × List ℕ → IpNet
host_net (fam, octets) = record { family = fam; addr = octets; prefix_len = 8 * address_size fam }

abbrev pub type_of : Family → ℕ
type_of ipv4 = 4
type_of ipv6 = 6

-- An IPv4 address takes the first four of the sixteen bytes.
abbrev pub padded : Family → List ℕ → List ℕ
padded ipv4 octets = octets ++ replicate 12 0
padded ipv6 octets = octets

module _ (lib : NetLib) where
  unfoldable pub read_line : List ℕ → List IpNet → List IpNet
  unfolding add_network
  read_line line nets =
      let entry = trim line in
      if is_empty entry || starts_with_byte b'#' entry
      then nets
      else (elim (lib.net_from_str entry) [
        | some net ↦ add_network net nets
        | none ↦ elim (lib.ip_from_str entry) [
          | some ip ↦ add_network (host_net ip) nets
          | none ↦ nets
        ]
      ])

  unfoldable pub read_lines : List (List ℕ) → List IpNet → List IpNet
  unfolding read_line
  read_lines [] nets = nets
  read_lines (line ∷ rest) nets = read_lines rest (read_line line nets)

  -- The key of a network; the sum is a u8.
  unfoldable pub net_key : IpNet → IpKey
  net_key net = record {
    prefixlen = (net.prefix_len + 8) % 256;
    ip_type = type_of net.family;
    addr = padded net.family (lib.network net);
  }

  module _ (trie : LpmTrie) where
    open trie use {State, put}

    -- The loop that writes the map; an error of an insert is passed over.
    unfoldable pub block_networks : List IpNet → State → State
    block_networks [] s = s
    block_networks (net ∷ nets) s = block_networks nets (unwrap_or (put (net_key net) s) s)

    -- One round of `main`'s loop: `none` stands for a file that cannot be read.
    unfoldable pub reload : Option (List ℕ) → State → State
    reload none s = s
    reload (some contents) s = block_networks (read_lines (lines contents) []) s

    unfoldable pub reloads : List (Option (List ℕ)) → State → State
    reloads [] s = s
    reloads (file ∷ files) s = reloads files (reload file s)
