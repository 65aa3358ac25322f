-- ===== src/XdpRouter/Control.antt =====
-- xdp_router/xdp_router/src/main.rs: the daemon that fills ROUTES. The map, the interfaces of the
-- host and the netlink messages are given from outside.
use rust_samples.Prelude.{
  ℕ, List, [], ◌∷◌, Option, none, some, length, map, replicate, ◌==◌, if◌then◌else◌, and_then,
  unwrap_or,
}
use rust_samples.Prelude.Text.{split, from_str_radix_hex}
use rust_samples.BpfMap.{BpfMap}
use rust_samples.XdpRouter.{RouteKey, RouteValue, route_key, zeros4, zeros16}

-- `unwrap_or(0)` of a parsed part.
abbrev pub part_value : List ℕ → ℕ
part_value part = unwrap_or (from_str_radix_hex part) 0

unfoldable pub parse_mac : List ℕ → List ℕ
unfolding from_str_radix_hex split
parse_mac mac_str =
    let parts = split b':' mac_str in
    if length parts == 6 then map part_value parts else replicate 6 0

pub data IpAddr : Type 0 where
  v4 v6 : List ℕ → IpAddr

-- The key of an address, with VLAN 0.
unfoldable pub ip_key : IpAddr → RouteKey
ip_key (v4 octets) = record { ip_type = 4; ip_v4 = octets; ip_v6 = zeros16; vlan_id = 0 }
ip_key (v6 octets) = record { ip_type = 6; ip_v4 = zeros4; ip_v6 = octets; vlan_id = 0 }

pub record Interface : Type 0 where
  pub index : ℕ
  pub mac_addr : Option (List ℕ)
  pub addr : List IpAddr

abbrev pub broadcast : List ℕ
broadcast = replicate 6 0xff

-- The attributes of a neighbour message.
pub data Attribute : Type 0 where
  destination link_layer_address : List ℕ → Attribute
  other : Attribute

-- `ref_ll_addr`: the first link layer address.
unfoldable pub ref_ll_addr : List Attribute → Option (List ℕ)
ref_ll_addr [] = none
ref_ll_addr (link_layer_address mac ∷ nlas) = some mac
ref_ll_addr (destination ip ∷ nlas) = ref_ll_addr nlas
ref_ll_addr (other ∷ nlas) = ref_ll_addr nlas

pub record Neighbour : Type 0 where
  pub destination_ip : Option IpAddr
  pub ll_addr : Option (List ℕ)

-- An address of another length leaves the one found before.
unfoldable pub read_attribute : Neighbour → Attribute → Neighbour
read_attribute n (destination bytes) =
    if length bytes == 4
    then record n { destination_ip = some (v4 bytes) }
    else if length bytes == 16
    then record n { destination_ip = some (v6 bytes) }
    else n
read_attribute n (link_layer_address mac) = record n { ll_addr = some mac }
read_attribute n other = n

unfoldable pub read_attributes : Neighbour → List Attribute → Neighbour
unfolding read_attribute
read_attributes n [] = n
read_attributes n (nla ∷ nlas) = read_attributes (read_attribute n nla) nlas

module _ (m : BpfMap RouteKey RouteValue route_key) where
  open m use {State, get, put}

  -- The loop over an interface's addresses; `none` is an error of the map, which ends `main`.
  unfoldable pub add_addresses : ℕ → List ℕ → List IpAddr → State → Option State
  add_addresses if_index src_mac [] s = some s
  add_addresses if_index src_mac (a ∷ addrs) s =
      let value : RouteValue = record {
        src_mac = src_mac;
        dst_mac = broadcast;
        if_index = if_index;
        vlan_id = 0;
      } in
      and_then (put (ip_key a) value s) (add_addresses if_index src_mac addrs)

  -- The loop over the interfaces: one without a MAC address is passed over.
  unfoldable pub add_interfaces : List Interface → State → Option State
  add_interfaces [] s = some s
  add_interfaces (iface ∷ ifaces) s = elim iface.mac_addr [
    | none ↦ add_interfaces ifaces s
    | some mac_str ↦
        and_then (add_addresses iface.index (parse_mac mac_str) iface.addr s)
          (add_interfaces ifaces)
  ]

  -- The update of a route that is there; `none` is the panic of `unwrap` on an error of the map.
  unfoldable pub update_route : IpAddr → List ℕ → State → Option State
  update_route ip mac s =
      if length mac == 6
      then elim (get (ip_key ip) s) [
        | none ↦ some s
        | some route ↦ put (ip_key ip) (record route { dst_mac = mac }) s
      ]
      else some s

  -- The update, where the message gave both an address and a MAC address.
  unfoldable pub apply_neighbour : Neighbour → State → Option State
  apply_neighbour n s = elim n.destination_ip [
    | none ↦ some s
    | some ip ↦ elim n.ll_addr [ none ↦ some s | some mac ↦ update_route ip mac s ]
  ]

  -- One message of the stream; `none` stands for `Err(e)`, which is logged.
  unfoldable pub handle_message : Option (List Attribute) → State → Option State
  handle_message none s = some s
  handle_message (some nlas) s =
      apply_neighbour
        (read_attributes (record { destination_ip = none; ll_addr = ref_ll_addr nlas }) nlas) s

  unfoldable pub monitor_arp_updates : List (Option (List Attribute)) → State → Option State
  monitor_arp_updates [] s = some s
  monitor_arp_updates (msg ∷ msgs) s = and_then (handle_message msg s) (monitor_arp_updates msgs)
