-- ===== src/XdpRouter/Tests.antt =====
-- The router's theorems at concrete packets and maps.
use rust_samples.Prelude.{ℕ, ◌≡◌, refl, List, [], ◌∷◌, Option, none, some, arith, replicate}
use rust_samples.Prelude.Text.{codes}
use rust_samples.Xdp.{XdpAbi, XdpContext, ok}
use rust_samples.BpfMap.{BpfMap, bounded_map, bounded_put}
use rust_samples.XdpRouter.{RouteKey, RouteValue, route_key, zeros16}
use rust_samples.XdpRouter.Packet.{Verdict, xdp_router}
use rust_samples.XdpRouter.Forwarding.{HasMacs, Routed, readdressed, xdp_router-Routed}
use rust_samples.XdpRouter.Wire.{ipv4, IpPacket, IsTag, wire, IsWellFormed}
use rust_samples.XdpRouter.Delivery.{xdp_router_delivers}
use rust_samples.XdpRouter.Control.{
  parse_mac, v4, ip_key, Interface, add_interfaces, update_route, monitor_arp_updates,
  link_layer_address, destination, add_addresses, handle_message, apply_neighbour, read_attributes,
  ref_ll_addr,
}
use rust_samples.XdpRouter.Routes.{update_route_lem}
use rust_samples.XdpRouter.Mac.{format_mac, parse_mac-format_mac}

-- The codes of linux/bpf.h.
abbrev linux_abi : XdpAbi
linux_abi = record {
  xdp_pass = 2;
  xdp_drop = 1;
  redirect = λ if_index flags. 4;
  pass-ne-drop = λ e. omega arith;
}

abbrev via_seven : RouteValue
via_seven = record {
  src_mac = 1 ∷ 2 ∷ 3 ∷ 4 ∷ 5 ∷ 6 ∷ [];
  dst_mac = 9 ∷ 9 ∷ 9 ∷ 9 ∷ 9 ∷ 9 ∷ [];
  if_index = 7;
  vlan_id = 0;
}

abbrev host : List ℕ
host = 10 ∷ 0 ∷ 0 ∷ 5 ∷ []

abbrev packet : Option ℕ → IpPacket
packet tag = record {
  family = ipv4;
  macs = replicate 12 0xaa;
  tag = tag;
  header = replicate 16 0;
  address = host;
  rest = 1 ∷ 2 ∷ [];
}

packet-IsWellFormed : (tag : Option ℕ) → IsTag tag → IsWellFormed (packet tag)
packet-IsWellFormed tag h = record { macs = refl; tag = h; header = refl; address = refl }

abbrev context : IpPacket → XdpContext
context p = record { data_start = 4096; frame = wire p }

-- One route, for every key.
abbrev one_route : RouteKey → Option RouteValue
one_route key = some via_seven

one_route-HasMacs : HasMacs one_route
one_route-HasMacs key route h = ground arith

xdp_router-Routed_example :
    (v : Verdict) × (xdp_router linux_abi one_route (context (packet (some 5))) ≡ ok v)
    × Routed linux_abi one_route (context (packet (some 5))) v
xdp_router-Routed_example =
    xdp_router-Routed linux_abi one_route one_route-HasMacs (context (packet (some 5)))

xdp_router_delivers_example :
    xdp_router linux_abi one_route (context (packet (some 5)))
    ≡ ok (record { action = 4; packet = readdressed (context (packet (some 5))) via_seven })
xdp_router_delivers_example =
    xdp_router_delivers linux_abi one_route one_route-HasMacs (context (packet (some 5)))
      (packet (some 5)) via_seven (packet-IsWellFormed (some 5) (omega arith)) refl refl

abbrev no_route : RouteKey → Option RouteValue
no_route key = none

abbrev routes_map : BpfMap RouteKey RouteValue route_key
routes_map = bounded_map route_key 1024

abbrev eth0 : Interface
eth0 = record { index = 7; mac_addr = some (codes "01:02:03:04:05:06"); addr = v4 host ∷ [] }

abbrev seven_key : RouteKey
seven_key = record { ip_type = 4; ip_v4 = host; ip_v6 = zeros16; vlan_id = 0 }

abbrev started : List (RouteKey × RouteValue)
started = (seven_key, record via_seven { dst_mac = replicate 6 0xff }) ∷ []

started_lem : add_interfaces routes_map (eth0 ∷ []) [] ≡ some started
unfolding add_interfaces add_addresses bounded_put parse_mac ip_key
started_lem = refl

abbrev updated : List (RouteKey × RouteValue)
updated = (seven_key, via_seven) ∷ []

updated_lem : update_route routes_map (v4 host) (replicate 6 9) started ≡ some updated
unfolding update_route bounded_put ip_key
updated_lem = refl

monitored_lem :
    monitor_arp_updates routes_map
      (some (destination host ∷ link_layer_address (replicate 6 9) ∷ []) ∷ none ∷ [])
      started
    ≡ some updated
unfolding monitor_arp_updates handle_message apply_neighbour read_attributes ref_ll_addr
    update_route bounded_put ip_key
monitored_lem = refl

update_route_lem_example : routes_map.get seven_key updated ≡ some via_seven
unfolding ip_key
update_route_lem_example =
    update_route_lem routes_map (v4 host) (replicate 6 9) started updated updated_lem seven_key

parse_mac-format_mac_example :
    parse_mac (format_mac (0 ∷ 27 ∷ 255 ∷ 1 ∷ 160 ∷ 9 ∷ [])) ≡ 0 ∷ 27 ∷ 255 ∷ 1 ∷ 160 ∷ 9 ∷ []
parse_mac-format_mac_example =
    parse_mac-format_mac (0 ∷ 27 ∷ 255 ∷ 1 ∷ 160 ∷ 9 ∷ []) refl (omega arith)

upper_case : parse_mac (codes "0A:ff:00:1b:+7:zz") ≡ 10 ∷ 255 ∷ 0 ∷ 27 ∷ 7 ∷ 0 ∷ []
unfolding parse_mac
upper_case = refl
