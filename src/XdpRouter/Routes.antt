-- ===== src/XdpRouter/Routes.antt =====
-- xdp_router/xdp_router/src/main.rs: the entries of ROUTES that the daemon writes.
use rust_samples.Prelude.{
  ℕ, ◌%◌, ◌&&◌, ◌≡◌, ◌≢◌, refl, ap, sym, subst, ◌∙◌, inl, inr, List, [], ◌∷◌, Option, none, some,
  length, arith, Bool-cases, Option-cases, length-map, ◌==◌, if◌then◌else◌, ==_iff,
  and_then-eq-some,
}
use mathlib.Core.Option
use mathlib.Core.Option.{some_inj}
use rust_samples.Prelude.Text.{split}
use rust_samples.BpfMap.{BpfMap, get-put_cases}
use rust_samples.XdpRouter.{RouteKey, RouteValue, route_key, route_key_eq, route_key_eq_iff}
use rust_samples.Xdp.{XdpAbi, XdpContext, ok}
use rust_samples.XdpRouter.Packet.{xdp_router}
use rust_samples.XdpRouter.Wire.{
  IpPacket, IsWellFormed, wire, vlan_of, flow_key, key_for, Family, ipv4, ipv6,
}
use rust_samples.XdpRouter.Delivery.{xdp_router_misses}
use rust_samples.XdpRouter.Control.{
  parse_mac, IpAddr, v4, v6, ip_key, Interface, Attribute, Neighbour, add_addresses, add_interfaces,
  update_route, apply_neighbour, handle_message, monitor_arp_updates, part_value,
}

length-parse_mac : (text : List ℕ) → length (parse_mac text) ≡ 6
unfolding parse_mac
length-parse_mac text = ground (arith, length-map (split b':' text) part_value)

vlan-ip_key : (ip : IpAddr) → (ip_key ip).vlan_id ≡ 0
unfolding ip_key
vlan-ip_key (v4 octets) = refl
vlan-ip_key (v6 octets) = refl

-- A route as the daemon writes it: for untagged packets, with whole MAC addresses.
pub record IsWritten (key : RouteKey) (route : RouteValue) : Type 0 where
  pub untagged : key.vlan_id ≡ 0
  pub dst : length route.dst_mac ≡ 6
  pub src : length route.src_mac ≡ 6

vlan-key_for :
    (fam : Family) (address : List ℕ) (vlan : ℕ) → (key_for fam address vlan).vlan_id ≡ vlan
vlan-key_for ipv4 address vlan = refl
vlan-key_for ipv6 address vlan = refl

abbrev pub with_mac : List ℕ → RouteValue → RouteValue
with_mac mac route = record route { dst_mac = mac }

tagged-vlan : (p : IpPacket) (tci : ℕ) → p.tag ≡ some tci → tci % 4096 ≡ (flow_key p).vlan_id
tagged-vlan p tci e = ap vlan_of (sym e) ∙ sym (vlan-key_for p.family p.address (vlan_of p.tag))

module _ (m : BpfMap RouteKey RouteValue route_key) where
  open m use {State, get, put, get-put}

  abbrev pub AllWritten : State → Type 0
  AllWritten s =
      (key : RouteKey) (route : RouteValue) → get key s ≡ some route → IsWritten key route

  unmoved : {s t : State} → some s ≡ some t → AllWritten s → AllWritten t
  unmoved h all = subst AllWritten (some_inj.0 h) all

  put-AllWritten :
      (k : RouteKey) (v : RouteValue) (s s' : State)
      → put k v s ≡ some s'
      → IsWritten k v
      → AllWritten s
      → AllWritten s'
  put-AllWritten k v s s' e w all key route h = elim (get-put_cases m k key v route s s' e h) [
    | inl (same, given) ↦ rw (← same, ← given) w
    | inr old ↦ all key route old
  ]

  add_addresses-AllWritten :
      (if_index : ℕ) (src : List ℕ) (addrs : List IpAddr) (s t : State)
      → length src ≡ 6
      → add_addresses m if_index src addrs s ≡ some t
      → AllWritten s
      → AllWritten t
  unfolding add_addresses
  add_addresses-AllWritten if_index src [] s t hs h all = unmoved h all
  add_addresses-AllWritten if_index src (a ∷ addrs) s t hs h all =
      let (s', done, more) = and_then-eq-some _ _ h in
      add_addresses-AllWritten if_index src addrs s' t hs more (
        put-AllWritten _ _ s s' done (record { untagged = vlan-ip_key a; dst = refl; src = hs })
          all)

  -- The start-up writes only such routes.
  pub add_interfaces-AllWritten :
      (ifaces : List Interface) (s t : State)
      → add_interfaces m ifaces s ≡ some t
      → AllWritten s
      → AllWritten t
  unfolding add_interfaces
  add_interfaces-AllWritten [] s t h all = unmoved h all
  add_interfaces-AllWritten (iface ∷ ifaces) s t h all = elim (Option-cases iface.mac_addr) [
    | inl e ↦ add_interfaces-AllWritten ifaces s t (rw (e, add_interfaces) at h) all
    | inr (text, e) ↦
        let (s', done, more) = and_then-eq-some _ _ (rw (e, add_interfaces) at h) in
        add_interfaces-AllWritten ifaces s' t more (
          add_addresses-AllWritten iface.index (parse_mac text) iface.addr s s'
            (length-parse_mac text) done all)
  ]

  update_route-AllWritten :
      (ip : IpAddr) (mac : List ℕ) (s t : State)
      → update_route m ip mac s ≡ some t
      → AllWritten s
      → AllWritten t
  unfolding update_route
  update_route-AllWritten ip mac s t h all = elim (Bool-cases (length mac == 6)) [
    | inl six ↦ elim (Option-cases (get (ip_key ip) s)) [
      | inl e ↦ unmoved (rw (six, e, update_route) at h) all
      | inr (route, e) ↦
          put-AllWritten _ _ s t (rw (six, e, update_route) at h)
            (record {
              untagged = vlan-ip_key ip;
              dst = (==_iff (length mac) 6).0 six;
              src = (all _ route e).src;
            })
            all
    ]
    | inr other ↦ unmoved (rw (other, update_route) at h) all
  ]

  apply_neighbour-AllWritten :
      (n : Neighbour) (s t : State) → apply_neighbour m n s ≡ some t → AllWritten s → AllWritten t
  unfolding apply_neighbour
  apply_neighbour-AllWritten n s t h all = elim (Option-cases n.destination_ip) [
    | inl e ↦ unmoved (rw (e, apply_neighbour) at h) all
    | inr (ip, e) ↦ elim (Option-cases n.ll_addr) [
      | inl f ↦ unmoved (rw (e, f, apply_neighbour) at h) all
      | inr (mac, f) ↦ update_route-AllWritten ip mac s t (rw (e, f, apply_neighbour) at h) all
    ]
  ]

  -- So does every message of the monitor.
  pub monitor-AllWritten :
      (msgs : List (Option (List Attribute))) (s t : State)
      → monitor_arp_updates m msgs s ≡ some t
      → AllWritten s
      → AllWritten t
  unfolding monitor_arp_updates handle_message
  monitor-AllWritten [] s t h all = unmoved h all
  monitor-AllWritten (none ∷ msgs) s t h all = monitor-AllWritten msgs s t h all
  monitor-AllWritten (some nlas ∷ msgs) s t h all =
      let (s', done, more) = and_then-eq-some _ _ h in
      monitor-AllWritten msgs s' t more (apply_neighbour-AllWritten _ s s' done all)

  -- After the start-up on an empty map and any messages, the router passes every packet that is
  -- tagged for a VLAN other than 0, unchanged.
  pub tagged_passes :
      (abi : XdpAbi) (ifaces : List Interface) (msgs : List (Option (List Attribute)))
      (empty started t : State)
      → ((key : RouteKey) → get key empty ≡ none)
      → add_interfaces m ifaces empty ≡ some started
      → monitor_arp_updates m msgs started ≡ some t
      → (ctx : XdpContext) (p : IpPacket) (tci : ℕ) → IsWellFormed p
      → ctx.frame ≡ wire p
      → p.tag ≡ some tci
      → tci % 4096 ≢ 0
      → xdp_router abi (λ key. get key t) ctx ≡ ok (record { action = abi.xdp_pass; packet = ctx })
  tagged_passes abi ifaces msgs empty started t none_yet up run ctx p tci wf e tag vlan =
      let none_written : AllWritten empty = λ key route h. cc (none_yet key) in
      let written =
        monitor-AllWritten msgs started t run
          (add_interfaces-AllWritten ifaces empty started up none_written) in
      xdp_router_misses abi (λ key. get key t) ctx p wf e
        (elim (Option-cases (get (flow_key p) t)) [
          | inl missing ↦ missing
          | inr (route, hit) ↦
              absurd (vlan (tagged-vlan p tci tag ∙ (written (flow_key p) route hit).untagged))
        ])

  present_or_same :
      (ip : IpAddr) (mac : List ℕ) (s : State) (j : RouteKey)
      → get (ip_key ip) s ≡ none
      → get j s
        ≡ (if route_key_eq (ip_key ip) j then Option.map (with_mac mac) (get j s) else get j s)
  present_or_same ip mac s j e = elim (Bool-cases (route_key_eq (ip_key ip) j)) [
    | inl same ↦
        let e' : get j s ≡ none = subst (λ k. get k s ≡ none) ((route_key_eq_iff _ j).0 same) e in
        rw (same, e') refl
    | inr other ↦ rw other refl
  ]

  replaced :
      (ip : IpAddr) (mac : List ℕ) (s : State) (j : RouteKey) (route : RouteValue)
      → get (ip_key ip) s ≡ some route
      → (if route_key_eq (ip_key ip) j then some (with_mac mac route) else get j s)
        ≡ (if route_key_eq (ip_key ip) j then Option.map (with_mac mac) (get j s) else get j s)
  replaced ip mac s j route e = elim (Bool-cases (route_key_eq (ip_key ip) j)) [
    | inl same ↦
        let e' : get j s ≡ some route =
          subst (λ k. get k s ≡ some route) ((route_key_eq_iff _ j).0 same) e in
        rw (same, e') refl
    | inr other ↦ rw other refl
  ]

  -- What an update of a neighbour does to every entry: the MAC address of six bytes goes to the
  -- entry of its address, if there is one, and all else stays.
  pub update_route_lem :
      (ip : IpAddr) (mac : List ℕ) (s t : State)
      → update_route m ip mac s ≡ some t
      → (j : RouteKey)
      → get j t ≡ (
          if length mac == 6 && route_key_eq (ip_key ip) j
          then Option.map (with_mac mac) (get j s)
          else get j s)
  unfolding update_route
  update_route_lem ip mac s t h j = elim (Bool-cases (length mac == 6)) [
    | inl six ↦ elim (Option-cases (get (ip_key ip) s)) [
      | inl e ↦
          let same : s ≡ t = some_inj.0 (rw (six, e, update_route) at h) in
          rw (six, ← same) (present_or_same ip mac s j e)
      | inr (route, e) ↦ rw six (
          get-put (ip_key ip) j _ s t (rw (six, e, update_route) at h)
          ∙ replaced ip mac s j route e)
    ]
    | inr other ↦
        let same : s ≡ t = some_inj.0 (rw (other, update_route) at h) in rw (other, ← same) refl
  ]
