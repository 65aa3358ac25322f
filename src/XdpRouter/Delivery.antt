-- ===== src/XdpRouter/Delivery.antt =====
-- xdp_router/xdp_router_ebpf/src/main.rs on well-formed IP packets.
use rust_samples.Prelude.{
  ℕ, ◌+◌, ◌%◌, ◌≤◌, ◌<◌, ◌≡◌, refl, ap, sym, ◌∙◌, List, ◌++◌, Option, none, some, length, arith,
  append_assoc, length-append,
}
use rust_samples.Xdp.{XdpAbi, XdpContext, ok, ptr_at, load_u16, from_be, be16}
use rust_samples.Xdp.Reads.{ptr_at_fits, load_part, load_u16_part, from_be-be16}
use rust_samples.XdpRouter.{RouteKey, RouteValue}
use rust_samples.XdpRouter.Packet.{
  parse_vlan, destination, route_packet, try_xdp_router, xdp_router,
}
use rust_samples.XdpRouter.Forwarding.{HasMacs, readdressed, route_packet_hit}
use rust_samples.XdpRouter.Wire.{
  Family, ipv4, ipv6, protocol, skipped, address_size, IpPacket, tag_bytes, wire, IsWellFormed,
  IsTag, vlan_of, key_for, flow_key,
}

protocol-lt : (fam : Family) → protocol fam < 65536
protocol-lt ipv4 = omega arith
protocol-lt ipv6 = omega arith

module _ (ctx : XdpContext) where
  destination_lem :
      (fam : Family) (offset vlan : ℕ) (pre address post : List ℕ)
      → ctx.frame ≡ pre ++ (address ++ post)
      → length pre ≡ offset + skipped fam
      → length address ≡ address_size fam
      → destination ctx (record { ether_type = protocol fam; offset = offset; vlan_id = vlan })
        ≡ ok (some (key_for fam address vlan))
  unfolding destination
  destination_lem ipv4 offset vlan pre address post e hp ha =
      let fits : offset + 16 + 4 ≤ length ctx.frame =
        omega
          (arith, ap length e, length-append pre (address ++ post), length-append address post) in
      rw
        (
          ptr_at_fits ctx (offset + 16) 4 fits,
          load_part ctx pre address post (ctx.data_start + (offset + 16)) 4 e (omega arith) ha,
        )
        refl
  destination_lem ipv6 offset vlan pre address post e hp ha =
      let fits : offset + 24 + 16 ≤ length ctx.frame =
        omega
          (arith, ap length e, length-append pre (address ++ post), length-append address post) in
      rw
        (
          ptr_at_fits ctx (offset + 24) 16 fits,
          load_part ctx pre address post (ctx.data_start + (offset + 24)) 16 e (omega arith) ha,
        )
        refl

  tagged_lem :
      (fam : Family) (tci : ℕ) (pre post : List ℕ)
      → tci < 65536
      → ctx.frame ≡ pre ++ (be16 tci ++ (be16 (protocol fam) ++ post))
      → length pre ≡ 14
      → parse_vlan ctx 0x8100 14
        ≡ ok (record { ether_type = protocol fam; offset = 18; vlan_id = tci % 4096 })
  unfolding parse_vlan
  tagged_lem fam tci pre post ht e hp =
      let size = length-append pre (be16 tci ++ (be16 (protocol fam) ++ post)) in
      let fits : 14 + 4 ≤ length ctx.frame = omega (arith, ap length e, size) in
      let e' : ctx.frame ≡ (pre ++ be16 tci) ++ (be16 (protocol fam) ++ post) =
        e ∙ sym (append_assoc pre (be16 tci) (be16 (protocol fam) ++ post)) in
      rw
        (
          ptr_at_fits ctx 14 4 fits,
          load_u16_part ctx pre (be16 (protocol fam) ++ post) tci (ctx.data_start + 14) e
              (omega arith),
          load_u16_part ctx (pre ++ be16 tci) post (protocol fam) (ctx.data_start + 14 + 2) e'
              (omega (arith, length-append pre (be16 tci))),
          from_be-be16 tci ht,
          from_be-be16 (protocol fam) (protocol-lt fam),
        )
        refl

  untagged_lem :
      (fam : Family)
      → parse_vlan ctx (protocol fam) 14
        ≡ ok (record { ether_type = protocol fam; offset = 14; vlan_id = 0 })
  unfolding parse_vlan
  untagged_lem ipv4 = refl
  untagged_lem ipv6 = refl

-- The type field after the MAC addresses.
abbrev outer_type : IpPacket → ℕ
outer_type p = elim p.tag [ none ↦ protocol p.family | some tci ↦ 0x8100 ]

-- The position of the IP header.
abbrev ip_offset : Option ℕ → ℕ
ip_offset none = 14
ip_offset (some tci) = 18

wire-length :
    (ctx : XdpContext) (p : IpPacket) → IsWellFormed p → ctx.frame ≡ wire p → 14 ≤ length ctx.frame
wire-length ctx p wf e =
    let tail = be16 (protocol p.family) ++ (p.header ++ (p.address ++ p.rest)) in
    omega (
      arith,
      ap length e,
      length-append p.macs (tag_bytes p.tag ++ tail),
      length-append (tag_bytes p.tag) tail,
    )

eth_fits :
    (ctx : XdpContext) (p : IpPacket)
    → IsWellFormed p
    → ctx.frame ≡ wire p
    → ptr_at ctx 0 14 ≡ ok (ctx.data_start + 0)
eth_fits ctx p wf e = ptr_at_fits ctx 0 14 (wire-length ctx p wf e)

module _ (abi : XdpAbi) (routes : RouteKey → Option RouteValue) where
  -- The steps behind the type field give the packet's key.
  layer3_lem :
      (ctx : XdpContext) (p : IpPacket)
      → IsWellFormed p
      → ctx.frame ≡ wire p
      → (outer : ℕ) × (load_u16 ctx (ctx.data_start + 0 + 12) ≡ ok outer)
        × (parse_vlan ctx (from_be outer) 14
            ≡ ok (record {
              ether_type = protocol p.family;
              offset = ip_offset p.tag;
              vlan_id = vlan_of p.tag;
            }))
        × (destination ctx (record {
          ether_type = protocol p.family;
          offset = ip_offset p.tag;
          vlan_id = vlan_of p.tag;
        })
            ≡ ok (some (flow_key p)))
  layer3_lem ctx p wf e = go p.tag wf.tag e
    where
      open p use {family, header, address, rest}

      body : List ℕ
      body = header ++ (address ++ rest)

      go :
          (t : Option ℕ)
          → IsTag t
          → ctx.frame ≡ p.macs ++ (tag_bytes t ++ (be16 (protocol family) ++ body))
          → (outer : ℕ) × (load_u16 ctx (ctx.data_start + 0 + 12) ≡ ok outer)
            × (parse_vlan ctx (from_be outer) 14
                ≡ ok (record {
                  ether_type = protocol family;
                  offset = ip_offset t;
                  vlan_id = vlan_of t;
                }))
            × (destination ctx (record {
              ether_type = protocol family;
              offset = ip_offset t;
              vlan_id = vlan_of t;
            })
                ≡ ok (some (key_for family address (vlan_of t))))
      go none ht f =
          let pre = p.macs ++ (be16 (protocol family) ++ header) in
          (
            _,
            load_u16_part ctx p.macs body (protocol family) (ctx.data_start + 0 + 12) f
                (omega arith),
            rw (from_be-be16 (protocol family) (protocol-lt family)) (untagged_lem ctx family),
            destination_lem ctx family 14 0 pre address rest
                (f ∙ sym (append_assoc p.macs (be16 (protocol family) ++ header) (address ++ rest)))
                (omega (arith, length-append p.macs (be16 (protocol family) ++ header))) wf.address,
          )
      go (some tci) ht f =
          let tag = be16 0x8100 ++ (be16 tci ++ (be16 (protocol family) ++ header)) in
          let tagged = be16 tci ++ (be16 (protocol family) ++ body) in
          (
            _,
            load_u16_part ctx p.macs tagged 0x8100 (ctx.data_start + 0 + 12) f (omega arith),
            rw (from_be-be16 0x8100 (omega arith)) (
                tagged_lem ctx family tci (p.macs ++ be16 0x8100) body ht
                  (f ∙ sym (append_assoc p.macs (be16 0x8100) tagged))
                  (omega (arith, length-append p.macs (be16 0x8100)))),
            destination_lem ctx family 18 (tci % 4096) (p.macs ++ tag) address rest
                (f ∙ sym (append_assoc p.macs tag (address ++ rest)))
                (omega (arith, length-append p.macs tag)) wf.address,
          )

  try_xdp_router_keyed :
      (ctx : XdpContext) (p : IpPacket)
      → IsWellFormed p
      → ctx.frame ≡ wire p
      → try_xdp_router abi routes ctx
        ≡ route_packet abi routes ctx (ctx.data_start + 0) (some (flow_key p))
  unfolding try_xdp_router
  try_xdp_router_keyed ctx p wf e =
      let (outer, loaded, parsed, keyed) = layer3_lem ctx p wf e in
      rw (eth_fits ctx p wf e, loaded, parsed, keyed) refl

  -- A well-formed IPv4 or IPv6 packet, with or without an 802.1Q tag, whose key (the destination
  -- address, and the tag's VLAN or 0) has an entry in ROUTES, is redirected to the entry's
  -- interface with the entry's MAC addresses.
  pub xdp_router_delivers :
      HasMacs routes
      → (ctx : XdpContext) (p : IpPacket) (route : RouteValue) → IsWellFormed p
      → ctx.frame ≡ wire p
      → routes (flow_key p) ≡ some route
      → xdp_router abi routes ctx
        ≡ ok (record { action = abi.redirect route.if_index 0; packet = readdressed ctx route })
  unfolding xdp_router
  xdp_router_delivers macs ctx p route wf e hit =
      let sent =
        try_xdp_router_keyed ctx p wf e
        ∙ route_packet_hit abi routes macs ctx (ctx.data_start + 0) (flow_key p) route (omega arith)
            (wire-length ctx p wf e) hit in
      rw (sent, xdp_router) refl

  -- Without an entry for its key it passes unchanged.
  pub xdp_router_misses :
      (ctx : XdpContext) (p : IpPacket)
      → IsWellFormed p
      → ctx.frame ≡ wire p
      → routes (flow_key p) ≡ none
      → xdp_router abi routes ctx ≡ ok (record { action = abi.xdp_pass; packet = ctx })
  unfolding xdp_router route_packet
  xdp_router_misses ctx p wf e miss =
      let kept : route_packet abi routes ctx (ctx.data_start + 0) (some (flow_key p))
          ≡ ok (record { action = abi.xdp_pass; packet = ctx }) =
        rw (miss, route_packet) refl in
      rw (try_xdp_router_keyed ctx p wf e ∙ kept, xdp_router) refl
