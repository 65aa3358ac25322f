-- ===== src/XdpRouter/Forwarding.antt =====
-- xdp_router/xdp_router_ebpf/src/main.rs on any packet.
use rust_samples.Prelude.{
  ℕ, ◌+◌, ◌≤◌, ◌≡◌, ◌≢◌, refl, ap, sym, ◌∙◌, ◌⊎◌, inl, inr, List, ◌++◌, Option, none, some, length,
  drop, take, arith, Option-cases, drop-drop, length-drop, length-take, take-append-drop, [],
}
use rust_samples.Xdp.{
  XdpAbi, XdpContext, Access, ok, err, fault, ◌>>=◌, ptr_at, load, load_u16, from_be, store,
}
use rust_samples.Xdp.Reads.{
  bind-ne-fault, if-ne-fault, ok-ne-fault, ptr_at_bounds, ptr_at-ne-fault, load-ne-fault,
  load_u16-ne-fault, store_part,
}
use rust_samples.XdpRouter.{RouteKey, RouteValue}
use rust_samples.XdpRouter.Packet.{
  Layer3, Verdict, parse_vlan, destination, route_packet, try_xdp_router, xdp_router,
}

-- A `[u8; 6]` has six bytes.
abbrev pub HasMacs : (RouteKey → Option RouteValue) → Type 0
HasMacs routes =
    (key : RouteKey) (route : RouteValue)
    → routes key ≡ some route
    → (length route.dst_mac ≡ 6) × (length route.src_mac ≡ 6)

-- The packet with its first twelve bytes replaced by a route's addresses.
abbrev pub readdressed : XdpContext → RouteValue → XdpContext
readdressed ctx route = record ctx { frame = route.dst_mac ++ (route.src_mac ++ drop 12 ctx.frame) }

-- The steps before the search touch no byte outside the packet.
parse_vlan-ne-fault : (ctx : XdpContext) (ether offset : ℕ) → parse_vlan ctx ether offset ≢ fault
unfolding parse_vlan
parse_vlan-ne-fault ctx ether offset =
    if-ne-fault _ _ _
      (bind-ne-fault (ptr_at ctx offset 4) _ (ptr_at-ne-fault ctx offset 4) λ p h.
        bind-ne-fault (load_u16 ctx p) _
          (load_u16-ne-fault ctx offset 4 p p h (omega arith) (omega arith))
          λ tci _.
            bind-ne-fault (load_u16 ctx (p + 2)) _
              (load_u16-ne-fault ctx offset 4 p (p + 2) h (omega arith) (omega arith))
              λ inner _. ok-ne-fault _)
      (ok-ne-fault _)

address-ne-fault {ℓ} :
    {A : Type ℓ} (ctx : XdpContext) (offset len : ℕ) (f : List ℕ → A)
    → (ptr_at ctx offset len >>= λ p. load ctx p len >>= λ bs. ok (f bs)) ≢ fault
address-ne-fault ctx offset len f =
    bind-ne-fault (ptr_at ctx offset len) _ (ptr_at-ne-fault ctx offset len) λ p h.
      bind-ne-fault (load ctx p len) _
        (load-ne-fault ctx offset len p p len h (omega arith) (omega arith)) λ bs _. ok-ne-fault _

destination-ne-fault : (ctx : XdpContext) (l3 : Layer3) → destination ctx l3 ≢ fault
unfolding destination
destination-ne-fault ctx l3 =
    if-ne-fault _ _ _ (address-ne-fault ctx (l3.offset + 16) 4 _)
      (if-ne-fault _ _ _ (address-ne-fault ctx (l3.offset + 24) 16 _) (ok-ne-fault _))

module _ (abi : XdpAbi) (routes : RouteKey → Option RouteValue) where
  -- Either the packet passes as it came, or it goes to a route's interface with only the MAC
  -- addresses changed.
  pub data Routed (ctx : XdpContext) (v : Verdict) : Type 0 where
    passed : v.action ≡ abi.xdp_pass → v.packet ≡ ctx → Routed ctx v
    forwarded :
        (key : RouteKey) (route : RouteValue)
        → routes key ≡ some route
        → v.action ≡ abi.redirect route.if_index 0
        → v.packet ≡ readdressed ctx route
        → Routed ctx v

  store_macs :
      (ctx : XdpContext) (eth : ℕ) (dst src : List ℕ)
      → eth ≡ ctx.data_start
      → 14 ≤ length ctx.frame
      → length dst ≡ 6
      → length src ≡ 6
      → (store ctx eth dst ≡ ok (record ctx { frame = dst ++ drop 6 ctx.frame }))
        × (store (record ctx { frame = dst ++ drop 6 ctx.frame }) (eth + 6) src
            ≡ ok (record ctx { frame = dst ++ (src ++ drop 12 ctx.frame) }))
  store_macs ctx eth dst src he h hd hs =
      let tail : drop 6 ctx.frame ≡ take 6 (drop 6 ctx.frame) ++ drop 12 ctx.frame =
        sym (take-append-drop 6 (drop 6 ctx.frame))
        ∙ ap (λ r. take 6 (drop 6 ctx.frame) ++ r) (drop-drop 6 6 12 ctx.frame refl) in
      (
        store_part ctx [] (take 6 ctx.frame) (drop 6 ctx.frame) dst eth
            (sym (take-append-drop 6 ctx.frame)) (omega arith)
            (omega (arith, length-take 6 ctx.frame)),
        store_part (record ctx { frame = dst ++ drop 6 ctx.frame }) dst (take 6 (drop 6 ctx.frame))
            (drop 12 ctx.frame) src (eth + 6) (ap (◌++◌ dst) tail) (omega arith)
            (omega (arith, length-take 6 (drop 6 ctx.frame), length-drop 6 ctx.frame)),
      )

  -- Where ROUTES has an entry for the key, the packet is sent on with the entry's addresses.
  pub route_packet_hit :
      HasMacs routes
      → (ctx : XdpContext) (eth : ℕ) (key : RouteKey) (route : RouteValue) → eth ≡ ctx.data_start
      → 14 ≤ length ctx.frame
      → routes key ≡ some route
      → route_packet abi routes ctx eth (some key)
        ≡ ok (record { action = abi.redirect route.if_index 0; packet = readdressed ctx route })
  unfolding route_packet
  route_packet_hit macs ctx eth key route he h e =
      let (m, n) = macs key route e in
      let (first, second) = store_macs ctx eth route.dst_mac route.src_mac he h m n in
      rw (e, route_packet) (rw (first, second) refl)

  route_packet-Routed :
      HasMacs routes
      → (ctx : XdpContext) (eth : ℕ) (key : Option RouteKey) → eth ≡ ctx.data_start
      → 14 ≤ length ctx.frame
      → (v : Verdict) × (route_packet abi routes ctx eth key ≡ ok v) × Routed ctx v
  unfolding route_packet
  route_packet-Routed macs ctx eth none he h = (_, refl, passed refl refl)
  route_packet-Routed macs ctx eth (some key) he h = elim (Option-cases (routes key)) [
    | inl e ↦ (_, rw (e, route_packet) refl, passed refl refl)
    | inr (route, e) ↦
        (_, route_packet_hit macs ctx eth key route he h e, forwarded key route e refl refl)
  ]

  -- What the steps before the search come to: an error, or a key with a packet of 14 bytes.
  data Parsed (ctx : XdpContext) : Access Verdict → Type 0 where
    short : Parsed ctx err
    routed :
        (eth : ℕ) (key : Option RouteKey)
        → eth ≡ ctx.data_start
        → 14 ≤ length ctx.frame
        → Parsed ctx (route_packet abi routes ctx eth key)

  destination-Parsed :
      (ctx : XdpContext) (eth : ℕ)
      → eth ≡ ctx.data_start
      → 14 ≤ length ctx.frame
      → (r : Access (Option RouteKey)) → r ≢ fault
      → Parsed ctx (r >>= λ key. route_packet abi routes ctx eth key)
  destination-Parsed ctx eth he h (ok key) n = routed eth key he h
  destination-Parsed ctx eth he h err n = short
  destination-Parsed ctx eth he h fault n = absurd (n refl)

  vlan-Parsed :
      (ctx : XdpContext) (eth : ℕ)
      → eth ≡ ctx.data_start
      → 14 ≤ length ctx.frame
      → (r : Access Layer3) → r ≢ fault
      → Parsed ctx (r >>= λ l3. destination ctx l3 >>= λ key. route_packet abi routes ctx eth key)
  vlan-Parsed ctx eth he h (ok l3) n =
      destination-Parsed ctx eth he h (destination ctx l3) (destination-ne-fault ctx l3)
  vlan-Parsed ctx eth he h err n = short
  vlan-Parsed ctx eth he h fault n = absurd (n refl)

  try_xdp_router-Parsed : (ctx : XdpContext) → Parsed ctx (try_xdp_router abi routes ctx)
  unfolding try_xdp_router
  try_xdp_router-Parsed ctx = go (ptr_at ctx 0 14) refl
    where
      checked :
          (eth : ℕ)
          → ptr_at ctx 0 14 ≡ ok eth
          → (r : Access ℕ) → load_u16 ctx (eth + 12) ≡ r
          → Parsed ctx (
              r >>= λ outer. parse_vlan ctx (from_be outer) 14 >>= λ l3.
              destination ctx l3 >>= λ key. route_packet abi routes ctx eth key)
      checked eth h (ok outer) e =
          let (at_start, fits) = ptr_at_bounds ctx 0 14 h in
          vlan-Parsed ctx eth (omega arith) (omega arith) (parse_vlan ctx (from_be outer) 14)
            (parse_vlan-ne-fault ctx (from_be outer) 14)
      checked eth h err e = short
      checked eth h fault e =
          absurd (load_u16-ne-fault ctx 0 14 eth (eth + 12) h (omega arith) (omega arith) e)

      go :
          (r : Access ℕ)
          → ptr_at ctx 0 14 ≡ r
          → Parsed ctx (
              r >>= λ eth. load_u16 ctx (eth + 12) >>= λ outer.
              parse_vlan ctx (from_be outer) 14 >>= λ l3.
              destination ctx l3 >>= λ key. route_packet abi routes ctx eth key)
      go (ok eth) h = checked eth h (load_u16 ctx (eth + 12)) refl
      go err h = short
      go fault h = absurd (ptr_at-ne-fault ctx 0 14 h)

  Parsed-Routed :
      HasMacs routes
      → (ctx : XdpContext) {r : Access Verdict} → Parsed ctx r
      → (r ≡ err) ⊎ ((v : Verdict) × (r ≡ ok v) × Routed ctx v)
  Parsed-Routed macs ctx short = inl refl
  Parsed-Routed macs ctx (routed eth key he h) = inr (route_packet-Routed macs ctx eth key he h)

  -- On any packet the program returns, without a load or a store outside the packet. The packet
  -- passes unchanged, or is redirected to the interface of an entry of ROUTES with the entry's MAC
  -- addresses as its first twelve bytes and all other bytes unchanged.
  pub xdp_router-Routed :
      HasMacs routes
      → (ctx : XdpContext) → (v : Verdict) × (xdp_router abi routes ctx ≡ ok v) × Routed ctx v
  unfolding xdp_router
  xdp_router-Routed macs ctx = elim (Parsed-Routed macs ctx (try_xdp_router-Parsed ctx)) [
    | inl e ↦ (_, rw (e, xdp_router) refl, passed refl refl)
    | inr (v, e, r) ↦ (v, rw (e, xdp_router) refl, r)
  ]
