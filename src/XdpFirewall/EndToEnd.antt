-- ===== src/XdpFirewall/EndToEnd.antt =====
-- From the lines of the block list to the verdict on a packet.
use native.Mathlib.Numerals.{add_eight}
use rust_samples.Prelude.{
  ℕ, ◌+◌, ◌*◌, ◌%◌, ◌≤◌, ◌≡◌, refl, ap, ◌∙◌, inl, inr, List, [], ◌∷◌, ◌++◌, length, arith, Bool,
  true, false, Option, none, some, ◌==◌, ◌&&◌, ◌||◌, leb, if◌then◌else◌, take, list_eq, replicate,
  take_append_le, unwrap_or, suc, Option-cases, All,
}
use rust_samples.Prelude.Text.{lines}
use rust_samples.Xdp.{XdpAbi, XdpContext, ok}
use rust_samples.XdpRouter.Wire.{Family, ipv4, ipv6, address_size}
use rust_samples.XdpFirewall.{IpKey, ipv4_key, ipv6_key, xdp_firewall}
use rust_samples.XdpFirewall.Trie.{bits, byte_bits, covers, LpmTrie}
use rust_samples.XdpFirewall.Blocklist.{
  IpNet, IsNet, NetLib, same_family, net_key, type_of, padded, read_lines, block_networks, reload,
  reloads,
}
use rust_samples.XdpFirewall.Filtering.{
  SourcePacket, IsSourcePacket, Sizes, source_wire, source_key, xdp_firewall-verdict,
}

-- An address lies in a network: same family, and the bits of the prefix agree.
abbrev pub contains : IpNet → Family → List ℕ → Bool
contains net fam src =
    same_family net.family fam
    && list_eq (take net.prefix_len (bits net.addr)) (take net.prefix_len (bits src))

abbrev pub any_contains : List IpNet → Family → List ℕ → Bool
any_contains [] fam src = false
any_contains (net ∷ nets) fam src = contains net fam src || any_contains nets fam src

and-false : (b : Bool) → (b && false) ≡ false
and-false b = ground arith

or-true : (b : Bool) → (b || true) ≡ true
or-true b = ground arith

or_swap : (a b c : Bool) → (a || (b || c)) ≡ ((b || a) || c)
or_swap a b c = ground arith

-- Two tests in a row are one test of both.
merged :
    (tcp hit found : Bool) (d p : ℕ)
    → hit ≡ found
    → (if tcp then (if hit then d else p) else p) ≡ (if tcp && found then d else p)
merged tcp hit found d p h = ground arith

dropped :
    (protocol : ℕ) (hit : Bool) (d p : ℕ)
    → protocol ≡ 6
    → hit ≡ true
    → (if protocol == 6 then (if hit then d else p) else p) ≡ d
dropped protocol hit d p e h = ground arith

source_size : (p : SourcePacket) → IsSourcePacket p → length p.source ≡ address_size p.family
source_size p (hm, sizes) = go p.family sizes
  where
    go :
        (fam : Family) → Sizes fam p.head p.gap p.source p.rest → length p.source ≡ address_size fam
    go ipv4 (hh, hg, hs, hr) = hs
    go ipv6 (hh, hg, hs, hr) = hs

length-bits : (bs : List ℕ) → length (bits bs) ≡ 8 * length bs
length-bits [] = refl
length-bits (b ∷ bs) = omega (arith, length-bits bs)

bits-append : (xs ys : List ℕ) → bits (xs ++ ys) ≡ bits xs ++ bits ys
bits-append [] ys = refl
bits-append (x ∷ xs) ys = ap (λ r. byte_bits x ++ r) (bits-append xs ys)

take-bits_append :
    (n : ℕ) (xs ys : List ℕ) → n ≤ 8 * length xs → take n (bits (xs ++ ys)) ≡ take n (bits xs)
take-bits_append n xs ys h =
    rw (bits-append xs ys) (take_append_le n (bits xs) (bits ys) (omega (arith, length-bits xs)))

-- The key of a network and the key of a source address, over their parts.
covers_lem :
    (nf fam : Family) (addr network src : List ℕ) (p : ℕ)
    → take p (bits network) ≡ take p (bits addr)
    → length network ≡ address_size nf
    → p ≤ 8 * address_size nf
    → length src ≡ address_size fam
    → covers
        (record { prefixlen = (p + 8) % 256; ip_type = type_of nf; addr = padded nf network })
        (source_key fam src)
      ≡ (same_family nf fam && list_eq (take p (bits addr)) (take p (bits src)))
unfolding ipv4_key ipv6_key
covers_lem ipv4 ipv4 addr network src p same hn hp hs =
    let small : (p + 8) % 256 ≡ p + 8 = omega arith in
    let shorter : leb (suc (suc (suc (suc (suc (suc (suc (suc p)))))))) 40 ≡ true = ground arith in
    rw
      (
        small,
        add_eight p,
        shorter,
        take-bits_append p network (replicate 12 0) (omega arith),
        take-bits_append p src (replicate 12 0) (omega arith),
        same,
      )
      refl
covers_lem ipv4 ipv6 addr network src p same hn hp hs =
    let small : (p + 8) % 256 ≡ p + 8 = omega arith in rw (small, add_eight p) (and-false _)
covers_lem ipv6 ipv4 addr network src p same hn hp hs =
    let small : (p + 8) % 256 ≡ p + 8 = omega arith in rw (small, add_eight p) (and-false _)
covers_lem ipv6 ipv6 addr network src p same hn hp hs =
    let small : (p + 8) % 256 ≡ p + 8 = omega arith in
    let shorter : leb (suc (suc (suc (suc (suc (suc (suc (suc p)))))))) 136 ≡ true = ground arith in
    rw (small, add_eight p, shorter, same) refl

module _ (lib : NetLib) where
  covers-net_key :
      (net : IpNet) (fam : Family) (src : List ℕ)
      → IsNet net
      → length src ≡ address_size fam
      → covers (net_key lib net) (source_key fam src) ≡ contains net fam src
  unfolding net_key
  covers-net_key net fam src wf hs =
      covers_lem net.family fam net.addr (lib.network net) src net.prefix_len
        (lib.network-prefix net) (lib.length-network net ∙ wf.size) wf.prefix hs

  module _ (trie : LpmTrie) where
    open trie use {State, hit, put, hit-put}

    -- Every insert of the loop succeeds.
    abbrev pub AllFit : List IpNet → State → Type 0
    AllFit [] s = Unit {0}
    AllFit (net ∷ nets) s =
        ((s' : State) × (put (net_key lib net) s ≡ some s'))
        × AllFit nets (unwrap_or (put (net_key lib net) s) s)

    -- After a round that finds room, the map blocks what it blocked and the round's networks.
    hit-block_networks :
        (nets : List IpNet) (s : State) (fam : Family) (src : List ℕ)
        → All IsNet nets
        → AllFit nets s
        → length src ≡ address_size fam
        → hit (block_networks lib trie nets s) (source_key fam src)
          ≡ (any_contains nets fam src || hit s (source_key fam src))
    unfolding block_networks
    hit-block_networks [] s fam src wf fit hs = refl
    hit-block_networks (net ∷ nets) s fam src (wf, wfs) ((s', e), fit) hs =
        let added =
          hit-put (net_key lib net) (source_key fam src) s s' e
          ∙ ap (λ b. b || hit s (source_key fam src)) (covers-net_key net fam src wf hs) in
        let kept : unwrap_or (put (net_key lib net) s) s ≡ s' = rw e refl in
        hit-block_networks nets (unwrap_or (put (net_key lib net) s) s) fam src wfs fit hs
        ∙ ap (λ t. any_contains nets fam src || hit t (source_key fam src)) kept
        ∙ ap (λ b. any_contains nets fam src || b) added
        ∙ or_swap (any_contains nets fam src) (contains net fam src) (hit s (source_key fam src))

    -- A round that reads the networks and finds room for them makes the firewall drop a TCP packet
    -- exactly when its source lies in one of the networks, or was blocked before; all else passes.
    pub reload_blocks :
        (abi : XdpAbi) (contents : List ℕ) (s : State)
        → All IsNet (read_lines lib (lines contents) [])
        → AllFit (read_lines lib (lines contents) []) s
        → (ctx : XdpContext) (p : SourcePacket) → IsSourcePacket p
        → ctx.frame ≡ source_wire p
        → xdp_firewall abi (hit (reload lib trie (some contents) s)) ctx
          ≡ ok (
              if p.protocol_field == 6
                && (any_contains (read_lines lib (lines contents) []) p.family p.source
                    || hit s (source_key p.family p.source))
              then abi.xdp_drop
              else abi.xdp_pass)
    unfolding reload
    reload_blocks abi contents s wf fit ctx p wp e =
        let nets = read_lines lib (lines contents) [] in
        xdp_firewall-verdict abi (hit (block_networks lib trie nets s)) ctx p wp e
        ∙ ap ok (
            merged (p.protocol_field == 6) _ _ abi.xdp_drop abi.xdp_pass
              (hit-block_networks nets s p.family p.source wf fit (source_size p wp)))

    hit-put_mono :
        (entry key : IpKey) (s : State)
        → hit s key ≡ true
        → hit (unwrap_or (put entry s) s) key ≡ true
    hit-put_mono entry key s h = elim (Option-cases (put entry s)) [
      | inl e ↦ rw e h
      | inr (s', e) ↦ rw (e, hit-put entry key s s' e, h) (or-true _)
    ]

    hit-block_mono :
        (nets : List IpNet) (key : IpKey) (s : State)
        → hit s key ≡ true
        → hit (block_networks lib trie nets s) key ≡ true
    unfolding block_networks
    hit-block_mono [] key s h = h
    hit-block_mono (net ∷ nets) key s h =
        hit-block_mono nets key _ (hit-put_mono (net_key lib net) key s h)

    -- A key that is blocked stays blocked.
    reloads-hit :
        (files : List (Option (List ℕ))) (key : IpKey) (s : State)
        → hit s key ≡ true
        → hit (reloads lib trie files s) key ≡ true
    unfolding reloads reload
    reloads-hit [] key s h = h
    reloads-hit (none ∷ files) key s h = reloads-hit files key s h
    reloads-hit (some contents ∷ files) key s h =
        reloads-hit files key _ (hit-block_mono (read_lines lib (lines contents) []) key s h)

    -- A TCP packet is dropped whose source lies in a network that a round read and found room for,
    -- whatever the map held before and whatever the file says in the rounds after that: later
    -- files that do not name the network do not unblock it.
    pub blocked_for_good :
        (abi : XdpAbi) (contents : List ℕ) (files : List (Option (List ℕ))) (s : State)
        → All IsNet (read_lines lib (lines contents) [])
        → AllFit (read_lines lib (lines contents) []) s
        → (ctx : XdpContext) (p : SourcePacket) → IsSourcePacket p
        → ctx.frame ≡ source_wire p
        → p.protocol_field ≡ 6
        → any_contains (read_lines lib (lines contents) []) p.family p.source ≡ true
        → xdp_firewall abi (hit (reloads lib trie (some contents ∷ files) s)) ctx ≡ ok abi.xdp_drop
    unfolding reloads reload
    blocked_for_good abi contents files s wf fit ctx p wp e tcp inside =
        let nets = read_lines lib (lines contents) [] in
        let key = source_key p.family p.source in
        let blocked : hit (block_networks lib trie nets s) key ≡ true =
          hit-block_networks nets s p.family p.source wf fit (source_size p wp)
          ∙ ap (λ b. b || hit s key) inside in
        xdp_firewall-verdict abi (hit (reloads lib trie (some contents ∷ files) s)) ctx p wp e
        ∙ ap ok (
            dropped p.protocol_field _ abi.xdp_drop abi.xdp_pass tcp
              (reloads-hit files key (block_networks lib trie nets s) blocked))
