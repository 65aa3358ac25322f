-- ===== src/XdpFirewall/Filtering.antt =====
-- xdp_firewall/xdp_firewall_ebpf/src/main.rs on any packet, and on IP packets as they stand on
-- the wire.
use rust_samples.Prelude.{
  replicate, ℕ, ◌+◌, ◌≤◌, ◌≡◌, ◌≢◌, refl, ap, sym, ◌∙◌, ◌⊎◌, inl, inr, List, [], ◌∷◌, ◌++◌, length,
  arith, Bool, true, false, append_assoc, length-append, ◌==◌, if◌then◌else◌,
}
use rust_samples.Xdp.{
  XdpAbi, XdpContext, Access, ok, err, fault, ◌>>=◌, ptr_at, load, load_u16, from_be, be16, le16,
}
use rust_samples.Xdp.Reads.{
  ptr_at-ne-fault, ptr_at_fits, load-ne-fault, load_u16-ne-fault, load_part, load_u16_part,
}
use rust_samples.XdpRouter.Wire.{Family, ipv4, ipv6, protocol}
use rust_samples.XdpFirewall.{
  IpKey, ipv4_key, ipv6_key, drop_if, filter_ipv4, filter_ipv6, try_xdp_firewall, xdp_firewall,
  head_byte,
}

module _ (abi : XdpAbi) (blocked : IpKey → Bool) where
  -- A decision: to pass, or to drop for a key that is blocked.
  abbrev pub IsDecision : ℕ → Type 0
  IsDecision a = (a ≡ abi.xdp_pass) ⊎ ((key : IpKey) × (blocked key ≡ true) × (a ≡ abi.xdp_drop))

  data Decides : Access ℕ → Type 0 where
    decided : {a : ℕ} → IsDecision a → Decides (ok a)
    failed : Decides err

  bind-Decides :
      {A : Type 0} (m : Access A) (f : A → Access ℕ)
      → m ≢ fault
      → ((a : A) → m ≡ ok a → Decides (f a))
      → Decides (m >>= f)
  bind-Decides (ok a) f h k = k a refl
  bind-Decides err f h k = failed
  bind-Decides fault f h k = absurd (h refl)

  if-Decides : (b : Bool) (x y : Access ℕ) → Decides x → Decides y → Decides (if b then x else y)
  if-Decides true x y h k = h
  if-Decides false x y h k = k

  drop_if-IsDecision : (key : IpKey) → IsDecision (drop_if abi blocked (blocked key))
  drop_if-IsDecision key = go (blocked key) refl
    where
      go : (b : Bool) → blocked key ≡ b → IsDecision (drop_if abi blocked b)
      go true h = inr (key, h, refl)
      go false h = inl refl

  -- A header's protocol field decides whether the source address is looked up.
  field-Decides :
      (ctx : XdpContext) (offset size field source bytes : ℕ) (key : List ℕ → IpKey)
      → field + 1 ≤ size
      → source + bytes ≤ size
      → Decides (
          ptr_at ctx offset size >>= λ p. load ctx (p + field) 1 >>= λ proto.
          if head_byte proto == 6
          then (load ctx (p + source) bytes >>= λ src. ok (drop_if abi blocked (blocked (key src))))
          else ok abi.xdp_pass)
  field-Decides ctx offset size field source bytes key hf hs =
      bind-Decides (ptr_at ctx offset size) _ (ptr_at-ne-fault ctx offset size) λ p h.
        bind-Decides (load ctx (p + field) 1) _
          (load-ne-fault ctx offset size p (p + field) 1 h (omega arith) (omega arith))
          λ proto _.
            if-Decides _ _ _
              (bind-Decides (load ctx (p + source) bytes) _
                (load-ne-fault ctx offset size p (p + source) bytes h (omega arith) (omega arith))
                λ src _. decided (drop_if-IsDecision (key src)))
              (decided (inl refl))

  try_xdp_firewall-Decides : (ctx : XdpContext) → Decides (try_xdp_firewall abi blocked ctx)
  unfolding try_xdp_firewall filter_ipv4 filter_ipv6
  try_xdp_firewall-Decides ctx =
      bind-Decides (ptr_at ctx 0 14) _ (ptr_at-ne-fault ctx 0 14) λ eth h.
        bind-Decides (load_u16 ctx (eth + 12)) _
          (load_u16-ne-fault ctx 0 14 eth (eth + 12) h (omega arith) (omega arith))
          λ proto _.
            if-Decides _ _ _ (field-Decides ctx 14 20 9 12 4 ipv4_key (omega arith) (omega arith)) (
              if-Decides _ _ _ (field-Decides ctx 14 40 6 8 16 ipv6_key (omega arith) (omega arith))
                (decided (inl refl)))

  -- On any packet the program returns, without a load outside the packet, and passes the packet
  -- or drops it because a key is blocked.
  pub xdp_firewall_decides :
      (ctx : XdpContext) → (a : ℕ) × (xdp_firewall abi blocked ctx ≡ ok a) × IsDecision a
  unfolding xdp_firewall
  xdp_firewall_decides ctx =
      go (try_xdp_firewall abi blocked ctx) (try_xdp_firewall-Decides ctx) refl
    where
      go :
          (r : Access ℕ)
          → Decides r
          → try_xdp_firewall abi blocked ctx ≡ r
          → (a : ℕ) × (xdp_firewall abi blocked ctx ≡ ok a) × IsDecision a
      go (ok a) (decided d) e = (a, rw (e, xdp_firewall) refl, d)
      go err failed e = (abi.xdp_pass, rw (e, xdp_firewall) refl, inl refl)
      go fault d e = elim d [ ]

-- An IP packet on the wire, described apart from the firewall: the header's bytes before the
-- protocol field, the field, the bytes up to the source address, the address and the rest.
pub record SourcePacket : Type 0 where
  pub family : Family
  pub macs : List ℕ
  pub head : List ℕ
  pub protocol_field : ℕ
  pub gap : List ℕ
  pub source : List ℕ
  pub rest : List ℕ

abbrev pub source_wire : SourcePacket → List ℕ
source_wire p =
    p.macs
    ++ (be16 (protocol p.family)
        ++ (p.head ++ (p.protocol_field ∷ (p.gap ++ (p.source ++ p.rest)))))

-- The sizes of the parts, which differ between the families.
abbrev pub Sizes : Family → List ℕ → List ℕ → List ℕ → List ℕ → Type 0
Sizes ipv4 head gap source rest =
    (length head ≡ 9) × (length gap ≡ 2) × (length source ≡ 4) × (4 ≤ length rest)
Sizes ipv6 head gap source rest =
    (length head ≡ 6) × (length gap ≡ 1) × (length source ≡ 16) × (16 ≤ length rest)

abbrev pub IsSourcePacket : SourcePacket → Type 0
IsSourcePacket p = (length p.macs ≡ 12) × Sizes p.family p.head p.gap p.source p.rest

-- The address as a host's key: eight bits of the family's type, and those of the address.
abbrev pub source_key : Family → List ℕ → IpKey
source_key ipv4 source = record { prefixlen = 8 + 32; ip_type = 4; addr = source ++ replicate 12 0 }
source_key ipv6 source = record { prefixlen = 8 + 128; ip_type = 6; addr = source }

module _ (abi : XdpAbi) (blocked : IpKey → Bool) where
  abbrev pub verdict : SourcePacket → ℕ
  verdict p =
      if p.protocol_field == 6
      then (if blocked (source_key p.family p.source) then abi.xdp_drop else abi.xdp_pass)
      else abi.xdp_pass

  header_lem :
      (ctx : XdpContext) (pre head gap source rest : List ℕ) (proto size field at bytes : ℕ)
      (key : List ℕ → IpKey)
      → ctx.frame ≡ pre ++ (head ++ (proto ∷ (gap ++ (source ++ rest))))
      → length pre ≡ 14
      → length head ≡ field
      → length gap + field + 1 ≡ at
      → length source ≡ bytes
      → size ≤ at + bytes + length rest
      → (ptr_at ctx 14 size >>= λ p. load ctx (p + field) 1 >>= λ proto.
          if head_byte proto == 6
          then (load ctx (p + at) bytes >>= λ src. ok (drop_if abi blocked (blocked (key src))))
          else ok abi.xdp_pass)
        ≡ ok (if proto == 6 then drop_if abi blocked (blocked (key source)) else abi.xdp_pass)
  header_lem ctx pre head gap source rest proto size field at bytes key e hp hh hg hs fits =
      let tail = proto ∷ (gap ++ (source ++ rest)) in
      let front = head ++ (proto ∷ gap) in
      let enough : 14 + size ≤ length ctx.frame = omega (
        arith,
        ap length e,
        length-append pre (head ++ tail),
        length-append head tail,
        length-append gap (source ++ rest),
        length-append source rest,
      ) in
      let at_field = e ∙ sym (append_assoc pre head tail) in
      let at_source : ctx.frame ≡ (pre ++ front) ++ (source ++ rest) =
        e
        ∙ ap (◌++◌ pre) (sym (append_assoc head (proto ∷ gap) (source ++ rest)))
        ∙ sym (append_assoc pre front (source ++ rest)) in
      rw
        (
          ptr_at_fits ctx 14 size enough,
          load_part ctx (pre ++ head) (proto ∷ []) (gap ++ (source ++ rest))
              (ctx.data_start + 14 + field) 1 at_field (omega (arith, length-append pre head)) refl,
        )
        (chosen (proto == 6) (
          load_part ctx (pre ++ front) source rest (ctx.data_start + 14 + at) bytes at_source
            (omega (arith, length-append pre front, length-append head (proto ∷ gap))) hs))
    where
      chosen :
          (b : Bool)
          → load ctx (ctx.data_start + 14 + at) bytes ≡ ok source
          → (if b
              then (load ctx (ctx.data_start + 14 + at) bytes >>= λ src.
                  ok (drop_if abi blocked (blocked (key src))))
              else ok abi.xdp_pass)
            ≡ ok (if b then drop_if abi blocked (blocked (key source)) else abi.xdp_pass)
      chosen true h = rw h refl
      chosen false h = refl

  eth_lem :
      (ctx : XdpContext) (p : SourcePacket)
      → length p.macs ≡ 12
      → ctx.frame ≡ source_wire p
      → (ptr_at ctx 0 14 ≡ ok (ctx.data_start + 0))
        × (load_u16 ctx (ctx.data_start + 0 + 12) ≡ ok (le16 (be16 (protocol p.family))))
  eth_lem ctx p hm e =
      let tail = p.head ++ (p.protocol_field ∷ (p.gap ++ (p.source ++ p.rest))) in
      (
        ptr_at_fits ctx 0 14
            (omega (arith, ap length e, length-append p.macs (be16 (protocol p.family) ++ tail))),
        load_u16_part ctx p.macs tail (protocol p.family) (ctx.data_start + 0 + 12) e (omega arith),
      )

  family_lem :
      (ctx : XdpContext) (fam : Family) (macs head gap source rest : List ℕ) (proto : ℕ)
      → ctx.frame ≡ macs ++ (be16 (protocol fam) ++ (head ++ (proto ∷ (gap ++ (source ++ rest)))))
      → length macs ≡ 12
      → Sizes fam head gap source rest
      → (if le16 (be16 (protocol fam)) == from_be 0x0800
          then filter_ipv4 abi blocked ctx
          else if le16 (be16 (protocol fam)) == from_be 0x86DD
          then filter_ipv6 abi blocked ctx
          else ok abi.xdp_pass)
        ≡ ok (
            if proto == 6
            then drop_if abi blocked (blocked (source_key fam source))
            else abi.xdp_pass)
  unfolding filter_ipv4 filter_ipv6 from_be ipv4_key ipv6_key
  family_lem ctx ipv4 macs head gap source rest proto e hm (hh, hg, hs, hr) =
      header_lem ctx (macs ++ be16 0x0800) head gap source rest proto 20 9 12 4 ipv4_key
        (e ∙ sym (append_assoc macs (be16 0x0800) _))
        (omega (arith, length-append macs (be16 0x0800))) hh (omega arith) hs (omega arith)
  family_lem ctx ipv6 macs head gap source rest proto e hm (hh, hg, hs, hr) =
      header_lem ctx (macs ++ be16 0x86DD) head gap source rest proto 40 6 8 16 ipv6_key
        (e ∙ sym (append_assoc macs (be16 0x86DD) _))
        (omega (arith, length-append macs (be16 0x86DD))) hh (omega arith) hs (omega arith)

  -- An IPv4 or IPv6 packet is dropped exactly when its protocol field says TCP and the key of its
  -- source address is blocked, and passes otherwise.
  pub xdp_firewall-verdict :
      (ctx : XdpContext) (p : SourcePacket)
      → IsSourcePacket p
      → ctx.frame ≡ source_wire p
      → xdp_firewall abi blocked ctx ≡ ok (verdict p)
  unfolding xdp_firewall try_xdp_firewall
  xdp_firewall-verdict ctx p (hm, sizes) e =
      let (checked, loaded) = eth_lem ctx p hm e in
      let decided =
        family_lem ctx p.family p.macs p.head p.gap p.source p.rest p.protocol_field e hm sizes in
      let tried : try_xdp_firewall abi blocked ctx ≡ ok (verdict p) =
        rw (checked, loaded) decided in
      rw (tried, xdp_firewall) refl
