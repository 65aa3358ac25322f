-- ===== src/Xdp/Reads.antt =====
-- Loads that follow a bounds check of the XDP programs.
use rust_samples.Prelude.{
  ℕ, ◌+◌, ◌-◌, ◌≤◌, ◌<◌, ◌≡◌, ◌≢◌, refl, ap, List, ◌++◌, length, take, drop, arith, Bool, false,
  if◌then◌else◌, leb, true, sym, ◌∙◌, drop_append_add, take_append, drop_append, length-append,
}
use rust_samples.Xdp.{
  XdpContext, data_end, Access, ◌>>=◌, ok, err, fault, ptr_at, load, le16, from_be, load_u16, be16,
  store,
}

-- A chain faults only where one of its steps does.
pub bind-ne-fault {ℓ κ} :
    {A : Type ℓ} {B : Type κ} (m : Access A) (f : A → Access B)
    → m ≢ fault
    → ((a : A) → m ≡ ok a → f a ≢ fault)
    → (m >>= f) ≢ fault
bind-ne-fault (ok a) f h k = k a refl
bind-ne-fault err f h k = λ e. cc
bind-ne-fault fault f h k = absurd (h refl)

pub if-ne-fault {ℓ} :
    {A : Type ℓ} (b : Bool) (x y : Access A) → x ≢ fault → y ≢ fault → (if b then x else y) ≢ fault
if-ne-fault true x y h k = h
if-ne-fault false x y h k = k

pub ok-ne-fault {ℓ} : {A : Type ℓ} (a : A) → ok a ≢ fault
ok-ne-fault a e = cc

module _ (ctx : XdpContext) where
  -- A pointer that the check lets through has its whole object inside the packet.
  pub ptr_at_bounds :
      (offset len : ℕ) {p : ℕ}
      → ptr_at ctx offset len ≡ ok p
      → (p ≡ ctx.data_start + offset) × (p + len ≤ data_end ctx)
  unfolding ptr_at
  ptr_at_bounds offset len h = ground arith

  pub ptr_at-ne-fault : (offset len : ℕ) → ptr_at ctx offset len ≢ fault
  unfolding ptr_at
  ptr_at-ne-fault offset len = ground arith

  pub ptr_at_fits :
      (offset len : ℕ)
      → offset + len ≤ length ctx.frame
      → ptr_at ctx offset len ≡ ok (ctx.data_start + offset)
  unfolding ptr_at
  ptr_at_fits offset len h = ground arith

  -- A load inside the packet gives its bytes.
  pub load_inside :
      (offset n : ℕ)
      → offset + n ≤ length ctx.frame
      → load ctx (ctx.data_start + offset) n ≡ ok (take n (drop offset ctx.frame))
  unfolding load
  load_inside offset n h =
      let e : ctx.data_start + offset - ctx.data_start ≡ offset = omega arith in
      ground (arith, ap (λ k. take n (drop k ctx.frame)) e)

  -- The bytes between a prefix and a suffix, at the address where the prefix ends.
  pub load_part :
      (pre mid post : List ℕ) (p n : ℕ)
      → ctx.frame ≡ pre ++ (mid ++ post)
      → p ≡ ctx.data_start + length pre
      → length mid ≡ n
      → load ctx p n ≡ ok mid
  load_part pre mid post p n e hp hm =
      let fits : length pre + n ≤ length ctx.frame =
        omega (arith, ap length e, length-append pre (mid ++ post), length-append mid post) in
      rw (hp, load_inside (length pre) n fits, e, drop_append (length pre) pre (mid ++ post) refl)
        (ap ok (take_append n mid post hm))

  -- Behind a bounds check, loads within the checked object do not fault.
  pub load-ne-fault :
      (offset len p q n : ℕ)
      → ptr_at ctx offset len ≡ ok p
      → p ≤ q
      → q + n ≤ p + len
      → load ctx q n ≢ fault
  unfolding load
  load-ne-fault offset len p q n h lo hi = ground (arith, ptr_at_bounds offset len h)

  pub load_u16-ne-fault :
      (offset len p q : ℕ)
      → ptr_at ctx offset len ≡ ok p
      → p ≤ q
      → q + 2 ≤ p + len
      → load_u16 ctx q ≢ fault
  unfolding load_u16
  load_u16-ne-fault offset len p q h lo hi =
      bind-ne-fault (load ctx q 2) _ (load-ne-fault offset len p q 2 h lo hi) (λ bs _ e. cc)

  -- A number of the wire at an address, in the host's order.
  pub load_u16_part :
      (pre post : List ℕ) (x p : ℕ)
      → ctx.frame ≡ pre ++ (be16 x ++ post)
      → p ≡ ctx.data_start + length pre
      → load_u16 ctx p ≡ ok (le16 (be16 x))
  unfolding load_u16
  load_u16_part pre post x p e hp = rw (load_part pre (be16 x) post p 2 e hp refl)

  -- A store of as many bytes as the part that it replaces.
  pub store_part :
      (pre old post bs : List ℕ) (p : ℕ)
      → ctx.frame ≡ pre ++ (old ++ post)
      → p ≡ ctx.data_start + length pre
      → length bs ≡ length old
      → store ctx p bs ≡ ok (record ctx { frame = pre ++ (bs ++ post) })
  unfolding store
  store_part pre old post bs p e hp hl =
      let size = ap length e in
      let at_pre : p - ctx.data_start ≡ length pre = omega (arith, hp) in
      let lo : leb ctx.data_start p ≡ true = ground (arith, hp) in
      let hi : leb (p + length bs) (data_end ctx) ≡ true =
        ground (arith, hp, hl, size, length-append pre (old ++ post), length-append old post) in
      let kept : drop (length pre + length bs) (pre ++ (old ++ post)) ≡ post =
        drop_append_add (length pre) (length bs) (length pre + length bs) pre (old ++ post) refl
          refl
        ∙ drop_append (length bs) old post (sym hl) in
      rw (lo, hi, at_pre, e, take_append (length pre) pre (old ++ post) refl, kept)

pub from_be-be16 : (x : ℕ) → x < 65536 → from_be (le16 (be16 x)) ≡ x
unfolding from_be
from_be-be16 x h = omega arith
