-- ===== src/Xdp.antt =====
-- What the XDP programs (xdp_router_ebpf, xdp_firewall_ebpf) share: the packet between `data` and
-- `data_end`, loads from it, and the byte order of the wire. The kernel's XDP ABI is a parameter.
pub mod Reads
use rust_samples.Prelude.{
  ℕ, ◌+◌, ◌-◌, ◌*◌, ◌/◌, ◌%◌, ◌≡◌, ◌≢◌, List, [], ◌∷◌, ◌++◌, length, take, drop, ltb, ◌&&◌, leb,
  if◌then◌else◌,
}

-- The action codes and the redirect helper, which the kernel gives.
pub record XdpAbi : Type 0 where
  pub xdp_pass : ℕ
  pub xdp_drop : ℕ
  pub redirect : ℕ → ℕ → ℕ
  pub pass-ne-drop : xdp_pass ≢ xdp_drop

-- A packet: its bytes stand at the addresses from `data` on.
pub record XdpContext : Type 0 where
  pub data_start : ℕ
  pub frame : List ℕ

abbrev pub data_end : XdpContext → ℕ
data_end ctx = ctx.data_start + length ctx.frame

-- `err` is the programs' `Err(())`; `fault` is a load or store outside the packet.
pub data Access {ℓ} (A : Type ℓ) : Type ℓ where
  ok : A → Access A
  err : Access A
  fault : Access A

infixl 5 ◌>>=◌
abbrev pub ◌>>=◌ {ℓ κ} : {A : Type ℓ} {B : Type κ} → Access A → (A → Access B) → Access B
ok a >>= f = f a
err >>= f = err
fault >>= f = fault

-- `ptr_at::<T>(ctx, offset)` for a type of `len` bytes.
unfoldable pub ptr_at : XdpContext → ℕ → ℕ → Access ℕ
ptr_at ctx offset len =
    if ltb (data_end ctx) (ctx.data_start + offset + len) then err else ok (ctx.data_start + offset)

-- The bytes at an address.
unfoldable pub load : XdpContext → ℕ → ℕ → Access (List ℕ)
load ctx p n =
    if leb ctx.data_start p && leb (p + n) (data_end ctx)
    then ok (take n (drop (p - ctx.data_start) ctx.frame))
    else fault

-- A little-endian machine's load of two bytes, and `u16::from_be`.
abbrev pub le16 : List ℕ → ℕ
le16 [] = 0
le16 (a ∷ []) = a
le16 (a ∷ b ∷ r) = a + 256 * b

unfoldable pub from_be : ℕ → ℕ
from_be x = x % 256 * 256 + x / 256

unfoldable pub load_u16 : XdpContext → ℕ → Access ℕ
load_u16 ctx p = load ctx p 2 >>= λ bs. ok (le16 bs)

-- A packet's bytes with some of them replaced.
unfoldable pub store : XdpContext → ℕ → List ℕ → Access XdpContext
store ctx p bs =
    if leb ctx.data_start p && leb (p + length bs) (data_end ctx)
    then ok (record ctx {
      frame =
          take (p - ctx.data_start) ctx.frame
          ++ (bs ++ drop (p - ctx.data_start + length bs) ctx.frame);
    })
    else fault

-- A number of 16 bits as it stands on the wire.
abbrev pub be16 : ℕ → List ℕ
be16 x = x / 256 ∷ x % 256 ∷ []
