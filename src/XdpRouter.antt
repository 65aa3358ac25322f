-- ===== src/XdpRouter.antt =====
-- xdp_router/xdp_router_common/src/lib.rs: the keys and values of the map ROUTES.
pub mod Packet
pub mod Forwarding
pub mod Wire
pub mod Delivery
pub mod Control
pub mod Routes
pub mod Mac
mod Tests
use rust_samples.Prelude.{
  ℕ, ◌≡◌, ◌↔◌, Bool, true, ◌&&◌, List, arith, ◌==◌, ==_iff, list_eq, list_eq_iff, Key, replicate,
}

pub record RouteKey : Type 0 where
  pub ip_type : ℕ
  pub ip_v4 : List ℕ
  pub ip_v6 : List ℕ
  pub vlan_id : ℕ

pub record RouteValue : Type 0 where
  pub src_mac : List ℕ
  pub dst_mac : List ℕ
  pub if_index : ℕ
  pub vlan_id : ℕ

abbrev pub route_key_eq : RouteKey → RouteKey → Bool
route_key_eq a b =
    a.ip_type == b.ip_type
    && list_eq a.ip_v4 b.ip_v4
    && list_eq a.ip_v6 b.ip_v6
    && a.vlan_id == b.vlan_id

pub route_key_eq_iff : (a b : RouteKey) → (route_key_eq a b ≡ true) ↔ (a ≡ b)
route_key_eq_iff a b = ground (arith, list_eq_iff a.ip_v4 b.ip_v4, list_eq_iff a.ip_v6 b.ip_v6)

instance abbrev pub route_key : Key RouteKey
route_key = record { beq = route_key_eq; beq_iff = route_key_eq_iff }

-- `[0; 4]` and `[0; 16]` of the literals of both programs.
abbrev pub zeros4 : List ℕ
zeros4 = replicate 4 0

abbrev pub zeros16 : List ℕ
zeros16 = replicate 16 0
