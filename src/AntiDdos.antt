-- ===== src/AntiDdos.antt =====
-- anti_ddos/src/main.rs: the limits of the proxy. A time is in nanoseconds; the registry is a map
-- from the address and port of a client.
pub mod Handlers
pub mod Counts
pub mod Limits
pub mod Rates
mod Tests
use rust_samples.Prelude.{
  ℕ, zero, suc, ◌+◌, ◌-◌, ◌*◌, ◌^◌, ◌≡◌, ◌↔◌, ap, List, Option, none, some, Bool, true, false, not,
  ◌&&◌, ◌||◌, ◌==◌, ==_iff, ltb, leb, if◌then◌else◌, list_eq, list_eq_iff, arith, Bool-cases, inl,
  inr,
}

-- `MAX_GLOBAL_CONNECTIONS`, `MAX_CONN_PER_IP`, `BURST_WINDOW`, `MAX_RPS_PER_IP`, and the age of
-- the entries that are swept.
abbrev pub max_global_connections : ℕ
max_global_connections = 10000

abbrev pub max_conn_per_ip : ℕ
max_conn_per_ip = 20

abbrev pub burst_window : ℕ
burst_window = 1000000000

abbrev pub max_rps_per_ip : ℕ
max_rps_per_ip = 50

abbrev pub stale_after : ℕ
stale_after = 60000000000

pub record SocketAddr : Type 0 where
  pub ip : List ℕ
  pub port : ℕ

abbrev pub addr_eq : SocketAddr → SocketAddr → Bool
addr_eq a b = list_eq a.ip b.ip && a.port == b.port

pub record IpStats : Type 0 where
  pub connection_count : ℕ
  pub rps_count : ℕ
  pub last_request_time : ℕ

-- `DashMap` and `Semaphore`.
pub record AntiDdosShield : Type 0 where
  pub ip_registry : SocketAddr → Option IpStats
  pub global_connections : ℕ

abbrev pub set_entry :
    SocketAddr → IpStats → (SocketAddr → Option IpStats) → SocketAddr → Option IpStats
set_entry a stats registry b = if addr_eq b a then some stats else registry b

-- `entry(ip).or_insert(..)`.
abbrev pub or_insert : Option IpStats → IpStats → IpStats
or_insert none fresh = fresh
or_insert (some stats) fresh = stats

pub data Admission : Type 0 where
  global_limit too_many_connections admitted : Admission

-- The start of `handle_client`. On an error the permit is given back as the function returns.
unfoldable pub admit : ℕ → SocketAddr → AntiDdosShield → AntiDdosShield × Admission
admit now ip shield =
    let entry =
      or_insert (shield.ip_registry ip)
        (record { connection_count = 0; rps_count = 0; last_request_time = now }) in
    if shield.global_connections == 0
    then (shield, global_limit)
    else if leb max_conn_per_ip entry.connection_count
    then (
      record shield { ip_registry = set_entry ip entry shield.ip_registry },
      too_many_connections,
    )
    else (
      record {
        ip_registry =
            set_entry ip (record entry { connection_count = entry.connection_count + 1 })
              shield.ip_registry;
        global_connections = shield.global_connections - 1;
      },
      admitted,
    )

-- The guard that is dropped when an admitted client's handler returns, and the permit's drop.
unfoldable pub cleanup : SocketAddr → AntiDdosShield → AntiDdosShield
cleanup ip shield = elim (shield.ip_registry ip) [
  | none ↦ shield
  | some entry ↦
      if ltb 0 entry.connection_count
      then record shield {
        ip_registry =
            set_entry ip (record entry { connection_count = entry.connection_count - 1 })
              shield.ip_registry;
      }
      else shield
]

unfoldable pub leave : SocketAddr → AntiDdosShield → AntiDdosShield
unfolding cleanup
leave ip shield =
    let cleaned = cleanup ip shield in
    record cleaned { global_connections = cleaned.global_connections + 1 }

-- One request under the rate limit: the entry's new counters, and whether the request passes.
unfoldable pub count_request : ℕ → IpStats → IpStats × Bool
count_request now entry =
    if ltb burst_window (now - entry.last_request_time)
    then (record entry { rps_count = 1; last_request_time = now }, true)
    else (
      record entry { rps_count = entry.rps_count + 1 },
      not (ltb max_rps_per_ip (entry.rps_count + 1)),
    )

unfoldable pub rate_limit : ℕ → SocketAddr → AntiDdosShield → AntiDdosShield × Bool
unfolding count_request
rate_limit now ip shield =
    let entry =
      or_insert (shield.ip_registry ip)
        (record { connection_count = 1; rps_count = 0; last_request_time = now }) in
    let counted = count_request now entry in
    (record shield { ip_registry = set_entry ip counted.0 shield.ip_registry }, counted.1)

-- What the task that runs every 30 seconds retains.
unfoldable pub is_retained : ℕ → IpStats → Bool
is_retained now stats =
    ltb (now - stats.last_request_time) stale_after || ltb 0 stats.connection_count

abbrev pub keep_if : (IpStats → Bool) → Option IpStats → Option IpStats
keep_if p none = none
keep_if p (some stats) = if p stats then some stats else none

unfoldable pub sweep : ℕ → AntiDdosShield → AntiDdosShield
unfolding is_retained
sweep now shield = record shield {
  ip_registry = λ ip. keep_if (is_retained now) (shield.ip_registry ip);
}

-- Two addresses are the same exactly when both the address and the port are.
pub addr_eq_iff : (a b : SocketAddr) → (addr_eq a b ≡ true) ↔ (a ≡ b)
addr_eq_iff a b = ground (arith, list_eq_iff a.ip b.ip)
