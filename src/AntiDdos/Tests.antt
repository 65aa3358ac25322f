-- ===== src/AntiDdos/Tests.antt =====
-- The theorems on the proxy at concrete events.
use rust_samples.Prelude.{ℕ, ◌≤◌, List, [], ◌∷◌, arith}
use rust_samples.AntiDdos.{SocketAddr, IpStats}
use rust_samples.AntiDdos.Handlers.{
  Event, connect, read_ends, proxy_ends, sweep_registry, timed_out, received, copied, run, started,
}
use rust_samples.AntiDdos.Limits.{IsWithinLimits, run-IsWithinLimits}
use rust_samples.AntiDdos.Rates.{passed, passed_bound}

abbrev at_port : ℕ → SocketAddr
at_port port = record { ip = 203 ∷ 0 ∷ 113 ∷ 5 ∷ []; port = port }

abbrev events : List (ℕ × Event)
events =
    (1, connect (at_port 5000))
    ∷ (2, connect (at_port 5000))
    ∷ (3, read_ends 1 received)
    ∷ (4, read_ends 0 timed_out)
    ∷ (5, sweep_registry)
    ∷ (6, proxy_ends 0 copied)
    ∷ []

run-IsWithinLimits_example : IsWithinLimits (run events started)
run-IsWithinLimits_example = run-IsWithinLimits events

abbrev busy : IpStats
busy = record { connection_count = 20; rps_count = 49; last_request_time = 5 }

passed_bound_example : passed (6 ∷ 7 ∷ 8 ∷ []) busy ≤ 1
passed_bound_example =
    passed_bound (6 ∷ 7 ∷ 8 ∷ []) busy (omega arith, (omega arith, (omega arith, tt)))
