-- ===== src/AntiDdos/Rates.antt =====
-- anti_ddos/src/main.rs: the rate limit, and connections from many ports.
use rust_samples.Prelude.{
  ℕ, zero, suc, length, ◌==◌, refl, false, list_eq_iff, ◌∙◌, ap, ◌+◌, ◌-◌, ◌≤◌, ◌<◌, ◌≡◌, List, [],
  ◌∷◌, none, arith, All, if◌then◌else◌,
}
use rust_samples.AntiDdos.{
  SocketAddr, IpStats, AntiDdosShield, set_entry, admitted, admit, count_request,
}
use rust_samples.AntiDdos.Handlers.{Event, connect, Proxy, reading, run, step, on_connect, started}

-- How many of the requests of an address, at the given times, pass the rate limit.
abbrev pub passed : List ℕ → IpStats → ℕ
passed [] stats = 0
passed (now ∷ times) stats =
    let counted = count_request now stats in
    if counted.1 then suc (passed times counted.0) else passed times counted.0

-- Of the requests of an address within a second after the start of its window, at most 50 in all
-- pass, those that are counted already included.
pub passed_bound :
    (times : List ℕ) (stats : IpStats)
    → All (λ now. now ≤ stats.last_request_time + 1000000000) times
    → passed times stats ≤ 50 - stats.rps_count
unfolding count_request
passed_bound [] stats h = omega arith
passed_bound (now ∷ times) stats h =
    let more = passed_bound times (record stats { rps_count = stats.rps_count + 1 }) h.1 in
    ground arith

-- A connection from each port below a number, the last one first.
abbrev pub flood : List ℕ → ℕ → List (ℕ × Event)
flood ip zero = []
flood ip (suc port) = (0, connect (record { ip = ip; port = port })) ∷ flood ip port

admit_fresh :
    (client : SocketAddr) (shield : AntiDdosShield)
    → shield.ip_registry client ≡ none
    → 0 < shield.global_connections
    → admit 0 client shield ≡ (
      record {
        ip_registry =
            set_entry client
              (record { connection_count = 1; rps_count = 0; last_request_time = 0 })
              shield.ip_registry;
        global_connections = shield.global_connections - 1;
      },
      admitted,
    )
unfolding admit
admit_fresh client shield e permit =
    let some_left : (shield.global_connections == 0) ≡ false = ground arith in
    rw (some_left, admit) (rw e refl)

abbrev entered : SocketAddr → Proxy → Proxy
entered client p = record {
  shield = record {
    ip_registry =
        set_entry client (record { connection_count = 1; rps_count = 0; last_request_time = 0 })
          p.shield.ip_registry;
    global_connections = p.shield.global_connections - 1;
  };
  tasks = record { client = client; phase = reading } ∷ p.tasks;
}

connect_fresh :
    (client : SocketAddr) (p : Proxy)
    → p.shield.ip_registry client ≡ none
    → 0 < p.shield.global_connections
    → (step 0 (connect client) p).0 ≡ entered client p
unfolding step on_connect
connect_fresh client p e permit =
    let enters = admit_fresh client p.shield e permit in
    rw (enters, on_connect)
      (ap
        (λ r. record {
          shield = r.0;
          tasks = record { client = client; phase = reading } ∷ p.tasks;
        })
        enters)

flood_from :
    (ip : List ℕ) (n : ℕ) (p : Proxy)
    → ((port : ℕ) → port < n → p.shield.ip_registry (record { ip = ip; port = port }) ≡ none)
    → n ≤ p.shield.global_connections
    → length (run (flood ip n) p).tasks ≡ n + length p.tasks
unfolding run
flood_from ip zero p fresh room = omega arith
flood_from ip (suc n) p fresh room =
    let client : SocketAddr = record { ip = ip; port = n } in
    let more =
      flood_from ip n (entered client p) (λ port l. other_port port l (fresh port (omega arith)))
        (omega arith) in
    ap (λ z. length (run (flood ip n) z).tasks)
      (connect_fresh client p (fresh n (omega arith)) (omega arith))
    ∙ omega (arith, more)
  where
    other_port :
        (port : ℕ)
        → port < n
        → p.shield.ip_registry (record { ip = ip; port = port }) ≡ none
        → set_entry
            (record { ip = ip; port = n })
            (record { connection_count = 1; rps_count = 0; last_request_time = 0 })
            p.shield.ip_registry
            (record { ip = ip; port = port })
          ≡ none
    other_port port l e =
        let differs : (port == n) ≡ false = ground arith in
        rw ((list_eq_iff ip ip).1 refl, differs) e

-- The limit of 20 connections is not one for an IP address: from one address, with as many ports
-- as there are permits, every connection gets a handler.
pub flood_admitted : (ip : List ℕ) (n : ℕ) → n ≤ 10000 → length (run (flood ip n) started).tasks ≡ n
flood_admitted ip n room = omega (arith, flood_from ip n started (λ port l. refl) room)
