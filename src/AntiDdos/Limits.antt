-- ===== src/AntiDdos/Limits.antt =====
-- anti_ddos/src/main.rs: the limits on connections, under interleaved handlers.
use rust_samples.Prelude.{
  ℕ, suc, ◌+◌, ◌-◌, ◌≤◌, ◌<◌, ◌≡◌, refl, sym, ◌∙◌, List, [], ◌∷◌, some, arith, get_elem?, length,
  Bool-cases, Option-cases, inl, inr, leb, ◌==◌,
}
use rust_samples.AntiDdos.{
  SocketAddr, IpStats, addr_eq, set_entry, or_insert, admit, leave, count_request, rate_limit,
  is_retained, keep_if, sweep,
}
use rust_samples.AntiDdos.Handlers.{
  Phase, reading, proxying, Task, ReadOutcome, timed_out, failed, closed, received, ProxyOutcome,
  Event, connect, read_ends, proxy_ends, sweep_registry, Proxy, remove_at, finish, on_connect,
  on_received, on_read, step, run, started, read_event, proxy_event,
}
use rust_samples.AntiDdos.Counts.{
  connections, handlers, set_entry_same, set_entry_more, or_insert_count, handlers-remove_at,
  length-remove_at, handlers-set_at, length-set_at, addr_eq_refl, cleanup_lem, rate_limit_count,
  keep_if_count,
}

-- Each handler holds a permit and is counted for its address, and no address has more than the
-- limit.
pub record IsWithinLimits (p : Proxy) : Type 0 where
  pub permits : p.shield.global_connections + length p.tasks ≡ 10000
  pub counted : (a : SocketAddr) → connections (p.shield.ip_registry a) ≡ handlers a p.tasks
  pub limited : (a : SocketAddr) → connections (p.shield.ip_registry a) ≤ 20

-- A change of the entry of one address that leaves its count alone.
within-same :
    (a : SocketAddr) (stats : IpStats) (p : Proxy)
    → stats.connection_count ≡ connections (p.shield.ip_registry a)
    → IsWithinLimits p
    → IsWithinLimits (record p {
      shield = record p.shield { ip_registry = set_entry a stats p.shield.ip_registry };
    })
within-same a stats p e h =
    let same : (b : SocketAddr)
        → connections (set_entry a stats p.shield.ip_registry b)
          ≡ connections (p.shield.ip_registry b) =
      λ b. set_entry_same a b stats p.shield.ip_registry e in
    record {
      permits = h.permits;
      counted = λ b. same b ∙ h.counted b;
      limited = λ b. omega (arith, same b, h.limited b);
    }

-- A new handler.
within-more :
    (a : SocketAddr) (stats : IpStats) (p : Proxy)
    → stats.connection_count ≡ suc (connections (p.shield.ip_registry a))
    → connections (p.shield.ip_registry a) < 20
    → 0 < p.shield.global_connections
    → IsWithinLimits p
    → IsWithinLimits (record {
      shield = record {
        ip_registry = set_entry a stats p.shield.ip_registry;
        global_connections = p.shield.global_connections - 1;
      };
      tasks = record { client = a; phase = reading } ∷ p.tasks;
    })
within-more a stats p e room permit h = record {
  permits = omega (arith, h.permits);
  counted = λ b. omega (arith, set_entry_more a b stats p.shield.ip_registry e, h.counted b);
  limited = λ b. each b;
}
  where
    each : (b : SocketAddr) → connections (set_entry a stats p.shield.ip_registry b) ≤ 20
    each b = elim (Bool-cases (addr_eq b a)) [
      | inl same ↦ rw same (omega arith)
      | inr other ↦ rw other (h.limited b)
    ]

connect-within :
    (now : ℕ) (ip : SocketAddr) (p : Proxy)
    → IsWithinLimits p
    → IsWithinLimits (on_connect now ip p).0
unfolding on_connect admit
connect-within now ip p h =
    let fresh : IpStats = record { connection_count = 0; rps_count = 0; last_request_time = now } in
    let entry = or_insert (p.shield.ip_registry ip) fresh in
    let count : entry.connection_count ≡ connections (p.shield.ip_registry ip) =
      or_insert_count (p.shield.ip_registry ip) now in
    elim (Bool-cases (p.shield.global_connections == 0)) [
      | inl flooded ↦ rw (flooded, on_connect) (rw (flooded, admit) h)
      | inr free ↦ elim (Bool-cases (leb 20 entry.connection_count)) [
        | inl full ↦
            rw (free, full, on_connect) (rw (free, full, admit) (within-same ip entry p count h))
        | inr room ↦
            rw (free, room, on_connect)
              (rw (free, room, admit)
                (within-more ip (record entry { connection_count = entry.connection_count + 1 }) p
                  (omega (arith, count)) (ground arith) (ground arith) h))
      ]
    ]

-- A handler that returns gives back its permit and its count.
finish-within :
    (i : ℕ) (t : Task) (p : Proxy)
    → get_elem? p.tasks i ≡ some t
    → IsWithinLimits p
    → IsWithinLimits (finish i t p)
unfolding finish leave
finish-within i t p e h =
    let own : handlers t.client p.tasks ≡ 1 + handlers t.client (remove_at i p.tasks) =
      rw (addr_eq_refl t.client) at (handlers-remove_at t.client i p.tasks t e) in
    let (permits, counts) =
      cleanup_lem t.client p.shield (omega (arith, own, h.counted t.client)) in
    record {
      permits = omega (arith, permits, h.permits, length-remove_at i p.tasks t e);
      counted = λ b. omega (arith, counts b, h.counted b, handlers-remove_at b i p.tasks t e);
      limited = λ b. omega (arith, counts b, h.limited b);
    }

received-within :
    (now i : ℕ) (t : Task) (p : Proxy)
    → get_elem? p.tasks i ≡ some t
    → IsWithinLimits p
    → IsWithinLimits (on_received now i t p).0
unfolding on_received rate_limit
received-within now i t p e h =
    let o = p.shield.ip_registry t.client in
    let own : handlers t.client p.tasks ≡ 1 + handlers t.client (remove_at i p.tasks) =
      rw (addr_eq_refl t.client) at (handlers-remove_at t.client i p.tasks t e) in
    let entry =
      or_insert o (record { connection_count = 1; rps_count = 0; last_request_time = now }) in
    let counted = count_request now entry in
    let same = rate_limit_count now o (omega (arith, own, h.counted t.client)) in
    let limited = within-same t.client counted.0 p same h in
    elim (Bool-cases counted.1) [
      | inl passes ↦
          rw (passes, on_received)
            (record {
              permits =
                  omega (
                    arith,
                    limited.permits,
                    length-set_at i (record t { phase = proxying }) p.tasks,
                  );
              counted = λ b.
                  limited.counted b
                  ∙ sym (handlers-set_at b i p.tasks t (record t { phase = proxying }) e refl);
              limited = limited.limited;
            })
      | inr exceeded ↦ rw (exceeded, on_received) (finish-within i t _ e limited)
    ]

read-within :
    (now i : ℕ) (t : Task) (outcome : ReadOutcome) (p : Proxy)
    → get_elem? p.tasks i ≡ some t
    → IsWithinLimits p
    → IsWithinLimits (on_read now i t outcome p).0
unfolding on_read
read-within now i t timed_out p e h = finish-within i t p e h
read-within now i t failed p e h = finish-within i t p e h
read-within now i t closed p e h = finish-within i t p e h
read-within now i t received p e h = received-within now i t p e h

read_event-within :
    (now i : ℕ) (t : Task) (outcome : ReadOutcome) (phase : Phase) (p : Proxy)
    → get_elem? p.tasks i ≡ some t
    → IsWithinLimits p
    → IsWithinLimits (read_event now i outcome t phase p).0
read_event-within now i t outcome reading p e h = read-within now i t outcome p e h
read_event-within now i t outcome proxying p e h = h

proxy_event-within :
    (i : ℕ) (t : Task) (outcome : ProxyOutcome) (phase : Phase) (p : Proxy)
    → get_elem? p.tasks i ≡ some t
    → IsWithinLimits p
    → IsWithinLimits (proxy_event i outcome t phase p).0
proxy_event-within i t outcome reading p e h = h
proxy_event-within i t outcome proxying p e h = finish-within i t p e h

sweep-within :
    (now : ℕ) (p : Proxy)
    → IsWithinLimits p
    → IsWithinLimits (record p { shield = sweep now p.shield })
unfolding sweep
sweep-within now p h =
    let same : (a : SocketAddr)
        → connections (keep_if (is_retained now) (p.shield.ip_registry a))
          ≡ connections (p.shield.ip_registry a) =
      λ a. keep_if_count now (p.shield.ip_registry a) in
    record {
      permits = h.permits;
      counted = λ a. same a ∙ h.counted a;
      limited = λ a. omega (arith, same a, h.limited a);
    }

-- Every event keeps the limits.
step-IsWithinLimits :
    (now : ℕ) (event : Event) (p : Proxy) → IsWithinLimits p → IsWithinLimits (step now event p).0
unfolding step
step-IsWithinLimits now (connect ip) p h = connect-within now ip p h
step-IsWithinLimits now (read_ends i outcome) p h = elim (Option-cases (get_elem? p.tasks i)) [
  | inl e ↦ rw (e, step) h
  | inr (t, e) ↦ rw (e, step) (read_event-within now i t outcome t.phase p e h)
]
step-IsWithinLimits now (proxy_ends i outcome) p h = elim (Option-cases (get_elem? p.tasks i)) [
  | inl e ↦ rw (e, step) h
  | inr (t, e) ↦ rw (e, step) (proxy_event-within i t outcome t.phase p e h)
]
step-IsWithinLimits now sweep_registry p h = sweep-within now p h

started-IsWithinLimits : IsWithinLimits started
started-IsWithinLimits = record { permits = refl; counted = λ a. refl; limited = λ a. omega arith }

run-within :
    (events : List (ℕ × Event)) (p : Proxy) → IsWithinLimits p → IsWithinLimits (run events p)
unfolding run
run-within [] p h = h
run-within ((now, event) ∷ events) p h =
    run-within events (step now event p).0 (step-IsWithinLimits now event p h)

-- From the start and through any interleaving of connections, handlers and sweeps, each running
-- handler holds one of the 10000 permits, the registry's count of an address is the number of its
-- handlers, and no address has more than 20.
pub run-IsWithinLimits : (events : List (ℕ × Event)) → IsWithinLimits (run events started)
run-IsWithinLimits events = run-within events started started-IsWithinLimits
