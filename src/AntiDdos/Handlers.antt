-- ===== src/AntiDdos/Handlers.antt =====
-- anti_ddos/src/main.rs: `handle_client` as tasks that run interleaved. A task is at one of its two
-- waits: for the first bytes of the client, or for the upstream server.
use rust_samples.Prelude.{ℕ, zero, suc, List, [], ◌∷◌, Option, none, some, get_elem?, if◌then◌else◌}
use rust_samples.AntiDdos.{
  SocketAddr, max_global_connections, AntiDdosShield, global_limit, too_many_connections, admitted,
  admit, leave, rate_limit, sweep,
}

pub data Phase : Type 0 where
  reading proxying : Phase

pub record Task : Type 0 where
  pub client : SocketAddr
  pub phase : Phase

-- What `handle_client` returns: `Ok(())`, or its errors.
pub data Reply : Type 0 where
  served global_flood connection_flood slow_read rps_exceeded upstream_unavailable io_error : Reply

-- How the read of the client's first bytes ends: `timeout`, an error, no bytes, or some.
pub data ReadOutcome : Type 0 where
  timed_out failed closed received : ReadOutcome

-- How the rest ends: the connection to the upstream server times out, something fails, or one
-- direction is copied to its end.
pub data ProxyOutcome : Type 0 where
  unavailable broken copied : ProxyOutcome

-- An event, with the place of its task; the sweep of the registry is one, too.
pub data Event : Type 0 where
  connect : SocketAddr → Event
  read_ends : ℕ → ReadOutcome → Event
  proxy_ends : ℕ → ProxyOutcome → Event
  sweep_registry : Event

pub record Proxy : Type 0 where
  pub shield : AntiDdosShield
  pub tasks : List Task

abbrev pub remove_at {ℓ} : {A : Type ℓ} → ℕ → List A → List A
remove_at i [] = []
remove_at zero (x ∷ xs) = xs
remove_at (suc i) (x ∷ xs) = x ∷ remove_at i xs

abbrev pub set_at {ℓ} : {A : Type ℓ} → ℕ → A → List A → List A
set_at i y [] = []
set_at zero y (x ∷ xs) = y ∷ xs
set_at (suc i) y (x ∷ xs) = x ∷ set_at i y xs

-- The task returns: its guard and its permit are dropped.
unfoldable pub finish : ℕ → Task → Proxy → Proxy
finish i task p = record { shield = leave task.client p.shield; tasks = remove_at i p.tasks }

unfoldable pub on_connect : ℕ → SocketAddr → Proxy → Proxy × Option Reply
on_connect now ip p =
    let entered = admit now ip p.shield in
    elim entered.1 [
      | global_limit ↦ (record p { shield = entered.0 }, some global_flood)
      | too_many_connections ↦ (record p { shield = entered.0 }, some connection_flood)
      | admitted ↦ (
        record { shield = entered.0; tasks = record { client = ip; phase = reading } ∷ p.tasks },
        none,
      )
    ]

-- The first bytes have come: the rate limit, and then the upstream server.
unfoldable pub on_received : ℕ → ℕ → Task → Proxy → Proxy × Option Reply
unfolding finish
on_received now i task p =
    let limited = rate_limit now task.client p.shield in
    let counted : Proxy = record p { shield = limited.0 } in
    if limited.1
    then (record counted { tasks = set_at i (record task { phase = proxying }) p.tasks }, none)
    else (finish i task counted, some rps_exceeded)

unfoldable pub on_read : ℕ → ℕ → Task → ReadOutcome → Proxy → Proxy × Option Reply
unfolding finish on_received
on_read now i task timed_out p = (finish i task p, some slow_read)
on_read now i task failed p = (finish i task p, some io_error)
on_read now i task closed p = (finish i task p, some served)
on_read now i task received p = on_received now i task p

abbrev pub proxy_reply : ProxyOutcome → Reply
proxy_reply unavailable = upstream_unavailable
proxy_reply broken = io_error
proxy_reply copied = served

-- An event that is not one of the task's wait changes nothing.
abbrev pub read_event : ℕ → ℕ → ReadOutcome → Task → Phase → Proxy → Proxy × Option Reply
read_event now i outcome task reading p = on_read now i task outcome p
read_event now i outcome task proxying p = (p, none)

abbrev pub proxy_event : ℕ → ProxyOutcome → Task → Phase → Proxy → Proxy × Option Reply
proxy_event i outcome task reading p = (p, none)
proxy_event i outcome task proxying p = (finish i task p, some (proxy_reply outcome))

unfoldable pub step : ℕ → Event → Proxy → Proxy × Option Reply
unfolding on_connect on_read finish
step now (connect ip) p = on_connect now ip p
step now (read_ends i outcome) p = elim (get_elem? p.tasks i) [
  | none ↦ (p, none)
  | some task ↦ read_event now i outcome task task.phase p
]
step now (proxy_ends i outcome) p = elim (get_elem? p.tasks i) [
  | none ↦ (p, none)
  | some task ↦ proxy_event i outcome task task.phase p
]
step now sweep_registry p = (record p { shield = sweep now p.shield }, none)

-- The events in turn, each with its time.
unfoldable pub run : List (ℕ × Event) → Proxy → Proxy
unfolding step
run [] p = p
run ((now, event) ∷ events) p = run events (step now event p).0

-- `main` starts with no entry and all permits.
abbrev pub started : Proxy
started = record {
  shield = record { ip_registry = λ ip. none; global_connections = max_global_connections };
  tasks = [];
}
