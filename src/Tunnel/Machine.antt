-- ===== src/Tunnel/Machine.antt =====
-- rs_ngrok/src/main.rs: `run_server` and `run_client` between their awaits.
use rust_samples.Prelude.{
  ℕ, suc, ◌+◌, ◌==◌, if◌then◌else◌, List, [], ◌∷◌, ◌++◌, Option, none, some, Bool, true, false,
}
use rust_samples.Tunnel.{
  Peer, control_stream, data_stream, stranger, Server, awaits_client, awaits_visitor, awaits_data,
  stopped, Tunnel, Event, client_connects, stranger_connects, visitor_connects, accepts_control,
  accepts_visitor, accepts_data, reads_trigger, connects_to_server, connects_to_local, accept_fails,
  client_stops,
}

abbrev pub new_tunnel : Tunnel
new_tunnel = record {
  server = awaits_client;
  control = none;
  control_port = [];
  public_port = [];
  triggers = 0;
  connecting = [];
  bridging = [];
  bridged = [];
  next_task = 0;
  client_runs = false;
  pairs = [];
}

-- A connection to the control port waits in its queue.
abbrev pub dial : Peer → Tunnel → Tunnel
dial peer t = record t { control_port = t.control_port ++ peer ∷ [] }

-- `control_listener.accept()` before the loop.
unfoldable pub accept_control : Server → List Peer → Tunnel → Tunnel
accept_control awaits_client (peer ∷ queue) t = record t {
  server = awaits_visitor;
  control = some peer;
  control_port = queue;
}
accept_control server queue t = t

-- `public_listener.accept()`, and the byte to the client.
unfoldable pub accept_visitor : Server → List ℕ → Bool → Tunnel → Tunnel
accept_visitor awaits_visitor (visitor ∷ queue) true t = record t {
  server = awaits_data visitor;
  public_port = queue;
  triggers = t.triggers + 1;
}
accept_visitor awaits_visitor (visitor ∷ queue) false t = record t {
  server = stopped;
  public_port = queue;
}
accept_visitor server queue write_ok t = t

-- `control_listener.accept()` in the loop, and the task that copies.
unfoldable pub accept_data : Server → List Peer → Tunnel → Tunnel
accept_data (awaits_data visitor) (peer ∷ queue) t = record t {
  server = awaits_visitor;
  control_port = queue;
  pairs = t.pairs ++ (visitor, peer) ∷ [];
}
accept_data server queue t = t

-- The client reads a byte, and spawns a task.
unfoldable pub read_trigger : Option Peer → ℕ → Bool → Tunnel → Tunnel
read_trigger (some control_stream) (suc rest) true t = record t {
  triggers = rest;
  connecting = t.connecting ++ t.next_task ∷ [];
  next_task = t.next_task + 1;
}
read_trigger control triggers runs t = t

abbrev pub is_among : ℕ → List ℕ → Bool
is_among task [] = false
is_among task (other ∷ tasks) = if other == task then true else is_among task tasks

abbrev pub without : ℕ → List ℕ → List ℕ
without task [] = []
without task (other ∷ tasks) = if other == task then tasks else other ∷ without task tasks

-- A task of the client connects to the server, or returns.
unfoldable pub connect_to_server : ℕ → Bool → Tunnel → Tunnel
connect_to_server task true t = record (dial (data_stream task) t) {
  connecting = without task t.connecting;
  bridging = t.bridging ++ task ∷ [];
}
connect_to_server task false t = record t { connecting = without task t.connecting }

-- It connects to the local service and copies, or returns.
unfoldable pub connect_to_local : ℕ → Bool → Tunnel → Tunnel
connect_to_local task true t = record t {
  bridging = without task t.bridging;
  bridged = t.bridged ++ task ∷ [];
}
connect_to_local task false t = record t { bridging = without task t.bridging }

unfoldable pub step : Event → Tunnel → Tunnel
unfolding accept_control accept_visitor accept_data read_trigger connect_to_server connect_to_local
step client_connects t = record (dial control_stream t) { client_runs = true }
step (stranger_connects name) t = dial (stranger name) t
step (visitor_connects visitor) t = record t { public_port = t.public_port ++ visitor ∷ [] }
step accepts_control t = accept_control t.server t.control_port t
step (accepts_visitor write_ok) t = accept_visitor t.server t.public_port write_ok t
step accepts_data t = accept_data t.server t.control_port t
step reads_trigger t = read_trigger t.control t.triggers t.client_runs t
step (connects_to_server task ok) t =
    if is_among task t.connecting then connect_to_server task ok t else t
step (connects_to_local task ok) t =
    if is_among task t.bridging then connect_to_local task ok t else t
step accept_fails t = record t { server = stopped }
step client_stops t = record t { client_runs = false; connecting = []; bridging = [] }

unfoldable pub run : List Event → Tunnel → Tunnel
unfolding step
run [] t = t
run (event ∷ events) t = run events (step event t)
