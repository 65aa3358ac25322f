-- ===== src/Tunnel.antt =====
-- rs_ngrok/src/main.rs: the server and the client of a tunnel, and the network between them. Tokio
-- and the system are parameters: what they answer comes with the events.
pub mod Machine
pub mod Pairing
pub mod Counting
pub mod Served
pub mod Starved
mod Tests
use rust_samples.Prelude.{ℕ, List, Option, Bool}

-- Who is at the other end of a connection to the control port: the client's first connection, the
-- data connection of one of its tasks, or anybody else.
pub data Peer : Type 0 where
  control_stream : Peer
  data_stream : (task : ℕ) → Peer
  stranger : (name : ℕ) → Peer

-- Where `run_server` waits.
pub data Server : Type 0 where
  awaits_client : Server
  awaits_visitor : Server
  awaits_data : (visitor : ℕ) → Server
  stopped : Server

-- The server with the peer whose stream it writes to; the queues of its two ports; the bytes that
-- are on their way to that peer; the client's tasks before the connect to the server, before that
-- to the local service, and joined to it; the number
-- of its next task, and whether the client still runs; and the pairs that the
-- server copies between.
pub record Tunnel : Type 0 where
  pub server : Server
  pub control : Option Peer
  pub control_port : List Peer
  pub public_port : List ℕ
  pub triggers : ℕ
  pub connecting : List ℕ
  pub bridging : List ℕ
  pub bridged : List ℕ
  pub next_task : ℕ
  pub client_runs : Bool
  pub pairs : List (ℕ × Peer)

-- A Boolean says whether the call succeeds.
pub data Event : Type 0 where
  client_connects : Event
  stranger_connects : (name : ℕ) → Event
  visitor_connects : (visitor : ℕ) → Event
  accepts_control : Event
  accepts_visitor : (write_ok : Bool) → Event
  accepts_data : Event
  reads_trigger : Event
  connects_to_server : (task : ℕ) → (ok : Bool) → Event
  connects_to_local : (task : ℕ) → (ok : Bool) → Event
  accept_fails : Event
  client_stops : Event
