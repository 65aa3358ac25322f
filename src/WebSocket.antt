-- ===== src/WebSocket.antt =====
-- hl_websocket_server/src/main.rs: the messages, the state of a node and its tasks. Postcard, the
-- sockets and Redis are parameters: their answers come with the events.
pub mod Tasks
pub mod Deliver
pub mod Registry
pub mod Steps
pub mod Reachable
pub mod Moves
pub mod Stream
pub mod Entries
pub mod Leak
pub mod Broadcast
mod Tests
use rust_samples.Prelude.{ℕ, List, Option, Bool}

pub data ClientMessage : Type 0 where
  ping : ClientMessage
  auth : (user_id : ℕ) → (token : List ℕ) → ClientMessage
  broadcast : (text : List ℕ) → ClientMessage

pub data ServerMessage : Type 0 where
  pong : ServerMessage
  welcome : (session_id : ℕ) → ServerMessage
  notification : (from_user : ℕ) → (text : List ℕ) → ServerMessage
  error : (code : ℕ) → (msg : List ℕ) → ServerMessage

-- The crate postcard.
pub record Postcard : Type 0 where
  pub to_allocvec : ServerMessage → Option (List ℕ)
  pub client_from_bytes : List ℕ → Option ClientMessage
  pub server_from_bytes : List ℕ → Option ServerMessage

-- How far the task of a session is: not accepted yet, before the end of the handshake, before the
-- end of the send of the welcome message, in the read loop, or returned.
pub data Phase : Type 0 where
  unborn shaking greeting reading returned : Phase

-- The task of a session: `receiving` says that the receiver of its channel exists, `writing` that
-- its write task is in its loop; `queue` is in the channel and `sent` has gone to the socket.
pub record Session : Type 0 where
  pub phase : Phase
  pub receiving : Bool
  pub writing : Bool
  pub queue : List ServerMessage
  pub sent : List ServerMessage

-- A sender is the number of the session whose channel it feeds.
abbrev pub ClientSender : Type 0
ClientSender = ℕ

-- A node: `session_counter` of the accept loop, `connections` of the shared state, the sessions by
-- number, and what the node has published.
pub record Node : Type 0 where
  pub session_counter : ℕ
  pub connections : List (ℕ × ClientSender)
  pub sessions : ℕ → Session
  pub published : List (List ℕ)

-- What the read loop gets from the socket in its 45 seconds.
pub data Incoming : Type 0 where
  binary : (bytes : List ℕ) → Incoming
  pong_frame close_frame other_frame broken timed_out : Incoming

-- What wakes a task. A Boolean is the answer of the call that the task waits for: the handshake,
-- the send to the socket or, for a frame, Redis.
pub data Event : Type 0 where
  accepted : Event
  handshake : (session_id : ℕ) → Bool → Event
  welcomed : (session_id : ℕ) → Bool → Event
  receives_message : (session_id : ℕ) → Bool → Event
  heartbeat : (session_id : ℕ) → Bool → Event
  sink_closed : (session_id : ℕ) → Event
  incoming : (session_id : ℕ) → Incoming → Bool → Event
  bus_message : (payload : List ℕ) → Event
