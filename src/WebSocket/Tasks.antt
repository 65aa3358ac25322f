-- ===== src/WebSocket/Tasks.antt =====
-- hl_websocket_server/src/main.rs: the accept loop, `handle_connection`, `process_message` and
-- `listen_global_broadcast`, each as the steps between its awaits.
use rust_samples.Prelude.{
  ℕ, ◌+◌, List, [], ◌∷◌, ◌++◌, none, some, Bool, true, false, not, ◌&&◌, ◌==◌, if◌then◌else◌,
  nat_key,
}
use rust_samples.Prelude.Maps.{lookup, insert, remove}
use rust_samples.WebSocket.{
  ClientMessage, ping, auth, broadcast, ServerMessage, pong, welcome, notification, error, Postcard,
  Phase, unborn, shaking, greeting, reading, returned, Session, ClientSender, Node, Incoming,
  binary, pong_frame, close_frame, other_frame, broken, timed_out, Event, accepted, handshake,
  welcomed, receives_message, heartbeat, sink_closed, incoming, bus_message,
}

abbrev pub no_session : Session
no_session = record { phase = unborn; receiving = false; writing = false; queue = []; sent = [] }

abbrev pub new_node : Node
new_node = record {
  session_counter = 0;
  connections = [];
  sessions = λ k. no_session;
  published = [];
}

abbrev pub at_session : ℕ → Session → (ℕ → Session) → ℕ → Session
at_session id session sessions k = if id == k then session else sessions k

-- `UnboundedSender::send`: it fails, which nobody looks at, once the receiver is dropped.
abbrev pub pushed : ServerMessage → Session → Session
pushed msg session =
    if session.receiving then record session { queue = session.queue ++ msg ∷ [] } else session

abbrev pub send : ClientSender → ServerMessage → (ℕ → Session) → ℕ → Session
send sender msg sessions = at_session sender (pushed msg (sessions sender)) sessions

-- The accept loop gives the new stream the next number and spawns its task.
abbrev pub accept : Node → Node
accept node =
    let id = node.session_counter + 1 in
    record node {
      session_counter = id;
      sessions = at_session id (record no_session { phase = shaking }) node.sessions;
    }

-- After `accept_async`: the channel is made and its sender registered, or the task returns.
abbrev pub shake : ℕ → Bool → Node → Node
shake id true node = record node {
  connections = insert id id node.connections;
  sessions =
      at_session id (record (node.sessions id) { phase = greeting; receiving = true })
        node.sessions;
}
shake id false node = record node {
  sessions = at_session id (record (node.sessions id) { phase = returned }) node.sessions;
}

-- The `?` on the welcome message returns from the task, and drops the receiver with it.
abbrev pub greet_failed : ℕ → Node → Node
greet_failed id node = record node {
  sessions =
      at_session id (record (node.sessions id) { phase = returned; receiving = false })
        node.sessions;
}

-- The welcome message is sent and the write task spawned.
abbrev pub greet : Postcard → ℕ → Bool → Node → Node
greet postcard id false node = greet_failed id node
greet postcard id true node = elim (postcard.to_allocvec (welcome id)) [
  | none ↦ greet_failed id node
  | some bytes ↦ record node {
    sessions =
        at_session id
          (record (node.sessions id) {
            phase = reading;
            writing = true;
            sent = (node.sessions id).sent ++ welcome id ∷ [];
          })
          node.sessions;
  }
]

-- The write task leaves its loop, and closes the socket.
abbrev pub stop_writing : ℕ → Node → Node
stop_writing id node = record node {
  sessions = at_session id (record (node.sessions id) { writing = false }) node.sessions;
}

-- The socket is closed: the sender is taken out of the registry, and the write task returns, which
-- drops the receiver.
abbrev pub end_writing : ℕ → Node → Node
end_writing id node = record node {
  connections = remove id node.connections;
  sessions =
      at_session id (record (node.sessions id) { writing = false; receiving = false })
        node.sessions;
}

abbrev pub write_message : Postcard → ℕ → Bool → List ServerMessage → Node → Node
write_message postcard id ok [] node = node
write_message postcard id ok (message ∷ queue) node =
    let session = node.sessions id in
    elim (postcard.to_allocvec message) [
      | none ↦ record node {
        sessions = at_session id (record session { queue = queue }) node.sessions;
      }
      | some bytes ↦
          if ok
          then record node {
            sessions =
                at_session id
                  (record session { queue = queue; sent = session.sent ++ message ∷ [] })
                  node.sessions;
          }
          else stop_writing id node
    ]

abbrev pub beat : ℕ → Bool → Node → Node
beat id ok node = if ok then node else stop_writing id node

abbrev pub publish : Bool → List ℕ → Node → Node
publish ok payload node =
    if ok then record node { published = node.published ++ payload ∷ [] } else node

unfoldable pub process_message : Postcard → ℕ → ClientMessage → Bool → Node → Node
process_message postcard sender_id ping redis node = elim (lookup sender_id node.connections) [
  | none ↦ node
  | some sender ↦ record node { sessions = send sender pong node.sessions }
]
process_message postcard sender_id (auth user_id token) redis node = node
process_message postcard sender_id (broadcast text) redis node =
    elim (postcard.to_allocvec (notification sender_id text)) [
      | none ↦ node
      | some payload ↦ publish redis payload node
    ]

-- The cleanup after the read loop.
abbrev pub leave : ℕ → Node → Node
leave id node = record node {
  connections = remove id node.connections;
  sessions =
      at_session id
        (record (node.sessions id) { phase = returned; writing = false; receiving = false })
        node.sessions;
}

-- One round of the read loop.
unfoldable pub read : Postcard → ℕ → Incoming → Bool → Node → Node
unfolding process_message
read postcard id (binary bytes) redis node = elim (postcard.client_from_bytes bytes) [
  | none ↦ node
  | some client_msg ↦ process_message postcard id client_msg redis node
]
read postcard id pong_frame redis node = node
read postcard id other_frame redis node = node
read postcard id close_frame redis node = leave id node
read postcard id broken redis node = leave id node
read postcard id timed_out redis node = leave id node

abbrev pub origin_sender : ServerMessage → ℕ
origin_sender pong = 0
origin_sender (welcome session_id) = 0
origin_sender (notification from_user text) = from_user
origin_sender (error code msg) = 0

-- The loop over the registry.
unfoldable pub deliver : ServerMessage → ℕ → List (ℕ × ClientSender) → (ℕ → Session) → ℕ → Session
deliver msg origin [] sessions = sessions
deliver msg origin ((key, sender) ∷ targets) sessions =
    deliver msg origin targets (if not (key == origin) then send sender msg sessions else sessions)

unfoldable pub on_message : Postcard → List ℕ → Node → Node
unfolding deliver
on_message postcard payload node = elim (postcard.server_from_bytes payload) [
  | none ↦ node
  | some server_msg ↦ record node {
    sessions = deliver server_msg (origin_sender server_msg) node.connections node.sessions;
  }
]

abbrev pub is_shaking : Phase → Bool
is_shaking shaking = true
is_shaking p = false

abbrev pub is_greeting : Phase → Bool
is_greeting greeting = true
is_greeting p = false

abbrev pub is_reading : Phase → Bool
is_reading reading = true
is_reading p = false

-- The write task waits for the socket to close: it is out of its loop, and was neither aborted nor
-- has it returned.
abbrev pub is_closing : Session → Bool
is_closing session = is_reading session.phase && (session.receiving && not session.writing)

-- An event that no task waits for changes nothing.
unfoldable pub step : Postcard → Event → Node → Node
unfolding read on_message
step postcard accepted node = accept node
step postcard (handshake id ok) node =
    if is_shaking (node.sessions id).phase then shake id ok node else node
step postcard (welcomed id ok) node =
    if is_greeting (node.sessions id).phase then greet postcard id ok node else node
step postcard (receives_message id ok) node =
    if (node.sessions id).writing
    then write_message postcard id ok (node.sessions id).queue node
    else node
step postcard (heartbeat id ok) node = if (node.sessions id).writing then beat id ok node else node
step postcard (sink_closed id) node =
    if is_closing (node.sessions id) then end_writing id node else node
step postcard (incoming id frame redis) node =
    if is_reading (node.sessions id).phase then read postcard id frame redis node else node
step postcard (bus_message payload) node = on_message postcard payload node

unfoldable pub run : Postcard → List Event → Node → Node
unfolding step
run postcard [] node = node
run postcard (event ∷ events) node = run postcard events (step postcard event node)
