-- ===== src/WebSocket/Reachable.antt =====
-- hl_websocket_server/src/main.rs: a node after any events.
use rust_samples.Prelude.{
  ℕ, ◌≡◌, refl, sym, subst, inl, inr, List, [], ◌∷◌, Bool, true, false, not, ◌&&◌, ◌==◌, nat_key,
  if◌then◌else◌, if_true, if_false, Bool-cases, Option-cases,
}
use rust_samples.WebSocket.{
  ServerMessage, Postcard, unborn, reading, Node, Event, Incoming, binary, pong_frame, close_frame,
  other_frame, broken, timed_out, accepted, handshake, welcomed, receives_message, heartbeat,
  sink_closed, incoming, bus_message,
}
use rust_samples.WebSocket.Tasks.{
  pushed, shake, greet, stop_writing, end_writing, is_closing, write_message, read, deliver,
  on_message, origin_sender, is_shaking, is_greeting, is_reading, step, run,
}
use rust_samples.WebSocket.Deliver.{is_connected, deliver_at}
use rust_samples.WebSocket.Registry.{
  IsPlaced, IsNode, placed_writing, pushed-IsPlaced, phase-pushed, phase_shaking, phase_greeting,
  phase_reading, phase_closing,
}
use rust_samples.WebSocket.Steps.{
  accept-IsNode, shake-IsNode, greet-IsNode, stop_writing-IsNode, end_writing-IsNode,
  write_message-IsNode, leave-IsNode, process_message-IsNode,
}

deliver-IsNode :
    (msg : ServerMessage) (origin : ℕ) (node : Node)
    → IsNode node
    → IsNode (record node { sessions = deliver msg origin node.connections node.sessions })
deliver-IsNode msg origin node n = record {
  registry = n.registry;
  placed = λ k.
      subst (IsPlaced k (is_connected k node.connections))
        (sym (deliver_at msg origin k node.connections node.sessions n.registry))
        (elim (Bool-cases (is_connected k node.connections && not (k == origin))) [
          | inl e ↦
              subst (IsPlaced k (is_connected k node.connections))
                (sym (if_true (pushed msg (node.sessions k)) (node.sessions k) e))
                (pushed-IsPlaced k (is_connected k node.connections) msg (node.sessions k)
                  (n.placed k))
          | inr e ↦
              subst (IsPlaced k (is_connected k node.connections))
                (sym (if_false (pushed msg (node.sessions k)) (node.sessions k) e)) (n.placed k)
        ]);
  unborn_after = λ k past.
      subst (λ s. s.phase ≡ unborn)
        (sym (deliver_at msg origin k node.connections node.sessions n.registry))
        (elim (Bool-cases (is_connected k node.connections && not (k == origin))) [
          | inl e ↦ rw e (phase-pushed msg (node.sessions k) (n.unborn_after k past))
          | inr e ↦ rw e (n.unborn_after k past)
        ]);
}

on_message-IsNode :
    (postcard : Postcard) (payload : List ℕ) (node : Node)
    → IsNode node
    → IsNode (on_message postcard payload node)
unfolding on_message
on_message-IsNode postcard payload node n =
    elim (Option-cases (postcard.server_from_bytes payload)) [
      | inl unread ↦ rw (unread, on_message) n
      | inr (msg, understood) ↦
          rw (understood, on_message) (deliver-IsNode msg (origin_sender msg) node n)
    ]

read-IsNode :
    (postcard : Postcard) (id : ℕ) (frame : Incoming) (redis : Bool) (node : Node)
    → (node.sessions id).phase ≡ reading
    → IsNode node
    → IsNode (read postcard id frame redis node)
unfolding read
read-IsNode postcard id (binary bytes) redis node e n =
    elim (Option-cases (postcard.client_from_bytes bytes)) [
      | inl unread ↦ rw (unread, read) n
      | inr (msg, understood) ↦
          rw (understood, read) (process_message-IsNode postcard id msg redis node n)
    ]
read-IsNode postcard id pong_frame redis node e n = n
read-IsNode postcard id other_frame redis node e n = n
read-IsNode postcard id close_frame redis node e n = leave-IsNode id node e n
read-IsNode postcard id broken redis node e n = leave-IsNode id node e n
read-IsNode postcard id timed_out redis node e n = leave-IsNode id node e n

-- A step behind a test.
guarded-IsNode :
    (b : Bool) (next node : Node)
    → (b ≡ true → IsNode next)
    → IsNode node
    → IsNode (if b then next else node)
guarded-IsNode true next node h n = h refl
guarded-IsNode false next node h n = n

pub step-IsNode :
    (postcard : Postcard) (event : Event) (node : Node)
    → IsNode node
    → IsNode (step postcard event node)
unfolding step
step-IsNode postcard accepted node n = accept-IsNode node n
step-IsNode postcard (handshake id ok) node n =
    guarded-IsNode (is_shaking (node.sessions id).phase) (shake id ok node) node
      (λ e. shake-IsNode id ok node (phase_shaking (node.sessions id).phase e) n) n
step-IsNode postcard (welcomed id ok) node n =
    guarded-IsNode (is_greeting (node.sessions id).phase) (greet postcard id ok node) node
      (λ e. greet-IsNode postcard id ok node (phase_greeting (node.sessions id).phase e) n) n
step-IsNode postcard (receives_message id ok) node n =
    guarded-IsNode (node.sessions id).writing
      (write_message postcard id ok (node.sessions id).queue node) node
      (λ e. write_message-IsNode postcard id ok (node.sessions id).queue node e n) n
step-IsNode postcard (heartbeat id true) node n =
    guarded-IsNode (node.sessions id).writing node node (λ e. n) n
step-IsNode postcard (heartbeat id false) node n =
    guarded-IsNode (node.sessions id).writing (stop_writing id node) node
      (λ e.
        stop_writing-IsNode id node
          (placed_writing id (is_connected id node.connections) (node.sessions id) e (n.placed id))
          n)
      n
step-IsNode postcard (sink_closed id) node n =
    guarded-IsNode (is_closing (node.sessions id)) (end_writing id node) node
      (λ e. end_writing-IsNode id node (phase_closing (node.sessions id) e) n) n
step-IsNode postcard (incoming id frame redis) node n =
    guarded-IsNode (is_reading (node.sessions id).phase) (read postcard id frame redis node) node
      (λ e. read-IsNode postcard id frame redis node (phase_reading (node.sessions id).phase e) n) n
step-IsNode postcard (bus_message payload) node n = on_message-IsNode postcard payload node n

pub run-IsNode :
    (postcard : Postcard) (events : List Event) (node : Node)
    → IsNode node
    → IsNode (run postcard events node)
unfolding run
run-IsNode postcard [] node n = n
run-IsNode postcard (event ∷ events) node n =
    run-IsNode postcard events (step postcard event node) (step-IsNode postcard event node n)
