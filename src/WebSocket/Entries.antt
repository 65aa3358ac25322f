-- ===== src/WebSocket/Entries.antt =====
-- hl_websocket_server/src/main.rs: which sessions are in the registry, over any events.
use rust_samples.Prelude.{
  ℕ, ◌≡◌, refl, ap, sym, ◌∙◌, ◌⊎◌, inl, inr, List, [], ◌∷◌, some, Bool, true, false, ◌==◌,
  if◌then◌else◌, ==_iff, nat_key, Bool-cases, Option-cases, get_elem?, arith,
}
use rust_samples.Prelude.Maps.{lookup, insert, remove}
use rust_samples.WebSocket.{
  ClientMessage, ping, auth, broadcast, ServerMessage, notification, welcome, Postcard, Phase,
  unborn, shaking, greeting, reading, returned, Session, Node, Event, Incoming, binary, pong_frame,
  close_frame, other_frame, broken, timed_out, accepted, handshake, welcomed, receives_message,
  heartbeat, sink_closed, incoming, bus_message,
}
use rust_samples.WebSocket.Tasks.{
  new_node, shake, greet, stop_writing, end_writing, is_closing, write_message, publish,
  process_message, read, on_message, is_shaking, is_greeting, is_reading, step, run,
}
use rust_samples.WebSocket.Deliver.{is_connected, connected-insert, connected-remove}
use rust_samples.WebSocket.Registry.{
  Standing, Greeted, IsNode, new_node-IsNode, phase_reading, phase_closing, placed_writing,
}
use rust_samples.WebSocket.Reachable.{run-IsNode}

-- In the registry just when there is a receiver, or left there by a task that sent no welcome.
abbrev pub IsEntered : ℕ → (connected : Bool) → Session → Type 0
IsEntered k c session =
    ((c ≡ session.receiving)
      ⊎ ((c ≡ true)
          × (session.receiving ≡ false)
          × (session.phase ≡ returned)
          × (session.sent ≡ [])))
    × ((session.sent ≡ []) ⊎ (get_elem? session.sent 0 ≡ some (welcome k)))

IsEntered-cases :
    (k : ℕ) (p : Phase) (c r w : Bool) (queue sent : List ServerMessage)
    → Standing p c r w
    → Greeted k p c sent
    → IsEntered k c (record { phase = p; receiving = r; writing = w; queue = queue; sent = sent })
IsEntered-cases k unborn c r w queue sent h g = (inl (h.0 ∙ sym h.1), inl g)
IsEntered-cases k shaking c r w queue sent h g = (inl (h.0 ∙ sym h.1), inl g)
IsEntered-cases k greeting c r w queue sent h g = (inl (h.0 ∙ sym h.1), inl g)
IsEntered-cases k reading c r w queue sent h g = (inl h.0, inr g)
IsEntered-cases k returned true r w queue sent h (inl g) = (inr (refl, h.0, refl, g), inl g)
IsEntered-cases k returned false r w queue sent h (inl g) = (inl (sym h.0), inl g)
IsEntered-cases k returned c r w queue sent h (inr (away, first)) =
    (inl (away ∙ sym h.0), inr first)

-- After any events of a new node, a session is in the registry just when the receiver of its
-- channel exists, but for one kind: a session whose task returned before its welcome message was
-- sent is there without a receiver. The first message that a session was sent, if any, is its
-- welcome with its own number.
pub run-IsEntered :
    (postcard : Postcard) (events : List Event) (k : ℕ)
    → let node = run postcard events new_node in
      IsEntered k (is_connected k node.connections) (node.sessions k)
run-IsEntered postcard events k =
    let node : Node = run postcard events new_node in
    let n : IsNode node = run-IsNode postcard events new_node new_node-IsNode in
    let s : Session = node.sessions k in
    IsEntered-cases k s.phase (is_connected k node.connections) s.receiving s.writing s.queue s.sent
      (n.placed k).0 (n.placed k).1

pub receiver_entered :
    (k : ℕ) (c : Bool) (session : Session)
    → IsEntered k c session
    → session.receiving ≡ true
    → c ≡ true
receiver_entered k c session h r = elim h.0 [ inl same ↦ same ∙ r | inr left ↦ left.0 ]

-- A session that has returned, and what the other tasks do to its entry.
returned_elsewhere :
    (id k : ℕ) (node : Node) (p : Phase)
    → (node.sessions k).phase ≡ returned
    → (node.sessions id).phase ≡ p
    → (p ≡ returned → ⊥)
    → (id == k) ≡ false
returned_elsewhere id k node p r e ne = elim (Bool-cases (id == k)) [
  | inr other ↦ other
  | inl same ↦ absurd (ne (sym e ∙ ap (λ j. (node.sessions j).phase) ((==_iff id k).0 same) ∙ r))
]

kept_by_remove :
    (id k : ℕ) (node : Node)
    → (node.sessions k).phase ≡ returned
    → (node.sessions id).phase ≡ reading
    → is_connected k node.connections ≡ true
    → is_connected k (remove id node.connections) ≡ true
kept_by_remove id k node r p c =
    rw (connected-remove k id node.connections, returned_elsewhere id k node reading r p (λ e. cc))
      c

kept_by_insert :
    (id k : ℕ) (connections : List (ℕ × ℕ))
    → is_connected k connections ≡ true
    → is_connected k (insert id id connections) ≡ true
kept_by_insert id k connections c = rw (connected-insert k id connections) (ground arith)

guarded_keeps :
    (b : Bool) (next node : Node) (k : ℕ)
    → (b ≡ true → is_connected k next.connections ≡ true)
    → is_connected k node.connections ≡ true
    → is_connected k (if b then next else node).connections ≡ true
guarded_keeps true next node k h c = h refl
guarded_keeps false next node k h c = c

module _ (postcard : Postcard) (k : ℕ) (node : Node) (n : IsNode node)
    (r : (node.sessions k).phase ≡ returned) (c : is_connected k node.connections ≡ true) where
  shake_keeps : (id : ℕ) (ok : Bool) → is_connected k (shake id ok node).connections ≡ true
  shake_keeps id true = kept_by_insert id k node.connections c
  shake_keeps id false = c

  greet_keeps : (id : ℕ) (ok : Bool) → is_connected k (greet postcard id ok node).connections ≡ true
  greet_keeps id false = c
  greet_keeps id true = elim (Option-cases (postcard.to_allocvec (welcome id))) [
    | inl refused ↦ rw (refused, greet) c
    | inr (bytes, taken) ↦ rw (taken, greet) c
  ]

  write_keeps :
      (id : ℕ) (ok : Bool) (queue : List ServerMessage)
      → (node.sessions id).phase ≡ reading
      → is_connected k (write_message postcard id ok queue node).connections ≡ true
  write_keeps id ok [] p = c
  write_keeps id true (msg ∷ rest) p = elim (Option-cases (postcard.to_allocvec msg)) [
    | inl refused ↦ rw (refused, write_message) c
    | inr (bytes, taken) ↦ rw (taken, write_message) c
  ]
  write_keeps id false (msg ∷ rest) p = elim (Option-cases (postcard.to_allocvec msg)) [
    | inl refused ↦ rw (refused, write_message) c
    | inr (bytes, taken) ↦ rw (taken, write_message) c
  ]

  process_keeps :
      (id : ℕ) (msg : ClientMessage) (redis : Bool)
      → is_connected k (process_message postcard id msg redis node).connections ≡ true
  unfolding process_message
  process_keeps id (auth user_id token) redis = c
  process_keeps id ping redis = elim (Option-cases (lookup id node.connections)) [
    | inl missing ↦ rw (missing, process_message) c
    | inr (sender, found) ↦ rw (found, process_message) c
  ]
  process_keeps id (broadcast text) redis =
      elim (Option-cases (postcard.to_allocvec (notification id text))) [
        | inl refused ↦ rw (refused, process_message) c
        | inr (payload, taken) ↦ rw (taken, process_message) (published redis payload)
      ]
    where
      published :
          (ok : Bool) (payload : List ℕ)
          → is_connected k (publish ok payload node).connections ≡ true
      published true payload = c
      published false payload = c

  read_keeps :
      (id : ℕ) (frame : Incoming) (redis : Bool)
      → (node.sessions id).phase ≡ reading
      → is_connected k (read postcard id frame redis node).connections ≡ true
  unfolding read
  read_keeps id (binary bytes) redis p = elim (Option-cases (postcard.client_from_bytes bytes)) [
    | inl unread ↦ rw (unread, read) c
    | inr (msg, understood) ↦ rw (understood, read) (process_keeps id msg redis)
  ]
  read_keeps id pong_frame redis p = c
  read_keeps id other_frame redis p = c
  read_keeps id close_frame redis p = kept_by_remove id k node r p c
  read_keeps id broken redis p = kept_by_remove id k node r p c
  read_keeps id timed_out redis p = kept_by_remove id k node r p c

  bus_keeps :
      (payload : List ℕ) → is_connected k (on_message postcard payload node).connections ≡ true
  unfolding on_message
  bus_keeps payload = elim (Option-cases (postcard.server_from_bytes payload)) [
    | inl unread ↦ rw (unread, on_message) c
    | inr (msg, understood) ↦ rw (understood, on_message) c
  ]

  pub step_keeps : (event : Event) → is_connected k (step postcard event node).connections ≡ true
  unfolding step
  step_keeps accepted = c
  step_keeps (handshake id ok) =
      guarded_keeps (is_shaking (node.sessions id).phase) (shake id ok node) node k
        (λ e. shake_keeps id ok) c
  step_keeps (welcomed id ok) =
      guarded_keeps (is_greeting (node.sessions id).phase) (greet postcard id ok node) node k
        (λ e. greet_keeps id ok) c
  step_keeps (receives_message id ok) =
      guarded_keeps (node.sessions id).writing
        (write_message postcard id ok (node.sessions id).queue node) node k
        (λ e.
          write_keeps id ok (node.sessions id).queue (
            placed_writing id (is_connected id node.connections) (node.sessions id) e
              (n.placed id)))
        c
  step_keeps (heartbeat id true) = guarded_keeps (node.sessions id).writing node node k (λ e. c) c
  step_keeps (heartbeat id false) =
      guarded_keeps (node.sessions id).writing (stop_writing id node) node k (λ e. c) c
  step_keeps (sink_closed id) =
      guarded_keeps (is_closing (node.sessions id)) (end_writing id node) node k
        (λ e. kept_by_remove id k node r (phase_closing (node.sessions id) e) c) c
  step_keeps (incoming id frame redis) =
      guarded_keeps (is_reading (node.sessions id).phase) (read postcard id frame redis node) node k
        (λ e. read_keeps id frame redis (phase_reading (node.sessions id).phase e)) c
  step_keeps (bus_message payload) = bus_keeps payload
