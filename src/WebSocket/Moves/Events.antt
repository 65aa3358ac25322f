-- ===== src/WebSocket/Moves/Events.antt =====
-- hl_websocket_server/src/main.rs: what each event does to one session.
use rust_samples.Prelude.{
  ℕ, ◌≡◌, refl, ap, sym, subst, ◌∙◌, ◌⊎◌, inl, inr, List, [], ◌∷◌, ◌++◌, none, some, Bool, true,
  false, not, ◌&&◌, ◌==◌, ==_iff, nat_key, if◌then◌else◌, if_true, if_false, Bool-cases,
  Option-cases, arith,
}
use rust_samples.Prelude.Maps.{lookup}
use rust_samples.WebSocket.{
  ClientMessage, ping, auth, broadcast, ServerMessage, pong, notification, Postcard, reading, Node,
  Event, Incoming, binary, pong_frame, close_frame, other_frame, broken, timed_out, accepted,
  handshake, welcomed, receives_message, heartbeat, sink_closed, incoming, bus_message,
}
use rust_samples.WebSocket.Tasks.{
  pushed, shake, greet, stop_writing, end_writing, is_closing, write_message, publish,
  process_message, read, deliver, on_message, origin_sender, is_shaking, is_greeting, is_reading,
  step,
}
use rust_samples.WebSocket.Deliver.{is_connected, deliver_at, registered_sender}
use rust_samples.WebSocket.Registry.{
  IsNode, phase_shaking, phase_greeting, phase_reading, phase_closing, placed_writing,
  writer_connected,
}
use rust_samples.WebSocket.Moves.{
  answer, forwarded, news, Moves, stays, gets, sends, at_session-Moves, guarded-Moves, accept-Moves,
  shake-Moves, greet-Moves, stop_writing-Moves, end_writing-Moves, leave-Moves,
}

module _ (postcard : Postcard)
    (encodes : (msg : ServerMessage)
      → (bytes : List ℕ) × (postcard.to_allocvec msg ≡ some bytes)) where
  write_message-Moves :
      (id k : ℕ) (ok : Bool) (queue : List ServerMessage) (node : Node)
      → (node.sessions id).queue ≡ queue
      → (node.sessions id).phase ≡ reading
      → Moves (node.sessions k) ((write_message postcard id ok queue node).sessions k) []
  write_message-Moves id k ok [] node q p = stays refl (λ w. refl)
  write_message-Moves id k false (msg ∷ rest) node q p =
      rw ((encodes msg).1, write_message) (stop_writing-Moves id k node p)
  write_message-Moves id k true (msg ∷ rest) node q p =
      rw ((encodes msg).1, write_message)
        (at_session-Moves id k
          (record (node.sessions id) { queue = rest; sent = (node.sessions id).sent ++ msg ∷ [] })
          node.sessions [] (λ e. refl) (λ e. sends msg rest q refl refl))

  silent :
      (id k : ℕ) (node : Node)
      → IsNode node
      → lookup id node.connections ≡ none
      → (node.sessions k).writing ≡ true
      → (id == k) ≡ false
  silent id k node n missing w = elim (Bool-cases (id == k)) [
    | inr e ↦ e
    | inl e ↦
        let none_found : is_connected k node.connections ≡ false =
          subst (λ j. is_connected j node.connections ≡ false) ((==_iff id k).0 e)
            (rw (missing, is_connected) refl) in
        absurd (cc ((writer_connected k node n w).0, none_found))
  ]

  ping-Moves :
      (id k : ℕ) (redis : Bool) (node : Node)
      → IsNode node
      → Moves
          (node.sessions k)
          ((process_message postcard id ping redis node).sessions k)
          (if id == k then pong ∷ [] else [])
  unfolding process_message
  ping-Moves id k redis node n = elim (Option-cases (lookup id node.connections)) [
    | inl missing ↦
        rw (missing, process_message)
          (stays refl (λ w. if_false (pong ∷ []) [] (silent id k node n missing w)))
    | inr (sender, found) ↦
        let own : sender ≡ id = registered_sender id node.connections n.registry found in
        rw (found, process_message)
          (at_session-Moves sender k (pushed pong (node.sessions sender)) node.sessions
            (if id == k then pong ∷ [] else [])
            (λ e. if_false (pong ∷ []) [] (ap (λ j. j == k) (sym own) ∙ e))
            (λ e. gets pong refl (if_true (pong ∷ []) [] ((==_iff id k).1 (sym own ∙ e)))))
  ]

  process_message-Moves :
      (id k : ℕ) (msg : ClientMessage) (redis : Bool) (node : Node)
      → IsNode node
      → Moves
          (node.sessions k)
          ((process_message postcard id msg redis node).sessions k)
          (if id == k then answer (some msg) else [])
  unfolding process_message
  process_message-Moves id k ping redis node n = ping-Moves id k redis node n
  process_message-Moves id k (auth user_id token) redis node n = stays refl (λ w. ground arith)
  process_message-Moves id k (broadcast text) redis node n =
      rw ((encodes (notification id text)).1, process_message)
        (stays (published_same redis) (λ w. ground arith))
    where
      published_same :
          (ok : Bool)
          → ((publish ok (encodes (notification id text)).0 node).sessions k) ≡ node.sessions k
      published_same true = refl
      published_same false = refl

  test_fails : (a b : Bool) → (a ≡ false) ⊎ (b ≡ true) → (a && not b) ≡ false
  test_fails a b h = ground arith

  forwarded-origin :
      (k : ℕ) (msg : ServerMessage) → (k == origin_sender msg) ≡ true → forwarded k (some msg) ≡ []
  forwarded-origin k msg e = if_true [] (msg ∷ []) e

  deliver-Moves :
      (k : ℕ) (msg : ServerMessage) (node : Node)
      → IsNode node
      → Moves
          (node.sessions k)
          (deliver msg (origin_sender msg) node.connections node.sessions k)
          (forwarded k (some msg))
  deliver-Moves k msg node n =
      subst (λ t. Moves (node.sessions k) t (forwarded k (some msg)))
        (sym (deliver_at msg (origin_sender msg) k node.connections node.sessions n.registry))
        (elim (Bool-cases (k == origin_sender msg)) [
          | inl e ↦
              stays
                (if_false (pushed msg (node.sessions k)) (node.sessions k)
                  (test_fails (is_connected k node.connections) (k == origin_sender msg) (inr e)))
                (λ w. forwarded-origin k msg e)
          | inr e ↦ elim (Bool-cases (is_connected k node.connections)) [
            | inl c ↦
                gets msg (if_true (pushed msg (node.sessions k)) (node.sessions k) (rw (c, e) refl))
                  (if_false [] (msg ∷ []) e)
            | inr c ↦
                stays
                  (if_false (pushed msg (node.sessions k)) (node.sessions k)
                    (test_fails (is_connected k node.connections) (k == origin_sender msg) (inl c)))
                  (λ w. absurd (cc ((writer_connected k node n w).0, c)))
          ]
        ])

  read-Moves :
      (id k : ℕ) (frame : Incoming) (redis : Bool) (node : Node)
      → (node.sessions id).phase ≡ reading
      → IsNode node
      → Moves
          (node.sessions k)
          ((read postcard id frame redis node).sessions k)
          (news postcard k (incoming id frame redis))
  unfolding read
  read-Moves id k (binary bytes) redis node p n =
      elim (Option-cases (postcard.client_from_bytes bytes)) [
        | inl unread ↦ rw (unread, read) (stays refl (λ w. ground arith))
        | inr (msg, understood) ↦
            rw (understood, read) (process_message-Moves id k msg redis node n)
      ]
  read-Moves id k pong_frame redis node p n = stays refl (λ w. refl)
  read-Moves id k other_frame redis node p n = stays refl (λ w. refl)
  read-Moves id k close_frame redis node p n = leave-Moves id k node p
  read-Moves id k broken redis node p n = leave-Moves id k node p
  read-Moves id k timed_out redis node p n = leave-Moves id k node p

  -- A frame that comes to a session that does not read is not for a running write task.
  unread :
      (id k : ℕ) (frame : Incoming) (redis : Bool) (node : Node)
      → IsNode node
      → is_reading (node.sessions id).phase ≡ false
      → (node.sessions k).writing ≡ true
      → news postcard k (incoming id frame redis) ≡ []
  unread id k (binary bytes) redis node n r w =
      if_false (answer (postcard.client_from_bytes bytes)) [] (elim (Bool-cases (id == k)) [
        | inr e ↦ e
        | inl e ↦
            let reads : is_reading (node.sessions k).phase ≡ true = ap is_reading (
              placed_writing k (is_connected k node.connections) (node.sessions k) w
                (n.placed k)) in
            let not_reads : is_reading (node.sessions k).phase ≡ false =
              subst (λ j. is_reading (node.sessions j).phase ≡ false) ((==_iff id k).0 e) r in
            absurd (cc (reads, not_reads))
      ])
  unread id k pong_frame redis node n r w = refl
  unread id k other_frame redis node n r w = refl
  unread id k close_frame redis node n r w = refl
  unread id k broken redis node n r w = refl
  unread id k timed_out redis node n r w = refl

  on_message-Moves :
      (k : ℕ) (payload : List ℕ) (node : Node)
      → IsNode node
      → Moves
          (node.sessions k)
          ((on_message postcard payload node).sessions k)
          (forwarded k (postcard.server_from_bytes payload))
  unfolding on_message
  on_message-Moves k payload node n = elim (Option-cases (postcard.server_from_bytes payload)) [
    | inl unread ↦ rw (unread, on_message) (stays refl (λ w. refl))
    | inr (msg, understood) ↦ rw (understood, on_message) (deliver-Moves k msg node n)
  ]

  pub step-Moves :
      (k : ℕ) (event : Event) (node : Node)
      → IsNode node
      → Moves (node.sessions k) ((step postcard event node).sessions k) (news postcard k event)
  unfolding step
  step-Moves k accepted node n = accept-Moves node k n
  step-Moves k (handshake id ok) node n =
      guarded-Moves (is_shaking (node.sessions id).phase) (shake id ok node) node k []
        (λ e. shake-Moves id k ok node (phase_shaking (node.sessions id).phase e)) (λ e w. refl)
  step-Moves k (welcomed id ok) node n =
      guarded-Moves (is_greeting (node.sessions id).phase) (greet postcard id ok node) node k []
        (λ e. greet-Moves postcard id k ok node (phase_greeting (node.sessions id).phase e))
        (λ e w. refl)
  step-Moves k (receives_message id ok) node n =
      guarded-Moves (node.sessions id).writing
        (write_message postcard id ok (node.sessions id).queue node) node k []
        (λ e.
          write_message-Moves id k ok (node.sessions id).queue node refl (
            placed_writing id (is_connected id node.connections) (node.sessions id) e
              (n.placed id)))
        (λ e w. refl)
  step-Moves k (heartbeat id true) node n =
      guarded-Moves (node.sessions id).writing node node k [] (λ e. stays refl (λ w. refl))
        (λ e w. refl)
  step-Moves k (heartbeat id false) node n =
      guarded-Moves (node.sessions id).writing (stop_writing id node) node k []
        (λ e.
          stop_writing-Moves id k node (
            placed_writing id (is_connected id node.connections) (node.sessions id) e
              (n.placed id)))
        (λ e w. refl)
  step-Moves k (sink_closed id) node n =
      guarded-Moves (is_closing (node.sessions id)) (end_writing id node) node k []
        (λ e. end_writing-Moves id k node (phase_closing (node.sessions id) e)) (λ e w. refl)
  step-Moves k (incoming id frame redis) node n =
      guarded-Moves (is_reading (node.sessions id).phase) (read postcard id frame redis node) node k
        (news postcard k (incoming id frame redis))
        (λ e. read-Moves id k frame redis node (phase_reading (node.sessions id).phase e) n)
        (λ e w. unread id k frame redis node n e w)
  step-Moves k (bus_message payload) node n = on_message-Moves k payload node n
