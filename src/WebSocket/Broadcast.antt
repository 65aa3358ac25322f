-- ===== src/WebSocket/Broadcast.antt =====
-- hl_websocket_server/src/main.rs: a broadcast from one node to a client of another.
use rust_samples.Prelude.{
  ℕ, ◌≡◌, refl, ap, sym, ◌∙◌, List, [], ◌∷◌, ◌++◌, some, Bool, true, false, not, ◌&&◌, ◌==◌,
  if◌then◌else◌, if_true, if_false, Bool-cases, inl, inr, append-nil,
}
use rust_samples.WebSocket.{
  broadcast, ServerMessage, notification, Postcard, Session, Node, Event, binary, incoming,
  bus_message, reading,
}
use rust_samples.WebSocket.Tasks.{
  new_node, pushed, process_message, read, on_message, origin_sender, is_reading, step, run,
}
use rust_samples.WebSocket.Deliver.{is_connected, deliver_at}
use rust_samples.WebSocket.Registry.{IsNode, new_node-IsNode}
use rust_samples.WebSocket.Reachable.{run-IsNode}
use rust_samples.WebSocket.Entries.{run-IsEntered, receiver_entered}

published-read :
    (postcard : Postcard) (i : ℕ) (bytes text payload : List ℕ) (node : Node)
    → postcard.client_from_bytes bytes ≡ some (broadcast text)
    → postcard.to_allocvec (notification i text) ≡ some payload
    → read postcard i (binary bytes) true node
      ≡ record node { published = node.published ++ payload ∷ [] }
unfolding read process_message
published-read postcard i bytes text payload node d e = rw (d, read) (rw (e, process_message) refl)

published-step :
    (postcard : Postcard) (i : ℕ) (bytes text payload : List ℕ) (node : Node)
    → (node.sessions i).phase ≡ reading
    → postcard.client_from_bytes bytes ≡ some (broadcast text)
    → postcard.to_allocvec (notification i text) ≡ some payload
    → (step postcard (incoming i (binary bytes) true) node).published
      ≡ node.published ++ payload ∷ []
unfolding step
published-step postcard i bytes text payload node p d e =
    ap (λ x. x.published)
      (if_true (read postcard i (binary bytes) true node) node (ap is_reading p))
    ∙ ap (λ x. x.published) (published-read postcard i bytes text payload node d e)

queue_due :
    (c b : Bool) (msg : ServerMessage) (s : Session)
    → (s.receiving ≡ true → c ≡ true)
    → (if c && not b then pushed msg s else s).queue
      ≡ s.queue ++ (if s.receiving && not b then msg ∷ [] else [])
queue_due true true msg s h =
    sym
      (ap (λ l. s.queue ++ l) (if_false (msg ∷ []) [] (and_false s.receiving)) ∙ append-nil s.queue)
  where
    and_false : (r : Bool) → (r && false) ≡ false
    and_false true = refl
    and_false false = refl
queue_due true false msg s h = elim (Bool-cases s.receiving) [
  | inl r ↦
      ap (λ x. x.queue) (if_true (record s { queue = s.queue ++ msg ∷ [] }) s r)
      ∙ ap (λ l. s.queue ++ l) (sym (if_true (msg ∷ []) [] (rw r refl)))
  | inr r ↦
      ap (λ x. x.queue) (if_false (record s { queue = s.queue ++ msg ∷ [] }) s r)
      ∙ sym (ap (λ l. s.queue ++ l) (if_false (msg ∷ []) [] (rw r refl)) ∙ append-nil s.queue)
]
queue_due false b msg s h = elim (Bool-cases s.receiving) [
  | inl r ↦ absurd (cc (h r))
  | inr r ↦ sym (ap (λ l. s.queue ++ l) (if_false (msg ∷ []) [] (rw r refl)) ∙ append-nil s.queue)
]

queue-on_message :
    (postcard : Postcard) (events : List Event) (payload : List ℕ) (msg : ServerMessage) (k : ℕ)
    → postcard.server_from_bytes payload ≡ some msg
    → let node = run postcard events new_node in
      ((step postcard (bus_message payload) node).sessions k).queue
      ≡ (node.sessions k).queue
        ++ (if (node.sessions k).receiving && not (k == origin_sender msg) then msg ∷ [] else [])
unfolding step on_message
queue-on_message postcard events payload msg k e =
    let node : Node = run postcard events new_node in
    let n : IsNode node = run-IsNode postcard events new_node new_node-IsNode in
    rw (e, on_message)
      (ap (λ x. x.queue)
          (deliver_at msg (origin_sender msg) k node.connections node.sessions n.registry)
        ∙ queue_due (is_connected k node.connections) (k == origin_sender msg) msg (node.sessions k)
            (receiver_entered k (is_connected k node.connections) (node.sessions k)
              (run-IsEntered postcard events k)))

-- Take two nodes after any events, and a session `i` that reads on the first. When its client
-- broadcasts a text, postcard reads and writes the messages and Redis answers, the first node
-- publishes one payload; when the bus brings it to the second node, the channel of each session
-- `k` there with a receiver gets the notification with the number `i` and the text once, at its
-- end, but for the session whose number is `i`; all other channels are as before.
pub broadcast_lem :
    (postcard : Postcard) (events there : List Event) (i k : ℕ) (bytes text payload : List ℕ)
    → ((run postcard events new_node).sessions i).phase ≡ reading
    → postcard.client_from_bytes bytes ≡ some (broadcast text)
    → postcard.to_allocvec (notification i text) ≡ some payload
    → postcard.server_from_bytes payload ≡ some (notification i text)
    → let here = run postcard events new_node in
      let node = run postcard there new_node in
      let session = node.sessions k in
      ((step postcard (incoming i (binary bytes) true) here).published
        ≡ here.published ++ payload ∷ [])
      × (((step postcard (bus_message payload) node).sessions k).queue
          ≡ session.queue
            ++ (if session.receiving && not (k == i) then notification i text ∷ [] else []))
broadcast_lem postcard events there i k bytes text payload p d e u = (
  published-step postcard i bytes text payload (run postcard events new_node) p d e,
  queue-on_message postcard there payload (notification i text) k u,
)
