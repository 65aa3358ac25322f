-- ===== src/WebSocket/Stream.antt =====
-- hl_websocket_server/src/main.rs: what a client is sent, over any events.
use rust_samples.Prelude.{
  ℕ, ◌≡◌, ap, sym, subst, ◌∙◌, ◌⊎◌, inl, inr, List, [], ◌∷◌, ◌++◌, append_assoc, append-nil, some,
  true, false, if_true, arith,
}
use rust_samples.WebSocket.{ServerMessage, Postcard, Session, Node, Event, reading}
use rust_samples.WebSocket.Tasks.{new_node, pushed, step, run}
use rust_samples.WebSocket.Deliver.{is_connected}
use rust_samples.WebSocket.Registry.{IsNode, new_node-IsNode, writer_connected, placed_writing}
use rust_samples.WebSocket.Reachable.{step-IsNode, run-IsNode}
use rust_samples.WebSocket.Moves.{news, is_late, Moves, stays, starts, gets, sends, stops}
use rust_samples.WebSocket.Moves.Events.{step-Moves}

-- What has gone to the socket and what waits in the channel.
abbrev pub stream : Session → List ServerMessage
stream session = session.sent ++ session.queue

-- The answers to the frames of session `k` and the messages of others on the bus, in order.
abbrev pub mail : Postcard → ℕ → List Event → List ServerMessage
mail postcard k [] = []
mail postcard k (event ∷ events) = news postcard k event ++ mail postcard k events

abbrev IsStopped : Session → Type 0
IsStopped s = (is_late s.phase ≡ true) × (s.writing ≡ false)

IsStopped-pushed : (msg : ServerMessage) (s : Session) → IsStopped s → IsStopped (pushed msg s)
IsStopped-pushed msg s h = ground arith

Moves-IsStopped :
    (s t : Session) (due : List ServerMessage) → Moves s t due → IsStopped s → IsStopped t
Moves-IsStopped s t due (stays e f) h = subst IsStopped (sym e) h
Moves-IsStopped s t due (starts early) h = absurd (cc (early, h.0))
Moves-IsStopped s t due (gets msg e d) h = subst IsStopped (sym e) (IsStopped-pushed msg s h)
Moves-IsStopped s t due (sends msg rest q e d) h = subst IsStopped (sym e) h
Moves-IsStopped s t due (stops w l p) h = (l, w)

Moves-on :
    (s t : Session) (due : List ServerMessage)
    → s.phase ≡ reading
    → s.receiving ≡ true
    → s.writing ≡ true
    → Moves s t due
    → ((t.writing ≡ true) × (stream t ≡ stream s ++ due)) ⊎ IsStopped t
Moves-on s t due p r w (stays e f) =
    inl (ap (λ x. x.writing) e ∙ w, ap stream e ∙ rw (f w) (sym (append-nil (stream s))))
Moves-on s t due p r w (starts early) = absurd (cc (early, ap is_late p))
Moves-on s t due p r w (gets msg e d) =
    let got : t ≡ record s { queue = s.queue ++ msg ∷ [] } = e ∙ if_true _ _ r in
    inl (
      ap (λ x. x.writing) got ∙ w,
      ap stream got ∙ rw d (sym (append_assoc s.sent s.queue (msg ∷ []))),
    )
Moves-on s t due p r w (sends msg rest q e d) = inl (
  ap (λ x. x.writing) e ∙ w,
  ap stream e
      ∙ append_assoc s.sent (msg ∷ []) rest
      ∙ ap (λ l. s.sent ++ l) (sym q)
      ∙ rw d (sym (append-nil (stream s))),
)
Moves-on s t due p r w (stops x l q) = inr (l, x)

module _ (postcard : Postcard)
    (encodes : (msg : ServerMessage)
      → (bytes : List ℕ) × (postcard.to_allocvec msg ≡ some bytes)) where
  pub run-IsStopped :
      (k : ℕ) (events : List Event) (node : Node)
      → IsNode node
      → IsStopped (node.sessions k)
      → IsStopped ((run postcard events node).sessions k)
  unfolding run
  run-IsStopped k [] node n h = h
  run-IsStopped k (event ∷ events) node n h =
      run-IsStopped k events (step postcard event node) (step-IsNode postcard event node n) (
        Moves-IsStopped (node.sessions k) ((step postcard event node).sessions k)
          (news postcard k event) (step-Moves postcard encodes k event node n) h)

  stream-run :
      (k : ℕ) (events : List Event) (node : Node)
      → IsNode node
      → (node.sessions k).writing ≡ true
      → ((run postcard events node).sessions k).writing ≡ true
      → stream ((run postcard events node).sessions k)
        ≡ stream (node.sessions k) ++ mail postcard k events
  unfolding run
  stream-run k [] node n w v = sym (append-nil (stream (node.sessions k)))
  stream-run k (event ∷ events) node n w v =
      elim (Moves-on (node.sessions k) ((step postcard event node).sessions k)
        (news postcard k event)
        (placed_writing k (is_connected k node.connections) (node.sessions k) w (n.placed k))
        (writer_connected k node n w).1 w (step-Moves postcard encodes k event node n)) [
          | inl (on, more) ↦
              stream-run k events (step postcard event node) (step-IsNode postcard event node n) on
                v
              ∙ ap (λ l. l ++ mail postcard k events) more
              ∙ append_assoc (stream (node.sessions k)) (news postcard k event)
                  (mail postcard k events)
          | inr stopped ↦ absurd (
              cc (
                v,
                (run-IsStopped k events (step postcard event node)
                    (step-IsNode postcard event node n) stopped).1,
              ))
        ]

-- Where postcard encodes every message: take any events of a new node, and a session whose write
-- task runs before and after some more events. What the session has been sent, with what waits in
-- its channel, has grown exactly by the pongs to the pings among its own frames and by the
-- messages of the bus whose origin it is not, in the order of the events: none is lost, doubled
-- or moved, whatever the other sessions do.
pub stream_lem :
    (postcard : Postcard)
    → ((msg : ServerMessage) → (bytes : List ℕ) × (postcard.to_allocvec msg ≡ some bytes))
    → (k : ℕ) (before after : List Event)
    → ((run postcard before new_node).sessions k).writing ≡ true
    → ((run postcard after (run postcard before new_node)).sessions k).writing ≡ true
    → stream ((run postcard after (run postcard before new_node)).sessions k)
      ≡ stream ((run postcard before new_node).sessions k) ++ mail postcard k after
stream_lem postcard encodes k before after w v =
    stream-run postcard encodes k after (run postcard before new_node)
      (run-IsNode postcard before new_node new_node-IsNode) w v
