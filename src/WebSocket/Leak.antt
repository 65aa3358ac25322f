-- ===== src/WebSocket/Leak.antt =====
-- hl_websocket_server/src/main.rs: a task that returns at the `?` of its welcome message.
use rust_samples.Prelude.{
  ℕ, ◌≡◌, refl, ap, ◌∙◌, List, [], ◌∷◌, some, true, false, if_true, ==_iff, arith,
}
use rust_samples.WebSocket.{
  ServerMessage, Postcard, Session, Node, Event, welcomed, greeting, returned,
}
use rust_samples.WebSocket.Tasks.{new_node, pushed, is_greeting, greet_failed, step, run}
use rust_samples.WebSocket.Deliver.{is_connected}
use rust_samples.WebSocket.Registry.{IsNode, new_node-IsNode, placed_in}
use rust_samples.WebSocket.Reachable.{step-IsNode, run-IsNode}
use rust_samples.WebSocket.Moves.{is_late, news, Moves, stays, starts, gets, sends, stops}
use rust_samples.WebSocket.Moves.Events.{step-Moves}
use rust_samples.WebSocket.Entries.{step_keeps}

phase-pushed : (msg : ServerMessage) (s : Session) → (pushed msg s).phase ≡ s.phase
phase-pushed msg s = ground arith

stays_returned :
    (s t : Session) (due : List ServerMessage)
    → s.phase ≡ returned
    → Moves s t due
    → t.phase ≡ returned
stays_returned s t due r (stays e f) = ap (λ x. x.phase) e ∙ r
stays_returned s t due r (starts early) = absurd (cc (early, ap is_late r))
stays_returned s t due r (gets msg e d) = ap (λ x. x.phase) e ∙ phase-pushed msg s ∙ r
stays_returned s t due r (sends msg rest q e d) = ap (λ x. x.phase) e ∙ r
stays_returned s t due r (stops w l p) = absurd (cc (p, r))

module _ (postcard : Postcard)
    (encodes : (msg : ServerMessage) → (bytes : List ℕ) × (postcard.to_allocvec msg ≡ some bytes))
    (k : ℕ) where
  entry_stays :
      (events : List Event) (node : Node)
      → IsNode node
      → (node.sessions k).phase ≡ returned
      → is_connected k node.connections ≡ true
      → let later = run postcard events node in
        (is_connected k later.connections ≡ true) × ((later.sessions k).phase ≡ returned)
  unfolding run
  entry_stays [] node n r c = (c, r)
  entry_stays (event ∷ events) node n r c =
      entry_stays events (step postcard event node) (step-IsNode postcard event node n)
        (stays_returned (node.sessions k) ((step postcard event node).sessions k)
          (news postcard k event) r (step-Moves postcard encodes k event node n))
        (step_keeps postcard k node n r c event)

  -- The step that fails.
  greet_fails :
      (node : Node)
      → (node.sessions k).phase ≡ greeting
      → step postcard (welcomed k false) node ≡ greet_failed k node
  unfolding step
  greet_fails node g = if_true (greet_failed k node) node (ap is_greeting g)

-- Where postcard encodes every message: when, after any events of a new node, the send of the
-- welcome message to a session fails, the session is in the registry after all later events,
-- though its task has returned and nobody receives from its channel.
pub failed_welcome_leaks :
    (postcard : Postcard)
    → ((msg : ServerMessage) → (bytes : List ℕ) × (postcard.to_allocvec msg ≡ some bytes))
    → (k : ℕ) (before after : List Event)
    → ((run postcard before new_node).sessions k).phase ≡ greeting
    → let failed = step postcard (welcomed k false) (run postcard before new_node) in
      let later = run postcard after failed in
      (is_connected k later.connections ≡ true)
      × ((later.sessions k).phase ≡ returned)
      × ((later.sessions k).receiving ≡ false)
failed_welcome_leaks postcard encodes k before after g =
    let node : Node = run postcard before new_node in
    let n : IsNode node = run-IsNode postcard before new_node new_node-IsNode in
    let failed : Node = step postcard (welcomed k false) node in
    let fails : failed ≡ greet_failed k node = greet_fails postcard encodes k node g in
    let f : IsNode failed = step-IsNode postcard (welcomed k false) node n in
    let connected : is_connected k node.connections ≡ true =
      (placed_in k (is_connected k node.connections) (node.sessions k) greeting g
        (n.placed k)).0.0 in
    let (c, r) =
      entry_stays postcard encodes k after failed f
        (ap (λ x. (x.sessions k).phase) fails
          ∙ ap (λ x. x.phase)
              (if_true (record (node.sessions k) { phase = returned; receiving = false })
                (node.sessions k) ((==_iff k k).1 refl)))
        (ap (λ x. is_connected k x.connections) fails ∙ connected) in
    let later : Node = run postcard after failed in
    (
      c,
      r,
      (placed_in k (is_connected k later.connections) (later.sessions k) returned r
          ((run-IsNode postcard after failed f).placed k)).0.0,
    )
