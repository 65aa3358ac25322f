-- ===== src/WebSocket/Steps.antt =====
-- hl_websocket_server/src/main.rs: the steps of the tasks and the registry.
use rust_samples.Prelude.{
  ℕ, ◌+◌, ◌≡◌, refl, ap, sym, subst, ◌∙◌, inl, inr, List, [], ◌∷◌, ◌++◌, Bool, true, false, ==_iff,
  nat_key, if◌then◌else◌, if_false, Option-cases, arith,
}
use rust_samples.Prelude.Maps.{lookup, insert}
use rust_samples.WebSocket.{
  ClientMessage, ping, auth, broadcast, ServerMessage, pong, notification, welcome, Postcard,
  unborn, shaking, greeting, reading, returned, Node,
}
use rust_samples.WebSocket.Tasks.{
  no_session, at_session, pushed, accept, shake, greet_failed, greet, stop_writing, end_writing,
  write_message, publish, process_message, leave,
}
use rust_samples.WebSocket.Deliver.{is_connected, connected-insert, insert-IsRegistry}
use rust_samples.WebSocket.Registry.{
  Standing, Greeted, IsNode, placed_writing, pushed-IsPlaced, phase-pushed, head-append,
  at_session-IsPlaced, changed-IsNode, kept-IsNode, removed-IsNode, placed_in,
}

pub accept-IsNode : (node : Node) → IsNode node → IsNode (accept node)
accept-IsNode node n =
    let id : ℕ = node.session_counter + 1 in
    let (free, nothing_sent) =
      placed_in id (is_connected id node.connections) (node.sessions id) unborn
        (n.unborn_after id (omega arith)) (n.placed id) in
    record {
      registry = n.registry;
      placed = λ k.
          at_session-IsPlaced id k (λ j. is_connected j node.connections)
            (λ j. is_connected j node.connections) (record no_session { phase = shaking })
            node.sessions ((free.0, refl, refl), refl) (λ j e. refl) n.placed;
      unborn_after = λ k past.
          ap (λ s. s.phase)
            (if_false (record no_session { phase = shaking }) (node.sessions k)
              (ground (arith, ==_iff id k)))
          ∙ n.unborn_after k (omega (arith, past));
    }

pub shake-IsNode :
    (id : ℕ) (ok : Bool) (node : Node)
    → (node.sessions id).phase ≡ shaking
    → IsNode node
    → IsNode (shake id ok node)
shake-IsNode id true node e n =
    let (standing, nothing_sent) =
      placed_in id (is_connected id node.connections) (node.sessions id) shaking e (n.placed id) in
    changed-IsNode id (record (node.sessions id) { phase = greeting; receiving = true })
      (insert id id node.connections) node n (insert-IsRegistry id node.connections n.registry)
      (λ j ne. rw (connected-insert j id node.connections, ne) refl)
      (
        (
          rw (connected-insert id id node.connections, (==_iff id id).1 refl) refl,
          refl,
          standing.2,
        ),
        nothing_sent,
      )
      (λ u. absurd (cc (u, e)))
shake-IsNode id false node e n =
    let (standing, nothing_sent) =
      placed_in id (is_connected id node.connections) (node.sessions id) shaking e (n.placed id) in
    kept-IsNode id (record (node.sessions id) { phase = returned }) node n
      ((standing.1, standing.2), inl nothing_sent) (λ u. absurd (cc (u, e)))

pub greet_failed-IsNode :
    (id : ℕ) (node : Node)
    → (node.sessions id).phase ≡ greeting
    → IsNode node
    → IsNode (greet_failed id node)
greet_failed-IsNode id node e n =
    let (standing, nothing_sent) =
      placed_in id (is_connected id node.connections) (node.sessions id) greeting e (n.placed id) in
    kept-IsNode id (record (node.sessions id) { phase = returned; receiving = false }) node n
      ((refl, standing.2), inl nothing_sent) (λ u. absurd (cc (u, e)))

pub greet-IsNode :
    (postcard : Postcard) (id : ℕ) (ok : Bool) (node : Node)
    → (node.sessions id).phase ≡ greeting
    → IsNode node
    → IsNode (greet postcard id ok node)
greet-IsNode postcard id false node e n = greet_failed-IsNode id node e n
greet-IsNode postcard id true node e n = elim (Option-cases (postcard.to_allocvec (welcome id))) [
  | inl refused ↦ rw (refused, greet) (greet_failed-IsNode id node e n)
  | inr (bytes, taken) ↦
      let (standing, nothing_sent) =
        placed_in id (is_connected id node.connections) (node.sessions id) greeting e
          (n.placed id) in
      rw (taken, greet)
        (kept-IsNode id
          (record (node.sessions id) {
            phase = reading;
            writing = true;
            sent = (node.sessions id).sent ++ welcome id ∷ [];
          })
          node n ((standing.0 ∙ sym standing.1, λ w. standing.1), rw nothing_sent refl)
          (λ u. absurd (cc (u, e))))
]

pub stop_writing-IsNode :
    (id : ℕ) (node : Node)
    → (node.sessions id).phase ≡ reading
    → IsNode node
    → IsNode (stop_writing id node)
stop_writing-IsNode id node e n =
    let c : Bool = is_connected id node.connections in
    let (standing, greeted) = placed_in id c (node.sessions id) reading e (n.placed id) in
    kept-IsNode id (record (node.sessions id) { writing = false }) node n
      (subst
        (λ p.
          Standing p c (node.sessions id).receiving false × Greeted id p c (node.sessions id).sent)
        (sym e) ((standing.0, λ w. absurd (cc w)), greeted))
      (λ u. u)

pub end_writing-IsNode :
    (id : ℕ) (node : Node)
    → (node.sessions id).phase ≡ reading
    → IsNode node
    → IsNode (end_writing id node)
end_writing-IsNode id node e n =
    let c : Bool = is_connected id node.connections in
    let (standing, greeted) = placed_in id c (node.sessions id) reading e (n.placed id) in
    removed-IsNode id (record (node.sessions id) { writing = false; receiving = false }) node n
      (subst (λ p. Standing p false false false × Greeted id p false (node.sessions id).sent)
        (sym e) ((refl, λ w. w), greeted))
      (λ u. u)

pub write_message-IsNode :
    (postcard : Postcard) (id : ℕ) (ok : Bool) (queue : List ServerMessage) (node : Node)
    → (node.sessions id).writing ≡ true
    → IsNode node
    → IsNode (write_message postcard id ok queue node)
write_message-IsNode postcard id ok [] node w n = n
write_message-IsNode postcard id ok (message ∷ queue) node w n =
    elim (Option-cases (postcard.to_allocvec message)) [
      | inl refused ↦
          rw (refused, write_message)
            (kept-IsNode id (record (node.sessions id) { queue = queue }) node n (n.placed id)
              (λ u. u))
      | inr (bytes, taken) ↦ rw (taken, write_message) (written ok)
    ]
  where
    c : Bool
    c = is_connected id node.connections

    read_phase : (node.sessions id).phase ≡ reading
    read_phase =
        placed_writing id (is_connected id node.connections) (node.sessions id) w (n.placed id)

    placed :
        Standing reading
          (is_connected id node.connections)
          (node.sessions id).receiving
          (node.sessions id).writing
        × Greeted id reading (is_connected id node.connections) (node.sessions id).sent
    placed =
        placed_in id (is_connected id node.connections) (node.sessions id) reading read_phase
          (n.placed id)

    written :
        (ok : Bool)
        → IsNode (
            if ok
            then record node {
              sessions =
                  at_session id
                    (record (node.sessions id) {
                      queue = queue;
                      sent = (node.sessions id).sent ++ message ∷ [];
                    })
                    node.sessions;
            }
            else stop_writing id node)
    written false = stop_writing-IsNode id node read_phase n
    written true =
        kept-IsNode id
          (record (node.sessions id) {
            queue = queue;
            sent = (node.sessions id).sent ++ message ∷ [];
          })
          node n
          (subst
            (λ p.
              Standing p (is_connected id node.connections) (node.sessions id).receiving
                (node.sessions id).writing
              × Greeted id p (is_connected id node.connections)
                  ((node.sessions id).sent ++ message ∷ []))
            (sym read_phase)
            (placed.0, head-append (node.sessions id).sent (message ∷ []) placed.1))
          (λ u. u)

pub leave-IsNode :
    (id : ℕ) (node : Node)
    → (node.sessions id).phase ≡ reading
    → IsNode node
    → IsNode (leave id node)
leave-IsNode id node e n =
    let (standing, greeted) =
      placed_in id (is_connected id node.connections) (node.sessions id) reading e (n.placed id) in
    removed-IsNode id
      (record (node.sessions id) { phase = returned; writing = false; receiving = false }) node n
      ((refl, refl), inr (refl, greeted)) (λ u. absurd (cc (u, e)))

pub publish-IsNode :
    (ok : Bool) (payload : List ℕ) (node : Node) → IsNode node → IsNode (publish ok payload node)
publish-IsNode true payload node n = record {
  registry = n.registry;
  placed = n.placed;
  unborn_after = n.unborn_after;
}
publish-IsNode false payload node n = n

pub process_message-IsNode :
    (postcard : Postcard) (id : ℕ) (msg : ClientMessage) (redis : Bool) (node : Node)
    → IsNode node
    → IsNode (process_message postcard id msg redis node)
unfolding process_message
process_message-IsNode postcard id (auth user_id token) redis node n = n
process_message-IsNode postcard id ping redis node n =
    elim (Option-cases (lookup id node.connections)) [
      | inl missing ↦ rw (missing, process_message) n
      | inr (sender, found) ↦
          rw (found, process_message)
            (kept-IsNode sender (pushed pong (node.sessions sender)) node n
              (pushed-IsPlaced sender (is_connected sender node.connections) pong
                (node.sessions sender) (n.placed sender))
              (phase-pushed pong (node.sessions sender)))
    ]
process_message-IsNode postcard id (broadcast text) redis node n =
    elim (Option-cases (postcard.to_allocvec (notification id text))) [
      | inl refused ↦ rw (refused, process_message) n
      | inr (payload, taken) ↦ rw (taken, process_message) (publish-IsNode redis payload node n)
    ]
