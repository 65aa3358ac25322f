-- ===== src/WebSocket/Registry.antt =====
-- hl_websocket_server/src/main.rs: what the registry and a task know of each other.
use rust_samples.Prelude.{
  ℕ, ◌<◌, ◌≡◌, refl, sym, subst, ◌∙◌, ◌⊎◌, inl, inr, List, [], ◌∷◌, ◌++◌, some, Bool, true, false,
  ◌&&◌, ◌==◌, ==_iff, nat_key, if_true, if_false, Bool-cases, arith, get_elem?,
}
use rust_samples.Prelude.Maps.{remove}
use rust_samples.WebSocket.{
  ServerMessage, welcome, Phase, unborn, shaking, greeting, reading, returned, Session, Node,
}
use rust_samples.WebSocket.Tasks.{
  new_node, at_session, pushed, is_shaking, is_greeting, is_reading, is_closing,
}
use rust_samples.WebSocket.Deliver.{is_connected, IsRegistry, connected-remove, remove-IsRegistry}

-- What a phase says of the registry, the channel, the write task and the frames sent.
abbrev pub Standing : Phase → (connected receiving writing : Bool) → Type 0
Standing unborn c r w = (c ≡ false) × (r ≡ false) × (w ≡ false)
Standing shaking c r w = (c ≡ false) × (r ≡ false) × (w ≡ false)
Standing greeting c r w = (c ≡ true) × (r ≡ true) × (w ≡ false)
Standing reading c r w = (c ≡ r) × (w ≡ true → r ≡ true)
Standing returned c r w = (r ≡ false) × (w ≡ false)

abbrev pub Greeted : ℕ → Phase → (connected : Bool) → List ServerMessage → Type 0
Greeted k unborn c sent = sent ≡ []
Greeted k shaking c sent = sent ≡ []
Greeted k greeting c sent = sent ≡ []
Greeted k reading c sent = get_elem? sent 0 ≡ some (welcome k)
Greeted k returned c sent = (sent ≡ []) ⊎ ((c ≡ false) × (get_elem? sent 0 ≡ some (welcome k)))

abbrev pub IsPlaced : ℕ → (connected : Bool) → Session → Type 0
IsPlaced k c session =
    Standing session.phase c session.receiving session.writing
    × Greeted k session.phase c session.sent

pub record IsNode (node : Node) : Type 0 where
  pub registry : IsRegistry node.connections
  pub placed : (k : ℕ) → IsPlaced k (is_connected k node.connections) (node.sessions k)
  pub unborn_after : (k : ℕ) → node.session_counter < k → (node.sessions k).phase ≡ unborn

pub new_node-IsNode : IsNode new_node
new_node-IsNode = record {
  registry = tt;
  placed = λ k. ((refl, refl, refl), refl);
  unborn_after = λ k h. refl;
}

pub placed_writing :
    (k : ℕ) (c : Bool) (session : Session)
    → session.writing ≡ true
    → IsPlaced k c session
    → session.phase ≡ reading
placed_writing k c session w h = elim (phase_cases session.phase) [
  | inl e ↦ e
  | inr no_write ↦ absurd (no_write c session.receiving session.writing h.0 w)
]
  where
    phase_cases : (p : Phase) → (p ≡ reading) ⊎ ((c r w : Bool) → Standing p c r w → w ≡ true → ⊥)
    phase_cases reading = inl refl
    phase_cases unborn = inr (λ c r w h e. cc (h.2, e))
    phase_cases shaking = inr (λ c r w h e. cc (h.2, e))
    phase_cases greeting = inr (λ c r w h e. cc (h.2, e))
    phase_cases returned = inr (λ c r w h e. cc (h.1, e))

pub pushed-IsPlaced :
    (k : ℕ) (c : Bool) (msg : ServerMessage) (session : Session)
    → IsPlaced k c session
    → IsPlaced k c (pushed msg session)
pushed-IsPlaced k c msg session h = elim (Bool-cases session.receiving) [
  | inl e ↦
      subst (IsPlaced k c)
        (sym (if_true (record session { queue = session.queue ++ msg ∷ [] }) session e)) h
  | inr e ↦
      subst (IsPlaced k c)
        (sym (if_false (record session { queue = session.queue ++ msg ∷ [] }) session e)) h
]

pub phase-pushed :
    (msg : ServerMessage) (session : Session)
    → session.phase ≡ unborn
    → (pushed msg session).phase ≡ unborn
phase-pushed msg session e = ground arith

pub head-append :
    (xs ys : List ServerMessage) {x : ServerMessage}
    → get_elem? xs 0 ≡ some x
    → get_elem? (xs ++ ys) 0 ≡ some x
head-append [] ys e = cc
head-append (x ∷ xs) ys e = e

-- One session changed, and the registry with it at most there.
pub at_session-IsPlaced :
    (id k : ℕ) (c d : ℕ → Bool) (session : Session) (sessions : ℕ → Session)
    → IsPlaced id (d id) session
    → ((j : ℕ) → (id == j) ≡ false → d j ≡ c j)
    → ((j : ℕ) → IsPlaced j (c j) (sessions j))
    → IsPlaced k (d k) (at_session id session sessions k)
at_session-IsPlaced id k c d session sessions h same rest = elim (Bool-cases (id == k)) [
  | inl e ↦ rw (e, ← (==_iff id k).0 e) h
  | inr e ↦ rw (e, same k e) (rest k)
]

pub changed-IsNode :
    (id : ℕ) (session : Session) (connections : List (ℕ × ℕ)) (node : Node)
    → IsNode node
    → IsRegistry connections
    → ((j : ℕ) → (id == j) ≡ false → is_connected j connections ≡ is_connected j node.connections)
    → IsPlaced id (is_connected id connections) session
    → ((node.sessions id).phase ≡ unborn → session.phase ≡ unborn)
    → IsNode
        (record node { connections = connections; sessions = at_session id session node.sessions })
changed-IsNode id session connections node n r same h born = record {
  registry = r;
  placed = λ k.
      at_session-IsPlaced id k (λ j. is_connected j node.connections)
        (λ j. is_connected j connections) session node.sessions h same n.placed;
  unborn_after = λ k past. elim (Bool-cases (id == k)) [
    | inl e ↦
        let e' : id ≡ k = (==_iff id k).0 e in
        rw (e, ← e') (born (n.unborn_after id (omega (arith, e', past))))
    | inr e ↦ rw e (n.unborn_after k past)
  ];
}

-- The registry as it is, or without the session.
pub kept-IsNode :
    (id : ℕ) (session : Session) (node : Node)
    → IsNode node
    → IsPlaced id (is_connected id node.connections) session
    → ((node.sessions id).phase ≡ unborn → session.phase ≡ unborn)
    → IsNode (record node { sessions = at_session id session node.sessions })
kept-IsNode id session node n h born =
    changed-IsNode id session node.connections node n n.registry (λ j e. refl) h born

pub removed-IsNode :
    (id : ℕ) (session : Session) (node : Node)
    → IsNode node
    → IsPlaced id false session
    → ((node.sessions id).phase ≡ unborn → session.phase ≡ unborn)
    → IsNode (record node {
      connections = remove id node.connections;
      sessions = at_session id session node.sessions;
    })
removed-IsNode id session node n h born =
    changed-IsNode id session (remove id node.connections) node n
      (remove-IsRegistry id node.connections n.registry)
      (λ j e. rw (connected-remove j id node.connections, e) refl)
      (rw (connected-remove id id node.connections, (==_iff id id).1 refl) h) born

pub placed_in :
    (k : ℕ) (c : Bool) (session : Session) (p : Phase)
    → session.phase ≡ p
    → IsPlaced k c session
    → Standing p c session.receiving session.writing × Greeted k p c session.sent
placed_in k c session p e h =
    subst (λ q. Standing q c session.receiving session.writing × Greeted k q c session.sent) e h

pub phase_shaking : (p : Phase) → is_shaking p ≡ true → p ≡ shaking
phase_shaking p h = ground arith

pub phase_greeting : (p : Phase) → is_greeting p ≡ true → p ≡ greeting
phase_greeting p h = ground arith

pub phase_reading : (p : Phase) → is_reading p ≡ true → p ≡ reading
phase_reading p h = ground arith

pub writer_connected :
    (k : ℕ) (node : Node)
    → IsNode node
    → (node.sessions k).writing ≡ true
    → (is_connected k node.connections ≡ true) × ((node.sessions k).receiving ≡ true)
writer_connected k node n w =
    let c : Bool = is_connected k node.connections in
    let (standing, greeted) =
      placed_in k c (node.sessions k) reading (placed_writing k c (node.sessions k) w (n.placed k))
        (n.placed k) in
    (standing.0 ∙ standing.1 w, standing.1 w)

pub phase_closing : (session : Session) → is_closing session ≡ true → session.phase ≡ reading
phase_closing session h = phase_reading session.phase (first (is_reading session.phase) _ h)
  where
    first : (a b : Bool) → (a && b) ≡ true → a ≡ true
    first true b h = refl
    first false b h = h
