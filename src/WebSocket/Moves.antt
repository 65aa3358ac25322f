-- ===== src/WebSocket/Moves.antt =====
-- hl_websocket_server/src/main.rs: what one step does to one session.
pub mod Events
use rust_samples.Prelude.{
  ℕ, ◌+◌, ◌<◌, ◌≡◌, refl, ap, sym, subst, ◌∙◌, ◌⊎◌, inl, inr, List, [], ◌∷◌, ◌++◌, Option, none,
  some, Bool, true, false, not, ◌&&◌, ◌==◌, ==_iff, nat_key, if◌then◌else◌, if_true, if_false,
  Bool-cases, Option-cases, arith,
}
use rust_samples.Prelude.Maps.{lookup}
use rust_samples.WebSocket.{
  ClientMessage, ping, auth, broadcast, ServerMessage, pong, notification, welcome, Postcard, Phase,
  unborn, shaking, greeting, reading, returned, Session, Node, Event, Incoming, binary, pong_frame,
  close_frame, other_frame, broken, timed_out, accepted, handshake, welcomed, receives_message,
  heartbeat, sink_closed, incoming, bus_message,
}
use rust_samples.WebSocket.Tasks.{
  no_session, at_session, pushed, accept, shake, greet_failed, greet, stop_writing, end_writing,
  write_message, beat, publish, process_message, leave, read, on_message, origin_sender, is_shaking,
  is_greeting, is_reading, step, run,
}
use rust_samples.WebSocket.Deliver.{is_connected, IsRegistry, deliver_at}
use rust_samples.WebSocket.Registry.{
  IsPlaced, IsNode, phase_shaking, phase_greeting, phase_reading, placed_writing, placed_in,
}

-- The answer to a frame, and to each event, that a session with a running write task is due.
abbrev pub answer : Option ClientMessage → List ServerMessage
answer none = []
answer (some ping) = pong ∷ []
answer (some (auth user_id token)) = []
answer (some (broadcast text)) = []

abbrev pub forwarded : ℕ → Option ServerMessage → List ServerMessage
forwarded k none = []
forwarded k (some msg) = if k == origin_sender msg then [] else msg ∷ []

abbrev pub news : Postcard → ℕ → Event → List ServerMessage
news postcard k accepted = []
news postcard k (handshake id ok) = []
news postcard k (welcomed id ok) = []
news postcard k (receives_message id ok) = []
news postcard k (heartbeat id ok) = []
news postcard k (sink_closed id) = []
news postcard k (incoming id (binary bytes) redis) =
    if id == k then answer (postcard.client_from_bytes bytes) else []
news postcard k (incoming id pong_frame redis) = []
news postcard k (incoming id close_frame redis) = []
news postcard k (incoming id other_frame redis) = []
news postcard k (incoming id broken redis) = []
news postcard k (incoming id timed_out redis) = []
news postcard k (bus_message payload) = forwarded k (postcard.server_from_bytes payload)

abbrev pub is_late : Phase → Bool
is_late reading = true
is_late returned = true
is_late p = false

pub data Moves (s t : Session) (due : List ServerMessage) : Type 0 where
  stays : t ≡ s → (s.writing ≡ true → due ≡ []) → Moves s t due
  starts : is_late s.phase ≡ false → Moves s t due
  gets : (msg : ServerMessage) → t ≡ pushed msg s → due ≡ msg ∷ [] → Moves s t due
  sends :
      (msg : ServerMessage) (rest : List ServerMessage)
      → s.queue ≡ msg ∷ rest
      → t ≡ record s { queue = rest; sent = s.sent ++ msg ∷ [] }
      → due ≡ []
      → Moves s t due
  stops : t.writing ≡ false → is_late t.phase ≡ true → s.phase ≡ reading → Moves s t due

pub at_session-Moves :
    (id k : ℕ) (session : Session) (sessions : ℕ → Session) (due : List ServerMessage)
    → ((id == k) ≡ false → due ≡ [])
    → (id ≡ k → Moves (sessions id) session due)
    → Moves (sessions k) (at_session id session sessions k) due
at_session-Moves id k session sessions due elsewhere here = elim (Bool-cases (id == k)) [
  | inl e ↦
      let e' : id ≡ k = (==_iff id k).0 e in
      subst (λ t. Moves (sessions k) t due) (sym (if_true session (sessions k) e))
        (subst (λ j. Moves (sessions j) session due) e' (here e'))
  | inr e ↦ stays (if_false session (sessions k) e) (λ w. elsewhere e)
]

pub guarded-Moves :
    (b : Bool) (next node : Node) (k : ℕ) (due : List ServerMessage)
    → (b ≡ true → Moves (node.sessions k) (next.sessions k) due)
    → (b ≡ false → (node.sessions k).writing ≡ true → due ≡ [])
    → Moves (node.sessions k) ((if b then next else node).sessions k) due
guarded-Moves true next node k due h g = h refl
guarded-Moves false next node k due h g = stays refl (g refl)

pub accept-Moves :
    (node : Node) (k : ℕ) → IsNode node → Moves (node.sessions k) ((accept node).sessions k) []
accept-Moves node k n =
    at_session-Moves (node.session_counter + 1) k (record no_session { phase = shaking })
      node.sessions [] (λ e. refl)
      (λ e. starts (ap is_late (n.unborn_after (node.session_counter + 1) (omega arith))))

pub shake-Moves :
    (id k : ℕ) (ok : Bool) (node : Node)
    → (node.sessions id).phase ≡ shaking
    → Moves (node.sessions k) ((shake id ok node).sessions k) []
shake-Moves id k true node p =
    at_session-Moves id k (record (node.sessions id) { phase = greeting; receiving = true })
      node.sessions [] (λ e. refl) (λ e. starts (ap is_late p))
shake-Moves id k false node p =
    at_session-Moves id k (record (node.sessions id) { phase = returned }) node.sessions []
      (λ e. refl) (λ e. starts (ap is_late p))

pub greet_failed-Moves :
    (id k : ℕ) (node : Node)
    → (node.sessions id).phase ≡ greeting
    → Moves (node.sessions k) ((greet_failed id node).sessions k) []
greet_failed-Moves id k node p =
    at_session-Moves id k (record (node.sessions id) { phase = returned; receiving = false })
      node.sessions [] (λ e. refl) (λ e. starts (ap is_late p))

pub greet-Moves :
    (postcard : Postcard) (id k : ℕ) (ok : Bool) (node : Node)
    → (node.sessions id).phase ≡ greeting
    → Moves (node.sessions k) ((greet postcard id ok node).sessions k) []
greet-Moves postcard id k false node p = greet_failed-Moves id k node p
greet-Moves postcard id k true node p = elim (Option-cases (postcard.to_allocvec (welcome id))) [
  | inl refused ↦ rw (refused, greet) (greet_failed-Moves id k node p)
  | inr (bytes, taken) ↦
      rw (taken, greet)
        (at_session-Moves id k
          (record (node.sessions id) {
            phase = reading;
            writing = true;
            sent = (node.sessions id).sent ++ welcome id ∷ [];
          })
          node.sessions [] (λ e. refl) (λ e. starts (ap is_late p)))
]

pub stop_writing-Moves :
    (id k : ℕ) (node : Node)
    → (node.sessions id).phase ≡ reading
    → Moves (node.sessions k) ((stop_writing id node).sessions k) []
stop_writing-Moves id k node p =
    at_session-Moves id k (record (node.sessions id) { writing = false }) node.sessions []
      (λ e. refl) (λ e. stops refl (ap is_late p) p)

pub end_writing-Moves :
    (id k : ℕ) (node : Node)
    → (node.sessions id).phase ≡ reading
    → Moves (node.sessions k) ((end_writing id node).sessions k) []
end_writing-Moves id k node p =
    at_session-Moves id k (record (node.sessions id) { writing = false; receiving = false })
      node.sessions [] (λ e. refl) (λ e. stops refl (ap is_late p) p)

pub leave-Moves :
    (id k : ℕ) (node : Node)
    → (node.sessions id).phase ≡ reading
    → Moves (node.sessions k) ((leave id node).sessions k) []
leave-Moves id k node p =
    at_session-Moves id k
      (record (node.sessions id) { phase = returned; writing = false; receiving = false })
      node.sessions [] (λ e. refl) (λ e. stops refl refl p)
