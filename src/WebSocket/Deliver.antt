-- ===== src/WebSocket/Deliver.antt =====
-- hl_websocket_server/src/main.rs: what the loop over the registry leaves in the channels.
use rust_samples.Prelude.{
  ℕ, ◌≡◌, refl, ap, sym, subst, ◌∙◌, List, [], ◌∷◌, none, some, some_inj, Bool, true, false, not,
  ◌&&◌, ◌==◌, ==_iff, nat_key, if◌then◌else◌, if_true, if_false, Bool-cases, inl, inr, arith,
}
use rust_samples.Prelude.Maps.{lookup, insert, remove, lookup-insert, lookup-remove}
use rust_samples.WebSocket.{ServerMessage, Session, ClientSender}
use rust_samples.WebSocket.Tasks.{pushed, send, deliver}

abbrev pub is_connected : ℕ → List (ℕ × ClientSender) → Bool
is_connected k connections = elim (lookup k connections) [ none ↦ false | some sender ↦ true ]

-- Each number is there once, with the sender of its own session.
abbrev pub IsRegistry : List (ℕ × ClientSender) → Type 0
IsRegistry [] = Unit
IsRegistry ((key, sender) ∷ targets) =
    (sender ≡ key) × (is_connected key targets ≡ false) × IsRegistry targets

pub registered_sender :
    (id : ℕ) (connections : List (ℕ × ClientSender)) {sender : ClientSender}
    → IsRegistry connections
    → lookup id connections ≡ some sender
    → sender ≡ id
registered_sender id [] h e = cc
registered_sender id ((key, own_sender) ∷ targets) (own, fresh, rest) e =
    elim (Bool-cases (key == id)) [
      | inl here ↦
          sym (some_inj.0 (sym (if_true (some own_sender) (lookup id targets) here) ∙ e))
          ∙ own
          ∙ (==_iff key id).0 here
      | inr there ↦
          registered_sender id targets rest
            (sym (if_false (some own_sender) (lookup id targets) there) ∙ e)
    ]

pub connected-insert :
    (k id : ℕ) (connections : List (ℕ × ClientSender))
    → is_connected k (insert id id connections)
      ≡ (if id == k then true else is_connected k connections)
connected-insert k id connections =
    rw (lookup-insert id k id connections, is_connected) (ground arith)

pub connected-remove :
    (k id : ℕ) (connections : List (ℕ × ClientSender))
    → is_connected k (remove id connections)
      ≡ (if id == k then false else is_connected k connections)
connected-remove k id connections = rw (lookup-remove id k connections, is_connected) (ground arith)

pub insert-IsRegistry :
    (id : ℕ) (connections : List (ℕ × ClientSender))
    → IsRegistry connections
    → IsRegistry (insert id id connections)
insert-IsRegistry id [] h = (refl, refl, tt)
insert-IsRegistry id ((key, sender) ∷ targets) (own, fresh, rest) = ground (
  arith,
  ==_iff key id,
  ==_iff id key,
  connected-insert key id targets,
  insert-IsRegistry id targets rest,
)

pub remove-IsRegistry :
    (id : ℕ) (connections : List (ℕ × ClientSender))
    → IsRegistry connections
    → IsRegistry (remove id connections)
remove-IsRegistry id [] h = tt
remove-IsRegistry id ((key, sender) ∷ targets) (own, fresh, rest) =
    ground (arith, connected-remove key id targets, remove-IsRegistry id targets rest)

send_own :
    (sender k : ℕ) (msg : ServerMessage) (sessions : ℕ → Session)
    → sender ≡ k
    → send sender msg sessions k ≡ pushed msg (sessions k)
send_own sender k msg sessions e =
    if_true (pushed msg (sessions sender)) (sessions k) ((==_iff sender k).1 e)
    ∙ ap (λ j. pushed msg (sessions j)) e

send_other :
    (sender k : ℕ) (msg : ServerMessage) (sessions : ℕ → Session)
    → (sender == k) ≡ false
    → send sender msg sessions k ≡ sessions k
send_other sender k msg sessions e = if_false (pushed msg (sessions sender)) (sessions k) e

connected_head :
    (k key : ℕ) (sender : ClientSender) (targets : List (ℕ × ClientSender))
    → is_connected k ((key, sender) ∷ targets) ≡ (if key == k then true else is_connected k targets)
connected_head k key sender targets = ground arith

-- The loop puts the message once into the channel of each registered session but the origin's.
pub deliver_at :
    (msg : ServerMessage) (origin k : ℕ) (connections : List (ℕ × ClientSender))
    (sessions : ℕ → Session)
    → IsRegistry connections
    → deliver msg origin connections sessions k ≡ (
        if is_connected k connections && not (k == origin)
        then pushed msg (sessions k)
        else sessions k)
unfolding deliver
deliver_at msg origin k [] sessions h = refl
deliver_at msg origin k ((key, sender) ∷ targets) sessions (own, fresh, rest) =
    elim (Bool-cases (key == origin)) [
      | inl same ↦
          ap (λ (S : ℕ → Session). deliver msg origin targets S k)
            (if_false (send sender msg sessions) sessions (ap not same))
          ∙ deliver_at msg origin k targets sessions rest
          ∙ ground (arith, ==_iff key origin, ==_iff k origin, ==_iff key k)
      | inr other ↦
          ap (λ (S : ℕ → Session). deliver msg origin targets S k)
            (if_true (send sender msg sessions) sessions (ap not other))
          ∙ deliver_at msg origin k targets (send sender msg sessions) rest
          ∙ last_target other
    ]
  where
    last_target :
        (key == origin) ≡ false
        → (if is_connected k targets && not (k == origin)
            then pushed msg (send sender msg sessions k)
            else send sender msg sessions k)
          ≡ (if is_connected k ((key, sender) ∷ targets) && not (k == origin)
              then pushed msg (sessions k)
              else sessions k)
    last_target other = elim (Bool-cases (key == k)) [
      | inl e ↦
          let e' : key ≡ k = (==_iff key k).0 e in
          if_false (pushed msg (send sender msg sessions k)) (send sender msg sessions k) (
            ap (λ b. b && not (k == origin)) (subst (λ j. is_connected j targets ≡ false) e' fresh))
          ∙ send_own sender k msg sessions (own ∙ e')
          ∙ sym (
              if_true (pushed msg (sessions k)) (sessions k)
                (rw (connected_head k key sender targets, e) (ap not (rw e' at other))))
      | inr e ↦
          rw
            (
              send_other sender k msg sessions (ap (λ j. j == k) own ∙ e),
              connected_head k key sender targets,
              e,
            )
            refl
    ]
