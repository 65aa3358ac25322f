-- ===== src/WebSocket/Tests.antt =====
-- The theorems on the server at concrete events, with a small codec in the place of postcard.
use rust_samples.Prelude.{
  ℕ, zero, suc, ◌≡◌, refl, List, [], ◌∷◌, ◌++◌, Option, none, some, true, false,
}
use rust_samples.WebSocket.{
  ClientMessage, ping, broadcast, ServerMessage, pong, welcome, notification, error, Postcard,
  returned, Event, binary, close_frame, accepted, handshake, welcomed, receives_message, incoming,
  bus_message,
}
use rust_samples.WebSocket.Tasks.{new_node, step, run}
use rust_samples.WebSocket.Deliver.{is_connected}
use rust_samples.WebSocket.Entries.{IsEntered, run-IsEntered}
use rust_samples.WebSocket.Leak.{failed_welcome_leaks}
use rust_samples.WebSocket.Stream.{stream, stream_lem}
use rust_samples.WebSocket.Broadcast.{broadcast_lem}

abbrev encode : ServerMessage → List ℕ
encode pong = 0 ∷ []
encode (welcome session_id) = 1 ∷ session_id ∷ []
encode (notification from_user text) = 2 ∷ from_user ∷ text
encode (error code msg) = 3 ∷ code ∷ msg

abbrev decode : List ℕ → Option ServerMessage
decode (zero ∷ []) = some pong
decode (suc zero ∷ session_id ∷ []) = some (welcome session_id)
decode (suc (suc zero) ∷ from_user ∷ text) = some (notification from_user text)
decode (suc (suc (suc zero)) ∷ code ∷ msg) = some (error code msg)
decode bytes = none

abbrev decode_client : List ℕ → Option ClientMessage
decode_client (zero ∷ []) = some ping
decode_client (suc (suc zero) ∷ text) = some (broadcast text)
decode_client bytes = none

abbrev small : Postcard
small = record {
  to_allocvec = λ msg. some (encode msg);
  client_from_bytes = decode_client;
  server_from_bytes = decode;
}

abbrev joins : ℕ → List Event
joins k = accepted ∷ handshake k true ∷ welcomed k true ∷ []

abbrev two_clients : List Event
two_clients = joins 1 ++ joins 2

-- Client 1 pings and broadcasts, client 2 leaves, and the bus brings two texts.
abbrev busy : List Event
busy =
    incoming 1 (binary (0 ∷ [])) true
    ∷ incoming 1 (binary (2 ∷ 77 ∷ [])) true
    ∷ bus_message (2 ∷ 1 ∷ 77 ∷ [])
    ∷ receives_message 1 true
    ∷ incoming 2 close_frame true
    ∷ bus_message (2 ∷ 9 ∷ 78 ∷ [])
    ∷ []

run-IsEntered_example :
    let node = run small (two_clients ++ busy) new_node in
    IsEntered 1 (is_connected 1 node.connections) (node.sessions 1)
run-IsEntered_example = run-IsEntered small (two_clients ++ busy) 1

failed_welcome_leaks_example :
    let failed =
      step small
        (welcomed 2 false)
        (run small (joins 1 ++ accepted ∷ handshake 2 true ∷ []) new_node) in
    let later = run small (bus_message (2 ∷ 9 ∷ 78 ∷ []) ∷ []) failed in
    (is_connected 2 later.connections ≡ true)
    × ((later.sessions 2).phase ≡ returned)
    × ((later.sessions 2).receiving ≡ false)
unfolding run
failed_welcome_leaks_example =
    failed_welcome_leaks small (λ msg. (encode msg, refl)) 2
      (joins 1 ++ accepted ∷ handshake 2 true ∷ []) (bus_message (2 ∷ 9 ∷ 78 ∷ []) ∷ []) refl

stream_lem_example :
    stream ((run small busy (run small two_clients new_node)).sessions 1)
    ≡ welcome 1 ∷ pong ∷ notification 9 (78 ∷ []) ∷ []
unfolding run
stream_lem_example = stream_lem small (λ msg. (encode msg, refl)) 1 two_clients busy refl refl

broadcast_lem_example :
    let here = run small two_clients new_node in
    ((step small (incoming 1 (binary (2 ∷ 77 ∷ [])) true) here).published
      ≡ here.published ++ (2 ∷ 1 ∷ 77 ∷ []) ∷ [])
    × (((step small (bus_message (2 ∷ 1 ∷ 77 ∷ [])) here).sessions 2).queue
        ≡ notification 1 (77 ∷ []) ∷ [])
unfolding run
broadcast_lem_example =
    broadcast_lem small two_clients two_clients 1 2 (2 ∷ 77 ∷ []) (77 ∷ []) (2 ∷ 1 ∷ 77 ∷ []) refl
      refl refl refl
