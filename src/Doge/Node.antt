-- ===== src/Doge/Node.antt =====
-- doge-rust/src/main.rs, the messages between nodes.
use rust_samples.Prelude.{
  ℕ, List, [], ◌∷◌, Option, none, some, Bool, take, ◌==◌, length, if◌then◌else◌,
}
use rust_samples.Doge.{Transaction, Block, Crates}
use rust_samples.Doge.Chain.{Blockchain, Outcome, add_transaction, add_block_from_network}

pub data Message (Amount : Type 0) : Type 0 where
  new_transaction : Transaction Amount → Message Amount
  new_block : Block Amount → Message Amount

module _ (crates : Crates) where
  open crates use {Amount}

  -- Under the lock of the chain.
  unfoldable pub handle_message : Message Amount → Blockchain Amount → Blockchain Amount × Outcome
  handle_message (new_transaction tx) bc = add_transaction crates tx bc
  handle_message (new_block block) bc = add_block_from_network crates block bc

  -- One connection: `none` is a failed read; the buffer holds 4096 bytes. `from_slice` is
  -- serde_json's. What the operation answers is printed only.
  unfoldable pub handle_connection :
      (List ℕ → Option (Message Amount)) → Option (List ℕ) → Blockchain Amount → Blockchain Amount
  handle_connection from_slice none bc = bc
  handle_connection from_slice (some bytes) bc =
      let buffer = take 4096 bytes in
      if length buffer == 0
      then bc
      else (elim (from_slice buffer) [ none ↦ bc | some msg ↦ (handle_message msg bc).0 ])

  -- A node under a sequence of connections.
  unfoldable pub serve :
      (List ℕ → Option (Message Amount))
      → List (Option (List ℕ))
      → Blockchain Amount
      → Blockchain Amount
  serve from_slice [] bc = bc
  serve from_slice (stream ∷ streams) bc =
      serve from_slice streams (handle_connection from_slice stream bc)

-- `broadcast_message`: the peers that can be reached get the payload.
unfoldable pub broadcast_message {ℓ} :
    {Peer : Type ℓ} → (Peer → Bool) → List ℕ → List Peer → List (Peer × List ℕ)
broadcast_message connects payload [] = []
broadcast_message connects payload (peer ∷ peers) =
    let rest = broadcast_message connects payload peers in
    if connects peer then (peer, payload) ∷ rest else rest
