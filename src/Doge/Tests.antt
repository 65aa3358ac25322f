-- ===== src/Doge/Tests.antt =====
-- The theorems on the chain at concrete blocks and transactions.
use rust_samples.Prelude.{
  ℕ, ◌≡◌, refl, ◌<◌, List, [], ◌∷◌, Option, none, some, true, arith, replicate, ◌==◌, length,
  if◌then◌else◌,
}
use rust_samples.Prelude.Text.{codes, starts_with}
use rust_samples.Doge.{Transaction, Block, Crates}
use rust_samples.Doge.Hex.{encode}
use rust_samples.Doge.Transactions
use rust_samples.Doge.Transactions.{system, sign_transaction, verify_signature, valid}
use rust_samples.Doge.Blocks.{block_hash, new_block, mine, target}
use rust_samples.Doge.Mining.{Mined, mine_finds}
use rust_samples.Doge.Chain.{
  Blockchain, accepted, genesis, candidate, mine_pending_transactions, add_block_from_network,
}
use rust_samples.Doge.Node.{Message, serve}
use rust_samples.Doge.Signing.{Ed25519, verify-sign}
use rust_samples.Doge.Pending.{mine_pending_lem}
use rust_samples.Doge.Linked.{Keeps, IsLinked, serve-IsLinked}

-- One key, amounts in whole coins, and a hash that meets every difficulty.
abbrev toy : Crates
toy = record {
  Amount = ℕ;
  not_positive = λ n. n == 0;
  mining_reward = 50;
  genesis_amount = 50;
  show_amount = λ n. [];
  sha256 = λ bytes. replicate 32 0;
  json = λ txs. [];
  SigningKey = Unit;
  VerifyingKey = Unit;
  Signature = Unit;
  verifying_key = λ k. tt;
  key_bytes = λ k. replicate 32 1;
  key_from_bytes = λ bytes. some tt;
  sig_bytes = λ s. replicate 64 1;
  sig_from_bytes = λ bytes. some tt;
  sign = λ k m. tt;
  verify = λ k m s. true;
}

abbrev one_below_256 : 1 < 256
one_below_256 = omega arith

toy-Ed25519 : Ed25519 toy
toy-Ed25519 = record {
  key_size = λ k. refl;
  key_are_bytes = λ k. ground arith;
  sig_size = λ s. refl;
  key_back = λ k. refl;
  sig_back = λ s. refl;
  sign_verify = λ k m. refl;
}

abbrev address : List ℕ
address = encode (replicate 32 1)

abbrev payment : Transaction ℕ
payment = record { sender = address; receiver = codes "bob"; amount = 3; signature = none }

abbrev first : Block ℕ
first = record {
  index = 0;
  timestamp = 7;
  transactions = [];
  previous_hash = codes "0";
  hash = replicate 64 b'0';
  nonce = 0;
}

abbrev node : Blockchain ℕ
node = record { chain = first ∷ []; pending_transactions = payment ∷ [] }

abbrev wire_message : List ℕ → Option (Message ℕ)
wire_message bytes = if length bytes == 1 then some (Message.new_transaction payment) else none

verify-sign_example : verify_signature toy (sign_transaction toy payment tt) ≡ valid
verify-sign_example = verify-sign toy toy-Ed25519 payment tt refl

abbrev from_system : Transaction ℕ
from_system = record { sender = system; receiver = codes "eve"; amount = 1000; signature = none }

abbrev forger : List ℕ → Option (Message ℕ)
forger bytes = some (Message.new_transaction from_system)

abbrev odd : Transaction ℕ
odd = record { sender = codes "abc"; receiver = []; amount = 1; signature = some [] }

first_hash : first.hash ≡ block_hash toy first
unfolding block_hash encode
first_hash = refl

mine_finds_example : (c : Block ℕ) × (mine toy 5 4 first ≡ some c) × Mined toy 4 first c
mine_finds_example = mine_finds toy 0 5 4 first first_hash (omega arith) refl

abbrev start : Blockchain ℕ
start = record {
  chain =
      record {
        index = 0;
        timestamp = 7;
        transactions =
            record {
              sender = system;
              receiver = codes "Genesis_Receiver";
              amount = 50;
              signature = none;
            }
            ∷ [];
        previous_hash = codes "0";
        hash = replicate 64 b'0';
        nonce = 0;
      }
      ∷ [];
  pending_transactions = [];
}

start_lem : genesis toy 1 7 ≡ some start
unfolding genesis mine new_block Transactions.new_transaction block_hash encode
start_lem = refl

serve-IsLinked_example :
    let node = serve toy wire_message (some (1 ∷ []) ∷ none ∷ []) start in
    IsLinked toy node.chain × Keeps toy node (serve toy wire_message (some (1 ∷ []) ∷ []) node)
serve-IsLinked_example =
    serve-IsLinked toy 1 7 start start_lem wire_message (some (1 ∷ []) ∷ none ∷ [])
      (some (1 ∷ []) ∷ [])

abbrev peer : Blockchain ℕ
peer = record { chain = first ∷ []; pending_transactions = [] }

mine_pending_lem_example :
    (b : Block ℕ) × let grown : Blockchain ℕ = record {
      chain = first ∷ b ∷ [];
      pending_transactions = [];
    } in
      (mine_pending_transactions toy 1 address 9 node ≡ some (grown, b))
      × (b.transactions ≡ Transactions.new_transaction toy system address 50 ∷ payment ∷ [])
      × (starts_with (target toy 4) b.hash ≡ true)
      × (add_block_from_network toy b peer ≡ (grown, accepted))
unfolding candidate new_block block_hash encode
mine_pending_lem_example =
    mine_pending_lem toy 0 1 address 9 node peer first refl (omega arith) refl refl
