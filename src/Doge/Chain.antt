-- ===== src/Doge/Chain.antt =====
-- doge-rust/src/main.rs, `impl Blockchain`.
use rust_samples.Prelude.{
  ℕ, ◌+◌, ◌%◌, ◌^◌, List, [], ◌∷◌, ◌++◌, Option, none, some, not, list_eq, and_then, if◌then◌else◌,
}
use rust_samples.Prelude.Text.{codes}
use rust_samples.Doge.{Transaction, Block, Crates}
use rust_samples.Doge.Transactions.{
  new_transaction, system, verify_signature, valid, invalid, crashed,
}
use rust_samples.Doge.Blocks.{block_hash, new_block, mine, mining_difficulty}

pub record Blockchain (Amount : Type 0) : Type 0 where
  pub chain : List (Block Amount)
  pub pending_transactions : List (Transaction Amount)

-- What an operation on the chain answers.
pub data Outcome : Type 0 where
  accepted : Outcome
  amount_not_positive signature_invalid previous_hash_differs hash_corrupted : Outcome
  panicked : Outcome

-- `slice::last`.
abbrev pub last {ℓ} : {A : Type ℓ} → List A → Option A
last [] = none
last (x ∷ []) = some x
last (x ∷ y ∷ ys) = last (y ∷ ys)

module _ (crates : Crates) where
  open crates use {Amount, not_positive, mining_reward, genesis_amount}

  -- `Blockchain::new`, with fuel for the mining of the genesis block.
  unfoldable pub genesis : ℕ → ℕ → Option (Blockchain Amount)
  genesis fuel now =
      and_then
        (mine crates fuel mining_difficulty (
          new_block crates 0
            (new_transaction crates system (codes "Genesis_Receiver") genesis_amount ∷ [])
            (codes "0") now))
        (λ block. some (record { chain = block ∷ []; pending_transactions = [] }))

  unfoldable pub add_transaction :
      Transaction Amount → Blockchain Amount → Blockchain Amount × Outcome
  add_transaction tx bc =
      if not_positive tx.amount
      then (bc, amount_not_positive)
      else (elim (verify_signature crates tx) [
        | valid ↦
            (record bc { pending_transactions = bc.pending_transactions ++ tx ∷ [] }, accepted)
        | invalid ↦ (bc, signature_invalid)
        | crashed ↦ (bc, panicked)
      ])

  -- The block that is mined next, before its nonce is searched.
  unfoldable pub candidate : List ℕ → ℕ → Blockchain Amount → Block Amount → Block Amount
  candidate miner_address now bc last_block =
      new_block crates ((last_block.index + 1) % 2 ^ 32)
        (new_transaction crates system miner_address mining_reward ∷ bc.pending_transactions)
        last_block.hash now

  -- `none`: the fuel ran out, or the chain is empty.
  unfoldable pub mine_pending_transactions :
      ℕ → List ℕ → ℕ → Blockchain Amount → Option (Blockchain Amount × Block Amount)
  unfolding candidate
  mine_pending_transactions fuel miner_address now bc = and_then (last bc.chain) λ last_block.
      and_then (mine crates fuel mining_difficulty (candidate miner_address now bc last_block))
        λ block. some (record { chain = bc.chain ++ block ∷ []; pending_transactions = [] }, block)

  unfoldable pub add_block_from_network :
      Block Amount → Blockchain Amount → Blockchain Amount × Outcome
  add_block_from_network block bc = elim (last bc.chain) [
    | none ↦ (bc, panicked)
    | some last_block ↦
        if not (list_eq block.previous_hash last_block.hash)
        then (bc, previous_hash_differs)
        else if not (list_eq block.hash (block_hash crates block))
        then (bc, hash_corrupted)
        else (record { chain = bc.chain ++ block ∷ []; pending_transactions = [] }, accepted)
  ]
