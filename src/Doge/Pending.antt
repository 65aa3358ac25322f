-- ===== src/Doge/Pending.antt =====
-- doge-rust/src/main.rs: a block that is mined out of the pending
-- transactions, and taken by a peer.
use rust_samples.Prelude.{
  ℕ, ◌≡◌, refl, ap, Option, ◌∙◌, List, [], ◌∷◌, ◌++◌, some, true, ◌<◌, list_eq, list_eq_iff,
  and_then,
}
use rust_samples.Doge.{Block, Crates}
use rust_samples.Doge.Blocks.{block_hash, new_block, mine, target}
use rust_samples.Prelude.Text.{starts_with}
use rust_samples.Doge.Transactions
use rust_samples.Doge.Transactions.{system}
use rust_samples.Doge.Mining.{attempt, mine_finds}
use rust_samples.Doge.Chain.{
  Blockchain, accepted, last, candidate, mine_pending_transactions, add_block_from_network,
}

module _ (crates : Crates) where
  open crates use {Amount}

  pub candidate-own :
      (miner : List ℕ) (now : ℕ) (bc : Blockchain Amount) (l : Block Amount)
      → (candidate crates miner now bc l).hash ≡ block_hash crates (candidate crates miner now bc l)
  unfolding candidate new_block block_hash
  candidate-own miner now bc l = refl

  pub candidate-previous :
      (miner : List ℕ) (now : ℕ) (bc : Blockchain Amount) (l : Block Amount)
      → (candidate crates miner now bc l).previous_hash ≡ l.hash
  unfolding candidate new_block
  candidate-previous miner now bc l = refl

  pub candidate-transactions :
      (miner : List ℕ) (now : ℕ) (bc : Blockchain Amount) (l : Block Amount)
      → (candidate crates miner now bc l).transactions
        ≡ Transactions.new_transaction crates system miner crates.mining_reward
          ∷ bc.pending_transactions
  unfolding candidate new_block
  candidate-transactions miner now bc l = refl

  -- A block that carries its own hash and names the last one is taken from the network.
  add_block-accepted :
      (b l : Block Amount) (peer : Blockchain Amount)
      → last peer.chain ≡ some l
      → b.previous_hash ≡ l.hash
      → b.hash ≡ block_hash crates b
      → add_block_from_network crates b peer
        ≡ (record { chain = peer.chain ++ b ∷ []; pending_transactions = [] }, accepted)
  unfolding add_block_from_network
  add_block-accepted b l peer at_end names own =
      let linked : list_eq b.previous_hash l.hash ≡ true =
        (list_eq_iff b.previous_hash l.hash).1 names in
      let intact : list_eq b.hash (block_hash crates b) ≡ true =
        (list_eq_iff b.hash (block_hash crates b)).1 own in
      rw (at_end, add_block_from_network) (rw (linked, intact) refl)

  abbrev mined_onto : Blockchain Amount → Block Amount → Option (Blockchain Amount × Block Amount)
  mined_onto bc block =
      some (record { chain = bc.chain ++ block ∷ []; pending_transactions = [] }, block)

  mine_pending-mined :
      (fuel : ℕ) (miner : List ℕ) (now : ℕ) (bc : Blockchain Amount) (l b : Block Amount)
      → last bc.chain ≡ some l
      → mine crates fuel 4 (candidate crates miner now bc l) ≡ some b
      → mine_pending_transactions crates fuel miner now bc
        ≡ some (record { chain = bc.chain ++ b ∷ []; pending_transactions = [] }, b)
  unfolding mine_pending_transactions
  mine_pending-mined fuel miner now bc l b at_end runs =
      ap
        (λ o.
          and_then o
            (λ x. and_then (mine crates fuel 4 (candidate crates miner now bc x)) (mined_onto bc)))
        at_end
      ∙ ap (λ o. and_then o (mined_onto bc)) runs

  -- Where a hash within the first `k` attempts at the next block meets the difficulty, any fuel
  -- above `k` lets a node with a block at its end mine: the new block ends its chain, holds the
  -- reward and then all pending transactions, which are pending no more, and its hash meets the
  -- difficulty. A peer with the same chain accepts the block from the network, and is then in the
  -- same state as the miner, whatever was pending at the peer.
  pub mine_pending_lem :
      (k fuel : ℕ) (miner : List ℕ) (now : ℕ) (bc peer : Blockchain Amount) (l : Block Amount)
      → last bc.chain ≡ some l
      → k < fuel
      → starts_with (target crates 4) (attempt crates k (candidate crates miner now bc l)).hash
        ≡ true
      → peer.chain ≡ bc.chain
      → (b : Block Amount) × let grown : Blockchain Amount = record {
        chain = bc.chain ++ b ∷ [];
        pending_transactions = [];
      } in
          (mine_pending_transactions crates fuel miner now bc ≡ some (grown, b))
          × (b.transactions
              ≡ Transactions.new_transaction crates system miner crates.mining_reward
                ∷ bc.pending_transactions)
          × (starts_with (target crates 4) b.hash ≡ true)
          × (add_block_from_network crates b peer ≡ (grown, accepted))
  mine_pending_lem k fuel miner now bc peer l at_end enough good same =
      let next = candidate crates miner now bc l in
      let (b, runs, m) =
        mine_finds crates k fuel 4 next (candidate-own miner now bc l) enough good in
      let grown : List (Block Amount) → Blockchain Amount =
        λ chain. record { chain = chain ++ b ∷ []; pending_transactions = [] } in
      (
        b,
        (
          mine_pending-mined fuel miner now bc l b at_end runs,
          m.transactions ∙ candidate-transactions miner now bc l,
          m.work,
          add_block-accepted b l peer (ap last same ∙ at_end)
                (m.previous_hash ∙ candidate-previous miner now bc l) m.own_hash
              ∙ ap (λ chain. (grown chain, accepted)) same,
        ),
      )
