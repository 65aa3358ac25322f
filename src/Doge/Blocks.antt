-- ===== src/Doge/Blocks.antt =====
-- doge-rust/src/main.rs, `impl Block`. A nonce is a u64; the loop of `mine` runs on fuel.
use rust_samples.Prelude.{
  ℕ, zero, suc, ◌+◌, ◌%◌, ◌^◌, List, [], ◌++◌, Option, none, some, replicate, if◌then◌else◌,
}
use rust_samples.Prelude.Text.{decimal, starts_with}
use rust_samples.Doge.{Transaction, Block, Crates}
use rust_samples.Doge.Hex.{encode}

-- `const DIFFICULTY`.
abbrev pub mining_difficulty : ℕ
mining_difficulty = 4

module _ (crates : Crates) where
  open crates use {Amount, sha256, json}

  unfoldable pub block_hash : Block Amount → List ℕ
  block_hash b = encode (
      sha256 (
        decimal b.index
        ++ (decimal b.timestamp ++ (json b.transactions ++ (b.previous_hash ++ decimal b.nonce)))))

  -- `now` is the time of the call.
  unfoldable pub new_block : ℕ → List (Transaction Amount) → List ℕ → ℕ → Block Amount
  new_block index transactions previous_hash now =
      let block : Block Amount = record {
        index = index;
        timestamp = now;
        transactions = transactions;
        previous_hash = previous_hash;
        hash = [];
        nonce = 0;
      } in
      record block { hash = block_hash block }

  abbrev pub target : ℕ → List ℕ
  target difficulty = replicate difficulty b'0'

  -- `none` means that the fuel ran out.
  unfoldable pub next_nonce : Block Amount → Block Amount
  next_nonce b =
      let tried : Block Amount = record b { nonce = (b.nonce + 1) % 2 ^ 64 } in
      record tried { hash = block_hash tried }

  unfoldable pub mine : ℕ → ℕ → Block Amount → Option (Block Amount)
  unfolding next_nonce
  mine zero difficulty b = none
  mine (suc fuel) difficulty b =
      let again = mine fuel difficulty (next_nonce b) in
      if starts_with (target difficulty) b.hash then some b else again
