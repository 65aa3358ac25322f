-- ===== src/Doge.antt =====
-- doge-rust/src/main.rs: transactions, blocks and the chain of a node. Hashing, signatures, JSON
-- and floating point numbers are a parameter.
pub mod Hex
pub mod Transactions
pub mod Blocks
pub mod Chain
pub mod Node
pub mod Signing
pub mod Mining
pub mod Pending
pub mod Linked
mod Tests
use rust_samples.Prelude.{ℕ, ◌≡◌, List, Option, some, Bool, true, length}

pub record Transaction (Amount : Type 0) : Type 0 where
  pub sender : List ℕ
  pub receiver : List ℕ
  pub amount : Amount
  pub signature : Option (List ℕ)

pub record Block (Amount : Type 0) : Type 0 where
  pub index : ℕ
  pub timestamp : ℕ
  pub transactions : List (Transaction Amount)
  pub previous_hash : List ℕ
  pub hash : List ℕ
  pub nonce : ℕ

-- f64, sha2, ed25519_dalek and serde_json as the program uses them.
pub record Crates : Type 1 where
  pub Amount : Type 0
  -- `amount <= 0.0`, the reward of 50.0, the genesis amount, and `{}`.
  pub not_positive : Amount → Bool
  pub mining_reward : Amount
  pub genesis_amount : Amount
  pub show_amount : Amount → List ℕ
  pub sha256 : List ℕ → List ℕ
  pub json : List (Transaction Amount) → List ℕ
  pub SigningKey : Type 0
  pub VerifyingKey : Type 0
  pub Signature : Type 0
  pub verifying_key : SigningKey → VerifyingKey
  pub key_bytes : VerifyingKey → List ℕ
  pub key_from_bytes : List ℕ → Option VerifyingKey
  pub sig_bytes : Signature → List ℕ
  pub sig_from_bytes : List ℕ → Option Signature
  pub sign : SigningKey → List ℕ → Signature
  pub verify : VerifyingKey → List ℕ → Signature → Bool
