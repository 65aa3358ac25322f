-- ===== src/Doge/Transactions.antt =====
-- doge-rust/src/main.rs, `impl Transaction`.
use rust_samples.Prelude.{
  ℕ, List, ◌++◌, none, some, Bool, true, false, ◌==◌, length, replicate, list_eq, if◌then◌else◌,
}
use rust_samples.Prelude.Text.{codes}
use rust_samples.Doge.{Transaction, Crates}
use rust_samples.Doge.Hex.{decode, decoded, parse_error, panicked}

abbrev pub system : List ℕ
system = codes "SYSTEM"

-- `try_into().unwrap_or([0; n])`: bytes of another length give n zeros.
abbrev pub array_or_zeros : ℕ → List ℕ → List ℕ
array_or_zeros n bytes = if length bytes == n then bytes else replicate n 0

-- What a check comes to; a panic ends the task.
pub data Checked : Type 0 where
  valid invalid crashed : Checked

module _ (crates : Crates) where
  open crates use {
    Amount, show_amount, sha256, SigningKey, VerifyingKey, Signature, sig_bytes, sign,
    key_from_bytes, sig_from_bytes, verify,
  }

  unfoldable pub new_transaction : List ℕ → List ℕ → Amount → Transaction Amount
  new_transaction sender receiver amount = record {
    sender = sender;
    receiver = receiver;
    amount = amount;
    signature = none;
  }

  unfoldable pub transaction_hash : Transaction Amount → List ℕ
  transaction_hash tx = sha256 (tx.sender ++ (tx.receiver ++ show_amount tx.amount))

  unfoldable pub sign_transaction : Transaction Amount → SigningKey → Transaction Amount
  unfolding transaction_hash
  sign_transaction tx signing_key = record tx {
    signature = some (sig_bytes (sign signing_key (transaction_hash tx)));
  }

  abbrev pub checked : Bool → Checked
  checked true = valid
  checked false = invalid

  -- The check with the bytes of the sender's key.
  unfoldable pub verify_with : Transaction Amount → List ℕ → List ℕ → Checked
  unfolding transaction_hash
  verify_with tx sig_bytes key_bytes = elim (key_from_bytes (array_or_zeros 32 key_bytes)) [
    | none ↦ invalid
    | some key ↦ elim (sig_from_bytes (array_or_zeros 64 sig_bytes)) [
      | none ↦ invalid
      | some sig ↦ checked (verify key (transaction_hash tx) sig)
    ]
  ]

  unfoldable pub verify_signature : Transaction Amount → Checked
  unfolding verify_with decode
  verify_signature tx = if list_eq tx.sender system then valid else (elim tx.signature [
    | none ↦ invalid
    | some bytes ↦ elim (decode tx.sender) [
      | decoded key_bytes ↦ verify_with tx bytes key_bytes
      | parse_error ↦ invalid
      | panicked ↦ crashed
    ]
  ])
