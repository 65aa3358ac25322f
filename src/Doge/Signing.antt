-- ===== src/Doge/Signing.antt =====
-- doge-rust/src/main.rs: the transactions that a node lets in.
use rust_samples.Prelude.{
  ℕ, Option, ◌==◌, take, length-take, if_false, ◌<◌, ◌%◌, ◌≡◌, ◌≢◌, refl, ap, ◌∙◌, inl, inr, List,
  [], ◌∷◌, ◌++◌, some, true, false, arith, All, length, list_eq, list_eq_iff, Bool-cases, ==_iff,
}
use rust_samples.Doge.{Transaction, Crates}
use rust_samples.Doge.Hex.{
  encode, decode, decoded, decode-encode, decode_odd, IsDigit, length-encode,
}
use rust_samples.Doge.Transactions.{
  transaction_hash, sign_transaction, verify_signature, verify_with, system, valid, crashed,
}
use rust_samples.Doge.Node.{Message, handle_message, handle_connection}
use rust_samples.Doge.Chain.{Blockchain, Outcome, accepted, add_transaction}

-- What ed25519_dalek documents: the bytes of keys and signatures are of fixed size and are read
-- back, and a key verifies what it signs.
pub record Ed25519 (crates : Crates) : Type 0 where
  pub key_size : (k : crates.VerifyingKey) → length (crates.key_bytes k) ≡ 32
  pub key_are_bytes : (k : crates.VerifyingKey) → All (λ b. b < 256) (crates.key_bytes k)
  pub sig_size : (s : crates.Signature) → length (crates.sig_bytes s) ≡ 64
  pub key_back : (k : crates.VerifyingKey) → crates.key_from_bytes (crates.key_bytes k) ≡ some k
  pub sig_back : (s : crates.Signature) → crates.sig_from_bytes (crates.sig_bytes s) ≡ some s
  pub sign_verify :
      (k : crates.SigningKey) (m : List ℕ)
      → crates.verify (crates.verifying_key k) m (crates.sign k m) ≡ true

not_system : (s : List ℕ) → length s ≢ 6 → list_eq s system ≡ false
not_system s h = elim (Bool-cases (list_eq s system)) [
  | inl same ↦ absurd (h (ap length ((list_eq_iff s system).0 same)))
  | inr other ↦ other
]

not_zero : (n : ℕ) → 0 < n → (n == 0) ≡ false
not_zero n h = ground arith

module _ (crates : Crates) where
  open crates use {Amount, SigningKey, verifying_key, key_bytes, sig_bytes, sign, not_positive}

  verify_with_lem :
      Ed25519 crates
      → (tx : Transaction Amount) (key : SigningKey)
      → verify_with crates tx
          (sig_bytes (sign key (transaction_hash crates tx)))
          (key_bytes (verifying_key key))
        ≡ valid
  unfolding verify_with
  verify_with_lem ed tx key =
      let public = verifying_key key in
      let sig = sign key (transaction_hash crates tx) in
      rw
        (
          (==_iff (length (key_bytes public)) 32).1 (ed.key_size public),
          ed.key_back public,
          (==_iff (length (sig_bytes sig)) 64).1 (ed.sig_size sig),
          ed.sig_back sig,
          ed.sign_verify key (transaction_hash crates tx),
          verify_with,
        )
        refl

  verify_with_signed :
      Ed25519 crates
      → (tx : Transaction Amount) (key : SigningKey)
      → verify_with crates
          (sign_transaction crates tx key)
          (sig_bytes (sign key (transaction_hash crates tx)))
          (key_bytes (verifying_key key))
        ≡ valid
  unfolding sign_transaction transaction_hash
  verify_with_signed ed tx key = verify_with_lem ed (sign_transaction crates tx key) key

  -- A transaction from the address of a key, signed by the key, passes the check.
  pub verify-sign :
      Ed25519 crates
      → (tx : Transaction Amount) (key : SigningKey)
      → tx.sender ≡ encode (key_bytes (verifying_key key))
      → verify_signature crates (sign_transaction crates tx key) ≡ valid
  unfolding verify_signature sign_transaction transaction_hash verify_with
  verify-sign ed tx key e =
      let public = verifying_key key in
      let hash = transaction_hash crates tx in
      let sized : length tx.sender ≢ 6 =
        omega (arith, ap length e, length-encode (key_bytes public), ed.key_size public) in
      let decodes : decode tx.sender ≡ decoded (key_bytes public) =
        ap decode e ∙ decode-encode (key_bytes public) (ed.key_are_bytes public) in
      rw (not_system tx.sender sized, decodes) (verify_with_signed ed tx key)

  system_added :
      (tx : Transaction Amount) (bc : Blockchain Amount)
      → tx.sender ≡ system
      → not_positive tx.amount ≡ false
      → add_transaction crates tx bc
        ≡ (record bc { pending_transactions = bc.pending_transactions ++ tx ∷ [] }, accepted)
  unfolding add_transaction verify_signature
  system_added tx bc e pos = rw (pos, (list_eq_iff tx.sender system).1 e, verify_signature) refl

  -- A message from the network with a transaction that names SYSTEM as its sender and moves a
  -- positive amount is let in, with any receiver and without a signature: it is the last of the
  -- pending transactions after the connection.
  pub system_accepted :
      (from_slice : List ℕ → Option (Message Amount)) (bytes : List ℕ) (tx : Transaction Amount)
      (bc : Blockchain Amount)
      → 0 < length bytes
      → from_slice (take 4096 bytes) ≡ some (Message.new_transaction tx)
      → tx.sender ≡ system
      → not_positive tx.amount ≡ false
      → handle_connection crates from_slice (some bytes) bc
        ≡ record bc { pending_transactions = bc.pending_transactions ++ tx ∷ [] }
  unfolding handle_connection handle_message
  system_accepted from_slice bytes tx bc sent parsed e pos =
      let open_ : (length (take 4096 bytes) == 0) ≡ false =
        not_zero (length (take 4096 bytes)) (omega (arith, length-take 4096 bytes)) in
      if_false bc _ open_ ∙ rw parsed (ap (λ r. r.0) (system_added tx bc e pos))

  -- A signed transaction whose sender is an odd number of hexadecimal digits crashes the task that
  -- checks it, and leaves the chain as it was.
  pub odd_sender_crashes :
      (tx : Transaction Amount) (sig : List ℕ) (bc : Blockchain Amount)
      → All IsDigit tx.sender
      → length tx.sender % 2 ≡ 1
      → tx.signature ≡ some sig
      → not_positive tx.amount ≡ false
      → add_transaction crates tx bc ≡ (bc, Outcome.panicked)
  unfolding add_transaction verify_signature
  odd_sender_crashes tx sig bc digits h e pos =
      let crash : verify_signature crates tx ≡ crashed =
        rw (not_system tx.sender (omega arith), e, decode_odd tx.sender digits h) refl in
      rw (pos, crash) refl
